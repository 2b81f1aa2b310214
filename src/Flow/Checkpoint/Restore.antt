-- ===== src/Flow/Checkpoint/Restore.antt =====
-- flow/checkpoint.go and flow/resume.go: a checkpoint passes its own rule, and Resume reads back the
-- outcomes that it was built from.
use mivia_ai_sdk.Base.{
  ◌≡◌, ◌≢◌, refl, sym, ◌∙◌, ap, subst, inl, inr, String, List, [], ◌∷◌, ◌++◌, Bool, true, false,
  Option, none, some, str_eq, str_eq-false, eq_iff, if◌then◌else◌, Assoc, lookup, lookup-insert,
  insert, keys, contains, In→contains, not-In, In, Bool-cases, arith, contains-append,
}
use mivia_ai_sdk.Base.Keys.{Distinct}
use mivia_ai_sdk.Base.Sort.{contains-sort, sort-is_sorted, is_sorted, sort-Distinct}
use mivia_ai_sdk.Flow.Step.{Step, Outcome, succeeded, failed, skipped}
use mivia_ai_sdk.Flow.Checkpoint.{
  any_seen, check_groups, validate, outcome_eq, ids_with, ids_with_outcome, checkpoint_of, has_step,
  seed_ids, seed,
}

-- The IDs whose outcome is `want`, as a test on what the map reads.
abbrev has_outcome : Option Outcome → Outcome → Bool
has_outcome none want = false
has_outcome (some o) want = outcome_eq o want

lookup-keys : (m : Assoc Outcome) (k : String) → ¬ In k (keys m) → lookup k m ≡ none
unfolding lookup
lookup-keys [] k h = refl
lookup-keys ((j, o) ∷ m) k h = elim (Bool-cases (str_eq j k)) [
  | inl e ↦ absurd (h (inl (sym ((eq_iff j k).0 e))))
  | inr e ↦ rw (e, lookup) (lookup-keys m k (λ i. h (inr i)))
]

contains-ids_with :
    (m : Assoc Outcome) (want : Outcome) (k : String)
    → Distinct (keys m)
    → contains (ids_with m want) k ≡ has_outcome (lookup k m) want
unfolding ids_with lookup contains
contains-ids_with [] want k d = refl
contains-ids_with ((j, o) ∷ m) want k d = elim (Bool-cases (str_eq j k)) [
  | inl e ↦
      let gone : lookup k m ≡ none =
        lookup-keys m k (subst (λ x. ¬ In x (keys m)) ((eq_iff j k).0 e) d.0) in
      let out : contains (ids_with m want) k ≡ false =
        contains-ids_with m want k d.1 ∙ ap (λ x. has_outcome x want) gone in
      elim (Bool-cases (outcome_eq o want)) [
        | inl q ↦ rw (q, e, ids_with, lookup) (ground (arith, out))
        | inr q ↦ rw (q, e, ids_with, lookup) (ground (arith, out))
      ]
  | inr e ↦ elim (Bool-cases (outcome_eq o want)) [
    | inl q ↦ rw (q, e, ids_with, lookup) (ground (arith, contains-ids_with m want k d.1))
    | inr q ↦ rw (q, e, ids_with, lookup) (contains-ids_with m want k d.1)
  ]
]

-- The group of an outcome in a checkpoint holds the IDs that have it.
contains-group :
    (m : Assoc Outcome) (want : Outcome) (k : String)
    → Distinct (keys m)
    → contains (ids_with_outcome m want) k ≡ has_outcome (lookup k m) want
unfolding ids_with_outcome
contains-group m want k d = contains-sort (ids_with m want) k ∙ contains-ids_with m want k d

ids_with-Distinct :
    (m : Assoc Outcome) (want : Outcome) → Distinct (keys m) → Distinct (ids_with m want)
unfolding ids_with
ids_with-Distinct [] want d = tt
ids_with-Distinct ((j, o) ∷ m) want d = elim (Bool-cases (outcome_eq o want)) [
  | inl q ↦
      rw (q, ids_with)
        (
          not-In (ids_with m want) j
              (contains-ids_with m want j d.1 ∙ ap (λ x. has_outcome x want) (lookup-keys m j d.0)),
          ids_with-Distinct m want d.1,
        )
  | inr q ↦ rw (q, ids_with) (ids_with-Distinct m want d.1)
]

any_seen-false :
    (seen xs : List String)
    → Distinct xs
    → ((a : String) → In a xs → contains seen a ≡ false)
    → any_seen seen xs ≡ false
unfolding any_seen
any_seen-false seen [] d h = refl
any_seen-false seen (x ∷ xs) d h =
    ground (arith, h x (inl refl), any_seen-false (x ∷ seen) xs d.1 fresh)
  where
    fresh : (a : String) → In a xs → contains (x ∷ seen) a ≡ false
    fresh a i = unfold contains in ground (arith, h a (inr i), (eq_iff x a).0, d.0)

-- No ID stands in the groups of two different outcomes.
apart :
    (m : Assoc Outcome) (a b : Outcome) (k : String)
    → Distinct (keys m)
    → outcome_eq a b ≡ false
    → In k (ids_with_outcome m a)
    → contains (ids_with_outcome m b) k ≡ false
apart m a b k d n i =
    contains-group m b k d
    ∙ other (lookup k m) (sym (contains-group m a k d) ∙ In→contains (ids_with_outcome m a) k i)
  where
    other_outcome :
        (o a b : Outcome) → outcome_eq a b ≡ false → outcome_eq o a ≡ true → outcome_eq o b ≡ false
    other_outcome o a b n h = unfold outcome_eq in ground arith

    other : (o : Option Outcome) → has_outcome o a ≡ true → has_outcome o b ≡ false
    other none h = refl
    other (some o) h = other_outcome o a b n h

group-Distinct :
    (m : Assoc Outcome) (a : Outcome) → Distinct (keys m) → Distinct (ids_with_outcome m a)
unfolding ids_with_outcome
group-Distinct m a d = sort-Distinct (ids_with m a) (ids_with-Distinct m a d)

group-is_sorted : (m : Assoc Outcome) (a : Outcome) → is_sorted (ids_with_outcome m a) ≡ true
unfolding ids_with_outcome
group-is_sorted m a = sort-is_sorted (ids_with m a)

check_groups-cons :
    (seen g : List String) (gs : List (List String))
    → any_seen seen g ≡ false
    → is_sorted g ≡ true
    → check_groups (g ++ seen) gs ≡ none
    → check_groups seen (g ∷ gs) ≡ none
unfolding check_groups
check_groups-cons seen g gs a b c = ground arith

-- The checkpoint of a walk with a status, over outcomes with distinct IDs, passes Validate.
pub validate-checkpoint_of :
    {R : Type 0} (cur : String) (rec : R) (m : Assoc Outcome)
    → cur ≢ ""
    → Distinct (keys m)
    → validate (checkpoint_of cur rec m) ≡ none
unfolding validate checkpoint_of
validate-checkpoint_of cur rec m h d = rw (str_eq-false cur "" h) (
    check_groups-cons [] one (two ∷ three ∷ [])
      (any_seen-false [] one (group-Distinct m succeeded d) (λ a i. nothing a))
      (group-is_sorted m succeeded)
      (check_groups-cons (one ++ []) two (three ∷ [])
        (any_seen-false (one ++ []) two (group-Distinct m skipped d) (λ a i. ground (
          arith,
          contains-append one [] a,
          apart m skipped succeeded a d (differ_skipped) i,
          nothing a,
        )))
        (group-is_sorted m skipped)
        (check_groups-cons (two ++ (one ++ [])) three []
          (any_seen-false (two ++ (one ++ [])) three (group-Distinct m failed d) (λ a i. ground (
            arith,
            contains-append two (one ++ []) a,
            contains-append one [] a,
            apart m failed succeeded a d (differ_failed) i,
            apart m failed skipped a d (differ_both) i,
            nothing a,
          )))
          (group-is_sorted m failed) (no_groups (three ++ (two ++ (one ++ [])))))))
  where
    one : List String
    one = ids_with_outcome m succeeded

    two : List String
    two = ids_with_outcome m skipped

    three : List String
    three = ids_with_outcome m failed

    nothing : (a : String) → contains [] a ≡ false
    nothing a = unfold contains in refl

    no_groups : (seen : List String) → check_groups seen [] ≡ none
    no_groups seen = unfold check_groups in refl

    differ_skipped : outcome_eq skipped succeeded ≡ false
    differ_skipped = unfold outcome_eq in refl

    differ_failed : outcome_eq failed succeeded ≡ false
    differ_failed = unfold outcome_eq in refl

    differ_both : outcome_eq failed skipped ≡ false
    differ_both = unfold outcome_eq in refl

seed_ids-lookup :
    (steps : List Step) (o : Outcome) (ks : List String) (m : Assoc Outcome)
    → ((k : String) → In k ks → has_step steps k ≡ true)
    → (r : Assoc Outcome) × (seed_ids steps o ks m ≡ some r)
      × ((k : String) → lookup k r ≡ (if contains ks k then some o else lookup k m))
unfolding seed_ids contains
seed_ids-lookup steps o [] m h = (m, refl, (λ k. refl))
seed_ids-lookup steps o (x ∷ xs) m h =
    let (r, e, f) = seed_ids-lookup steps o xs (insert x o m) (λ k i. h k (inr i)) in
    (r, rw (h x (inl refl), seed_ids) e, (λ k. ground (arith, f k, lookup-insert x k o m)))

-- The three groups together give the outcome that each of them tests for.
of_read :
    (o : Option Outcome) (a b c : Bool) (k : String) {x y : Option Outcome}
    → a ≡ has_outcome o succeeded
    → b ≡ has_outcome o skipped
    → c ≡ has_outcome o failed
    → x ≡ (if a then some succeeded else lookup k [])
    → y ≡ (if b then some skipped else x)
    → (if c then some failed else y) ≡ o
unfolding outcome_eq lookup
of_read none a b c k p q r s t = ground arith
of_read (some succeeded) a b c k p q r s t = ground arith
of_read (some failed) a b c k p q r s t = ground arith
of_read (some skipped) a b c k p q r s t = ground arith

-- Resume reads back what the checkpoint was built from: where every ID with an outcome is a step's, the
-- seeded outcomes are the same, ID by ID.
pub seed-checkpoint_of :
    {R : Type 0} (cur : String) (rec : R) (m : Assoc Outcome) (steps : List Step)
    → Distinct (keys m)
    → ((k : String) → lookup k m ≢ none → has_step steps k ≡ true)
    → (r : Assoc Outcome) × (seed steps (checkpoint_of cur rec m) ≡ some r)
      × ((k : String) → lookup k r ≡ lookup k m)
unfolding seed checkpoint_of
seed-checkpoint_of cur rec m steps d known =
    let (a, ea, fa) =
      seed_ids-lookup steps succeeded (ids_with_outcome m succeeded) [] (member succeeded) in
    let (b, eb, fb) =
      seed_ids-lookup steps skipped (ids_with_outcome m skipped) a (member skipped) in
    let (c, ec, fc) = seed_ids-lookup steps failed (ids_with_outcome m failed) b (member failed) in
    (
      c,
      ran a b c ea eb ec,
      (λ k. fc k ∙ read k (lookup k m) refl (lookup k a) (lookup k b) (fa k) (fb k)),
    )
  where
    member : (o : Outcome) (k : String) → In k (ids_with_outcome m o) → has_step steps k ≡ true
    member o k i = known k (λ e. ground (
      arith,
      In→contains (ids_with_outcome m o) k i,
      contains-group m o k d ∙ ap (λ x. has_outcome x o) e,
    ))

    ran :
        (a b c : Assoc Outcome)
        → seed_ids steps succeeded (ids_with_outcome m succeeded) [] ≡ some a
        → seed_ids steps skipped (ids_with_outcome m skipped) a ≡ some b
        → seed_ids steps failed (ids_with_outcome m failed) b ≡ some c
        → seed steps (checkpoint_of cur rec m) ≡ some c
    ran a b c p q r = rw (p, q, seed) r

    read :
        (k : String) (o : Option Outcome)
        → lookup k m ≡ o
        → (x y : Option Outcome)
        → x ≡ (if contains (ids_with_outcome m succeeded) k then some succeeded else lookup k [])
        → y ≡ (if contains (ids_with_outcome m skipped) k then some skipped else x)
        → (if contains (ids_with_outcome m failed) k then some failed else y) ≡ o
    read k o e x y p q =
        let at = λ (w : Outcome). contains-group m w k d ∙ ap (λ z. has_outcome z w) e in
        of_read o (contains (ids_with_outcome m succeeded) k)
          (contains (ids_with_outcome m skipped) k) (contains (ids_with_outcome m failed) k) k
          (at succeeded) (at skipped) (at failed) p q
