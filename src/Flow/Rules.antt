-- ===== src/Flow/Rules.antt =====
-- flow/definition.go and flow/validate.go: what the checks of New say of the steps and panels that
-- they accept.
pub mod Members
pub mod Nesting
use mivia_ai_sdk.Base.{
  ◌≤◌, ◌≡◌, ◌≢◌, ◌↔◌, refl, sym, inl, inr, String, List, [], ◌∷◌, Bool, false, not, Option, none,
  some, eq_iff, arith, In, All, contains, contains→In, In→contains, ltb, str_eq-false,
}
use mivia_ai_sdk.Base.Keys.{Distinct}
use mivia_ai_sdk.Flow.Step.{Step, step_by_id}
use mivia_ai_sdk.Flow.Graph.{
  Fault, first, reject, each, ids_of, check_ids, check_needs, validate_steps, each_member,
  validate_routing, validate_failure_admission, validate_retry, validate_loop, validate_depth,
  depth, check_rules, is_on_failed, is_some, any_routed, unknown_need, too_deep, routed_member,
  routed_parent_member, failure_member, retry_member, loop_member,
}

pub first_iff : (a b : Option Fault) → (first a b ≡ none) ↔ ((a ≡ none) × (b ≡ none))
unfolding first
first_iff none b = ((λ h. (refl, h)), (λ h. h.1))
first_iff (some e) b = ((λ h. absurd (ground arith)), (λ h. absurd (ground arith)))

reject_iff : (b : Bool) (e : Fault) → (reject b e ≡ none) ↔ (b ≡ false)
unfolding reject
reject_iff b e = ground arith

pub All-iff :
    {A : Type 0} {P Q : A → Type 0} (xs : List A) → ((x : A) → P x ↔ Q x) → All P xs ↔ All Q xs
All-iff [] h = ((λ u. tt), (λ u. tt))
All-iff (x ∷ xs) h =
    ((λ (p, ps). ((h x).0 p, (All-iff xs h).0 ps)), (λ (q, qs). ((h x).1 q, (All-iff xs h).1 qs)))

pub each_iff :
    {A : Type 0} (f : A → Option Fault) (xs : List A)
    → (each f xs ≡ none) ↔ All (λ x. f x ≡ none) xs
unfolding each
each_iff f [] = ((λ h. tt), (λ h. refl))
each_iff f (x ∷ xs) =
    let (to, from) = first_iff (f x) (each f xs) in
    let (ts, fs) = each_iff f xs in
    ((λ h. let (a, b) = to h in (a, ts b)), (λ (a, b). from (a, fs b)))

-- A check per element, read ar a condition per element.
pub each-reject_iff :
    {A : Type 0} (t : A → Bool) (e : Fault) (xs : List A)
    → (each (λ x. reject (t x) e) xs ≡ none) ↔ All (λ x. t x ≡ false) xs
each-reject_iff t e xs =
    let (a, b) = each_iff (λ x. reject (t x) e) xs in
    let (c, d) = All-iff xs (λ x. reject_iff (t x) e) in ((λ h. c (a h)), (λ h. b (d h)))

-- The step graph is well formed: every ID is set, no two steps share one, every need is a step.
pub record IsGraph (steps : List Step) : Type 0 where
  pub named : All (λ s. s.id ≢ "") steps
  pub distinct : Distinct (ids_of steps)
  pub known : All (λ s. All (λ n. In n (ids_of steps)) s.needs) steps

-- None of the steps has an ID among the given ones.
abbrev Fresh : List String → List Step → Type 0
Fresh ids steps = All (λ s. ¬ In s.id ids) steps

Fresh-cons_iff :
    (id : String) (ids : List String) (steps : List Step)
    → Fresh (id ∷ ids) steps ↔ (¬ In id (ids_of steps) × Fresh ids steps)
Fresh-cons_iff id ids [] = ((λ u. ((λ i. i), tt)), (λ u. tt))
Fresh-cons_iff id ids (s ∷ ss) =
    let (to, from) = Fresh-cons_iff id ids ss in
    (
      (λ (n, f).
          let (a, b) = to f in
          ((λ i. elim i [ inl e ↦ n (inl (sym e)) | inr j ↦ a j ]), ((λ i. n (inr i)), b))),
      (λ (a, (n, f)).
          ((λ i. elim i [ inl e ↦ a (inl (sym e)) | inr j ↦ n j ]), from ((λ i. a (inr i)), f))),
    )

check_ids_iff :
    (steps : List Step) (ids : List String)
    → (check_ids ids steps ≡ none)
      ↔ (All (λ s. s.id ≢ "") steps × Fresh ids steps × Distinct (ids_of steps))
unfolding check_ids
check_ids_iff [] ids = ((λ h. (tt, tt, tt)), (λ h. refl))
check_ids_iff (s ∷ ss) ids =
    let (to, from) = check_ids_iff ss (s.id ∷ ids) in
    let (split, join) = Fresh-cons_iff s.id ids ss in
    (
      (λ h.
          let r : check_ids (s.id ∷ ids) ss ≡ none = ground arith in
          let (a, f, d) = to r in
          let (n, g) = split f in
          (
            ((λ e. ground (arith, eq_iff s.id "")), a),
            ((λ i. ground (arith, In→contains ids s.id i)), g),
            (n, d),
          )),
      (λ ((u, a), (v, g), (n, d)). ground (
        arith,
        from (a, join (n, g), d),
        str_eq-false s.id "" u,
        eq_iff s.id "",
        contains→In ids s.id,
        v,
      )),
    )

pub known_iff : (ids : List String) (n : String) → (not (contains ids n) ≡ false) ↔ In n ids
known_iff ids n =
    ((λ h. contains→In ids n (ground arith)), (λ i. ground (arith, In→contains ids n i)))

-- The step checks accept exactly the graphs in which every ID is set, no two steps share an ID, and
-- every need is the ID of a step.
pub validate_steps_iff : (steps : List Step) → (validate_steps steps ≡ none) ↔ IsGraph steps
unfolding validate_steps check_needs
validate_steps_iff steps =
    let (split, join) = first_iff (check_ids [] steps) (check_needs (ids_of steps) steps) in
    let (to, from) = check_ids_iff steps [] in
    let (each_to, each_from) =
      each_iff (λ s. each (λ n. reject (not (contains (ids_of steps) n)) unknown_need) s.needs)
        steps in
    let (known_to, known_from) = All-iff steps needs_iff in
    (
      (λ h.
          let (a, b) = split h in
          let (n, f, d) = to a in record { named = n; distinct = d; known = known_to (each_to b) }),
      (λ g. join (from (g.named, fresh steps, g.distinct), each_from (known_from g.known))),
    )
  where
    fresh : (ss : List Step) → Fresh [] ss
    fresh [] = tt
    fresh (s ∷ ss) = ((λ i. i), fresh ss)

    needs_iff :
        (s : Step)
        → (each (λ n. reject (not (contains (ids_of steps) n)) unknown_need) s.needs ≡ none)
          ↔ All (λ n. In n (ids_of steps)) s.needs
    needs_iff s =
        let (a, b) = each-reject_iff (λ n. not (contains (ids_of steps) n)) unknown_need s.needs in
        let (c, d) = All-iff s.needs (known_iff (ids_of steps)) in ((λ h. c (a h)), (λ h. b (d h)))

-- Every member of every panel is a step.
abbrev pub AreKnown : List Step → List (List String) → Type 0
AreKnown steps = All (λ p. All (λ id. In id (ids_of steps)) p)
