-- ===== src/Flow/Failures/Handled.antt =====
-- flow/failure.go: the fallbacks of the pending failures, through every operation on them.
use mathlib.Core.Option.{some_inj}
use mivia_ai_sdk.Base.{
  subst, ◌≡◌, ◌≢◌, refl, sym, ◌∙◌, ◌⊎◌, inl, inr, String, List, [], ◌∷◌, true, false, none, some,
  str_eq, eq_iff, Assoc, lookup, insert, contains, In→contains, In, All, Bool-cases, Option-cases,
  arith,
}
use mivia_ai_sdk.Flow.Step.{Step, Outcome, failed, is_dependent}
use mivia_ai_sdk.Flow.Failures.{
  FailureKind, firing, confirming, transition_missing, HandledFailure, is_skipped, delete,
  failure_handlers_for, resolve_catchable, group_entries, prune_pending_handler, drop_handler,
  prune_skipped,
}

pub List-cases : {A : Type 0} (xs : List A) → (xs ≡ []) ⊎ ((y : A) × (ys : List A) × (xs ≡ y ∷ ys))
List-cases [] = inl refl
List-cases (y ∷ ys) = inr (y, ys, refl)

In-delete : (id h : String) (hs : List String) → In h (delete id hs) → In h hs × (h ≢ id)
unfolding delete
In-delete id h [] i = elim i [ ]
In-delete id h (x ∷ xs) i = elim (Bool-cases (str_eq x id)) [
  | inl e ↦ let (a, b) = In-delete id h xs (rw (e, delete) at i) in (inr a, b)
  | inr e ↦
      let j : (h ≡ x) ⊎ In h (delete id xs) = rw (e, delete) at i in
      elim j [
        | inl q ↦ (inl q, λ d. ground (arith, e, (eq_iff x id).1 (sym q ∙ d)))
        | inr k ↦ let (a, b) = In-delete id h xs k in (inr a, b)
      ]
]

-- `G`, of a fallback that is none of the dependents that the route skipped.
abbrev pub Unskipped :
    Assoc Outcome → List Step → (String → String → Type 0) → String → String → Type 0
Unskipped m ds G k h = G k h × (is_dependent h ds ≡ true → is_skipped (lookup h m) ≡ false)

module _ {E : Type 0} where
  -- The failed step `k` is marked as such, it has a fallback left, and `G` holds of each of them.
  pub record Entry (m : Assoc Outcome) (G : String → String → Type 0) (k : String)
      (hf : HandledFailure E) : Type 0 where
    pub is_failed : lookup k m ≡ some failed
    pub handled : hf.handlers ≢ []
    pub each : (h : String) → In h hf.handlers → G k h

  abbrev pub Entries :
      Assoc Outcome → (String → String → Type 0) → Assoc (HandledFailure E) → Type 0
  Entries m G = All (λ e. Entry m G e.0 e.1)

  pub Entries-map :
      (m m' : Assoc Outcome) (G G' : String → String → Type 0) (p : Assoc (HandledFailure E))
      → ((k : String) → lookup k m ≡ some failed → lookup k m' ≡ some failed)
      → ((k h : String) → lookup k m ≡ some failed → G k h → G' k h)
      → Entries m G p
      → Entries m' G' p
  Entries-map m m' G G' [] f g a = tt
  Entries-map m m' G G' ((k, hf) ∷ p) f g (a, more) = (
    record {
      is_failed = f k a.is_failed;
      handled = a.handled;
      each = λ h i. g k h a.is_failed (a.each h i);
    },
    Entries-map m m' G G' p f g more,
  )

  pub insert-Entries :
      (m : Assoc Outcome) (G : String → String → Type 0) (k : String) (hf : HandledFailure E)
      (p : Assoc (HandledFailure E))
      → Entry m G k hf
      → Entries m G p
      → Entries m G (insert k hf p)
  unfolding insert
  insert-Entries m G k hf [] n a = (n, tt)
  insert-Entries m G k hf ((j, hg) ∷ p) n a = elim (Bool-cases (str_eq j k)) [
    | inl e ↦ rw (e, insert) (subst (λ x. Entry m G x hf) (sym ((eq_iff j k).0 e)) n, a.1)
    | inr e ↦ rw (e, insert) (a.0, insert-Entries m G k hf p n a.1)
  ]

  -- A fallback that has run is in no entry any more.
  pub prune-Entries :
      (m : Assoc Outcome) (G : String → String → Type 0) (id : String)
      (p : Assoc (HandledFailure E))
      → Entries m G p
      → Entries m (λ k h. G k h × (h ≢ id)) (prune_pending_handler id p)
  unfolding prune_pending_handler
  prune-Entries m G id [] a = tt
  prune-Entries m G id ((k, hf) ∷ p) (a, more) = elim (Bool-cases (contains hf.handlers id)) [
    | inl e ↦ rw (e, prune_pending_handler) (prune-Entries m G id p more)
    | inr e ↦
        rw (e, prune_pending_handler)
          (
            record {
              is_failed = a.is_failed;
              handled = a.handled;
              each = λ h i. (
                a.each h i,
                λ q.
                    let c = In→contains hf.handlers id (subst (λ x. In x hf.handlers) q i) in
                    ground (arith, c, e),
              );
            },
            prune-Entries m G id p more,
          )
  ]

  drop_handler-Entries :
      (m : Assoc Outcome) (G : String → String → Type 0) (id : String)
      (p : Assoc (HandledFailure E))
      → Entries m G p
      → (drop_handler id p).1 ≡ none
      → Entries m (λ k h. G k h × (h ≢ id)) (drop_handler id p).0
  unfolding drop_handler
  drop_handler-Entries m G id [] a n = tt
  drop_handler-Entries m G id ((k, hf) ∷ p) (a, more) n =
      elim (Bool-cases (contains hf.handlers id)) [
        | inl c ↦ elim (List-cases (delete id hf.handlers)) [
          | inl e ↦ absurd (ground (arith, rw (c, e, drop_handler) at n))
          | inr (x, xs, e) ↦
              rw (c, e, drop_handler)
                (
                  record {
                    is_failed = a.is_failed;
                    handled = λ q. cc;
                    each = λ h i.
                        let (j, d) = In-delete id h hf.handlers (subst (In h) (sym e) i) in
                        (a.each h j, d);
                  },
                  drop_handler-Entries m G id p more (rw (c, e, drop_handler) at n),
                )
        ]
        | inr e ↦
            rw (e, drop_handler)
              (
                record {
                  is_failed = a.is_failed;
                  handled = a.handled;
                  each = λ h i. (
                    a.each h i,
                    λ q.
                        let c = In→contains hf.handlers id (subst (λ x. In x hf.handlers) q i) in
                        ground (arith, c, e),
                  );
                },
                drop_handler-Entries m G id p more (rw (e, drop_handler) at n),
              )
      ]

  -- After a route, no entry holds a dependent that the route skipped.
  pub prune_skipped-Entries :
      (m m' : Assoc Outcome) (G : String → String → Type 0) (ds : List Step)
      (p : Assoc (HandledFailure E))
      → Entries m G p
      → (prune_skipped ds m' p).1 ≡ none
      → Entries m (Unskipped m' ds G) (prune_skipped ds m' p).0
  unfolding prune_skipped is_dependent
  prune_skipped-Entries m m' G [] p a n =
      Entries-map m m G (Unskipped m' [] G) p (λ k q. q)
        (λ k h q g. (g, λ d. absurd (ground (arith, d)))) a
  prune_skipped-Entries m m' G (d ∷ ds) p a n = elim (Bool-cases (is_skipped (lookup d.id m'))) [
    | inr e ↦
        rw (e, prune_skipped)
          (Entries-map m m (Unskipped m' ds G) (Unskipped m' (d ∷ ds) G) _ (λ k q. q)
            (λ k h q g. (
              g.0,
              λ t. elim (Bool-cases (str_eq d.id h)) [
                | inl s ↦ subst (λ x. is_skipped (lookup x m') ≡ false) ((eq_iff d.id h).0 s) e
                | inr s ↦ g.1 (ground (arith, s, t))
              ],
            ))
            (prune_skipped-Entries m m' G ds p a (rw (e, prune_skipped) at n)))
    | inl e ↦ elim (Option-cases (drop_handler d.id p).1) [
      | inr (x, q) ↦ absurd (ground (arith, rw (e, q, prune_skipped) at n))
      | inl q ↦
          rw (e, q, prune_skipped)
            (Entries-map m m (Unskipped m' ds (λ k h. G k h × (h ≢ d.id))) (Unskipped m' (d ∷ ds) G)
              _ (λ k z. z)
              (λ k h z g. (g.0.0, λ t. g.1 (ground (arith, t, (eq_iff d.id h).0, g.0.1))))
              (prune_skipped-Entries m m' _ ds (drop_handler d.id p).0
                (drop_handler-Entries m G d.id p a q) (rw (e, q, prune_skipped) at n)))
    ]
  ]

  -- A failure that is taken up is pending with the fallbacks of its step.
  pub resolve_catchable-Entries :
      (kind : FailureKind) (err : E) (id : String) (steps : List Step) (m : Assoc Outcome)
      (G : String → String → Type 0) (p : Assoc (HandledFailure E))
      → lookup id m ≡ some failed
      → ((h : String) → In h (failure_handlers_for id steps m) → G id h)
      → Entries m G p
      → (resolve_catchable kind err id steps m p).1 ≡ none
      → Entries m G (resolve_catchable kind err id steps m p).0
  unfolding resolve_catchable
  resolve_catchable-Entries firing err id steps m G p l g a n =
      elim (List-cases (failure_handlers_for id steps m)) [
        | inl e ↦ absurd (ground (arith, rw (e, resolve_catchable) at n))
        | inr (x, xs, e) ↦
            rw (e, resolve_catchable)
              (insert-Entries m G id _ p
                (record {
                  is_failed = l;
                  handled = λ q. cc;
                  each = λ h i. g h (subst (In h) (sym e) i);
                })
                a)
      ]
  resolve_catchable-Entries confirming err id steps m G p l g a n = absurd (ground (arith, n))
  resolve_catchable-Entries transition_missing err id steps m G p l g a n =
      absurd (ground (arith, n))

  pub group_entries-Entries :
      (err : E) (group steps : List Step) (m : Assoc Outcome) (G : String → String → Type 0)
      (p p' : Assoc (HandledFailure E))
      → All (λ s. lookup s.id m ≡ some failed) group
      → ((k h : String) → In h (failure_handlers_for k steps m) → G k h)
      → Entries m G p
      → group_entries err group steps m p ≡ some p'
      → Entries m G p'
  unfolding group_entries
  group_entries-Entries err [] steps m G p p' l g a h = subst (Entries m G) (some_inj.0 h) a
  group_entries-Entries err (s ∷ ss) steps m G p p' l g a h =
      elim (List-cases (failure_handlers_for s.id steps m)) [
        | inl e ↦ absurd (ground (arith, rw (e, group_entries) at h))
        | inr (x, xs, e) ↦
            group_entries-Entries err ss steps m G _ p' l.1 g
              (insert-Entries m G s.id (record { error = err; handlers = x ∷ xs }) p
                (record {
                  is_failed = l.0;
                  handled = λ q. cc;
                  each = λ y i. g s.id y (subst (In y) (sym e) i);
                })
                a)
              (rw (e, group_entries) at h)
      ]
