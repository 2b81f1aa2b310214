-- ===== src/Flow/Runner/Skips.antt =====
-- flow/runner.go and flow/failure.go: the caught failures when a panel is marked or a route skips steps.
use mivia_ai_sdk.Base.{
  ◌≡◌, ◌≢◌, refl, sym, ◌∙◌, ap, subst, inl, inr, String, List, [], ◌∷◌, false, not, ◌&&◌, none,
  some, str_eq, eq_iff, Assoc, lookup, insert, lookup-insert, contains, contains→In, In→contains,
  In, All, Bool-cases, arith,
}
use mivia_ai_sdk.Base.Keys.{Distinct}
use mivia_ai_sdk.Flow.Step.{
  Step, Outcome, succeeded, failed, skipped, direct_dependents, is_dependent,
}
use mivia_ai_sdk.Flow.Graph.{ids_of, is_on_failed}
use mivia_ai_sdk.Flow.Admission.{mark_outcome, apply_route}
use mivia_ai_sdk.Flow.Routes.{apply_route-lookup, apply_route-accepted}
use mivia_ai_sdk.Flow.Rules.Members.{IsMember}
use mivia_ai_sdk.Flow.Failures.{HandledFailure, prune_pending_on_route, is_skipped}
use mivia_ai_sdk.Flow.Failures.Handled.{Entries, Entries-map, Unskipped, prune_skipped-Entries}
use mivia_ai_sdk.Flow.Runner.{Walk, panel_members}
use mivia_ai_sdk.Flow.Runner.Finds.{step_by_id-id}
use mivia_ai_sdk.Flow.Runner.Final.{
  Ready, IsOrdered, Grown, Members, Grown-Members, mark_outcome-lookup,
}
use mivia_ai_sdk.Flow.Runner.Marks.{Grown-route}
use mivia_ai_sdk.Flow.Runner.Caught.{Waits, AreCaught}

-- A fallback that is none of the steps `id`.
abbrev pub Others : List Step → Assoc Outcome → String → String → String → Type 0
Others steps m id k h = Waits steps m k h × (h ≢ id)

differs : (a b : String) → b ≢ a → str_eq a b ≡ false
differs a b n = elim (Bool-cases (str_eq a b)) [
  | inl e ↦ absurd (n (sym ((eq_iff a b).0 e)))
  | inr e ↦ e
]

In-All : (P : String → Type 0) (xs : List String) (a : String) → All P xs → In a xs → P a
In-All P [] a h i = elim i [ ]
In-All P (x ∷ xs) a h (inl e) = subst P (sym e) h.0
In-All P (x ∷ xs) a h (inr i) = In-All P xs a h.1 i

-- The members of a wave that failed.
pub members-failed :
    (p q : List String) (steps : List Step) (m : Assoc Outcome)
    → All (λ x. In x (ids_of steps)) p
    → All (λ x. In x (ids_of steps)) q
    → ((x : String) → In x q → In x p)
    → All
        (λ s. lookup s.id (mark_outcome m (panel_members p steps) failed) ≡ some failed)
        (panel_members q steps)
unfolding panel_members
members-failed p [] steps m a b sub = tt
members-failed p (x ∷ xs) steps m a b sub = (
  ap (λ y. lookup y (mark_outcome m (panel_members p steps) failed)) (step_by_id-id steps x b.0)
      ∙ mark_outcome-lookup p steps m failed x a
      ∙ rw (In→contains p x (sub x (inl refl))) refl,
  members-failed p xs steps m a b.1 (λ y i. sub y (inr i)),
)

module _ {E : Type 0} where
  -- The members of a panel are no fallbacks.
  pub marks-AreCaught :
      (steps : List Step) (m : Assoc Outcome) (p : List String) (o : Outcome)
      (pending : Assoc (HandledFailure E))
      → Members steps m p
      → All (IsMember steps) p
      → AreCaught steps m pending
      → AreCaught steps (mark_outcome m (panel_members p steps) o) pending
  marks-AreCaught steps m p o pending (known, free, ready) member a =
      let m' = mark_outcome m (panel_members p steps) o in
      Entries-map m m' (Waits steps m) (Waits steps m') pending
        (λ k l. (Grown-Members steps m p o (known, free, ready)).kept k failed l)
        (λ k h l w. record {
          free = elim (Bool-cases (contains p h)) [
            | inl c ↦
                let n = (In-All (IsMember steps) p h member (contains→In p h c)).not_fallback in
                absurd (ground (arith, n, ap is_on_failed w.on_failure))
            | inr c ↦ mark_outcome-lookup p steps m o h known ∙ rw c w.free
          ];
          on_failure = w.on_failure;
          needs = w.needs;
        })
        a

module _ {E R : Type 0} where
  -- After the route of `s`, which had no outcome at `m`, the fallbacks left are not skipped.
  pub route-AreCaught :
      (steps : List Step) (m : Assoc Outcome) (w : Walk E R) (s : Step) (kept : List String)
      → Distinct (ids_of steps)
      → IsOrdered steps m
      → lookup s.id m ≡ none
      → Ready steps m s.id
      → w.outcomes ≡ insert s.id succeeded m
      → Entries m (Others steps m s.id) w.pending
      → (apply_route s (some kept) steps w.outcomes).1 ≡ false
      → (prune_pending_on_route s steps (apply_route s (some kept) steps w.outcomes).0 w.pending).1
        ≡ none
      → AreCaught steps
          (apply_route s (some kept) steps w.outcomes).0
          (prune_pending_on_route s steps
            (apply_route s (some kept) steps w.outcomes).0
            w.pending).0
  unfolding prune_pending_on_route
  route-AreCaught steps m w s kept d o free r e a t q =
      Entries-map m m' (Unskipped m' ds (Others steps m s.id)) (Waits steps m') _
        (λ k l. grown.kept k failed l)
        (λ k h l g. record {
          free = still k h g;
          on_failure = g.0.0.on_failure;
          needs = g.0.0.needs;
        })
        (prune_skipped-Entries m m' (Others steps m s.id) ds w.pending a q)
    where
      ds : List Step
      ds = direct_dependents s.id steps

      m' : Assoc Outcome
      m' = (apply_route s (some kept) steps w.outcomes).0

      grown : Grown steps m m'
      grown =
          subst (λ x. Grown steps m (apply_route s (some kept) steps x).0) (sym e)
            (Grown-route steps m s kept d o free r (apply_route-accepted s kept steps w.outcomes t))

      still : (k h : String) → Unskipped m' ds (Others steps m s.id) k h → lookup h m' ≡ none
      still k h ((v, n), u) =
          let read =
            apply_route-lookup s kept steps w.outcomes h
              (apply_route-accepted s kept steps w.outcomes t) in
          elim (Bool-cases (is_dependent h ds && not (contains kept h))) [
            | inl c ↦
                let z : lookup h m' ≡ some skipped = read ∙ rw c refl in
                absurd (ground (arith, ap is_skipped z, u (ground (arith, c))))
            | inr c ↦
                let y : str_eq s.id h ≡ false = differs s.id h n in
                let x : lookup h w.outcomes ≡ lookup h m =
                  ap (lookup h) e ∙ lookup-insert s.id h succeeded m ∙ rw y refl in
                read ∙ rw c (x ∙ v.free)
          ]
