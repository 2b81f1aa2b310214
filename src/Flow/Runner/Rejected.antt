-- ===== src/Flow/Runner/Rejected.antt =====
-- flow/runner.go: what a route that fails, or that names no dependent, does to the walk.
use mivia_ai_sdk.Base.{
  ◌≡◌, ◌≢◌, ◌↔◌, refl, sym, ◌∙◌, subst, ◌⊎◌, inl, inr, String, List, [], ◌∷◌, true, false, Option,
  none, some, str_eq, if◌then◌else◌, Assoc, lookup, insert, lookup-insert, In→contains, In,
  Bool-cases, arith,
}
use mivia_ai_sdk.Flow.Step.{Step, on_failed, Outcome, failed, direct_dependents, is_dependent}
use mivia_ai_sdk.Flow.Admission.{apply_route, all_dependents}
use mivia_ai_sdk.Flow.Failures.{firing, is_fallback, failure_handlers_for, resolve_catchable}
use mivia_ai_sdk.Flow.Failures.Handled.{List-cases}
use mivia_ai_sdk.Flow.Execution.{RunError, tagged, route_error, route_rejected}
use mivia_ai_sdk.Flow.Runner.{Walk, catch, take_route}
use mivia_ai_sdk.Flow.Runner.Finds.{StepIn}
use mivia_ai_sdk.Flow.Runner.Caught.{is_fallback-parts}

-- A fallback that needs the step has no outcome.
abbrev pub HasFallback : List Step → Assoc Outcome → String → Type 0
HasFallback steps m id =
    (t : Step) × StepIn t steps × (lookup t.id m ≡ none) × (t.when ≡ on_failed) × In id t.needs

handlers→HasFallback :
    (ss : List Step) (m : Assoc Outcome) (id : String)
    → failure_handlers_for id ss m ≢ []
    → HasFallback ss m id
unfolding failure_handlers_for
handlers→HasFallback [] m id n = absurd (n refl)
handlers→HasFallback (s ∷ ss) m id n = elim (Bool-cases (is_fallback id s m)) [
  | inl c ↦ let (l, w, n) = is_fallback-parts id s m c in (s, inl refl, l, w, n)
  | inr c ↦
      let (t, i, l, w, n') = handlers→HasFallback ss m id (rw (c, failure_handlers_for) at n) in
      (t, inr i, l, w, n')
]

HasFallback→handlers :
    (ss : List Step) (m : Assoc Outcome) (id : String) (t : Step)
    → StepIn t ss
    → lookup t.id m ≡ none
    → t.when ≡ on_failed
    → In id t.needs
    → failure_handlers_for id ss m ≢ []
unfolding failure_handlers_for
HasFallback→handlers [] m id t i l w n = elim i [ ]
HasFallback→handlers (s ∷ ss) m id t i l w n = elim (Bool-cases (is_fallback id s m)) [
  | inl c ↦ rw (c, failure_handlers_for) (λ q. cc)
  | inr c ↦ elim i [
    | inr j ↦ rw (c, failure_handlers_for) (HasFallback→handlers ss m id t j l w n)
    | inl e ↦
        let yes : is_fallback id t m ≡ true =
          unfold is_fallback in rw (l, is_fallback) (rw w (In→contains t.needs id n)) in
        let z : is_fallback id t m ≡ false = subst (λ x. is_fallback id x m ≡ false) (sym e) c in
        absurd (ground (arith, yes, z))
  ]
]

not_all_dependents :
    (ks : List String) (ds : List Step) (k : String)
    → In k ks
    → is_dependent k ds ≡ false
    → all_dependents ks ds ≡ false
unfolding all_dependents
not_all_dependents [] ds k i n = elim i [ ]
not_all_dependents (x ∷ xs) ds k (inl e) n =
    let z : is_dependent x ds ≡ false = subst (λ y. is_dependent y ds ≡ false) e n in
    ground (arith, z)
not_all_dependents (x ∷ xs) ds k (inr i) n = ground (arith, not_all_dependents xs ds k i n)

module _ {E R : Type 0} where
  -- Of the walk, the route's failure changes the outcome of the branch step alone, and the walk goes
  -- on exactly where a fallback that needs the branch step has no outcome.
  pub record IsRejected (steps : List Step) (w : Walk E R) (s : Step)
      (r : Walk E R × Option (RunError E)) : Type 0 where
    pub read :
        (id : String)
        → lookup id r.0.outcomes ≡ (if str_eq s.id id then some failed else lookup id w.outcomes)
    pub same_status : r.0.status ≡ w.status
    pub same_rec : r.0.rec ≡ w.rec
    pub same_delivered : r.0.delivered ≡ w.delivered
    pub goes_on : (r.1 ≡ none) ↔ HasFallback steps r.0.outcomes s.id

  catch-IsRejected :
      (steps : List Step) (w : Walk E R) (s : Step) (e : RunError E)
      → IsRejected steps w s (
          catch
            (record w { outcomes = insert s.id failed w.outcomes })
            s.id
            steps
            (tagged firing e))
  unfolding catch resolve_catchable
  catch-IsRejected steps w s e = record {
    read = λ id. lookup-insert s.id id failed w.outcomes;
    same_status = refl;
    same_rec = refl;
    same_delivered = refl;
    goes_on = elim (List-cases (failure_handlers_for s.id steps (insert s.id failed w.outcomes))) [
      | inl q ↦ (
        (λ n. absurd (ground (arith, rw (q, resolve_catchable) at n))),
        (λ (t, i, l, v, n).
            absurd (HasFallback→handlers steps (insert s.id failed w.outcomes) s.id t i l v n q)),
      )
      | inr (x, xs, q) ↦ (
        (λ n.
            handlers→HasFallback steps (insert s.id failed w.outcomes) s.id
              (λ z. let y : x ∷ xs ≡ [] = sym q ∙ z in cc)),
        (λ f. rw (q, resolve_catchable) refl),
      )
    ];
  }

  -- Where the route of a branch step returns an error, or names an ID that is no direct dependent of
  -- the step, the step's outcome becomes failed, no other outcome changes, nor do the status and the
  -- record, and no checkpoint is delivered; the walk goes on exactly where a fallback that needs the
  -- step has no outcome yet.
  pub take_route-IsRejected :
      (w : Walk E R) (s : Step) (steps : List Step) (a : Option E × List String)
      → (a.0 ≢ none)
        ⊎ ((k : String) × In k a.1 × (is_dependent k (direct_dependents s.id steps) ≡ false))
      → IsRejected steps w s (take_route w s steps a)
  unfolding take_route apply_route
  take_route-IsRejected w s steps (some x, kept) h = catch-IsRejected steps w s (route_error x)
  take_route-IsRejected w s steps (none, kept) (inl n) = absurd (n refl)
  take_route-IsRejected w s steps (none, kept) (inr (k, i, n)) =
      rw (not_all_dependents kept (direct_dependents s.id steps) k i n, take_route, apply_route)
        (catch-IsRejected steps w s route_rejected)
