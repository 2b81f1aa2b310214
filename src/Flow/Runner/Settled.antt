-- ===== src/Flow/Runner/Settled.antt =====
-- flow/runner.go: the caught failures through a turn of the walk.
use mivia_ai_sdk.Base.{
  ℕ, ◌≡◌, ◌≢◌, refl, sym, ◌∙◌, ap, subst, inl, inr, String, List, [], ◌∷◌, Bool, false, Option,
  none, some, eq_iff, Assoc, lookup, insert, lookup-insert, All, Bool-cases, Option-cases, arith,
}
use mivia_ai_sdk.Base.Keys.{Distinct}
use mivia_ai_sdk.Machine.{Transition}
use mivia_ai_sdk.Flow.Step.{Step, Outcome, succeeded, failed, skipped, step_by_id}
use mivia_ai_sdk.Flow.Graph.{ids_of}
use mivia_ai_sdk.Flow.Admission.{wait, admission_verdict, mark_outcome, apply_route}
use mivia_ai_sdk.Flow.Rules.{AreKnown}
use mivia_ai_sdk.Flow.Rules.Members.{IsMember}
use mivia_ai_sdk.Flow.Failures.{
  firing, resolve_panel_failure, group_entries, prune_pending_on_route, prune_pending_handler,
}
use mivia_ai_sdk.Flow.Failures.Handled.{Entries, Entries-map, prune-Entries, group_entries-Entries}
use mivia_ai_sdk.Flow.Execution.{
  RunError, Fault, tagged, untagged, route_error, route_rejected, Turn, Moved,
}
use mivia_ai_sdk.Flow.Runner.{
  Scan, Walk, catch, mark_singleton, take_route, after_singleton, settle, after_wave, advance_panel,
  advance_group, outcome_of, panel_members,
}
use mivia_ai_sdk.Flow.Runner.Finds.{
  IsFound, found_nothing, found_ready, found_skipping, found_panel, found_skipping_panel,
  step_by_id-id, panel_for-All,
}
use mivia_ai_sdk.Flow.Runner.Final.{
  Ready, IsOrdered, Members, found-Members, step_by_id_self, verdict-Ready,
}
use mivia_ai_sdk.Flow.Runner.Caught.{
  Waits, handlers-Waits, waiting_not_skipped, AreCaught, one-AreCaught, catch-AreCaught,
}
use mivia_ai_sdk.Flow.Runner.Skips.{Others, members-failed, marks-AreCaught, route-AreCaught}

module _ {E R : Type 0} where
  -- What is left pending after a turn that does not end the walk.
  abbrev pub Caught : List Step → Option (Walk E R × Option (RunError E)) → Type 0
  Caught steps none = Unit
  Caught steps (some r) = r.1 ≡ none → AreCaught steps r.0.outcomes r.0.pending

  -- A branch step that succeeded and whose route then failed.
  route_failed-Caught :
      (steps : List Step) (m : Assoc Outcome) (w : Walk E R) (s : Step) (f : Fault E)
      → Distinct (ids_of steps)
      → lookup s.id m ≡ none
      → w.outcomes ≡ insert s.id succeeded m
      → Entries m (Others steps m s.id) w.pending
      → Caught steps
          (some (catch (record w { outcomes = insert s.id failed w.outcomes }) s.id steps f))
  route_failed-Caught steps m w s f d free e a n =
      catch-AreCaught (record w { outcomes = insert s.id failed w.outcomes }) s.id steps f d
        (ground (arith, lookup-insert s.id s.id failed w.outcomes, eq_iff s.id s.id))
        (one-AreCaught steps m (insert s.id failed w.outcomes) s.id failed w.pending
          (λ k. ground (
            arith,
            lookup-insert s.id k failed w.outcomes,
            ap (lookup k) e,
            lookup-insert s.id k succeeded m,
          ))
          free a)
        n

  take_route-Caught :
      (steps : List Step) (m : Assoc Outcome) (w : Walk E R) (s : Step) (a : Option E × List String)
      → Distinct (ids_of steps)
      → IsOrdered steps m
      → lookup s.id m ≡ none
      → Ready steps m s.id
      → w.outcomes ≡ insert s.id succeeded m
      → Entries m (Others steps m s.id) w.pending
      → Caught steps (some (take_route w s steps a))
  unfolding take_route
  take_route-Caught steps m w s (some x, kept) d o free r e a =
      route_failed-Caught steps m w s (tagged firing (route_error x)) d free e a
  take_route-Caught steps m w s (none, kept) d o free r e a =
      elim (Bool-cases (apply_route s (some kept) steps w.outcomes).1) [
        | inl t ↦
            rw (t, take_route)
              (route_failed-Caught steps m w s (tagged firing route_rejected) d free e a)
        | inr t ↦
            elim (Option-cases
              (prune_pending_on_route s steps (apply_route s (some kept) steps w.outcomes).0
                w.pending).1) [
                  | inl q ↦
                      rw (t, q, take_route)
                        (λ n. route-AreCaught steps m w s kept d o free r e a t q)
                  | inr (x, q) ↦ rw (t, q, take_route) (λ n. absurd (ground (arith, n)))
                ]
      ]

  settle-Caught :
      (turn : Turn E R) (steps : List Step) (w : Walk E R) (routed : Bool) (s : Step)
      (r : Option (Moved E R))
      → Distinct (ids_of steps)
      → IsOrdered steps w.outcomes
      → lookup s.id w.outcomes ≡ none
      → Ready steps w.outcomes s.id
      → AreCaught steps w.outcomes w.pending
      → Caught steps (settle turn steps w routed s r)
  unfolding settle after_singleton mark_singleton outcome_of
  settle-Caught turn steps w routed s none d o free ready a = tt
  settle-Caught turn steps w routed s (some r) d o free ready a =
      let pruned = prune-Entries w.outcomes (Waits steps w.outcomes) s.id w.pending a in
      let marked =
        one-AreCaught steps w.outcomes (insert s.id (outcome_of r.error) w.outcomes) s.id
          (outcome_of r.error) (prune_pending_handler s.id w.pending)
          (λ k. lookup-insert s.id k (outcome_of r.error) w.outcomes) free pruned in
      elim (Option-cases r.error) [
        | inl e ↦ elim (Bool-cases routed) [
          | inl t ↦
              rw (e, t, after_singleton)
                (take_route-Caught steps w.outcomes (mark_singleton w s.id r) s
                  (turn.route r.status r.rec) d o free ready
                  (ap (λ x. insert s.id (outcome_of x) w.outcomes) e) pruned)
          | inr t ↦ rw (e, t, after_singleton) (λ n. marked)
        ]
        | inr (f, e) ↦
            rw (e, after_singleton)
              (catch-AreCaught (mark_singleton w s.id r) s.id steps f d
                (lookup-insert s.id s.id (outcome_of r.error) w.outcomes
                  ∙ ground (arith, eq_iff s.id s.id, ap outcome_of e))
                marked)
      ]

  after_wave-Caught :
      (steps : List Step) (w : Walk E R) (p : List String) (r : Moved E R)
      → Distinct (ids_of steps)
      → Members steps w.outcomes p
      → All (IsMember steps) p
      → AreCaught steps w.outcomes w.pending
      → Caught steps (some (after_wave steps w (panel_members p steps) r))
  unfolding after_wave resolve_panel_failure
  after_wave-Caught steps w p r d ms member a = of_error r.error refl
    where
      group : List Step
      group = panel_members p steps

      m' : Assoc Outcome
      m' = mark_outcome w.outcomes group failed

      of_group :
          (x : RunError E)
          → (resolve_panel_failure x group steps w.outcomes w.pending).1.1 ≡ none
          → AreCaught steps
              (resolve_panel_failure x group steps w.outcomes w.pending).0
              (resolve_panel_failure x group steps w.outcomes w.pending).1.0
      of_group x n = elim (Option-cases (group_entries x group steps m' w.pending)) [
        | inl e ↦ absurd (ground (arith, rw (e, resolve_panel_failure) at n))
        | inr (p', e) ↦
            rw (e, resolve_panel_failure)
              (group_entries-Entries x group steps m' (Waits steps m') w.pending p'
                (members-failed p p steps w.outcomes ms.0 ms.0 (λ y i. i))
                (λ k h i. handlers-Waits steps steps m' k h d (λ s j. j) i)
                (marks-AreCaught steps w.outcomes p failed w.pending ms member a) e)
      ]

      of_error :
          (x : Option (Fault E))
          → r.error ≡ x
          → Caught steps (some (after_wave steps w (panel_members p steps) r))
      of_error none e =
          rw (e, after_wave)
            (λ n. marks-AreCaught steps w.outcomes p succeeded w.pending ms member a)
      of_error (some (tagged k x)) e = rw (e, after_wave) (λ n. absurd (ground (arith, n)))
      of_error (some (untagged x)) e = rw (e, after_wave) (of_group x)

  advance_panel-Caught :
      (fuel : ℕ) (turn : Turn E R) (table : List (Transition E R)) (steps : List Step)
      (w : Walk E R) (p : List String)
      → Distinct (ids_of steps)
      → IsOrdered steps w.outcomes
      → Members steps w.outcomes p
      → All (IsMember steps) p
      → AreCaught steps w.outcomes w.pending
      → Caught steps (advance_panel fuel turn table steps w (panel_members p steps))
  unfolding advance_panel panel_members
  advance_panel-Caught fuel turn table steps w [] d o ms member a = tt
  advance_panel-Caught fuel turn table steps w (x ∷ []) d o (known, free, ready) member a =
      let e = sym (step_by_id-id steps x known.0) in
      settle-Caught turn steps w false (step_by_id steps x) _ d o
        (subst (λ y. lookup y w.outcomes ≡ none) e (free x (inl refl)))
        (subst (Ready steps w.outcomes) e (ready x (inl refl))) a
  advance_panel-Caught fuel turn table steps w (x ∷ y ∷ ys) d o ms member a =
      after_wave-Caught steps w (x ∷ y ∷ ys) _ d ms member a

  -- A turn that does not end the walk keeps each caught failure with a fallback that may run.
  pub advance_group-Caught :
      (fuel : ℕ) (turn : Turn E R) (table : List (Transition E R)) (steps : List Step)
      (panels : List (List String)) (w : Walk E R) (f : Scan)
      → Distinct (ids_of steps)
      → AreKnown steps panels
      → All (λ p. All (IsMember steps) p) panels
      → IsOrdered steps w.outcomes
      → IsFound steps panels w.outcomes f
      → AreCaught steps w.outcomes w.pending
      → Caught steps (advance_group fuel turn table steps w f)
  unfolding advance_group
  advance_group-Caught fuel turn table steps panels w _ d known ms o found_nothing a =
      λ n. absurd (ground (arith, n))
  advance_group-Caught fuel turn table steps panels w _ d known ms o (found_ready s i free v) a =
      let self = sym (step_by_id_self steps s d i) in
      let n : admission_verdict s w.outcomes ≢ wait = λ e. cc in
      settle-Caught turn steps w s.routed s _ d o free
        (verdict-Ready steps w.outcomes s.id
          (subst (λ x. admission_verdict x w.outcomes ≢ wait) self n))
        a
  advance_group-Caught fuel turn table steps panels w _ d known ms o (found_skipping s i free v) a =
      λ n.
        one-AreCaught steps w.outcomes (insert s.id skipped w.outcomes) s.id skipped w.pending
          (λ k. lookup-insert s.id k skipped w.outcomes) free
          (Entries-map w.outcomes w.outcomes (Waits steps w.outcomes) (Others steps w.outcomes s.id)
            w.pending (λ k l. l)
            (λ k h l z.
              (z, waiting_not_skipped steps w.outcomes s k h (step_by_id_self steps s d i) v l z))
            a)
  advance_group-Caught fuel turn table steps panels w _ d known ms o (found_panel id p h v) a =
      advance_panel-Caught fuel turn table steps w p d o
        (found-Members id p steps panels w.outcomes known h (λ e. cc))
        (panel_for-All (All (IsMember steps)) id panels p ms h).0 a
  advance_group-Caught fuel turn table steps panels w _ d known ms o (found_skipping_panel id p h v)
        a =
      λ n.
        marks-AreCaught steps w.outcomes p skipped w.pending
          (found-Members id p steps panels w.outcomes known h (λ e. cc))
          (panel_for-All (All (IsMember steps)) id panels p ms h).0 a
