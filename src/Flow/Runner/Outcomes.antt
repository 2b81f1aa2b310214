-- ===== src/Flow/Runner/Outcomes.antt =====
-- flow/runner.go: a whole walk keeps every outcome, and runs no step before its needs are resolved.
use mivia_ai_sdk.Base.{
  ℕ, zero, suc, ◌≡◌, ◌≢◌, refl, sym, ◌∙◌, ap, subst, inl, inr, String, List, [], ◌∷◌, Bool, false,
  Option, none, some, Assoc, lookup, insert, length, leb, Bool-cases, Option-cases, arith,
}
use mathlib.Core.Option.{some_inj}
use mivia_ai_sdk.Base.Keys.{Distinct}
use mivia_ai_sdk.Machine.{Transition}
use mivia_ai_sdk.Flow.Step.{Step, Outcome, succeeded, failed, skipped, step_by_id}
use mivia_ai_sdk.Flow.Admission.{wait, apply_route, admission_verdict}
use mivia_ai_sdk.Flow.Routes.{apply_route-accepted}
use mivia_ai_sdk.Flow.Failures.{prune_pending_on_route, firing}
use mivia_ai_sdk.Flow.Graph.{ids_of}
use mivia_ai_sdk.Flow.Execution.{
  RunError, Fault, tagged, untagged, route_error, route_rejected, Turn, Moved,
}
use mivia_ai_sdk.Flow.Runner.{
  Scan, Walk, mark_singleton, take_route, after_singleton, settle, after_wave, advance_panel,
  advance_group, advance, next_round, run_loop, outcome_of, panel_members,
}
use mivia_ai_sdk.Flow.Rules.{AreKnown}
use mivia_ai_sdk.Flow.Runner.Finds.{
  IsFound, found_nothing, found_ready, found_skipping, found_panel, found_skipping_panel,
  next_ready_group-IsFound, step_by_id-id,
}
use mivia_ai_sdk.Flow.Runner.Progress.{catch-outcomes, resolve_panel_failure-outcomes}
use mivia_ai_sdk.Flow.Runner.Marks.{Grown-one, Grown-again, Grown-route}
use mivia_ai_sdk.Flow.Runner.Final.{
  Ready, IsOrdered, Extends, Members, Grown-Members, found-Members, Grown, Grown-IsOrdered,
  Grown-refl, step_by_id_self, verdict-Ready,
}

module _ {E R : Type 0} where
  -- The turn keeps the outcomes, and what ran in it was ready.
  abbrev pub Kept : List Step → Walk E R → Option (Walk E R × Option (RunError E)) → Type 0
  Kept steps w none = Unit
  Kept steps w (some r) = Grown steps w.outcomes r.0.outcomes

  take_route-Kept :
      (steps : List Step) (m : Assoc Outcome) (w : Walk E R) (s : Step) (a : Option E × List String)
      → Distinct (ids_of steps)
      → IsOrdered steps m
      → lookup s.id m ≡ none
      → Ready steps m s.id
      → w.outcomes ≡ insert s.id succeeded m
      → Grown steps m (take_route w s steps a).0.outcomes
  unfolding take_route
  take_route-Kept steps m w s (some x, kept) d o free r e =
      subst (Grown steps m)
        (ap (insert s.id failed) (sym e)
          ∙ sym (
              catch-outcomes (record w { outcomes = insert s.id failed w.outcomes }) s.id steps
                (tagged firing (route_error x))))
        (Grown-again steps m s.id succeeded failed free r)
  take_route-Kept steps m w s (none, kept) d o free r e =
      elim (Bool-cases (apply_route s (some kept) steps w.outcomes).1) [
        | inl t ↦
            rw (t, take_route)
              (subst (Grown steps m)
                (ap (insert s.id failed) (sym e)
                  ∙ sym (
                      catch-outcomes (record w { outcomes = insert s.id failed w.outcomes }) s.id
                        steps (tagged firing route_rejected)))
                (Grown-again steps m s.id succeeded failed free r))
        | inr t ↦
            let grown : Grown steps m (apply_route s (some kept) steps w.outcomes).0 =
              subst (λ x. Grown steps m (apply_route s (some kept) steps x).0) (sym e)
                (Grown-route steps m s kept d o free r
                  (apply_route-accepted s kept steps w.outcomes t)) in
            elim (Option-cases
              (prune_pending_on_route s steps (apply_route s (some kept) steps w.outcomes).0
                w.pending).1) [
                  | inl q ↦ rw (t, q, take_route) grown
                  | inr (x, q) ↦ rw (t, q, take_route) grown
                ]
      ]

  after_singleton-Kept :
      (turn : Turn E R) (steps : List Step) (w : Walk E R) (routed : Bool) (s : Step)
      (r : Moved E R)
      → Distinct (ids_of steps)
      → IsOrdered steps w.outcomes
      → lookup s.id w.outcomes ≡ none
      → Ready steps w.outcomes s.id
      → Kept steps w (some (after_singleton turn steps w routed s r))
  unfolding after_singleton mark_singleton outcome_of
  after_singleton-Kept turn steps w routed s r d o free ready = elim (Option-cases r.error) [
    | inl e ↦ elim (Bool-cases routed) [
      | inl t ↦
          rw (e, t, after_singleton)
            (take_route-Kept steps w.outcomes (mark_singleton w s.id r) s
              (turn.route r.status r.rec) d o free ready
              (ap (λ x. insert s.id (outcome_of x) w.outcomes) e))
      | inr t ↦
          rw (e, t, after_singleton)
            (Grown-one steps w.outcomes s.id (outcome_of r.error) free (inr ready))
    ]
    | inr (f, e) ↦
        rw (e, after_singleton)
          (subst (Grown steps w.outcomes)
            (sym (catch-outcomes (mark_singleton w s.id r) s.id steps f))
            (Grown-one steps w.outcomes s.id (outcome_of r.error) free (inr ready)))
  ]

  settle-Kept :
      (turn : Turn E R) (steps : List Step) (w : Walk E R) (routed : Bool) (s : Step)
      (r : Option (Moved E R))
      → Distinct (ids_of steps)
      → IsOrdered steps w.outcomes
      → lookup s.id w.outcomes ≡ none
      → Ready steps w.outcomes s.id
      → Kept steps w (settle turn steps w routed s r)
  unfolding settle
  settle-Kept turn steps w routed s none d o free ready = tt
  settle-Kept turn steps w routed s (some r) d o free ready =
      after_singleton-Kept turn steps w routed s r d o free ready

  after_wave-Kept :
      (steps : List Step) (w : Walk E R) (p : List String) (r : Moved E R)
      → Members steps w.outcomes p
      → Kept steps w (some (after_wave steps w (panel_members p steps) r))
  unfolding after_wave
  after_wave-Kept steps w p r a = of_error r.error refl
    where
      of_error :
          (x : Option (Fault E))
          → r.error ≡ x
          → Kept steps w (some (after_wave steps w (panel_members p steps) r))
      of_error none e = rw (e, after_wave) (Grown-Members steps w.outcomes p succeeded a)
      of_error (some (tagged k x)) e = rw (e, after_wave) (Grown-refl steps w.outcomes)
      of_error (some (untagged x)) e =
          rw (e, after_wave)
            (subst (Grown steps w.outcomes)
              (sym (resolve_panel_failure-outcomes x (panel_members p steps) steps w))
              (Grown-Members steps w.outcomes p failed a))

  advance_panel-Kept :
      (fuel : ℕ) (turn : Turn E R) (table : List (Transition E R)) (steps : List Step)
      (w : Walk E R) (p : List String)
      → Distinct (ids_of steps)
      → IsOrdered steps w.outcomes
      → Members steps w.outcomes p
      → Kept steps w (advance_panel fuel turn table steps w (panel_members p steps))
  unfolding advance_panel panel_members
  advance_panel-Kept fuel turn table steps w [] d o a = tt
  advance_panel-Kept fuel turn table steps w (x ∷ []) d o (known, free, ready) =
      let e = sym (step_by_id-id steps x known.0) in
      settle-Kept turn steps w false (step_by_id steps x) _ d o
        (subst (λ y. lookup y w.outcomes ≡ none) e (free x (inl refl)))
        (subst (Ready steps w.outcomes) e (ready x (inl refl)))
  advance_panel-Kept fuel turn table steps w (x ∷ y ∷ ys) d o a =
      after_wave-Kept steps w (x ∷ y ∷ ys) _ a

  pub advance_group-Kept :
      (fuel : ℕ) (turn : Turn E R) (table : List (Transition E R)) (steps : List Step)
      (panels : List (List String)) (w : Walk E R) (f : Scan)
      → Distinct (ids_of steps)
      → AreKnown steps panels
      → IsOrdered steps w.outcomes
      → IsFound steps panels w.outcomes f
      → Kept steps w (advance_group fuel turn table steps w f)
  unfolding advance_group
  advance_group-Kept fuel turn table steps panels w _ d known o found_nothing =
      Grown-refl steps w.outcomes
  advance_group-Kept fuel turn table steps panels w _ d known o (found_ready s i free v) =
      let self = sym (step_by_id_self steps s d i) in
      let n : admission_verdict s w.outcomes ≢ wait = λ e. cc in
      settle-Kept turn steps w s.routed s _ d o free (
        verdict-Ready steps w.outcomes s.id
          (subst (λ x. admission_verdict x w.outcomes ≢ wait) self n))
  advance_group-Kept fuel turn table steps panels w _ d known o (found_skipping s i free v) =
      Grown-one steps w.outcomes s.id skipped free (inl refl)
  advance_group-Kept fuel turn table steps panels w _ d known o (found_panel id p h v) =
      advance_panel-Kept fuel turn table steps w p d o
        (found-Members id p steps panels w.outcomes known h (λ e. cc))
  advance_group-Kept fuel turn table steps panels w _ d known o (found_skipping_panel id p h v) =
      Grown-Members steps w.outcomes p skipped
        (found-Members id p steps panels w.outcomes known h (λ e. cc))

  next_round-Extends :
      (steps : List Step) (w : Walk E R) (p : Option E)
      (r : Option (Walk E R × Option (RunError E)))
      (k : Walk E R → Option (Walk E R × Option (RunError E)))
      (end : Walk E R × Option (RunError E))
      → IsOrdered steps w.outcomes
      → Kept steps w r
      → ((w' : Walk E R)
          → IsOrdered steps w'.outcomes
          → k w' ≡ some end
          → Extends w'.outcomes end.0.outcomes × IsOrdered steps end.0.outcomes)
      → next_round p r k w ≡ some end
      → Extends w.outcomes end.0.outcomes × IsOrdered steps end.0.outcomes
  unfolding next_round
  next_round-Extends steps w (some x) r k end o g f h =
      subst (λ z. Extends w.outcomes z.0.outcomes × IsOrdered steps z.0.outcomes) (some_inj.0 h)
        ((λ i a q. q), o)
  next_round-Extends steps w none none k end o g f h = absurd (ground (arith, h))
  next_round-Extends steps w none (some (w', some e)) k end o g f h =
      subst (λ z. Extends w.outcomes z.0.outcomes × IsOrdered steps z.0.outcomes) (some_inj.0 h)
        (g.kept, Grown-IsOrdered steps w.outcomes w'.outcomes g o)
  next_round-Extends steps w none (some (w', none)) k end o g f h =
      let (a, b) = f w' (Grown-IsOrdered steps w.outcomes w'.outcomes g o) h in
      ((λ i x q. a i x (g.kept i x q)), b)

  -- An outcome is final, and no step is executed early: over steps with distinct IDs, from any point
  -- of a walk at which every executed step has its needs resolved, the walk ends with all outcomes
  -- of that point unchanged, and again every step that succeeded or failed has its needs resolved.
  pub run_loop-Extends :
      (rounds fuel : ℕ) (turns : ℕ → Turn E R) (table : List (Transition E R)) (steps : List Step)
      (panels : List (List String)) (w : Walk E R) (end : Walk E R × Option (RunError E))
      → Distinct (ids_of steps)
      → AreKnown steps panels
      → IsOrdered steps w.outcomes
      → run_loop rounds fuel turns table steps panels w ≡ some end
      → Extends w.outcomes end.0.outcomes × IsOrdered steps end.0.outcomes
  unfolding run_loop advance
  run_loop-Extends zero fuel turns table steps panels w end d known o h =
      elim (Bool-cases (leb (length steps) (length w.outcomes))) [
        | inl e ↦
            subst (λ z. Extends w.outcomes z.0.outcomes × IsOrdered steps z.0.outcomes)
              (some_inj.0 (rw (e, run_loop) at h)) ((λ i a q. q), o)
        | inr e ↦ absurd (ground (arith, rw (e, run_loop) at h))
      ]
  run_loop-Extends (suc k) fuel turns table steps panels w end d known o h =
      elim (Bool-cases (leb (length steps) (length w.outcomes))) [
        | inl e ↦
            subst (λ z. Extends w.outcomes z.0.outcomes × IsOrdered steps z.0.outcomes)
              (some_inj.0 (rw (e, run_loop) at h)) ((λ i a q. q), o)
        | inr e ↦
            next_round-Extends steps w (turns k).is_paused _ _ end o
              (advance_group-Kept fuel (turns k) table steps panels w _ d known o
                (next_ready_group-IsFound steps steps panels w.outcomes (λ s i. i)))
              (λ w' o' q. run_loop-Extends k fuel turns table steps panels w' end d known o' q)
              (rw (e, run_loop) at h)
      ]
