-- ===== src/Flow/Runner/Writes.antt =====
-- flow/runner.go: a turn of the walk writes the outcomes of the graph's own steps, and of no others.
use mivia_ai_sdk.Base.{
  ℕ, ◌≡◌, refl, sym, ap, subst, inl, inr, String, List, [], ◌∷◌, Bool, Option, none, some, Assoc,
  insert, contains, false, Bool-cases, Option-cases, In, All,
}
use mivia_ai_sdk.Machine.{Transition}
use mivia_ai_sdk.Flow.Step.{
  Step, Outcome, succeeded, failed, skipped, step_by_id, direct_dependents,
}
use mivia_ai_sdk.Flow.Admission.{apply_route, skip_unkept, mark_outcome, all_dependents}
use mivia_ai_sdk.Flow.Failures.{prune_pending_on_route, firing}
use mivia_ai_sdk.Flow.Graph.{ids_of}
use mivia_ai_sdk.Flow.Execution.{
  RunError, Fault, tagged, untagged, route_error, route_rejected, Turn, Moved,
}
use mivia_ai_sdk.Flow.Runner.{
  Scan, Walk, catch, mark_singleton, take_route, after_singleton, settle, after_wave, advance_panel,
  advance_group, outcome_of, panel_members,
}
use mivia_ai_sdk.Flow.Rules.{AreKnown}
use mivia_ai_sdk.Flow.Runner.Finds.{
  StepIn, IsFound, found_nothing, found_ready, found_skipping, found_panel, found_skipping_panel,
  step_by_id-id, panel_for-All,
}
use mivia_ai_sdk.Flow.Runner.Progress.{catch-outcomes, resolve_panel_failure-outcomes}

pub StepIn-known : (steps : List Step) (s : Step) → StepIn s steps → In s.id (ids_of steps)
StepIn-known [] s i = i
StepIn-known (t ∷ ts) s (inl e) = inl (ap (λ x. x.id) e)
StepIn-known (t ∷ ts) s (inr i) = inr (StepIn-known ts s i)

-- The direct dependents are steps.
dependents-known :
    (ids : List String) (id : String) (ss : List Step)
    → ((k : String) → In k (ids_of ss) → In k ids)
    → All (λ d. In d.id ids) (direct_dependents id ss)
unfolding direct_dependents
dependents-known ids id [] h = tt
dependents-known ids id (s ∷ ss) h =
    let rest = dependents-known ids id ss (λ k i. h k (inr i)) in
    elim (Bool-cases (contains s.needs id)) [
      | inl e ↦ rw (e, direct_dependents) (h s.id (inl refl), rest)
      | inr e ↦ rw (e, direct_dependents) rest
    ]

-- `Q` holds of the outcomes after a turn that has a result.
abbrev pub Written :
    {E R : Type 0} → (Assoc Outcome → Type 0) → Option (Walk E R × Option (RunError E)) → Type 0
Written Q none = Unit
Written Q (some r) = Q r.0.outcomes

-- `Q` is any property of the outcomes that stays when one more outcome of a step is written.
module _ (steps : List Step) (Q : Assoc Outcome → Type 0)
    (closed : (k : String) (o : Outcome) (m : Assoc Outcome)
      → In k (ids_of steps)
      → Q m
      → Q (insert k o m)) where
  skip_unkept-Writes :
      (ds : List Step) (kept : List String) (m : Assoc Outcome)
      → All (λ d. In d.id (ids_of steps)) ds
      → Q m
      → Q (skip_unkept ds kept m)
  unfolding skip_unkept
  skip_unkept-Writes [] kept m a q = q
  skip_unkept-Writes (d ∷ ds) kept m a q = elim (Bool-cases (contains kept d.id)) [
    | inl e ↦ rw (e, skip_unkept) (skip_unkept-Writes ds kept m a.1 q)
    | inr e ↦
        rw (e, skip_unkept)
          (skip_unkept-Writes ds kept (insert d.id skipped m) a.1 (closed d.id skipped m a.0 q))
  ]

  apply_route-Writes :
      (s : Step) (kept : List String) (m : Assoc Outcome)
      → Q m
      → Q (apply_route s (some kept) steps m).0
  unfolding apply_route
  apply_route-Writes s kept m q =
      elim (Bool-cases (all_dependents kept (direct_dependents s.id steps))) [
        | inl e ↦
            rw (e, apply_route)
              (skip_unkept-Writes (direct_dependents s.id steps) kept m
                (dependents-known (ids_of steps) s.id steps (λ k i. i)) q)
        | inr e ↦ rw (e, apply_route) q
      ]

  mark_outcome-Writes :
      (p : List String) (o : Outcome) (m : Assoc Outcome)
      → All (λ x. In x (ids_of steps)) p
      → Q m
      → Q (mark_outcome m (panel_members p steps) o)
  unfolding mark_outcome panel_members
  mark_outcome-Writes [] o m a q = q
  mark_outcome-Writes (x ∷ xs) o m a q =
      mark_outcome-Writes xs o (insert (step_by_id steps x).id o m) a.1 (
        closed (step_by_id steps x).id o m
          (subst (λ y. In y (ids_of steps)) (sym (step_by_id-id steps x a.0)) a.0) q)

  module _ {E R : Type 0} where
    catch-Writes :
        (w : Walk E R) (id : String) (f : Fault E)
        → Q w.outcomes
        → Q (catch w id steps f).0.outcomes
    catch-Writes w id f q = subst Q (sym (catch-outcomes w id steps f)) q

    take_route-Writes :
        (w : Walk E R) (s : Step) (a : Option E × List String)
        → In s.id (ids_of steps)
        → Q w.outcomes
        → Q (take_route w s steps a).0.outcomes
    unfolding take_route
    take_route-Writes w s (some x, kept) i q =
        catch-Writes (record w { outcomes = insert s.id failed w.outcomes }) s.id
          (tagged firing (route_error x)) (closed s.id failed w.outcomes i q)
    take_route-Writes w s (none, kept) i q =
        elim (Bool-cases (apply_route s (some kept) steps w.outcomes).1) [
          | inl t ↦
              rw (t, take_route)
                (catch-Writes (record w { outcomes = insert s.id failed w.outcomes }) s.id
                  (tagged firing route_rejected) (closed s.id failed w.outcomes i q))
          | inr t ↦
              elim (Option-cases
                (prune_pending_on_route s steps (apply_route s (some kept) steps w.outcomes).0
                  w.pending).1) [
                    | inl e ↦ rw (t, e, take_route) (apply_route-Writes s kept w.outcomes q)
                    | inr (x, e) ↦ rw (t, e, take_route) (apply_route-Writes s kept w.outcomes q)
                  ]
        ]

    settle-Writes :
        (turn : Turn E R) (w : Walk E R) (routed : Bool) (s : Step) (r : Option (Moved E R))
        → In s.id (ids_of steps)
        → Q w.outcomes
        → Written Q (settle turn steps w routed s r)
    unfolding settle after_singleton mark_singleton
    settle-Writes turn w routed s none i q = tt
    settle-Writes turn w routed s (some r) i q =
        let q' = closed s.id (outcome_of r.error) w.outcomes i q in
        elim (Option-cases r.error) [
          | inl e ↦ elim (Bool-cases routed) [
            | inl t ↦
                rw (e, t, after_singleton)
                  (take_route-Writes (mark_singleton w s.id r) s (turn.route r.status r.rec) i q')
            | inr t ↦ rw (e, t, after_singleton) q'
          ]
          | inr (f, e) ↦ rw (e, after_singleton) (catch-Writes (mark_singleton w s.id r) s.id f q')
        ]

    after_wave-Writes :
        (w : Walk E R) (p : List String) (r : Moved E R)
        → All (λ x. In x (ids_of steps)) p
        → Q w.outcomes
        → Q (after_wave steps w (panel_members p steps) r).0.outcomes
    unfolding after_wave
    after_wave-Writes w p r a q = of_error r.error refl
      where
        of_error :
            (x : Option (Fault E))
            → r.error ≡ x
            → Q (after_wave steps w (panel_members p steps) r).0.outcomes
        of_error none e = rw (e, after_wave) (mark_outcome-Writes p succeeded w.outcomes a q)
        of_error (some (tagged k x)) e = rw (e, after_wave) q
        of_error (some (untagged x)) e =
            rw (e, after_wave)
              (subst Q (sym (resolve_panel_failure-outcomes x (panel_members p steps) steps w))
                (mark_outcome-Writes p failed w.outcomes a q))

    advance_panel-Writes :
        (fuel : ℕ) (turn : Turn E R) (table : List (Transition E R)) (w : Walk E R)
        (p : List String)
        → All (λ x. In x (ids_of steps)) p
        → Q w.outcomes
        → Written Q (advance_panel fuel turn table steps w (panel_members p steps))
    unfolding advance_panel panel_members
    advance_panel-Writes fuel turn table w [] a q = tt
    advance_panel-Writes fuel turn table w (x ∷ []) a q =
        settle-Writes turn w false (step_by_id steps x) _
          (subst (λ y. In y (ids_of steps)) (sym (step_by_id-id steps x a.0)) a.0) q
    advance_panel-Writes fuel turn table w (x ∷ y ∷ ys) a q = after_wave-Writes w (x ∷ y ∷ ys) _ a q

    -- A property that stays with each outcome of a step that is written stays in a whole turn.
    pub advance_group-Writes :
        (fuel : ℕ) (turn : Turn E R) (table : List (Transition E R)) (panels : List (List String))
        (w : Walk E R) (f : Scan)
        → AreKnown steps panels
        → IsFound steps panels w.outcomes f
        → Q w.outcomes
        → Written Q (advance_group fuel turn table steps w f)
    unfolding advance_group
    advance_group-Writes fuel turn table panels w _ known found_nothing q = q
    advance_group-Writes fuel turn table panels w _ known (found_ready s i free v) q =
        settle-Writes turn w s.routed s _ (StepIn-known steps s i) q
    advance_group-Writes fuel turn table panels w _ known (found_skipping s i free v) q =
        closed s.id skipped w.outcomes (StepIn-known steps s i) q
    advance_group-Writes fuel turn table panels w _ known (found_panel id p h v) q =
        advance_panel-Writes fuel turn table w p
          (panel_for-All (All (λ x. In x (ids_of steps))) id panels p known h).0 q
    advance_group-Writes fuel turn table panels w _ known (found_skipping_panel id p h v) q =
        mark_outcome-Writes p skipped w.outcomes
          (panel_for-All (All (λ x. In x (ids_of steps))) id panels p known h).0 q
