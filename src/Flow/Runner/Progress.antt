-- ===== src/Flow/Runner/Progress.antt =====
-- flow/runner.go: every turn of the walk resolves a step, or ends the walk.
use mivia_ai_sdk.Base.{
  ℕ, ◌≤◌, ◌<◌, ◌≡◌, ◌≢◌, refl, ◌∙◌, ap, ◌⊎◌, inl, inr, String, List, [], ◌∷◌, Bool, true, false,
  Option, none, some, Assoc, lookup, insert, contains, length, Bool-cases, Option-cases, arith, In,
  All,
}
use mivia_ai_sdk.Machine.{Transition}
use mivia_ai_sdk.Flow.Step.{Step, zero_step, Outcome, succeeded, failed, skipped, direct_dependents}
use mivia_ai_sdk.Flow.Admission.{wait, panel_verdict, apply_route, mark_outcome, skip_unkept}
use mivia_ai_sdk.Flow.Failures.{
  resolve_panel_failure, group_entries, prune_pending_on_route, firing,
}
use mivia_ai_sdk.Flow.Graph.{ids_of}
use mivia_ai_sdk.Flow.Execution.{
  RunError, Fault, tagged, untagged, route_error, route_rejected, Turn, Moved,
}
use mivia_ai_sdk.Flow.Runner.{
  Scan, panel_for, panel_members, Walk, catch, mark_singleton, take_route, after_singleton, settle,
  after_wave, advance_panel, advance_group, advance, outcome_of,
}
use mivia_ai_sdk.Flow.Rules.{AreKnown}
use mivia_ai_sdk.Flow.Runner.Finds.{
  IsFound, found_nothing, found_ready, found_skipping, found_panel, found_skipping_panel,
  next_ready_group-IsFound, panel_for-All, panel_verdict-free, step_by_id-id, StepIn-All,
  step_by_id-All,
}
use mivia_ai_sdk.Flow.Execution.Fuel.{IsBounded, run_singleton-ne-none}

length-le-insert : (k : String) (o : Outcome) (m : Assoc Outcome) → length m ≤ length (insert k o m)
unfolding insert
length-le-insert k o [] = omega arith
length-le-insert k o ((j, w) ∷ m) = ground (arith, length-le-insert k o m)

length-insert_new :
    (k : String) (o : Outcome) (m : Assoc Outcome)
    → lookup k m ≡ none
    → length m < length (insert k o m)
unfolding insert lookup
length-insert_new k o [] h = omega arith
length-insert_new k o ((j, w) ∷ m) h = ground (arith, length-insert_new k o m)

length-le-mark_outcome :
    (m : Assoc Outcome) (group : List Step) (o : Outcome)
    → length m ≤ length (mark_outcome m group o)
unfolding mark_outcome
length-le-mark_outcome m [] o = omega arith
length-le-mark_outcome m (s ∷ ss) o =
    omega (arith, length-le-insert s.id o m, length-le-mark_outcome (insert s.id o m) ss o)

length-le-skip_unkept :
    (ds : List Step) (kept : List String) (m : Assoc Outcome)
    → length m ≤ length (skip_unkept ds kept m)
unfolding skip_unkept
length-le-skip_unkept [] kept m = omega arith
length-le-skip_unkept (d ∷ ds) kept m = elim (Bool-cases (contains kept d.id)) [
  | inl e ↦ rw (e, skip_unkept) (length-le-skip_unkept ds kept m)
  | inr e ↦
      rw (e, skip_unkept)
        (omega (
          arith,
          length-le-insert d.id skipped m,
          length-le-skip_unkept ds kept (insert d.id skipped m),
        ))
]

length-le-apply_route :
    (s : Step) (r : Option (List String)) (steps : List Step) (m : Assoc Outcome)
    → length m ≤ length (apply_route s r steps m).0
unfolding apply_route
length-le-apply_route s none steps m = omega arith
length-le-apply_route s (some kept) steps m =
    ground (arith, length-le-skip_unkept (direct_dependents s.id steps) kept m)

mark_outcome-grows :
    (m : Assoc Outcome) (s : Step) (ss : List Step) (o : Outcome)
    → lookup s.id m ≡ none
    → length m < length (mark_outcome m (s ∷ ss) o)
unfolding mark_outcome
mark_outcome-grows m s ss o free =
    omega (arith, length-insert_new s.id o m free, length-le-mark_outcome (insert s.id o m) ss o)

abbrev HeadFree : Assoc Outcome → List Step → Type 0
HeadFree m [] = ⊥
HeadFree m (s ∷ ss) = lookup s.id m ≡ none

panel_members-HeadFree :
    (id : String) (p : List String) (steps : List Step) (panels : List (List String))
    (m : Assoc Outcome)
    → AreKnown steps panels
    → panel_for id panels ≡ some p
    → panel_verdict p steps m true ≢ wait
    → HeadFree m (panel_members p steps)
unfolding panel_members
panel_members-HeadFree id p steps panels m known h n =
    let (a, i) = panel_for-All (All (λ x. In x (ids_of steps))) id panels p known h in
    of_panel p a i n
  where
    of_panel :
        (q : List String)
        → All (λ x. In x (ids_of steps)) q
        → In id q
        → panel_verdict q steps m true ≢ wait
        → HeadFree m (panel_members q steps)
    of_panel [] a i n = elim i [ ]
    of_panel (x ∷ xs) a i n =
        ap (λ y. lookup y m) (step_by_id-id steps x a.0)
        ∙ (panel_verdict-free (x ∷ xs) steps m true x n (inl refl)).0

IsBounded-zero_step : (fuel : ℕ) → IsBounded fuel zero_step
IsBounded-zero_step fuel = record {
  attempts = λ p h. absurd (ground (arith, h));
  iterations = λ m h. absurd (ground (arith, h));
}

panel_members-IsBounded :
    (fuel : ℕ) (p : List String) (steps : List Step)
    → All (IsBounded fuel) steps
    → All (IsBounded fuel) (panel_members p steps)
unfolding panel_members
panel_members-IsBounded fuel [] steps b = tt
panel_members-IsBounded fuel (x ∷ xs) steps b = (
  step_by_id-All (IsBounded fuel) steps x (IsBounded-zero_step fuel) b,
  panel_members-IsBounded fuel xs steps b,
)

module _ {E R : Type 0} where
  pub catch-outcomes :
      (w : Walk E R) (id : String) (steps : List Step) (f : Fault E)
      → (catch w id steps f).0.outcomes ≡ w.outcomes
  unfolding catch
  catch-outcomes w id steps (untagged e) = refl
  catch-outcomes w id steps (tagged k e) = refl

  take_route-grows :
      (w : Walk E R) (s : Step) (steps : List Step) (a : Option E × List String)
      → length w.outcomes ≤ length (take_route w s steps a).0.outcomes
  unfolding take_route
  take_route-grows w s steps (some x, kept) = omega (
    arith,
    ap length (
        catch-outcomes (record w { outcomes = insert s.id failed w.outcomes }) s.id steps
          (tagged firing (route_error x))),
    length-le-insert s.id failed w.outcomes,
  )
  take_route-grows w s steps (none, kept) =
      elim (Bool-cases (apply_route s (some kept) steps w.outcomes).1) [
        | inl e ↦
            rw (e, take_route)
              (omega (
                arith,
                ap length (
                    catch-outcomes (record w { outcomes = insert s.id failed w.outcomes }) s.id
                      steps (tagged firing route_rejected)),
                length-le-insert s.id failed w.outcomes,
              ))
        | inr e ↦
            let more = length-le-apply_route s (some kept) steps w.outcomes in
            elim (Option-cases
              (prune_pending_on_route s steps (apply_route s (some kept) steps w.outcomes).0
                w.pending).1) [
                  | inl q ↦ rw (e, q, take_route) more
                  | inr (x, q) ↦ rw (e, q, take_route) more
                ]
      ]

  after_singleton-grows :
      (turn : Turn E R) (steps : List Step) (w : Walk E R) (routed : Bool) (s : Step)
      (r : Moved E R)
      → lookup s.id w.outcomes ≡ none
      → length w.outcomes < length (after_singleton turn steps w routed s r).0.outcomes
  unfolding after_singleton mark_singleton
  after_singleton-grows turn steps w routed s r free =
      let more = length-insert_new s.id (outcome_of r.error) w.outcomes free in
      elim (Option-cases r.error) [
        | inl e ↦ elim (Bool-cases routed) [
          | inl t ↦
              rw (e, t, after_singleton)
                (omega (
                  arith,
                  take_route-grows (mark_singleton w s.id r) s steps (turn.route r.status r.rec),
                ))
          | inr t ↦ rw (e, t, after_singleton) more
        ]
        | inr (f, e) ↦
            rw (e, after_singleton)
              (omega (arith, ap length (catch-outcomes (mark_singleton w s.id r) s.id steps f)))
      ]

  -- The turn ends the walk, or resolves a further step.
  abbrev pub Turned : Walk E R → Option (Walk E R × Option (RunError E)) → Type 0
  Turned w none = ⊥
  Turned w (some r) = (r.1 ≢ none) ⊎ (length w.outcomes < length r.0.outcomes)

  pub resolve_panel_failure-outcomes :
      (x : RunError E) (group steps : List Step) (w : Walk E R)
      → (resolve_panel_failure x group steps w.outcomes w.pending).0
        ≡ mark_outcome w.outcomes group failed
  unfolding resolve_panel_failure
  resolve_panel_failure-outcomes x group steps w =
      elim (Option-cases
        (group_entries x group steps (mark_outcome w.outcomes group failed) w.pending)) [
          | inl e ↦ rw (e, resolve_panel_failure) refl
          | inr (m, e) ↦ rw (e, resolve_panel_failure) refl
        ]

  after_wave-Turned :
      (steps : List Step) (w : Walk E R) (s : Step) (ss : List Step) (r : Moved E R)
      → lookup s.id w.outcomes ≡ none
      → Turned w (some (after_wave steps w (s ∷ ss) r))
  unfolding after_wave
  after_wave-Turned steps w s ss r free = of_error r.error refl
    where
      of_error :
          (o : Option (Fault E)) → r.error ≡ o → Turned w (some (after_wave steps w (s ∷ ss) r))
      of_error none e = rw (e, after_wave) (inr (mark_outcome-grows w.outcomes s ss succeeded free))
      of_error (some (tagged k x)) e = rw (e, after_wave) (inl (λ q. cc))
      of_error (some (untagged x)) e =
          rw (e, after_wave)
            (inr (
              omega (
                arith,
                ap length (resolve_panel_failure-outcomes x (s ∷ ss) steps w),
                mark_outcome-grows w.outcomes s ss failed free,
              )))

  settle-Turned :
      (turn : Turn E R) (steps : List Step) (w : Walk E R) (routed : Bool) (s : Step)
      (r : Option (Moved E R))
      → lookup s.id w.outcomes ≡ none
      → r ≢ none
      → Turned w (settle turn steps w routed s r)
  unfolding settle
  settle-Turned turn steps w routed s none free n = absurd (n refl)
  settle-Turned turn steps w routed s (some r) free n =
      inr (after_singleton-grows turn steps w routed s r free)

  advance_panel-Turned :
      (fuel : ℕ) (turn : Turn E R) (table : List (Transition E R)) (steps : List Step)
      (w : Walk E R) (group : List Step)
      → HeadFree w.outcomes group
      → 1 ≤ fuel
      → All (IsBounded fuel) group
      → Turned w (advance_panel fuel turn table steps w group)
  unfolding advance_panel
  advance_panel-Turned fuel turn table steps w [] free f b = elim free [ ]
  advance_panel-Turned fuel turn table steps w (s ∷ []) free f b =
      settle-Turned turn steps w false s _ free
        (run_singleton-ne-none fuel turn table s w.status w.rec f b.0)
  advance_panel-Turned fuel turn table steps w (s ∷ t ∷ ts) free f b =
      after_wave-Turned steps w s (t ∷ ts) _ free

  advance_group-Turned :
      (fuel : ℕ) (turn : Turn E R) (table : List (Transition E R)) (steps : List Step)
      (panels : List (List String)) (w : Walk E R) (f : Scan)
      → AreKnown steps panels
      → IsFound steps panels w.outcomes f
      → 1 ≤ fuel
      → All (IsBounded fuel) steps
      → Turned w (advance_group fuel turn table steps w f)
  unfolding advance_group
  advance_group-Turned fuel turn table steps panels w _ known found_nothing f b = inl (λ e. cc)
  advance_group-Turned fuel turn table steps panels w _ known (found_ready s i free v) f b =
      settle-Turned turn steps w s.routed s _ free (
        run_singleton-ne-none fuel turn table s w.status w.rec f
          (StepIn-All (IsBounded fuel) steps s b i))
  advance_group-Turned fuel turn table steps panels w _ known (found_skipping s i free v) f b =
      inr (length-insert_new s.id skipped w.outcomes free)
  advance_group-Turned fuel turn table steps panels w _ known (found_panel id p h v) f b =
      advance_panel-Turned fuel turn table steps w (panel_members p steps)
        (panel_members-HeadFree id p steps panels w.outcomes known h (λ e. cc)) f
        (panel_members-IsBounded fuel p steps b)
  advance_group-Turned fuel turn table steps panels w _ known (found_skipping_panel id p h v) f b =
      inr (
        members_grow (panel_members p steps)
          (panel_members-HeadFree id p steps panels w.outcomes known h (λ e. cc)))
    where
      members_grow :
          (group : List Step)
          → HeadFree w.outcomes group
          → length w.outcomes < length (mark_outcome w.outcomes group skipped)
      members_grow [] free = elim free [ ]
      members_grow (s ∷ ss) free = mark_outcome-grows w.outcomes s ss skipped free

  -- With enough fuel for the retries and the loops of every step, a turn of the walk ends it or
  -- resolves a further step.
  pub advance-Turned :
      (fuel : ℕ) (turn : Turn E R) (table : List (Transition E R)) (steps : List Step)
      (panels : List (List String)) (w : Walk E R)
      → AreKnown steps panels
      → 1 ≤ fuel
      → All (IsBounded fuel) steps
      → Turned w (advance fuel turn table steps panels w)
  unfolding advance
  advance-Turned fuel turn table steps panels w known f b =
      advance_group-Turned fuel turn table steps panels w _ known
        (next_ready_group-IsFound steps steps panels w.outcomes (λ s i. i)) f b
