-- ===== src/Flow/Runner.antt =====
-- flow/runner.go and flow/resume.go: the walk over the step graph.
pub mod Finds
pub mod Progress
pub mod Writes
pub mod Ends
pub mod Caught
pub mod Skips
pub mod Settled
pub mod Pending
pub mod Rejected
pub mod Final
pub mod Marks
pub mod Outcomes
pub mod Live
use mivia_ai_sdk.Base.{
  ℕ, zero, suc, String, List, [], ◌∷◌, Bool, true, false, Option, none, some, Assoc, lookup, insert,
  contains, length, leb, if◌then◌else◌,
}
use mivia_ai_sdk.Machine.{Transition}
use mivia_ai_sdk.Flow.Step.{Step, zero_step, Outcome, succeeded, failed, skipped, step_by_id}
use mivia_ai_sdk.Flow.Admission.{
  Verdict, wait, admit, skip, admission_verdict, panel_verdict, apply_route, mark_outcome,
}
use mivia_ai_sdk.Flow.Failures.{
  HandledFailure, FailureKind, firing, resolve_catchable, resolve_panel_failure,
  prune_pending_handler, prune_pending_on_route,
}
use mivia_ai_sdk.Flow.Execution.{
  RunError, Fault, tagged, untagged, Turn, Moved, run_singleton, run_wave, paused, stalled,
  route_rejected, route_error,
}
use mivia_ai_sdk.Flow.Checkpoint.{
  Checkpoint, CheckpointFault, validate, checkpoint_of, seed, unknown_step,
}

-- `panelFor`: none where no panel names the step.
unfoldable pub panel_for : String → List (List String) → Option (List String)
panel_for id [] = none
panel_for id (p ∷ ps) = if contains p id then some p else panel_for id ps

-- `panelMembers`.
unfoldable pub panel_members : List String → List Step → List Step
unfolding step_by_id
panel_members [] steps = []
panel_members (id ∷ ids) steps = step_by_id steps id ∷ panel_members ids steps

-- What `nextReadyGroup` finds.
pub data Scan : Type 0 where
  nothing_ready : Scan
  ready skipping : Step → Scan
  ready_panel skipping_panel : List Step → Scan

-- The verdict on one unresolved step, as a find; none moves the scan on.
unfoldable pub scan_step : Step → List Step → List (List String) → Assoc Outcome → Option Scan
unfolding panel_for panel_members panel_verdict admission_verdict
scan_step s steps panels outcomes = elim (panel_for s.id panels) [
  | some p ↦ elim (panel_verdict p steps outcomes true) [
    | admit ↦ some (ready_panel (panel_members p steps))
    | skip ↦ some (skipping_panel (panel_members p steps))
    | wait ↦ none
  ]
  | none ↦ elim (admission_verdict s outcomes) [
    | admit ↦ some (ready s)
    | skip ↦ some (skipping s)
    | wait ↦ none
  ]
]

-- `nextReadyGroup`, over the steps that are left to scan.
unfoldable pub next_ready_group : List Step → List Step → List (List String) → Assoc Outcome → Scan
unfolding scan_step
next_ready_group [] steps panels outcomes = nothing_ready
next_ready_group (s ∷ ss) steps panels outcomes = elim (lookup s.id outcomes) [
  | some o ↦ next_ready_group ss steps panels outcomes
  | none ↦ elim (scan_step s steps panels outcomes) [
    | some found ↦ found
    | none ↦ next_ready_group ss steps panels outcomes
  ]
]

-- The state of a walk. `delivered` holds the checkpoints that `onCheckpoint` got, the last first.
pub record Walk (E R : Type 0) : Type 0 where
  pub status : String
  pub rec : R
  pub outcomes : Assoc Outcome
  pub pending : Assoc (HandledFailure (RunError E))
  pub delivered : List (Checkpoint R)

unfoldable pub outcome_of : {E : Type 0} → Option (Fault E) → Outcome
outcome_of none = succeeded
outcome_of (some e) = failed

-- How `Resume` ends: it refuses the checkpoint, or it walks.
pub data Resumed (E R : Type 0) : Type 0 where
  refused : CheckpointFault → Resumed E R
  walked : Option (Walk E R × Option (RunError E)) → Resumed E R

-- `fuel` bounds the retries and loops inside a turn; where it runs out, the result is none, and so it
-- is where Go would read the first member of an empty group.
module _ {E R : Type 0} where
  -- `fireCheckpoint`.
  unfoldable pub fire_checkpoint : Walk E R → Walk E R
  fire_checkpoint w = record w { delivered = checkpoint_of w.status w.rec w.outcomes ∷ w.delivered }

  -- `resolveCatchable` with `continueOrAbort`: only a tagged error can be caught.
  unfoldable pub catch : Walk E R → String → List Step → Fault E → Walk E R × Option (RunError E)
  catch w id steps (untagged e) = (w, some e)
  catch w id steps (tagged k e) =
      let (pending, left) = resolve_catchable k e id steps w.outcomes w.pending in
      (record w { pending = pending }, left)

  -- What `runSingletonAndMark` writes for the step.
  unfoldable pub mark_singleton : Walk E R → String → Moved E R → Walk E R
  unfolding outcome_of
  mark_singleton w id r = record w {
    status = r.status;
    rec = r.rec;
    outcomes = insert id (outcome_of r.error) w.outcomes;
    pending = prune_pending_handler id w.pending;
  }

  -- The route of a branch step that ran.
  unfoldable pub take_route :
      Walk E R → Step → List Step → Option E × List String → Walk E R × Option (RunError E)
  unfolding catch fire_checkpoint
  take_route w s steps (some x, kept) =
      catch (record w { outcomes = insert s.id failed w.outcomes }) s.id steps
        (tagged firing (route_error x))
  take_route w s steps (none, kept) = elim (apply_route s (some kept) steps w.outcomes).1 [
    | true ↦
        catch (record w { outcomes = insert s.id failed w.outcomes }) s.id steps
          (tagged firing route_rejected)
    | false ↦
        let outcomes = (apply_route s (some kept) steps w.outcomes).0 in
        let (pending, left) = prune_pending_on_route s steps outcomes w.pending in
        let w' = record w { outcomes = outcomes; pending = pending } in
        elim left [ some e ↦ (w', some e) | none ↦ (fire_checkpoint w', none) ]
  ]

  -- A singleton that ran with the result `r`; `routed` is off for the member of a panel of one.
  unfoldable pub after_singleton :
      Turn E R → List Step → Walk E R → Bool → Step → Moved E R → Walk E R × Option (RunError E)
  unfolding mark_singleton catch take_route fire_checkpoint
  after_singleton turn steps w routed s r = elim r.error [
    | some e ↦ catch (mark_singleton w s.id r) s.id steps e
    | none ↦
        if routed
        then take_route (mark_singleton w s.id r) s steps (turn.route r.status r.rec)
        else (fire_checkpoint (mark_singleton w s.id r), none)
  ]

  -- A singleton that ran, unless the fuel ran out in it.
  unfoldable pub settle :
      Turn E R
      → List Step
      → Walk E R
      → Bool
      → Step
      → Option (Moved E R)
      → Option (Walk E R × Option (RunError E))
  unfolding after_singleton
  settle turn steps w routed s none = none
  settle turn steps w routed s (some r) = some (after_singleton turn steps w routed s r)

  -- A wave that ran with the result `r`.
  unfoldable pub after_wave :
      List Step → Walk E R → List Step → Moved E R → Walk E R × Option (RunError E)
  unfolding fire_checkpoint
  after_wave steps w group r = elim r.error [
    | none ↦ (
      fire_checkpoint (record w {
        status = r.status;
        rec = r.rec;
        outcomes = mark_outcome w.outcomes group succeeded;
      }),
      none,
    )
    | some e ↦ elim e [
      | tagged k x ↦ (record w { status = r.status; rec = r.rec }, some x)
      | untagged x ↦
          let (outcomes, (pending, left)) =
            resolve_panel_failure x group steps w.outcomes w.pending in
          (
            record w { status = r.status; rec = r.rec; outcomes = outcomes; pending = pending },
            left,
          )
    ]
  ]

  unfoldable pub advance_panel :
      ℕ
      → Turn E R
      → List (Transition E R)
      → List Step
      → Walk E R
      → List Step
      → Option (Walk E R × Option (RunError E))
  unfolding settle after_wave
  advance_panel fuel turn table steps w [] = none
  advance_panel fuel turn table steps w (s ∷ []) =
      settle turn steps w false s (run_singleton fuel turn table s w.status w.rec)
  advance_panel fuel turn table steps w (s ∷ t ∷ ts) =
      some (after_wave steps w (s ∷ t ∷ ts) (run_wave turn table s (t ∷ ts) w.status w.rec))

  -- `advanceGroup`.
  unfoldable pub advance_group :
      ℕ
      → Turn E R
      → List (Transition E R)
      → List Step
      → Walk E R
      → Scan
      → Option (Walk E R × Option (RunError E))
  unfolding settle advance_panel
  advance_group fuel turn table steps w nothing_ready = some (w, some stalled)
  advance_group fuel turn table steps w (skipping s) =
      some (record w { outcomes = insert s.id skipped w.outcomes }, none)
  advance_group fuel turn table steps w (skipping_panel group) =
      some (record w { outcomes = mark_outcome w.outcomes group skipped }, none)
  advance_group fuel turn table steps w (ready s) =
      settle turn steps w s.routed s (run_singleton fuel turn table s w.status w.rec)
  advance_group fuel turn table steps w (ready_panel group) =
      advance_panel fuel turn table steps w group

  -- One iteration of `runLoop`, after the context's test.
  unfoldable pub advance :
      ℕ
      → Turn E R
      → List (Transition E R)
      → List Step
      → List (List String)
      → Walk E R
      → Option (Walk E R × Option (RunError E))
  unfolding advance_group next_ready_group
  advance fuel turn table steps panels w =
      advance_group fuel turn table steps w (next_ready_group steps steps panels w.outcomes)

  -- An iteration: what the context answers, what the turn does, and the rest of the walk.
  unfoldable pub next_round :
      Option E
      → Option (Walk E R × Option (RunError E))
      → (Walk E R → Option (Walk E R × Option (RunError E)))
      → Walk E R
      → Option (Walk E R × Option (RunError E))
  next_round (some x) r k w = some (w, some (paused x))
  next_round none none k w = none
  next_round none (some (w', some e)) k w = some (w', some e)
  next_round none (some (w', none)) k w = k w'

  -- The loop of `runLoop`, with `rounds` iterations as fuel and a turn for each number of rounds
  -- left; none where the rounds, or the fuel of a turn, run out.
  unfoldable pub run_loop :
      ℕ
      → ℕ
      → (ℕ → Turn E R)
      → List (Transition E R)
      → List Step
      → List (List String)
      → Walk E R
      → Option (Walk E R × Option (RunError E))
  unfolding advance next_round
  run_loop zero fuel turns table steps panels w =
      if leb (length steps) (length w.outcomes) then some (w, none) else none
  run_loop (suc rounds) fuel turns table steps panels w =
      let rest =
        next_round (turns rounds).is_paused (advance fuel (turns rounds) table steps panels w)
          (λ w'. run_loop rounds fuel turns table steps panels w') w in
      if leb (length steps) (length w.outcomes) then some (w, none) else rest

  unfoldable pub start : String → R → Assoc Outcome → Walk E R
  start cur rec outcomes = record {
    status = cur;
    rec = rec;
    outcomes = outcomes;
    pending = [];
    delivered = [];
  }

  -- `Run`, for a definition, a machine and a Confirm that are not nil.
  unfoldable pub run :
      ℕ
      → ℕ
      → (ℕ → Turn E R)
      → List (Transition E R)
      → String
      → List Step
      → List (List String)
      → R
      → Option (Walk E R × Option (RunError E))
  unfolding run_loop start
  run rounds fuel turns table initial steps panels rec =
      run_loop rounds fuel turns table steps panels (start initial rec [])

  unfoldable pub resume :
      ℕ
      → ℕ
      → (ℕ → Turn E R)
      → List (Transition E R)
      → List Step
      → List (List String)
      → Checkpoint R
      → Resumed E R
  unfolding run_loop start validate seed
  resume rounds fuel turns table steps panels c = elim (validate c) [
    | some e ↦ refused e
    | none ↦ elim (seed steps c) [
      | none ↦ refused unknown_step
      | some outcomes ↦
          walked (run_loop rounds fuel turns table steps panels (start c.status c.rec outcomes))
    ]
  ]
