-- ===== src/Flow/Execution.antt =====
-- flow/runner.go, flow/retry.go, flow/loop.go and flow/wave.go: the execution of one step or wave.
-- What the machine, the caller's functions and the context answer during one turn of the walk is a
-- Turn. Numbers count the attempts of a retry, the iterations of a loop, or the members of a wave.
pub mod Fuel
use mathlib.Core.Option
use mivia_ai_sdk.Base.{
  ℕ, zero, suc, ◌+◌, String, List, [], ◌∷◌, Bool, true, false, ◌&&◌, not, Option, none, some,
  str_eq, if◌then◌else◌,
}
use mivia_ai_sdk.Base.Int.{ℤ, pos, leb_int}
use mivia_ai_sdk.Machine.{Transition, Fired, Failure, allowed_transitions}
use mivia_ai_sdk.Flow.Step.{Step, no_sub, child, RetryPolicy}
use mivia_ai_sdk.Flow.Failures.{FailureKind, firing, confirming, transition_missing}

-- The errors of a run; `E` is the type of the errors that the caller's functions return.
pub data RunError (E : Type 0) : Type 0 where
  no_row ambiguous_row stalled route_rejected : RunError E
  paused canceled confirm_rejected guard_error route_error : E → RunError E
  fire_error : Failure E → RunError E
  joined : List (Failure E) → RunError E

-- An error with its `failureError` tag, or without one.
pub data Fault (E : Type 0) : Type 0 where
  tagged : FailureKind → RunError E → Fault E
  untagged : RunError E → Fault E

pub record Turn (E R : Type 0) : Type 0 where
  pub is_paused : Option E
  pub fire : ℕ → String → String → R → Fired E R
  pub is_retryable : RunError E → Bool
  pub after_sleep : ℕ → Option E
  pub run_child : ℕ → R → String × Option (RunError E)
  pub loop_canceled : ℕ → Option E
  pub loop_guard : Option (ℕ → R → Option E × Bool)
  pub payload_from : R → String
  pub confirm : Step → Option E
  pub route : String → R → Option E × List String
  pub wave : ℕ → String → String → R → Fired E R

-- The status and record after an execution, and its error.
pub record Moved (E R : Type 0) : Type 0 where
  pub status : String
  pub rec : R
  pub error : Option (Fault E)

-- What `pickTransition` finds.
pub data Picked (E R : Type 0) : Type 0 where
  row : Transition E R → Picked E R
  missing ambiguous : Picked E R

abbrev pub error_of : {E : Type 0} → Fault E → RunError E
error_of (tagged k e) = e
error_of (untagged e) = e

-- `policy.Max != 0 && iteration >= policy.Max`.
unfoldable pub at_max : ℤ → ℕ → Bool
at_max max n = not (leb_int max (pos 0) && leb_int (pos 0) max) && leb_int max (pos n)

module _ {E R : Type 0} where
  -- `pickTransition`: the rows to `to`, of which there has to be one.
  unfoldable pub rows_to : List (Transition E R) → String → List (Transition E R)
  rows_to [] to = []
  rows_to (t ∷ ts) to = let rest = rows_to ts to in if str_eq t.to to then t ∷ rest else rest

  unfoldable pub pick_transition : List (Transition E R) → String → Picked E R
  unfolding rows_to
  pick_transition ts to = elim (rows_to ts to) [
    | [] ↦ missing
    | t ∷ more ↦ elim more [ [] ↦ row t | u ∷ us ↦ ambiguous ]
  ]

  -- `fireStep`, for a call that the turn answers as `f`.
  unfoldable pub fire_step : Fired E R → Moved E R
  fire_step f = record {
    status = f.status;
    rec = f.rec;
    error = elim f.error [ none ↦ none | some e ↦ some (tagged firing (fire_error e)) ];
  }

  -- The loop of `fireWithRetry`, from attempt `n`; none where the fuel runs out.
  unfoldable pub retry_loop :
      ℕ → ℕ → Turn E R → RetryPolicy → String → R → Transition E R → Option (Moved E R)
  unfolding fire_step
  retry_loop zero n turn p cur rec t = none
  retry_loop (suc f) n turn p cur rec t =
      let r = fire_step (turn.fire n cur t.trigger rec) in
      elim r.error [
        | none ↦ some r
        | some e ↦ elim (leb_int p.max_attempts (pos n)) [
          | true ↦ some r
          | false ↦ elim (turn.is_retryable (error_of e)) [
            | false ↦ some r
            | true ↦ elim (turn.after_sleep n) [
              | some x ↦
                  some (record {
                    status = r.status;
                    rec = r.rec;
                    error = some (untagged (canceled x));
                  })
              | none ↦ retry_loop f (n + 1) turn p cur rec t
            ]
          ]
        ]
      ]

  -- `fireWithRetry`, with the number of attempts as fuel.
  unfoldable pub fire_with_retry :
      ℕ → Turn E R → Option RetryPolicy → String → R → Transition E R → Option (Moved E R)
  unfolding fire_step retry_loop
  fire_with_retry fuel turn none cur rec t = some (fire_step (turn.fire 1 cur t.trigger rec))
  fire_with_retry fuel turn (some p) cur rec t = retry_loop fuel 1 turn p cur rec t

  -- A transition that `pickTransitionFor` does not find.
  unfoldable pub unpicked : String → R → RunError E → Moved E R
  unpicked cur rec e = record {
    status = cur;
    rec = rec;
    error = some (tagged transition_missing e);
  }

  -- `fireFromChild`, in iteration `n`.
  unfoldable pub fire_from_child :
      ℕ → Turn E R → List (Transition E R) → String → R → String → Moved E R
  unfolding pick_transition fire_step unpicked allowed_transitions
  fire_from_child n turn table cur rec to =
      if str_eq cur to
      then record { status = cur; rec = rec; error = none }
      else elim (pick_transition (allowed_transitions table cur) to) [
        | missing ↦ unpicked cur rec no_row
        | ambiguous ↦ unpicked cur rec ambiguous_row
        | row t ↦ fire_step (turn.fire n cur t.trigger rec)
      ]

  -- `runLoopedChild`, from iteration `n`; none where the fuel runs out.
  unfoldable pub looped_child :
      ℕ → ℕ → Turn E R → List (Transition E R) → ℤ → String → R → Option (Moved E R)
  unfolding fire_from_child at_max
  looped_child zero n turn table max cur rec = none
  looped_child (suc f) n turn table max cur rec = elim (turn.loop_canceled n) [
    | some x ↦ some (record { status = cur; rec = rec; error = some (tagged firing (canceled x)) })
    | none ↦ elim (turn.run_child n rec).1 [
      | some e ↦ some (record { status = cur; rec = rec; error = some (untagged e) })
      | none ↦
          let r = fire_from_child n turn table cur rec (turn.run_child n rec).0 in
          elim r.error [
            | some e ↦ some r
            | none ↦ elim (at_max max (n + 1)) [
              | true ↦ some r
              | false ↦ elim turn.loop_guard [
                | none ↦ looped_child f (n + 1) turn table max r.status r.rec
                | some g ↦ elim (g n r.rec).0 [
                  | some x ↦ some (record {
                    status = r.status;
                    rec = r.rec;
                    error = some (tagged firing (guard_error x));
                  })
                  | none ↦ elim (g n r.rec).1 [
                    | false ↦ some r
                    | true ↦ looped_child f (n + 1) turn table max r.status r.rec
                  ]
                ]
              ]
            ]
          ]
    ]
  ]

  -- `resolvePayload`.
  unfoldable pub resolve_payload : Turn E R → Step → R → Step
  resolve_payload turn s rec =
      if s.has_payload_from then record s { payload = turn.payload_from rec } else s

  -- `confirmStep`, after a move that succeeded.
  unfoldable pub confirmed : Turn E R → Step → Moved E R → Moved E R
  unfolding resolve_payload
  confirmed turn s r = elim r.error [
    | some e ↦ r
    | none ↦ elim (turn.confirm (resolve_payload turn s r.rec)) [
      | none ↦ r
      | some x ↦ record {
        status = r.status;
        rec = r.rec;
        error = some (tagged confirming (confirm_rejected x));
      }
    ]
  ]

  -- `runChild` and the parent's move.
  unfoldable pub run_sub :
      ℕ → Turn E R → List (Transition E R) → Option ℤ → String → R → Option (Moved E R)
  unfolding looped_child fire_from_child
  run_sub fuel turn table (some max) cur rec = looped_child fuel 0 turn table max cur rec
  run_sub fuel turn table none cur rec = elim (turn.run_child 0 rec).1 [
    | some e ↦ some (record { status = cur; rec = rec; error = some (untagged e) })
    | none ↦ some (fire_from_child 0 turn table cur rec (turn.run_child 0 rec).0)
  ]

  unfoldable pub run_plain :
      ℕ → Turn E R → List (Transition E R) → Step → String → R → Option (Moved E R)
  unfolding pick_transition fire_with_retry unpicked allowed_transitions
  run_plain fuel turn table s cur rec =
      elim (pick_transition (allowed_transitions table cur) s.to) [
        | missing ↦ some (unpicked cur rec no_row)
        | ambiguous ↦ some (unpicked cur rec ambiguous_row)
        | row t ↦ fire_with_retry fuel turn s.retry cur rec t
      ]

  -- `runSingleton`.
  unfoldable pub run_singleton :
      ℕ → Turn E R → List (Transition E R) → Step → String → R → Option (Moved E R)
  unfolding run_sub run_plain confirmed
  run_singleton fuel turn table s cur rec = Option.map (confirmed turn s) (elim s.sub [
    | child c ↦ run_sub fuel turn table s.loop_max cur rec
    | no_sub ↦ run_plain fuel turn table s cur rec
  ])

  -- The failures of a wave's members, from member `n` on.
  unfoldable pub wave_failures : ℕ → Turn E R → List Step → String → String → R → List (Failure E)
  wave_failures n turn [] cur trigger rec = []
  wave_failures n turn (s ∷ ss) cur trigger rec =
      let rest = wave_failures (n + 1) turn ss cur trigger rec in
      elim (turn.wave n cur trigger rec).error [ none ↦ rest | some e ↦ e ∷ rest ]

  -- `runWave` of the group `s ∷ ss`; the first member's result is the wave's.
  unfoldable pub run_wave :
      Turn E R → List (Transition E R) → Step → List Step → String → R → Moved E R
  unfolding pick_transition unpicked wave_failures allowed_transitions
  run_wave turn table s ss cur rec = elim (pick_transition (allowed_transitions table cur) s.to) [
    | missing ↦ unpicked cur rec no_row
    | ambiguous ↦ unpicked cur rec ambiguous_row
    | row t ↦ elim (wave_failures 0 turn (s ∷ ss) cur t.trigger rec) [
      | e ∷ es ↦ record { status = cur; rec = rec; error = some (untagged (joined (e ∷ es))) }
      | [] ↦
          let f = turn.wave 0 cur t.trigger rec in
          record { status = f.status; rec = f.rec; error = none }
    ]
  ]
