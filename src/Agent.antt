-- ===== src/Agent.antt =====
-- agentloop/run.go, stop.go, tokens.go, shape.go and conclude.go: the loop of an agent's run.
-- What a round of the loop asks of its planning, of the model, of the tools and of the host's hooks is
-- a Round. A zero Message in a Result is none here, as is an empty StopReason. `iterations` counts the
-- completed replies: not a call that a steer cut off, and not a second one for a prompt too long.
pub mod Iterations
pub mod Ends
use mivia_ai_sdk.Base.{
  ℕ, zero, suc, ◌+◌, String, List, [], ◌∷◌, ◌++◌, Bool, true, false, ◌&&◌, ◌||◌, not, Option, none,
  some, str_eq, if◌then◌else◌, ltb, leb, ◌==◌, length,
}
use mivia_ai_sdk.Base.Int.{ℤ, pos, add_int, ltb_int}
use mivia_ai_sdk.Plan.{Message, role_user, role_assistant, is_empty}

pub data StopReason : Type 0 where
  no_tool_calls empty_response max_iterations hook_veto concluded steered : StopReason
  repeated_tool_failures : StopReason

pub record Usage : Type 0 where
  pub prompt_tokens : ℤ
  pub completion_tokens : ℤ
  pub total_tokens : ℤ
  pub cached_tokens : ℤ

abbrev pub no_usage : Usage
no_usage = record {
  prompt_tokens = pos 0;
  completion_tokens = pos 0;
  total_tokens = pos 0;
  cached_tokens = pos 0;
}

-- `billedTokens`.
unfoldable pub billed_tokens : Usage → ℤ
unfolding add_int
billed_tokens u =
    let sum = add_int u.prompt_tokens u.completion_tokens in
    if ltb_int sum u.total_tokens then u.total_tokens else sum

-- `sumUsage`.
unfoldable pub sum_usage : Usage → Usage → Usage
unfolding add_int
sum_usage a b = record {
  prompt_tokens = add_int a.prompt_tokens b.prompt_tokens;
  completion_tokens = add_int a.completion_tokens b.completion_tokens;
  total_tokens = add_int a.total_tokens b.total_tokens;
  cached_tokens = add_int a.cached_tokens b.cached_tokens;
}

-- The settings that the loop reads, after New. A zero bound but `max_rounds`, which is
-- MaxIterations, is no bound.
pub record Loop (C : Type 0) : Type 0 where
  pub max_rounds : ℕ
  pub max_calls_per_turn : ℕ
  pub max_total_tokens : ℕ
  pub max_failures : ℕ
  pub margin : ℕ
  pub notice : Message C
  pub is_blank : String → Bool
  pub has_blocks : C → Bool

pub record Response (C : Type 0) : Type 0 where
  pub message : Message C
  pub calls : List String
  pub usage : Usage

-- The errors of a run; `E` is the type of those that the parts of a round return.
pub data RunError (E : Type 0) : Type 0 where
  token_budget_exceeded calls_per_turn_exceeded : RunError E
  of_round : E → RunError E

-- What `runChat` brings: a reply with the history that it answers, a steer's stop, or an error, which
-- may come from the recovery of a prompt that was too long.
pub data Attempt (C E : Type 0) : Type 0 where
  replied : Response C → List (Message C) → Attempt C E
  cut_off : Attempt C E
  chat_failed : E → Bool → Attempt C E

-- What `runToolCalls` returns.
pub record ToolRun (C E : Type 0) : Type 0 where
  pub history : List (Message C)
  pub is_vetoed : Bool
  pub all_failed : Bool
  pub error : Option E

-- An answer that may be an error.
pub data Answer (E A : Type 0) : Type 0 where
  fault : E → Answer E A
  answer : A → Answer E A

pub record Round (C E : Type 0) : Type 0 where
  pub is_canceled : Option E
  pub injected : List (Message C)
  pub surface_error : Option E
  pub trim : List (Message C) → Answer E (List (Message C))
  pub plan : List (Message C) → Answer E (List (Message C))
  pub over_budget : List (Message C) → Option E
  pub is_late : Bool
  pub chat : List (Message C) → Attempt C E
  pub audit : Response C → Option E
  pub reserve_tools : ℕ → Option E
  pub run_tools : List (Message C) → List String → ToolRun C E
  pub continue_on_stop : StopReason → List (Message C) → Answer E (List (Message C))
  pub captured : Option (Message C)

pub record RunState (C : Type 0) : Type 0 where
  pub history : List (Message C)
  pub iterations : ℕ
  pub usage : Usage
  pub running_tokens : ℤ
  pub failures : ℕ
  pub notice_sent : Bool

pub record Result (C : Type 0) : Type 0 where
  pub final : Option (Message C)
  pub history : List (Message C)
  pub iterations : ℕ
  pub usage : Usage
  pub stop : Option StopReason

-- How an iteration ends: it ends the run, or the loop goes on.
pub data Step (C E : Type 0) : Type 0 where
  ends : Result C → Option (RunError E) → Step C E
  goes_on : RunState C → Step C E

module _ {C : Type 0} where
  -- `isEmptyAssistantTurn`.
  unfoldable pub is_empty_turn : Loop C → Message C → Bool
  is_empty_turn l m =
      str_eq m.role role_assistant
      && l.is_blank m.content
      && is_empty m.tool_calls
      && not (l.has_blocks m.rest)

  -- `dropEmptyAssistantTurns`.
  unfoldable pub drop_empty_turns : Loop C → List (Message C) → List (Message C)
  unfolding is_empty_turn
  drop_empty_turns l [] = []
  drop_empty_turns l (m ∷ ms) =
      let rest = drop_empty_turns l ms in if is_empty_turn l m then rest else m ∷ rest

  -- `noticePresent`.
  unfoldable pub notice_present : Loop C → List (Message C) → Bool
  notice_present l [] = false
  notice_present l (m ∷ ms) =
      (str_eq m.role role_user && str_eq m.content l.notice.content) || notice_present l ms

  -- `shouldConclude`; `late` is the test of the deadline.
  unfoldable pub should_conclude : Loop C → ℕ → Bool → Bool
  should_conclude l iterations late =
      (not (l.margin == 0) && ltb l.max_rounds (suc iterations + l.margin)) || late

  -- `hardFail`.
  unfoldable pub hard_fail : List (Message C) → ℕ → Usage → Result C
  hard_fail history iterations usage =
      if iterations == 0
      then record { final = none; history = []; iterations = 0; usage = no_usage; stop = none }
      else record {
        final = none;
        history = history;
        iterations = iterations;
        usage = usage;
        stop = none;
      }

  unfoldable pub stopped_at : RunState C → Option (Message C) → StopReason → Result C
  stopped_at st final stop = record {
    final = final;
    history = st.history;
    iterations = st.iterations;
    usage = st.usage;
    stop = some stop;
  }

  -- What `afterChat` records before it calls the audit.
  unfoldable pub record_reply : RunState C → Response C → List (Message C) → RunState C
  unfolding sum_usage
  record_reply st resp history = record st {
    history = history ++ resp.message ∷ [];
    iterations = suc st.iterations;
    usage = sum_usage st.usage resp.usage;
  }

  unfoldable pub bill : RunState C → Response C → RunState C
  unfolding billed_tokens add_int
  bill st resp = record st { running_tokens = add_int st.running_tokens (billed_tokens resp.usage) }

module _ {C E : Type 0} where
  abbrev fails : RunState C → RunError E → Step C E
  fails st e = ends (hard_fail st.history st.iterations st.usage) (some e)

  -- `gracefulStop` and `gracefulSteeredStop`: the hook's messages, where it has some, keep the run
  -- going.
  unfoldable pub graceful_stop : Round C E → RunState C → Option (Message C) → StopReason → Step C E
  unfolding stopped_at hard_fail
  graceful_stop round st final stop = elim (round.continue_on_stop stop st.history) [
    | fault e ↦ fails st (of_round e)
    | answer ms ↦ elim ms [
      | [] ↦ ends (stopped_at st final stop) none
      | m ∷ more ↦ goes_on (record st { history = st.history ++ (m ∷ more) })
    ]
  ]

  -- The part of `runToolStage` after the calls ran.
  unfoldable pub after_tools : Loop C → RunState C → ToolRun C E → Step C E
  unfolding stopped_at hard_fail
  after_tools l st t = elim t.error [
    | some e ↦ fails (record st { history = t.history }) (of_round e)
    | none ↦ elim t.is_vetoed [
      | true ↦ ends (stopped_at (record st { history = t.history }) none hook_veto) none
      | false ↦ elim t.all_failed [
        | false ↦ goes_on (record st { history = t.history; failures = 0 })
        | true ↦ elim (not (l.max_failures == 0) && leb l.max_failures (suc st.failures)) [
          | true ↦
              ends (stopped_at (record st { history = t.history }) none repeated_tool_failures) none
          | false ↦ goes_on (record st { history = t.history; failures = suc st.failures })
        ]
      ]
    ]
  ]

  -- `runToolStage`.
  unfoldable pub run_tool_stage : Loop C → Round C E → RunState C → Response C → Bool → Step C E
  unfolding graceful_stop after_tools hard_fail
  run_tool_stage l round st resp noticed = elim resp.calls [
    | [] ↦
        graceful_stop round (record st { failures = 0 }) (some resp.message)
          (if l.is_blank resp.message.content
            then empty_response
            else if noticed
            then concluded
            else no_tool_calls)
    | c ∷ cs ↦
        elim (not (l.max_calls_per_turn == 0) && ltb l.max_calls_per_turn (length (c ∷ cs))) [
          | true ↦ fails st calls_per_turn_exceeded
          | false ↦ elim (round.reserve_tools (length (c ∷ cs))) [
            | some e ↦ fails st (of_round e)
            | none ↦ after_tools l st (round.run_tools st.history (c ∷ cs))
          ]
        ]
  ]

  -- `afterChat`, on the state that `record_reply` gives.
  unfoldable pub after_chat : Loop C → Round C E → RunState C → Response C → Bool → Step C E
  unfolding bill run_tool_stage hard_fail
  after_chat l round st resp noticed = elim (round.audit resp) [
    | some e ↦ fails st (of_round e)
    | none ↦
        elim (not (l.max_total_tokens == 0)
          && ltb_int (pos l.max_total_tokens) (bill st resp).running_tokens) [
            | true ↦ fails st token_budget_exceeded
            | false ↦ run_tool_stage l round (bill st resp) resp noticed
          ]
  ]

  -- The nudge of an iteration.
  unfoldable pub nudge : Loop C → Round C E → RunState C → RunState C
  unfolding should_conclude
  nudge l round st =
      if not st.notice_sent && should_conclude l st.iterations round.is_late
      then record st { history = st.history ++ l.notice ∷ []; notice_sent = true }
      else st

  -- The part of `runIteration` that calls the model.
  unfoldable pub converse : Loop C → Round C E → RunState C → Step C E
  unfolding record_reply after_chat graceful_stop hard_fail notice_present
  converse l round st = elim (round.chat st.history) [
    | replied resp history ↦
        after_chat l round (record_reply st resp history) resp
          (st.notice_sent && notice_present l st.history)
    | cut_off ↦ graceful_stop round st round.captured steered
    | chat_failed e recovered ↦ elim recovered [
      | true ↦
          ends
            (record {
              final = none;
              history = st.history;
              iterations = st.iterations;
              usage = st.usage;
              stop = none;
            })
            (some (of_round e))
      | false ↦ fails st (of_round e)
    ]
  ]

  -- `runIteration`.
  unfoldable pub run_iteration : Loop C → Round C E → RunState C → Step C E
  unfolding drop_empty_turns nudge converse hard_fail
  run_iteration l round st = elim (round.trim (drop_empty_turns l st.history)) [
    | fault e ↦ fails (record st { history = drop_empty_turns l st.history }) (of_round e)
    | answer trimmed ↦ elim (round.plan trimmed) [
      | fault e ↦ fails (record st { history = trimmed }) (of_round e)
      | answer planned ↦ elim (round.over_budget planned) [
        | some e ↦ fails (record st { history = planned }) (of_round e)
        | none ↦ converse l round (nudge l round (record st { history = planned }))
      ]
    ]
  ]

  -- The body of `run`'s loop.
  unfoldable pub run_round : Loop C → Round C E → RunState C → Step C E
  unfolding run_iteration stopped_at hard_fail
  run_round l round st = elim round.is_canceled [
    | some e ↦ fails st (of_round e)
    | none ↦
        let st' = record st { history = st.history ++ round.injected } in
        elim (leb l.max_rounds st.iterations) [
          | true ↦ ends (stopped_at st' none max_iterations) none
          | false ↦ elim (leb 1 st.iterations) [
            | false ↦ run_iteration l round st'
            | true ↦ elim round.surface_error [
              | some e ↦ fails st' (of_round e)
              | none ↦ run_iteration l round st'
            ]
          ]
        ]
  ]

  unfoldable pub follow :
      Step C E
      → (RunState C → Option (Result C × Option (RunError E)))
      → Option (Result C × Option (RunError E))
  follow (ends r e) k = some (r, e)
  follow (goes_on st) k = k st

  -- The loop of `run`, with a round for each number of rounds left; none where the fuel runs out.
  unfoldable pub run_loop :
      ℕ → Loop C → (ℕ → Round C E) → RunState C → Option (Result C × Option (RunError E))
  unfolding run_round follow
  run_loop zero l rounds st = none
  run_loop (suc f) l rounds st = follow (run_round l (rounds f) st) (λ st'. run_loop f l rounds st')

  -- `run`.
  unfoldable pub run :
      ℕ → Loop C → (ℕ → Round C E) → List (Message C) → Option (Result C × Option (RunError E))
  unfolding run_loop drop_empty_turns
  run fuel l rounds msgs = run_loop fuel l rounds (record {
    history = drop_empty_turns l msgs;
    iterations = 0;
    usage = no_usage;
    running_tokens = pos 0;
    failures = 0;
    notice_sent = false;
  })
