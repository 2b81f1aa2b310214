-- ===== src/Tests/Agent.antt =====
-- The package agentloop: a run of at most one call of the model, which asks for a tool.
use mivia_ai_sdk.Base.{
  ℕ, ◌≡◌, ◌≢◌, refl, String, List, [], ◌∷◌, ◌++◌, false, Option, none, some, arith,
}
use mivia_ai_sdk.Plan.{Message, role_user, role_assistant, role_tool}
use mivia_ai_sdk.Agent.{
  Loop, Response, replied, cut_off, Round, answer, no_usage, Result, RunError, max_iterations, run,
}
use mivia_ai_sdk.Agent.Iterations.{IsResult}
use mivia_ai_sdk.Agent.Ends.{Ended, run-IsResult, run-Ended}

abbrev message : String → String → String → List String → Message String
message role content tool_call_id tool_calls = record {
  role = role;
  content = content;
  name = "";
  tool_call_id = tool_call_id;
  tool_calls = tool_calls;
  rest = "";
}

abbrev loop : Loop String
loop = record {
  max_rounds = 1;
  max_calls_per_turn = 0;
  max_total_tokens = 0;
  max_failures = 0;
  margin = 0;
  notice = message role_user "conclude" "" [];
  is_blank = λ s. false;
  has_blocks = λ c. false;
}

abbrev asking : Message String
asking = message role_user "what is the time" "" []

abbrev calling : Message String
calling = message role_assistant "" "" ("clock" ∷ [])

abbrev answering : Message String
answering = message role_tool "noon" "clock" []

abbrev reply : Response String
reply = record { message = calling; calls = "clock" ∷ []; usage = no_usage }

abbrev round : Round String String
round = record {
  is_canceled = none;
  injected = [];
  surface_error = none;
  trim = λ ms. answer ms;
  plan = λ ms. answer ms;
  over_budget = λ ms. none;
  is_late = false;
  chat = λ ms. replied reply ms;
  audit = λ r. none;
  reserve_tools = λ n. none;
  run_tools = λ ms cs. record {
    history = ms ++ answering ∷ [];
    is_vetoed = false;
    all_failed = false;
    error = none;
  };
  continue_on_stop = λ s ms. answer [];
  captured = none;
}

abbrev last : Result String × Option (RunError String)
last = (
  record {
    final = none;
    history = asking ∷ calling ∷ answering ∷ [];
    iterations = 1;
    usage = no_usage;
    stop = some max_iterations;
  },
  none,
)

called-once : run 2 loop (λ i. round) (asking ∷ []) ≡ some last
unfolding run
called-once = refl

not_cut_off : (i : ℕ) (ms : List (Message String)) → round.chat ms ≢ cut_off
not_cut_off i ms = λ e. cc

run-IsResult_example : IsResult 1 last.0 last.1
run-IsResult_example = run-IsResult 2 loop (λ i. round) (asking ∷ []) last called-once

run-Ended_example : Ended (run 2 loop (λ i. round) (asking ∷ []))
run-Ended_example = run-Ended 2 loop (λ i. round) (asking ∷ []) not_cut_off (omega arith)
