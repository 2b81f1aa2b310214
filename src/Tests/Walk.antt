-- ===== src/Tests/Walk.antt =====
-- A walk of the package flow over two steps and a table of two rows.
use mivia_ai_sdk.Base.{
  ℕ, suc, ◌≡◌, ◌≢◌, ◌↔◌, refl, String, List, [], ◌∷◌, true, false, Option, none, some, Assoc,
  lookup, insert, inl, inr, All, str_eq, if◌then◌else◌, In, eq_iff, arith, contains,
}
use mivia_ai_sdk.Machine.{Transition, no_transition}
use mivia_ai_sdk.Flow.Step.{
  Step, zero_step, Outcome, succeeded, failed, on_failed, step_by_id, is_dependent,
  direct_dependents,
}
use mivia_ai_sdk.Flow.Graph.{ids_of, check_rules, depth}
use mivia_ai_sdk.Flow.Rules.{IsGraph, AreKnown}
use mivia_ai_sdk.Flow.Rules.Members.{check_rules-IsGraph}
use mivia_ai_sdk.Flow.Checkpoint.{validate, checkpoint_of, has_step, seed}
use mivia_ai_sdk.Flow.Checkpoint.Restore.{validate-checkpoint_of, seed-checkpoint_of}
use mivia_ai_sdk.Flow.Cycles.{find_roots, new}
use mivia_ai_sdk.Flow.Cycles.Search.{IsAcyclic}
use mivia_ai_sdk.Flow.Cycles.Order.{find_roots_iff}
use mivia_ai_sdk.Flow.Cycles.Fellows.{Tells, AreApart, new-Tells}
use mivia_ai_sdk.Flow.Execution.{Turn, RunError, run_singleton}
use mivia_ai_sdk.Flow.Failures.{prune_pending_handler}
use mivia_ai_sdk.Flow.Runner.{Walk, run_loop, take_route, start, next_ready_group, nothing_ready}
use mivia_ai_sdk.Flow.Execution.Fuel.{IsBounded}
use mivia_ai_sdk.Flow.Runner.Ends.{IsTracked, Ends, run_loop-Ends}
use mivia_ai_sdk.Flow.Runner.Rejected.{IsRejected, take_route-IsRejected}
use mivia_ai_sdk.Flow.Runner.Final.{Extends, IsOrdered}
use mivia_ai_sdk.Flow.Runner.Outcomes.{run_loop-Extends}
use mivia_ai_sdk.Flow.Runner.Live.{next_ready_group_iff}

abbrev drafting : Step
drafting = record zero_step { id = "draft"; to = "drafted" }

abbrev reviewing : Step
reviewing = record zero_step { id = "review"; needs = "draft" ∷ []; to = "reviewed" }

abbrev steps : List Step
steps = drafting ∷ reviewing ∷ []

abbrev pairs : List (List String)
pairs = ("draft" ∷ "review" ∷ []) ∷ []

abbrev row_of : String → String → Transition String ℕ
row_of from to = record {
  from = from;
  to = to;
  trigger = to;
  check = none;
  on_exit = none;
  on_entry = none;
}

abbrev table : List (Transition String ℕ)
table = row_of "empty" "drafted" ∷ row_of "drafted" "reviewed" ∷ []

-- Every call succeeds, and a move leads to the status that its trigger names.
abbrev turn : Turn String ℕ
turn = record {
  is_paused = none;
  fire = λ n cur trigger rec. record { status = trigger; rec = suc rec; error = none };
  is_retryable = λ e. false;
  after_sleep = λ n. none;
  run_child = λ n rec. ("", none);
  loop_canceled = λ n. none;
  loop_guard = none;
  payload_from = λ rec. "";
  confirm = λ s. none;
  route = λ cur rec. (none, []);
  wave = λ n cur trigger rec. record { status = trigger; rec = rec; error = none };
}

abbrev outcomes : Assoc Outcome
outcomes = ("draft", succeeded) ∷ ("review", succeeded) ∷ []

abbrev finish : Walk String ℕ × Option (RunError String)
finish = (
  record {
    status = "reviewed";
    rec = 2;
    outcomes = outcomes;
    pending = [];
    delivered =
        checkpoint_of "reviewed" 2 outcomes
        ∷ checkpoint_of "drafted" 1 (("draft", succeeded) ∷ [])
        ∷ [];
  },
  none,
)

steps-accepted : check_rules steps [] ≡ none
unfolding check_rules contains depth
steps-accepted = refl

steps-rooted : find_roots steps ≡ some ("draft" ∷ [])
unfolding find_roots step_by_id
steps-rooted = refl

steps-IsGraph : IsGraph steps
steps-IsGraph = (check_rules-IsGraph steps [] steps-accepted).0

steps-known : AreKnown steps []
steps-known = (check_rules-IsGraph steps [] steps-accepted).1

steps-walked : run_loop 2 1 (λ n. turn) table steps [] (start "empty" 0 []) ≡ some finish
unfolding run_loop start lookup run_singleton insert prune_pending_handler
steps-walked = refl

start-IsOrdered : IsOrdered steps []
unfolding lookup
start-IsOrdered id r = elim r [ ]

steps-IsBounded : All (IsBounded 1) steps
steps-IsBounded =
    let free : IsBounded 1 zero_step = record {
      attempts = λ p h. absurd (ground (arith, h));
      iterations = λ m h. absurd (ground (arith, h));
    } in
    (
      record { attempts = free.attempts; iterations = free.iterations },
      (record { attempts = free.attempts; iterations = free.iterations }, tt),
    )

start-IsTracked : IsTracked steps (start {E = String} {R = ℕ} "empty" 0 []).outcomes
unfolding start
start-IsTracked = (tt, λ k i. elim i [ ])

run_loop-Ends_example : Ends steps (run_loop 2 1 (λ n. turn) table steps [] (start "empty" 0 []))
run_loop-Ends_example =
    run_loop-Ends 2 1 (λ n. turn) table steps [] (start "empty" 0 []) steps-known (omega arith)
      steps-IsBounded start-IsTracked (unfold start in omega arith)

run_loop-Extends_example : Extends [] outcomes × IsOrdered steps outcomes
unfolding start
run_loop-Extends_example =
    run_loop-Extends 2 1 (λ n. turn) table steps [] (start "empty" 0 []) finish
      steps-IsGraph.distinct steps-known start-IsOrdered steps-walked

outcomes-known : (k : String) → lookup k outcomes ≢ none → has_step steps k ≡ true
unfolding lookup has_step
outcomes-known k h = ground (arith, h)

validate-checkpoint_of_example : validate (checkpoint_of {R = ℕ} "reviewed" 2 outcomes) ≡ none
validate-checkpoint_of_example =
    validate-checkpoint_of "reviewed" 2 outcomes (λ e. ground (arith, (eq_iff "reviewed" "").1 e))
      steps-IsGraph.distinct

seed-checkpoint_of_example :
    (r : Assoc Outcome) × (seed steps (checkpoint_of {R = ℕ} "reviewed" 2 outcomes) ≡ some r)
    × ((k : String) → lookup k r ≡ lookup k outcomes)
seed-checkpoint_of_example =
    seed-checkpoint_of "reviewed" 2 outcomes steps steps-IsGraph.distinct outcomes-known

find_roots_iff_example : (find_roots steps ≢ none) ↔ IsAcyclic steps
find_roots_iff_example = find_roots_iff steps steps-IsGraph

new-Tells_example :
    Tells
      ((check_rules steps pairs ≡ none) × IsAcyclic steps × AreApart steps pairs)
      (λ roots. find_roots steps ≡ some roots)
      (new steps pairs)
new-Tells_example = new-Tells steps pairs

next_ready_group_iff_example :
    (next_ready_group steps steps [] outcomes ≡ nothing_ready)
    ↔ ((id : String) → In id (ids_of steps) → lookup id outcomes ≢ none)
next_ready_group_iff_example =
    next_ready_group_iff steps outcomes steps-IsGraph (λ q. ground (arith, steps-rooted, q))

-- The second step is the fallback of the first, whose move fails.
abbrev repairing : Step
repairing = record zero_step {
  id = "repair";
  needs = "draft" ∷ [];
  to = "repaired";
  when = on_failed;
}

abbrev rescue : List Step
rescue = drafting ∷ repairing ∷ []

abbrev rescue_table : List (Transition String ℕ)
rescue_table = row_of "empty" "drafted" ∷ row_of "empty" "repaired" ∷ []

abbrev failing_turn : Turn String ℕ
failing_turn = record turn {
  fire = λ n cur trigger rec.
      if str_eq trigger "drafted"
      then record { status = cur; rec = rec; error = some no_transition }
      else record { status = trigger; rec = suc rec; error = none };
}

abbrev rescued : Assoc Outcome
rescued = ("draft", failed) ∷ ("repair", succeeded) ∷ []

abbrev recovered : Walk String ℕ
recovered = record {
  status = "repaired";
  rec = 1;
  outcomes = rescued;
  pending = [];
  delivered = checkpoint_of "repaired" 1 rescued ∷ [];
}

-- The route of the first step keeps an unknown step.
take_route-IsRejected_example :
    IsRejected rescue
      (start {E = String} {R = ℕ} "empty" 0 [])
      drafting
      (take_route (start "empty" 0 []) drafting rescue (none, "lonely" ∷ []))
take_route-IsRejected_example =
    take_route-IsRejected (start "empty" 0 []) drafting rescue (none, "lonely" ∷ [])
      (inr ("lonely", inl refl, unfold is_dependent direct_dependents contains in refl))
