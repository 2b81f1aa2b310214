-- ===== src/Tests/Flow.antt =====
-- The package flow on a graph of three steps: a branch step with a dependent and a fallback.
use mivia_ai_sdk.Base.{
  ℕ, ◌-◌, ◌*◌, ◌^◌, ◌≤◌, ◌≡◌, ◌↔◌, refl, String, List, [], ◌∷◌, true, not, ◌&&◌, none, some, arith,
  All, Assoc, lookup, contains, if◌then◌else◌,
}
use mivia_ai_sdk.Base.Int.{pos, ◌≤ℤ◌, ◌<ℤ◌}
use mivia_ai_sdk.Flow.Step.{
  Step, zero_step, RetryPolicy, Outcome, succeeded, failed, skipped, on_failed, on_succeeded,
  direct_dependents, is_dependent, step_by_id,
}
use mivia_ai_sdk.Flow.Retry.{
  retry_fault, retry_fault_iff, next_delay, clamp, next_delay-clamp, double, double-le,
}
use mivia_ai_sdk.Flow.Admission.{admission_verdict, wait, admit, apply_route, all_dependents}
use mivia_ai_sdk.Flow.Verdicts.{
  Unresolved, SomeFailed, AllAdmit, admission_verdict-wait, admission_verdict-on_failed,
  admission_verdict-all_of,
}
use mivia_ai_sdk.Flow.Routes.{apply_route-lookup}
use mivia_ai_sdk.Flow.Graph.{validate_steps, check_rules, validate_depth, depth}
use mivia_ai_sdk.Flow.Rules.{IsGraph, validate_steps_iff}
use mivia_ai_sdk.Flow.Rules.Members.{IsMember, check_rules-IsMember}
use mivia_ai_sdk.Flow.Rules.Nesting.{Chain, validate_depth_iff}

abbrev choosing : Step
choosing = record zero_step { id = "choose"; routed = true }

abbrev building : Step
building = record zero_step { id = "build"; needs = "choose" ∷ [] }

abbrev repairing : Step
repairing = record zero_step { id = "repair"; needs = "build" ∷ []; when = on_failed }

abbrev lonely : Step
lonely = record zero_step { id = "lonely" }

abbrev graph : List Step
graph = choosing ∷ building ∷ repairing ∷ lonely ∷ []

abbrev panels : List (List String)
panels = ("lonely" ∷ []) ∷ []

abbrev outcomes : Assoc Outcome
outcomes = ("choose", succeeded) ∷ ("build", failed) ∷ []

graph-accepted : check_rules graph panels ≡ none
unfolding check_rules contains direct_dependents step_by_id depth
graph-accepted = refl

validate_steps_iff_example : (validate_steps graph ≡ none) ↔ IsGraph graph
validate_steps_iff_example = validate_steps_iff graph

check_rules-IsMember_example : All (λ p. All (IsMember graph) p) panels
check_rules-IsMember_example = check_rules-IsMember graph panels graph-accepted

validate_depth_iff_example :
    (validate_depth graph ≡ none) ↔ All (λ s. (k : ℕ) → Chain s.sub k → k ≤ 8) graph
validate_depth_iff_example = validate_depth_iff graph

admission_verdict-wait_example :
    (admission_verdict building outcomes ≡ wait) ↔ Unresolved building.needs outcomes
admission_verdict-wait_example = admission_verdict-wait building outcomes

admission_verdict-on_failed_example :
    (admission_verdict repairing outcomes ≡ admit)
    ↔ ((Unresolved repairing.needs outcomes → ⊥) × SomeFailed repairing.needs outcomes)
admission_verdict-on_failed_example = admission_verdict-on_failed repairing outcomes refl

admission_verdict-all_of_example :
    (admission_verdict building outcomes ≡ admit) ↔ AllAdmit on_succeeded building.needs outcomes
admission_verdict-all_of_example =
    admission_verdict-all_of building outcomes (λ e. ground (arith, e))

apply_route-lookup_example : lookup "build" (apply_route choosing (some []) graph []).0 ≡ (
    if is_dependent "build" (direct_dependents "choose" graph) && not (contains [] "build")
    then some skipped
    else lookup "build" [])
apply_route-lookup_example =
    apply_route-lookup choosing [] graph [] "build" (unfold all_dependents in refl)

abbrev policy : RetryPolicy
policy = record { max_attempts = pos 3; base_delay = pos 10; max_delay = pos 25 }

retry_fault_iff_example :
    (retry_fault policy ≡ none)
    ↔ ((pos 1 ≤ℤ policy.max_attempts) × (pos 0 <ℤ policy.max_delay) × (pos 0 ≤ℤ policy.base_delay))
retry_fault_iff_example = retry_fault_iff policy

next_delay-clamp_example : next_delay (pos 10) (pos 25) 3 ≡ pos (clamp 25 (10 * 2 ^ (3 - 1)))
next_delay-clamp_example = next_delay-clamp 10 25 3 (omega arith)

double-le_example : (pos 0 ≤ℤ double 2 (pos 25) (pos 10)) × (double 2 (pos 25) (pos 10) ≤ℤ pos 25)
double-le_example = double-le 2 25 10 (omega arith) (omega arith)
