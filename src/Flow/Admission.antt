-- ===== src/Flow/Admission.antt =====
-- flow/routing.go and flow/failure.go: when a step is admitted, and what a branch step's route skips.
use mivia_ai_sdk.Base.{
  String, List, [], ◌∷◌, Bool, true, false, ◌&&◌, ◌||◌, not, Option, none, some, if◌then◌else◌,
  Assoc, lookup, insert, contains,
}
use mivia_ai_sdk.Flow.Step.{
  Step, Admission, on_succeeded, on_failed, Outcome, succeeded, failed, skipped, step_by_id,
  direct_dependents, is_dependent,
}

pub data Verdict : Type 0 where
  wait admit skip : Verdict

unfoldable pub is_failed : Outcome → Bool
is_failed failed = true
is_failed _ = false

-- `admitsOnFailed`; the flag is `anyFailed`.
unfoldable pub admits_on_failed : List String → Assoc Outcome → Bool → Verdict
unfolding is_failed
admits_on_failed [] outcomes any = if any then admit else skip
admits_on_failed (n ∷ ns) outcomes any = elim (lookup n outcomes) [
  | none ↦ wait
  | some o ↦ admits_on_failed ns outcomes (is_failed o || any)
]

unfoldable pub admits : Admission → Outcome → Bool
admits on_succeeded succeeded = true
admits on_succeeded _ = false
admits _ succeeded = true
admits _ skipped = true
admits _ failed = false

unfoldable pub all_resolved : List String → Assoc Outcome → Bool
all_resolved [] outcomes = true
all_resolved (n ∷ ns) outcomes = elim (lookup n outcomes) [
  | none ↦ false
  | some o ↦ all_resolved ns outcomes
]

-- A missing outcome reads as the zero value, `OutcomeSucceeded`; the loop above has excluded it.
unfoldable pub outcome_or_zero : Option Outcome → Outcome
outcome_or_zero none = succeeded
outcome_or_zero (some o) = o

unfoldable pub all_admit : Admission → List String → Assoc Outcome → Bool
unfolding admits outcome_or_zero
all_admit when [] outcomes = true
all_admit when (n ∷ ns) outcomes =
    admits when (outcome_or_zero (lookup n outcomes)) && all_admit when ns outcomes

unfoldable pub all_of : Admission → List String → Assoc Outcome → Verdict
unfolding all_resolved all_admit
all_of when needs outcomes =
    if not (all_resolved needs outcomes)
    then wait
    else if all_admit when needs outcomes
    then admit
    else skip

-- `admissionVerdict`.
unfoldable pub admission_verdict : Step → Assoc Outcome → Verdict
unfolding all_of admits_on_failed
admission_verdict s outcomes = elim s.when [
  | on_failed ↦ admits_on_failed s.needs outcomes false
  | when ↦ all_of when s.needs outcomes
]

-- `panelVerdict`; the flag is `allAdmit`.
unfoldable pub panel_verdict : List String → List Step → Assoc Outcome → Bool → Verdict
unfolding admission_verdict
panel_verdict [] steps outcomes all = if all then admit else skip
panel_verdict (id ∷ ids) steps outcomes all = elim (lookup id outcomes) [
  | some o ↦ wait
  | none ↦ elim (admission_verdict (step_by_id steps id) outcomes) [
    | wait ↦ wait
    | skip ↦ panel_verdict ids steps outcomes false
    | admit ↦ panel_verdict ids steps outcomes all
  ]
]

unfoldable pub skip_unkept : List Step → List String → Assoc Outcome → Assoc Outcome
unfolding contains
skip_unkept [] kept outcomes = outcomes
skip_unkept (d ∷ ds) kept outcomes =
    skip_unkept ds kept (if contains kept d.id then outcomes else insert d.id skipped outcomes)

unfoldable pub all_dependents : List String → List Step → Bool
unfolding is_dependent
all_dependents [] deps = true
all_dependents (k ∷ ks) deps = is_dependent k deps && all_dependents ks deps

-- `applyRoute`, given the IDs that the step's Route keeps, `none` where Route fails. The flag is
-- whether it returned an error.
unfoldable pub apply_route :
    Step → Option (List String) → List Step → Assoc Outcome → Assoc Outcome × Bool
unfolding skip_unkept all_dependents direct_dependents
apply_route s none steps outcomes = (outcomes, true)
apply_route s (some kept) steps outcomes =
    if all_dependents kept (direct_dependents s.id steps)
    then (skip_unkept (direct_dependents s.id steps) kept outcomes, false)
    else (outcomes, true)

-- `markOutcome`.
unfoldable pub mark_outcome : Assoc Outcome → List Step → Outcome → Assoc Outcome
mark_outcome outcomes [] o = outcomes
mark_outcome outcomes (s ∷ ss) o = mark_outcome (insert s.id o outcomes) ss o
