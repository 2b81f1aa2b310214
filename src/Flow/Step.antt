-- ===== src/Flow/Step.antt =====
-- flow/step.go, flow/outcome.go and the policies of a step. A step's functions are the caller's:
-- the checks ask only whether they are nil, so `routed` is `Route != nil` and `has_payload_from` is
-- `PayloadFrom != nil`. `sub` is the tree of nested child workflows.
use mivia_ai_sdk.Base.{
  String, List, [], ◌∷◌, Bool, false, ◌||◌, Option, none, str_eq, if◌then◌else◌, contains,
}
use mivia_ai_sdk.Base.Int.{ℤ}

pub data Admission : Type 0 where
  on_succeeded on_finished on_failed : Admission

pub data Outcome : Type 0 where
  succeeded failed skipped : Outcome

-- `Retryable`, `Jitter` and `Sleep` are functions of the caller; the checks do not read them.
pub record RetryPolicy : Type 0 where
  pub max_attempts : ℤ
  pub base_delay : ℤ
  pub max_delay : ℤ

-- A nil Sub, or the children's own Subs.
mutual
  pub data Sub : Type 0 where
    no_sub : Sub
    child : Subs → Sub

  pub data Subs : Type 0 where
    nil : Subs
    cons : Sub → Subs → Subs

pub record Step : Type 0 where
  pub id : String
  pub needs : List String
  pub to : String
  pub payload : String
  pub has_payload_from : Bool
  pub sub : Sub
  pub when : Admission
  pub routed : Bool
  pub retry : Option RetryPolicy
  pub loop_max : Option ℤ

abbrev pub zero_step : Step
zero_step = record {
  id = "";
  needs = [];
  to = "";
  payload = "";
  has_payload_from = false;
  sub = no_sub;
  when = on_succeeded;
  routed = false;
  retry = none;
  loop_max = none;
}

-- `stepByID`: the zero step for a name that is not there.
unfoldable pub step_by_id : List Step → String → Step
step_by_id [] id = zero_step
step_by_id (s ∷ ss) id = if str_eq s.id id then s else step_by_id ss id

-- `directDependents`: the steps whose needs name the step, in order.
unfoldable pub direct_dependents : String → List Step → List Step
unfolding contains
direct_dependents id [] = []
direct_dependents id (s ∷ ss) =
    let rest = direct_dependents id ss in if contains s.needs id then s ∷ rest else rest

-- `isDependent`.
unfoldable pub is_dependent : String → List Step → Bool
is_dependent id [] = false
is_dependent id (d ∷ ds) = str_eq d.id id || is_dependent id ds
