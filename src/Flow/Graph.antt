-- ===== src/Flow/Graph.antt =====
-- flow/validate.go, flow/definition.go and the checks of flow/routing.go, flow/failure.go,
-- flow/retry.go and flow/loop.go: what New refuses before it looks for a cycle.
use mivia_ai_sdk.Base.{
  ℕ, suc, String, List, [], ◌∷◌, ◌++◌, Bool, true, false, ◌&&◌, ◌||◌, not, Option, none, some,
  str_eq, if◌then◌else◌, ltb, length, contains,
}
use mivia_ai_sdk.Base.Int.{pos, ltb_int}
use mivia_ai_sdk.Flow.Step.{
  Step, Admission, on_failed, Sub, Subs, no_sub, child, nil, cons, step_by_id, direct_dependents,
}
use mivia_ai_sdk.Flow.Retry.{RetryFault, retry_fault}

pub data Fault : Type 0 where
  empty_id duplicate_id unknown_need : Fault
  unknown_member repeated_member mixed_targets shared_step : Fault
  sub_and_route route_without_dependent routed_member routed_parent_member : Fault
  failure_without_need failure_member : Fault
  retry_invalid : RetryFault → Fault
  retry_with_sub retry_member : Fault
  loop_negative loop_without_sub loop_member : Fault
  two_payloads payload_member chained_member too_deep : Fault
  cyclic related_members : Fault

-- A check that ends at the first error: the second runs where the first finds none.
unfoldable pub first : Option Fault → Option Fault → Option Fault
first none b = b
first (some e) b = some e

unfoldable pub reject : Bool → Fault → Option Fault
reject b e = if b then some e else none

-- A loop that returns the first error of its body.
unfoldable pub each : {A : Type 0} → (A → Option Fault) → List A → Option Fault
unfolding first
each f [] = none
each f (x ∷ xs) = first (f x) (each f xs)

abbrev pub ids_of : List Step → List String
ids_of [] = []
ids_of (s ∷ ss) = s.id ∷ ids_of ss

-- The first loop of `validateSteps`, after the IDs that `ids` holds already.
unfoldable pub check_ids : List String → List Step → Option Fault
check_ids ids [] = none
check_ids ids (s ∷ ss) =
    let rest = check_ids (s.id ∷ ids) ss in
    if str_eq s.id "" then some empty_id else if contains ids s.id then some duplicate_id else rest

unfoldable pub check_needs : List String → List Step → Option Fault
unfolding each reject
check_needs ids = each (λ s. each (λ n. reject (not (contains ids n)) unknown_need) s.needs)

unfoldable pub validate_steps : List Step → Option Fault
unfolding check_ids check_needs first
validate_steps steps = first (check_ids [] steps) (check_needs (ids_of steps) steps)

-- The `seen` loops: the first ID that comes twice.
unfoldable pub has_repeat : List String → List String → Bool
has_repeat seen [] = false
has_repeat seen (x ∷ xs) = contains seen x || has_repeat (x ∷ seen) xs

-- `validatePanelHomogeneity`; `steps[ids[id]]` is the step of that ID.
unfoldable pub homogeneity : List Step → List String → Option Fault
unfolding each reject
homogeneity steps [] = none
homogeneity steps (m ∷ ms) =
    each
      (λ id. reject (not (str_eq (step_by_id steps id).to (step_by_id steps m).to)) mixed_targets)
      ms

unfoldable pub validate_panel : List Step → List String → Option Fault
unfolding each reject first has_repeat homogeneity
validate_panel steps p =
    first (each (λ id. reject (not (contains (ids_of steps) id)) unknown_member) p)
      (first (reject (has_repeat [] p) repeated_member) (homogeneity steps p))

abbrev pub members : List (List String) → List String
members [] = []
members (p ∷ ps) = p ++ members ps

-- `validatePanels`, with `validatePanelOverlap`.
unfoldable pub validate_panels : List (List String) → List Step → Option Fault
unfolding each first validate_panel has_repeat reject
validate_panels panels steps =
    first (each (validate_panel steps) panels) (reject (has_repeat [] (members panels)) shared_step)

-- The loop over the members of all panels that `validateRouting` and the checks below run.
unfoldable pub each_member : (Step → Bool) → Fault → List (List String) → List Step → Option Fault
unfolding each reject
each_member test e panels steps = each (each (λ id. reject (test (step_by_id steps id)) e)) panels

abbrev pub has_sub : Sub → Bool
has_sub no_sub = false
has_sub (child c) = true

unfoldable pub none_depends : String → List Step → Bool
none_depends id steps = elim (direct_dependents id steps) [ [] ↦ true | d ∷ ds ↦ false ]

-- `routedParentOf`: whether a need of the step is a branch step.
unfoldable pub any_routed : List Step → List String → Bool
any_routed steps [] = false
any_routed steps (n ∷ ns) = (step_by_id steps n).routed || any_routed steps ns

unfoldable pub validate_routing : List Step → List (List String) → Option Fault
unfolding each reject first each_member none_depends any_routed
validate_routing steps panels =
    first (each (λ s. reject (has_sub s.sub && s.routed) sub_and_route) steps) (
      first (each (λ s. reject (s.routed && none_depends s.id steps) route_without_dependent) steps)
        (first (each_member (λ s. s.routed) routed_member panels steps)
          (each_member (λ s. any_routed steps s.needs) routed_parent_member panels steps)))

abbrev pub is_on_failed : Admission → Bool
is_on_failed on_failed = true
is_on_failed _ = false

abbrev pub is_empty_list : List String → Bool
is_empty_list [] = true
is_empty_list (x ∷ xs) = false

unfoldable pub validate_failure_admission : List Step → List (List String) → Option Fault
unfolding each reject first each_member
validate_failure_admission steps panels =
    first
      (each (λ s. reject (is_on_failed s.when && is_empty_list s.needs) failure_without_need) steps)
      (each_member (λ s. is_on_failed s.when) failure_member panels steps)

abbrev pub is_some : {A : Type 0} → Option A → Bool
is_some none = false
is_some (some x) = true

unfoldable pub check_retry : Step → Option Fault
check_retry s = elim s.retry [
  | none ↦ none
  | some p ↦ elim (retry_fault p) [
    | some e ↦ some (retry_invalid e)
    | none ↦ reject (has_sub s.sub) retry_with_sub
  ]
]

unfoldable pub validate_retry : List Step → List (List String) → Option Fault
unfolding each check_retry first each_member
validate_retry steps panels =
    first (each check_retry steps) (each_member (λ s. is_some s.retry) retry_member panels steps)

-- With `loopValidateMessage`.
unfoldable pub check_loop : Step → Option Fault
check_loop s = elim s.loop_max [
  | none ↦ none
  | some n ↦
      if ltb_int n (pos 0)
      then some loop_negative
      else reject (not (has_sub s.sub)) loop_without_sub
]

unfoldable pub validate_loop : List Step → List (List String) → Option Fault
unfolding each check_loop first each_member
validate_loop steps panels =
    first (each check_loop steps) (each_member (λ s. is_some s.loop_max) loop_member panels steps)

-- The members of the panels with two or more.
abbrev pub wide : List (List String) → List (List String)
wide [] = []
wide (p ∷ ps) = let rest = wide ps in if ltb (length p) 2 then rest else p ∷ rest

unfoldable pub validate_payload : List Step → List (List String) → Option Fault
unfolding each reject first each_member
validate_payload steps panels =
    first (each (λ s. reject (s.has_payload_from && not (str_eq s.payload "")) two_payloads) steps)
      (each_member (λ s. s.has_payload_from) payload_member (wide panels) steps)

unfoldable pub validate_panel_chains : List (List String) → List Step → Option Fault
unfolding each_member
validate_panel_chains panels steps =
    each_member (λ s. has_sub s.sub) chained_member (wide panels) steps

-- `depth`, and the maximum that it takes over the children.
unfoldable mutual
  pub depth : Sub → ℕ
  depth no_sub = 0
  depth (child c) = suc (deepest c)

  pub deepest : Subs → ℕ
  deepest nil = 0
  deepest (cons s ss) = let d = depth s in let rest = deepest ss in if ltb rest d then d else rest

unfoldable pub validate_depth : List Step → Option Fault
unfolding each reject
validate_depth = each (λ s. reject (ltb 8 (depth s.sub)) too_deep)

-- The checks of `New`, in its order, up to the search for a cycle.
unfoldable pub check_rules : List Step → List (List String) → Option Fault
unfolding first validate_steps validate_panels validate_routing validate_failure_admission
    validate_retry validate_loop validate_payload validate_panel_chains validate_depth
check_rules steps panels = first (validate_steps steps) (
    first (validate_panels panels steps) (
      first (validate_routing steps panels) (
        first (validate_failure_admission steps panels) (
          first (validate_retry steps panels) (
            first (validate_loop steps panels) (
              first (validate_payload steps panels)
                (first (validate_panel_chains panels steps) (validate_depth steps))))))))
