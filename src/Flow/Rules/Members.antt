-- ===== src/Flow/Rules/Members.antt =====
-- flow/definition.go: what the checks of New say of the graph and the panels' members.
use mivia_ai_sdk.Base.{◌≡◌, ◌↔◌, String, List, [], ◌∷◌, Bool, false, not, none, All, contains}
use mivia_ai_sdk.Flow.Step.{Step, step_by_id}
use mivia_ai_sdk.Flow.Graph.{
  Fault, reject, each, ids_of, validate_steps, each_member, validate_routing,
  validate_failure_admission, validate_retry, validate_loop, validate_depth, check_rules,
  validate_panels, validate_panel, unknown_member, is_on_failed, is_some, any_routed, routed_member,
  routed_parent_member, failure_member, retry_member, loop_member,
}
use mivia_ai_sdk.Flow.Rules.{
  first_iff, All-iff, each_iff, each-reject_iff, known_iff, validate_steps_iff, IsGraph, AreKnown,
}

each_member_iff :
    (test : Step → Bool) (e : Fault) (panels : List (List String)) (steps : List Step)
    → (each_member test e panels steps ≡ none)
      ↔ All (λ p. All (λ id. test (step_by_id steps id) ≡ false) p) panels
unfolding each_member
each_member_iff test e panels steps =
    let (a, b) = each_iff (each (λ id. reject (test (step_by_id steps id)) e)) panels in
    let (c, d) = All-iff panels (λ p. each-reject_iff (λ id. test (step_by_id steps id)) e p) in
    ((λ h. c (a h)), (λ h. b (d h)))

-- What the checks ask of a member of a panel.
pub record IsMember (steps : List Step) (id : String) : Type 0 where
  pub unrouted : (step_by_id steps id).routed ≡ false
  pub no_routed_need : any_routed steps (step_by_id steps id).needs ≡ false
  pub not_fallback : is_on_failed (step_by_id steps id).when ≡ false
  pub not_retried : is_some (step_by_id steps id).retry ≡ false
  pub not_looped : is_some (step_by_id steps id).loop_max ≡ false

-- The parts of `check_rules` that the next theorem reads.
accepted_parts :
    (steps : List Step) (panels : List (List String))
    → check_rules steps panels ≡ none
    → (validate_steps steps ≡ none)
      × (validate_routing steps panels ≡ none)
      × (validate_failure_admission steps panels ≡ none)
      × (validate_retry steps panels ≡ none)
      × (validate_loop steps panels ≡ none)
      × (validate_depth steps ≡ none)
unfolding check_rules
accepted_parts steps panels h =
    let (a, h1) = (first_iff _ _).0 h in
    let (b, h2) = (first_iff _ _).0 h1 in
    let (c, h3) = (first_iff _ _).0 h2 in
    let (d, h4) = (first_iff _ _).0 h3 in
    let (e, h5) = (first_iff _ _).0 h4 in
    let (f, h6) = (first_iff _ _).0 h5 in
    let (g, h7) = (first_iff _ _).0 h6 in let (i, j) = (first_iff _ _).0 h7 in (a, c, d, e, f, j)

-- Where the checks of New accept, the graph is well formed and each panel names steps.
pub check_rules-IsGraph :
    (steps : List Step) (panels : List (List String))
    → check_rules steps panels ≡ none
    → IsGraph steps × AreKnown steps panels
unfolding check_rules validate_panels validate_panel
check_rules-IsGraph steps panels h =
    let (a, h1) = (first_iff _ _).0 h in
    let (b, h2) = (first_iff _ _).0 h1 in
    ((validate_steps_iff steps).0 a, known panels ((each_iff _ panels).0 ((first_iff _ _).0 b).0))
  where
    known :
        (ps : List (List String)) → All (λ p. validate_panel steps p ≡ none) ps → AreKnown steps ps
    known [] q = tt
    known (p ∷ ps) q = (
      (All-iff p (λ id. known_iff (ids_of steps) id)).0 (
          (each-reject_iff (λ id. not (contains (ids_of steps) id)) unknown_member p).0
            ((first_iff _ _).0 q.0).0),
      known ps q.1,
    )

-- Where the checks of New accept, no member of a panel is a branch step, depends on a branch step,
-- waits for failures, has a retry policy or has a loop policy.
pub check_rules-IsMember :
    (steps : List Step) (panels : List (List String))
    → check_rules steps panels ≡ none
    → All (λ p. All (IsMember steps) p) panels
unfolding validate_routing validate_failure_admission validate_retry validate_loop
check_rules-IsMember steps panels h =
    let (a, c, d, e, f, j) = accepted_parts steps panels h in
    let (r0, h1) = (first_iff _ _).0 c in
    let (r1, h2) = (first_iff _ _).0 h1 in
    let (r2, r3) = (first_iff _ _).0 h2 in
    let unrouted = (each_member_iff (λ x. x.routed) routed_member panels steps).0 r2 in
    let unrouted_needs =
      (each_member_iff (λ x. any_routed steps x.needs) routed_parent_member panels steps).0 r3 in
    let not_fallback =
      (each_member_iff (λ x. is_on_failed x.when) failure_member panels steps).0
        ((first_iff _ _).0 d).1 in
    let not_retried =
      (each_member_iff (λ x. is_some x.retry) retry_member panels steps).0
        ((first_iff _ _).0 e).1 in
    let not_looped =
      (each_member_iff (λ x. is_some x.loop_max) loop_member panels steps).0
        ((first_iff _ _).0 f).1 in
    collect panels unrouted unrouted_needs not_fallback not_retried not_looped
  where
    collect_one :
        (p : List String)
        → All (λ id. (step_by_id steps id).routed ≡ false) p
        → All (λ id. any_routed steps (step_by_id steps id).needs ≡ false) p
        → All (λ id. is_on_failed (step_by_id steps id).when ≡ false) p
        → All (λ id. is_some (step_by_id steps id).retry ≡ false) p
        → All (λ id. is_some (step_by_id steps id).loop_max ≡ false) p
        → All (IsMember steps) p
    collect_one [] a b c d e = tt
    collect_one (x ∷ xs) (a, ar) (b, br) (c, cr) (d, dr) (e, er) = (
      record {
        unrouted = a;
        no_routed_need = b;
        not_fallback = c;
        not_retried = d;
        not_looped = e;
      },
      collect_one xs ar br cr dr er,
    )

    collect :
        (ps : List (List String))
        → All (λ p. All (λ id. (step_by_id steps id).routed ≡ false) p) ps
        → All (λ p. All (λ id. any_routed steps (step_by_id steps id).needs ≡ false) p) ps
        → All (λ p. All (λ id. is_on_failed (step_by_id steps id).when ≡ false) p) ps
        → All (λ p. All (λ id. is_some (step_by_id steps id).retry ≡ false) p) ps
        → All (λ p. All (λ id. is_some (step_by_id steps id).loop_max ≡ false) p) ps
        → All (λ p. All (IsMember steps) p) ps
    collect [] a b c d e = tt
    collect (p ∷ ps) (a, ar) (b, br) (c, cr) (d, dr) (e, er) =
        (collect_one p a b c d e, collect ps ar br cr dr er)
