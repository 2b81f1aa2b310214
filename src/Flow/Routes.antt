-- ===== src/Flow/Routes.antt =====
-- flow/routing.go: which outcomes a branch step's route writes.
use mivia_ai_sdk.Base.{
  ◌≡◌, refl, inl, inr, String, List, [], ◌∷◌, true, false, not, ◌&&◌, some, if◌then◌else◌, Assoc,
  lookup, insert, lookup-insert, Bool-cases, arith, contains, eq_iff,
}
use mivia_ai_sdk.Flow.Step.{Step, Outcome, skipped, direct_dependents, is_dependent}
use mivia_ai_sdk.Flow.Admission.{apply_route, skip_unkept, all_dependents}

skip_unkept-lookup :
    (ds : List Step) (kept : List String) (outcomes : Assoc Outcome) (id : String)
    → lookup id (skip_unkept ds kept outcomes)
      ≡ (if is_dependent id ds && not (contains kept id) then some skipped else lookup id outcomes)
unfolding skip_unkept is_dependent
skip_unkept-lookup [] kept outcomes id = refl
skip_unkept-lookup (d ∷ ds) kept outcomes id = elim (Bool-cases (contains kept d.id)) [
  | inl e ↦
      rw (e, skip_unkept) (ground (arith, skip_unkept-lookup ds kept outcomes id, eq_iff d.id id))
  | inr e ↦
      rw (e, skip_unkept)
        (ground (
          arith,
          skip_unkept-lookup ds kept (insert d.id skipped outcomes) id,
          lookup-insert d.id id skipped outcomes,
          eq_iff d.id id,
        ))
]

-- Where the route names direct dependents only, it marks as skipped exactly the direct dependents
-- that it does not name, whatever they were before, and changes no other outcome.
pub apply_route-lookup :
    (s : Step) (kept : List String) (steps : List Step) (outcomes : Assoc Outcome) (id : String)
    → all_dependents kept (direct_dependents s.id steps) ≡ true
    → lookup id (apply_route s (some kept) steps outcomes).0 ≡ (
        if is_dependent id (direct_dependents s.id steps) && not (contains kept id)
        then some skipped
        else lookup id outcomes)
unfolding apply_route
apply_route-lookup s kept steps outcomes id h =
    rw (h, apply_route) (skip_unkept-lookup (direct_dependents s.id steps) kept outcomes id)

-- Without an error, the route named direct dependents only.
pub apply_route-accepted :
    (s : Step) (kept : List String) (steps : List Step) (outcomes : Assoc Outcome)
    → (apply_route s (some kept) steps outcomes).1 ≡ false
    → all_dependents kept (direct_dependents s.id steps) ≡ true
unfolding apply_route
apply_route-accepted s kept steps outcomes h =
    elim (Bool-cases (all_dependents kept (direct_dependents s.id steps))) [
      | inl e ↦ e
      | inr e ↦ absurd (ground (arith, rw (e, apply_route) at h))
    ]
