-- ===== src/Ledger/Validity.antt =====
-- ledger/task_state.go: the field rules that `TaskState.Validate` enforces, stated without its order.
use mivia_ai_sdk.Base.{
  contains-false, ◌<◌, ◌≡◌, ◌≢◌, ◌↔◌, refl, ap, ◌⊎◌, inl, inr, String, true, false, not, none,
  str_eq, eq_iff, str_eq-false, In, In→contains, Bool-cases, arith,
}
use mivia_ai_sdk.Ledger.Task.{
  TaskState, Status, claimed, other, blocked, validate, validate_claimed, is_known_status,
  status_eq,
}

text_of : Status → String
text_of (other s) = s
text_of _ = ""

other-injective : {s t : String} → other s ≡ other t → s ≡ t
unfolding text_of
other-injective e = ap text_of e

pub status_eq_iff : (s t : Status) → (status_eq s t ≡ true) ↔ (s ≡ t)
unfolding status_eq
status_eq_iff (other s) (other t) =
    ((λ h. ap other ((eq_iff s t).0 h)), (λ e. (eq_iff s t).1 (other-injective e)))
status_eq_iff s t = ground arith

pub record IsValid (t : TaskState) : Type 0 where
  pub keyed : t.key ≢ ""
  pub known : is_known_status t.status ≡ true
  pub not_self : ¬ In t.key t.needs
  pub cause : (t.status ≡ blocked) ↔ (t.blocked_by ≢ "")
  pub owned : t.status ≡ claimed → t.owner ≢ ""
  pub leased : t.status ≡ claimed → 0 < t.lease_until

cause_tests :
    (t : TaskState) → IsValid t → status_eq t.status blocked ≡ not (str_eq t.blocked_by "")
cause_tests t v = elim (Bool-cases (status_eq t.status blocked)) [
  | inl q ↦
      rw (q, str_eq-false t.blocked_by "" (v.cause.0 ((status_eq_iff t.status blocked).0 q))) refl
  | inr q ↦ elim (Bool-cases (str_eq t.blocked_by "")) [
    | inl r ↦ rw (q, r) refl
    | inr r ↦ absurd (
        cc (
          q,
          (status_eq_iff t.status blocked).1
              (v.cause.1 (λ e. ground (arith, eq_iff t.blocked_by ""))),
        ))
  ]
]

owner_tests :
    (t : TaskState) → IsValid t → (status_eq t.status claimed ≡ false) ⊎ (validate_claimed t ≡ none)
unfolding validate_claimed
owner_tests t v = elim (Bool-cases (status_eq t.status claimed)) [
  | inr q ↦ inl q
  | inl q ↦
      let c = (status_eq_iff t.status claimed).0 q in
      inr (ground (arith, str_eq-false t.owner "" (v.owned c), v.leased c))
]

-- Validate accepts exactly the records with a key, a known status and no need on themselves, that
-- name a blocking key just if they are blocked, and have an owner and a lease if they are claimed.
pub validate_iff : (t : TaskState) → (validate t ≡ none) ↔ IsValid t
unfolding validate
validate_iff t = (accepted, accepts)
  where
    accepted : validate t ≡ none → IsValid t
    accepted h = record {
      keyed = λ e. ground (arith, eq_iff t.key "");
      known = ground arith;
      not_self = λ i. ground (arith, In→contains t.needs t.key i);
      cause = (
        (λ e b. ground (arith, eq_iff t.blocked_by "")),
        (λ n. elim (Bool-cases (status_eq t.status blocked)) [
          | inl q ↦ (status_eq_iff t.status blocked).0 q
          | inr q ↦ absurd (n (ground (arith, eq_iff t.blocked_by "")))
        ]),
      );
      owned = λ e o. ground (arith, eq_iff t.owner "");
      leased = λ e. ground arith;
    }

    accepts : IsValid t → validate t ≡ none
    accepts v = ground (
      arith,
      v.known,
      str_eq-false t.key "" v.keyed,
      contains-false t.needs t.key v.not_self,
      cause_tests t v,
      owner_tests t v,
    )
