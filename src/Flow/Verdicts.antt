-- ===== src/Flow/Verdicts.antt =====
-- flow/routing.go and flow/failure.go: which outcomes of its needs admit a step, and which keep it
-- waiting.
use mivia_ai_sdk.Base.{
  subst, ◌≡◌, ◌≢◌, ◌↔◌, refl, sym, ◌∙◌, ◌⊎◌, inl, inr, String, List, [], ◌∷◌, Bool, true, false,
  ◌||◌, not, ◌&&◌, none, some, Assoc, lookup, Bool-cases, Option-cases, arith, In, if◌then◌else◌,
}
use mivia_ai_sdk.Flow.Step.{Step, Admission, on_succeeded, on_finished, on_failed, Outcome, failed}
use mivia_ai_sdk.Flow.Admission.{
  wait, admit, skip, is_failed, admits_on_failed, admits, all_resolved, outcome_or_zero, all_admit,
  all_of, admission_verdict,
}

-- A need without an outcome.
abbrev pub Unresolved : List String → Assoc Outcome → Type 0
Unresolved needs outcomes = (n : String) × In n needs × (lookup n outcomes ≡ none)

-- A need that failed.
abbrev pub SomeFailed : List String → Assoc Outcome → Type 0
SomeFailed needs outcomes = (n : String) × In n needs × (lookup n outcomes ≡ some failed)

is_failed_iff : (o : Outcome) → (is_failed o ≡ true) ↔ (some o ≡ some failed)
unfolding is_failed
is_failed_iff o = ground arith

all_resolved_iff :
    (ns : List String) (outcomes : Assoc Outcome)
    → (all_resolved ns outcomes ≡ false) ↔ Unresolved ns outcomes
unfolding all_resolved
all_resolved_iff [] outcomes = ((λ h. absurd (ground arith)), (λ u. elim u.1 [ ]))
all_resolved_iff (n ∷ ns) outcomes = elim (Option-cases (lookup n outcomes)) [
  | inl e ↦ ((λ h. (n, inl refl, e)), (λ u. rw (e, all_resolved) refl))
  | inr (o, e) ↦
      let (to, from) = all_resolved_iff ns outcomes in
      (
        (λ h. let (x, i, q) = to (rw (e, all_resolved) at h) in (x, inr i, q)),
        (λ (x, i, q). elim i [
          | inl d ↦ absurd (ground arith)
          | inr j ↦ rw (e, all_resolved) (from (x, j, q))
        ]),
      )
]

some_failed : List String → Assoc Outcome → Bool
some_failed [] outcomes = false
some_failed (n ∷ ns) outcomes = elim (lookup n outcomes) [
  | none ↦ some_failed ns outcomes
  | some o ↦ is_failed o || some_failed ns outcomes
]

some_failed_iff :
    (ns : List String) (outcomes : Assoc Outcome)
    → (some_failed ns outcomes ≡ true) ↔ SomeFailed ns outcomes
unfolding some_failed
some_failed_iff [] outcomes = ((λ h. absurd (ground arith)), (λ u. elim u.1 [ ]))
some_failed_iff (n ∷ ns) outcomes =
    let (to, from) = some_failed_iff ns outcomes in
    elim (Option-cases (lookup n outcomes)) [
      | inl e ↦ (
        (λ h. let (x, i, q) = to (rw (e, some_failed) at h) in (x, inr i, q)),
        (λ (x, i, q). elim i [
          | inl d ↦ absurd (ground arith)
          | inr j ↦ rw (e, some_failed) (from (x, j, q))
        ]),
      )
      | inr (o, e) ↦ (
        (λ h. elim (Bool-cases (is_failed o)) [
          | inl f ↦ (n, inl refl, e ∙ (is_failed_iff o).0 f)
          | inr f ↦ let (x, i, q) = to (ground (arith, rw (e, some_failed) at h)) in (x, inr i, q)
        ]),
        (λ (x, i, q). elim i [
          | inl d ↦
              rw (e, some_failed)
                (ground (
                  arith,
                  (is_failed_iff o).1 (sym e ∙ subst (λ y. lookup y outcomes ≡ some failed) d q),
                ))
          | inr j ↦ rw (e, some_failed) (ground (arith, from (x, j, q)))
        ]),
      )
    ]

-- The loop of `admitsOnFailed`, in one equation.
on_failed_eq :
    (ns : List String) (outcomes : Assoc Outcome) (any : Bool)
    → admits_on_failed ns outcomes any ≡ (
        if not (all_resolved ns outcomes)
        then wait
        else if any || some_failed ns outcomes
        then admit
        else skip)
unfolding admits_on_failed all_resolved some_failed
on_failed_eq [] outcomes any = ground arith
on_failed_eq (n ∷ ns) outcomes any = elim (Option-cases (lookup n outcomes)) [
  | inl e ↦ rw (e, admits_on_failed, all_resolved) refl
  | inr (o, e) ↦
      rw (e, admits_on_failed, all_resolved, some_failed)
        (ground (arith, on_failed_eq ns outcomes (is_failed o || any)))
]

verdict_on_failed :
    (s : Step) (outcomes : Assoc Outcome)
    → s.when ≡ on_failed
    → admission_verdict s outcomes ≡ admits_on_failed s.needs outcomes false
unfolding admission_verdict
verdict_on_failed s outcomes h = rw (h, admission_verdict) refl

verdict_all_of :
    (s : Step) (outcomes : Assoc Outcome)
    → s.when ≢ on_failed
    → admission_verdict s outcomes ≡ all_of s.when s.needs outcomes
unfolding admission_verdict
verdict_all_of s outcomes h = of_when s.when refl
  where
    of_when :
        (w : Admission) → s.when ≡ w → admission_verdict s outcomes ≡ all_of s.when s.needs outcomes
    of_when on_succeeded e = rw (e, admission_verdict) refl
    of_when on_finished e = rw (e, admission_verdict) refl
    of_when on_failed e = absurd (h e)

is_on_failed : (w : Admission) → (w ≡ on_failed) ⊎ (w ≢ on_failed)
is_on_failed on_succeeded = inr (ground arith)
is_on_failed on_finished = inr (ground arith)
is_on_failed on_failed = inl refl

-- A step waits exactly while one of its needs has no outcome, whatever its admission rule is.
pub admission_verdict-wait :
    (s : Step) (outcomes : Assoc Outcome)
    → (admission_verdict s outcomes ≡ wait) ↔ Unresolved s.needs outcomes
unfolding all_of
admission_verdict-wait s outcomes =
    let (to, from) = all_resolved_iff s.needs outcomes in
    elim (is_on_failed s.when) [
      | inl h ↦
          let e = verdict_on_failed s outcomes h ∙ on_failed_eq s.needs outcomes false in
          ((λ q. to (ground (arith, e))), (λ u. ground (arith, e, from u)))
      | inr h ↦
          let e = verdict_all_of s outcomes h in
          ((λ q. to (ground (arith, e))), (λ u. ground (arith, e, from u)))
    ]

-- A step that waits for failures is admitted exactly when all its needs have outcomes and one of
-- them is a failure.
pub admission_verdict-on_failed :
    (s : Step) (outcomes : Assoc Outcome)
    → s.when ≡ on_failed
    → (admission_verdict s outcomes ≡ admit)
      ↔ ((Unresolved s.needs outcomes → ⊥) × SomeFailed s.needs outcomes)
admission_verdict-on_failed s outcomes h =
    let (to, from) = all_resolved_iff s.needs outcomes in
    let (found, holds) = some_failed_iff s.needs outcomes in
    let e = verdict_on_failed s outcomes h ∙ on_failed_eq s.needs outcomes false in
    (
      (λ q. ((λ u. ground (arith, e, from u)), found (ground (arith, e)))),
      (λ (u, f). elim (Bool-cases (all_resolved s.needs outcomes)) [
        | inl a ↦ ground (arith, e, holds f)
        | inr a ↦ absurd (u (to a))
      ]),
    )

-- Every need has an outcome that the rule accepts.
abbrev pub AllAdmit : Admission → List String → Assoc Outcome → Type 0
AllAdmit w needs outcomes =
    (n : String) → In n needs → (o : Outcome) × (lookup n outcomes ≡ some o) × (admits w o ≡ true)

all_admit→AllAdmit :
    (w : Admission) (ns : List String) (outcomes : Assoc Outcome)
    → all_resolved ns outcomes ≡ true
    → all_admit w ns outcomes ≡ true
    → AllAdmit w ns outcomes
unfolding all_resolved all_admit outcome_or_zero
all_admit→AllAdmit w [] outcomes r a x i = elim i [ ]
all_admit→AllAdmit w (n ∷ ns) outcomes r a x i = elim (Option-cases (lookup n outcomes)) [
  | inl e ↦ absurd (ground (arith, rw (e, all_resolved) at r))
  | inr (o, e) ↦
      let r' : all_resolved ns outcomes ≡ true = rw (e, all_resolved) at r in
      let a' : (admits w o && all_admit w ns outcomes) ≡ true = rw (e, outcome_or_zero) at a in
      elim i [
        | inl d ↦ (o, subst (λ y. lookup y outcomes ≡ some o) (sym d) e, ground arith)
        | inr j ↦ all_admit→AllAdmit w ns outcomes r' (ground arith) x j
      ]
]

AllAdmit→all_admit :
    (w : Admission) (ns : List String) (outcomes : Assoc Outcome)
    → AllAdmit w ns outcomes
    → (all_resolved ns outcomes ≡ true) × (all_admit w ns outcomes ≡ true)
unfolding all_resolved all_admit outcome_or_zero
AllAdmit→all_admit w [] outcomes h = (refl, refl)
AllAdmit→all_admit w (n ∷ ns) outcomes h =
    let (o, e, a) = h n (inl refl) in
    let (r, b) = AllAdmit→all_admit w ns outcomes (λ x i. h x (inr i)) in
    (rw (e, all_resolved) r, rw (e, outcome_or_zero) (ground arith))

-- A step that waits for successes, or for ends, is admitted exactly when every need has an outcome
-- that its rule accepts.
pub admission_verdict-all_of :
    (s : Step) (outcomes : Assoc Outcome)
    → s.when ≢ on_failed
    → (admission_verdict s outcomes ≡ admit) ↔ AllAdmit s.when s.needs outcomes
unfolding all_of
admission_verdict-all_of s outcomes h =
    let e = verdict_all_of s outcomes h in
    (
      (λ q. all_admit→AllAdmit s.when s.needs outcomes (ground (arith, e)) (ground (arith, e))),
      (λ a. ground (arith, e, AllAdmit→all_admit s.when s.needs outcomes a)),
    )
