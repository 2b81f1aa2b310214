-- ===== src/Flow/Runner/Marks.antt =====
-- flow/runner.go: a step's own outcome, and the outcomes that its route writes, keep the others.
use mivia_ai_sdk.Base.{
  ◌≡◌, refl, sym, ◌∙◌, ap, subst, ◌⊎◌, inl, inr, String, List, [], ◌∷◌, true, not, ◌&&◌, none, some,
  Assoc, lookup, insert, lookup-insert, contains, if◌then◌else◌, str_eq, eq_iff, Bool-cases, arith,
  In,
}
use mivia_ai_sdk.Base.Keys.{Distinct}
use mivia_ai_sdk.Flow.Step.{
  Step, Outcome, succeeded, failed, skipped, step_by_id, direct_dependents, is_dependent,
}
use mivia_ai_sdk.Flow.Admission.{apply_route, all_dependents}
use mivia_ai_sdk.Flow.Routes.{apply_route-lookup}
use mivia_ai_sdk.Flow.Graph.{ids_of}
use mivia_ai_sdk.Flow.Runner.Final.{
  Ran, Ready, IsOrdered, Extends, Grown, Grown-marks, step_by_id_self, is_dependent-StepIn,
}

In-one : (k id : String) → In k (id ∷ []) → k ≡ id
In-one k id i = elim i [ inl e ↦ e | inr j ↦ elim j [ ] ]

-- One step that had no outcome and was ready gets one.
pub Grown-one :
    (steps : List Step) (m : Assoc Outcome) (id : String) (o : Outcome)
    → lookup id m ≡ none
    → (o ≡ skipped) ⊎ Ready steps m id
    → Grown steps m (insert id o m)
unfolding contains
Grown-one steps m id o free allowed =
    Grown-marks steps m (insert id o m) (id ∷ []) o (λ k. ground (arith, lookup-insert id k o m))
      (λ k i. subst (λ y. lookup y m ≡ none) (sym (In-one k id i)) free)
      (elim allowed [
        | inl e ↦ inl e
        | inr r ↦ inr (λ k i. subst (Ready steps m) (sym (In-one k id i)) r)
      ])

-- A step that got two outcomes in a row, of which the second stays.
pub Grown-again :
    (steps : List Step) (m : Assoc Outcome) (id : String) (a o : Outcome)
    → lookup id m ≡ none
    → Ready steps m id
    → Grown steps m (insert id o (insert id a m))
unfolding contains
Grown-again steps m id a o free r =
    Grown-marks steps m (insert id o (insert id a m)) (id ∷ []) o
      (λ k. ground (arith, lookup-insert id k o (insert id a m), lookup-insert id k a m))
      (λ k i. subst (λ y. lookup y m ≡ none) (sym (In-one k id i)) free)
      (inr (λ k i. subst (Ready steps m) (sym (In-one k id i)) r))

-- A branch step that had no outcome succeeds, and its route skips dependents.
pub Grown-route :
    (steps : List Step) (m : Assoc Outcome) (s : Step) (kept : List String)
    → Distinct (ids_of steps)
    → IsOrdered steps m
    → lookup s.id m ≡ none
    → Ready steps m s.id
    → all_dependents kept (direct_dependents s.id steps) ≡ true
    → Grown steps m (apply_route s (some kept) steps (insert s.id succeeded m)).0
Grown-route steps m s kept distinct w free r ok = record { kept = keeps; new = news }
  where
    after : Assoc Outcome
    after = (apply_route s (some kept) steps (insert s.id succeeded m)).0

    read :
        (k : String)
        → lookup k after ≡ (
            if is_dependent k (direct_dependents s.id steps) && not (contains kept k)
            then some skipped
            else if str_eq s.id k
            then some succeeded
            else lookup k m)
    read k = ground (
      arith,
      apply_route-lookup s kept steps (insert s.id succeeded m) k ok,
      lookup-insert s.id k succeeded m,
    )

    unran :
        (k : String) → is_dependent k (direct_dependents s.id steps) ≡ true → Ran (lookup k m) → ⊥
    unran k d ran =
        let (t, i, e, n) = is_dependent-StepIn s.id steps k d in
        let self = step_by_id_self steps t distinct i in
        w k ran s.id (subst (λ x. In s.id x.needs) (sym self ∙ ap (step_by_id steps) e) n) free

    skippable :
        (k : String) (o : Outcome)
        → lookup k m ≡ some o
        → is_dependent k (direct_dependents s.id steps) ≡ true
        → o ≡ skipped
    skippable k succeeded h d = absurd (unran k d (subst Ran (sym h) tt))
    skippable k failed h d = absurd (unran k d (subst Ran (sym h) tt))
    skippable k skipped h d = refl

    keeps : Extends m after
    keeps k o h =
        elim (Bool-cases (is_dependent k (direct_dependents s.id steps) && not (contains kept k))) [
          | inl c ↦ read k ∙ rw c (ap some (sym (skippable k o h (ground arith))))
          | inr c ↦ elim (Bool-cases (str_eq s.id k)) [
            | inl e ↦
                let q : none ≡ some o =
                  sym (subst (λ y. lookup y m ≡ none) ((eq_iff s.id k).0 e) free) ∙ h in
                absurd (cc)
            | inr e ↦ read k ∙ rw c (rw e h)
          ]
        ]

    news : (id : String) → Ran (lookup id after) → Ran (lookup id m) ⊎ Ready steps m id
    news id ran =
        elim (Bool-cases
          (is_dependent id (direct_dependents s.id steps) && not (contains kept id))) [
            | inl c ↦
                let q : lookup id after ≡ some skipped = read id ∙ rw c refl in
                absurd (subst Ran q ran)
            | inr c ↦ elim (Bool-cases (str_eq s.id id)) [
              | inl e ↦ inr (subst (Ready steps m) ((eq_iff s.id id).0 e) r)
              | inr e ↦
                  let q : lookup id after ≡ lookup id m = read id ∙ rw c (rw e refl) in
                  inl (subst Ran q ran)
            ]
          ]
