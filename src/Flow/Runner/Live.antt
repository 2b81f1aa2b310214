-- ===== src/Flow/Runner/Live.antt =====
-- flow/runner.go: when the scan for the next group finds nothing, for a graph without panels. (Two
-- panels that wait for each other's members stall a walk, as docs/packages/flow.md says.)
use mivia_ai_sdk.Base.{
  ◌≡◌, ◌≢◌, ◌↔◌, ◌⊎◌, refl, sym, ◌∙◌, subst, inl, inr, String, List, [], ◌∷◌, Option, none, some,
  str_eq, eq_iff, Assoc, lookup, In, Bool-cases, Option-cases, arith,
}
use mivia_ai_sdk.Flow.Step.{Step, Outcome, step_by_id}
use mivia_ai_sdk.Flow.Graph.{ids_of}
use mivia_ai_sdk.Flow.Rules.{IsGraph}
use mivia_ai_sdk.Flow.Admission.{Verdict, wait, admit, skip, admission_verdict}
use mivia_ai_sdk.Flow.Verdicts.{Unresolved, admission_verdict-wait}
use mivia_ai_sdk.Flow.Cycles.{find_roots}
use mivia_ai_sdk.Flow.Cycles.Search.{needs_of, IsOrder}
use mivia_ai_sdk.Flow.Cycles.Order.{needs_of-known, find_roots_iff}
use mivia_ai_sdk.Flow.Runner.{
  Scan, nothing_ready, ready, skipping, scan_step, next_ready_group, panel_for,
}
use mivia_ai_sdk.Flow.Runner.Finds.{StepIn, step_by_id-id}

step_by_id-StepIn :
    (steps : List Step) (id : String) → In id (ids_of steps) → StepIn (step_by_id steps id) steps
unfolding step_by_id
step_by_id-StepIn [] id i = i
step_by_id-StepIn (s ∷ ss) id i = elim (Bool-cases (str_eq s.id id)) [
  | inl e ↦ inl (rw (e, step_by_id) refl)
  | inr e ↦
      let q : step_by_id (s ∷ ss) id ≡ step_by_id ss id = rw (e, step_by_id) refl in
      inr (
        subst (λ z. StepIn z ss) (sym q)
          (elim i [
            | inl d ↦ absurd (ground (arith, (eq_iff s.id id).1 (sym d)))
            | inr k ↦ step_by_id-StepIn ss id k
          ]))
]

-- Every one of the texts has an outcome, or one has none.
resolved_or :
    (ns : List String) (outcomes : Assoc Outcome)
    → Unresolved ns outcomes ⊎ (¬ Unresolved ns outcomes)
resolved_or [] outcomes = inr (λ u. elim u.1 [ ])
resolved_or (n ∷ ns) outcomes = elim (Option-cases (lookup n outcomes)) [
  | inl e ↦ inl (n, inl refl, e)
  | inr (o, e) ↦ elim (resolved_or ns outcomes) [
    | inl (x, i, q) ↦ inl (x, inr i, q)
    | inr f ↦ inr (λ (x, i, q). elim i [
      | inl d ↦ ground (arith, sym (subst (λ z. lookup z outcomes ≡ none) d q) ∙ e)
      | inr j ↦ f (x, j, q)
    ])
  ]
]

-- In an order, some first step has no outcome.
first-Unresolved :
    (steps : List Step) (order : List String) (outcomes : Assoc Outcome)
    → IsGraph steps
    → IsOrder steps order
    → (id : String) → In id order
    → In id (ids_of steps)
    → lookup id outcomes ≡ none
    → (x : String) × In x (ids_of steps)
      × (lookup x outcomes ≡ none)
      × (¬ Unresolved (needs_of steps x) outcomes)
first-Unresolved steps [] outcomes g o id i k e = elim i [ ]
first-Unresolved steps (v ∷ earlier) outcomes g o id (inr i) k e =
    first-Unresolved steps earlier outcomes g o.1 id i k e
first-Unresolved steps (v ∷ earlier) outcomes g o id (inl d) k e =
    elim (resolved_or (needs_of steps id) outcomes) [
      | inr f ↦ (id, k, e, f)
      | inl (n, i, q) ↦
          first-Unresolved steps earlier outcomes g o.1 n
            (o.0 n (subst (λ z. In n (needs_of steps z)) d i)) (needs_of-known steps g id n i) q
    ]

abbrev IsReady : Option Scan → Type 0
IsReady o = (found : Scan) × (o ≡ some found) × (found ≢ nothing_ready)

scan_step-IsReady :
    (s : Step) (steps : List Step) (outcomes : Assoc Outcome)
    → admission_verdict s outcomes ≢ wait
    → IsReady (scan_step s steps [] outcomes)
unfolding scan_step panel_for
scan_step-IsReady s steps outcomes h = of_verdict (admission_verdict s outcomes) refl
  where
    of_verdict :
        (v : Verdict) → admission_verdict s outcomes ≡ v → IsReady (scan_step s steps [] outcomes)
    of_verdict wait e = absurd (h e)
    of_verdict admit e = (ready s, rw (e, scan_step) refl, (λ q. cc))
    of_verdict skip e = (skipping s, rw (e, scan_step) refl, (λ q. cc))

scan_step-nothing :
    (s : Step) (steps : List Step) (outcomes : Assoc Outcome) (found : Scan)
    → scan_step s steps [] outcomes ≡ some found
    → found ≢ nothing_ready
unfolding scan_step panel_for
scan_step-nothing s steps outcomes found e = of_verdict (admission_verdict s outcomes) refl
  where
    of_verdict : (v : Verdict) → admission_verdict s outcomes ≡ v → found ≢ nothing_ready
    of_verdict wait v = λ q. ground (arith, rw (v, scan_step) at e)
    of_verdict admit v = λ q. let r : some (ready s) ≡ some found = rw (v, scan_step) at e in cc
    of_verdict skip v = λ q. let r : some (skipping s) ≡ some found = rw (v, scan_step) at e in cc

next_ready_group-StepIn :
    (ss steps : List Step) (outcomes : Assoc Outcome) (s : Step)
    → StepIn s ss
    → lookup s.id outcomes ≡ none
    → admission_verdict s outcomes ≢ wait
    → next_ready_group ss steps [] outcomes ≢ nothing_ready
unfolding next_ready_group
next_ready_group-StepIn [] steps outcomes s i e v = elim i [ ]
next_ready_group-StepIn (t ∷ ts) steps outcomes s i e v =
    elim (Option-cases (lookup t.id outcomes)) [
      | inr (o, l) ↦
          rw (l, next_ready_group)
            (elim i [
              | inl q ↦ absurd (
                  let r : lookup t.id outcomes ≡ none =
                    subst (λ z. lookup z.id outcomes ≡ none) q e in
                  ground arith)
              | inr j ↦ next_ready_group-StepIn ts steps outcomes s j e v
            ])
      | inl l ↦ elim (Option-cases (scan_step t steps [] outcomes)) [
        | inr (found, f) ↦ rw (l, f, next_ready_group) (scan_step-nothing t steps outcomes found f)
        | inl f ↦
            rw (l, f, next_ready_group)
              (elim i [
                | inl q ↦ absurd (
                    let (x, r, n) = scan_step-IsReady s steps outcomes v in
                    let r' : scan_step t steps [] outcomes ≡ some x =
                      subst (λ z. scan_step z steps [] outcomes ≡ some x) q r in
                    ground arith)
                | inr j ↦ next_ready_group-StepIn ts steps outcomes s j e v
              ])
      ]
    ]

next_ready_group-resolved :
    (ss steps : List Step) (outcomes : Assoc Outcome)
    → ¬ Unresolved (ids_of ss) outcomes
    → next_ready_group ss steps [] outcomes ≡ nothing_ready
unfolding next_ready_group
next_ready_group-resolved [] steps outcomes f = refl
next_ready_group-resolved (s ∷ ss) steps outcomes f = elim (Option-cases (lookup s.id outcomes)) [
  | inl e ↦ absurd (f (s.id, inl refl, e))
  | inr (o, e) ↦
      rw (e, next_ready_group)
        (next_ready_group-resolved ss steps outcomes (λ (n, i, q). f (n, inr i, q)))
]

-- On a well-formed graph without a cycle and without panels, the scan for the next group finds
-- nothing exactly when every step has an outcome: a walk that has steps left never stalls.
pub next_ready_group_iff :
    (steps : List Step) (outcomes : Assoc Outcome)
    → IsGraph steps
    → find_roots steps ≢ none
    → (next_ready_group steps steps [] outcomes ≡ nothing_ready)
      ↔ ((id : String) → In id (ids_of steps) → lookup id outcomes ≢ none)
next_ready_group_iff steps outcomes g acyclic =
    let (order, o, all) = (find_roots_iff steps g).0 acyclic in
    (
      (λ h id i e.
          let (x, k, free, f) = first-Unresolved steps order outcomes g o id (all id i) i e in
          next_ready_group-StepIn steps steps outcomes (step_by_id steps x)
            (step_by_id-StepIn steps x k)
            (subst (λ z. lookup z outcomes ≡ none) (sym (step_by_id-id steps x k)) free)
            (λ w. f ((admission_verdict-wait (step_by_id steps x) outcomes).0 w)) h),
      (λ h. next_ready_group-resolved steps steps outcomes (λ (n, i, q). h n i q)),
    )
