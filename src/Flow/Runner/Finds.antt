-- ===== src/Flow/Runner/Finds.antt =====
-- flow/runner.go: what `nextReadyGroup` finds, and which steps a panel's group holds.
use mathlib.Core.Option.{some_inj}
use mivia_ai_sdk.Base.{
  ◌≡◌, ◌≢◌, refl, sym, ◌∙◌, subst, ◌⊎◌, inl, inr, String, List, [], ◌∷◌, Bool, true, false, Option,
  none, some, Assoc, lookup, contains, contains→In, str_eq, eq_iff, Bool-cases, Option-cases, arith,
  In, All,
}
use mivia_ai_sdk.Flow.Step.{Step, zero_step, Outcome, step_by_id}
use mivia_ai_sdk.Flow.Admission.{Verdict, wait, admit, skip, admission_verdict, panel_verdict}
use mivia_ai_sdk.Flow.Graph.{ids_of}
use mivia_ai_sdk.Flow.Runner.{
  Scan, nothing_ready, ready, skipping, ready_panel, skipping_panel, panel_for, panel_members,
  scan_step, next_ready_group,
}

abbrev pub StepIn : Step → List Step → Type 0
StepIn s [] = ⊥
StepIn s (t ∷ ts) = (s ≡ t) ⊎ StepIn s ts

pub StepIn-All :
    (P : Step → Type 0) (steps : List Step) (s : Step) → All P steps → StepIn s steps → P s
StepIn-All P [] s a i = elim i [ ]
StepIn-All P (t ∷ ts) s a (inl e) = subst P (sym e) a.0
StepIn-All P (t ∷ ts) s a (inr i) = StepIn-All P ts s a.1 i

-- The step of an ID is one of the steps, or the zero step.
pub step_by_id-All :
    (P : Step → Type 0) (steps : List Step) (id : String)
    → P zero_step
    → All P steps
    → P (step_by_id steps id)
unfolding step_by_id
step_by_id-All P [] id z a = z
step_by_id-All P (s ∷ ss) id z a = elim (Bool-cases (str_eq s.id id)) [
  | inl e ↦ rw (e, step_by_id) a.0
  | inr e ↦ rw (e, step_by_id) (step_by_id-All P ss id z a.1)
]

-- What a find of `nextReadyGroup` tells.
pub data IsFound (steps : List Step) (panels : List (List String)) (outcomes : Assoc Outcome)
    : Scan → Type 0 where
  found_nothing : IsFound steps panels outcomes nothing_ready
  found_ready :
      (s : Step)
      → StepIn s steps
      → lookup s.id outcomes ≡ none
      → admission_verdict s outcomes ≡ admit
      → IsFound steps panels outcomes (ready s)
  found_skipping :
      (s : Step)
      → StepIn s steps
      → lookup s.id outcomes ≡ none
      → admission_verdict s outcomes ≡ skip
      → IsFound steps panels outcomes (skipping s)
  found_panel :
      (id : String) (p : List String)
      → panel_for id panels ≡ some p
      → panel_verdict p steps outcomes true ≡ admit
      → IsFound steps panels outcomes (ready_panel (panel_members p steps))
  found_skipping_panel :
      (id : String) (p : List String)
      → panel_for id panels ≡ some p
      → panel_verdict p steps outcomes true ≡ skip
      → IsFound steps panels outcomes (skipping_panel (panel_members p steps))

abbrev FoundIf : List Step → List (List String) → Assoc Outcome → Option Scan → Type 0
FoundIf steps panels outcomes none = Unit
FoundIf steps panels outcomes (some f) = IsFound steps panels outcomes f

scan_step-IsFound :
    (s : Step) (steps : List Step) (panels : List (List String)) (outcomes : Assoc Outcome)
    → StepIn s steps
    → lookup s.id outcomes ≡ none
    → FoundIf steps panels outcomes (scan_step s steps panels outcomes)
unfolding scan_step
scan_step-IsFound s steps panels outcomes i free = elim (Option-cases (panel_for s.id panels)) [
  | inl e ↦ rw (e, scan_step) (of_verdict (admission_verdict s outcomes) refl)
  | inr (p, e) ↦ rw (e, scan_step) (of_panel p e (panel_verdict p steps outcomes true) refl)
]
  where
    of_verdict :
        (v : Verdict)
        → admission_verdict s outcomes ≡ v
        → FoundIf steps panels outcomes (elim (admission_verdict s outcomes) [
          | admit ↦ some (ready s)
          | skip ↦ some (skipping s)
          | wait ↦ none
        ])
    of_verdict wait e = rw e tt
    of_verdict admit e = rw e (found_ready s i free e)
    of_verdict skip e = rw e (found_skipping s i free e)

    of_panel :
        (p : List String)
        → panel_for s.id panels ≡ some p
        → (v : Verdict) → panel_verdict p steps outcomes true ≡ v
        → FoundIf steps panels outcomes (elim (panel_verdict p steps outcomes true) [
          | admit ↦ some (ready_panel (panel_members p steps))
          | skip ↦ some (skipping_panel (panel_members p steps))
          | wait ↦ none
        ])
    of_panel p q wait e = rw e tt
    of_panel p q admit e = rw e (found_panel s.id p q e)
    of_panel p q skip e = rw e (found_skipping_panel s.id p q e)

pub next_ready_group-IsFound :
    (ss steps : List Step) (panels : List (List String)) (outcomes : Assoc Outcome)
    → ((s : Step) → StepIn s ss → StepIn s steps)
    → IsFound steps panels outcomes (next_ready_group ss steps panels outcomes)
unfolding next_ready_group
next_ready_group-IsFound [] steps panels outcomes sub = found_nothing
next_ready_group-IsFound (s ∷ ss) steps panels outcomes sub =
    let rest = next_ready_group-IsFound ss steps panels outcomes (λ t i. sub t (inr i)) in
    elim (Option-cases (lookup s.id outcomes)) [
      | inr (o, e) ↦ rw (e, next_ready_group) rest
      | inl e ↦ elim (Option-cases (scan_step s steps panels outcomes)) [
        | inl q ↦ rw (e, q, next_ready_group) rest
        | inr (f, q) ↦
            rw (e, q, next_ready_group)
              (subst (FoundIf steps panels outcomes) q
                (scan_step-IsFound s steps panels outcomes (sub s (inl refl)) e))
      ]
    ]

-- The step of a known ID has it.
pub step_by_id-id :
    (steps : List Step) (id : String) → In id (ids_of steps) → (step_by_id steps id).id ≡ id
unfolding step_by_id
step_by_id-id [] id i = elim i [ ]
step_by_id-id (s ∷ ss) id i = elim (Bool-cases (str_eq s.id id)) [
  | inl e ↦ rw (e, step_by_id) ((eq_iff s.id id).0 e)
  | inr e ↦
      rw (e, step_by_id)
        (elim i [
          | inl d ↦ absurd (ground (arith, (eq_iff s.id id).1 (sym d)))
          | inr j ↦ step_by_id-id ss id j
        ])
]

pub panel_for-All :
    (Q : List String → Type 0) (id : String) (panels : List (List String)) (p : List String)
    → All Q panels
    → panel_for id panels ≡ some p
    → Q p × In id p
unfolding panel_for
panel_for-All Q id [] p a h = absurd (ground arith)
panel_for-All Q id (x ∷ xs) p a h = elim (Bool-cases (contains x id)) [
  | inl e ↦
      let q : x ≡ p = some_inj.0 (rw (e, panel_for) at h) in
      (subst Q q a.0, subst (In id) q (contains→In x id e))
  | inr e ↦ panel_for-All Q id xs p a.1 (rw (e, panel_for) at h)
]

Verdict-cases : (v : Verdict) → (v ≡ wait) ⊎ (v ≢ wait)
Verdict-cases wait = inl refl
Verdict-cases admit = inr (λ e. cc)
Verdict-cases skip = inr (λ e. cc)

-- The verdict on a panel whose first member has no outcome and does not wait.
panel_verdict-rest :
    (x : String) (xs : List String) (steps : List Step) (outcomes : Assoc Outcome) (all : Bool)
    → lookup x outcomes ≡ none
    → admission_verdict (step_by_id steps x) outcomes ≢ wait
    → (b : Bool) × (panel_verdict (x ∷ xs) steps outcomes all ≡ panel_verdict xs steps outcomes b)
unfolding panel_verdict
panel_verdict-rest x xs steps outcomes all e n =
    of_verdict (admission_verdict (step_by_id steps x) outcomes) refl
  where
    of_verdict :
        (v : Verdict)
        → admission_verdict (step_by_id steps x) outcomes ≡ v
        → (b : Bool) × (panel_verdict (x ∷ xs) steps outcomes all
            ≡ panel_verdict xs steps outcomes b)
    of_verdict wait q = absurd (n q)
    of_verdict admit q = (all, rw (e, q, panel_verdict) refl)
    of_verdict skip q = (false, rw (e, q, panel_verdict) refl)

-- The members of a panel that does not wait have no outcome, and none of them waits.
pub panel_verdict-free :
    (p : List String) (steps : List Step) (outcomes : Assoc Outcome) (all : Bool) (id : String)
    → panel_verdict p steps outcomes all ≢ wait
    → In id p
    → (lookup id outcomes ≡ none) × (admission_verdict (step_by_id steps id) outcomes ≢ wait)
unfolding panel_verdict
panel_verdict-free [] steps outcomes all id h i = elim i [ ]
panel_verdict-free (x ∷ xs) steps outcomes all id h i = elim (Option-cases (lookup x outcomes)) [
  | inr (o, e) ↦ absurd (rw (e, panel_verdict) at h refl)
  | inl e ↦ elim (Verdict-cases (admission_verdict (step_by_id steps x) outcomes)) [
    | inl q ↦ absurd ((rw (e, q, panel_verdict) at h) refl)
    | inr n ↦ elim i [
      | inl d ↦
          subst
            (λ y.
              (lookup y outcomes ≡ none) × (admission_verdict (step_by_id steps y) outcomes ≢ wait))
            (sym d) (e, n)
      | inr j ↦
          let (b, q) = panel_verdict-rest x xs steps outcomes all e n in
          panel_verdict-free xs steps outcomes b id (λ r. h (q ∙ r)) j
    ]
  ]
]
