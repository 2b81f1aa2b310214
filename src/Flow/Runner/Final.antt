-- ===== src/Flow/Runner/Final.antt =====
-- flow/runner.go: an outcome is final, and no step runs before its needs are resolved.
use mivia_ai_sdk.Base.{
  ◌≡◌, ◌≢◌, refl, sym, ◌∙◌, ap, subst, ◌⊎◌, inl, inr, String, List, [], ◌∷◌, true, Option, none,
  some, Assoc, lookup, insert, lookup-insert, contains, contains→In, if◌then◌else◌, str_eq, eq_iff,
  Bool-cases, arith, In, All,
}
use mivia_ai_sdk.Base.Keys.{Distinct}
use mivia_ai_sdk.Flow.Step.{
  Step, Outcome, succeeded, failed, skipped, step_by_id, direct_dependents, is_dependent,
}
use mivia_ai_sdk.Flow.Admission.{wait, admission_verdict, panel_verdict, mark_outcome}
use mivia_ai_sdk.Flow.Verdicts.{admission_verdict-wait}
use mivia_ai_sdk.Flow.Graph.{ids_of}
use mivia_ai_sdk.Flow.Runner.{panel_members, panel_for}
use mivia_ai_sdk.Flow.Rules.{AreKnown}
use mivia_ai_sdk.Flow.Runner.Finds.{StepIn, step_by_id-id, panel_for-All, panel_verdict-free}

-- The step was executed: it succeeded or failed.
abbrev pub Ran : Option Outcome → Type 0
Ran none = ⊥
Ran (some succeeded) = Unit
Ran (some failed) = Unit
Ran (some skipped) = ⊥

-- All needs of the step of that ID have outcomes.
abbrev pub Ready : List Step → Assoc Outcome → String → Type 0
Ready steps m id = (n : String) → In n (step_by_id steps id).needs → lookup n m ≢ none

-- No step ran before its needs had outcomes.
abbrev pub IsOrdered : List Step → Assoc Outcome → Type 0
IsOrdered steps m = (id : String) → Ran (lookup id m) → Ready steps m id

-- Every outcome stays.
abbrev pub Extends : Assoc Outcome → Assoc Outcome → Type 0
Extends m m' = (k : String) (o : Outcome) → lookup k m ≡ some o → lookup k m' ≡ some o

-- The second outcomes keep the first, and what ran anew was ready.
pub record Grown (steps : List Step) (m m' : Assoc Outcome) : Type 0 where
  pub kept : Extends m m'
  pub new : (id : String) → Ran (lookup id m') → Ran (lookup id m) ⊎ Ready steps m id

not_none : (o : Option Outcome) → o ≢ none → (a : Outcome) × (o ≡ some a)
not_none none h = absurd (h refl)
not_none (some a) h = (a, refl)

Ready-Extends :
    (steps : List Step) (m m' : Assoc Outcome) (id : String)
    → Extends m m'
    → Ready steps m id
    → Ready steps m' id
Ready-Extends steps m m' id ext r n i e =
    let (o, q) = not_none (lookup n m) (r n i) in let p : some o ≡ none = sym (ext n o q) ∙ e in cc

pub Grown-IsOrdered :
    (steps : List Step) (m m' : Assoc Outcome)
    → Grown steps m m'
    → IsOrdered steps m
    → IsOrdered steps m'
Grown-IsOrdered steps m m' g w id ran = elim (g.new id ran) [
  | inl r ↦ Ready-Extends steps m m' id g.kept (w id r)
  | inr r ↦ Ready-Extends steps m m' id g.kept r
]

pub Grown-refl : (steps : List Step) (m : Assoc Outcome) → Grown steps m m
Grown-refl steps m = record { kept = λ k o h. h; new = λ id r. inl r }

-- One outcome for a list of IDs that had none: a skip, or an outcome of steps that were ready.
pub Grown-marks :
    (steps : List Step) (m m' : Assoc Outcome) (p : List String) (o : Outcome)
    → ((id : String) → lookup id m' ≡ (if contains p id then some o else lookup id m))
    → ((id : String) → In id p → lookup id m ≡ none)
    → (o ≡ skipped) ⊎ ((id : String) → In id p → Ready steps m id)
    → Grown steps m m'
Grown-marks steps m m' p o marked free allowed = record {
  kept = λ k a h. elim (Bool-cases (contains p k)) [
    | inl c ↦ let q : none ≡ some a = sym (free k (contains→In p k c)) ∙ h in absurd (cc)
    | inr c ↦ marked k ∙ rw c h
  ];
  new = λ id r. elim (Bool-cases (contains p id)) [
    | inl c ↦
        let q : lookup id m' ≡ some o = marked id ∙ rw c refl in
        elim allowed [
          | inl e ↦ absurd (subst Ran (q ∙ ap some e) r)
          | inr f ↦ inr (f id (contains→In p id c))
        ]
    | inr c ↦ inl (subst Ran (marked id ∙ rw c refl) r)
  ];
}

-- The step of an ID that one of distinct IDs has.
pub step_by_id_self :
    (steps : List Step) (s : Step)
    → Distinct (ids_of steps)
    → StepIn s steps
    → step_by_id steps s.id ≡ s
unfolding step_by_id
step_by_id_self [] s d i = elim i [ ]
step_by_id_self (t ∷ ts) s d i = elim (Bool-cases (str_eq t.id s.id)) [
  | inl e ↦
      rw (e, step_by_id)
        (elim i [
          | inl q ↦ sym q
          | inr j ↦ absurd (
              d.0 (subst (λ x. In x (ids_of ts)) (sym ((eq_iff t.id s.id).0 e)) (StepIn-In s ts j)))
        ])
  | inr e ↦
      rw (e, step_by_id)
        (elim i [
          | inl q ↦ absurd (ground (arith, (eq_iff t.id s.id).1 (ap (λ x. x.id) (sym q))))
          | inr j ↦ step_by_id_self ts s d.1 j
        ])
]
  where
    StepIn-In : (s : Step) (ss : List Step) → StepIn s ss → In s.id (ids_of ss)
    StepIn-In s [] i = i
    StepIn-In s (t ∷ ts) i = elim i [
      | inl q ↦ inl (ap (λ x. x.id) q)
      | inr j ↦ inr (StepIn-In s ts j)
    ]

-- A step whose verdict is not to wait is ready.
pub verdict-Ready :
    (steps : List Step) (m : Assoc Outcome) (id : String)
    → admission_verdict (step_by_id steps id) m ≢ wait
    → Ready steps m id
verdict-Ready steps m id v n i e = v ((admission_verdict-wait (step_by_id steps id) m).1 (n, i, e))

-- The marks of a panel's members.
pub mark_outcome-lookup :
    (p : List String) (steps : List Step) (m : Assoc Outcome) (o : Outcome) (id : String)
    → All (λ x. In x (ids_of steps)) p
    → lookup id (mark_outcome m (panel_members p steps) o)
      ≡ (if contains p id then some o else lookup id m)
unfolding mark_outcome panel_members contains
mark_outcome-lookup [] steps m o id a = refl
mark_outcome-lookup (x ∷ xs) steps m o id a =
    let e = step_by_id-id steps x a.0 in
    ap (λ y. lookup id (mark_outcome (insert y o m) (panel_members xs steps) o)) e
    ∙ ground (arith, mark_outcome-lookup xs steps (insert x o m) o id a.1, lookup-insert x id o m)

-- A direct dependent is a step that names the other in its needs.
pub is_dependent-StepIn :
    (id : String) (steps : List Step) (k : String)
    → is_dependent k (direct_dependents id steps) ≡ true
    → (d : Step) × StepIn d steps × (d.id ≡ k) × In id d.needs
unfolding direct_dependents is_dependent
is_dependent-StepIn id [] k h = absurd (ground arith)
is_dependent-StepIn id (s ∷ ss) k h = elim (Bool-cases (contains s.needs id)) [
  | inl e ↦ elim (Bool-cases (str_eq s.id k)) [
    | inl q ↦ (s, inl refl, (eq_iff s.id k).0 q, contains→In s.needs id e)
    | inr q ↦
        let (d, i, a, b) =
          is_dependent-StepIn id ss k (ground (arith, rw (e, direct_dependents) at h)) in
        (d, inr i, a, b)
  ]
  | inr e ↦
      let (d, i, a, b) = is_dependent-StepIn id ss k (rw (e, direct_dependents) at h) in
      (d, inr i, a, b)
]

-- The members of the panel that was found have no outcome, and are ready.
abbrev pub Members : List Step → Assoc Outcome → List String → Type 0
Members steps m p =
    All (λ x. In x (ids_of steps)) p
    × ((id : String) → In id p → lookup id m ≡ none)
    × ((id : String) → In id p → Ready steps m id)

pub Grown-Members :
    (steps : List Step) (m : Assoc Outcome) (p : List String) (o : Outcome)
    → Members steps m p
    → Grown steps m (mark_outcome m (panel_members p steps) o)
Grown-Members steps m p o (known, free, ready) =
    Grown-marks steps m (mark_outcome m (panel_members p steps) o) p o
      (λ id. mark_outcome-lookup p steps m o id known) free (inr ready)

pub found-Members :
    (id : String) (p : List String) (steps : List Step) (panels : List (List String))
    (m : Assoc Outcome)
    → AreKnown steps panels
    → panel_for id panels ≡ some p
    → panel_verdict p steps m true ≢ wait
    → Members steps m p
found-Members id p steps panels m known h n = (
  (panel_for-All (All (λ x. In x (ids_of steps))) id panels p known h).0,
  (λ k i. (panel_verdict-free p steps m true k n i).0),
  (λ k i. verdict-Ready steps m k (panel_verdict-free p steps m true k n i).1),
)
