-- ===== src/Flow/Runner/Caught.antt =====
-- flow/runner.go and flow/failure.go: the failures that a walk has caught.
use mivia_ai_sdk.Base.{
  ◌≡◌, ◌≢◌, refl, sym, ◌∙◌, ap, subst, ◌⊎◌, inl, inr, String, List, [], ◌∷◌, true, ◌&&◌, none, some,
  str_eq, eq_iff, if◌then◌else◌, Assoc, lookup, contains, contains→In, In, Bool-cases, Option-cases,
  arith,
}
use mivia_ai_sdk.Base.Keys.{Distinct}
use mivia_ai_sdk.Flow.Step.{
  Step, Admission, on_succeeded, on_finished, on_failed, Outcome, failed, step_by_id,
}
use mivia_ai_sdk.Flow.Graph.{ids_of, is_on_failed}
use mivia_ai_sdk.Flow.Admission.{admit, skip, wait, admission_verdict}
use mivia_ai_sdk.Flow.Verdicts.{admission_verdict-wait, admission_verdict-on_failed}
use mivia_ai_sdk.Flow.Failures.{HandledFailure, is_fallback, failure_handlers_for}
use mivia_ai_sdk.Flow.Failures.Handled.{Entries, Entries-map, resolve_catchable-Entries}
use mivia_ai_sdk.Flow.Execution.{Fault, tagged, untagged}
use mivia_ai_sdk.Flow.Runner.{Walk, catch}
use mivia_ai_sdk.Flow.Runner.Finds.{StepIn}
use mivia_ai_sdk.Flow.Runner.Final.{step_by_id_self}

-- `h` is a fallback that needs the step `k`, and it has no outcome yet.
pub record Waits (steps : List Step) (m : Assoc Outcome) (k h : String) : Type 0 where
  pub free : lookup h m ≡ none
  pub on_failure : (step_by_id steps h).when ≡ on_failed
  pub needs : In k (step_by_id steps h).needs

is_on_failed-eq : (a : Admission) → is_on_failed a ≡ true → a ≡ on_failed
is_on_failed-eq on_failed h = refl
is_on_failed-eq on_succeeded h = absurd (ground (arith, h))
is_on_failed-eq on_finished h = absurd (ground (arith, h))

pub is_fallback-parts :
    (k : String) (s : Step) (m : Assoc Outcome)
    → is_fallback k s m ≡ true
    → (lookup s.id m ≡ none) × (s.when ≡ on_failed) × In k s.needs
unfolding is_fallback
is_fallback-parts k s m h = elim (Option-cases (lookup s.id m)) [
  | inr (o, e) ↦ absurd (ground (arith, rw (e, is_fallback) at h))
  | inl e ↦
      let c : (is_on_failed s.when && contains s.needs k) ≡ true = rw (e, is_fallback) at h in
      (e, is_on_failed-eq s.when (ground (arith, c)), contains→In s.needs k (ground (arith, c)))
]

-- The fallbacks that are looked up for a failed step wait for it.
pub handlers-Waits :
    (ss steps : List Step) (m : Assoc Outcome) (k h : String)
    → Distinct (ids_of steps)
    → ((s : Step) → StepIn s ss → StepIn s steps)
    → In h (failure_handlers_for k ss m)
    → Waits steps m k h
unfolding failure_handlers_for
handlers-Waits [] steps m k h d sub i = elim i [ ]
handlers-Waits (s ∷ ss) steps m k h d sub i =
    let rest = handlers-Waits ss steps m k h d (λ t j. sub t (inr j)) in
    elim (Bool-cases (is_fallback k s m)) [
      | inr c ↦ rest (rw (c, failure_handlers_for) at i)
      | inl c ↦
          let j : (h ≡ s.id) ⊎ In h (failure_handlers_for k ss m) =
            rw (c, failure_handlers_for) at i in
          elim j [
            | inr l ↦ rest l
            | inl q ↦
                let (e, when, n) = is_fallback-parts k s m c in
                let self : step_by_id steps h ≡ s =
                  ap (step_by_id steps) q ∙ step_by_id_self steps s d (sub s (inl refl)) in
                record {
                  free = subst (λ x. lookup x m ≡ none) (sym q) e;
                  on_failure = ap (λ x. x.when) self ∙ when;
                  needs = subst (λ x. In k x.needs) (sym self) n;
                }
          ]
    ]

-- A fallback with a failed need is not skipped.
pub waiting_not_skipped :
    (steps : List Step) (m : Assoc Outcome) (s : Step) (k h : String)
    → step_by_id steps s.id ≡ s
    → admission_verdict s m ≡ skip
    → lookup k m ≡ some failed
    → Waits steps m k h
    → h ≢ s.id
waiting_not_skipped steps m s k h self v l w q =
    let e : step_by_id steps h ≡ s = ap (step_by_id steps) q ∙ self in
    let admitted : admission_verdict s m ≡ admit =
      (admission_verdict-on_failed s m (ap (λ x. x.when) (sym e) ∙ w.on_failure)).1 (
        (λ u. let z : skip ≡ wait = sym v ∙ (admission_verdict-wait s m).1 u in cc),
        (k, subst (λ x. In k x.needs) e w.needs, l),
      ) in
    let z : skip ≡ admit = sym v ∙ admitted in cc

module _ {E : Type 0} where
  -- Each failure that is pending is of a step marked as failed, and has fallbacks left, all without
  -- an outcome.
  abbrev pub AreCaught : List Step → Assoc Outcome → Assoc (HandledFailure E) → Type 0
  AreCaught steps m = Entries m (Waits steps m)

  -- One step that is no fallback left gets an outcome.
  pub one-AreCaught :
      (steps : List Step) (m m' : Assoc Outcome) (id : String) (o : Outcome)
      (p : Assoc (HandledFailure E))
      → ((k : String) → lookup k m' ≡ (if str_eq id k then some o else lookup k m))
      → lookup id m ≡ none
      → Entries m (λ k h. Waits steps m k h × (h ≢ id)) p
      → AreCaught steps m' p
  one-AreCaught steps m m' id o p read free a =
      Entries-map m m' (λ k h. Waits steps m k h × (h ≢ id)) (Waits steps m') p
        (λ k l. elim (Bool-cases (str_eq id k)) [
          | inl e ↦
              let z : none ≡ some failed =
                sym (subst (λ x. lookup x m ≡ none) ((eq_iff id k).0 e) free) ∙ l in
              absurd (cc)
          | inr e ↦ read k ∙ rw e l
        ])
        (λ k h l (w, n). elim (Bool-cases (str_eq id h)) [
          | inl e ↦ absurd (n (sym ((eq_iff id h).0 e)))
          | inr e ↦ record {
            free = read h ∙ rw e w.free;
            on_failure = w.on_failure;
            needs = w.needs;
          }
        ])
        a

module _ {E R : Type 0} where
  pub catch-AreCaught :
      (w : Walk E R) (id : String) (steps : List Step) (f : Fault E)
      → Distinct (ids_of steps)
      → lookup id w.outcomes ≡ some failed
      → AreCaught steps w.outcomes w.pending
      → (catch w id steps f).1 ≡ none
      → AreCaught steps (catch w id steps f).0.outcomes (catch w id steps f).0.pending
  unfolding catch
  catch-AreCaught w id steps (untagged e) d l a n = absurd (ground (arith, n))
  catch-AreCaught w id steps (tagged k e) d l a n =
      resolve_catchable-Entries k e id steps w.outcomes (Waits steps w.outcomes) w.pending l
        (λ h i. handlers-Waits steps steps w.outcomes id h d (λ s j. j) i) a n
