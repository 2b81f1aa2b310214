-- ===== src/Flow/Cycles/Counts.antt =====
-- flow/validate.go: the counts of the cycle search.
use mivia_ai_sdk.Base.{
  ℕ, ◌+◌, ◌-◌, ◌≡◌, refl, sym, subst, inl, inr, String, List, [], ◌∷◌, true, false, ◌&&◌, not,
  eq_iff, if◌then◌else◌, ◌==◌, length, contains, contains→In, In→contains, contains-false, not-In,
  In, Bool-cases, arith,
}
use mivia_ai_sdk.Base.Keys.{Distinct}
use mivia_ai_sdk.Flow.Step.{Step, step_by_id, direct_dependents}
use mivia_ai_sdk.Flow.Graph.{ids_of}
use mivia_ai_sdk.Flow.Cycles.{dedup, set_at, relax, next_of}

pub contains-dedup :
    (seen ns : List String) (v : String)
    → contains (dedup seen ns) v ≡ (contains ns v && not (contains seen v))
unfolding dedup contains
contains-dedup seen [] v = refl
contains-dedup seen (n ∷ ns) v = elim (Bool-cases (contains seen n)) [
  | inl e ↦ rw (e, dedup) (ground (arith, contains-dedup seen ns v, eq_iff n v, e))
  | inr e ↦ rw (e, dedup) (ground (arith, contains-dedup (n ∷ seen) ns v, eq_iff n v, e))
]

pub dedup-Distinct : (seen ns : List String) → Distinct (dedup seen ns)
unfolding dedup
dedup-Distinct seen [] = tt
dedup-Distinct seen (n ∷ ns) = elim (Bool-cases (contains seen n)) [
  | inl e ↦ rw (e, dedup) (dedup-Distinct seen ns)
  | inr e ↦
      rw (e, dedup)
        (
          not-In (dedup (n ∷ seen) ns) n
              (unfold contains in ground (arith, contains-dedup (n ∷ seen) ns n, eq_iff n n)),
          dedup-Distinct (n ∷ seen) ns,
        )
]

-- How many of the needs are not done.
unfoldable pub missing : List String → List String → ℕ
missing done [] = 0
missing done (n ∷ ns) = (if contains done n then 0 else 1) + missing done ns

pub missing-none : (ns : List String) → missing [] ns ≡ length ns
unfolding missing contains
missing-none [] = refl
missing-none (n ∷ ns) = omega (arith, missing-none ns)

pub missing_zero :
    (done ns : List String) → missing done ns ≡ 0 → (n : String) → In n ns → In n done
unfolding missing
missing_zero done [] h n i = elim i [ ]
missing_zero done (x ∷ xs) h n i = elim i [
  | inl e ↦ contains→In done n (subst (λ y. contains done y ≡ true) (sym e) (ground arith))
  | inr j ↦ missing_zero done xs (ground arith) n j
]

pub zero_missing :
    (done ns : List String) → ((n : String) → In n ns → In n done) → missing done ns ≡ 0
unfolding missing
zero_missing done [] h = refl
zero_missing done (x ∷ xs) h =
    ground (arith, In→contains done x (h x (inl refl)), zero_missing done xs (λ n i. h n (inr i)))

-- A further ID is done: the number falls by one where it is a need.
pub missing-cons :
    (done : List String) (v : String) (ns : List String)
    → Distinct ns
    → contains done v ≡ false
    → missing (v ∷ done) ns + (if contains ns v then 1 else 0) ≡ missing done ns
unfolding missing contains
missing-cons done v [] d h = refl
missing-cons done v (n ∷ ns) d h =
    ground (arith, missing-cons done v ns d.1 h, eq_iff n v, eq_iff v n, contains-false ns n d.0, h)

pub relax-counts :
    (ts : List String) (f : String → ℕ) (id : String)
    → Distinct ts
    → (relax ts f).1 id ≡ (if contains ts id then f id - 1 else f id)
unfolding relax contains
relax-counts [] f id d = refl
relax-counts (t ∷ ts) f id d =
    ground
      (arith, relax-counts ts (set_at t (f t - 1) f) id d.1, eq_iff t id, contains-false ts t d.0)

-- What `relax` appends: the IDs whose count falls to zero.
pub relax-news :
    (ts : List String) (f : String → ℕ) (id : String)
    → Distinct ts
    → contains (relax ts f).0 id ≡ (contains ts id && (f id - 1 == 0))
unfolding relax contains
relax-news [] f id d = refl
relax-news (t ∷ ts) f id d =
    ground
      (arith, relax-news ts (set_at t (f t - 1) f) id d.1, eq_iff t id, contains-false ts t d.0)

pub news-Distinct : (ts : List String) (f : String → ℕ) → Distinct ts → Distinct (relax ts f).0
unfolding relax
news-Distinct [] f d = tt
news-Distinct (t ∷ ts) f d =
    let rest = news-Distinct ts (set_at t (f t - 1) f) d.1 in
    elim (Bool-cases (f t - 1 == 0)) [
      | inl e ↦ rw e (
        not-In (relax ts (set_at t (f t - 1) f)).0 t
            (ground (arith, relax-news ts (set_at t (f t - 1) f) t d.1, contains-false ts t d.0)),
        rest,
      )
      | inr e ↦ rw e rest
    ]

-- The steps that `next` holds for a step are those that need it.
pub contains-next_of :
    (steps : List Step) (v id : String)
    → Distinct (ids_of steps)
    → contains (next_of steps v) id
      ≡ (contains (ids_of steps) id && contains (step_by_id steps id).needs v)
unfolding next_of direct_dependents step_by_id contains
contains-next_of [] v id d = refl
contains-next_of (s ∷ ss) v id d =
    ground
      (arith, contains-next_of ss v id d.1, eq_iff s.id id, contains-false (ids_of ss) s.id d.0)

pub next_of-Distinct :
    (steps : List Step) (v : String) → Distinct (ids_of steps) → Distinct (next_of steps v)
unfolding next_of direct_dependents
next_of-Distinct [] v d = tt
next_of-Distinct (s ∷ ss) v d = elim (Bool-cases (contains s.needs v)) [
  | inl e ↦
      rw (e, direct_dependents)
        (
          not-In (next_of ss v) s.id
              (ground (arith, contains-next_of ss v s.id d.1, contains-false (ids_of ss) s.id d.0)),
          next_of-Distinct ss v d.1,
        )
  | inr e ↦ rw (e, direct_dependents) (next_of-Distinct ss v d.1)
]
