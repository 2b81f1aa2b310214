-- ===== src/Flow/Cycles/Closure.antt =====
-- flow/validate.go: what ancestorsOf finds.
use mathlib.Core.Option.{some_inj}
use mivia_ai_sdk.Base.{
  ℕ, zero, suc, ◌<◌, ◌≡◌, ◌↔◌, ◌⊎◌, refl, sym, ◌∙◌, subst, inl, inr, String, List, [], ◌∷◌, ◌++◌,
  some, Option, str_eq, eq_iff, length, In, In-append, In-append_left, In-append_right, Bool-cases,
  Option-cases, arith, lookup, insert, lookup-insert,
}
use mivia_ai_sdk.Flow.Step.{Step}
use mivia_ai_sdk.Flow.Cycles.{Memo, ancestors_of, ancestors_of_all}
use mivia_ai_sdk.Flow.Cycles.Search.{needs_of, IsOrder}

-- The step `id` needs `a`, directly or through another step.
pub data Needs (steps : List Step) : String → String → Type 0 where
  direct : {id a : String} → In a (needs_of steps id) → Needs steps id a
  through : {id n a : String} → In n (needs_of steps id) → Needs steps n a → Needs steps id a

abbrev pub AreAncestors : List Step → String → List String → Type 0
AreAncestors steps id found = (a : String) → In a found ↔ Needs steps id a

abbrev pub IsMemo : List Step → Memo → Type 0
IsMemo steps memo =
    (id : String) (found : List String) → lookup id memo ≡ some found → AreAncestors steps id found

-- A walk from `id` succeeds with the ancestors.
abbrev pub Finds : List Step → String → Option (List String × Memo) → Type 0
Finds steps id o =
    (r : List String × Memo) × (o ≡ some r) × AreAncestors steps id r.0 × IsMemo steps r.1

abbrev OfSome : List Step → List String → List String → Type 0
OfSome steps ns found =
    (a : String) → In a found ↔ ((n : String) × In n ns × ((a ≡ n) ⊎ Needs steps n a))

module _ {steps : List Step} where
  ancestors_of_all-OfSome :
      (walk : String → Memo → Option (List String × Memo)) (ns : List String) (memo : Memo)
      → ((n : String) → In n ns → (m : Memo) → IsMemo steps m → Finds steps n (walk n m))
      → IsMemo steps memo
      → (r : List String × Memo) × (ancestors_of_all walk ns memo ≡ some r)
        × OfSome steps ns r.0
        × IsMemo steps r.1
  unfolding ancestors_of_all
  ancestors_of_all-OfSome walk [] memo h m =
      (([], memo), refl, (λ a. ((λ i. elim i [ ]), (λ (n, i, e). elim i [ ]))), m)
  ancestors_of_all-OfSome walk (n ∷ ns) memo h m =
      let (a, ea, fa, ma) = h n (inl refl) memo m in
      let (b, eb, fb, mb) = ancestors_of_all-OfSome walk ns a.1 (λ x i. h x (inr i)) ma in
      (
        (n ∷ a.0 ++ b.0, b.1),
        rw (ea, ancestors_of_all, eb) refl,
        (λ x. (
          (λ i. elim i [
            | inl e ↦ (n, inl refl, inl e)
            | inr j ↦ elim (In-append x a.0 b.0 j) [
              | inl k ↦ (n, inl refl, inr ((fa x).0 k))
              | inr k ↦ let (y, i', e) = (fb x).0 k in (y, inr i', e)
            ]
          ]),
          (λ (y, i, e). elim i [
            | inl q ↦ elim e [
              | inl e' ↦ inl (e' ∙ q)
              | inr k ↦ inr (In-append_left x a.0 b.0 ((fa x).1 (subst (λ z. Needs steps z x) q k)))
            ]
            | inr j ↦ inr (In-append_right x a.0 b.0 ((fb x).1 (y, j, e)))
          ]),
        )),
        mb,
      )

  of_needs :
      (id : String) (found : List String)
      → OfSome steps (needs_of steps id) found
      → AreAncestors steps id found
  of_needs id found h a = (
    (λ i.
        let (n, j, e) = (h a).0 i in
        elim e [
          | inl q ↦ direct (subst (λ z. In z (needs_of steps id)) (sym q) j)
          | inr k ↦ through j k
        ]),
    (λ k. elim k [ direct j ↦ (h a).1 (a, j, inl refl) | through j k' ↦ (h a).1 (_, j, inr k') ]),
  )

  IsMemo-insert :
      (id : String) (found : List String) (memo : Memo)
      → AreAncestors steps id found
      → IsMemo steps memo
      → IsMemo steps (insert id found memo)
  IsMemo-insert id found memo h m k other e = elim (Bool-cases (str_eq id k)) [
    | inl q ↦
        let e' = sym (lookup-insert id k found memo) ∙ e in
        subst (λ z. AreAncestors steps z other) ((eq_iff id k).0 q)
          (subst (AreAncestors steps id) (some_inj.0 (rw q at e')) h)
    | inr q ↦ let e' = sym (lookup-insert id k found memo) ∙ e in m k other (rw q at e')
  ]

  -- With more fuel than the order is long, the walk from a step of the order finds its ancestors.
  pub ancestors_of-Finds :
      (order : List String) (f : ℕ) (id : String) (memo : Memo)
      → IsOrder steps order
      → In id order
      → length order < f
      → IsMemo steps memo
      → Finds steps id (ancestors_of f steps id memo)
  unfolding ancestors_of
  ancestors_of-Finds [] f id memo o i l m = elim i [ ]
  ancestors_of-Finds (v ∷ earlier) zero id memo o i l m = absurd (omega arith)
  ancestors_of-Finds (v ∷ earlier) (suc f) id memo o (inr i) l m =
      ancestors_of-Finds earlier (suc f) id memo o.1 i (omega arith) m
  ancestors_of-Finds (v ∷ earlier) (suc f) id memo o (inl e) l m =
      elim (Option-cases (lookup id memo)) [
        | inr (found, q) ↦ ((found, memo), rw (q, ancestors_of) refl, m id found q, m)
        | inl q ↦
            let (r, er, fr, mr) =
              ancestors_of_all-OfSome (ancestors_of f steps) (needs_of steps id) memo
                (λ n i m' h.
                  ancestors_of-Finds earlier f n m' o.1
                    (o.0 n (subst (λ z. In n (needs_of steps z)) e i)) (omega arith) h)
                m in
            (
              (r.0, insert id r.0 r.1),
              rw (q, ancestors_of, er) refl,
              of_needs id r.0 fr,
              IsMemo-insert id r.0 r.1 (of_needs id r.0 fr) mr,
            )
      ]
