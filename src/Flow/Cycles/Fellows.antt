-- ===== src/Flow/Cycles/Fellows.antt =====
-- flow/definition.go and flow/validate.go: what New and validatePanelIndependence accept.
use mivia_ai_sdk.Base.{
  ℕ, suc, ◌<◌, ◌≡◌, ◌≢◌, ◌↔◌, refl, sym, subst, inl, inr, String, List, [], ◌∷◌, false, none, some,
  eq_iff, length, contains→In, In→contains, All, In, Bool-cases, Option-cases, arith, lookup,
}
use mivia_ai_sdk.Flow.Step.{Step}
use mivia_ai_sdk.Flow.Graph.{Fault, ids_of, check_rules}
use mivia_ai_sdk.Flow.Rules.{AreKnown}
use mivia_ai_sdk.Flow.Rules.Members.{check_rules-IsGraph}
use mivia_ai_sdk.Flow.Cycles.{
  Memo, Checked, accepted, rejected, exhausted, needs_fellow, check_fellows, validate_independence,
  find_roots, new,
}
use mivia_ai_sdk.Flow.Cycles.Search.{IsOrder, IsAcyclic}
use mivia_ai_sdk.Flow.Cycles.Order.{find_roots_iff, find_roots-IsOrder}
use mivia_ai_sdk.Flow.Cycles.Closure.{Needs, IsMemo, ancestors_of-Finds}

-- The step needs no other one of the panel.
abbrev pub IsApart : List Step → List String → String → Type 0
IsApart steps p id = (other : String) → In other p → other ≢ id → ¬ Needs steps id other

-- No member of a panel needs another one.
abbrev pub AreApart : List Step → List (List String) → Type 0
AreApart steps = All (λ p. All (IsApart steps p) p)

-- What a check tells of `P`: it ends, it accepts where `P` holds, with a result that has `Q`, and it
-- rejects where `P` does not hold.
pub data Tells {A : Type 0} (P : Type 0) (Q : A → Type 0) : Checked A → Type 0 where
  accepts : {a : A} → P → Q a → Tells P Q (accepted a)
  rejects : {e : Fault} → ¬ P → Tells P Q (rejected e)

and_rest : {A P R : Type 0} {Q : A → Type 0} (c : Checked A) → P → Tells R Q c → Tells (P × R) Q c
and_rest _ p (accepts r q) = accepts (p, r) q
and_rest _ p (rejects n) = rejects (λ h. n h.1)

needs_fellow_iff :
    (id : String) (p found : List String)
    → (needs_fellow id p found ≡ false)
      ↔ ((other : String) → In other p → other ≢ id → ¬ In other found)
unfolding needs_fellow
needs_fellow_iff id [] found = ((λ h other i. elim i [ ]), (λ h. refl))
needs_fellow_iff id (x ∷ p) found =
    let (a, b) = needs_fellow_iff id p found in
    (
      (λ h other i n k. elim i [
        | inl e ↦ ground (
          arith,
          In→contains found x (subst (λ z. In z found) e k),
          (eq_iff x id).0,
          λ (q : x ≡ id). n (subst (λ z. z ≡ id) (sym e) q),
        )
        | inr j ↦ a (ground arith) other j n k
      ]),
      (λ h. ground (
        arith,
        eq_iff x id,
        contains→In found x,
        h x (inl refl),
        b (λ other i n. h other (inr i) n),
      )),
    )

module _ (steps : List Step) (order : List String) (o : IsOrder steps order) (f : ℕ)
    (l : length order < f) where
  check_fellows-Tells :
      (p ms : List String) (memo : Memo)
      → All (λ id. In id order) ms
      → IsMemo steps memo
      → Tells (All (IsApart steps p) ms) (IsMemo steps) (check_fellows f steps p ms memo)
  unfolding check_fellows
  check_fellows-Tells p [] memo k m = accepts tt m
  check_fellows-Tells p (id ∷ ms) memo k m =
      let (r, e, found, m') = ancestors_of-Finds order f id memo o k.0 l m in
      let (a, b) = needs_fellow_iff id p r.0 in
      elim (Bool-cases (needs_fellow id p r.0)) [
        | inl q ↦
            rw (e, check_fellows, q)
              (rejects
                (λ h. ground (arith, b (λ other i n j. h.0 other i n ((found other).0 j)), q)))
        | inr q ↦
            rw (e, check_fellows, q)
              (and_rest (check_fellows f steps p ms r.1)
                (λ other i n j. a q other i n ((found other).1 j))
                (check_fellows-Tells p ms r.1 k.1 m'))
      ]

  validate_independence-Tells :
      (panels : List (List String)) (memo : Memo)
      → All (λ p. All (λ id. In id order) p) panels
      → IsMemo steps memo
      → Tells (AreApart steps panels) (IsMemo steps) (validate_independence f steps panels memo)
  unfolding validate_independence
  validate_independence-Tells [] memo k m = accepts tt m
  validate_independence-Tells (p ∷ ps) memo k m =
      next_panel (check_fellows f steps p p memo) (check_fellows-Tells p p memo k.0 m)
        (λ memo' m'. validate_independence-Tells ps memo' k.1 m')
    where
      next_panel :
          (c : Checked Memo)
          → Tells (All (IsApart steps p) p) (IsMemo steps) c
          → ((memo' : Memo)
              → IsMemo steps memo'
              → Tells (AreApart steps ps) (IsMemo steps) (validate_independence f steps ps memo'))
          → Tells (AreApart steps (p ∷ ps)) (IsMemo steps) (elim c [
            | accepted memo' ↦ validate_independence f steps ps memo'
            | rejected e ↦ rejected e
            | exhausted ↦ exhausted
          ])
      next_panel (accepted memo') (accepts h q) t = and_rest _ h (t memo' q)
      next_panel (rejected e) (rejects n) t = rejects (λ h. n h.0)
      next_panel exhausted n t = elim n [ ]

built :
    {A B P M R : Type 0} {Q : M → Type 0} {S : R → Type 0} (roots : R) (c : Checked M)
    → A
    → B
    → S roots
    → Tells P Q c
    → Tells (A × B × P) S (elim c [
      | accepted memo ↦ accepted roots
      | rejected e ↦ rejected e
      | exhausted ↦ exhausted
    ])
built roots (accepted memo) a b r (accepts h q) = accepts (a, b, h) r
built roots (rejected e) a b r (rejects n) = rejects (λ h. n h.2)
built roots exhausted a b r n = elim n [ ]

-- New accepts a definition exactly where its rules hold, the graph has no cycle, and no member of a
-- panel needs another one, directly or through other steps; the definition has the roots that the
-- search for a cycle found. It never walks a closure without an end.
pub new-Tells :
    (steps : List Step) (panels : List (List String))
    → Tells
        ((check_rules steps panels ≡ none) × IsAcyclic steps × AreApart steps panels)
        (λ roots. find_roots steps ≡ some roots)
        (new steps panels)
unfolding new
new-Tells steps panels = elim (Option-cases (check_rules steps panels)) [
  | inr (x, e) ↦ rw (e, new) (rejects (λ h. ground (arith, h.0)))
  | inl e ↦
      let (g, known) = check_rules-IsGraph steps panels e in
      let (to, from) = find_roots_iff steps g in
      elim (Option-cases (find_roots steps)) [
        | inl q ↦ rw (e, q, new) (rejects (λ h. from h.1 q))
        | inr (roots, q) ↦
            let found : find_roots steps ≢ none = λ n. ground arith in
            let (order, o, all, l) = find_roots-IsOrder steps g found in
            rw (e, q, new)
              (built roots _ refl (to found) refl (
                validate_independence-Tells steps order o (suc (length steps)) (omega arith) panels
                  [] (in_order panels order all known)
                  (λ id a b. absurd (unfold lookup in ground arith))))
      ]
]
  where
    in_order :
        (ps : List (List String)) (order : List String)
        → ((id : String) → In id (ids_of steps) → In id order)
        → AreKnown steps ps
        → All (λ p. All (λ id. In id order) p) ps
    in_order [] order all k = tt
    in_order (p ∷ ps) order all k = (members p k.0, in_order ps order all k.1)
      where
        members :
            (ms : List String) → All (λ id. In id (ids_of steps)) ms → All (λ id. In id order) ms
        members [] k = tt
        members (x ∷ xs) k = (all x k.0, members xs k.1)
