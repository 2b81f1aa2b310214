-- ===== src/Flow/Rules/Nesting.antt =====
-- flow/definition.go: how deep New lets child workflows nest.
use mivia_ai_sdk.Base.{
  ℕ, suc, ◌<◌, ◌≤◌, ◌≡◌, ◌↔◌, refl, ◌⊎◌, inl, inr, List, none, arith, All, ltb, leb, subst, ap,
  Bool-cases,
}
use mivia_ai_sdk.Flow.Step.{Step, Sub, Subs, no_sub, child, nil, cons}
use mivia_ai_sdk.Flow.Graph.{reject, validate_depth, depth, deepest, too_deep}
use mivia_ai_sdk.Flow.Rules.{All-iff, each_iff}

-- The child workflow of one of the steps.
abbrev pub Holds : Subs → Sub → Type 0
Holds nil s = ⊥
Holds (cons t ts) s = (t ≡ s) ⊎ Holds ts s

-- A chain of `k` workflows, each the child of a step of the one before, that starts with a step's
-- own child.
pub data Chain : Sub → ℕ → Type 0 where
  enter : (c : Subs) → Chain (child c) 1
  deeper : (c : Subs) (s : Sub) (k : ℕ) → Holds c s → Chain s k → Chain (child c) (suc k)

Holds-le : (c : Subs) (s : Sub) → Holds c s → depth s ≤ deepest c
unfolding depth
Holds-le nil s h = elim h [ ]
Holds-le (cons t ts) s (inl e) = ground (arith, ap depth e)
Holds-le (cons t ts) s (inr h) = ground (arith, Holds-le ts s h)

Chain-le : (s : Sub) (k : ℕ) → Chain s k → k ≤ depth s
unfolding depth
Chain-le _ _ (enter c) = omega arith
Chain-le _ _ (deeper c s k h n) = omega (arith, Holds-le c s h, Chain-le s k n)

mutual
  unfolding depth

  -- A step with a child has a chain as long as its depth.
  depth-Chain : (s : Sub) → 1 ≤ depth s → Chain s (depth s)
  depth-Chain no_sub h = absurd (omega (arith, h))
  depth-Chain (child c) h = elim (Bool-cases (leb 1 (deepest c))) [
    | inl e ↦ let (s, i, n) = deepest-Chain c (ground (arith, e)) in deeper c s (deepest c) i n
    | inr e ↦ subst (λ k. Chain (child c) (suc k)) (ground (arith, e)) (enter c)
  ]

  deepest-Chain : (c : Subs) → 1 ≤ deepest c → (s : Sub) × Holds c s × Chain s (deepest c)
  deepest-Chain nil h = absurd (omega (arith, h))
  deepest-Chain (cons s ss) h = elim (Bool-cases (ltb (deepest ss) (depth s))) [
    | inl e ↦
        let d : depth s ≡ deepest (cons s ss) = ground (arith, e) in
        (s, inl refl, subst (Chain s) d (depth-Chain s (ground (arith, e))))
    | inr e ↦
        let d : deepest ss ≡ deepest (cons s ss) = ground (arith, e) in
        let (t, i, n) = deepest-Chain ss (omega (arith, d, h)) in (t, inr i, subst (Chain t) d n)
  ]

-- The test of a step accepts exactly where each chain is short.
reject-depth_iff :
    (s : Step) → (reject (ltb 8 (depth s.sub)) too_deep ≡ none) ↔ ((k : ℕ) → Chain s.sub k → k ≤ 8)
unfolding reject
reject-depth_iff s = (
  (λ h k n. ground (arith, h, Chain-le s.sub k n)),
  (λ f. elim (Bool-cases (ltb 8 (depth s.sub))) [
    | inl e ↦
        let big : 8 < depth s.sub = ground (arith, e) in
        absurd (omega (arith, f (depth s.sub) (depth-Chain s.sub (omega (arith, big))), big))
    | inr e ↦ rw (e, reject) refl
  ]),
)

-- The depth check of New accepts exactly the graphs in which no chain of nested child workflows,
-- each the child of a step of the one before, has more than eight members.
pub validate_depth_iff :
    (steps : List Step)
    → (validate_depth steps ≡ none) ↔ All (λ s. (k : ℕ) → Chain s.sub k → k ≤ 8) steps
unfolding validate_depth
validate_depth_iff steps =
    let (a, b) = each_iff (λ s. reject (ltb 8 (depth s.sub)) too_deep) steps in
    let (c, d) = All-iff steps reject-depth_iff in ((λ h. c (a h)), (λ h. b (d h)))
