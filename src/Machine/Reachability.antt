-- ===== src/Machine/Reachability.antt =====
-- machine/definition.go, Validate: the fixpoint loop ends within its passes and finds exactly the
-- statuses that the table reaches; Validate accepts exactly the tables that follow the rules.
use mivia_ai_sdk.Base.{
  ℕ, zero, suc, ◌+◌, ◌≤◌, ◌<◌, ◌≡◌, ◌↔◌, refl, sym, ap, subst, ◌∙◌, ◌⊎◌, inl, inr, String, List, [],
  ◌∷◌, Bool, true, false, ◌&&◌, ◌||◌, not, some, str_eq, eq_iff, str_eq_refl, contains, length,
  if◌then◌else◌, Bool-cases, arith,
}
use mivia_ai_sdk.Machine.{Transition, Definition, reach_pass, reach_loop, reachable}

abbrev unreached_one : Bool → ℕ
unreached_one true = 0
unreached_one false = 1

abbrev Below : List String → List String → Type 0
Below r r' = (x : String) → contains r x ≡ true → contains r' x ≡ true

contains-cons_self : (a : String) (l : List String) → contains (a ∷ l) a ≡ true
unfolding contains
contains-cons_self a l = ground (arith, str_eq_refl a)

contains-cons :
    (a : String) (l : List String) (x : String) → contains l x ≡ true → contains (a ∷ l) x ≡ true
unfolding contains
contains-cons a l x k = ground arith

module _ {E R : Type 0} where
  abbrev pub RowIn : Transition E R → List (Transition E R) → Type 0
  RowIn t [] = ⊥
  RowIn t (u ∷ us) = (t ≡ u) ⊎ RowIn t us

  -- The statuses that rows of the table lead to, from `a`.
  pub data Reach (ts : List (Transition E R)) (a : String) : String → Type 0 where
    start : Reach ts a a
    move :
        (t : Transition E R) (s : String) → RowIn t ts → Reach ts a t.from → t.to ≡ s → Reach ts a s

  -- How many rows have a target that is not reached.
  unreached : List (Transition E R) → List String → ℕ
  unreached [] reached = 0
  unreached (t ∷ ts) reached = unreached_one (contains reached t.to) + unreached ts reached

  unreached_mono :
      (ts : List (Transition E R)) (r r' : List String)
      → Below r r'
      → unreached ts r' ≤ unreached ts r
  unfolding unreached
  unreached_mono [] r r' h = omega arith
  unreached_mono (t ∷ ts) r r' h = ground (arith, h t.to, unreached_mono ts r r' h)

  unreached-le : (ts : List (Transition E R)) (r : List String) → unreached ts r ≤ length ts
  unfolding unreached
  unreached-le [] r = omega arith
  unreached-le (t ∷ ts) r = ground (arith, unreached-le ts r)

  reach_pass-Below :
      (ts : List (Transition E R)) (r : List String) (c : Bool) → Below r (reach_pass ts r c).0
  unfolding reach_pass contains
  reach_pass-Below [] r c x h = h
  reach_pass-Below (t ∷ ts) r c x h =
      reach_pass-Below ts _ _ x (grown (contains r t.from && not (contains r t.to)))
    where
      grown : (b : Bool) → contains (if b then t.to ∷ r else r) x ≡ true
      grown true = ground arith
      grown false = h

  abbrev fires : Transition E R → List String → Bool
  fires t r = contains r t.from && not (contains r t.to)

  reach_pass-fires :
      (t : Transition E R) (ts : List (Transition E R)) (r : List String) (c : Bool)
      → fires t r ≡ true
      → reach_pass (t ∷ ts) r c ≡ reach_pass ts (t.to ∷ r) true
  unfolding reach_pass
  reach_pass-fires t ts r c e = ap (λ b. reach_pass ts (if b then t.to ∷ r else r) (b || c)) e

  reach_pass_skips :
      (t : Transition E R) (ts : List (Transition E R)) (r : List String) (c : Bool)
      → fires t r ≡ false
      → reach_pass (t ∷ ts) r c ≡ reach_pass ts r c
  unfolding reach_pass
  reach_pass_skips t ts r c e = ap (λ b. reach_pass ts (if b then t.to ∷ r else r) (b || c)) e

  -- A pass keeps `changed` once it is set.
  reach_pass_changed :
      (ts : List (Transition E R)) (r : List String) → (reach_pass ts r true).1 ≡ true
  unfolding reach_pass
  reach_pass_changed [] r = refl
  reach_pass_changed (t ∷ ts) r = elim (Bool-cases (fires t r)) [
    | inl e ↦ ap (λ p. p.1) (reach_pass-fires t ts r true e) ∙ reach_pass_changed ts (t.to ∷ r)
    | inr e ↦ ap (λ p. p.1) (reach_pass_skips t ts r true e) ∙ reach_pass_changed ts r
  ]

  -- A pass that changes something leaves fewer rows with a target that is not reached.
  reach_pass-lt :
      (ts : List (Transition E R)) (r : List String)
      → (reach_pass ts r false).1 ≡ true
      → unreached ts (reach_pass ts r false).0 < unreached ts r
  unfolding unreached
  reach_pass-lt [] r h = absurd (unfold reach_pass in (ground arith))
  reach_pass-lt (t ∷ ts) r h = elim (Bool-cases (fires t r)) [
    | inl e ↦
        subst (λ p. unreached (t ∷ ts) p.0 < unreached (t ∷ ts) r)
          (sym (reach_pass-fires t ts r false e))
          (ground (
            arith,
            reach_pass-Below ts (t.to ∷ r) true t.to (contains-cons_self t.to r),
            unreached_mono ts r (reach_pass ts (t.to ∷ r) true).0
                (λ x hx. reach_pass-Below ts (t.to ∷ r) true x (contains-cons t.to r x hx)),
          ))
    | inr e ↦
        subst (λ p. unreached (t ∷ ts) p.0 < unreached (t ∷ ts) r)
          (sym (reach_pass_skips t ts r false e))
          (ground (
            arith,
            reach_pass-lt ts r (subst (λ p. p.1 ≡ true) (reach_pass_skips t ts r false e) h),
            reach_pass-Below ts r false t.to,
          ))
  ]

  -- A pass that changes nothing leaves a set that every row keeps closed.
  reach_pass-closed :
      (ts : List (Transition E R)) (r : List String)
      → (reach_pass ts r false).1 ≡ false
      → ((reach_pass ts r false).0 ≡ r)
        × ((t : Transition E R) → RowIn t ts → contains r t.from ≡ true → contains r t.to ≡ true)
  unfolding reach_pass
  reach_pass-closed [] r h = (refl, λ t i _. elim i [ ])
  reach_pass-closed (u ∷ ts) r h = elim (Bool-cases (fires u r)) [
    | inl e ↦ absurd (
        ground (
          arith,
          reach_pass_changed ts (u.to ∷ r),
          subst (λ p. p.1 ≡ false) (reach_pass-fires u ts r false e) h,
        ))
    | inr e ↦
        let (a, b) =
          reach_pass-closed ts r (subst (λ p. p.1 ≡ false) (reach_pass_skips u ts r false e) h) in
        (
          ap (λ p. p.0) (reach_pass_skips u ts r false e) ∙ a,
          λ t i f. elim i [
            | inl q ↦
                subst (λ v. contains r v.to ≡ true) (sym q)
                  (closed_here (subst (λ v. contains r v.from ≡ true) q f) e)
            | inr i' ↦ b t i' f
          ],
        )
  ]
    where
      closed_here :
          contains r u.from ≡ true
          → (contains r u.from && not (contains r u.to)) ≡ false
          → contains r u.to ≡ true
      closed_here f e = ground arith

  -- A pass reaches only what the table leads to.
  reach_pass-Reach :
      (all : List (Transition E R)) (a : String) (ts : List (Transition E R)) (r : List String)
      (c : Bool)
      → ((t : Transition E R) → RowIn t ts → RowIn t all)
      → ((x : String) → contains r x ≡ true → Reach all a x)
      → (x : String) → contains (reach_pass ts r c).0 x ≡ true
      → Reach all a x
  unfolding reach_pass
  reach_pass-Reach all a [] r c sub h x k = h x k
  reach_pass-Reach all a (t ∷ ts) r c sub h x k =
      reach_pass-Reach all a ts _ _ (λ u i. sub u (inr i))
        (grown (contains r t.from && not (contains r t.to)) refl) x k
    where
      grown :
          (b : Bool)
          → (contains r t.from && not (contains r t.to)) ≡ b
          → (y : String) → contains (if b then t.to ∷ r else r) y ≡ true
          → Reach all a y
      grown false e y q = h y q
      grown true e y q = elim (Bool-cases (str_eq t.to y)) [
        | inl s ↦ move t y (sub t (inl refl)) (h t.from (ground arith)) ((eq_iff t.to y).0 s)
        | inr s ↦ h y (unfold contains in (rw (s, contains) at q))
      ]

  abbrev Reaches : List (Transition E R) → String → List String → Type 0
  Reaches ts a r = (s : String) → (contains r s ≡ true) ↔ Reach ts a s

  closed-Reach :
      (ts : List (Transition E R)) (a : String) (r : List String)
      → ((t : Transition E R) → RowIn t ts → contains r t.from ≡ true → contains r t.to ≡ true)
      → contains r a ≡ true
      → (s : String) → Reach ts a s
      → contains r s ≡ true
  closed-Reach ts a r cl h _ start = h
  closed-Reach ts a r cl h s (move t _ i p e) =
      subst (λ v. contains r v ≡ true) e (cl t i (closed-Reach ts a r cl h t.from p))

  reach_loop-Reaches :
      (f : ℕ) (ts : List (Transition E R)) (a : String) (r : List String)
      → unreached ts r < f
      → contains r a ≡ true
      → ((x : String) → contains r x ≡ true → Reach ts a x)
      → (r' : List String) × (reach_loop f ts r ≡ some r') × Reaches ts a r'
  unfolding reach_loop
  reach_loop-Reaches zero ts a r m h s = absurd (omega arith)
  reach_loop-Reaches (suc f) ts a r m h s =
      let r' = (reach_pass ts r false).0 in
      let sound = reach_pass-Reach ts a ts r false (λ t i. i) s in
      elim (Bool-cases (reach_pass ts r false).1) [
        | inl e ↦
            let (l, eq, rest) =
              reach_loop-Reaches f ts a r' (omega (arith, reach_pass-lt ts r e))
                (reach_pass-Below ts r false a h) sound in
            (l, rw (e, reach_loop) eq, rest)
        | inr e ↦
            let (same, closed) = reach_pass-closed ts r e in
            (
              r',
              rw (e, reach_loop) refl,
              λ x. (sound x, λ p. reach_pass-Below ts r false x (closed-Reach ts a r closed h x p)),
            )
      ]

  -- The loop of Validate ends within one pass more than the table has rows, and the set that it
  -- finds holds exactly the statuses to which rows lead from the initial one.
  pub reachable-Reach :
      (d : Definition E R)
      → (r : List String) × (reachable d ≡ some r)
        × ((s : String) → (contains r s ≡ true) ↔ Reach d.transitions d.initial s)
  unfolding reachable
  reachable-Reach d =
      reach_loop-Reaches (length d.transitions + 1) d.transitions d.initial (d.initial ∷ [])
        (omega (arith, unreached-le d.transitions (d.initial ∷ [])))
        (unfold contains in ground (arith, str_eq_refl d.initial))
        (λ x h. only x (unfold contains in h))
    where
      only : (x : String) → (str_eq d.initial x || false) ≡ true → Reach d.transitions d.initial x
      only x h = subst (Reach d.transitions d.initial) ((eq_iff d.initial x).0 (ground arith)) start
