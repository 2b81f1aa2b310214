-- ===== src/Plan/Compact/Parts.antt =====
-- context/plan/compact.go: how the marks of Compact divide the units of a history.
use mathlib.Core.Option.{some_inj}
use mivia_ai_sdk.Base.{
  ℕ, ◌+◌, ◌≡◌, refl, ◌∙◌, ap, subst, inl, inr, String, List, [], ◌∷◌, ◌++◌, Bool, true, false,
  Option, some, length, str_eq, Bool-cases, Option-cases, arith,
}
use mivia_ai_sdk.Base.Int.{ℤ, pos, ltb_int}
use mivia_ai_sdk.Plan.{Message, role_system, role_user, has_role, is_complete}
use mivia_ai_sdk.Plan.Units.{concat}
use mivia_ai_sdk.Plan.Compact.{
  Marked, unmarked, mark_system, mark_named, any_unit, mark_last, select_mandatory,
  collect_selected, collect_dropped, put_back, fill_tail,
}

-- The third list holds the elements of the other two, each in its own order.
pub data IsMerge {A : Type 0} : List A → List A → List A → Type 0 where
  none_left : IsMerge [] [] []
  from_first : {x : A} {xs ys zs : List A} → IsMerge xs ys zs → IsMerge (x ∷ xs) ys (x ∷ zs)
  from_second : {y : A} {xs ys zs : List A} → IsMerge xs ys zs → IsMerge xs (y ∷ ys) (y ∷ zs)

module _ {C : Type 0} where
  abbrev pub units_of : List (Marked C) → List (List (Message C))
  units_of [] = []
  units_of (u ∷ us) = u.1 ∷ units_of us

  abbrev pub kept_units : List (Marked C) → List (List (Message C))
  kept_units [] = []
  kept_units ((true, u) ∷ us) = u ∷ kept_units us
  kept_units ((false, u) ∷ us) = kept_units us

  abbrev pub dropped_units : List (Marked C) → List (List (Message C))
  dropped_units [] = []
  dropped_units ((true, u) ∷ us) = dropped_units us
  dropped_units ((false, u) ∷ us) = u ∷ dropped_units us

  pub units-IsMerge :
      (us : List (Marked C)) → IsMerge (kept_units us) (dropped_units us) (units_of us)
  units-IsMerge [] = none_left
  units-IsMerge ((true, u) ∷ us) = from_first (units-IsMerge us)
  units-IsMerge ((false, u) ∷ us) = from_second (units-IsMerge us)

  pub collect_selected-concat :
      (us : List (Marked C)) → collect_selected us ≡ concat (kept_units us)
  unfolding collect_selected
  collect_selected-concat [] = refl
  collect_selected-concat ((true, u) ∷ us) = ap (λ xs. u ++ xs) (collect_selected-concat us)
  collect_selected-concat ((false, u) ∷ us) = collect_selected-concat us

  pub collect_dropped-concat :
      (us : List (Marked C)) → collect_dropped us ≡ concat (dropped_units us)
  unfolding collect_dropped
  collect_dropped-concat [] = refl
  collect_dropped-concat ((true, u) ∷ us) = collect_dropped-concat us
  collect_dropped-concat ((false, u) ∷ us) = ap (λ xs. u ++ xs) (collect_dropped-concat us)

  -- The same units, with no mark taken away.
  abbrev pub Grows : List (Marked C) → List (Marked C) → Type 0
  Grows [] [] = Unit
  Grows [] (v ∷ vs) = ⊥
  Grows (u ∷ us) [] = ⊥
  Grows (u ∷ us) (v ∷ vs) = (v.1 ≡ u.1) × (u.0 ≡ true → v.0 ≡ true) × Grows us vs

  pub Grows-refl : (us : List (Marked C)) → Grows us us
  Grows-refl [] = tt
  Grows-refl (u ∷ us) = (refl, (λ h. h), Grows-refl us)

  pub Grows-trans : (us vs ws : List (Marked C)) → Grows us vs → Grows vs ws → Grows us ws
  Grows-trans [] [] [] g h = tt
  Grows-trans [] [] (w ∷ ws) g h = h
  Grows-trans [] (v ∷ vs) ws g h = elim g [ ]
  Grows-trans (u ∷ us) [] ws g h = elim g [ ]
  Grows-trans (u ∷ us) (v ∷ vs) [] g h = h
  Grows-trans (u ∷ us) (v ∷ vs) (w ∷ ws) g h =
      (h.0 ∙ g.0, (λ q. h.1 (g.1 q)), Grows-trans us vs ws g.2 h.2)

  pub Grows-units : (us vs : List (Marked C)) → Grows us vs → units_of vs ≡ units_of us
  Grows-units [] [] g = refl
  Grows-units [] (v ∷ vs) g = elim g [ ]
  Grows-units (u ∷ us) [] g = elim g [ ]
  Grows-units (u ∷ us) (v ∷ vs) g = let e = g.0 in let f = Grows-units us vs g.2 in cc

  pub mark_system-Grows :
      (ms : List (Message C)) (us : List (Marked C)) → Grows us (mark_system ms us)
  unfolding mark_system
  mark_system-Grows [] us = Grows-refl us
  mark_system-Grows (m ∷ ms) [] = tt
  mark_system-Grows (m ∷ ms) (u ∷ us) = elim (Bool-cases (str_eq m.role role_system)) [
    | inl e ↦ rw (e, mark_system) (refl, (λ h. refl), Grows-refl us)
    | inr e ↦ rw (e, mark_system) (Grows-refl (u ∷ us))
  ]

  pub mark_named-Grows :
      (preserve : List String) (us : List (Marked C)) → Grows us (mark_named preserve us)
  unfolding mark_named
  mark_named-Grows preserve [] = tt
  mark_named-Grows preserve (u ∷ us) = (refl, (λ h. ground arith), mark_named-Grows preserve us)

  pub mark_last-Grows :
      (test : List (Message C) → Bool) (us : List (Marked C)) → Grows us (mark_last test us)
  unfolding mark_last
  mark_last-Grows test [] = tt
  mark_last-Grows test (u ∷ us) = elim (Bool-cases (any_unit test us)) [
    | inl e ↦ rw (e, mark_last) (refl, (λ h. h), mark_last-Grows test us)
    | inr e ↦ elim (Bool-cases (test u.1)) [
      | inl f ↦ rw (e, f, mark_last) (refl, (λ h. refl), Grows-refl us)
      | inr f ↦ rw (e, f, mark_last) (Grows-refl (u ∷ us))
    ]
  ]

  pub put_back-Grows :
      (older us vs : List (Marked C)) → Grows us vs → Grows (put_back older us) (put_back older vs)
  unfolding put_back
  put_back-Grows [] us vs g = g
  put_back-Grows (u ∷ older) us vs g = put_back-Grows older (u ∷ us) (u ∷ vs) (refl, (λ h. h), g)

  pub put_back-append :
      (us vs ws : List (Marked C)) → put_back (put_back us vs) ws ≡ put_back vs (us ++ ws)
  unfolding put_back
  put_back-append [] vs ws = refl
  put_back-append (u ∷ us) vs ws = put_back-append us (u ∷ vs) ws

  pub fill_tail-Grows :
      (estimate : List (Message C) → Option ℤ) (bound target : ℤ) (tail : ℕ)
      (older visited us : List (Marked C))
      → fill_tail estimate bound target tail older visited ≡ some us
      → Grows (put_back older visited) us
  unfolding fill_tail put_back
  fill_tail-Grows estimate bound target tail [] visited us h =
      subst (Grows visited) (some_inj.0 h) (Grows-refl visited)
  fill_tail-Grows estimate bound target tail ((true, u) ∷ older) visited us h =
      fill_tail-Grows estimate bound target tail older ((true, u) ∷ visited) us h
  fill_tail-Grows estimate bound target tail ((false, u) ∷ older) visited us h =
      let here = put_back older ((false, u) ∷ visited) in
      elim (Bool-cases (ltb_int bound (pos (tail + length u)))) [
        | inl e ↦ subst (Grows here) (some_inj.0 (rw (e, fill_tail) at h)) (Grows-refl here)
        | inr e ↦ elim (Option-cases (estimate (collect_selected here ++ u))) [
          | inl f ↦ absurd (ground (arith, rw (e, f, fill_tail) at h))
          | inr (n, f) ↦ elim (Bool-cases (ltb_int target n)) [
            | inl g ↦
                subst (Grows here) (some_inj.0 (rw (e, f, g, fill_tail) at h)) (Grows-refl here)
            | inr g ↦
                Grows-trans here (put_back older ((true, u) ∷ visited)) us
                  (put_back-Grows older ((false, u) ∷ visited) ((true, u) ∷ visited)
                    (refl, (λ q. refl), Grows-refl visited))
                  (fill_tail-Grows estimate bound target (tail + length u) older
                    ((true, u) ∷ visited) us (rw (e, f, g, fill_tail) at h))
          ]
        ]
      ]

  pub select_mandatory-Grows :
      (units : List (List (Message C))) (ms : List (Message C)) (preserve : List String)
      → Grows (unmarked units) (select_mandatory units ms preserve)
  unfolding select_mandatory
  select_mandatory-Grows units ms preserve =
      let a = mark_system ms (unmarked units) in
      let b = mark_named preserve a in
      let c = mark_last (has_role role_user) b in
      Grows-trans (unmarked units) a (mark_last is_complete c)
        (mark_system-Grows ms (unmarked units))
        (Grows-trans a b (mark_last is_complete c) (mark_named-Grows preserve a) (
          Grows-trans b c (mark_last is_complete c) (mark_last-Grows (has_role role_user) b)
            (mark_last-Grows is_complete c)))
