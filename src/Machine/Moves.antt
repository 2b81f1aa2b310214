-- ===== src/Machine/Moves.antt =====
-- machine/definition.go: what Fire does on a table that Validate accepts.
use mivia_ai_sdk.Base.{
  ◌≡◌, ◌≢◌, ◌↔◌, refl, sym, subst, ◌∙◌, inl, inr, String, List, [], ◌∷◌, true, false, ◌&&◌, Option,
  none, some, str_eq, eq_iff, contains, Bool-cases, Option-cases, arith,
}
use mivia_ai_sdk.Machine.{
  Transition, Definition, reachable, all_from, has_self_loop, has_duplicate, row_in, validate,
  is_empty, find_row, run_guard, run_action, leave, enter, fire_row, fire,
}
use mivia_ai_sdk.Machine.Reachability.{RowIn, Reach, move, reachable-Reach}

module _ {E R : Type 0} where
  -- No two rows share a source and a trigger.
  abbrev pub Unique : List (Transition E R) → Type 0
  Unique [] = Unit
  Unique (t ∷ ts) =
      ((u : Transition E R) → RowIn u ts → t.from ≡ u.from → t.trigger ≡ u.trigger → ⊥) × Unique ts

  -- The rules that a table has to follow.
  pub record IsTable (d : Definition E R) : Type 0 where
    pub nonempty : d.transitions ≢ []
    pub moves : (t : Transition E R) → RowIn t d.transitions → t.from ≢ t.to
    pub reached :
        (t : Transition E R) → RowIn t d.transitions → Reach d.transitions d.initial t.from
    pub unique : Unique d.transitions

  no_loop_iff :
      (ts : List (Transition E R))
      → (has_self_loop ts ≡ false) ↔ ((t : Transition E R) → RowIn t ts → t.from ≢ t.to)
  unfolding has_self_loop
  no_loop_iff [] = ((λ h t i. elim i [ ]), (λ h. refl))
  no_loop_iff (u ∷ ts) =
      let (a, b) = no_loop_iff ts in
      (
        (λ h t i. elim i [
          | inl q ↦ subst (λ v. v.from ≢ v.to) (sym q) (λ e. ground (arith, eq_iff u.from u.to))
          | inr j ↦ a (ground arith) t j
        ]),
        (λ h. ground (arith, b (λ t i. h t (inr i)), eq_iff u.from u.to, h u (inl refl))),
      )

  all_from_iff :
      (ts : List (Transition E R)) (r : List String)
      → (all_from ts r ≡ true) ↔ ((t : Transition E R) → RowIn t ts → contains r t.from ≡ true)
  unfolding all_from
  all_from_iff [] r = ((λ h t i. elim i [ ]), (λ h. refl))
  all_from_iff (u ∷ ts) r =
      let (a, b) = all_from_iff ts r in
      (
        (λ h t i. elim i [
          | inl q ↦ subst (λ v. contains r v.from ≡ true) (sym q) (ground arith)
          | inr j ↦ a (ground arith) t j
        ]),
        (λ h. ground (arith, b (λ t i. h t (inr i)), h u (inl refl))),
      )

  row_in_iff :
      (t : Transition E R) (ts : List (Transition E R))
      → (row_in t ts ≡ false)
        ↔ ((u : Transition E R) → RowIn u ts → t.from ≡ u.from → t.trigger ≡ u.trigger → ⊥)
  unfolding row_in
  row_in_iff t [] = ((λ h u i. elim i [ ]), (λ h. refl))
  row_in_iff t (w ∷ ts) =
      let (a, b) = row_in_iff t ts in
      (
        (λ h u i. elim i [
          | inl q ↦
              subst (λ v. t.from ≡ v.from → t.trigger ≡ v.trigger → ⊥) (sym q)
                (λ e f. ground (arith, eq_iff t.from w.from, eq_iff t.trigger w.trigger))
          | inr j ↦ a (ground arith) u j
        ]),
        (λ h. ground (
          arith,
          b (λ u i. h u (inr i)),
          eq_iff t.from w.from,
          eq_iff t.trigger w.trigger,
          h w (inl refl),
        )),
      )

  no_duplicate_iff : (ts : List (Transition E R)) → (has_duplicate ts ≡ false) ↔ Unique ts
  unfolding has_duplicate
  no_duplicate_iff [] = ((λ h. tt), (λ h. refl))
  no_duplicate_iff (t ∷ ts) =
      let (a, b) = no_duplicate_iff ts in
      let (c, e) = row_in_iff t ts in
      ((λ h. (c (ground arith), a (ground arith))), (λ h. ground (arith, b h.1, e h.0)))

  is_empty_iff : (ts : List (Transition E R)) → (is_empty ts ≡ false) ↔ (ts ≢ [])
  unfolding is_empty
  is_empty_iff [] = ((λ h. cc), (λ h. absurd (h refl)))
  is_empty_iff (t ∷ ts) = ((λ h e. cc), (λ h. refl))

  -- Validate accepts exactly the tables that have a row, no row from a status to itself, only rows
  -- whose source rows lead to from the initial status, and no two rows with one source and trigger.
  pub validate_iff_IsTable : (d : Definition E R) → (validate d ≡ none) ↔ IsTable d
  unfolding validate
  validate_iff_IsTable d =
      let (r, found, exact) = reachable-Reach d in
      (
        (λ h.
            let facts = tests r found h in
            record {
              nonempty = (is_empty_iff d.transitions).0 facts.0;
              moves = (no_loop_iff d.transitions).0 facts.1;
              reached = λ t i. (exact t.from).0 ((all_from_iff d.transitions r).0 facts.2 t i);
              unique = (no_duplicate_iff d.transitions).0 facts.3;
            }),
        (λ v.
            accepted r found ((is_empty_iff d.transitions).1 v.nonempty)
              ((no_loop_iff d.transitions).1 v.moves)
              ((all_from_iff d.transitions r).1 (λ t i. (exact t.from).1 (v.reached t i)))
              ((no_duplicate_iff d.transitions).1 v.unique)),
      )
    where
      tests :
          (r : List String)
          → reachable d ≡ some r
          → validate d ≡ none
          → (is_empty d.transitions ≡ false)
            × (has_self_loop d.transitions ≡ false)
            × (all_from d.transitions r ≡ true)
            × (has_duplicate d.transitions ≡ false)
      tests r e h = ground arith

      accepted :
          (r : List String)
          → reachable d ≡ some r
          → is_empty d.transitions ≡ false
          → has_self_loop d.transitions ≡ false
          → all_from d.transitions r ≡ true
          → has_duplicate d.transitions ≡ false
          → validate d ≡ none
      accepted r e a b c f = ground arith

  find_row-RowIn :
      (ts : List (Transition E R)) (from trigger : String) (t : Transition E R)
      → find_row ts from trigger ≡ some t
      → RowIn t ts × (t.from ≡ from) × (t.trigger ≡ trigger)
  unfolding find_row
  find_row-RowIn [] from trigger t h = absurd (ground arith)
  find_row-RowIn (u ∷ ts) from trigger t h =
      elim (Bool-cases (str_eq u.from from && str_eq u.trigger trigger)) [
        | inl e ↦
            let same : u ≡ t = ground arith in
            subst (λ v. RowIn v (u ∷ ts) × (v.from ≡ from) × (v.trigger ≡ trigger)) same
              (
                inl refl,
                (eq_iff u.from from).0 (ground arith),
                (eq_iff u.trigger trigger).0 (ground arith),
              )
        | inr e ↦ let (i, a, b) = find_row-RowIn ts from trigger t (ground arith) in (inr i, a, b)
      ]

  -- Whenever Fire returns an error, it returns the status and the record that it was given.
  pub fire_failed :
      (d : Definition E R) (from trigger : String) (input : R)
      → (fire d from trigger input).error ≢ none
      → ((fire d from trigger input).status ≡ from) × ((fire d from trigger input).rec ≡ input)
  unfolding fire
  fire_failed d from trigger input h = elim (Option-cases (find_row d.transitions from trigger)) [
    | inl e ↦ rw (e, fire) (refl, refl)
    | inr (row, e) ↦ rw (e, fire) (of_row row (rw (e, fire) at h))
  ]
    where
      of_entry :
          (row : Transition E R) (o : Option E × R)
          → (enter row from input o).error ≢ none
          → ((enter row from input o).status ≡ from) × ((enter row from input o).rec ≡ input)
      of_entry row (some e, r) n = (refl, refl)
      of_entry row (none, r) n = absurd (n refl)

      of_exit :
          (row : Transition E R) (o : Option E × R)
          → (leave row from input o).error ≢ none
          → ((leave row from input o).status ≡ from) × ((leave row from input o).rec ≡ input)
      of_exit row (some e, r) n = (refl, refl)
      of_exit row (none, r) n = of_entry row (run_action row.on_entry r) n

      of_row :
          (row : Transition E R)
          → (fire_row row from input).error ≢ none
          → ((fire_row row from input).status ≡ from) × ((fire_row row from input).rec ≡ input)
      of_row row n = elim (Option-cases (run_guard row.check)) [
        | inl e ↦
            rw (e, fire_row) (of_exit row (run_action row.on_exit input) (rw (e, fire_row) at n))
        | inr (f, e) ↦ rw (e, fire_row) (refl, refl)
      ]

  -- A move that Fire makes follows a row of the table from the status by the trigger, whose guard
  -- passes, to the row's target.
  pub fire_moves :
      (d : Definition E R) (from trigger : String) (input : R)
      → (fire d from trigger input).error ≡ none
      → (row : Transition E R) × RowIn row d.transitions
        × (row.from ≡ from)
        × (row.trigger ≡ trigger)
        × (run_guard row.check ≡ none)
        × ((fire d from trigger input).status ≡ row.to)
  unfolding fire
  fire_moves d from trigger input h = elim (Option-cases (find_row d.transitions from trigger)) [
    | inl e ↦ absurd (ground arith)
    | inr (row, e) ↦
        let (i, a, b) = find_row-RowIn d.transitions from trigger row e in
        let (g, s) = of_row row (rw (e, fire) at h) in (row, i, a, b, g, rw (e, fire) s)
  ]
    where
      of_entry :
          (row : Transition E R) (o : Option E × R)
          → (enter row from input o).error ≡ none
          → (enter row from input o).status ≡ row.to
      of_entry row (some e, r) n = absurd (ground arith)
      of_entry row (none, r) n = refl

      of_exit :
          (row : Transition E R) (o : Option E × R)
          → (leave row from input o).error ≡ none
          → (leave row from input o).status ≡ row.to
      of_exit row (some e, r) n = absurd (ground arith)
      of_exit row (none, r) n = of_entry row (run_action row.on_entry r) n

      of_row :
          (row : Transition E R)
          → (fire_row row from input).error ≡ none
          → (run_guard row.check ≡ none) × ((fire_row row from input).status ≡ row.to)
      of_row row n = elim (Option-cases (run_guard row.check)) [
        | inl e ↦ (
          e,
          rw (e, fire_row) (of_exit row (run_action row.on_exit input) (rw (e, fire_row) at n)),
        )
        | inr (f, e) ↦ absurd (ground arith)
      ]

  -- In an accepted table, a move from a status that rows lead to leads to another status that rows
  -- lead to.
  pub fire-Reach :
      (d : Definition E R) (from trigger : String) (input : R)
      → validate d ≡ none
      → Reach d.transitions d.initial from
      → (fire d from trigger input).error ≡ none
      → ((fire d from trigger input).status ≢ from)
        × Reach d.transitions d.initial (fire d from trigger input).status
  fire-Reach d from trigger input v p h =
      let (row, i, a, b, g, s) = fire_moves d from trigger input h in
      (
        (λ e. ((validate_iff_IsTable d).0 v).moves row i (a ∙ sym e ∙ s)),
        move row _ i (subst (Reach d.transitions d.initial) (sym a) p) (sym s),
      )
