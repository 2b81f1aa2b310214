-- ===== src/Plan/Compact/Mandatory.antt =====
-- context/plan/compact_units.go: the messages that selectMandatory marks.
use mivia_ai_sdk.Base.{
  ◌≡◌, refl, sym, ◌∙◌, ap, subst, inl, inr, String, List, [], ◌∷◌, ◌++◌, Bool, true, false, ◌||◌,
  ◌&&◌, Option, length, str_eq, eq_iff, contains, All, All-append, Bool-cases, arith,
}
use mivia_ai_sdk.Base.Int.{ℤ}
use mivia_ai_sdk.Plan.{
  Message, role_system, role_user, opens_unit, build_units, has_name, has_role, is_complete,
}
use mivia_ai_sdk.Plan.Units.{concat, concat-build_units}
use mivia_ai_sdk.Plan.Window.{Window}
use mivia_ai_sdk.Plan.Compact.{
  Marked, CompactResult, Compacted, failure, result, unmarked, mark_system, mark_named, any_unit,
  mark_last, select_mandatory, collect_selected, collect_dropped, compact,
}
use mivia_ai_sdk.Plan.Compact.Parts.{
  units_of, Grows, Grows-trans, Grows-units, mark_system-Grows, mark_named-Grows, mark_last-Grows,
  fill_tail-Grows,
}
use mivia_ai_sdk.Plan.Compact.Retention.{units_of-unmarked, fill_tail-mandatory}
use mivia_ai_sdk.Plan.Compact.Cases.{
  IsCompact, refused, passed, shrunk, mandatory_of, compact-IsCompact,
}

module _ {C : Type 0} where
  -- No unit without a mark holds a preserved name.
  abbrev AreNamed : List String → List (Marked C) → Type 0
  AreNamed preserve = All (λ u. u.0 ≡ false → has_name preserve u.1 ≡ false)

  mark_named-AreNamed :
      (preserve : List String) (us : List (Marked C)) → AreNamed preserve (mark_named preserve us)
  unfolding mark_named
  mark_named-AreNamed preserve [] = tt
  mark_named-AreNamed preserve (u ∷ us) = ((λ h. ground arith), mark_named-AreNamed preserve us)

  Grows-AreNamed :
      (preserve : List String) (us vs : List (Marked C))
      → Grows us vs
      → AreNamed preserve us
      → AreNamed preserve vs
  Grows-AreNamed preserve [] [] g a = tt
  Grows-AreNamed preserve [] (v ∷ vs) g a = elim g [ ]
  Grows-AreNamed preserve (u ∷ us) [] g a = elim g [ ]
  Grows-AreNamed preserve (u ∷ us) (v ∷ vs) g a = (
    (λ h. subst (λ x. has_name preserve x ≡ false) (sym g.0) (a.0 (ground (arith, g.1, h)))),
    Grows-AreNamed preserve us vs g.2 a.1,
  )

  has_name-All :
      (preserve : List String) (ms : List (Message C))
      → has_name preserve ms ≡ false
      → All (λ m. contains preserve m.name ≡ false) ms
  unfolding has_name
  has_name-All preserve [] h = tt
  has_name-All preserve (m ∷ ms) h = (ground arith, has_name-All preserve ms (ground arith))

  dropped-All :
      (preserve : List String) (us : List (Marked C))
      → AreNamed preserve us
      → All (λ m. contains preserve m.name ≡ false) (collect_dropped us)
  unfolding collect_dropped
  dropped-All preserve [] a = tt
  dropped-All preserve ((true, u) ∷ us) a = dropped-All preserve us a.1
  dropped-All preserve ((false, u) ∷ us) a =
      All-append (λ m. contains preserve m.name ≡ false) u (collect_dropped us)
        (has_name-All preserve u (a.0 refl)) (dropped-All preserve us a.1)

  -- Whether some marked unit passes the test.
  unfoldable any_marked : (List (Message C) → Bool) → List (Marked C) → Bool
  any_marked test [] = false
  any_marked test (u ∷ us) = (u.0 && test u.1) || any_marked test us

  Grows-any_marked :
      (test : List (Message C) → Bool) (us vs : List (Marked C))
      → Grows us vs
      → any_marked test us ≡ true
      → any_marked test vs ≡ true
  unfolding any_marked
  Grows-any_marked test [] [] g h = h
  Grows-any_marked test [] (v ∷ vs) g h = elim g [ ]
  Grows-any_marked test (u ∷ us) [] g h = elim g [ ]
  Grows-any_marked test (u ∷ us) (v ∷ vs) g h =
      let e : test v.1 ≡ test u.1 = ap test g.0 in
      ground (arith, g.1, e, h, Grows-any_marked test us vs g.2)

  mark_last-any_marked :
      (test : List (Message C) → Bool) (us : List (Marked C))
      → any_unit test us ≡ true
      → any_marked test (mark_last test us) ≡ true
  unfolding mark_last any_unit any_marked
  mark_last-any_marked test [] h = ground arith
  mark_last-any_marked test (u ∷ us) h = elim (Bool-cases (any_unit test us)) [
    | inl e ↦ rw (e, mark_last) (ground (arith, mark_last-any_marked test us e))
    | inr e ↦ rw (e, mark_last) (ground (arith, e, h))
  ]

  has_role-append :
      (role : String) (xs ys : List (Message C))
      → has_role role (xs ++ ys) ≡ (has_role role xs || has_role role ys)
  unfolding has_role
  has_role-append role [] ys = refl
  has_role-append role (x ∷ xs) ys = ground (arith, has_role-append role xs ys)

  has_role-any_unit :
      (role : String) (us : List (Marked C))
      → has_role role (concat (units_of us)) ≡ any_unit (has_role role) us
  unfolding has_role any_unit
  has_role-any_unit role [] = refl
  has_role-any_unit role (u ∷ us) =
      has_role-append role u.1 (concat (units_of us))
      ∙ ap (λ b. has_role role u.1 || b) (has_role-any_unit role us)

  any_marked-has_role :
      (role : String) (us : List (Marked C))
      → any_marked (has_role role) us ≡ true
      → has_role role (collect_selected us) ≡ true
  unfolding any_marked collect_selected
  any_marked-has_role role [] h = ground arith
  any_marked-has_role role ((true, u) ∷ us) h =
      ground (arith, has_role-append role u (collect_selected us), any_marked-has_role role us, h)
  any_marked-has_role role ((false, u) ∷ us) h = any_marked-has_role role us (ground (arith, h))

  -- The first unit is marked and starts with the message.
  abbrev Heads : Message C → List (Marked C) → Type 0
  Heads m [] = ⊥
  Heads m (u ∷ us) = (more : List (Message C)) × (u.0 ≡ true) × (u.1 ≡ m ∷ more)

  Grows-Heads : (m : Message C) (us vs : List (Marked C)) → Grows us vs → Heads m us → Heads m vs
  Grows-Heads m [] vs g h = elim h [ ]
  Grows-Heads m (u ∷ us) [] g h = elim g [ ]
  Grows-Heads m (u ∷ us) (v ∷ vs) g h = let (more, marked, e) = h in (more, g.1 marked, g.0 ∙ e)

  mark_system-Heads :
      (m : Message C) (ms : List (Message C))
      → m.role ≡ role_system
      → Heads m (mark_system (m ∷ ms) (unmarked (build_units (length (m ∷ ms)) (m ∷ ms))))
  unfolding mark_system build_units
  mark_system-Heads m ms h =
      let e : str_eq m.role role_system ≡ true = (eq_iff m.role role_system).1 h in
      elim (Bool-cases (opens_unit m)) [
        | inl f ↦ rw (f, e, build_units, mark_system) (_, refl, refl)
        | inr f ↦ rw (f, e, build_units, mark_system) ([], refl, refl)
      ]

  Heads-collect_selected :
      (m : Message C) (us : List (Marked C))
      → Heads m us
      → (more : List (Message C)) × (collect_selected us ≡ m ∷ more)
  unfolding collect_selected
  Heads-collect_selected m [] h = elim h [ ]
  Heads-collect_selected m ((true, u) ∷ us) h =
      let (more, marked, e) = h in
      (more ++ collect_selected us, ap (λ x. x ++ collect_selected us) e)
  Heads-collect_selected m ((false, u) ∷ us) h = absurd (ground (arith, h.1))

  -- What the marks of selectMandatory hold.
  mandatory-marks :
      (w : Window) (ms : List (Message C))
      → has_role role_user ms ≡ true
      → AreNamed w.compaction.preserve_names (mandatory_of w ms)
        × (any_marked (has_role role_user) (mandatory_of w ms) ≡ true)
        × ((m : Message C) (rest : List (Message C))
            → ms ≡ m ∷ rest
            → m.role ≡ role_system
            → Heads m (mandatory_of w ms))
  unfolding select_mandatory
  mandatory-marks w ms h =
      let units = build_units (length ms) ms in
      let preserve = w.compaction.preserve_names in
      let a = mark_system ms (unmarked units) in
      let b = mark_named preserve a in
      let c = mark_last (has_role role_user) b in
      let later =
        Grows-trans b c (mark_last is_complete c) (mark_last-Grows (has_role role_user) b)
          (mark_last-Grows is_complete c) in
      let same : units_of b ≡ units =
        Grows-units a b (mark_named-Grows preserve a)
        ∙ (Grows-units (unmarked units) a (mark_system-Grows ms (unmarked units))
            ∙ units_of-unmarked units) in
      let found : any_unit (has_role role_user) b ≡ true =
        sym (has_role-any_unit role_user b)
        ∙ (ap (λ x. has_role role_user (concat x)) same
            ∙ (ap (has_role role_user) (concat-build_units (length ms) ms (omega arith)) ∙ h)) in
      (
        Grows-AreNamed preserve b (mark_last is_complete c) later (mark_named-AreNamed preserve a),
        Grows-any_marked (has_role role_user) c (mark_last is_complete c)
            (mark_last-Grows is_complete c) (mark_last-any_marked (has_role role_user) b found),
        (λ m rest e s.
            Grows-Heads m a (mark_last is_complete c)
              (Grows-trans a b (mark_last is_complete c) (mark_named-Grows preserve a) later)
              (subst (λ x. Heads m (mark_system x (unmarked (build_units (length x) x)))) (sym e)
                (mark_system-Heads m rest s))),
      )

  -- A user message is kept, a leading system message stays first, and no preserved name is dropped.
  pub record Retains (w : Window) (ms : List (Message C)) (r : CompactResult C) : Type 0 where
    pub objective : has_role role_user r.kept ≡ true
    pub system :
        (m : Message C) (rest : List (Message C))
        → ms ≡ m ∷ rest
        → m.role ≡ role_system
        → (more : List (Message C)) × (r.kept ≡ m ∷ more)
    pub named : All (λ m. contains w.compaction.preserve_names m.name ≡ false) r.dropped

  -- Whatever Compact drops, its result keeps a user message, keeps a leading system message in the
  -- first place, and drops no message with a preserved name.
  pub compact-Retains :
      (estimate : List (Message C) → Option ℤ) (w : Window) (ms : List (Message C))
      (r : CompactResult C)
      → compact estimate w ms ≡ result r
      → Retains w ms r
  compact-Retains estimate w ms r h =
      of_case (compact estimate w ms) (compact-IsCompact estimate w ms) h
    where
      of_case : (c : Compacted C) → IsCompact estimate w ms c → c ≡ result r → Retains w ms r
      of_case (failure x) refused e = absurd (cc)
      of_case (result r') (passed v o n q k d) e =
          let f : r' ≡ r = cc in
          subst (Retains w ms) f (record {
            objective = ap (has_role role_user) k ∙ o;
            system = λ m rest s t. (rest, k ∙ s);
            named =
                subst (All (λ m. contains w.compaction.preserve_names m.name ≡ false)) (sym d) tt;
          })
      of_case (result r') (shrunk us n v o a b g q k d) e =
          let f : r' ≡ r = cc in
          let grown = fill_tail-mandatory w ms us (fill_tail-Grows estimate _ _ 0 _ [] us g) in
          let (named, user, system) = mandatory-marks w ms o in
          let preserve = w.compaction.preserve_names in
          subst (Retains w ms) f (record {
            objective =
                ap (has_role role_user) k
                ∙ any_marked-has_role role_user us
                    (Grows-any_marked (has_role role_user) (mandatory_of w ms) us grown user);
            system = λ m rest s t.
                let (more, c) =
                  Heads-collect_selected m us
                    (Grows-Heads m (mandatory_of w ms) us grown (system m rest s t)) in
                (more, k ∙ c);
            named = subst (All (λ m. contains preserve m.name ≡ false)) (sym d) (
                dropped-All preserve us
                  (Grows-AreNamed preserve (mandatory_of w ms) us grown named));
          })
