-- ===== src/Plan/Units.antt =====
-- context/plan/compact_units.go: the units of a history and its messages.
use mivia_ai_sdk.Base.{
  ℕ, zero, suc, ◌≤◌, ◌≡◌, refl, ◌∙◌, ap, inl, inr, String, List, [], ◌∷◌, ◌++◌, ◌&&◌, str_eq,
  length, contains, Bool-cases, arith,
}
use mivia_ai_sdk.Plan.{Message, role_tool, opens_unit, replies, build_units}

module _ {C : Type 0} where
  -- All messages of the units.
  abbrev pub concat : List (List (Message C)) → List (Message C)
  concat [] = []
  concat (u ∷ us) = u ++ concat us

  replies-append :
      (ids : List String) (ms : List (Message C)) → (replies ids ms).0 ++ (replies ids ms).1 ≡ ms
  unfolding replies
  replies-append ids [] = refl
  replies-append ids (m ∷ ms) =
      elim (Bool-cases (str_eq m.role role_tool && contains ids m.tool_call_id)) [
        | inl e ↦ rw (e, replies) (ap (λ xs. m ∷ xs) (replies-append ids ms))
        | inr e ↦ rw (e, replies) refl
      ]

  length-replies :
      (ids : List String) (ms : List (Message C)) → length (replies ids ms).1 ≤ length ms
  unfolding replies
  length-replies ids [] = omega arith
  length-replies ids (m ∷ ms) =
      let rest = length-replies ids ms in
      elim (Bool-cases (str_eq m.role role_tool && contains ids m.tool_call_id)) [
        | inl e ↦ rw (e, replies) (omega arith)
        | inr e ↦ rw (e, replies) (omega arith)
      ]

  -- With the number of messages as fuel, the units hold every message, in order.
  pub concat-build_units :
      (fuel : ℕ) (ms : List (Message C)) → length ms ≤ fuel → concat (build_units fuel ms) ≡ ms
  unfolding build_units
  concat-build_units fuel [] h = refl
  concat-build_units zero (m ∷ ms) h = absurd (omega arith)
  concat-build_units (suc fuel) (m ∷ ms) h = elim (Bool-cases (opens_unit m)) [
    | inl e ↦
        rw (e, build_units)
          (ap (λ xs. m ∷ xs)
            (ap (λ xs. (replies m.tool_calls ms).0 ++ xs)
                (concat-build_units fuel (replies m.tool_calls ms).1
                  (ground (arith, length-replies m.tool_calls ms)))
              ∙ replies-append m.tool_calls ms))
    | inr e ↦ rw (e, build_units) (ap (λ xs. m ∷ xs) (concat-build_units fuel ms (omega arith)))
  ]
