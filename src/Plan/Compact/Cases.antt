-- ===== src/Plan/Compact/Cases.antt =====
-- context/plan/compact.go: the ways in which Compact ends.
use mivia_ai_sdk.Base.{
  ◌≡◌, refl, inl, inr, List, [], ◌∷◌, true, false, Option, none, some, length, Bool-cases,
  Option-cases,
}
use mivia_ai_sdk.Base.Int.{ℤ, ltb_int}
use mivia_ai_sdk.Plan.{Message, role_user, build_units, has_role}
use mivia_ai_sdk.Plan.Window.{
  Window, validate_window, compact_trigger, compact_target, recent_tail_bound, budget,
}
use mivia_ai_sdk.Plan.Compact.{
  Marked, CompactResult, Compacted, Failure, failure, result, select_mandatory, collect_selected,
  collect_dropped, put_back, fill_tail, finish, shrink, compact,
}

-- The mandatory marks of Compact.
abbrev pub mandatory_of : {C : Type 0} → Window → List (Message C) → List (Marked C)
mandatory_of w ms = select_mandatory (build_units (length ms) ms) ms w.compaction.preserve_names

-- How Compact ends.
pub data IsCompact {C : Type 0} (estimate : List (Message C) → Option ℤ) (w : Window)
    (ms : List (Message C)) : Compacted C → Type 0 where
  refused : {e : Failure} → IsCompact estimate w ms (failure e)
  passed :
      {r : CompactResult C}
      → validate_window w ≡ none
      → has_role role_user ms ≡ true
      → estimate ms ≡ some r.after_tokens
      → ltb_int r.after_tokens (compact_trigger w) ≡ true
      → r.kept ≡ ms
      → r.dropped ≡ []
      → IsCompact estimate w ms (result r)
  shrunk :
      {r : CompactResult C} (us : List (Marked C)) (mandatory : ℤ)
      → validate_window w ≡ none
      → has_role role_user ms ≡ true
      → estimate (collect_selected (mandatory_of w ms)) ≡ some mandatory
      → ltb_int (budget w) mandatory ≡ false
      → fill_tail estimate
          (recent_tail_bound w.compaction)
          (compact_target w)
          0
          (put_back (mandatory_of w ms) [])
          []
        ≡ some us
      → estimate (collect_selected us) ≡ some r.after_tokens
      → r.kept ≡ collect_selected us
      → r.dropped ≡ collect_dropped us
      → IsCompact estimate w ms (result r)

module _ {C : Type 0} (estimate : List (Message C) → Option ℤ) (w : Window) where
  shrink-IsCompact :
      (before : ℤ) (ms : List (Message C))
      → validate_window w ≡ none
      → has_role role_user ms ≡ true
      → IsCompact estimate w ms (shrink estimate w before (mandatory_of w ms))
  unfolding shrink finish
  shrink-IsCompact before ms v o =
      let us = mandatory_of w ms in
      elim (Option-cases (estimate (collect_selected us))) [
        | inl e ↦ rw (e, shrink) refused
        | inr (n, e) ↦ elim (Bool-cases (ltb_int (budget w) n)) [
          | inl f ↦ rw (e, f, shrink) refused
          | inr f ↦
              elim (Option-cases (
                fill_tail estimate (recent_tail_bound w.compaction) (compact_target w) 0
                  (put_back us []) [])) [
                    | inl g ↦ rw (e, f, g, shrink) refused
                    | inr (vs, g) ↦ elim (Option-cases (estimate (collect_selected vs))) [
                      | inl q ↦ rw (e, f, g, q, shrink, finish) refused
                      | inr (after, q) ↦
                          rw (e, f, g, q, shrink, finish) (shrunk vs n v o e f g q refl refl)
                    ]
                  ]
        ]
      ]

  pub compact-IsCompact : (ms : List (Message C)) → IsCompact estimate w ms (compact estimate w ms)
  unfolding compact
  compact-IsCompact [] = elim (Option-cases (validate_window w)) [
    | inl e ↦ rw (e, compact) refused
    | inr (x, e) ↦ rw (e, compact) refused
  ]
  compact-IsCompact (m ∷ ms) = elim (Option-cases (validate_window w)) [
    | inr (x, e) ↦ rw (e, compact) refused
    | inl e ↦ elim (Bool-cases (has_role role_user (m ∷ ms))) [
      | inr f ↦ rw (e, f, compact) refused
      | inl f ↦ elim (Option-cases (estimate (m ∷ ms))) [
        | inl g ↦ rw (e, f, g, compact) refused
        | inr (n, g) ↦ elim (Bool-cases (ltb_int n (compact_trigger w))) [
          | inl q ↦ rw (e, f, g, q, compact) (passed e f g q refl refl)
          | inr q ↦ rw (e, f, g, q, compact) (shrink-IsCompact n (m ∷ ms) e f)
        ]
      ]
    ]
  ]
