-- ===== src/Plan/Compact/Retention.antt =====
-- context/plan/compact.go and compact_units.go: what Compact keeps.
use mathlib.Core.List.{append-nil}
use mivia_ai_sdk.Base.{◌≡◌, refl, sym, ◌∙◌, ap, subst, List, [], ◌∷◌, Option, length, arith}
use mivia_ai_sdk.Base.Int.{ℤ}
use mivia_ai_sdk.Plan.{Message, build_units}
use mivia_ai_sdk.Plan.Units.{concat, concat-build_units}
use mivia_ai_sdk.Plan.Window.{Window}
use mivia_ai_sdk.Plan.Compact.{
  Marked, CompactResult, Compacted, failure, result, unmarked, put_back, compact,
}
use mivia_ai_sdk.Plan.Compact.Parts.{
  IsMerge, none_left, from_first, units_of, kept_units, dropped_units, units-IsMerge,
  collect_selected-concat, collect_dropped-concat, Grows, Grows-units, put_back-append,
  fill_tail-Grows, select_mandatory-Grows,
}
use mivia_ai_sdk.Plan.Compact.Cases.{
  IsCompact, refused, passed, shrunk, mandatory_of, compact-IsCompact,
}

module _ {C : Type 0} where
  pub units_of-unmarked : (us : List (List (Message C))) → units_of (unmarked us) ≡ us
  units_of-unmarked [] = refl
  units_of-unmarked (u ∷ us) = ap (λ xs. u ∷ xs) (units_of-unmarked us)

  pub put_back-mandatory : (us : List (Marked C)) → put_back (put_back us []) [] ≡ us
  unfolding put_back
  put_back-mandatory us = put_back-append us [] [] ∙ append-nil us

  -- Compact fills up the mandatory marks.
  pub fill_tail-mandatory :
      (w : Window) (ms : List (Message C)) (us : List (Marked C))
      → Grows (put_back (put_back (mandatory_of w ms) []) []) us
      → Grows (mandatory_of w ms) us
  fill_tail-mandatory w ms us g =
      subst (λ xs. Grows xs us) (put_back-mandatory (mandatory_of w ms)) g

  shrunk-units :
      (w : Window) (ms : List (Message C)) (us : List (Marked C))
      → Grows (mandatory_of w ms) us
      → units_of us ≡ build_units (length ms) ms
  shrunk-units w ms us g =
      let units = build_units (length ms) ms in
      Grows-units (mandatory_of w ms) us g
      ∙ (Grows-units (unmarked units) (mandatory_of w ms)
            (select_mandatory-Grows units ms w.compaction.preserve_names)
          ∙ units_of-unmarked units)

  -- The kept and the dropped messages of a result are whole units, which together are those of the
  -- history.
  abbrev pub AreParts : List (Message C) → CompactResult C → Type 0
  AreParts ms r =
      (kept : List (List (Message C))) × (dropped : List (List (Message C))) × IsMerge kept dropped
        (build_units (length ms) ms)
      × (r.kept ≡ concat kept)
      × (r.dropped ≡ concat dropped)

  all_first : (us : List (List (Message C))) → IsMerge us [] us
  all_first [] = none_left
  all_first (u ∷ us) = from_first (all_first us)

  -- Where Compact has a result, its kept and its dropped messages are the units of the history, each
  -- unit whole on one side and both sides in the order of the history; the units are the history.
  pub compact-AreParts :
      (estimate : List (Message C) → Option ℤ) (w : Window) (ms : List (Message C))
      (r : CompactResult C)
      → compact estimate w ms ≡ result r
      → AreParts ms r × (concat (build_units (length ms) ms) ≡ ms)
  compact-AreParts estimate w ms r h =
      (of_case (compact estimate w ms) (compact-IsCompact estimate w ms) h, whole)
    where
      whole : concat (build_units (length ms) ms) ≡ ms
      whole = concat-build_units (length ms) ms (omega arith)

      of_case : (c : Compacted C) → IsCompact estimate w ms c → c ≡ result r → AreParts ms r
      of_case (failure x) refused e = absurd (cc)
      of_case (result r') (passed v o n q k d) e =
          let f : r' ≡ r = cc in
          subst (AreParts ms) f (
            build_units (length ms) ms,
            [],
            all_first (build_units (length ms) ms),
            k ∙ sym whole,
            d,
          )
      of_case (result r') (shrunk us n v o a b g q k d) e =
          let f : r' ≡ r = cc in
          let grown = fill_tail-mandatory w ms us (fill_tail-Grows estimate _ _ 0 _ [] us g) in
          subst (AreParts ms) f (
            kept_units us,
            dropped_units us,
            subst (IsMerge (kept_units us) (dropped_units us)) (shrunk-units w ms us grown)
                (units-IsMerge us),
            k ∙ collect_selected-concat us,
            d ∙ collect_dropped-concat us,
          )
