-- ===== src/Plan/Compact.antt =====
-- context/plan/compact.go: Compact, with a mark beside each unit for `selected`.
pub mod Parts
pub mod Cases
pub mod Retention
pub mod Mandatory
pub mod Fits
use mivia_ai_sdk.Base.{
  ℕ, ◌+◌, String, List, [], ◌∷◌, ◌++◌, Bool, true, false, ◌||◌, Option, none, some, str_eq,
  if◌then◌else◌, length,
}
use mivia_ai_sdk.Base.Int.{ℤ, pos, leb_int, ltb_int}
use mivia_ai_sdk.Plan.{
  Message, role_system, role_user, build_units, is_complete, has_name, has_role,
}
use mivia_ai_sdk.Plan.Window.{
  Window, Fault, validate_window, budget, compact_trigger, compact_target, recent_tail_bound,
}

pub data Failure : Type 0 where
  window_invalid : Fault → Failure
  no_messages no_objective estimate_failed retention_overflow : Failure

-- A unit and its mark.
abbrev pub Marked : Type 0 → Type 0
Marked C = Bool × List (Message C)

-- `Key` is a hash of the other fields and is left out.
pub record CompactResult (C : Type 0) : Type 0 where
  pub kept : List (Message C)
  pub dropped : List (Message C)
  pub before_tokens : ℤ
  pub after_tokens : ℤ
  pub trigger_tokens : ℤ
  pub target_tokens : ℤ
  pub compacted : Bool

pub data Compacted (C : Type 0) : Type 0 where
  failure : Failure → Compacted C
  result : CompactResult C → Compacted C

module _ {C : Type 0} where
  abbrev pub unmarked : List (List (Message C)) → List (Marked C)
  unmarked [] = []
  unmarked (u ∷ us) = (false, u) ∷ unmarked us

  -- `selected[0]`, where the first message is a system message.
  unfoldable pub mark_system : List (Message C) → List (Marked C) → List (Marked C)
  mark_system (m ∷ ms) (u ∷ us) = if str_eq m.role role_system then (true, u.1) ∷ us else u ∷ us
  mark_system [] us = us
  mark_system (m ∷ ms) [] = []

  unfoldable pub mark_named : List String → List (Marked C) → List (Marked C)
  unfolding has_name
  mark_named preserve [] = []
  mark_named preserve (u ∷ us) = (has_name preserve u.1 || u.0, u.1) ∷ mark_named preserve us

  unfoldable pub any_unit : (List (Message C) → Bool) → List (Marked C) → Bool
  any_unit test [] = false
  any_unit test (u ∷ us) = test u.1 || any_unit test us

  -- A loop from the newest unit that marks the first that passes the test, and breaks.
  unfoldable pub mark_last : (List (Message C) → Bool) → List (Marked C) → List (Marked C)
  unfolding any_unit
  mark_last test [] = []
  mark_last test (u ∷ us) =
      let rest = mark_last test us in
      if any_unit test us then u ∷ rest else (if test u.1 then (true, u.1) else u) ∷ us

  -- `selectMandatory`.
  unfoldable pub select_mandatory :
      List (List (Message C)) → List (Message C) → List String → List (Marked C)
  unfolding mark_system mark_named mark_last has_role is_complete
  select_mandatory units msgs preserve =
      mark_last is_complete
        (mark_last (has_role role_user) (mark_named preserve (mark_system msgs (unmarked units))))

  -- `collectSelected`, and the first half of `partitionUnits`.
  unfoldable pub collect_selected : List (Marked C) → List (Message C)
  collect_selected [] = []
  collect_selected ((true, u) ∷ us) = u ++ collect_selected us
  collect_selected ((false, u) ∷ us) = collect_selected us

  -- The second half of `partitionUnits`.
  unfoldable pub collect_dropped : List (Marked C) → List (Message C)
  collect_dropped [] = []
  collect_dropped ((true, u) ∷ us) = collect_dropped us
  collect_dropped ((false, u) ∷ us) = u ++ collect_dropped us

  -- The units that are still to visit, the newest first, put back before the ones visited.
  unfoldable pub put_back : List (Marked C) → List (Marked C) → List (Marked C)
  put_back [] visited = visited
  put_back (u ∷ older) visited = put_back older (u ∷ visited)

  -- `fillTail`, over the units that are still to visit, the newest first; none where an estimate
  -- fails.
  unfoldable pub fill_tail :
      (List (Message C) → Option ℤ)
      → ℤ
      → ℤ
      → ℕ
      → List (Marked C)
      → List (Marked C)
      → Option (List (Marked C))
  unfolding put_back collect_selected
  fill_tail estimate bound target tail [] visited = some visited
  fill_tail estimate bound target tail ((true, u) ∷ older) visited =
      fill_tail estimate bound target tail older ((true, u) ∷ visited)
  fill_tail estimate bound target tail ((false, u) ∷ older) visited =
      elim (ltb_int bound (pos (tail + length u))) [
        | true ↦ some (put_back older ((false, u) ∷ visited))
        | false ↦ elim (estimate (collect_selected (put_back older ((false, u) ∷ visited)) ++ u)) [
          | none ↦ none
          | some n ↦ elim (ltb_int target n) [
            | true ↦ some (put_back older ((false, u) ∷ visited))
            | false ↦ fill_tail estimate bound target (tail + length u) older ((true, u) ∷ visited)
          ]
        ]
      ]

  -- The part of Compact that follows the choice of the tail.
  unfoldable pub finish :
      (List (Message C) → Option ℤ) → Window → ℤ → Option (List (Marked C)) → Compacted C
  unfolding collect_selected collect_dropped compact_trigger compact_target
  finish estimate w before none = failure estimate_failed
  finish estimate w before (some units) = elim (estimate (collect_selected units)) [
    | none ↦ failure estimate_failed
    | some after ↦ result (record {
      kept = collect_selected units;
      dropped = collect_dropped units;
      before_tokens = before;
      after_tokens = after;
      trigger_tokens = compact_trigger w;
      target_tokens = compact_target w;
      compacted = true;
    })
  ]

  -- The part of Compact that a request at or above the trigger runs.
  unfoldable pub shrink : (List (Message C) → Option ℤ) → Window → ℤ → List (Marked C) → Compacted C
  unfolding collect_selected budget fill_tail put_back finish recent_tail_bound compact_target
  shrink estimate w before units = elim (estimate (collect_selected units)) [
    | none ↦ failure estimate_failed
    | some mandatory ↦ elim (ltb_int (budget w) mandatory) [
      | true ↦ failure retention_overflow
      | false ↦ finish estimate w before (
          fill_tail estimate (recent_tail_bound w.compaction) (compact_target w) 0
            (put_back units []) [])
    ]
  ]

  -- `Compact`.
  unfoldable pub compact : (List (Message C) → Option ℤ) → Window → List (Message C) → Compacted C
  unfolding validate_window has_role compact_trigger compact_target shrink build_units
      select_mandatory
  compact estimate w [] = elim (validate_window w) [
    | some e ↦ failure (window_invalid e)
    | none ↦ failure no_messages
  ]
  compact estimate w (m ∷ ms) = elim (validate_window w) [
    | some e ↦ failure (window_invalid e)
    | none ↦ elim (has_role role_user (m ∷ ms)) [
      | false ↦ failure no_objective
      | true ↦ elim (estimate (m ∷ ms)) [
        | none ↦ failure estimate_failed
        | some before ↦ elim (ltb_int before (compact_trigger w)) [
          | true ↦ result (record {
            kept = m ∷ ms;
            dropped = [];
            before_tokens = before;
            after_tokens = before;
            trigger_tokens = compact_trigger w;
            target_tokens = compact_target w;
            compacted = false;
          })
          | false ↦ shrink estimate w before (
              select_mandatory (build_units (length (m ∷ ms)) (m ∷ ms)) (m ∷ ms)
                w.compaction.preserve_names)
        ]
      ]
    ]
  ]
