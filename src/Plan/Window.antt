-- ===== src/Plan/Window.antt =====
-- context/plan/window.go and context/plan/compaction.go: the window, its thresholds and its rules.
pub mod Thresholds
use mivia_ai_sdk.Base.{
  ℕ, String, List, [], ◌∷◌, Bool, true, false, ◌&&◌, ◌||◌, not, Option, none, some, str_eq,
  if◌then◌else◌, contains,
}
use mivia_ai_sdk.Base.Int.{ℤ, pos, leb_int, ltb_int, sub_int, mul_int, quot_int}

pub record Compaction : Type 0 where
  pub trigger_percent : ℤ
  pub target_percent : ℤ
  pub target_tokens : ℤ
  pub recent_tail : ℤ
  pub preserve_names : List String

pub record Window : Type 0 where
  pub max_tokens : ℤ
  pub reserve : ℤ
  pub compaction : Compaction

-- What the rules refuse, in the order of their tests.
pub data Fault : Type 0 where
  max_tokens_not_positive reserve_negative reserve_too_large : Fault
  trigger_outside target_outside target_above_trigger : Fault
  target_negative tail_negative tail_too_long : Fault
  empty_name repeated_name : Fault
  target_over_budget : Fault

-- `triggerPercent`, `targetPercent` and `recentTailBound`: a value that is not positive means the
-- default.
unfoldable pub or_default : ℤ → ℕ → ℤ
or_default n default = if leb_int n (pos 0) then pos default else n

unfoldable pub trigger_percent_of : Compaction → ℤ
unfolding or_default
trigger_percent_of c = or_default c.trigger_percent 100

unfoldable pub target_percent_of : Compaction → ℤ
unfolding or_default
target_percent_of c = or_default c.target_percent 10

unfoldable pub recent_tail_bound : Compaction → ℤ
unfolding or_default
recent_tail_bound c = or_default c.recent_tail 8

abbrev outside : ℤ → Bool
outside p = ltb_int p (pos 0) || ltb_int (pos 100) p

abbrev is_zero : ℤ → Bool
is_zero n = leb_int n (pos 0) && leb_int (pos 0) n

-- `validatePercents`.
unfoldable pub validate_percents : Compaction → Option Fault
unfolding trigger_percent_of target_percent_of
validate_percents c =
    if outside c.trigger_percent
    then some trigger_outside
    else if outside c.target_percent
    then some target_outside
    else if is_zero c.target_tokens && leb_int (trigger_percent_of c) (target_percent_of c)
    then some target_above_trigger
    else none

-- `validatePreserveNames`, after the names in `seen`.
unfoldable pub validate_names : List String → List String → Option Fault
validate_names seen [] = none
validate_names seen (n ∷ ns) =
    let rest = validate_names (n ∷ seen) ns in
    if str_eq n "" then some empty_name else if contains seen n then some repeated_name else rest

-- `Compaction.Validate`.
unfoldable pub validate_compaction : Compaction → Option Fault
unfolding validate_percents validate_names
validate_compaction c = elim (validate_percents c) [
  | some e ↦ some e
  | none ↦
      if ltb_int c.target_tokens (pos 0)
      then some target_negative
      else if ltb_int c.recent_tail (pos 0)
      then some tail_negative
      else if ltb_int (pos 64) c.recent_tail
      then some tail_too_long
      else validate_names [] c.preserve_names
]

unfoldable pub budget : Window → ℤ
unfolding sub_int
budget w = sub_int w.max_tokens w.reserve

-- `Window.Validate`.
unfoldable pub validate_window : Window → Option Fault
unfolding validate_compaction budget
validate_window w =
    if leb_int w.max_tokens (pos 0)
    then some max_tokens_not_positive
    else if ltb_int w.reserve (pos 0)
    then some reserve_negative
    else if leb_int w.max_tokens w.reserve
    then some reserve_too_large
    else elim (validate_compaction w.compaction) [
      | some e ↦ some e
      | none ↦
          if ltb_int (pos 0) w.compaction.target_tokens
            && leb_int (budget w) w.compaction.target_tokens
          then some target_over_budget
          else none
    ]

-- `CompactTrigger`.
unfoldable pub compact_trigger : Window → ℤ
unfolding budget trigger_percent_of mul_int quot_int
compact_trigger w = quot_int (mul_int (budget w) (trigger_percent_of w.compaction)) 100

-- `CompactTarget`.
unfoldable pub compact_target : Window → ℤ
unfolding budget target_percent_of mul_int quot_int
compact_target w =
    if ltb_int (pos 0) w.compaction.target_tokens
    then w.compaction.target_tokens
    else quot_int (mul_int (budget w) (target_percent_of w.compaction)) 100
