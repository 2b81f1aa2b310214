-- ===== src/Ledger/Task.antt =====
-- ledger/task_state.go and ledger/errors.go: the record of one task, and its field rules.
-- A time is the number of nanoseconds since Go's zero time. `task` stands for the caller's payload,
-- a value of any type that the ledger stores and never reads.
use mivia_ai_sdk.Base.{
  ℕ, String, List, [], Bool, true, false, not, ◌&&◌, Option, none, some, str_eq, if◌then◌else◌,
  ◌==◌, contains,
}

-- `machine.Status` as the ledger reads it: its five constants, and any other text.
pub data Status : Type 0 where
  pending claimed completed failed blocked : Status
  other : String → Status

unfoldable pub status_eq : Status → Status → Bool
status_eq pending pending = true
status_eq claimed claimed = true
status_eq completed completed = true
status_eq failed failed = true
status_eq blocked blocked = true
status_eq (other s) (other t) = str_eq s t
status_eq _ _ = false

pub record TaskState : Type 0 where
  pub key : String
  pub status : Status
  pub sequence : ℕ
  pub owner : String
  pub fence : ℕ
  pub lease_until : ℕ
  pub needs : List String
  pub blocked_by : String
  pub task : ℕ
  pub rev : ℕ
  pub created_by : String
  pub created_at : ℕ
  pub updated_by : String
  pub updated_at : ℕ

-- The zero value of the struct.
abbrev pub zero_state : TaskState
zero_state = record {
  key = "";
  status = other "";
  sequence = 0;
  owner = "";
  fence = 0;
  lease_until = 0;
  needs = [];
  blocked_by = "";
  task = 0;
  rev = 0;
  created_by = "";
  created_at = 0;
  updated_by = "";
  updated_at = 0;
}

unfoldable pub is_terminal_status : Status → Bool
is_terminal_status completed = true
is_terminal_status failed = true
is_terminal_status blocked = true
is_terminal_status _ = false

unfoldable pub is_known_status : Status → Bool
is_known_status (other s) = false
is_known_status _ = true

-- The errors of `TaskState.Validate`, in the order in which it tests for them.
pub data Invalid : Type 0 where
  empty_key unknown_status self_need blocked_without_cause cause_outside_blocked : Invalid
  claimed_without_owner claimed_without_lease : Invalid

unfoldable pub validate_claimed : TaskState → Option Invalid
validate_claimed s =
    if str_eq s.owner ""
    then some claimed_without_owner
    else if s.lease_until == 0
    then some claimed_without_lease
    else none

-- `none` is a nil error.
unfoldable pub validate : TaskState → Option Invalid
unfolding is_known_status status_eq validate_claimed
validate s =
    if str_eq s.key ""
    then some empty_key
    else if not (is_known_status s.status)
    then some unknown_status
    else if contains s.needs s.key
    then some self_need
    else if status_eq s.status blocked && str_eq s.blocked_by ""
    then some blocked_without_cause
    else if not (status_eq s.status blocked) && not (str_eq s.blocked_by "")
    then some cause_outside_blocked
    else if status_eq s.status claimed
    then validate_claimed s
    else none

-- The errors of the operations. `canceled` is the context's error, `out_of_fuel` and `panicked` are
-- the model's: a retry loop that ran out of rounds, and an index out of range.
pub data Error : Type 0 where
  lease_active fenced not_stale not_claimed no_key status_argument empty_owner : Error
  invalid_max_entries invalid_lease invalid_options no_ledger : Error
  task_done task_failed task_blocked : Error
  empty_key_argument already_restored canceled out_of_fuel panicked : Error
  invalid_record : Invalid → Error
