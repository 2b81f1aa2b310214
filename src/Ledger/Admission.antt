-- ===== src/Ledger/Admission.antt =====
-- ledger/ledger.go: Admit, State and Blocked.
use mivia_ai_sdk.Base.{
  ℕ, zero, suc, String, List, Bool, true, false, ◌&&◌, not, Option, none, some, str_eq, ltb,
  if◌then◌else◌,
}
use mivia_ai_sdk.Ledger.Task.{
  TaskState, zero_state, pending, blocked, status_eq, is_terminal_status, empty_key_argument,
  out_of_fuel,
}
use mivia_ai_sdk.Ledger.Program.{
  Program, loading, swapping, poll, emit, admitted, blocked_event, return, fail, guard, ◌>>=◌, ◌>>◌,
}
use mivia_ai_sdk.Ledger.Blocking.{check_valid, blocking_need, block_one}

unfoldable pub admit_eligible : TaskState → ℕ → Bool
admit_eligible cur seq = not (is_terminal_status cur.status) && ltb cur.sequence seq

-- The arguments of a submission.
pub record Submission : Type 0 where
  pub actor : String
  pub key : String
  pub seq : ℕ
  pub task : ℕ
  pub now : ℕ
  pub needs : List String

-- The record that Admit writes over `old`. `found` is the stored record, which gives the creation.
unfoldable pub admitted_record : Submission → Option TaskState → Option String → TaskState
admitted_record a found blocker = record zero_state {
  key = a.key;
  status = elim blocker [ none ↦ pending | some b ↦ blocked ];
  sequence = a.seq;
  needs = a.needs;
  blocked_by = elim blocker [ none ↦ "" | some b ↦ b ];
  task = a.task;
  fence = elim found [ none ↦ 0 | some t ↦ t.fence ];
  created_by = elim found [ none ↦ a.actor | some t ↦ t.created_by ];
  created_at = elim found [ none ↦ a.now | some t ↦ t.created_at ];
  updated_by = a.actor;
  updated_at = a.now;
}

unfoldable pub old_record : Option TaskState → TaskState
old_record none = zero_state
old_record (some t) = t

-- Does the stored record, if any, let the submission in?
unfoldable pub lets_in : Option TaskState → ℕ → Bool
unfolding admit_eligible
lets_in none seq = true
lets_in (some t) seq = admit_eligible t seq

-- `recheckNeeds`: was the record blocked after its own insert?
unfoldable pub recheck_needs : ℕ → Submission → Program Bool
recheck_needs rounds a = do
  blocker ← blocking_need a.needs
  elim blocker [
    | none ↦ return false
    | some b ↦ loading a.key (λ cur. elim cur [
      | none ↦ return false
      | some t ↦ elim (is_terminal_status t.status) [
        | true ↦ return false
        | false ↦ (do block_one rounds a.actor a.now a.key t b; return true)
      ]
    ])
  ]

-- What Admit does once its write has landed.
unfoldable pub after_admit : ℕ → Submission → Option String → Program Bool
unfolding recheck_needs
after_admit rounds a (some b) = emit blocked_event a.key (return true)
after_admit rounds a none = do
  late ← recheck_needs rounds a
  if late then return true else emit admitted a.key (return true)

unfoldable pub admit_loop : ℕ → Submission → Program Bool
unfolding after_admit lets_in admitted_record old_record check_valid
admit_loop zero a = fail out_of_fuel
admit_loop (suc r) a = loading a.key (λ found. elim (lets_in found a.seq) [
  | false ↦ return false
  | true ↦ (do
    blocker ← blocking_need a.needs
    check_valid (admitted_record a found blocker)
    swapping a.key (old_record found) (admitted_record a found blocker)
        (λ b. elim b [ true ↦ after_admit (suc r) a blocker | false ↦ poll (admit_loop r a) ]))
])

unfoldable pub admit : ℕ → Submission → Program Bool
unfolding admit_loop
admit rounds a = do guard (not (str_eq a.key "")) empty_key_argument; admit_loop rounds a

-- `State`.
unfoldable pub state : String → Program (Option TaskState)
state key = loading key return

-- `Blocked`: the blocking ancestor of a blocked record.
unfoldable pub blocked_cause : String → Program (Option String)
unfolding status_eq
blocked_cause key = loading key (λ cur. elim cur [
  | none ↦ return none
  | some t ↦ if status_eq t.status blocked then return (some t.blocked_by) else return none
])
