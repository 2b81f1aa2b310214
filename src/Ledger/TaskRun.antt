-- ===== src/Ledger/TaskRun.antt =====
-- ledger/taskrun.go: Run admits, claims and completes one task around the caller's work.
use mivia_ai_sdk.Base.{ℕ, String, List, Bool, not, Option, none, some, str_eq}
use mivia_ai_sdk.Base.Int.{ℤ}
use mivia_ai_sdk.Ledger.Task.{
  TaskState, Status, completed, failed, blocked, Error, no_ledger, invalid_options, task_done,
  task_failed, task_blocked,
}
use mivia_ai_sdk.Ledger.Program.{
  Program, Result, ok, err, return, fail, guard, attempt, ◌>>=◌, ◌>>◌,
}
use mivia_ai_sdk.Ledger.Leases.{validate_lease, claim}
use mivia_ai_sdk.Ledger.Completion.{complete}
use mivia_ai_sdk.Ledger.Admission.{Submission, admit, state}

-- `has_ledger` is `opts.Ledger != nil`; `clock i` is the i-th reading of `opts.Now`.
pub record Options : Type 0 where
  pub has_ledger : Bool
  pub actor : String
  pub owner : String
  pub lease : ℤ
  pub clock : ℕ → ℕ

pub record Task : Type 0 where
  pub key : String
  pub seq : ℕ
  pub description : ℕ
  pub needs : List String

-- What Run returns when the work ran: nil, the work's own error (a token of the caller's), or that
-- error joined with the one of Complete.
pub data Outcome : Type 0 where
  finished : Outcome
  body_error : ℕ → Outcome
  joined : ℕ → Error → Outcome

unfoldable pub submission : Options → Task → Submission
submission o t = record {
  actor = o.actor;
  key = t.key;
  seq = t.seq;
  task = t.description;
  now = o.clock 0;
  needs = t.needs;
}

-- The terminal statuses end Run before any claim.
unfoldable pub check_open : Option TaskState → Program (Unit {0})
check_open none = return tt
check_open (some t) = elim t.status [
  | completed ↦ fail task_done
  | failed ↦ fail task_failed
  | blocked ↦ fail task_blocked
  | _ ↦ return tt
]

unfoldable pub body_status : Option ℕ → Status
body_status none = completed
body_status (some e) = failed

unfoldable pub outcome : Option ℕ → Result (Unit {0}) → Program Outcome
outcome none (ok _) = return finished
outcome none (err e) = fail e
outcome (some b) (ok _) = return (body_error b)
outcome (some b) (err e) = return (joined b e)

-- `work` is the error that the caller's function returns, `none` for nil.
unfoldable pub run : ℕ → ℕ → Options → Task → Option ℕ → Program Outcome
unfolding submission check_open body_status outcome validate_lease state attempt
run walks rounds o t work = do
  guard o.has_ledger no_ledger
  guard (not (str_eq o.owner "")) invalid_options
  guard (not (str_eq o.actor "")) invalid_options
  guard (validate_lease o.lease) invalid_options
  guard (not (str_eq t.key "")) invalid_options
  admit rounds (submission o t)
  st ← state t.key
  check_open st
  fence ← claim walks rounds o.actor t.key o.owner o.lease (o.clock 1)
  ended ← attempt (complete rounds o.actor t.key o.owner fence (body_status work) (o.clock 2))
  outcome work ended
