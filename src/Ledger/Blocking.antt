-- ===== src/Ledger/Blocking.antt =====
-- ledger/ledger.go and ledger/complete.go: the reads of a need's status, the walk over the needs,
-- and the write that blocks one record. Loops that may retry take the number of rounds as fuel.
use mivia_ai_sdk.Base.{
  ℕ, zero, suc, String, List, [], ◌∷◌, ◌++◌, Bool, true, false, ◌||◌, Option, none, some, contains,
  if◌then◌else◌,
}
use mivia_ai_sdk.Ledger.Task.{
  TaskState, Status, failed, blocked, status_eq, is_terminal_status, validate, no_key, out_of_fuel,
  invalid_record,
}
use mivia_ai_sdk.Ledger.Program.{
  Program, loading, swapping, poll, emit, EventName, blocked_event, return, fail, ◌>>◌,
}

-- `if err := next.Validate(); err != nil { return err }`.
unfoldable pub check_valid : TaskState → Program (Unit {0})
check_valid next = elim (validate next) [ none ↦ return tt | some e ↦ fail (invalid_record e) ]

unfoldable pub or_no_key : Option TaskState → Program TaskState
or_no_key none = fail no_key
or_no_key (some t) = return t

-- The end of each retry loop: validate, compare and swap, then emit and go on, or look at the
-- context and go round again.
unfoldable pub write_or_retry :
    {A : Type 0} → String → TaskState → TaskState → EventName → Program A → Program A → Program A
unfolding check_valid
write_or_retry key cur next event after retry = do
  check_valid next
  swapping key cur next (λ b. if b then emit event key after else poll retry)

unfoldable pub is_blocking_status : Status → Bool
unfolding status_eq
is_blocking_status s = status_eq s failed || status_eq s blocked

unfoldable pub is_blocking : Option TaskState → Bool
unfolding is_blocking_status
is_blocking none = false
is_blocking (some t) = is_blocking_status t.status

-- `blockingNeed`.
unfoldable pub blocking_need : List String → Program (Option String)
unfolding is_blocking
blocking_need [] = return none
blocking_need (n ∷ ns) =
    loading n (λ st. elim (is_blocking st) [ true ↦ return (some n) | false ↦ blocking_need ns ])

-- `enqueue` of `blockingAncestor`: each key enters the queue once.
unfoldable pub enqueue : List String → List String → List String → List String × List String
enqueue [] seen queue = (seen, queue)
enqueue (k ∷ ks) seen queue =
    enqueue ks (if contains seen k then seen else k ∷ seen)
      (if contains seen k then queue else queue ++ k ∷ [])

-- The breadth-first loop of `blockingAncestor`, with the number of rounds as fuel.
unfoldable pub walk : ℕ → List String → List String → Program (Option String)
unfolding is_blocking_status enqueue
walk zero seen queue = fail out_of_fuel
walk (suc f) seen [] = return none
walk (suc f) seen (k ∷ queue) = loading k (λ st. elim st [
  | none ↦ walk f seen queue
  | some t ↦ elim (is_blocking_status t.status) [
    | true ↦ return (some k)
    | false ↦ walk f (enqueue t.needs seen queue).0 (enqueue t.needs seen queue).1
  ]
])

unfoldable pub blocking_ancestor : ℕ → List String → Program (Option String)
unfolding walk enqueue
blocking_ancestor walks needs = walk walks (enqueue needs [] []).0 (enqueue needs [] []).1

-- The record that `blockOne` writes.
unfoldable pub blocked_record : String → ℕ → TaskState → String → TaskState
blocked_record actor now cur cause = record cur {
  status = blocked;
  blocked_by = cause;
  updated_by = actor;
  updated_at = now;
}

unfoldable pub block_one : ℕ → String → ℕ → String → TaskState → String → Program (Unit {0})
unfolding blocked_record check_valid
block_one zero actor now k cur cause = fail out_of_fuel
block_one (suc r) actor now k cur cause = do
  check_valid (blocked_record actor now cur cause)
  swapping k cur (blocked_record actor now cur cause) (λ b. elim b [
    | true ↦ emit blocked_event k (return tt)
    | false ↦ loading k (λ fresh. elim fresh [
      | none ↦ return tt
      | some t ↦ elim (is_terminal_status t.status) [
        | true ↦ return tt
        | false ↦ poll (block_one r actor now k t cause)
      ]
    ])
  ])
