-- ===== src/Ledger/Completion.antt =====
-- ledger/complete.go: Complete, and the scan that blocks the dependents of a failed task.
use mivia_ai_sdk.Base.{
  ℕ, zero, suc, ◌+◌, String, List, [], ◌∷◌, Bool, true, false, ◌||◌, Option, none, some, str_eq,
  contains, length, ◌==◌, if◌then◌else◌,
}
use mivia_ai_sdk.Base.Sort.{sort}
use mivia_ai_sdk.Ledger.Task.{
  TaskState, Status, claimed, completed, failed, status_eq, is_terminal_status, fenced, not_claimed,
  status_argument, out_of_fuel,
}
use mivia_ai_sdk.Ledger.Program.{
  Program, loading, ranging, completed_event, return, fail, guard, ◌>>=◌, ◌>>◌,
}
use mivia_ai_sdk.Ledger.Blocking.{or_no_key, write_or_retry, block_one}

-- Does a need of the record stand in `bad`?
unfoldable pub meets : List String → List String → Bool
meets bad [] = false
meets bad (n ∷ ns) = contains bad n || meets bad ns

-- The two sets of `transitiveDependents`; `blocked` has the dependents, `bad` the failed key too.
pub record Marks : Type 0 where
  pub bad : List String
  pub blocked : List String
  pub added : Bool

unfoldable pub mark : TaskState → Marks → Marks
unfolding meets
mark t s =
    if contains s.blocked t.key
    then s
    else if meets s.bad t.needs
    then record { bad = t.key ∷ s.bad; blocked = t.key ∷ s.blocked; added = true }
    else s

-- One pass over the list.
unfoldable pub mark_all : List TaskState → Marks → Marks
unfolding mark
mark_all [] s = s
mark_all (t ∷ ts) s = mark_all ts (mark t s)

-- The passes, until one adds nothing.
unfoldable pub mark_loop : ℕ → List TaskState → Marks → Option Marks
unfolding mark_all
mark_loop zero list s = none
mark_loop (suc f) list s =
    let s' = mark_all list (record s { added = false }) in
    elim s'.added [ true ↦ mark_loop f list s' | false ↦ some s' ]

abbrev pub no_marks : String → Marks
no_marks cause = record { bad = cause ∷ []; blocked = []; added = false }

unfoldable pub transitive_dependents : List TaskState → String → Option (List String)
unfolding mark_loop sort
transitive_dependents list cause = elim (mark_loop (length list + 1) list (no_marks cause)) [
  | none ↦ none
  | some s ↦ some (sort s.blocked)
]

-- The map `byKey`: of two records with one key the later one.
unfoldable pub by_key : String → List TaskState → Option TaskState
by_key k [] = none
by_key k (t ∷ ts) = elim (by_key k ts) [
  | some u ↦ some u
  | none ↦ if str_eq t.key k then some t else none
]

-- The loop over the dependents. A record that is already terminal is left alone.
unfoldable pub block_each :
    ℕ → String → ℕ → List TaskState → String → List String → Program (Unit {0})
unfolding by_key block_one
block_each rounds actor now list cause [] = return tt
block_each rounds actor now list cause (k ∷ ks) =
    let rest = block_each rounds actor now list cause ks in
    elim (by_key k list) [
      | none ↦ rest
      | some cur ↦ elim (is_terminal_status cur.status) [
        | true ↦ rest
        | false ↦ block_one rounds actor now k cur cause >> rest
      ]
    ]

unfoldable pub block_dependents : ℕ → String → ℕ → String → Program (Unit {0})
unfolding block_each transitive_dependents
block_dependents rounds actor now cause = ranging (λ list. elim (transitive_dependents list cause) [
  | none ↦ fail out_of_fuel
  | some ks ↦ block_each rounds actor now list cause ks
])

unfoldable pub completed_record : String → Status → ℕ → TaskState → TaskState
completed_record actor status now cur = record cur {
  status = status;
  updated_by = actor;
  updated_at = now;
}

unfoldable pub complete_loop : ℕ → String → String → ℕ → Status → ℕ → Program (Unit {0})
unfolding or_no_key completed_record write_or_retry status_eq
complete_loop zero actor key fence status now = fail out_of_fuel
complete_loop (suc r) actor key fence status now = loading key (λ found. do
  cur ← or_no_key found
  guard (cur.fence == fence) fenced
  guard (status_eq cur.status claimed) not_claimed
  write_or_retry key cur (completed_record actor status now cur) completed_event
      (if status_eq status failed then block_dependents (suc r) actor now key else return tt)
      (complete_loop r actor key fence status now))

-- The owner is named in the event's text only.
unfoldable pub complete : ℕ → String → String → String → ℕ → Status → ℕ → Program (Unit {0})
unfolding complete_loop status_eq
complete rounds actor key owner fence status now = do
  guard (status_eq status completed || status_eq status failed) status_argument
  complete_loop rounds actor key fence status now
