-- ===== src/Ledger/Snapshots.antt =====
-- ledger/snapshot.go: Snapshot, its Validate, and Restore.
pub mod Roundtrip
use mivia_ai_sdk.Base.{ℕ, suc, List, [], ◌∷◌, true, false, Option, none, some}
use mivia_ai_sdk.Ledger.Task.{TaskState, zero_state, Invalid, validate, already_restored}
use mivia_ai_sdk.Ledger.Program.{Program, swapping, ranging, return, fail, ◌>>◌}
use mivia_ai_sdk.Ledger.Blocking.{check_valid}

unfoldable pub snapshot : Program (List TaskState)
snapshot = ranging return

-- The index and the fault of the first invalid entry, counted from `i`.
unfoldable pub snapshot_validate : ℕ → List TaskState → Option (ℕ × Invalid)
snapshot_validate i [] = none
snapshot_validate i (t ∷ ts) = elim (validate t) [
  | some e ↦ some (i, e)
  | none ↦ snapshot_validate (suc i) ts
]

-- The records before the first fault stay inserted.
unfoldable pub restore : List TaskState → Program (Unit {0})
unfolding check_valid
restore [] = return tt
restore (t ∷ ts) = do
  check_valid t
  swapping t.key zero_state t (λ b. elim b [ true ↦ restore ts | false ↦ fail already_restored ])
