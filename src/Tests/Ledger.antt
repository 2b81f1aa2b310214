-- ===== src/Tests/Ledger.antt =====
-- The package ledger on a store with one open task, and on one with a completed task.
use mathlib.Core.List.Perm
use mivia_ai_sdk.Base.{
  ℕ, ◌+◌, ◌≤◌, ◌≡◌, ◌↔◌, refl, inl, subst, ◌∙◌, String, List, [], ◌∷◌, Bool, false, none, some,
  arith, lookup, eq_iff, contains,
}
use mivia_ai_sdk.Base.Int.{pos}
use mivia_ai_sdk.Ledger.Task.{
  TaskState, zero_state, validate, pending, completed, is_terminal_status,
}
use mivia_ai_sdk.Ledger.Store.{MemStore, new_mem_store, compare_and_swap}
use mivia_ai_sdk.Ledger.Snapshots.{snapshot, restore}
use mivia_ai_sdk.Ledger.Snapshots.Roundtrip.{restored, restore-snapshot}
use mivia_ai_sdk.Ledger.Store.Retention.{key_fence, FencesUnder}
use mivia_ai_sdk.Ledger.Store.Swap.{Swapped, compare_and_swap-Swapped}
use mivia_ai_sdk.Ledger.Program.{Moment, run_alone, ok}
use mivia_ai_sdk.Ledger.Blocking.{blocking_ancestor}
use mivia_ai_sdk.Ledger.Leases.{claim}
use mivia_ai_sdk.Ledger.Leases.Grants.{granted, claim_grants}
use mivia_ai_sdk.Ledger.Interleaving.Writes.{IsSound}
use mivia_ai_sdk.Ledger.Interleaving.Calls.{
  Call, claiming, interleave, interleave-IsSound, interleave-key_fence, interleave-terminal,
}
use mivia_ai_sdk.Ledger.Validity.{IsValid, validate_iff}

abbrev open_task : TaskState
open_task = record zero_state { key = "a"; status = pending; sequence = 1; fence = 4 }

abbrev done_task : TaskState
done_task = record zero_state { key = "a"; status = completed; sequence = 1; fence = 4 }

abbrev store_of : TaskState → MemStore
store_of t = record {
  tasks = ("a", t) ∷ [];
  max_entries = 0;
  evict_queue = "a" ∷ [];
  fence_floor = 2;
}

abbrev live_moment : Moment
live_moment = record { is_canceled = false; now = λ f. 100 }

abbrev two_claims : List Call
two_claims =
    claiming 3 3 "x" "a" "worker1" (pos 50) 100 ∷ claiming 3 3 "y" "a" "worker2" (pos 50) 100 ∷ []

-- Both callers load before either writes.
abbrev racing : List (ℕ × Moment)
racing =
    (0, live_moment)
    ∷ (1, live_moment)
    ∷ (0, live_moment)
    ∷ (1, live_moment)
    ∷ (0, live_moment)
    ∷ (1, live_moment)
    ∷ []

open_task-valid : validate open_task ≡ none
unfolding validate contains
open_task-valid = refl

done_task-valid : validate done_task ≡ none
unfolding validate contains
done_task-valid = refl

only_record :
    (t u : TaskState) (k : String) → lookup k (store_of t).tasks ≡ some u → ("a" ≡ k) × (t ≡ u)
unfolding lookup
only_record t u k h = (ground (arith, eq_iff "a" k), ground (arith, eq_iff "a" k))

store_of-IsSound : (t : TaskState) → t.key ≡ "a" → validate t ≡ none → IsSound (store_of t)
store_of-IsSound t key v = record {
  queue = record { distinct = ((λ i. i), tt); queued = Perm.refl _ };
  stored = λ k u h.
      let (a, e) = only_record t u k h in
      (subst (λ x. x.key ≡ k) e (key ∙ a), subst (λ x. validate x ≡ none) e v);
}

abbrev open_store : MemStore
open_store = store_of open_task

open_store-IsSound : IsSound open_store
open_store-IsSound = store_of-IsSound open_task refl open_task-valid

store_of-FencesUnder : FencesUnder 4 open_store
store_of-FencesUnder = record {
  floor = omega arith;
  stored =
      λ k u h. let (a, e) = only_record open_task u k h in subst (λ x. x.fence ≤ 4) e (omega arith);
}

interleave-IsSound_example : IsSound (interleave two_claims racing open_store)
interleave-IsSound_example = interleave-IsSound two_claims racing open_store open_store-IsSound

interleave-key_fence_example :
    key_fence open_store "a" ≤ key_fence (interleave two_claims racing open_store) "a"
interleave-key_fence_example =
    interleave-key_fence two_claims racing open_store 4 "a" open_store-IsSound store_of-FencesUnder
      (omega arith)

interleave-terminal_example :
    lookup "a" (interleave two_claims racing (store_of done_task)).tasks ≡ some done_task
interleave-terminal_example =
    interleave-terminal two_claims racing (store_of done_task) "a" done_task
      (store_of-IsSound done_task refl done_task-valid) refl (unfold lookup in refl)
      (unfold is_terminal_status in refl)

validate_iff_example : (validate open_task ≡ none) ↔ IsValid open_task
validate_iff_example = validate_iff open_task

compare_and_swap-Swapped_example :
    (b : Bool) × (m' : MemStore) × (compare_and_swap (λ f. 100) "a" open_task done_task open_store
      ≡ some (b, m'))
    × Swapped (λ f. 100) "a" open_task done_task open_store b m'
compare_and_swap-Swapped_example =
    compare_and_swap-Swapped (λ f. 100) "a" open_task done_task open_store open_store-IsSound.queue

nothing_blocks : run_alone (λ f. 100) (blocking_ancestor 3 []) open_store ≡ (ok none, open_store)
unfolding blocking_ancestor run_alone
nothing_blocks = refl

claim_grants_example :
    (m' : MemStore) × (run_alone
        (λ f. 100)
        (claim 3 (1 + 1) "x" "a" "worker1" (pos 50) 100)
        open_store
      ≡ (ok (4 + 1), m'))
    × (lookup "a" m'.tasks ≡ some (granted "x" "worker1" (100 + 50) 100 open_task))
claim_grants_example =
    claim_grants (λ f. 100) 3 1 "x" "a" "worker1" (pos 50) 100 open_store open_task
      open_store-IsSound (unfold lookup in refl) (λ e. ground (arith, (eq_iff "worker1" "").1 e))
      (omega arith) (inl refl) nothing_blocks (omega arith)

abbrev new_store : MemStore
new_store = record { tasks = []; max_entries = 0; evict_queue = []; fence_floor = 0 }

restore-snapshot_example :
    (tasks : List TaskState) × (m' : MemStore) × (run_alone (λ f. 100) snapshot open_store
      ≡ (ok tasks, open_store))
    × (run_alone (λ f. 100) (restore tasks) new_store ≡ (ok tt, m'))
    × ((k : String) → lookup k m'.tasks ≡ restored (lookup k open_store.tasks))
restore-snapshot_example =
    restore-snapshot (λ f. 100) open_store new_store open_store-IsSound
      (unfold new_mem_store in refl)
