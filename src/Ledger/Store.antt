-- ===== src/Ledger/Store.antt =====
-- ledger/store.go and ledger/store_eviction.go: the in-memory store.
-- `none` as a result is a panic or a loop that ran out of fuel; the proofs show that neither occurs.
pub mod Eviction
pub mod Retention
pub mod Swap
pub mod Landing
use mivia_ai_sdk.Base.{
  ℕ, zero, suc, ◌+◌, ◌%◌, ◌^◌, String, List, [], ◌∷◌, ◌++◌, Bool, true, false, ◌||◌, not, ◌&&◌,
  Option, none, some, str_eq, if◌then◌else◌, ltb, leb, ◌==◌, length, Assoc, lookup, insert, remove,
}
use mivia_ai_sdk.Base.Int.{ℤ, pos, negsuc}
use mivia_ai_sdk.Ledger.Task.{TaskState, zero_state, Status, claimed, other, status_eq}

-- The modulus of the uint64 counters `FenceToken` and `Rev`.
abbrev pub u64_mod : ℕ
u64_mod = 2 ^ 64

pub record MemStore : Type 0 where
  pub tasks : Assoc TaskState
  pub max_entries : ℕ
  pub evict_queue : List String
  pub fence_floor : ℕ

-- `NewMemStoreWithOptions`; a negative bound is refused.
unfoldable pub new_mem_store : ℤ → Option MemStore
new_mem_store (pos n) =
    some (record { tasks = []; max_entries = n; evict_queue = []; fence_floor = 0 })
new_mem_store (negsuc n) = none

abbrev pub evict_scan_budget : ℕ
evict_scan_budget = 8

-- What `m.tasks[k]` reads: the zero value for a missing key.
unfoldable pub record_or_zero : Option TaskState → TaskState
record_or_zero none = zero_state
record_or_zero (some t) = t

-- The record that the current write touches, and one that holds a live lease, are kept.
unfoldable pub is_protected : ℕ → String → String → TaskState → Bool
unfolding status_eq
is_protected now exempt k t =
    str_eq k exempt || (status_eq t.status claimed && ltb now t.lease_until)

unfoldable pub rotate_head : MemStore → String → List String → MemStore
rotate_head m k rest = record m { evict_queue = rest ++ k ∷ [] }

unfoldable pub delete_head : MemStore → String → List String → MemStore
delete_head m k rest =
    let t = record_or_zero (lookup k m.tasks) in
    record m {
      tasks = remove k m.tasks;
      evict_queue = rest;
      fence_floor = if ltb m.fence_floor t.fence then t.fence else m.fence_floor;
    }

-- The loop of `evictOverCap`. `now f` is the clock when `f` rounds of fuel are left.
unfoldable pub evict_loop : ℕ → ℕ → (ℕ → ℕ) → String → MemStore → Option MemStore
unfolding rotate_head delete_head
evict_loop zero rotations now exempt m = none
evict_loop (suc f) rotations now exempt m = elim (leb (length m.tasks) m.max_entries) [
  | true ↦ some m
  | false ↦ elim m.evict_queue [
    | [] ↦ none
    | k ∷ rest ↦ elim (is_protected (now f) exempt k (record_or_zero (lookup k m.tasks))) [
      | true ↦ elim (leb evict_scan_budget (rotations + 1)) [
        | true ↦ some (rotate_head m k rest)
        | false ↦ evict_loop f (rotations + 1) now exempt (rotate_head m k rest)
      ]
      | false ↦ evict_loop f rotations now exempt (delete_head m k rest)
    ]
  ]
]

-- Each round deletes a record or is one of eight rotations.
unfoldable pub evict_over_cap : (ℕ → ℕ) → String → MemStore → Option MemStore
evict_over_cap now exempt m =
    if m.max_entries == 0
    then some m
    else evict_loop (length m.tasks + evict_scan_budget + 1) 0 now exempt m

-- `Load`, for a context that is not canceled.
unfoldable pub load : String → MemStore → Option TaskState
load k m = lookup k m.tasks

-- The zero tuple (Sequence, Status, Fence, Rev) asks for an insert.
unfoldable pub is_insert : TaskState → Bool
unfolding status_eq
is_insert old =
    old.sequence == 0 && status_eq old.status (other "") && old.fence == 0 && old.rev == 0

unfoldable pub same_version : TaskState → TaskState → Bool
unfolding status_eq
same_version cur old =
    cur.sequence == old.sequence
    && status_eq cur.status old.status
    && cur.fence == old.fence
    && cur.rev == old.rev

unfoldable pub insert_new : MemStore → String → TaskState → MemStore
insert_new m k new = record m {
  tasks =
      insert k
        (record new {
          rev = 0;
          fence = if ltb new.fence m.fence_floor then m.fence_floor else new.fence;
        })
        m.tasks;
  evict_queue = m.evict_queue ++ k ∷ [];
}

unfoldable pub overwrite : MemStore → String → TaskState → TaskState → MemStore
overwrite m k cur new = record m {
  tasks = insert k (record new { rev = (cur.rev + 1) % u64_mod }) m.tasks;
}

abbrev pub with_result : Bool → Option MemStore → Option (Bool × MemStore)
with_result b none = none
with_result b (some m) = some (b, m)

-- `CompareAndSwap`, for a context that is not canceled.
unfoldable pub swap_found :
    (ℕ → ℕ)
    → MemStore
    → String
    → TaskState
    → TaskState
    → Option TaskState
    → Option (Bool × MemStore)
unfolding is_insert same_version insert_new overwrite
swap_found now m k old new none =
    if is_insert old
    then with_result true (evict_over_cap now k (insert_new m k new))
    else some (false, m)
swap_found now m k old new (some cur) =
    if same_version cur old
    then with_result true (evict_over_cap now k (overwrite m k cur new))
    else some (false, m)

unfoldable pub compare_and_swap :
    (ℕ → ℕ) → String → TaskState → TaskState → MemStore → Option (Bool × MemStore)
unfolding swap_found
compare_and_swap now k old new m = swap_found now m k old new (lookup k m.tasks)
