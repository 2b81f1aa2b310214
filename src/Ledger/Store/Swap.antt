-- ===== src/Ledger/Store/Swap.antt =====
-- ledger/store.go: the outcomes of `CompareAndSwap`, and what it keeps.
use mathlib.Core.List.Perm
use mivia_ai_sdk.Base.{
  ℕ, ◌≡◌, refl, inl, inr, String, [], ◌∷◌, Bool, true, false, none, some, keys, lookup, Bool-cases,
  Option-cases,
}
use mivia_ai_sdk.Base.Keys.{Distinct-append_one, not-In-keys, keys-insert_new, keys-insert_old}
use mivia_ai_sdk.Ledger.Task.{TaskState}
use mivia_ai_sdk.Ledger.Store.{
  MemStore, compare_and_swap, swap_found, is_insert, same_version, insert_new, overwrite,
}
use mivia_ai_sdk.Ledger.Store.Eviction.{IsQueued, Evicts, evict_over_cap-Evicts, Evicts-IsQueued}

-- A swap leaves the store alone, inserts under an absent key, or overwrites the version it names.
pub data Swapped (now : ℕ → ℕ) (k : String) (old new : TaskState) (m : MemStore)
    : Bool → MemStore → Type 0 where
  refused : Swapped now k old new m false m
  inserted :
      (m' : MemStore)
      → lookup k m.tasks ≡ none
      → is_insert old ≡ true
      → Evicts now k (insert_new m k new) m'
      → Swapped now k old new m true m'
  overwritten :
      (cur : TaskState) (m' : MemStore)
      → lookup k m.tasks ≡ some cur
      → same_version cur old ≡ true
      → Evicts now k (overwrite m k cur new) m'
      → Swapped now k old new m true m'

insert_new-IsQueued :
    (m : MemStore) (k : String) (new : TaskState)
    → IsQueued m
    → lookup k m.tasks ≡ none
    → IsQueued (insert_new m k new)
unfolding insert_new
insert_new-IsQueued m k new w e = record {
  distinct =
      rw (keys-insert_new k _ m.tasks e)
        (Distinct-append_one (keys m.tasks) k w.distinct (not-In-keys k m.tasks e));
  queued = rw (keys-insert_new k _ m.tasks e) (Perm.append_right (k ∷ []) w.queued);
}

pub overwrite-IsQueued :
    (m : MemStore) (k : String) (cur new : TaskState)
    → IsQueued m
    → lookup k m.tasks ≡ some cur
    → IsQueued (overwrite m k cur new)
unfolding overwrite
overwrite-IsQueued m k cur new w e = record {
  distinct = rw (keys-insert_old k _ cur m.tasks e) w.distinct;
  queued = rw (keys-insert_old k _ cur m.tasks e) w.queued;
}

module _ (now : ℕ → ℕ) (k : String) (old new : TaskState) (m : MemStore) (w : IsQueued m) where
  -- On a store whose keys are distinct and whose queue is a permutation of them, a swap neither
  -- panics nor runs out of rounds. It refuses and changes nothing; or it inserts under a key without
  -- a record, for the zero version; or it overwrites the record of the named version: and an insert
  -- or overwrite is followed by evictions.
  pub compare_and_swap-Swapped :
      (b : Bool) × (m' : MemStore) × (compare_and_swap now k old new m ≡ some (b, m'))
      × Swapped now k old new m b m'
  unfolding compare_and_swap
  compare_and_swap-Swapped = elim (Option-cases (lookup k m.tasks)) [
    | inl e ↦ elim (Bool-cases (is_insert old)) [
      | inl i ↦
          let (m', h, ev) =
            evict_over_cap-Evicts now k (insert_new m k new) (insert_new-IsQueued m k new w e) in
          (true, m', rw (e, swap_found, i, h) refl, inserted m' e i ev)
      | inr i ↦ (false, m, rw (e, swap_found, i) refl, refused)
    ]
    | inr (cur, e) ↦ elim (Bool-cases (same_version cur old)) [
      | inl i ↦
          let (m', h, ev) =
            evict_over_cap-Evicts now k (overwrite m k cur new)
              (overwrite-IsQueued m k cur new w e) in
          (true, m', rw (e, swap_found, i, h) refl, overwritten cur m' e i ev)
      | inr i ↦ (false, m, rw (e, swap_found, i) refl, refused)
    ]
  ]

  pub Swapped-IsQueued : (b : Bool) (m' : MemStore) → Swapped now k old new m b m' → IsQueued m'
  Swapped-IsQueued _ _ refused = w
  Swapped-IsQueued _ _ (inserted m' e i ev) =
      Evicts-IsQueued now k _ m' ev (insert_new-IsQueued m k new w e)
  Swapped-IsQueued _ _ (overwritten cur m' e i ev) =
      Evicts-IsQueued now k _ m' ev (overwrite-IsQueued m k cur new w e)
