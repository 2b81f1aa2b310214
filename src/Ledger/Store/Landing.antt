-- ===== src/Ledger/Store/Landing.antt =====
-- What a successful swap leaves in the store, key by key.
use mivia_ai_sdk.Base.{
  ℕ, ◌+◌, ◌%◌, ◌≤◌, ◌≡◌, refl, ◌∙◌, ◌⊎◌, inl, inr, String, true, false, Option, none, some, str_eq,
  if◌then◌else◌, ltb, lookup, lookup-insert, Bool-cases, arith, str_eq_refl, str_eq→eq,
}
use mivia_ai_sdk.Ledger.Task.{TaskState}
use mivia_ai_sdk.Ledger.Store.{MemStore, is_insert, same_version, insert_new, overwrite, u64_mod}
use mivia_ai_sdk.Ledger.Store.Eviction.{Evicts}
use mivia_ai_sdk.Ledger.Store.Retention.{
  kept, dropped, Evicts-Fate, key_fence, key_fence-Evicts, floor-Evicts, max_entries-Evicts,
  exempt-Evicts,
}
use mivia_ai_sdk.Ledger.Store.Swap.{Swapped, inserted, overwritten}

-- The record that the store holds after the write, next to what it held before.
pub data Written (old new : TaskState) (floor : ℕ) : Option TaskState → TaskState → Type 0 where
  fresh :
      is_insert old ≡ true
      → Written old new floor none
          (record new { rev = 0; fence = if ltb new.fence floor then floor else new.fence })
  newer :
      (cur : TaskState)
      → same_version cur old ≡ true
      → Written old new floor (some cur) (record new { rev = (cur.rev + 1) % u64_mod })

-- The write lands, and then the store evicts.
pub record Landing (now : ℕ → ℕ) (k : String) (old new : TaskState) (m m' : MemStore) : Type 0 where
  pub before : Option TaskState
  pub landed : TaskState
  pub middle : MemStore
  pub found : lookup k m.tasks ≡ before
  pub written : Written old new m.fence_floor before landed
  pub at_middle :
      (j : String) → lookup j middle.tasks ≡ (if str_eq k j then some landed else lookup j m.tasks)
  pub same_floor : middle.fence_floor ≡ m.fence_floor
  pub same_max : middle.max_entries ≡ m.max_entries
  pub evicts : Evicts now k middle m'

module _ (now : ℕ → ℕ) (k : String) (old new : TaskState) (m m' : MemStore) where
  pub Swapped-Landing : Swapped now k old new m true m' → Landing now k old new m m'
  unfolding insert_new overwrite
  Swapped-Landing (inserted _ e i ev) = record {
    before = none;
    landed = record new {
      rev = 0;
      fence = if ltb new.fence m.fence_floor then m.fence_floor else new.fence;
    };
    middle = insert_new m k new;
    found = e;
    written = fresh i;
    at_middle = λ j. lookup-insert k j _ m.tasks;
    same_floor = refl;
    same_max = refl;
    evicts = ev;
  }
  Swapped-Landing (overwritten cur _ e v ev) = record {
    before = some cur;
    landed = record new { rev = (cur.rev + 1) % u64_mod };
    middle = overwrite m k cur new;
    found = e;
    written = newer cur v;
    at_middle = λ j. lookup-insert k j _ m.tasks;
    same_floor = refl;
    same_max = refl;
    evicts = ev;
  }

module _ (now : ℕ → ℕ) (k : String) (old new : TaskState) (m m' : MemStore)
    (l : Landing now k old new m m') where
  -- The key that was written holds the record that was written.
  pub lookup-Landing_self : lookup k m'.tasks ≡ some l.landed
  lookup-Landing_self =
      exempt-Evicts now k l.middle m' l.evicts ∙ l.at_middle k ∙ rw (str_eq_refl k) refl

  -- Another key holds what it held, or has lost it.
  pub lookup-Landing :
      (j : String) (t : TaskState)
      → lookup j m'.tasks ≡ some t
      → ((k ≡ j) × (t ≡ l.landed)) ⊎ (lookup j m.tasks ≡ some t)
  lookup-Landing j t h = elim (Evicts-Fate now k j l.middle m' l.evicts) [
    | dropped u i z a b c d ↦ absurd (ground arith)
    | kept e ↦ elim (Bool-cases (str_eq k j)) [
      | inl q ↦ inl (str_eq→eq k j q, ground (arith, l.at_middle j))
      | inr q ↦ inr (ground (arith, l.at_middle j))
    ]
  ]

  -- In a store without a bound no other key loses its record.
  pub lookup-Landing_ne :
      (j : String) → m.max_entries ≡ 0 → str_eq k j ≡ false → lookup j m'.tasks ≡ lookup j m.tasks
  lookup-Landing_ne j z q = elim (Evicts-Fate now k j l.middle m' l.evicts) [
    | dropped u i nz a b c d ↦ absurd (nz (l.same_max ∙ z))
    | kept e ↦ e ∙ l.at_middle j ∙ rw q refl
  ]

  pub max_entries-Landing : m'.max_entries ≡ m.max_entries
  max_entries-Landing = max_entries-Evicts now k l.middle m' l.evicts ∙ l.same_max

  pub floor-Landing : m.fence_floor ≤ m'.fence_floor
  floor-Landing = ground (arith, floor-Evicts now k l.middle m' l.evicts, l.same_floor)

  -- A key's fence is at least that of the record written, or what it was.
  pub key_fence-Landing :
      (j : String) → (if str_eq k j then l.landed.fence else key_fence m j) ≤ key_fence m' j
  key_fence-Landing j =
      ground (arith, key_fence-Evicts now k l.middle m' j l.evicts, l.at_middle j, l.same_floor)
