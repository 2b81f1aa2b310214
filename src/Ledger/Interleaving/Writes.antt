-- ===== src/Ledger/Interleaving/Writes.antt =====
-- One write that lands: the store stays sound, fences do not fall, terminal records stay.
use mivia_ai_sdk.Base.{
  ℕ, ◌+◌, ◌≤◌, ◌<◌, ◌≡◌, refl, sym, subst, ◌∙◌, ◌⊎◌, inl, inr, String, Bool, true, false, Option,
  none, some, str_eq, lookup, Bool-cases, arith, str_eq→eq,
}
use mivia_ai_sdk.Ledger.Task.{TaskState, Status, validate, is_terminal_status, status_eq}
use mivia_ai_sdk.Ledger.Store.{MemStore, u64_mod, is_insert, same_version}
use mivia_ai_sdk.Ledger.Store.Eviction.{IsQueued}
use mivia_ai_sdk.Ledger.Store.Retention.{key_fence, FencesUnder, Evicts-FencesUnder}
use mivia_ai_sdk.Ledger.Store.Landing.{
  Landing, Written, fresh, newer, lookup-Landing, lookup-Landing_ne, key_fence-Landing,
}
use mivia_ai_sdk.Ledger.Leases.{next_fence}
use mivia_ai_sdk.Ledger.Guarantee.{Guarantee, Guarantee-live, Guarantee-fence}

-- The queue is in order, and each record is valid and stands under its own key.
pub record IsSound (m : MemStore) : Type 0 where
  pub queue : IsQueued m
  pub stored :
      (k : String) (t : TaskState) → lookup k m.tasks ≡ some t → (t.key ≡ k) × (validate t ≡ none)

status_eq-terminal :
    (s t : Status) → status_eq s t ≡ true → is_terminal_status s ≡ is_terminal_status t
unfolding status_eq is_terminal_status
status_eq-terminal s t h = ground arith

pub same_version-terminal :
    (cur old : TaskState)
    → same_version cur old ≡ true
    → is_terminal_status cur.status ≡ is_terminal_status old.status
unfolding same_version
same_version-terminal cur old h = status_eq-terminal cur.status old.status (ground arith)

pub same_version-fence : (cur old : TaskState) → same_version cur old ≡ true → cur.fence ≡ old.fence
unfolding same_version
same_version-fence cur old h = ground arith

is_insert-fence : (old : TaskState) → is_insert old ≡ true → old.fence ≡ 0
unfolding is_insert
is_insert-fence old h = ground arith

next_fence-le : (old : TaskState) → next_fence old ≤ old.fence + 1
unfolding next_fence
next_fence-le old = omega arith

next_fence_exact : (old : TaskState) → old.fence + 1 < u64_mod → next_fence old ≡ old.fence + 1
unfolding next_fence
next_fence_exact old h = omega arith

module _ (k : String) (old new : TaskState) (g : Guarantee k old new) where
  Written-valid :
      (floor : ℕ) (o : Option TaskState) (t : TaskState)
      → Written old new floor o t
      → (t.key ≡ k) × (validate t ≡ none)
  unfolding validate
  Written-valid floor _ _ (fresh i) = (g.keyed, g.valid)
  Written-valid floor _ _ (newer cur v) = (g.keyed, g.valid)

  Written-fence_le :
      (floor b : ℕ) (o : Option TaskState) (t : TaskState)
      → Written old new floor o t
      → floor ≤ b
      → ((u : TaskState) → o ≡ some u → u.fence ≤ b)
      → t.fence ≤ b + 1
  Written-fence_le floor b _ _ (fresh i) hf hs =
      ground (arith, is_insert-fence old i, Guarantee-fence g, next_fence-le old)
  Written-fence_le floor b _ _ (newer cur v) hf hs =
      ground
        (arith, same_version-fence cur old v, Guarantee-fence g, next_fence-le old, hs cur refl)

  Written-fence_ge :
      (floor : ℕ) (o : Option TaskState) (t : TaskState)
      → Written old new floor o t
      → ((u : TaskState) → o ≡ some u → u.fence + 1 < u64_mod)
      → (floor ≤ t.fence × (o ≡ none)) ⊎ ((u : TaskState) × (o ≡ some u) × (u.fence ≤ t.fence))
  Written-fence_ge floor _ _ (fresh i) hs = inl (ground arith, refl)
  Written-fence_ge floor _ _ (newer cur v) hs = inr (
    cur,
    refl,
    ground
        (arith, same_version-fence cur old v, Guarantee-fence g, next_fence_exact old, hs cur refl),
  )

module _ (now : ℕ → ℕ) (k : String) (old new : TaskState) (m m' : MemStore)
    (g : Guarantee k old new) (l : Landing now k old new m m') where
  pub Landing-stored :
      ((j : String) (t : TaskState) → lookup j m.tasks ≡ some t → (t.key ≡ j) × (validate t ≡ none))
      → (j : String) (t : TaskState) → lookup j m'.tasks ≡ some t
      → (t.key ≡ j) × (validate t ≡ none)
  Landing-stored stored j t h = elim (lookup-Landing now k old new m m' l j t h) [
    | inl (kj, e) ↦
        subst (λ x. (t.key ≡ x) × (validate t ≡ none)) kj
          (subst (λ x. (x.key ≡ k) × (validate x ≡ none)) (sym e)
            (Written-valid k old new g m.fence_floor l.before l.landed l.written))
    | inr e ↦ stored j t e
  ]

  pub Landing-FencesUnder : (b : ℕ) → FencesUnder b m → FencesUnder (b + 1) m'
  Landing-FencesUnder b u = Evicts-FencesUnder now k (b + 1) l.middle m' l.evicts (record {
    floor = ground (arith, l.same_floor, u.floor);
    stored = λ j t h. of_key j t h (str_eq k j) refl;
  })
    where
      here : l.landed.fence ≤ b + 1
      here =
          Written-fence_le k old new g m.fence_floor b l.before l.landed l.written u.floor
            (λ v e. u.stored k v (l.found ∙ e))

      of_key :
          (j : String) (t : TaskState)
          → lookup j l.middle.tasks ≡ some t
          → (q : Bool) → str_eq k j ≡ q
          → t.fence ≤ b + 1
      of_key j t h true q = ground (arith, l.at_middle j, here)
      of_key j t h false q = ground (arith, l.at_middle j, u.stored j t)

  pub Landing-key_fence :
      ((j : String) (t : TaskState) → lookup j m.tasks ≡ some t → t.fence + 1 < u64_mod)
      → (j : String) → key_fence m j ≤ key_fence m' j
  Landing-key_fence hs j = elim (Bool-cases (str_eq k j)) [
    | inr q ↦ ground (arith, key_fence-Landing now k old new m m' l j)
    | inl q ↦ ground (
      arith,
      key_fence-Landing now k old new m m' l j,
      str_eq→eq k j q,
      l.found,
      Written-fence_ge k old new g m.fence_floor l.before l.landed l.written
          (λ v e. hs k v (l.found ∙ e)),
    )
  ]

  -- In a store without a bound a terminal record stays, whole.
  pub Landing-terminal :
      (j : String) (t : TaskState)
      → m.max_entries ≡ 0
      → lookup j m.tasks ≡ some t
      → is_terminal_status t.status ≡ true
      → lookup j m'.tasks ≡ some t
  Landing-terminal j t z h live = elim (Bool-cases (str_eq k j)) [
    | inr q ↦ lookup-Landing_ne now k old new m m' l j z q ∙ h
    | inl q ↦ absurd (
        clash l.before l.landed l.written
          (sym l.found ∙ subst (λ x. lookup x m.tasks ≡ some t) (sym (str_eq→eq k j q)) h))
  ]
    where
      clash :
          (o : Option TaskState) (u : TaskState)
          → Written old new m.fence_floor o u
          → o ≡ some t
          → ⊥
      clash _ _ (fresh i) e = ground arith
      clash _ _ (newer cur v) e = ground (arith, same_version-terminal cur old v, Guarantee-live g)
