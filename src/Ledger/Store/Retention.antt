-- ===== src/Ledger/Store/Retention.antt =====
-- ledger/store_eviction.go: what one eviction does to each key, and the fence floor.
use mivia_ai_sdk.Base.{
  ℕ, ◌≤◌, ◌≡◌, refl, sym, subst, ◌∙◌, ◌≢◌, inl, inr, String, false, Option, none, some, str_eq,
  if◌then◌else◌, lookup, lookup-remove, Bool-cases, Option-cases, arith, str_eq_refl, str_eq→eq,
  List,
}
use mivia_ai_sdk.Ledger.Task.{TaskState}
use mivia_ai_sdk.Ledger.Store.{MemStore, record_or_zero, is_protected, rotate_head, delete_head}
use mivia_ai_sdk.Ledger.Store.Eviction.{Evicts, stop, rotate, delete}

-- A key keeps its record, or loses one that was not protected and whose fence the floor remembers.
pub data Fate (now : ℕ → ℕ) (exempt : String) (m m' : MemStore) (j : String) : Type 0 where
  kept : lookup j m'.tasks ≡ lookup j m.tasks → Fate now exempt m m' j
  dropped :
      (t : TaskState) (i : ℕ)
      → m.max_entries ≢ 0
      → lookup j m.tasks ≡ some t
      → lookup j m'.tasks ≡ none
      → is_protected (now i) exempt j t ≡ false
      → t.fence ≤ m'.fence_floor
      → Fate now exempt m m' j

lookup-delete_head :
    (m : MemStore) (k : String) (rest : List String) (j : String)
    → lookup j (delete_head m k rest).tasks ≡ (if str_eq k j then none else lookup j m.tasks)
unfolding delete_head
lookup-delete_head m k rest j = lookup-remove k j m.tasks

floor-delete_head :
    (m : MemStore) (k : String) (rest : List String)
    → (m.fence_floor ≤ (delete_head m k rest).fence_floor)
      × ((record_or_zero (lookup k m.tasks)).fence ≤ (delete_head m k rest).fence_floor)
unfolding delete_head
floor-delete_head m k rest = ground arith

module _ (now : ℕ → ℕ) (exempt : String) where
  pub floor-Evicts : (m m' : MemStore) → Evicts now exempt m m' → m.fence_floor ≤ m'.fence_floor
  unfolding rotate_head
  floor-Evicts _ _ (stop m) = omega arith
  floor-Evicts _ _ (rotate m m' k rest e ev) = floor-Evicts (rotate_head m k rest) m' ev
  floor-Evicts _ _ (delete m m' k rest i c e p ev) =
      omega (arith, floor-delete_head m k rest, floor-Evicts _ _ ev)

  pub max_entries-Evicts :
      (m m' : MemStore) → Evicts now exempt m m' → m'.max_entries ≡ m.max_entries
  unfolding rotate_head delete_head
  max_entries-Evicts _ _ (stop m) = refl
  max_entries-Evicts _ _ (rotate m m' k rest e ev) = max_entries-Evicts (rotate_head m k rest) m' ev
  max_entries-Evicts _ _ (delete m m' k rest i c e p ev) =
      max_entries-Evicts (delete_head m k rest) m' ev

  delete-Fate :
      (m m' : MemStore) (k : String) (rest : List String) (i : ℕ) (j : String)
      → m.max_entries ≢ 0
      → is_protected (now i) exempt k (record_or_zero (lookup k m.tasks)) ≡ false
      → (delete_head m k rest).fence_floor ≤ m'.fence_floor
      → Fate now exempt (delete_head m k rest) m' j
      → Fate now exempt m m' j
  delete-Fate m m' k rest i j c p fl (kept e) = elim (Bool-cases (str_eq k j)) [
    | inr ne ↦ kept (e ∙ lookup-delete_head m k rest j ∙ rw ne refl)
    | inl eq ↦ elim (Option-cases (lookup j m.tasks)) [
      | inl absent ↦ kept (e ∙ lookup-delete_head m k rest j ∙ rw (eq, absent) refl)
      | inr (t, found) ↦
          let kj : k ≡ j = str_eq→eq k j eq in
          let here : lookup k m.tasks ≡ some t =
            subst (λ x. lookup x m.tasks ≡ some t) (sym kj) found in
          dropped t i c found (e ∙ lookup-delete_head m k rest j ∙ rw eq refl)
            (subst (λ x. is_protected (now i) exempt x t ≡ false) kj
              (unfold record_or_zero in (rw here at p)))
            (unfold record_or_zero in (ground (arith, floor-delete_head m k rest, here)))
    ]
  ]
  delete-Fate m m' k rest i j c p fl (dropped t i' c' found gone q f) =
      elim (Bool-cases (str_eq k j)) [
        | inr ne ↦ dropped t i' c (ground (arith, lookup-delete_head m k rest j)) gone q f
        | inl eq ↦ absurd (ground (arith, lookup-delete_head m k rest j))
      ]

  -- An eviction drops a record only if it is not protected, and the floor then covers its fence.
  pub Evicts-Fate : (j : String) (m m' : MemStore) → Evicts now exempt m m' → Fate now exempt m m' j
  unfolding rotate_head
  Evicts-Fate j _ _ (stop m) = kept refl
  Evicts-Fate j _ _ (rotate m m' k rest e ev) = elim (Evicts-Fate j _ _ ev) [
    | kept h ↦ kept h
    | dropped t i z a b c d ↦ dropped t i z a b c d
  ]
  Evicts-Fate j _ _ (delete m m' k rest i c e p ev) =
      delete-Fate m m' k rest i j c p (floor-Evicts _ _ ev) (Evicts-Fate j _ _ ev)

-- The fence that a key has reached: that of its record, or the floor for a key without one.
abbrev pub fence_or : ℕ → Option TaskState → ℕ
fence_or floor none = floor
fence_or floor (some t) = t.fence

abbrev pub key_fence : MemStore → String → ℕ
key_fence m k = fence_or m.fence_floor (lookup k m.tasks)

pub key_fence-Evicts :
    (now : ℕ → ℕ) (exempt : String) (m m' : MemStore) (j : String)
    → Evicts now exempt m m'
    → key_fence m j ≤ key_fence m' j
key_fence-Evicts now exempt m m' j ev = elim (Evicts-Fate now exempt j m m' ev) [
  | kept e ↦ rw e (ground (arith, floor-Evicts now exempt m m' ev))
  | dropped t i z a b c d ↦ rw (a, b) d
]

-- The key of the current write keeps its record.
pub exempt-Evicts :
    (now : ℕ → ℕ) (k : String) (m m' : MemStore)
    → Evicts now k m m'
    → lookup k m'.tasks ≡ lookup k m.tasks
unfolding is_protected
exempt-Evicts now k m m' ev = elim (Evicts-Fate now k k m m' ev) [
  | kept e ↦ e
  | dropped t i z a b c d ↦ absurd (ground (arith, str_eq_refl k))
]

-- An upper bound of all the fences that the store knows.
pub record FencesUnder (b : ℕ) (m : MemStore) : Type 0 where
  pub floor : m.fence_floor ≤ b
  pub stored : (k : String) (t : TaskState) → lookup k m.tasks ≡ some t → t.fence ≤ b

floor_bound-delete_head :
    (b : ℕ) (m : MemStore) (k : String) (rest : List String)
    → FencesUnder b m
    → (delete_head m k rest).fence_floor ≤ b
unfolding delete_head record_or_zero
floor_bound-delete_head b m k rest u = elim (Option-cases (lookup k m.tasks)) [
  | inl e ↦ rw e (ground (arith, u.floor))
  | inr (t, e) ↦ rw e (ground (arith, u.floor, u.stored k t e))
]

delete_head-FencesUnder :
    (b : ℕ) (m : MemStore) (k : String) (rest : List String)
    → FencesUnder b m
    → FencesUnder b (delete_head m k rest)
delete_head-FencesUnder b m k rest u = record {
  floor = floor_bound-delete_head b m k rest u;
  stored = λ j t h. ground (arith, lookup-delete_head m k rest j, u.stored j t);
}

pub Evicts-FencesUnder :
    (now : ℕ → ℕ) (exempt : String) (b : ℕ) (m m' : MemStore)
    → Evicts now exempt m m'
    → FencesUnder b m
    → FencesUnder b m'
unfolding rotate_head
Evicts-FencesUnder now exempt b _ _ (stop m) u = u
Evicts-FencesUnder now exempt b _ _ (rotate m m' k rest e ev) u =
    Evicts-FencesUnder now exempt b _ _ ev (record { floor = u.floor; stored = u.stored })
Evicts-FencesUnder now exempt b _ _ (delete m m' k rest i c e p ev) u =
    Evicts-FencesUnder now exempt b _ _ ev (delete_head-FencesUnder b m k rest u)
