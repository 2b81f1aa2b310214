-- ===== src/Ledger/Store/Eviction.antt =====
-- ledger/store_eviction.go: the rounds of `evictOverCap` as a relation, its end, and what it keeps.
use mathlib.Core.Bool.{Bool-set}
use mathlib.Core.List.{Perm, Mem, perm_append_singleton, mem-cons, mem-cons_self, not-mem-nil}
use mathlib.Core.List.Perm
use mathlib.Core.Logic.Or
use mivia_ai_sdk.Base.{
  ℕ, zero, suc, ◌+◌, ◌<◌, ◌≡◌, refl, subst, ◌≢◌, ◌⊎◌, inl, inr, String, List, [], ◌∷◌, true, false,
  some, eq_iff, leb, length, In, lookup, keys, Bool-cases, arith, ◌==◌, contains, contains→In,
}
use mivia_ai_sdk.Base.Keys.{Distinct, Distinct-remove, keys-remove-perm, length-remove}
use mivia_ai_sdk.Ledger.Task.{TaskState}
use mivia_ai_sdk.Ledger.Store.{
  MemStore, record_or_zero, is_protected, rotate_head, delete_head, evict_loop, evict_over_cap,
  evict_scan_budget,
}

-- The keys are distinct, and the queue is a permutation of them.
pub record IsQueued (m : MemStore) : Type 0 where
  pub distinct : Distinct (keys m.tasks)
  pub queued : Perm m.evict_queue (keys m.tasks)

Mem→contains : (a : String) (xs : List String) → Mem a xs → contains xs a ≡ true
unfolding contains
Mem→contains a [] h = absurd (not-mem-nil h)
Mem→contains a (x ∷ xs) h =
    Or.elim (Bool-set _ _) (mem-cons.0 h) (λ e. ground (arith, eq_iff x a))
      (λ p. ground (arith, Mem→contains a xs p))

-- The queue's head is the key of a record.
head-In :
    (m : MemStore) (k : String) (rest : List String)
    → IsQueued m
    → m.evict_queue ≡ k ∷ rest
    → In k (keys m.tasks)
head-In m k rest w e = contains→In (keys m.tasks) k (
    Mem→contains k (keys m.tasks)
      (Perm.subset (subst (λ q. Perm q (keys m.tasks)) e w.queued) k mem-cons_self))

rotate-IsQueued :
    (m : MemStore) (k : String) (rest : List String)
    → IsQueued m
    → m.evict_queue ≡ k ∷ rest
    → IsQueued (rotate_head m k rest)
unfolding rotate_head
rotate-IsQueued m k rest w e = record {
  distinct = w.distinct;
  queued =
      Perm.trans (perm_append_singleton k rest) (subst (λ q. Perm q (keys m.tasks)) e w.queued);
}

delete-IsQueued :
    (m : MemStore) (k : String) (rest : List String)
    → IsQueued m
    → m.evict_queue ≡ k ∷ rest
    → IsQueued (delete_head m k rest)
unfolding delete_head
delete-IsQueued m k rest w e = record {
  distinct = Distinct-remove k m.tasks w.distinct;
  queued = Perm.cons_inv (
      Perm.trans (subst (λ q. Perm q (keys m.tasks)) e w.queued)
        (keys-remove-perm k m.tasks w.distinct (head-In m k rest w e)));
}

-- What the rounds of one call do: a head is rotated, or a record that is not protected is deleted.
pub data Evicts (now : ℕ → ℕ) (exempt : String) : MemStore → MemStore → Type 0 where
  stop : (m : MemStore) → Evicts now exempt m m
  rotate :
      (m m' : MemStore) (k : String) (rest : List String)
      → m.evict_queue ≡ k ∷ rest
      → Evicts now exempt (rotate_head m k rest) m'
      → Evicts now exempt m m'
  delete :
      (m m' : MemStore) (k : String) (rest : List String) (i : ℕ)
      → m.max_entries ≢ 0
      → m.evict_queue ≡ k ∷ rest
      → is_protected (now i) exempt k (record_or_zero (lookup k m.tasks)) ≡ false
      → Evicts now exempt (delete_head m k rest) m'
      → Evicts now exempt m m'

List-cases {ℓ} : {A : Type ℓ} (l : List A) → (l ≡ []) ⊎ ((x : A) × (r : List A) × (l ≡ x ∷ r))
List-cases [] = inl refl
List-cases (x ∷ r) = inr (x, r, refl)

keys-nil : (m : MemStore) → IsQueued m → m.evict_queue ≡ [] → length m.tasks ≡ 0
keys-nil m w e = no_keys m.tasks (Perm.nil-eq (subst (λ q. Perm q (keys m.tasks)) e w.queued))
  where
    no_keys : (l : List (String × TaskState)) → [] ≡ keys l → length l ≡ 0
    no_keys [] h = refl
    no_keys (p ∷ l) h = ground arith

-- The loop ends with the store at its cap or after eight rotations.
pub evict_loop-Evicts :
    (f r : ℕ) (now : ℕ → ℕ) (exempt : String) (m : MemStore)
    → IsQueued m
    → m.max_entries ≢ 0
    → r < evict_scan_budget
    → length m.tasks + evict_scan_budget < f + r
    → (m' : MemStore) × (evict_loop f r now exempt m ≡ some m') × Evicts now exempt m m'
unfolding evict_loop
evict_loop-Evicts zero r now exempt m w c hr hf = absurd (omega arith)
evict_loop-Evicts (suc f) r now exempt m w c hr hf =
    elim (Bool-cases (leb (length m.tasks) m.max_entries)) [
      | inl e ↦ (m, rw (e, evict_loop), stop m)
      | inr over ↦ elim (List-cases m.evict_queue) [
        | inl e ↦ absurd (ground (arith, keys-nil m w e))
        | inr (k, rest, e) ↦
            elim (Bool-cases (is_protected (now f) exempt k (record_or_zero (lookup k m.tasks)))) [
              | inl p ↦ elim (Bool-cases (leb evict_scan_budget (r + 1))) [
                | inl b ↦ (
                  rotate_head m k rest,
                  rw (over, e, p, b, evict_loop),
                  rotate m _ k rest e (stop _),
                )
                | inr b ↦
                    let (m', h, ev) =
                      evict_loop-Evicts f (r + 1) now exempt (rotate_head m k rest)
                        (rotate-IsQueued m k rest w e) (unfold rotate_head in c) (ground arith)
                        (unfold rotate_head in omega arith) in
                    (m', rw (over, e, p, b, evict_loop) h, rotate m m' k rest e ev)
              ]
              | inr p ↦
                  let (m', h, ev) =
                    evict_loop-Evicts f r now exempt (delete_head m k rest)
                      (delete-IsQueued m k rest w e) (unfold delete_head in c) hr
                      (unfold delete_head in
                        omega (arith, length-remove k m.tasks w.distinct (head-In m k rest w e))) in
                  (m', rw (over, e, p, evict_loop) h, delete m m' k rest f c e p ev)
            ]
      ]
    ]

pub evict_over_cap-Evicts :
    (now : ℕ → ℕ) (exempt : String) (m : MemStore)
    → IsQueued m
    → (m' : MemStore) × (evict_over_cap now exempt m ≡ some m') × Evicts now exempt m m'
unfolding evict_over_cap
evict_over_cap-Evicts now exempt m w = elim (Bool-cases (m.max_entries == 0)) [
  | inl e ↦ (m, rw (e, evict_loop), stop m)
  | inr e ↦ rw e (evict_loop-Evicts _ 0 now exempt m w (ground arith) (omega arith) (omega arith))
]

pub Evicts-IsQueued :
    (now : ℕ → ℕ) (exempt : String) (m m' : MemStore)
    → Evicts now exempt m m'
    → IsQueued m
    → IsQueued m'
Evicts-IsQueued now exempt _ _ (stop m) w = w
Evicts-IsQueued now exempt _ _ (rotate m m' k rest e ev) w =
    Evicts-IsQueued now exempt _ _ ev (rotate-IsQueued m k rest w e)
Evicts-IsQueued now exempt _ _ (delete m m' k rest i c e p ev) w =
    Evicts-IsQueued now exempt _ _ ev (delete-IsQueued m k rest w e)
