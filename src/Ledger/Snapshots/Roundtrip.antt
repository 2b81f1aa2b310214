-- ===== src/Ledger/Snapshots/Roundtrip.antt =====
-- ledger/snapshot.go: Restore of a Snapshot.
use mathlib.Core.Option.{some_inj}
use mivia_ai_sdk.Base.{
  ℕ, ◌≡◌, refl, sym, ◌∙◌, ap, subst, inl, inr, String, List, [], ◌∷◌, false, Option, none, some,
  str_eq, str_eq_refl, eq_iff, if◌then◌else◌, ltb, Assoc, lookup, lookup-insert, keys, In,
  Bool-cases, Option-cases, arith,
}
use mivia_ai_sdk.Base.Int.{pos}
use mivia_ai_sdk.Base.Keys.{Distinct, In-keys}
use mivia_ai_sdk.Ledger.Task.{TaskState, validate}
use mivia_ai_sdk.Ledger.Store.{
  MemStore, new_mem_store, compare_and_swap, swap_found, is_insert, insert_new, evict_over_cap,
}
use mivia_ai_sdk.Ledger.Program.{ok, records, run_alone, ◌>>=◌}
use mivia_ai_sdk.Ledger.Blocking.{check_valid}
use mivia_ai_sdk.Ledger.Snapshots.{snapshot, restore}
use mivia_ai_sdk.Ledger.Interleaving.Writes.{IsSound}

-- A record as Restore writes it: its version starts again at zero.
abbrev pub restored : Option TaskState → Option TaskState
restored none = none
restored (some t) = some (record t { rev = 0 })

-- The records are valid and stand under their own keys.
abbrev AreStored : Assoc TaskState → Type 0
AreStored tasks =
    (k : String) (t : TaskState) → lookup k tasks ≡ some t → (t.key ≡ k) × (validate t ≡ none)

AreStored-rest :
    (k : String) (t : TaskState) (tasks : Assoc TaskState)
    → Distinct (keys ((k, t) ∷ tasks))
    → AreStored ((k, t) ∷ tasks)
    → AreStored tasks
unfolding lookup
AreStored-rest k t tasks d h j u e = elim (Bool-cases (str_eq k j)) [
  | inl q ↦
      absurd (d.0 (subst (λ x. In x (keys tasks)) (sym ((eq_iff k j).0 q)) (In-keys j u tasks e)))
  | inr q ↦ h j u (rw (q, lookup) e)
]

-- One round of Restore on a store without a bound.
restore-insert :
    (now : ℕ → ℕ) (t : TaskState) (ts : List TaskState) (m : MemStore)
    → validate t ≡ none
    → m.max_entries ≡ 0
    → lookup t.key m.tasks ≡ none
    → run_alone now (restore (t ∷ ts)) m ≡ run_alone now (restore ts) (insert_new m t.key t)
unfolding restore run_alone check_valid ◌>>=◌ compare_and_swap evict_over_cap is_insert insert_new
restore-insert now t ts m v b e =
    rw (v, restore, check_valid, ◌>>=◌, run_alone, e, swap_found, b) refl

abbrev or_else : Option TaskState → Option TaskState → Option TaskState
or_else none o = o
or_else (some t) o = some t

lookup-insert_new :
    (m : MemStore) (k j : String) (t : TaskState)
    → m.fence_floor ≡ 0
    → lookup j (insert_new m k t).tasks
      ≡ (if str_eq k j then restored (some t) else lookup j m.tasks)
unfolding insert_new
lookup-insert_new m k j t f =
    lookup-insert k j _ m.tasks
    ∙ (let b : ltb t.fence m.fence_floor ≡ false = ground (arith, f) in
        ap (λ x. if str_eq k j then some x else lookup j m.tasks) (rw b refl))

lookup-merged :
    (k : String) (t : TaskState) (tasks : Assoc TaskState) (j : String) (o : Option TaskState)
    → Distinct (keys ((k, t) ∷ tasks))
    → or_else (restored (lookup j tasks)) (if str_eq k j then restored (some t) else o)
      ≡ or_else (restored (lookup j ((k, t) ∷ tasks))) o
unfolding lookup
lookup-merged k t tasks j o d = elim (Bool-cases (str_eq k j)) [
  | inl q ↦ elim (Option-cases (lookup j tasks)) [
    | inl n ↦ rw (n, q, lookup) refl
    | inr (u, n) ↦
        absurd (d.0 (subst (λ x. In x (keys tasks)) (sym ((eq_iff k j).0 q)) (In-keys j u tasks n)))
  ]
  | inr q ↦ rw (q, lookup) refl
]

lookup-head :
    (k : String) (t : TaskState) (tasks : Assoc TaskState) → lookup k ((k, t) ∷ tasks) ≡ some t
unfolding lookup
lookup-head k t tasks = rw (str_eq_refl k) refl

-- Restore of the records of a map, into a store that holds none of its keys.
restore-lookup :
    (now : ℕ → ℕ) (tasks : Assoc TaskState) (m : MemStore)
    → Distinct (keys tasks)
    → AreStored tasks
    → m.max_entries ≡ 0
    → m.fence_floor ≡ 0
    → ((k : String) → In k (keys tasks) → lookup k m.tasks ≡ none)
    → (m' : MemStore) × (run_alone now (restore (records tasks)) m ≡ (ok tt, m'))
      × ((k : String) → lookup k m'.tasks ≡ or_else (restored (lookup k tasks)) (lookup k m.tasks))
unfolding records restore run_alone insert_new lookup
restore-lookup now [] m d h b f free = (m, refl, (λ k. refl))
restore-lookup now ((k, t) ∷ tasks) m d h b f free =
    let (keyed, v) = h k t (lookup-head k t tasks) in
    let step =
      restore-insert now t (records tasks) m v b
        (subst (λ x. lookup x m.tasks ≡ none) (sym keyed) (free k (inl refl))) in
    let found : (j : String)
        → lookup j (insert_new m t.key t).tasks
          ≡ (if str_eq k j then restored (some t) else lookup j m.tasks) =
      λ j.
        lookup-insert_new m t.key j t f
        ∙ ap (λ x. if str_eq x j then restored (some t) else lookup j m.tasks) keyed in
    let (m', e, l) =
      restore-lookup now tasks (insert_new m t.key t) d.1 (AreStored-rest k t tasks d h) b f (λ j i.
        found j ∙ elim (Bool-cases (str_eq k j)) [
          | inl q ↦ absurd (d.0 (subst (λ x. In x (keys tasks)) (sym ((eq_iff k j).0 q)) i))
          | inr q ↦ rw q (free j (inr i))
        ]) in
    (
      m',
      step ∙ e,
      (λ j.
          l j
          ∙ (ap (or_else (restored (lookup j tasks))) (found j)
              ∙ lookup-merged k t tasks j (lookup j m.tasks) d)),
    )

-- A snapshot of a sound store, restored into a new store without a bound by a caller alone, gives back
-- every record under its key with its version at zero, and no other record.
pub restore-snapshot :
    (now : ℕ → ℕ) (m new : MemStore)
    → IsSound m
    → new_mem_store (pos 0) ≡ some new
    → (tasks : List TaskState) × (m' : MemStore) × (run_alone now snapshot m ≡ (ok tasks, m))
      × (run_alone now (restore tasks) new ≡ (ok tt, m'))
      × ((k : String) → lookup k m'.tasks ≡ restored (lookup k m.tasks))
unfolding snapshot run_alone new_mem_store lookup
restore-snapshot now m new w h =
    let e = some_inj.0 h in
    let (m', r, l) =
      restore-lookup now m.tasks new w.queue.distinct w.stored (sym (ap (λ x. x.max_entries) e))
        (sym (ap (λ x. x.fence_floor) e)) (λ k i. sym (ap (λ x. lookup k x.tasks) e)) in
    (
      records m.tasks,
      m',
      refl,
      r,
      (λ k.
          l k
          ∙ (ap (or_else (restored (lookup k m.tasks))) (sym (ap (λ x. lookup k x.tasks) e))
              ∙ right_none (restored (lookup k m.tasks)))),
    )
  where
    right_none : (o : Option TaskState) → or_else o none ≡ o
    right_none none = refl
    right_none (some t) = refl
