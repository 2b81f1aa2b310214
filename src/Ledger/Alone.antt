-- ===== src/Ledger/Alone.antt =====
-- How a program runs alone: one rule for each part that the methods share.
use mivia_ai_sdk.Base.{
  ℕ, ◌+◌, ◌%◌, ◌≡◌, refl, ◌∙◌, inl, inr, String, Bool, true, false, none, some, str_eq_refl, lookup,
  lookup-insert, Option-cases, ap, arith,
}
use mivia_ai_sdk.Ledger.Task.{TaskState, Error, validate, no_key}
use mivia_ai_sdk.Ledger.Validity.{status_eq_iff}
use mivia_ai_sdk.Ledger.Store.{
  MemStore, u64_mod, load, compare_and_swap, swap_found, same_version, overwrite,
}
use mivia_ai_sdk.Ledger.Store.Eviction.{IsQueued, evict_over_cap-Evicts}
use mivia_ai_sdk.Ledger.Store.Retention.{exempt-Evicts}
use mivia_ai_sdk.Ledger.Store.Swap.{overwrite-IsQueued}
use mivia_ai_sdk.Ledger.Program.{
  Program, Result, ok, err, done, loading, swapping, ranging, poll, emit, EventName, run_alone,
  guard, ◌>>=◌,
}
use mivia_ai_sdk.Ledger.Blocking.{check_valid, or_no_key, write_or_retry}

-- A sequence runs its first part, and then the rest on the store that it leaves.
abbrev and_then :
    {A B : Type 0} → (ℕ → ℕ) → (A → Program B) → Result A × MemStore → Result B × MemStore
and_then now f (ok a, m) = run_alone now (f a) m
and_then now f (err e, m) = (err e, m)

pub run_alone-bind :
    {A B : Type 0} (now : ℕ → ℕ) (p : Program A) (f : A → Program B) (m : MemStore)
    → run_alone now (p >>= f) m ≡ and_then now f (run_alone now p m)
unfolding run_alone ◌>>=◌
run_alone-bind now (done (ok a)) f m = refl
run_alone-bind now (done (err e)) f m = refl
run_alone-bind now (loading k c) f m = run_alone-bind now (c (load k m)) f m
run_alone-bind now (swapping k old new c) f m =
    elim (Option-cases (compare_and_swap now k old new m)) [
      | inl e ↦ rw (e, run_alone) refl
      | inr (r, e) ↦ rw (e, run_alone) (run_alone-bind now (c r.0) f r.1)
    ]
run_alone-bind now (ranging c) f m = run_alone-bind now (c _) f m
run_alone-bind now (poll p) f m = run_alone-bind now p f m
run_alone-bind now (emit n k p) f m = run_alone-bind now p f m

module _ {B : Type 0} (now : ℕ → ℕ) (m : MemStore) where
  pub run-guard-true :
      (b : Bool) (e : Error) (f : Unit {0} → Program B)
      → b ≡ true
      → run_alone now (guard b e >>= f) m ≡ run_alone now (f tt) m
  unfolding guard ◌>>=◌
  run-guard-true true e f h = refl
  run-guard-true false e f h = cc

  pub run-guard-false :
      (b : Bool) (e : Error) (f : Unit {0} → Program B)
      → b ≡ false
      → run_alone now (guard b e >>= f) m ≡ (err e, m)
  unfolding guard ◌>>=◌ run_alone
  run-guard-false false e f h = refl
  run-guard-false true e f h = cc

  pub run-found :
      (k : String) (t : TaskState) (f : TaskState → Program B)
      → lookup k m.tasks ≡ some t
      → run_alone now (loading k (λ o. or_no_key o >>= f)) m ≡ run_alone now (f t) m
  unfolding or_no_key ◌>>=◌ run_alone load
  run-found k t f h = ap (λ o. run_alone now (or_no_key o >>= f) m) h

  pub run-missing :
      (k : String) (f : TaskState → Program B)
      → lookup k m.tasks ≡ none
      → run_alone now (loading k (λ o. or_no_key o >>= f)) m ≡ (err no_key, m)
  unfolding or_no_key ◌>>=◌ run_alone load
  run-missing k f h = ap (λ o. run_alone now (or_no_key o >>= f) m) h

  pub run-bind :
      {A : Type 0} (p : Program A) (f : A → Program B) (a : A) (m' : MemStore)
      → run_alone now p m ≡ (ok a, m')
      → run_alone now (p >>= f) m ≡ run_alone now (f a) m'
  run-bind p f a m' h = run_alone-bind now p f m ∙ ap (and_then now f) h

  pub run-write :
      (k : String) (cur next : TaskState) (ev : EventName) (after retry : Program B) (m' : MemStore)
      → validate next ≡ none
      → compare_and_swap now k cur next m ≡ some (true, m')
      → run_alone now (write_or_retry k cur next ev after retry) m ≡ run_alone now after m'
  unfolding write_or_retry check_valid ◌>>=◌ run_alone
  run-write k cur next ev after retry m' v h = rw (v, check_valid, ◌>>=◌, run_alone, h) refl

same_version_refl : (t : TaskState) → same_version t t ≡ true
unfolding same_version
same_version_refl t = ground (arith, (status_eq_iff t.status t.status).1 refl)

-- A write over the record that was just read lands, and the store then holds it.
pub swap_current :
    (now : ℕ → ℕ) (k : String) (cur next : TaskState) (m : MemStore)
    → IsQueued m
    → lookup k m.tasks ≡ some cur
    → (m' : MemStore) × (compare_and_swap now k cur next m ≡ some (true, m'))
      × (lookup k m'.tasks ≡ some (record next { rev = (cur.rev + 1) % u64_mod }))
unfolding compare_and_swap overwrite
swap_current now k cur next m w h =
    let (m', e, ev) =
      evict_over_cap-Evicts now k (overwrite m k cur next) (overwrite-IsQueued m k cur next w h) in
    (
      m',
      rw (h, swap_found, same_version_refl cur, e) refl,
      exempt-Evicts now k (overwrite m k cur next) m' ev
          ∙ lookup-insert k k _ m.tasks
          ∙ rw (str_eq_refl k) refl,
    )
