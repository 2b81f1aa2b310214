-- ===== src/Ledger/Program.antt =====
-- The methods of Ledger as programs over the store's interface, and their execution.
-- A method makes one store call at a time; between two of its calls other callers may write. So a
-- method is a program, a tree of store calls, and a run of several programs over one store is a
-- schedule of single calls. The programs are executable.
use mivia_ai_sdk.Base.{
  ℕ, zero, suc, String, List, [], ◌∷◌, Bool, true, false, Option, none, some, if◌then◌else◌, Assoc,
}
use mivia_ai_sdk.Ledger.Task.{TaskState, Error, canceled, panicked}
use mivia_ai_sdk.Ledger.Store.{MemStore, load, compare_and_swap}

-- ledger/events.go.
pub data EventName : Type 0 where
  admitted claimed_event renewed released completed_event taken_over blocked_event : EventName

pub data Result {ℓ} (A : Type ℓ) : Type ℓ where
  ok : A → Result A
  err : Error → Result A

-- `poll` is `if err := ctx.Err(); err != nil { return err }`, and `emit` publishes an event of a key.
pub data Program (A : Type 0) : Type 0 where
  done : Result A → Program A
  loading : String → (Option TaskState → Program A) → Program A
  swapping : String → TaskState → TaskState → (Bool → Program A) → Program A
  ranging : (List TaskState → Program A) → Program A
  poll : Program A → Program A
  emit : EventName → String → Program A → Program A

abbrev pub return : {A : Type 0} → A → Program A
return a = done (ok a)

abbrev pub fail : {A : Type 0} → Error → Program A
fail e = done (err e)

unfoldable pub guard : Bool → Error → Program (Unit {0})
guard true e = return tt
guard false e = fail e

-- `if err != nil { return err }` after every call.
infixl 5 ◌>>=◌ ◌>>◌
unfoldable pub ◌>>=◌ : {A B : Type 0} → Program A → (A → Program B) → Program B
unfolding guard
done (ok a) >>= f = f a
done (err e) >>= f = done (err e)
loading k c >>= f = loading k (λ t. c t >>= f)
swapping k old new c >>= f = swapping k old new (λ b. c b >>= f)
ranging c >>= f = ranging (λ l. c l >>= f)
poll p >>= f = poll (p >>= f)
emit n k p >>= f = emit n k (p >>= f)

abbrev pub ◌>>◌ : {A B : Type 0} → Program A → Program B → Program B
m >> n = m >>= λ _. n

-- An error held as a value, for a caller that looks at it and goes on.
unfoldable pub attempt : {A : Type 0} → Program A → Program (Result A)
attempt (done r) = done (ok r)
attempt (loading k c) = loading k (λ t. attempt (c t))
attempt (swapping k old new c) = swapping k old new (λ b. attempt (c b))
attempt (ranging c) = ranging (λ l. attempt (c l))
attempt (poll p) = poll (attempt p)
attempt (emit n k p) = emit n k (attempt p)

-- The records in the order of the map; Go's order is not defined.
unfoldable pub records : Assoc TaskState → List TaskState
records [] = []
records ((k, t) ∷ m) = t ∷ records m

-- What one caller meets at one call: its context may be canceled, and the store's clock may move.
pub record Moment : Type 0 where
  pub is_canceled : Bool
  pub now : ℕ → ℕ

unfoldable pub after_swap :
    {A : Type 0} → (Bool → Program A) → MemStore → Option (Bool × MemStore) → Program A × MemStore
after_swap c m none = (fail panicked, m)
after_swap c m (some (b, m')) = (c b, m')

-- One call of a program. `Load`, `CompareAndSwap` and `Range` of a canceled context fail.
unfoldable pub step : {A : Type 0} → Moment → Program A → MemStore → Program A × MemStore
unfolding after_swap records
step w (done r) m = (done r, m)
step w (loading k c) m = if w.is_canceled then (fail canceled, m) else (c (load k m), m)
step w (swapping k old new c) m =
    if w.is_canceled
    then (fail canceled, m)
    else after_swap c m (compare_and_swap w.now k old new m)
step w (ranging c) m = if w.is_canceled then (fail canceled, m) else (c (records m.tasks), m)
step w (poll p) m = if w.is_canceled then (fail canceled, m) else (p, m)
step w (emit n k p) m = (p, m)

-- Several callers over one store. A caller that has returned stays as it is.
pub record System (A : Type 0) : Type 0 where
  pub callers : List (Program A)
  pub store : MemStore

unfoldable pub step_nth :
    {A : Type 0} → ℕ → Moment → List (Program A) → MemStore → List (Program A) × MemStore
step_nth i w [] m = ([], m)
step_nth zero w (p ∷ ps) m = let (p', m') = step w p m in (p' ∷ ps, m')
step_nth (suc i) w (p ∷ ps) m = let (ps', m') = step_nth i w ps m in (p ∷ ps', m')

-- The schedule names, call by call, the caller that moves.
unfoldable pub run_schedule : {A : Type 0} → List (ℕ × Moment) → System A → System A
unfolding step_nth
run_schedule [] s = s
run_schedule ((i, w) ∷ rest) s =
    let (ps, m) = step_nth i w s.callers s.store in
    run_schedule rest (record { callers = ps; store = m })

-- One caller alone, with a live context, to its end: every program is finite.
unfoldable pub run_alone : {A : Type 0} → (ℕ → ℕ) → Program A → MemStore → Result A × MemStore
unfolding records
run_alone now (done r) m = (r, m)
run_alone now (loading k c) m = run_alone now (c (load k m)) m
run_alone now (swapping k old new c) m = elim (compare_and_swap now k old new m) [
  | none ↦ (err panicked, m)
  | some (b, m') ↦ run_alone now (c b) m'
]
run_alone now (ranging c) m = run_alone now (c (records m.tasks)) m
run_alone now (poll p) m = run_alone now p m
run_alone now (emit n k p) m = run_alone now p m
