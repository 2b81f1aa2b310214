-- ===== src/Ledger/Interleaving/Schedules.antt =====
-- Every schedule of safe programs keeps the store sound, never lowers a fence and keeps terminal
-- records.
use mivia_ai_sdk.Base.{
  ℕ, zero, suc, ◌+◌, ◌≤◌, ◌<◌, ◌≡◌, refl, ◌∙◌, String, List, [], ◌∷◌, Bool, true, false, Option,
  none, some, lookup, Bool-cases, arith, length, All, inl, inr,
}
use mivia_ai_sdk.Ledger.Task.{TaskState, is_terminal_status, canceled}
use mivia_ai_sdk.Ledger.Store.{MemStore, u64_mod, load, compare_and_swap}
use mivia_ai_sdk.Ledger.Store.Retention.{key_fence, FencesUnder}
use mivia_ai_sdk.Ledger.Store.Swap.{
  Swapped, refused, inserted, overwritten, compare_and_swap-Swapped, Swapped-IsQueued,
}
use mivia_ai_sdk.Ledger.Store.Landing.{Swapped-Landing, max_entries-Landing}
use mivia_ai_sdk.Ledger.Program.{
  Program, err, done, Moment, System, step, after_swap, step_nth, run_schedule,
}
use mivia_ai_sdk.Ledger.Guarantee.{
  Guarantee, IsSafe, Keyed, returns, loads, swaps, ranges, polls, emits,
}
use mivia_ai_sdk.Ledger.Interleaving.Writes.{
  IsSound, Landing-stored, Landing-FencesUnder, Landing-key_fence, Landing-terminal,
}

-- How a store may come to look after `n` calls.
pub record Advance (n : ℕ) (m m' : MemStore) : Type 0 where
  pub same_max : m'.max_entries ≡ m.max_entries
  pub bounded : (b : ℕ) → FencesUnder b m → FencesUnder (b + n) m'
  pub fences :
      (b : ℕ) → FencesUnder b m → b + n < u64_mod → (k : String) → key_fence m k ≤ key_fence m' k
  pub terminal :
      (k : String) (t : TaskState)
      → m.max_entries ≡ 0
      → lookup k m.tasks ≡ some t
      → is_terminal_status t.status ≡ true
      → lookup k m'.tasks ≡ some t

FencesUnder-mono : (b c : ℕ) (m : MemStore) → b ≤ c → FencesUnder b m → FencesUnder c m
FencesUnder-mono b c m h u = record {
  floor = ground (arith, u.floor);
  stored = λ k t e. ground (arith, u.stored k t e);
}

Advance-refl : (n : ℕ) (m : MemStore) → Advance n m m
Advance-refl n m = record {
  same_max = refl;
  bounded = λ b u. FencesUnder-mono b (b + n) m (omega arith) u;
  fences = λ b u h k. omega arith;
  terminal = λ k t z h e. h;
}

Advance-trans :
    (i j n : ℕ) (m m' m'' : MemStore)
    → i + j ≡ n
    → Advance i m m'
    → Advance j m' m''
    → Advance n m m''
Advance-trans i j n m m' m'' e a c = record {
  same_max = c.same_max ∙ a.same_max;
  bounded = λ b u.
      FencesUnder-mono (b + i + j) (b + n) m'' (omega arith) (c.bounded (b + i) (a.bounded b u));
  fences = λ b u h k.
      omega (arith, a.fences b u (omega arith) k, c.fences (b + i) (a.bounded b u) (omega arith) k);
  terminal = λ k t z h live. c.terminal k t (a.same_max ∙ z) (a.terminal k t z h live) live;
}

-- After a call: the rest of the program is safe, the store is sound, and it has advanced.
abbrev Good : {A : Type 0} → MemStore → Program A × MemStore → Type 0
Good m (p, m') = IsSafe p × IsSound m' × Advance 1 m m'

stay : {A : Type 0} (m : MemStore) (p : Program A) → IsSound m → IsSafe p → Good m (p, m)
stay m p s sp = (sp, s, Advance-refl 1 m)

load-Keyed : (k : String) (m : MemStore) → IsSound m → Keyed k (load k m)
unfolding load
load-Keyed k m s = of_lookup (lookup k m.tasks) refl
  where
    of_lookup : (o : Option TaskState) → lookup k m.tasks ≡ o → Keyed k o
    of_lookup none e = tt
    of_lookup (some t) e = (s.stored k t e).0

landed-Good :
    {A : Type 0} (now : ℕ → ℕ) (k : String) (old new : TaskState) (m m' : MemStore) (p : Program A)
    → IsSound m
    → Guarantee k old new
    → Swapped now k old new m true m'
    → IsSafe p
    → Good m (p, m')
landed-Good now k old new m m' p s g sw sp =
    let l = Swapped-Landing now k old new m m' sw in
    (
      sp,
      record {
        queue = Swapped-IsQueued now k old new m s.queue true m' sw;
        stored = Landing-stored now k old new m m' g l s.stored;
      },
      record {
        same_max = max_entries-Landing now k old new m m' l;
        bounded = λ b u. Landing-FencesUnder now k old new m m' g l b u;
        fences = λ b u h j.
            Landing-key_fence now k old new m m' g l (λ i t e. ground (arith, u.stored i t e)) j;
        terminal = λ j t z h live. Landing-terminal now k old new m m' g l j t z h live;
      },
    )

swap-Good :
    {A : Type 0} (now : ℕ → ℕ) (k : String) (old new : TaskState) (m : MemStore)
    (c : Bool → Program A)
    → IsSound m
    → Guarantee k old new
    → ((b : Bool) → IsSafe (c b))
    → Good m (after_swap c m (compare_and_swap now k old new m))
unfolding after_swap
swap-Good now k old new m c s g sc = of_swap (compare_and_swap-Swapped now k old new m s.queue)
  where
    of_result : (b : Bool) (m' : MemStore) → Swapped now k old new m b m' → Good m (c b, m')
    of_result _ _ refused = stay m (c false) s (sc false)
    of_result _ _ (inserted m' e i ev) =
        landed-Good now k old new m m' (c true) s g (inserted m' e i ev) (sc true)
    of_result _ _ (overwritten cur m' e i ev) =
        landed-Good now k old new m m' (c true) s g (overwritten cur m' e i ev) (sc true)

    of_swap :
        ((b : Bool) × (m' : MemStore) × (compare_and_swap now k old new m ≡ some (b, m'))
          × Swapped now k old new m b m')
        → Good m (after_swap c m (compare_and_swap now k old new m))
    of_swap (b, m', e, sw) = rw e (of_result b m' sw)

pub step-Good :
    {A : Type 0} (w : Moment) (p : Program A) (m : MemStore)
    → IsSafe p
    → IsSound m
    → Good m (step w p m)
unfolding step
step-Good w _ m (returns r) s = stay m (done r) s (returns r)
step-Good w _ m (loads k c sc) s = elim (Bool-cases w.is_canceled) [
  | inl e ↦ rw (e, step) (stay m (done (err canceled)) s (returns _))
  | inr e ↦ rw (e, step) (stay m (c (load k m)) s (sc (load k m) (load-Keyed k m s)))
]
step-Good w _ m (swaps k old new c g sc) s = elim (Bool-cases w.is_canceled) [
  | inl e ↦ rw (e, step) (stay m (done (err canceled)) s (returns _))
  | inr e ↦ rw (e, step) (swap-Good w.now k old new m c s g sc)
]
step-Good w _ m (ranges c sc) s = elim (Bool-cases w.is_canceled) [
  | inl e ↦ rw (e, step) (stay m (done (err canceled)) s (returns _))
  | inr e ↦ rw (e, step) (stay m (c _) s (sc _))
]
step-Good w _ m (polls p sp) s = elim (Bool-cases w.is_canceled) [
  | inl e ↦ rw (e, step) (stay m (done (err canceled)) s (returns _))
  | inr e ↦ rw (e, step) (stay m p s sp)
]
step-Good w _ m (emits n k p sp) s = stay m p s sp

abbrev pub AllSafe : {A : Type 0} → List (Program A) → Type 0
AllSafe = All IsSafe

step_nth-Good :
    {A : Type 0} (i : ℕ) (w : Moment) (ps : List (Program A)) (m : MemStore)
    → AllSafe ps
    → IsSound m
    → AllSafe (step_nth i w ps m).0
      × IsSound (step_nth i w ps m).1
      × Advance 1 m (step_nth i w ps m).1
unfolding step_nth
step_nth-Good i w [] m sp s = (tt, s, Advance-refl 1 m)
step_nth-Good zero w (p ∷ ps) m sp s = let (a, b, c) = step-Good w p m sp.0 s in ((a, sp.1), b, c)
step_nth-Good (suc i) w (p ∷ ps) m sp s =
    let (a, b, c) = step_nth-Good i w ps m sp.1 s in ((sp.0, a), b, c)

pub run_schedule-Advance :
    {A : Type 0} (sched : List (ℕ × Moment)) (s : System A)
    → AllSafe s.callers
    → IsSound s.store
    → IsSound (run_schedule sched s).store
      × Advance (length sched) s.store (run_schedule sched s).store
unfolding run_schedule
run_schedule-Advance [] s sp so = (so, Advance-refl 0 s.store)
run_schedule-Advance ((i, w) ∷ rest) s sp so =
    let (a, b, c) = step_nth-Good i w s.callers s.store sp so in
    let (d, e) = run_schedule-Advance rest (record { callers = _; store = _ }) a b in
    (d, Advance-trans 1 (length rest) (suc (length rest)) _ _ _ (omega arith) c e)
