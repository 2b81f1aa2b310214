-- ===== src/Ledger/Guarantee.antt =====
-- What each write of the ledger does to a record: seven kinds of move on (Status, Fence, Sequence),
-- and the programs all of whose writes are such moves.
pub mod Rules
pub mod Methods
use mivia_ai_sdk.Base.{
  ℕ, ◌<◌, ◌≡◌, refl, ◌⊎◌, inl, inr, String, List, Bool, true, false, Option, none, some, arith,
  eq_iff, ◌==◌, ltb,
}
use mivia_ai_sdk.Ledger.Task.{
  TaskState, Status, pending, claimed, completed, failed, blocked, other, Invalid, validate,
  is_terminal_status, status_eq,
}
use mivia_ai_sdk.Ledger.Store.{is_insert, same_version}
use mivia_ai_sdk.Ledger.Program.{
  Program, Result, ok, err, done, loading, swapping, ranging, poll, emit, EventName, ◌>>=◌, attempt,
}
use mivia_ai_sdk.Ledger.Leases.{next_fence}

pub data Kind : Type 0 where
  admits claims renews releases takes_over completes blocks : Kind

abbrev pub Allowed : Kind → TaskState → TaskState → Type 0
Allowed admits old new =
    (is_terminal_status old.status ≡ false)
    × ((new.status ≡ pending) ⊎ (new.status ≡ blocked))
    × (new.fence ≡ old.fence)
    × ((is_insert old ≡ true) ⊎ (old.sequence < new.sequence))
Allowed claims old new =
    ((old.status ≡ pending) ⊎ (old.status ≡ claimed))
    × (new.status ≡ claimed)
    × (new.fence ≡ next_fence old)
    × (new.sequence ≡ old.sequence)
Allowed renews old new =
    (old.status ≡ claimed)
    × (new.status ≡ claimed)
    × (new.fence ≡ old.fence)
    × (new.sequence ≡ old.sequence)
Allowed releases old new =
    (old.status ≡ claimed)
    × (new.status ≡ pending)
    × (new.fence ≡ old.fence)
    × (new.sequence ≡ old.sequence)
Allowed takes_over old new =
    (old.status ≡ claimed)
    × (new.status ≡ claimed)
    × (new.fence ≡ next_fence old)
    × (new.sequence ≡ old.sequence)
Allowed completes old new =
    (old.status ≡ claimed)
    × ((new.status ≡ completed) ⊎ (new.status ≡ failed))
    × (new.fence ≡ old.fence)
    × (new.sequence ≡ old.sequence)
Allowed blocks old new =
    (is_terminal_status old.status ≡ false)
    × (new.status ≡ blocked)
    × (new.fence ≡ old.fence)
    × (new.sequence ≡ old.sequence)

-- A write under a key: a valid record of that key, by one of the moves.
pub record Guarantee (k : String) (old new : TaskState) : Type 0 where
  pub kind : Kind
  pub allowed : Allowed kind old new
  pub keyed : new.key ≡ k
  pub valid : validate new ≡ none

-- No move starts from a terminal record.
pub Guarantee-live :
    {k : String} {old new : TaskState} → Guarantee k old new → is_terminal_status old.status ≡ false
Guarantee-live {k} {old} {new} g = from_kind g.kind g.allowed
  where
    from_kind : (kd : Kind) → Allowed kd old new → is_terminal_status old.status ≡ false
    from_kind admits a = a.0
    from_kind claims a = unfold is_terminal_status in ground arith
    from_kind renews a = unfold is_terminal_status in ground arith
    from_kind releases a = unfold is_terminal_status in ground arith
    from_kind takes_over a = unfold is_terminal_status in ground arith
    from_kind completes a = unfold is_terminal_status in ground arith
    from_kind blocks a = a.0

-- The fence stays, or goes up by one.
pub Guarantee-fence :
    {k : String} {old new : TaskState}
    → Guarantee k old new
    → (new.fence ≡ old.fence) ⊎ (new.fence ≡ next_fence old)
Guarantee-fence {k} {old} {new} g = from_kind g.kind g.allowed
  where
    from_kind :
        (kd : Kind) → Allowed kd old new → (new.fence ≡ old.fence) ⊎ (new.fence ≡ next_fence old)
    from_kind claims a = inr a.2
    from_kind takes_over a = inr a.2
    from_kind admits a = inl a.2
    from_kind renews a = inl a.2
    from_kind releases a = inl a.2
    from_kind completes a = inl a.2
    from_kind blocks a = inl a.2

abbrev pub Keyed : String → Option TaskState → Type 0
Keyed k none = Unit
Keyed k (some t) = t.key ≡ k

-- Every write that the program can come to make is a move, whatever it reads, as long as what it
-- reads under a key has that key.
pub data IsSafe {A : Type 0} : Program A → Type 0 where
  returns : (r : Result A) → IsSafe (done r)
  loads :
      (k : String) (c : Option TaskState → Program A)
      → ((o : Option TaskState) → Keyed k o → IsSafe (c o))
      → IsSafe (loading k c)
  swaps :
      (k : String) (old new : TaskState) (c : Bool → Program A)
      → Guarantee k old new
      → ((b : Bool) → IsSafe (c b))
      → IsSafe (swapping k old new c)
  ranges :
      (c : List TaskState → Program A) → ((l : List TaskState) → IsSafe (c l)) → IsSafe (ranging c)
  polls : (p : Program A) → IsSafe p → IsSafe (poll p)
  emits : (n : EventName) (k : String) (p : Program A) → IsSafe p → IsSafe (emit n k p)

-- The rule for a sequence: the rest is safe for every value that the first part may return.
pub IsSafe-bind :
    {A B : Type 0} (p : Program A) (f : A → Program B)
    → IsSafe p
    → ((a : A) → IsSafe (f a))
    → IsSafe (p >>= f)
unfolding ◌>>=◌
IsSafe-bind _ f (returns (ok a)) h = h a
IsSafe-bind _ f (returns (err e)) h = returns (err e)
IsSafe-bind _ f (loads k c s) h = loads k _ (λ o d. IsSafe-bind (c o) f (s o d) h)
IsSafe-bind _ f (swaps k old new c g s) h = swaps k old new _ g (λ b. IsSafe-bind (c b) f (s b) h)
IsSafe-bind _ f (ranges c s) h = ranges _ (λ l. IsSafe-bind (c l) f (s l) h)
IsSafe-bind _ f (polls p s) h = polls _ (IsSafe-bind p f s h)
IsSafe-bind _ f (emits n k p s) h = emits n k _ (IsSafe-bind p f s h)

pub IsSafe-attempt : {A : Type 0} (p : Program A) → IsSafe p → IsSafe (attempt p)
unfolding attempt
IsSafe-attempt _ (returns r) = returns (ok r)
IsSafe-attempt _ (loads k c s) = loads k _ (λ o d. IsSafe-attempt (c o) (s o d))
IsSafe-attempt _ (swaps k old new c g s) = swaps k old new _ g (λ b. IsSafe-attempt (c b) (s b))
IsSafe-attempt _ (ranges c s) = ranges _ (λ l. IsSafe-attempt (c l) (s l))
IsSafe-attempt _ (polls p s) = polls _ (IsSafe-attempt p s)
IsSafe-attempt _ (emits n k p s) = emits n k _ (IsSafe-attempt p s)
