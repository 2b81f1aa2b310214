-- ===== src/Ledger/Guarantee/Rules.antt =====
-- Rules for the parts that the methods of the ledger share.
use mivia_ai_sdk.Base.{
  ℕ, zero, suc, ◌≡◌, refl, ◌⊎◌, inl, inr, String, List, [], ◌∷◌, Bool, true, false, Option, none,
  some, Option-cases, Bool-cases,
}
use mivia_ai_sdk.Ledger.Task.{
  TaskState, Status, pending, claimed, completed, failed, blocked, other, Error, validate,
  is_terminal_status,
}
use mivia_ai_sdk.Ledger.Program.{Program, EventName, guard, ◌>>=◌}
use mivia_ai_sdk.Ledger.Blocking.{
  check_valid, or_no_key, write_or_retry, is_blocking, is_blocking_status, blocking_need, walk,
  blocking_ancestor, blocked_record, block_one,
}
use mivia_ai_sdk.Ledger.Leases.{claimable}
use mivia_ai_sdk.Ledger.Guarantee.{
  Guarantee, IsSafe, Keyed, blocks, returns, loads, swaps, polls, emits,
}

module _ {A : Type 0} where
  pub check_valid-IsSafe :
      (t : TaskState) (f : Unit {0} → Program A)
      → (validate t ≡ none → IsSafe (f tt))
      → IsSafe (check_valid t >>= f)
  unfolding check_valid ◌>>=◌
  check_valid-IsSafe t f h = elim (Option-cases (validate t)) [
    | inl e ↦ rw (e, check_valid) (h e)
    | inr (x, e) ↦ rw (e, check_valid) (returns _)
  ]

  pub guard-IsSafe :
      (b : Bool) (e : Error) (f : Unit {0} → Program A)
      → (b ≡ true → IsSafe (f tt))
      → IsSafe (guard b e >>= f)
  unfolding ◌>>=◌
  guard-IsSafe true e f h = h refl
  guard-IsSafe false e f h = returns _

  pub or_no_key-IsSafe :
      (k : String) (o : Option TaskState) (f : TaskState → Program A)
      → Keyed k o
      → ((t : TaskState) → t.key ≡ k → IsSafe (f t))
      → IsSafe (or_no_key o >>= f)
  unfolding or_no_key ◌>>=◌
  or_no_key-IsSafe k none f d h = returns _
  or_no_key-IsSafe k (some t) f d h = h t d

  pub claimable-IsSafe :
      (s : Status) (until now : ℕ) (f : Unit {0} → Program A)
      → ((s ≡ pending) ⊎ (s ≡ claimed) → IsSafe (f tt))
      → IsSafe (claimable s until now >>= f)
  unfolding claimable ◌>>=◌
  claimable-IsSafe pending until now f h = h (inl refl)
  claimable-IsSafe claimed until now f h = guard-IsSafe _ _ f (λ _. h (inr refl))
  claimable-IsSafe completed until now f h = returns _
  claimable-IsSafe failed until now f h = returns _
  claimable-IsSafe blocked until now f h = returns _
  claimable-IsSafe (other s) until now f h = returns _

  pub write_or_retry-IsSafe :
      (k : String) (cur next : TaskState) (ev : EventName) (after retry : Program A)
      → (validate next ≡ none → Guarantee k cur next)
      → IsSafe after
      → IsSafe retry
      → IsSafe (write_or_retry k cur next ev after retry)
  unfolding write_or_retry
  write_or_retry-IsSafe k cur next ev after retry g sa sr =
      check_valid-IsSafe next _
        (λ v. swaps _ _ _ _ (g v) (elim [ true ↦ emits _ _ _ sa | false ↦ polls _ sr ]))

pub blocking_need-IsSafe : (ns : List String) → IsSafe (blocking_need ns)
unfolding blocking_need
blocking_need-IsSafe [] = returns _
blocking_need-IsSafe (n ∷ ns) = loads n _ (λ o d. elim (Bool-cases (is_blocking o)) [
  | inl e ↦ rw e (returns _)
  | inr e ↦ rw e (blocking_need-IsSafe ns)
])

pub walk-IsSafe : (f : ℕ) (seen queue : List String) → IsSafe (walk f seen queue)
unfolding walk
walk-IsSafe zero seen queue = returns _
walk-IsSafe (suc f) seen [] = returns _
walk-IsSafe (suc f) seen (k ∷ queue) = loads k _ (λ o d. elim (Option-cases o) [
  | inl e ↦ rw e (walk-IsSafe f seen queue)
  | inr (t, e) ↦ elim (Bool-cases (is_blocking_status t.status)) [
    | inl q ↦ rw (e, q) (returns _)
    | inr q ↦ rw (e, q) (walk-IsSafe f _ _)
  ]
])

pub blocking_ancestor-IsSafe : (f : ℕ) (ns : List String) → IsSafe (blocking_ancestor f ns)
unfolding blocking_ancestor
blocking_ancestor-IsSafe f ns = walk-IsSafe f _ _

-- Blocking a record that is not terminal is safe, also when it has to be read again.
pub block_one-IsSafe :
    (r : ℕ) (actor : String) (now : ℕ) (k : String) (cur : TaskState) (cause : String)
    → cur.key ≡ k
    → is_terminal_status cur.status ≡ false
    → IsSafe (block_one r actor now k cur cause)
unfolding block_one
block_one-IsSafe zero actor now k cur cause d live = returns _
block_one-IsSafe (suc r) actor now k cur cause d live =
    check_valid-IsSafe (blocked_record actor now cur cause) _ (λ v.
      swaps _ _ _ _
        (record { kind = blocks; allowed = (live, refl, refl, refl); keyed = d; valid = v })
        (elim [
          | true ↦ emits _ _ _ (returns _)
          | false ↦ loads k _ (elim [
            | none ↦ λ _. returns _
            | some t ↦ λ d'. elim (Bool-cases (is_terminal_status t.status)) [
              | inl e ↦ rw e (returns _)
              | inr e ↦ rw e (polls _ (block_one-IsSafe r actor now k t cause d' e))
            ]
          ])
        ]))
