-- ===== src/Ledger/Leases/Grants.antt =====
-- ledger/claim.go: what Claim and Takeover do alone on a sound store, on every branch.
use mivia_ai_sdk.Base.{
  ℕ, zero, suc, ◌+◌, ◌%◌, ◌≤◌, ◌<◌, ◌≡◌, ◌≢◌, refl, ap, ◌∙◌, ◌⊎◌, inl, inr, String, List, [], ◌∷◌,
  Option, none, some, str_eq-false, lookup, Bool-cases, Option-cases, arith,
}
use mivia_ai_sdk.Base.Int.{ℤ, pos, pos_part, ◌<ℤ◌}
use mivia_ai_sdk.Ledger.Task.{
  TaskState, Status, pending, claimed, completed, failed, blocked, other, validate, is_known_status,
  lease_active,
}
use mivia_ai_sdk.Ledger.Store.{MemStore, u64_mod, load}
use mivia_ai_sdk.Ledger.Program.{Program, Result, ok, run_alone, ◌>>=◌}
use mivia_ai_sdk.Ledger.Blocking.{walk, is_blocking_status, enqueue, blocking_ancestor}
use mivia_ai_sdk.Ledger.Leases.{claim, claimed_record, claimable, next_fence}
use mivia_ai_sdk.Ledger.Alone.{run-guard-true, run-found, run-bind, run-write, swap_current}
use mivia_ai_sdk.Ledger.Interleaving.Writes.{IsSound}
use mivia_ai_sdk.Ledger.Validity.{IsValid, validate_iff}

blocking_ancestor-reads :
    (now : ℕ → ℕ) (walks : ℕ) (seen queue : List String) (m : MemStore)
    → (r : Result (Option String)) × (run_alone now (walk walks seen queue) m ≡ (r, m))
unfolding walk run_alone
blocking_ancestor-reads now zero seen queue m = (_, refl)
blocking_ancestor-reads now (suc f) seen [] m = (_, refl)
blocking_ancestor-reads now (suc f) seen (k ∷ queue) m = elim (Option-cases (load k m)) [
  | inl e ↦ let (r, h) = blocking_ancestor-reads now f seen queue m in (r, rw (e, run_alone) h)
  | inr (t, e) ↦ elim (Bool-cases (is_blocking_status t.status)) [
    | inl q ↦ (ok (some k), rw (e, q, run_alone) refl)
    | inr q ↦
        let (r, h) =
          blocking_ancestor-reads now f (enqueue t.needs seen queue).0
            (enqueue t.needs seen queue).1 m in
        (r, rw (e, q, run_alone) h)
  ]
]

-- The record that a claim leaves.
abbrev pub granted : String → String → ℕ → ℕ → TaskState → TaskState
granted actor owner until now cur = record cur {
  status = claimed;
  owner = owner;
  fence = cur.fence + 1;
  lease_until = until;
  updated_by = actor;
  updated_at = now;
  rev = (cur.rev + 1) % u64_mod;
}

-- May the record be claimed at `now`: pending, or claimed under a lease that has run out?
abbrev pub IsOpen : TaskState → ℕ → Type 0
IsOpen cur now = (cur.status ≡ pending) ⊎ ((cur.status ≡ claimed) × (cur.lease_until ≤ now))

claimed_record-valid :
    (actor owner : String) (until now : ℕ) (cur : TaskState)
    → IsValid cur
    → owner ≢ ""
    → 0 < until
    → (cur.status ≡ pending) ⊎ (cur.status ≡ claimed)
    → validate (claimed_record actor owner until now cur) ≡ none
unfolding claimed_record is_known_status
claimed_record-valid actor owner until now cur v ho hu st = (validate_iff _).1 (record {
  keyed = v.keyed;
  known = refl;
  not_self = v.not_self;
  cause = ((λ e. cc), (λ n. absurd (ground (arith, v.cause.1 n))));
  owned = λ _. ho;
  leased = λ _. hu;
})

claimable-opens :
    {B : Type 0} (clock : ℕ → ℕ) (m : MemStore) (s : Status) (until now : ℕ)
    (f : Unit {0} → Program B)
    → (s ≡ pending) ⊎ ((s ≡ claimed) × (until ≤ now))
    → run_alone clock (claimable s until now >>= f) m ≡ run_alone clock (f tt) m
unfolding claimable
claimable-opens clock m pending until now f h = unfold ◌>>=◌ in refl
claimable-opens clock m claimed until now f h =
    run-guard-true clock m _ lease_active f (ground arith)
claimable-opens clock m completed until now f h = absurd (ground arith)
claimable-opens clock m failed until now f h = absurd (ground arith)
claimable-opens clock m blocked until now f h = absurd (ground arith)
claimable-opens clock m (other s) until now f h = absurd (ground arith)

module _ (clock : ℕ → ℕ) (walks r : ℕ) (actor key owner : String) (lease : ℤ) (now : ℕ)
    (m : MemStore) (cur : TaskState) where
  -- Alone on a sound store, with a non-empty owner, a positive lease, an open record (pending, or
  -- claimed with a lease that is at or before now), no failed or blocked key found above its needs
  -- and a fence below the last, Claim succeeds in its first round: it returns the old fence plus
  -- one, and the key then holds the old record with only its claim, fence, revision and stamp new.
  pub claim_grants :
      IsSound m
      → lookup key m.tasks ≡ some cur
      → owner ≢ ""
      → pos 0 <ℤ lease
      → IsOpen cur now
      → run_alone clock (blocking_ancestor walks cur.needs) m ≡ (ok none, m)
      → cur.fence + 1 < u64_mod
      → (m' : MemStore) × (run_alone clock (claim walks (suc r) actor key owner lease now) m
          ≡ (ok (cur.fence + 1), m'))
        × (lookup key m'.tasks ≡ some (granted actor owner (now + pos_part lease) now cur))
  unfolding claim claimed_record next_fence
  claim_grants s found ho hl opens free room =
      let (m', e, after) =
        swap_current clock key cur (claimed_record actor owner (now + pos_part lease) now cur) m
          s.queue found in
      let fence_eq : next_fence cur ≡ cur.fence + 1 = omega arith in
      (
        m',
        run-guard-true clock m _ _ _ (ground (arith, str_eq-false owner "" ho))
            ∙ run-guard-true clock m _ _ _ (ground arith)
            ∙ run-found clock m key cur _ found
            ∙ claimable-opens clock m cur.status cur.lease_until now _ opens
            ∙ run-bind clock m (blocking_ancestor walks cur.needs) _ none m free
            ∙ run-write clock m key cur _ _ _ _ m'
                (claimed_record-valid actor owner (now + pos_part lease) now cur
                  ((validate_iff cur).0 (s.stored key cur found).1) ho (ground arith)
                  (ground arith))
                e
            ∙ unfold run_alone in ground (arith, fence_eq),
        after
            ∙ ap
                (λ x.
                  some (record (granted actor owner (now + pos_part lease) now cur) { fence = x }))
                fence_eq,
      )
