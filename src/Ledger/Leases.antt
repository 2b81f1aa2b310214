-- ===== src/Ledger/Leases.antt =====
-- ledger/claim.go: Claim, Renew, Release and Takeover.
-- `walks` is the fuel of the walk over the needs, `rounds` that of the retry loops. Go's
-- `now.Add(lease)` is a sum of natural numbers: the lease is positive where it is added.
pub mod Grants
use mivia_ai_sdk.Base.{
  ℕ, zero, suc, ◌+◌, ◌%◌, String, Bool, true, false, not, Option, none, some, str_eq, ltb, ◌==◌,
  if◌then◌else◌,
}
use mivia_ai_sdk.Base.Int.{ℤ, pos, pos_part, ltb_int}
use mivia_ai_sdk.Ledger.Task.{
  TaskState, Status, pending, claimed, status_eq, lease_active, fenced, not_stale, not_claimed,
  empty_owner, invalid_lease, out_of_fuel,
}
use mivia_ai_sdk.Ledger.Store.{u64_mod}
use mivia_ai_sdk.Ledger.Program.{
  Program, loading, claimed_event, renewed, released, taken_over, return, fail, guard, ◌>>=◌, ◌>>◌,
}
use mivia_ai_sdk.Ledger.Blocking.{or_no_key, write_or_retry, blocking_ancestor, block_one}

-- `validateLease`: a lease must be positive.
unfoldable pub validate_lease : ℤ → Bool
validate_lease lease = ltb_int (pos 0) lease

unfoldable pub next_fence : TaskState → ℕ
next_fence cur = (cur.fence + 1) % u64_mod

-- The switch on the status in Claim.
unfoldable pub claimable : Status → ℕ → ℕ → Program (Unit {0})
claimable pending until now = return tt
claimable claimed until now = guard (not (ltb now until)) lease_active
claimable _ until now = fail not_claimed

unfoldable pub claimed_record : String → String → ℕ → ℕ → TaskState → TaskState
unfolding next_fence
claimed_record actor owner until now cur = record cur {
  status = claimed;
  owner = owner;
  fence = next_fence cur;
  lease_until = until;
  updated_by = actor;
  updated_at = now;
}

unfoldable pub claim_loop : ℕ → ℕ → String → String → String → ℤ → ℕ → Program ℕ
unfolding or_no_key claimable claimed_record write_or_retry next_fence
claim_loop walks zero actor key owner lease now = fail out_of_fuel
claim_loop walks (suc r) actor key owner lease now = loading key (λ found. do
  cur ← or_no_key found
  claimable cur.status cur.lease_until now
  blocker ← blocking_ancestor walks cur.needs
  elim blocker [
    | some cause ↦ (do block_one (suc r) actor now key cur cause; fail not_claimed)
    | none ↦
        write_or_retry key cur (claimed_record actor owner (now + pos_part lease) now cur)
          claimed_event (return (next_fence cur)) (claim_loop walks r actor key owner lease now)
  ])

unfoldable pub claim : ℕ → ℕ → String → String → String → ℤ → ℕ → Program ℕ
unfolding claim_loop validate_lease
claim walks rounds actor key owner lease now = do
  guard (not (str_eq owner "")) empty_owner
  guard (validate_lease lease) invalid_lease
  claim_loop walks rounds actor key owner lease now

unfoldable pub renewed_record : String → ℕ → ℕ → TaskState → TaskState
renewed_record actor until now cur = record cur {
  lease_until = until;
  updated_by = actor;
  updated_at = now;
}

unfoldable pub renew_loop : ℕ → String → String → ℕ → ℤ → ℕ → Program (Unit {0})
unfolding or_no_key renewed_record write_or_retry status_eq
renew_loop zero actor key fence lease now = fail out_of_fuel
renew_loop (suc r) actor key fence lease now = loading key (λ found. do
  cur ← or_no_key found
  guard (status_eq cur.status claimed) not_claimed
  guard (cur.fence == fence) fenced
  write_or_retry key cur (renewed_record actor (now + pos_part lease) now cur) renewed (return tt)
      (renew_loop r actor key fence lease now))

-- The owner is named in the event's text only.
unfoldable pub renew : ℕ → String → String → String → ℕ → ℤ → ℕ → Program (Unit {0})
unfolding renew_loop validate_lease
renew rounds actor key owner fence lease now = do
  guard (validate_lease lease) invalid_lease
  renew_loop rounds actor key fence lease now

unfoldable pub released_record : String → ℕ → TaskState → TaskState
released_record actor now cur = record cur {
  status = pending;
  owner = "";
  lease_until = 0;
  updated_by = actor;
  updated_at = now;
}

unfoldable pub release : ℕ → String → String → String → ℕ → ℕ → Program (Unit {0})
unfolding or_no_key released_record write_or_retry status_eq
release zero actor key owner fence now = fail out_of_fuel
release (suc r) actor key owner fence now = loading key (λ found. do
  cur ← or_no_key found
  guard (cur.fence == fence) fenced
  guard (status_eq cur.status claimed) not_claimed
  write_or_retry key cur (released_record actor now cur) released (return tt)
      (release r actor key owner fence now))

unfoldable pub taken_record : String → String → ℕ → ℕ → TaskState → TaskState
unfolding next_fence
taken_record actor owner until now cur = record cur {
  owner = owner;
  fence = next_fence cur;
  lease_until = until;
  updated_by = actor;
  updated_at = now;
}

unfoldable pub takeover_loop : ℕ → ℕ → String → String → String → ℤ → ℕ → Program ℕ
unfolding or_no_key taken_record write_or_retry status_eq next_fence
takeover_loop walks zero actor key owner lease now = fail out_of_fuel
takeover_loop walks (suc r) actor key owner lease now = loading key (λ found. do
  cur ← or_no_key found
  guard (status_eq cur.status claimed) not_claimed
  guard (not (ltb now cur.lease_until)) not_stale
  blocker ← blocking_ancestor walks cur.needs
  elim blocker [
    | some cause ↦ (do block_one (suc r) actor now key cur cause; fail not_claimed)
    | none ↦
        write_or_retry key cur (taken_record actor owner (now + pos_part lease) now cur) taken_over
          (return (next_fence cur)) (takeover_loop walks r actor key owner lease now)
  ])

unfoldable pub takeover : ℕ → ℕ → String → String → String → ℤ → ℕ → Program ℕ
unfolding takeover_loop validate_lease
takeover walks rounds actor key owner lease now = do
  guard (not (str_eq owner "")) empty_owner
  guard (validate_lease lease) invalid_lease
  takeover_loop walks rounds actor key owner lease now
