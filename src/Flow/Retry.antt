-- ===== src/Flow/Retry.antt =====
-- flow/retry.go: the rule of a retry policy, and the delay before a retry.
use mivia_ai_sdk.Base.{
  ℕ, zero, suc, ◌-◌, ◌*◌, ◌/◌, ◌^◌, ◌≤◌, ◌<◌, ◌≡◌, ◌↔◌, refl, ◌∙◌, inl, inr, Option, none, some,
  if◌then◌else◌, ltb, Bool-cases, arith, ap,
}
use mivia_ai_sdk.Base.Int.{ℤ, pos, negsuc, ltb_int, leb_int, ◌≤ℤ◌, ◌<ℤ◌, mul_int, mul_int-two}
use mivia_ai_sdk.Flow.Step.{RetryPolicy}

pub data RetryFault : Type 0 where
  attempts_below_one max_delay_not_positive base_delay_negative : RetryFault

-- `retryValidateMessage`; `none` is the empty message.
unfoldable pub retry_fault : RetryPolicy → Option RetryFault
retry_fault p =
    if ltb_int p.max_attempts (pos 1)
    then some attempts_below_one
    else if leb_int p.max_delay (pos 0)
    then some max_delay_not_positive
    else if ltb_int p.base_delay (pos 0)
    then some base_delay_negative
    else none

-- `d >> 1`.
unfoldable pub half : ℤ → ℤ
half (pos n) = pos (n / 2)
half (negsuc n) = negsuc (n / 2)

-- The doubling loop of NextDelay, `n` rounds of it, on durations that wrap around.
unfoldable pub double : ℕ → ℤ → ℤ → ℤ
unfolding half mul_int
double zero max delay = delay
double (suc n) max delay =
    let rest = double n max (mul_int delay (pos 2)) in
    if ltb_int (half max) delay then max else rest

-- NextDelay with a nil Jitter, for the attempt counted from one.
unfoldable pub next_delay : ℤ → ℤ → ℕ → ℤ
unfolding double
next_delay base max attempt =
    let delay = double (attempt - 1) max base in if ltb_int max delay then max else delay

-- Validate accepts exactly the policies with at least one attempt, a positive maximal delay and a
-- base delay that is not negative.
pub retry_fault_iff :
    (p : RetryPolicy)
    → (retry_fault p ≡ none)
      ↔ ((pos 1 ≤ℤ p.max_attempts) × (pos 0 <ℤ p.max_delay) × (pos 0 ≤ℤ p.base_delay))
unfolding retry_fault
retry_fault_iff p = ((λ h. (ground arith, ground arith, ground arith)), (λ h. ground arith))

-- The smaller of two.
unfoldable pub clamp : ℕ → ℕ → ℕ
clamp max d = if ltb max d then max else d

pow-positive : (n : ℕ) → 1 ≤ 2 ^ n
pow-positive zero = omega arith
pow-positive (suc n) = grind (arith, pow-positive n)

mul-grows : (a b : ℕ) → 1 ≤ b → a ≤ a * b
mul-grows a zero h = absurd (omega arith)
mul-grows a (suc b) h = grind arith

double_pow : (d n : ℕ) → d * 2 ^ suc n ≡ d * 2 * 2 ^ n
double_pow d n = grind arith

clamp-past : (max delay n : ℕ) → max < delay * 2 → clamp max max ≡ clamp max (delay * 2 ^ suc n)
unfolding clamp
clamp-past max delay n h =
    let grows : delay * 2 ≤ delay * 2 ^ suc n =
      omega (arith, double_pow delay n, mul-grows (delay * 2) (2 ^ n) (pow-positive n)) in
    ground (arith, grows)

-- The doubling loop on numbers without a bound, to compare with.
unfoldable rise : ℕ → ℕ → ℕ → ℕ
rise zero max delay = delay
rise (suc n) max delay =
    let rest = rise n max (delay * 2) in if ltb (max / 2) delay then max else rest

clamp-rise : (n max delay : ℕ) → clamp max (rise n max delay) ≡ clamp max (delay * 2 ^ n)
unfolding rise
clamp-rise zero max delay = ap (clamp max) (grind arith)
clamp-rise (suc n) max delay = elim (Bool-cases (ltb (max / 2) delay)) [
  | inl e ↦ rw (e, rise) (clamp-past max delay n (ground arith))
  | inr e ↦ rw (e, rise, double_pow delay n) (clamp-rise n max (delay * 2))
]

rise-le : (n max delay : ℕ) → delay ≤ max → rise n max delay ≤ max
unfolding rise
rise-le zero max delay h = h
rise-le (suc n) max delay h = ground (arith, rise-le n max (delay * 2))

-- The test before each doubling keeps the wrapping loop on the numbers of the other.
double-rise :
    (n max delay : ℕ) → max < 2 ^ 63 → double n (pos max) (pos delay) ≡ pos (rise n max delay)
unfolding double rise half
double-rise zero max delay l = refl
double-rise (suc n) max delay l = elim (Bool-cases (ltb (max / 2) delay)) [
  | inl e ↦ ground (arith, e)
  | inr e ↦
      let d = mul_int-two delay (ground (arith, e)) in
      let q = ap (double n (pos max)) d ∙ double-rise n max (delay * 2) l in ground (arith, e, q)
]

-- Without a Jitter, and with durations that are not negative, the delay before a retry is the base
-- delay doubled once per earlier retry, and no more than the maximal delay: no doubling overflows.
pub next_delay-clamp :
    (base max attempt : ℕ)
    → max < 2 ^ 63
    → next_delay (pos base) (pos max) attempt ≡ pos (clamp max (base * 2 ^ (attempt - 1)))
unfolding next_delay clamp
next_delay-clamp base max attempt l =
    let d = double-rise (attempt - 1) max base l in
    rw (d, next_delay) (ground (arith, clamp-rise (attempt - 1) max base))

-- Where the delay is at most the maximal delay, what the doubling loop makes of it is too, and it is
-- not negative; the two durations are not.
pub double-le :
    (n max delay : ℕ)
    → max < 2 ^ 63
    → delay ≤ max
    → (pos 0 ≤ℤ double n (pos max) (pos delay)) × (double n (pos max) (pos delay) ≤ℤ pos max)
double-le n max delay l h =
    rw (double-rise n max delay l) (omega arith, omega (arith, rise-le n max delay h))
