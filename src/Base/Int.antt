-- ===== src/Base/Int.antt =====
-- Signed integers, for Go's `int` and `time.Duration`: `negsuc n` is -(n + 1).
use Prim.Native.Nat.{ℕ, suc, ◌+◌, ◌-◌, ◌*◌, ◌/◌, ◌%◌, ◌^◌, ◌≤◌, ◌<◌}
use mathlib.Core.Path.{◌≡◌, ap, ◌∙◌}
use mathlib.Core.Bool.{Bool}
use native.Mathlib.Omega.{arith}
use mivia_ai_sdk.Base.Tests.{leb, ltb, if◌then◌else◌}

pub data ℤ : Type 0 where
  pos : ℕ → ℤ
  negsuc : ℕ → ℤ

abbrev pub pos_part : ℤ → ℕ
pos_part (pos n) = n
pos_part (negsuc n) = 0

abbrev pub neg_part : ℤ → ℕ
neg_part (pos n) = 0
neg_part (negsuc n) = suc n

infix 50 ◌≤ℤ◌ ◌<ℤ◌
abbrev pub ◌≤ℤ◌ : ℤ → ℤ → Type 0
a ≤ℤ b = pos_part a + neg_part b ≤ pos_part b + neg_part a

abbrev pub ◌<ℤ◌ : ℤ → ℤ → Type 0
a <ℤ b = pos_part a + neg_part b < pos_part b + neg_part a

-- The tests `a <= b` and `a < b`.
abbrev pub leb_int : ℤ → ℤ → Bool
leb_int a b = leb (pos_part a + neg_part b) (pos_part b + neg_part a)

abbrev pub ltb_int : ℤ → ℤ → Bool
ltb_int a b = ltb (pos_part a + neg_part b) (pos_part b + neg_part a)

abbrev pub int_mod : ℕ
int_mod = 2 ^ 64

-- The 64-bit integer that stands for the difference of two naturals, which wraps around.
unfoldable pub int64 : ℕ → ℕ → ℤ
int64 p n =
    let r = (p % int_mod + (int_mod - n % int_mod)) % int_mod in
    if ltb r (2 ^ 63) then pos r else negsuc (int_mod - r - 1)

unfoldable pub sub_int : ℤ → ℤ → ℤ
unfolding int64
sub_int a b = int64 (pos_part a + neg_part b) (pos_part b + neg_part a)

unfoldable pub mul_int : ℤ → ℤ → ℤ
unfolding int64
mul_int a b =
    int64 (pos_part a * pos_part b + neg_part a * neg_part b)
      (pos_part a * neg_part b + neg_part a * pos_part b)

-- The quotient of Go: by a positive number, rounded towards zero.
unfoldable pub quot_int : ℤ → ℕ → ℤ
unfolding int64
quot_int (pos n) d = pos (n / d)
quot_int (negsuc n) d = int64 0 (suc n / d)

unfoldable pub add_int : ℤ → ℤ → ℤ
unfolding int64
add_int a b = int64 (pos_part a + pos_part b) (neg_part a + neg_part b)

-- A difference that fits does not wrap around.
pub int64-small : (p n : ℕ) → n ≤ p → p < 2 ^ 63 → int64 p n ≡ pos (p - n)
unfolding int64
int64-small p n h l =
    let e : (p % int_mod + (int_mod - n % int_mod)) % int_mod ≡ p - n = omega arith in
    ground (arith, e)

-- Nor does the double of a number that is small enough.
pub mul_int-two : (n : ℕ) → n * 2 < 2 ^ 63 → mul_int (pos n) (pos 2) ≡ pos (n * 2)
unfolding mul_int
mul_int-two n l =
    int64-small (n * 2 + 0 * 0) (n * 0 + 0 * 2) (omega arith) (omega arith) ∙ ap pos (omega arith)
