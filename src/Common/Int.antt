-- ===== src/Common/Int.antt =====
-- Signed integers (`big.Int`), and the 64-bit wrap-around of Go's `int64`.
use Prim.Native.Nat.{ℕ, suc, ◌+◌, ◌-◌, ◌*◌, ◌%◌, ◌^◌, ◌≤◌, ◌<◌}
use mathlib.Core.Path.{◌≡◌}
use mathlib.Core.Bool.{Bool}
use native.Mathlib.Omega.{arith}
use lcp_go.Common.Tests.{ltb, leb, if◌then◌else◌}

-- `negsuc n` is -(n + 1).
pub data ℤ : Type 0 where
  pos : ℕ → ℤ
  negsuc : ℕ → ℤ

abbrev pub pos_part : ℤ → ℕ
pos_part (pos n) = n
pos_part (negsuc n) = 0

abbrev pub neg_part : ℤ → ℕ
neg_part (pos n) = 0
neg_part (negsuc n) = suc n

-- a - b, as an integer.
abbrev pub sub_ℕ : ℕ → ℕ → ℤ
sub_ℕ a b = if leb b a then pos (a - b) else negsuc (b - a - 1)

infixl 65 ◌+ℤ◌ ◌-ℤ◌
infixl 70 ◌*ℤ◌
infix 50 ◌≤ℤ◌
unfoldable pub ◌+ℤ◌ : ℤ → ℤ → ℤ
a +ℤ b = sub_ℕ (pos_part a + pos_part b) (neg_part a + neg_part b)

unfoldable pub ◌-ℤ◌ : ℤ → ℤ → ℤ
a -ℤ b = sub_ℕ (pos_part a + neg_part b) (neg_part a + pos_part b)

unfoldable pub ◌*ℤ◌ : ℤ → ℤ → ℤ
a *ℤ b =
    sub_ℕ (pos_part a * pos_part b + neg_part a * neg_part b)
      (pos_part a * neg_part b + neg_part a * pos_part b)

abbrev pub ◌≤ℤ◌ : ℤ → ℤ → Type 0
a ≤ℤ b = pos_part a + neg_part b ≤ pos_part b + neg_part a

abbrev pub ltb_ℤ : ℤ → ℤ → Bool
ltb_ℤ a b = ltb (pos_part a + neg_part b) (pos_part b + neg_part a)

abbrev pub two_63 : ℕ
two_63 = 2 ^ 63

abbrev pub two_64 : ℕ
two_64 = 2 ^ 64

-- `uint64(z)`: the low 64 bits in two's complement
unfoldable pub bits_64 : ℤ → ℕ
bits_64 (pos n) = n % two_64
bits_64 (negsuc n) = two_64 - 1 - n % two_64

-- `int64(u)` of a `uint64`
unfoldable pub int_64 : ℕ → ℤ
int_64 u = if ltb (u % two_64) two_63 then pos (u % two_64) else negsuc (two_64 - 1 - u % two_64)

-- the value that an `int64` holds after an operation with the result `z`
unfoldable pub wrap_64 : ℤ → ℤ
unfolding int_64 bits_64
wrap_64 z = int_64 (bits_64 z)

-- A conversion to `int64` and back loses nothing of a `uint64`.
pub bits_64-int_64 : (u : ℕ) → u < two_64 → bits_64 (int_64 u) ≡ u
unfolding bits_64 int_64
bits_64-int_64 u h = ground arith

-- Wrapping changes nothing in the range of the type.
pub wrap_64-pos : (n : ℕ) → n < two_63 → wrap_64 (pos n) ≡ pos n
unfolding wrap_64
wrap_64-pos n h = ground arith

pub wrap_64-negsuc : (n : ℕ) → n < two_63 → wrap_64 (negsuc n) ≡ negsuc n
unfolding wrap_64
wrap_64-negsuc n h = ground arith

pub bits_64-lt : (z : ℤ) → bits_64 z < two_64
unfolding bits_64
bits_64-lt (pos n) = omega arith
bits_64-lt (negsuc n) = omega arith
