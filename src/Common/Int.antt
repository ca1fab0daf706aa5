-- ===== src/Common/Int.antt =====
-- Signed integers over the native numbers, under the library's names (its ℤ stands on the unary ℕ),
-- and the integers that the bit patterns of `int32_t` and `int64_t` stand for.
use Prim.Native.Nat.{ℕ, zero, suc, ◌+◌, ◌-◌, ◌*◌, ◌/◌, ◌%◌, ◌^◌, ◌≤◌}
use mathlib.Core.Bool.{Bool}
use vemu.Common.Tests.{ltb, leb, if◌then◌else◌}

-- `negsuc n` is -(n + 1).
pub data ℤ : Type 0 where
  pos : ℕ → ℤ
  negsuc : ℕ → ℤ

abbrev pub pos_part : ℤ → ℕ
pos_part (pos n) = n
pos_part (negsuc n) = 0

abbrev pub neg_part : ℤ → ℕ
neg_part (pos n) = 0
neg_part (negsuc n) = suc n

abbrev pub neg_ℕ : ℕ → ℤ
neg_ℕ zero = pos zero
neg_ℕ (suc n) = negsuc n

abbrev pub sub_ℕ : ℕ → ℕ → ℤ
sub_ℕ a b = if leb b a then pos (a - b) else negsuc (b - a - 1)

infixl 70 ◌*ℤ◌ ◌/ℤ◌ ◌%ℤ◌
infixl 65 ◌+ℤ◌
infix 50 ◌≤ℤ◌
abbrev pub ◌+ℤ◌ : ℤ → ℤ → ℤ
a +ℤ b = sub_ℕ (pos_part a + pos_part b) (neg_part a + neg_part b)

abbrev pub ◌*ℤ◌ : ℤ → ℤ → ℤ
pos a *ℤ pos b = pos (a * b)
pos a *ℤ negsuc b = neg_ℕ (a * suc b)
negsuc a *ℤ pos b = neg_ℕ (suc a * b)
negsuc a *ℤ negsuc b = pos (suc a * suc b)

-- `/` and `%` of C++: the quotient is rounded towards 0 and the remainder has the dividend's sign.
abbrev pub ◌/ℤ◌ : ℤ → ℤ → ℤ
pos a /ℤ pos b = pos (a / b)
pos a /ℤ negsuc b = neg_ℕ (a / suc b)
negsuc a /ℤ pos b = neg_ℕ (suc a / b)
negsuc a /ℤ negsuc b = pos (suc a / suc b)

abbrev pub ◌%ℤ◌ : ℤ → ℤ → ℤ
pos a %ℤ pos b = pos (a % b)
pos a %ℤ negsuc b = pos (a % suc b)
negsuc a %ℤ pos b = neg_ℕ (suc a % b)
negsuc a %ℤ negsuc b = neg_ℕ (suc a % suc b)

-- `>>` of a signed value: rounded down.
abbrev pub shr_ℤ : ℤ → ℕ → ℤ
shr_ℤ (pos n) k = pos (n / 2 ^ k)
shr_ℤ (negsuc n) k = negsuc (n / 2 ^ k)

abbrev pub ◌≤ℤ◌ : ℤ → ℤ → Type 0
a ≤ℤ b = pos_part a + neg_part b ≤ pos_part b + neg_part a

abbrev pub ltb_ℤ : ℤ → ℤ → Bool
ltb_ℤ a b = ltb (pos_part a + neg_part b) (pos_part b + neg_part a)

-- The integer that a 64-bit pattern stands for, and the pattern of an integer modulo 2 ^ 64.
abbrev pub signed64 : ℕ → ℤ
signed64 w = if ltb w (2 ^ 63) then pos w else negsuc (2 ^ 64 - w - 1)

abbrev pub of_ℤ : ℤ → ℕ
of_ℤ (pos n) = n % 2 ^ 64
of_ℤ (negsuc n) = 2 ^ 64 - 1 - n % 2 ^ 64
