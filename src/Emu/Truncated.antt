-- ===== src/Emu/Truncated.antt =====
-- The division of signed integers that rounds towards 0, and the patterns of `int64_t`.
use native.Mathlib.Nat.{div-add-mod', mod-lt, div-mul-le_self, mul-le-mul_left, div-one}
use vemu.Common.{
  ℕ, zero, suc, ◌+◌, ◌-◌, ◌*◌, ◌/◌, ◌%◌, ◌^◌, ◌<◌, ◌≤◌, ◌≡◌, ◌≢◌, refl, sym, Bool, true, false,
  arith, ℤ, pos, negsuc, pos_part, neg_part, neg_ℕ, ◌/ℤ◌, ◌%ℤ◌, signed64, of_ℤ, ◌⊎◌,
}

abbrev pub size : ℤ → ℕ
size (pos n) = n
size (negsuc n) = suc n

abbrev pub is_negative : ℤ → Bool
is_negative (pos n) = false
is_negative (negsuc n) = true

-- `q` and `r` are the quotient rounded towards 0 and the remainder: their sizes are those of the
-- division of the sizes, `q` is not negative if the signs agree and not positive if they differ,
-- and `r` has the sign of `x` unless it is 0.
pub record IsDivision (x y q r : ℤ) : Type 0 where
  pub sizes : size x ≡ size q * size y + size r
  pub small : size r < size y
  pub same_signs : is_negative x ≡ is_negative y → neg_part q ≡ 0
  pub other_signs : is_negative x ≢ is_negative y → pos_part q ≡ 0
  pub not_below : is_negative x ≡ false → neg_part r ≡ 0
  pub not_above : is_negative x ≡ true → pos_part r ≡ 0

size_neg : (n : ℕ) → (size (neg_ℕ n) ≡ n) × (neg_part (neg_ℕ n) ≡ n) × (pos_part (neg_ℕ n) ≡ 0)
size_neg zero = (refl, refl, refl)
size_neg (suc n) = (refl, refl, refl)

pub quotient_size : (x y : ℤ) → size (x /ℤ y) ≡ size x / size y
quotient_size (pos a) (pos b) = refl
quotient_size (pos a) (negsuc b) = (size_neg (a / suc b)).0
quotient_size (negsuc a) (pos b) = (size_neg (suc a / b)).0
quotient_size (negsuc a) (negsuc b) = refl

pub remainder_size : (x y : ℤ) → size (x %ℤ y) ≡ size x % size y
remainder_size (pos a) (pos b) = refl
remainder_size (pos a) (negsuc b) = refl
remainder_size (negsuc a) (pos b) = (size_neg (suc a % b)).0
remainder_size (negsuc a) (negsuc b) = (size_neg (suc a % suc b)).0

quotient_same : (x y : ℤ) → is_negative x ≡ is_negative y → neg_part (x /ℤ y) ≡ 0
quotient_same (pos a) (pos b) h = refl
quotient_same (negsuc a) (negsuc b) h = refl
quotient_same (pos a) (negsuc b) h = cc
quotient_same (negsuc a) (pos b) h = cc

pub quotient_other : (x y : ℤ) → is_negative x ≢ is_negative y → pos_part (x /ℤ y) ≡ 0
quotient_other (pos a) (pos b) h = absurd (h refl)
quotient_other (negsuc a) (negsuc b) h = absurd (h refl)
quotient_other (pos a) (negsuc b) h = (size_neg (a / suc b)).2
quotient_other (negsuc a) (pos b) h = (size_neg (suc a / b)).2

remainder_below : (x y : ℤ) → is_negative x ≡ false → neg_part (x %ℤ y) ≡ 0
remainder_below (pos a) (pos b) h = refl
remainder_below (pos a) (negsuc b) h = refl
remainder_below (negsuc a) y h = cc

remainder_above : (x y : ℤ) → is_negative x ≡ true → pos_part (x %ℤ y) ≡ 0
remainder_above (negsuc a) (pos b) h = (size_neg (suc a % b)).2
remainder_above (negsuc a) (negsuc b) h = (size_neg (suc a % suc b)).2
remainder_above (pos a) y h = cc

pub truncated : (x y : ℤ) → 0 < size y → IsDivision x y (x /ℤ y) (x %ℤ y)
truncated x y h = record {
  sizes = rw (quotient_size x y, remainder_size x y) (sym (div-add-mod' (size x) (size y)));
  small = rw (remainder_size x y) (mod-lt (size x) h);
  same_signs = quotient_same x y;
  other_signs = quotient_other x y;
  not_below = remainder_below x y;
  not_above = remainder_above x y;
}

-- An integer in the range of `int64_t` comes back from its pattern.
pub signed64-of_ℤ : (z : ℤ) → pos_part z < 2 ^ 63 → neg_part z ≤ 2 ^ 63 → signed64 (of_ℤ z) ≡ z
signed64-of_ℤ (pos n) p q = ground arith
signed64-of_ℤ (negsuc n) p q = ground arith

-- The quotient fits but for one pair of operands.
module _ (x y : ℤ) (some_divisor : 0 < size y) where
  pub half : 2 ≤ size y → size x / size y + size x / size y ≤ size x
  half h =
      let twice : size x / size y * 2 ≤ size x / size y * size y =
        mul-le-mul_left (size x / size y) h in
      let whole : size x / size y * size y ≤ size x = div-mul-le_self (size x) (size y) in
      omega arith

  pub quotient_small : size y ≡ 1 → size x / size y ≡ size x
  quotient_small h = rw h (div-one (size x))

-- The patterns of -2 ^ 63 and of -1.
pub lowest : (w : ℕ) → w < 2 ^ 64 → 2 ^ 63 ≤ size (signed64 w) → w ≡ 2 ^ 63
lowest w h big = ground arith

lowest_negative : is_negative (signed64 (2 ^ 63)) ≡ true
lowest_negative = refl

pub last : (w : ℕ) → w < 2 ^ 64 → size (signed64 w) ≡ 1 → (w ≡ 1) ⊎ (w ≡ 2 ^ 64 - 1)
last w h one = ground arith

pub parts_le : (z : ℤ) → (pos_part z ≤ size z) × (neg_part z ≤ size z)
parts_le (pos n) = ground arith
parts_le (negsuc n) = ground arith

-- The values of the registers.
pub signed_range : (w : ℕ) → w < 2 ^ 64 → size (signed64 w) ≤ 2 ^ 63
signed_range w h = ground arith
