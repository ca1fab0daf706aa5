-- ===== src/Bits.antt =====
-- The bit operations at variables, as arithmetic: single bits, masks and disjoint fields.
mod Digit
pub mod Masks
use Digit.{bit_and_digit, bit_or_digit, bit_xor_digit, differ-lt-two}
use Prim.Native.Nat.{differ, bit_and-bitwise, bit_or-bitwise}
use native.Mathlib.Nat.{pow-suc, one-le-pow, div-div-eq-div-mul, pow-succ', div-one, mul-one}
use vemu.Common.{
  ℕ, zero, suc, ◌+◌, ◌-◌, ◌*◌, ◌/◌, ◌%◌, ◌^◌, ◌≤◌, ◌<◌, min, max, bit_and, bit_or, bit_xor, ◌≡◌,
  refl, ap, ◌∙◌, arith,
}

-- Bit `k` of a word.
abbrev pub bit_at : ℕ → ℕ → ℕ
bit_at zero a = a % 2
bit_at (suc k) a = bit_at k (a / 2)

pub bit_at-bit_and : (k a b : ℕ) → bit_at k (bit_and a b) ≡ min (bit_at k a) (bit_at k b)
bit_at-bit_and zero a b = omega (arith, bit_and_digit a b)
bit_at-bit_and (suc k) a b =
    let half : bit_and a b / 2 ≡ bit_and (a / 2) (b / 2) = omega (arith, bit_and_digit a b) in
    rw half (bit_at-bit_and k (a / 2) (b / 2))

pub bit_at-bit_or : (k a b : ℕ) → bit_at k (bit_or a b) ≡ max (bit_at k a) (bit_at k b)
bit_at-bit_or zero a b = omega (arith, bit_or_digit a b)
bit_at-bit_or (suc k) a b =
    let half : bit_or a b / 2 ≡ bit_or (a / 2) (b / 2) = omega (arith, bit_or_digit a b) in
    rw half (bit_at-bit_or k (a / 2) (b / 2))

zero-bit_and : (b : ℕ) → bit_and 0 b ≡ 0
zero-bit_and b = bit_and-bitwise 0 b

pub zero-bit_or : (b : ℕ) → bit_or 0 b ≡ b
zero-bit_or b = bit_or-bitwise 0 b

-- The sizes of the results.
pub bit_and-le : (n a b : ℕ) → a ≤ n → bit_and a b ≤ a
bit_and-le zero zero b h = omega (arith, zero-bit_and b)
bit_and-le zero (suc a) b h = absurd (omega arith)
bit_and-le (suc n) zero b h = omega (arith, zero-bit_and b)
bit_and-le (suc n) (suc a) b h =
    omega (arith, bit_and_digit (suc a) b, bit_and-le n (suc a / 2) (b / 2) (omega arith))

pub bit_or-lt : (w a b : ℕ) → a < 2 ^ w → b < 2 ^ w → bit_or a b < 2 ^ w
bit_or-lt zero zero zero p q = omega arith
bit_or-lt zero zero (suc b) p q = absurd (omega arith)
bit_or-lt zero (suc a) b p q = absurd (omega arith)
bit_or-lt (suc w) a b p q = omega (
  arith,
  pow-suc 2 w,
  bit_or_digit a b,
  bit_or-lt w (a / 2) (b / 2) (omega (arith, pow-suc 2 w)) (omega (arith, pow-suc 2 w)),
)

pub bit_xor-lt : (w a b : ℕ) → a < 2 ^ w → b < 2 ^ w → bit_xor a b < 2 ^ w
bit_xor-lt zero zero zero p q = omega arith
bit_xor-lt zero zero (suc b) p q = absurd (omega arith)
bit_xor-lt zero (suc a) b p q = absurd (omega arith)
bit_xor-lt (suc w) a b p q = omega (
  arith,
  pow-suc 2 w,
  bit_xor_digit a b,
  differ-lt-two (a % 2) (b % 2) (omega arith) (omega arith),
  bit_xor-lt w (a / 2) (b / 2) (omega (arith, pow-suc 2 w)) (omega (arith, pow-suc 2 w)),
)

bit_or-zero : (n a : ℕ) → a ≤ n → bit_or a 0 ≡ a
bit_or-zero zero zero h = refl
bit_or-zero zero (suc a) h = absurd (omega arith)
bit_or-zero (suc n) zero h = refl
bit_or-zero (suc n) (suc a) h =
    omega (arith, bit_or_digit (suc a) 0, bit_or-zero n (suc a / 2) (omega arith))

bit_and-zero : (a : ℕ) → bit_and a 0 ≡ 0
bit_and-zero a = go a a (omega arith)
  where
    go : (n a : ℕ) → a ≤ n → bit_and a 0 ≡ 0
    go zero zero h = refl
    go zero (suc a) h = absurd (omega arith)
    go (suc n) zero h = refl
    go (suc n) (suc a) h = omega (arith, bit_and_digit (suc a) 0, go n (suc a / 2) (omega arith))

double_pow : (q k : ℕ) → q * 2 ^ suc k ≡ 2 * (q * 2 ^ k)
double_pow q k = omega (arith, ap (λ (t : ℕ). q * t) (pow-suc 2 k))

-- `lo | (hi << k)` is a sum when `lo` fits in `k` bits.
pub bit_or_fields : (k lo hi : ℕ) → lo < 2 ^ k → bit_or lo (hi * 2 ^ k) ≡ lo + hi * 2 ^ k
bit_or_fields zero zero hi h = omega (arith, zero-bit_or (hi * 1))
bit_or_fields zero (suc lo) hi h = absurd (omega arith)
bit_or_fields (suc k) lo hi h = omega (
  arith,
  bit_or_digit lo (hi * 2 ^ suc k),
  double_pow hi k,
  ap (λ (t : ℕ). bit_or (lo / 2) t) (half_of (hi * 2 ^ suc k) (hi * 2 ^ k) (double_pow hi k)),
  bit_or_fields k (lo / 2) hi (omega (arith, pow-suc 2 k)),
)
  where
    half_of : (a b : ℕ) → a ≡ 2 * b → a / 2 ≡ b
    half_of a b e = omega arith

mask_of_sum : (w q r : ℕ) → r < 2 ^ w → bit_and (q * 2 ^ w + r) (2 ^ w - 1) ≡ r
mask_of_sum zero q r h = omega (arith, bit_and-zero (q * 1 + r))
mask_of_sum (suc w) q r h = ground (
  arith,
  bit_and_digit (q * 2 ^ suc w + r) (2 ^ suc w - 1),
  double_pow q w,
  pow-suc 2 w,
  one-le-pow w 2,
  mask_of_sum w q (r / 2) (omega (arith, pow-suc 2 w)),
)

-- A mask of `w` low bits is the remainder by `2 ^ w`.
pub bit_and_mask : (w a : ℕ) → bit_and a (2 ^ w - 1) ≡ a % 2 ^ w
bit_and_mask w a = ground (arith, one-le-pow w 2, mask_of_sum w (a / 2 ^ w) (a % 2 ^ w))

-- A mask of `w` bits from bit `k` keeps that field in its place.
pub bit_and_field : (k w a : ℕ) → bit_and a ((2 ^ w - 1) * 2 ^ k) ≡ a / 2 ^ k % 2 ^ w * 2 ^ k
bit_and_field zero w a = simp (div-one, mul-one) (bit_and_mask w a)
bit_and_field (suc k) w a = ground (
  arith,
  bit_and_digit a ((2 ^ w - 1) * 2 ^ suc k),
  double_pow (2 ^ w - 1) k,
  double_pow (a / 2 ^ suc k % 2 ^ w) k,
  div-div-eq-div-mul a 2 (2 ^ k),
  pow-succ' 2 k,
  bit_and_field k w (a / 2),
)

-- `(a & b) >> k`.
pub bit_and-shift : (k a b : ℕ) → bit_and a b / 2 ^ k ≡ bit_and (a / 2 ^ k) (b / 2 ^ k)
bit_and-shift zero a b = simp div-one
bit_and-shift (suc k) a b =
    let half : bit_and a b / 2 ≡ bit_and (a / 2) (b / 2) = omega (arith, bit_and_digit a b) in
    rw
      (
        pow-succ' 2 k,
        ← div-div-eq-div-mul (bit_and a b) 2 (2 ^ k),
        ← div-div-eq-div-mul a 2 (2 ^ k),
        ← div-div-eq-div-mul b 2 (2 ^ k),
        half,
      )
      (bit_and-shift k (a / 2) (b / 2))

-- A bit by division.
pub bit_at_lem : (k a : ℕ) → bit_at k a ≡ a / 2 ^ k % 2
bit_at_lem zero a = simp (div-one) refl
bit_at_lem (suc k) a = rw (pow-succ' 2 k, ← div-div-eq-div-mul a 2 (2 ^ k)) (bit_at_lem k (a / 2))

pub bit_at_small : (k a : ℕ) → bit_at k a < 2
bit_at_small zero a = omega arith
bit_at_small (suc k) a = bit_at_small k (a / 2)
