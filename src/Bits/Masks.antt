-- ===== src/Bits/Masks.antt =====
-- The low bits of what a bit operation gives: those of its operands.
use Prim.Native.Nat.{differ, bit_and-bitwise}
use vemu.Common.{
  ℕ, zero, suc, ◌+◌, ◌-◌, ◌*◌, ◌/◌, ◌%◌, ◌^◌, ◌≤◌, ◌<◌, min, max, bit_and, bit_or, bit_xor, ◌≡◌,
  refl, arith,
}
use vemu.Bits.{bit_and_mask}
use vemu.Bits.Digit.{bit_and_digit, bit_or_digit, bit_xor_digit, differ-lt-two}

module _ (op digit : ℕ → ℕ → ℕ)
    (unroll : (a b : ℕ) → op a b ≡ op (a / 2) (b / 2) * 2 + digit (a % 2) (b % 2))
    (of_zero : op 0 0 ≡ 0) (small : (x y : ℕ) → x < 2 → y < 2 → digit x y < 2)
    (masked : (x y z : ℕ)
      → x < 2
      → y < 2
      → z < 2
      → min (digit x y) z ≡ digit (min x z) (min y z)) where
  split_op : (a b : ℕ) → (op a b / 2 ≡ op (a / 2) (b / 2)) × (op a b % 2 ≡ digit (a % 2) (b % 2))
  split_op a b =
      let low = small (a % 2) (b % 2) (omega arith) (omega arith) in
      (omega (arith, unroll a b, low), omega (arith, unroll a b, low))

  split_and :
      (a c : ℕ)
      → (bit_and a c / 2 ≡ bit_and (a / 2) (c / 2)) × (bit_and a c % 2 ≡ min (a % 2) (c % 2))
  split_and a c = (omega (arith, bit_and_digit a c), omega (arith, bit_and_digit a c))

  -- A mask goes to the operands.
  masks : (n a b c : ℕ) → a ≤ n → b ≤ n → bit_and (op a b) c ≡ op (bit_and a c) (bit_and b c)
  masks zero zero zero c p q = simp (of_zero, bit_and-bitwise) refl
  masks zero zero (suc b) c p q = absurd (omega arith)
  masks zero (suc a) b c p q = absurd (omega arith)
  masks (suc n) a b c p q = cc (
    bit_and_digit (op a b) c,
    (split_op a b).0,
    (split_op a b).1,
    masks n (a / 2) (b / 2) (c / 2) (omega arith) (omega arith),
    unroll (bit_and a c) (bit_and b c),
    (split_and a c).0,
    (split_and a c).1,
    (split_and b c).0,
    (split_and b c).1,
    masked (a % 2) (b % 2) (c % 2) (omega arith) (omega arith) (omega arith),
  )

  op-mod : (w a b : ℕ) → op a b % 2 ^ w ≡ op (a % 2 ^ w) (b % 2 ^ w)
  op-mod w a b =
      let m = 2 ^ w - 1 in
      rw (← bit_and_mask w (op a b), ← bit_and_mask w a, ← bit_and_mask w b)
        (masks (a + b) a b m (omega arith) (omega arith))

pub bit_and-mod : (w a b : ℕ) → bit_and a b % 2 ^ w ≡ bit_and (a % 2 ^ w) (b % 2 ^ w)
bit_and-mod =
    op-mod bit_and min bit_and_digit refl (λ x y p q. omega arith) (λ x y z p q r. omega arith)

pub bit_or-mod : (w a b : ℕ) → bit_or a b % 2 ^ w ≡ bit_or (a % 2 ^ w) (b % 2 ^ w)
bit_or-mod =
    op-mod bit_or max bit_or_digit refl (λ x y p q. omega arith) (λ x y z p q r. omega arith)

differ_masked :
    (x y z : ℕ) → x < 2 → y < 2 → z < 2 → min (differ x y) z ≡ differ (min x z) (min y z)
differ_masked zero zero zero p q r = refl
differ_masked zero zero (suc zero) p q r = refl
differ_masked zero (suc zero) zero p q r = refl
differ_masked zero (suc zero) (suc zero) p q r = refl
differ_masked (suc zero) zero zero p q r = refl
differ_masked (suc zero) zero (suc zero) p q r = refl
differ_masked (suc zero) (suc zero) zero p q r = refl
differ_masked (suc zero) (suc zero) (suc zero) p q r = refl
differ_masked (suc (suc x)) y z p q r = absurd (omega arith)
differ_masked zero (suc (suc y)) z p q r = absurd (omega arith)
differ_masked (suc zero) (suc (suc y)) z p q r = absurd (omega arith)
differ_masked zero zero (suc (suc z)) p q r = absurd (omega arith)
differ_masked zero (suc zero) (suc (suc z)) p q r = absurd (omega arith)
differ_masked (suc zero) zero (suc (suc z)) p q r = absurd (omega arith)
differ_masked (suc zero) (suc zero) (suc (suc z)) p q r = absurd (omega arith)

pub bit_xor-mod : (w a b : ℕ) → bit_xor a b % 2 ^ w ≡ bit_xor (a % 2 ^ w) (b % 2 ^ w)
bit_xor-mod = op-mod bit_xor differ bit_xor_digit refl differ-lt-two differ_masked
