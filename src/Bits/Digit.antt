-- ===== src/Bits/Digit.antt =====
-- The native bit operations stand for a recursion on binary digits with fuel. Here the fuel is
-- dropped: one equation for the lowest digit of each operation.
use Prim.Native.Nat.{digits, bitwise, differ, bit_and-bitwise, bit_or-bitwise, bit_xor-bitwise}
use vemu.Common.{
  ℕ, zero, suc, ◌+◌, ◌*◌, ◌/◌, ◌%◌, ◌≤◌, ◌<◌, min, max, bit_and, bit_or, bit_xor, ◌≡◌, refl, arith,
}

module _ (rest : ℕ → ℕ) (digit : ℕ → ℕ → ℕ) where
  -- Any two amounts of fuel that cover the first argument give the same word.
  enough_fuel : (n m a b : ℕ) → a ≤ n → a ≤ m → digits rest digit n a b ≡ digits rest digit m a b
  enough_fuel zero zero a b p q = refl
  enough_fuel zero (suc m) zero b p q = refl
  enough_fuel zero (suc m) (suc a) b p q = absurd (omega arith)
  enough_fuel (suc n) zero zero b p q = refl
  enough_fuel (suc n) zero (suc a) b p q = absurd (omega arith)
  enough_fuel (suc n) (suc m) zero b p q = refl
  enough_fuel (suc n) (suc m) (suc a) b p q =
      omega (arith, enough_fuel n m (suc a / 2) (b / 2) (omega arith) (omega arith))

  unroll :
      (a b : ℕ)
      → bitwise rest digit (suc a) b
        ≡ bitwise rest digit (suc a / 2) (b / 2) * 2 + digit (suc a % 2) (b % 2)
  unroll a b =
      omega (arith, enough_fuel a (suc a / 2) (suc a / 2) (b / 2) (omega arith) (omega arith))

pub bit_and_digit : (a b : ℕ) → bit_and a b ≡ bit_and (a / 2) (b / 2) * 2 + min (a % 2) (b % 2)
bit_and_digit zero b = omega (arith, bit_and-bitwise 0 b, bit_and-bitwise 0 (b / 2))
bit_and_digit (suc a) b = simp bit_and-bitwise (unroll (λ y. 0) min a b)

pub bit_or_digit : (a b : ℕ) → bit_or a b ≡ bit_or (a / 2) (b / 2) * 2 + max (a % 2) (b % 2)
bit_or_digit zero b = omega (arith, bit_or-bitwise 0 b, bit_or-bitwise 0 (b / 2))
bit_or_digit (suc a) b = simp bit_or-bitwise (unroll (λ y. y) max a b)

pub bit_xor_digit : (a b : ℕ) → bit_xor a b ≡ bit_xor (a / 2) (b / 2) * 2 + differ (a % 2) (b % 2)
bit_xor_digit zero b = zero_case b (b / 2) (b % 2) (omega arith)
  where
    zero_case : (b h d : ℕ) → b ≡ h * 2 + d → bit_xor 0 b ≡ bit_xor 0 h * 2 + differ 0 d
    zero_case b h d e = simp bit_xor-bitwise e
bit_xor_digit (suc a) b = simp bit_xor-bitwise (unroll (λ y. y) differ a b)

pub differ-lt-two : (a b : ℕ) → a < 2 → b < 2 → differ a b < 2
differ-lt-two zero b p q = q
differ-lt-two (suc zero) zero p q = omega arith
differ-lt-two (suc zero) (suc b) p q = omega arith
differ-lt-two (suc (suc a)) b p q = absurd (omega arith)
