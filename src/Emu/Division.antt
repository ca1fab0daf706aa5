-- ===== src/Emu/Division.antt =====
-- The signed division of src/VEmu.cpp.
use native.Mathlib.Nat.{mod-lt, div-le_self}
use vemu.Common.{
  ◌-◌, ◌^◌, ◌<◌, ◌≤◌, ◌≡◌, ◌≢◌, ap, ◌∙◌, false, ◌&&◌, ◌==◌, ltb, arith, ℤ, pos_part, neg_part, ◌/ℤ◌,
  ◌%ℤ◌, signed64, of_ℤ, inl, inr, Bool-cases,
}
use vemu.Emu.State.{Emu, fields, reg1, reg2}
use vemu.Emu.Access.{written, written-result}
use vemu.Emu.MulDiv.{div, rem, int64_min, minus_one}
use vemu.Emu.Truncated.{
  quotient_size, quotient_other, remainder_size, truncated, signed64-of_ℤ, half, quotient_small,
  lowest, last, parts_le, signed_range, size, is_negative, IsDivision,
}

module _ (e : Emu) (other : (fields e).rd ≢ 0) (word1 : reg1 e < 2 ^ 64) (word2 : reg2 e < 2 ^ 64)
    (some_divisor : reg2 e ≢ 0) (fits : (reg1 e ≡ 2 ^ 63) → reg2 e ≢ 2 ^ 64 - 1) where
  abbrev dividend : ℤ
  dividend = signed64 (reg1 e)

  abbrev divisor : ℤ
  divisor = signed64 (reg2 e)

  positive_divisor : 0 < size divisor
  positive_divisor = ground arith

  no_overflow : ((reg1 e == int64_min) && (reg2 e == minus_one)) ≡ false
  no_overflow = ground arith

  div_value : written (div e) ≡ of_ℤ (dividend /ℤ divisor)
  unfolding div
  div_value =
      let z : (reg2 e == 0) ≡ false = ground arith in
      rw (z, no_overflow, div) (written-result e (of_ℤ (dividend /ℤ divisor)) other)

  rem_value : written (rem e) ≡ of_ℤ (dividend %ℤ divisor)
  unfolding rem
  rem_value =
      let z : (reg2 e == 0) ≡ false = ground arith in
      rw (z, no_overflow, rem) (written-result e (of_ℤ (dividend %ℤ divisor)) other)

  rem_range : size (dividend %ℤ divisor) < 2 ^ 63
  rem_range = omega (
    arith,
    remainder_size dividend divisor,
    mod-lt (size dividend) positive_divisor,
    signed_range (reg2 e) word2,
  )

  -- By -1 or 1 the size stays: -2 ^ 63 by 1 is not positive, and by -1 excluded.
  div_range_one : size divisor ≡ 1 → pos_part (dividend /ℤ divisor) < 2 ^ 63
  div_range_one one = elim (Bool-cases (ltb (size dividend) (2 ^ 63))) [
    | inl below ↦
        let same = quotient_small dividend divisor positive_divisor one in
        ground (arith, same, quotient_size dividend divisor, parts_le (dividend /ℤ divisor))
    | inr above ↦
        let e1 : reg1 e ≡ 2 ^ 63 = lowest (reg1 e) word1 (ground arith) in
        elim (last (reg2 e) word2 one) [
          | inl plus ↦
              let differ : is_negative dividend ≢ is_negative divisor = rw (e1, plus) (λ h. cc) in
              omega (arith, quotient_other dividend divisor differ)
          | inr minus ↦ absurd (fits e1 minus)
        ]
  ]

  div_range : pos_part (dividend /ℤ divisor) < 2 ^ 63
  div_range = elim (Bool-cases (size divisor == 1)) [
    | inl one ↦ div_range_one (ground arith)
    | inr more ↦
        let half_size = half dividend divisor positive_divisor (ground arith) in
        omega (
          arith,
          half_size,
          quotient_size dividend divisor,
          parts_le (dividend /ℤ divisor),
          signed_range (reg1 e) word1,
        )
  ]

  div_range_below : neg_part (dividend /ℤ divisor) ≤ 2 ^ 63
  div_range_below = omega (
    arith,
    quotient_size dividend divisor,
    parts_le (dividend /ℤ divisor),
    signed_range (reg1 e) word1,
    div-le_self (size dividend) (size divisor),
  )

  -- If `rd` is not register 0, the divisor is not 0 and the operands are not -2 ^ 63 and -1, DIV and
  -- REM leave in `rd` the quotient of the registers as signed integers, rounded towards 0, and its
  -- remainder.
  pub div-rem :
      IsDivision
        (signed64 (reg1 e))
        (signed64 (reg2 e))
        (signed64 (written (div e)))
        (signed64 (written (rem e)))
  div-rem =
      let q : signed64 (written (div e)) ≡ dividend /ℤ divisor =
        ap signed64 div_value ∙ signed64-of_ℤ (dividend /ℤ divisor) div_range div_range_below in
      let r : signed64 (written (rem e)) ≡ dividend %ℤ divisor =
        ap signed64 rem_value
        ∙ signed64-of_ℤ (dividend %ℤ divisor)
            (omega (arith, rem_range, parts_le (dividend %ℤ divisor)))
            (omega (arith, rem_range, parts_le (dividend %ℤ divisor))) in
      rw (q, r) (truncated dividend divisor positive_divisor)
