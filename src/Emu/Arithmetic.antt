-- ===== src/Emu/Arithmetic.antt =====
-- What the instructions of src/VEmu.cpp that multiply, divide and work on 32 bits compute.
use native.Mathlib.Nat.{mul-le-mul, div-add-mod', mod-lt}
use vemu.Common.{
  ℕ, ◌+◌, ◌-◌, ◌*◌, ◌/◌, ◌%◌, ◌^◌, ◌<◌, ◌≤◌, ◌≡◌, ◌≢◌, ap, sym, ◌∙◌, ◌==◌, bit_and, u32, u64,
  sext32, arith, add64, inl, inr, Bool-cases,
}
use vemu.Bits.{bit_and_mask}
use vemu.Emu.State.{Emu, fields, imm, reg1, reg2}
use vemu.Emu.Access.{written, written-result}
use vemu.Emu.Immediate.{addiw}
use vemu.Emu.Register.{addw, subw}
use vemu.Emu.MulDiv.{mul, mulhu, divu, remu, flag_zero_divide}

product_fits : (a b : ℕ) → a < 2 ^ 64 → b < 2 ^ 64 → a * b < 2 ^ 128
product_fits a b p q =
    let top : ℕ = 2 ^ 64 - 1 in
    let h : a * b ≤ top * top =
      mul-le-mul {n₁ = a} {m₁ = b} {n₂ = top} {m₂ = top} (omega arith) (omega arith) in
    omega arith

module _ (e : Emu) (other : (fields e).rd ≢ 0) where
  mulhu-mul :
      reg1 e < 2 ^ 64
      → reg2 e < 2 ^ 64
      → reg1 e * reg2 e ≡ written (mulhu e) * 2 ^ 64 + written (mul e)
  unfolding mulhu mul
  mulhu-mul p q =
      let high : written (mulhu e) ≡ u64 (reg1 e * reg2 e / 2 ^ 64) =
        written-result e (u64 (reg1 e * reg2 e / 2 ^ 64)) other in
      let low : written (mul e) ≡ reg1 e * reg2 e % 2 ^ 64 =
        written-result e (reg1 e * reg2 e % 2 ^ 64) other in
      omega (arith, high, low, product_fits (reg1 e) (reg2 e) p q)

  divu-remu :
      (reg2 e ≢ 0
        → (reg1 e ≡ written (divu e) * reg2 e + written (remu e)) × (written (remu e) < reg2 e))
      × (reg2 e ≡ 0 → (written (divu e) ≡ 2 ^ 64 - 1) × (written (remu e) ≡ reg1 e))
  unfolding divu remu
  divu-remu = elim (Bool-cases (reg2 e == 0)) [
    | inl zero_divisor ↦ (
      λ h. absurd (ground arith),
      λ h. (
        rw (zero_divisor, divu) (written-result (flag_zero_divide e) (2 ^ 64 - 1) other),
        rw (zero_divisor, remu) (written-result e (reg1 e) other),
      ),
    )
    | inr proper ↦ (
      λ h.
          let q : written (divu e) ≡ reg1 e / reg2 e =
            rw (proper, divu) (written-result e (reg1 e / reg2 e) other) in
          let r : written (remu e) ≡ reg1 e % reg2 e =
            rw (proper, remu) (written-result e (reg1 e % reg2 e) other) in
          (rw (q, r) (sym (div-add-mod' (reg1 e) (reg2 e))), rw r (mod-lt (reg1 e) (omega arith))),
      λ h. absurd (ground arith),
    )
  ]

  -- If `rd` is not register 0, MULHU and MUL together give the 128-bit product of the registers as
  -- unsigned numbers below 2 ^ 64. DIVU and REMU satisfy the division algorithm on the registers as
  -- unsigned numbers; by 0 the quotient is 2 ^ 64 - 1 and the remainder the dividend.
  pub unsigned_lem :
      (reg1 e < 2 ^ 64
        → reg2 e < 2 ^ 64
        → reg1 e * reg2 e ≡ written (mulhu e) * 2 ^ 64 + written (mul e))
      × (reg2 e ≢ 0
          → (reg1 e ≡ written (divu e) * reg2 e + written (remu e)) × (written (remu e) < reg2 e))
      × (reg2 e ≡ 0 → (written (divu e) ≡ 2 ^ 64 - 1) × (written (remu e) ≡ reg1 e))
  unsigned_lem = (mulhu-mul, divu-remu.0, divu-remu.1)

  -- If `rd` is not register 0, the results of ADDW, SUBW and ADDIW are the sum and the difference of the low 32 bits of the
  -- operands, modulo 2 ^ 32, with their sign extended.
  words_lem :
      (written (addw e) ≡ sext32 ((reg1 e + reg2 e) % 2 ^ 32))
      × (written (subw e) ≡ sext32 ((reg1 e % 2 ^ 32 + 2 ^ 32 - reg2 e % 2 ^ 32) % 2 ^ 32))
      × (written (addiw e) ≡ sext32 ((reg1 e + imm e) % 2 ^ 32))
  unfolding addw subw addiw
  words_lem = (
    written-result e (sext32 (u32 (u32 (reg1 e) + u32 (reg2 e)))) other
        ∙ ap sext32 {x = u32 (u32 (reg1 e) + u32 (reg2 e))} {y = (reg1 e + reg2 e) % 2 ^ 32}
            (omega arith),
    written-result e _ other,
    written-result e (sext32 (bit_and (add64 (reg1 e) (imm e)) 0xffffffff)) other
        ∙ ap sext32 {x = bit_and (add64 (reg1 e) (imm e)) 0xffffffff}
            {y = (reg1 e + imm e) % 2 ^ 32}
            (bit_and_mask 32 (add64 (reg1 e) (imm e)) ∙ omega arith),
  )
