-- ===== src/Emu/Float/Flags.antt =====
-- The flags that the floating-point arithmetic of src/VEmu.cpp puts into FFLAGS.
use vemu.Common.{
  ℕ, ◌*◌, ◌-◌, ◌^◌, ◌<◌, ◌≡◌, refl, ◌∙◌, Bool, true, false, bit_and, ◌==◌, if◌then◌else◌, arith,
}
use native.Mathlib.Nat.{one-le-pow}
use vemu.Bits.{bit_at, bit_at_lem, bit_at_small, bit_at-bit_and, bit_at-bit_or, bit_and_field}
use vemu.Isa.{ReturnException}
use vemu.FRegFile
use vemu.Emu.Platform.{Floats, Platform}
use vemu.Emu.State.{Emu, Handled, fields}
use vemu.Emu.MulDiv.{csr_fflags}
use vemu.Emu.Float.Access.{
  op1, op2, set_frd, put_flag, has_flag, update_float_flags, reset_float_flags,
}
use vemu.Emu.Float.Arith.{fadds, fmuls}

abbrev flag_of : Bool → ℕ
flag_of b = if b then 1 else 0

-- A flag is put at its own bit, and the other bits stay.
module _ (k m : ℕ) (set : Bool) (csrs : ℕ → ℕ) where
  put_own :
      bit_at k m ≡ 1
      → bit_at k (2 ^ 32 - 1 - m) ≡ 0
      → bit_at k (put_flag set m csrs csr_fflags) ≡ flag_of set
  put_own one none = ground (
    arith,
    one,
    none,
    bit_at-bit_or k (csrs csr_fflags) m,
    bit_at-bit_and k (csrs csr_fflags) (2 ^ 32 - 1 - m),
    bit_at_small k (csrs csr_fflags),
  )

  put_other :
      bit_at k m ≡ 0
      → bit_at k (2 ^ 32 - 1 - m) ≡ 1
      → bit_at k (put_flag set m csrs csr_fflags) ≡ bit_at k (csrs csr_fflags)
  put_other none one = ground (
    arith,
    one,
    none,
    bit_at-bit_or k (csrs csr_fflags) m,
    bit_at-bit_and k (csrs csr_fflags) (2 ^ 32 - 1 - m),
    bit_at_small k (csrs csr_fflags),
  )

flag_bit : (k flags : ℕ) → flag_of (has_flag flags (2 ^ k)) ≡ bit_at k flags
flag_bit k flags =
    let field : bit_and flags (2 ^ k) ≡ bit_at k flags * 2 ^ k =
      ground (arith, bit_and_field k 1 flags, bit_at_lem k flags) in
    rw field (by_bit (bit_at k flags) (bit_at_small k flags))
  where
    by_bit : (b : ℕ) → b < 2 → flag_of (if b * 2 ^ k == 0 then false else true) ≡ b
    by_bit b small = ground (arith, one-le-pow k 2)

-- The flags of SoftFloat go to the bits of FFLAGS with the same numbers, except that of a division
-- by zero, which stays.
pub record FlagsAre (flags before after : ℕ) : Type 0 where
  pub inexact : bit_at 0 after ≡ bit_at 0 flags
  pub underflow : bit_at 1 after ≡ bit_at 1 flags
  pub overflow : bit_at 2 after ≡ bit_at 2 flags
  pub divided : bit_at 3 after ≡ bit_at 3 before
  pub invalid : bit_at 4 after ≡ bit_at 4 flags

update_float_flags_lem :
    (e : Emu)
    → FlagsAre e.exception_flags (e.csrs csr_fflags) ((update_float_flags e).csrs csr_fflags)
unfolding update_float_flags
update_float_flags_lem e =
    let flags = e.exception_flags in
    let s1 = has_flag flags 1 in
    let s2 = has_flag flags 2 in
    let s3 = has_flag flags 4 in
    let s4 = has_flag flags 16 in
    let c1 = put_flag s1 1 e.csrs in
    let c2 = put_flag s2 2 c1 in
    let c3 = put_flag s3 4 c2 in
    record {
      inexact =
          put_other 0 16 s4 c3 refl refl
          ∙ put_other 0 4 s3 c2 refl refl
          ∙ put_other 0 2 s2 c1 refl refl
          ∙ put_own 0 1 s1 e.csrs refl refl
          ∙ flag_bit 0 flags;
      underflow =
          put_other 1 16 s4 c3 refl refl
          ∙ put_other 1 4 s3 c2 refl refl
          ∙ put_own 1 2 s2 c1 refl refl
          ∙ flag_bit 1 flags;
      overflow = put_other 2 16 s4 c3 refl refl ∙ put_own 2 4 s3 c2 refl refl ∙ flag_bit 2 flags;
      divided =
          put_other 3 16 s4 c3 refl refl
          ∙ put_other 3 4 s3 c2 refl refl
          ∙ put_other 3 2 s2 c1 refl refl
          ∙ put_other 3 1 s1 e.csrs refl refl;
      invalid = put_own 4 16 s4 c3 refl refl ∙ flag_bit 4 flags;
    }

-- The result of an operation of SoftFloat on the two operands, from no flags: its value goes to `rd` as
-- a `double`, no other floating-point register changes, and its flags go to FFLAGS.
abbrev pub Computes : Floats → Emu → ℕ × ℕ → Handled → Type 0
Computes fl e (res, flags) (ex, e') =
    (ex ≡ ReturnException.normal_execution_return)
    × ((j : ℕ)
        → FRegFile.load_reg e'.fregs j
          ≡ (if (fields e).rd == j then fl.to_double res else FRegFile.load_reg e.fregs j))
    × FlagsAre flags (e.csrs csr_fflags) (e'.csrs csr_fflags)

-- With SUPPORT_SOFTFLOAT, FADD.S and FMUL.S put the sum and the product that SoftFloat computes from
-- both source registers into `rd` and its flags, all but that of a division by zero, into FFLAGS.
pub float_arithmetic_lem :
    (p : Platform) (e : Emu)
    → p.support_softfloat ≡ true
    → let fl = p.floats in
      Computes fl e (fl.f32_add 0 (op1 fl e) (op2 fl e)) (fadds p e)
      × Computes fl e (fl.f32_mul 0 (op1 fl e) (op2 fl e)) (fmuls p e)
unfolding fadds fmuls FRegFile.load_reg FRegFile.store_reg reset_float_flags update_float_flags
float_arithmetic_lem p e on =
    let fl = p.floats in
    let sum = fl.f32_add 0 (op1 fl e) (op2 fl e) in
    let product = fl.f32_mul 0 (op1 fl e) (op2 fl e) in
    let before : ℕ × ℕ → Emu =
      λ (res, flags). set_frd fl (record e { exception_flags = flags }) res in
    (
      rw on (refl, λ j. refl, update_float_flags_lem (before sum)),
      rw on (refl, λ j. refl, update_float_flags_lem (before product)),
    )
