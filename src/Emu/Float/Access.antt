-- ===== src/Emu/Float/Access.antt =====
-- The floating-point registers as the handlers of src/VEmu.cpp use them, the loads and stores, the
-- moves, and the flags.
use vemu.Common.{
  ℕ, ◌-◌, ◌^◌, bit_and, bit_or, Bool, true, false, ◌==◌, if◌then◌else◌, u32, sext32, add64, update,
  Outcome, ok,
}
use vemu.Isa.{ReturnException}
use vemu.FRegFile
use vemu.Emu.Platform.{Floats, Platform}
use vemu.Emu.State.{Emu, Handled, fields, reg1, result}
use vemu.Emu.Memory.{load_then, store_at}
use vemu.Emu.MulDiv.{csr_fflags}

-- `static_cast<float>(fregs.load_reg(i))`.
abbrev pub load_float : Floats → Emu → ℕ → ℕ
load_float fl e i = fl.to_float (FRegFile.load_reg e.fregs i)

abbrev pub op1 : Floats → Emu → ℕ
op1 fl e = load_float fl e (fields e).rs1

abbrev pub op2 : Floats → Emu → ℕ
op2 fl e = load_float fl e (fields e).rs2

abbrev pub op3 : Floats → Emu → ℕ
op3 fl e = load_float fl e (fields e).rs3

-- `fregs.store_reg(rd, static_cast<double>(res));`
abbrev pub set_frd : Floats → Emu → ℕ → Emu
set_frd fl e res = record e { fregs = FRegFile.store_reg e.fregs (fields e).rd (fl.to_double res) }

-- The same and `return ReturnException::NormalExecutionReturn;`.
abbrev pub float_result : Floats → Emu → ℕ → Handled
float_result fl e res = (ReturnException.normal_execution_return, set_frd fl e res)

-- Without SUPPORT_SOFTFLOAT a handler returns `IllegalInstruction` at once.
abbrev pub supported : Platform → Emu → Handled → Handled
supported p e handled =
    if p.support_softfloat then handled else (ReturnException.illegal_instruction, e)

abbrev pub supported_outcome : Platform → Emu → Outcome Handled → Outcome Handled
supported_outcome p e handled =
    if p.support_softfloat then handled else ok (ReturnException.illegal_instruction, e)

-- `auto offs = curr_instr.get_fields().imm`, a `uint32_t`, added to the base: its sign is not
-- extended.
abbrev pub float_address : Emu → ℕ
float_address e = add64 (reg1 e) (fields e).imm

unfoldable pub flw : Platform → Emu → Outcome Handled
flw p e =
    supported_outcome p e
      (load_then e (float_address e) 32 (λ e' value. ok (float_result p.floats e' (u32 value))))

unfoldable pub fsw : Platform → Emu → Outcome Handled
fsw p e = supported_outcome p e (store_at e (float_address e) (op2 p.floats e) 32)

unfoldable pub fmvxw : Platform → Emu → Handled
fmvxw p e = supported p e (result e (sext32 (op1 p.floats e)))

unfoldable pub fmvwx : Platform → Emu → Handled
fmvwx p e = supported p e (float_result p.floats e (u32 (reg1 e)))

-- The flags of SoftFloat.
abbrev pub softfloat_flag_inexact : ℕ
softfloat_flag_inexact = 1

abbrev pub softfloat_flag_underflow : ℕ
softfloat_flag_underflow = 2

abbrev pub softfloat_flag_overflow : ℕ
softfloat_flag_overflow = 4

abbrev pub softfloat_flag_invalid : ℕ
softfloat_flag_invalid = 16

-- `if (set) csrs[FFLAGS] |= m; else csrs[FFLAGS] &= ~m;` with an unsigned `m`.
abbrev pub put_flag : Bool → ℕ → (ℕ → ℕ) → ℕ → ℕ
put_flag set m csrs =
    update csrs csr_fflags
      (if set then bit_or (csrs csr_fflags) m else bit_and (csrs csr_fflags) (2 ^ 32 - 1 - m))

abbrev pub has_flag : ℕ → ℕ → Bool
has_flag flags m = if bit_and flags m == 0 then false else true

unfoldable pub update_float_flags : Emu → Emu
update_float_flags e =
    let flags = e.exception_flags in
    let c1 = put_flag (has_flag flags softfloat_flag_inexact) 0x1 e.csrs in
    let c2 = put_flag (has_flag flags softfloat_flag_underflow) 0x2 c1 in
    let c3 = put_flag (has_flag flags softfloat_flag_overflow) 0x4 c2 in
    let c4 = put_flag (has_flag flags softfloat_flag_invalid) 0x10 c3 in record e { csrs = c4 }

unfoldable pub reset_float_flags : Emu → Emu
reset_float_flags e = record e { exception_flags = 0 }
