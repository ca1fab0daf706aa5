-- ===== src/Emu/Float/Arith.antt =====
-- The arithmetic of src/VEmu.cpp on floats, and the instructions on signs.
use vemu.Common.{ℕ, Bool, not, ◌&&◌, if◌then◌else◌}
use vemu.Isa.{ReturnException}
use vemu.Emu.Platform.{Floats, Platform}
use vemu.Emu.State.{Emu, Handled, fields}
use vemu.Emu.Float.Access.{
  load_float, op1, op2, op3, set_frd, float_result, supported, put_flag, update_float_flags,
  reset_float_flags,
}

unfoldable pub fmadds : Platform → Emu → Handled
fmadds p e =
    let fl = p.floats in supported p e (float_result fl e (fl.fma (op1 fl e) (op2 fl e) (op3 fl e)))

unfoldable pub fmsubs : Platform → Emu → Handled
fmsubs p e =
    let fl = p.floats in
    supported p e (float_result fl e (fl.fma (op1 fl e) (op2 fl e) (fl.negate (op3 fl e))))

unfoldable pub fnmsubs : Platform → Emu → Handled
fnmsubs p e =
    let fl = p.floats in
    supported p e
      (float_result fl e (fl.fma (fl.negate (op1 fl e)) (op2 fl e) (fl.negate (op3 fl e))))

unfoldable pub fnmadds : Platform → Emu → Handled
fnmadds p e =
    let fl = p.floats in
    supported p e (float_result fl e (fl.fma (fl.negate (op1 fl e)) (op2 fl e) (op3 fl e)))

-- The flags are reset, `compute` works from them on the operands, `fix` changes its result, which is
-- stored, and the flags go to FFLAGS.
abbrev pub with_flags : Floats → Emu → (ℕ → ℕ → ℕ → ℕ × ℕ) → (ℕ → ℕ) → Emu
unfolding reset_float_flags
with_flags fl e compute fix =
    let e' = reset_float_flags e in
    let (res, flags) = compute e'.exception_flags (op1 fl e') (op2 fl e') in
    update_float_flags (set_frd fl (record e' { exception_flags = flags }) (fix res))

unfoldable pub fadds : Platform → Emu → Handled
unfolding update_float_flags
fadds p e =
    let fl = p.floats in
    supported p e (ReturnException.normal_execution_return, with_flags fl e fl.f32_add (λ res. res))

unfoldable pub fsubs : Platform → Emu → Handled
unfolding update_float_flags
fsubs p e =
    let fl = p.floats in
    let a = op1 fl e in
    let b = op2 fl e in
    let both = fl.isinf a && fl.isinf b && not (fl.signbit a) && not (fl.signbit b) in
    supported p e (
      ReturnException.normal_execution_return,
      with_flags fl e fl.f32_sub (λ res. if both then fl.fabs res else res),
    )

unfoldable pub fmuls : Platform → Emu → Handled
unfolding update_float_flags
fmuls p e =
    let fl = p.floats in
    supported p e (ReturnException.normal_execution_return, with_flags fl e fl.f32_mul (λ res. res))

-- `0.0f` has the pattern 0.
unfoldable pub fdivs : Platform → Emu → Handled
unfolding update_float_flags
fdivs p e =
    let fl = p.floats in
    let e' = with_flags fl e fl.f32_div (λ res. res) in
    supported p e (
      ReturnException.normal_execution_return,
      record e' { csrs = put_flag (fl.equal (fl.fabs (op2 fl e)) 0) 0x8 e'.csrs },
    )

-- FSQRT.S neither resets the flags nor puts them into FFLAGS.
unfoldable pub fsqrts : Platform → Emu → Handled
fsqrts p e =
    let fl = p.floats in
    let (res, flags) = fl.f32_sqrt e.exception_flags (op1 fl e) in
    supported p e (float_result fl (record e { exception_flags = flags }) res)

-- `auto rs2 = curr_instr.get_fields().rs1;`: the second operand of the next five is the first.
abbrev pub op2_of_rs1 : Floats → Emu → ℕ
op2_of_rs1 fl e = load_float fl e (fields e).rs1

unfoldable pub fsgnjs : Platform → Emu → Handled
fsgnjs p e =
    let fl = p.floats in
    supported p e (float_result fl e (fl.copysign (op1 fl e) (op2_of_rs1 fl e)))

unfoldable pub fsgnjns : Platform → Emu → Handled
fsgnjns p e =
    let fl = p.floats in
    supported p e (float_result fl e (fl.copysign (op1 fl e) (fl.negate (op2_of_rs1 fl e))))

-- `op < 0.0`, a comparison of `double`s.
abbrev pub is_below_zero : Floats → ℕ → Bool
is_below_zero fl x = fl.less_double (fl.to_double x) 0

-- The patterns of `-1.0f` and `1.0f`.
unfoldable pub fsgnjxs : Platform → Emu → Handled
fsgnjxs p e =
    let fl = p.floats in
    let s1 = is_below_zero fl (op1 fl e) in
    let s2 = is_below_zero fl (op2_of_rs1 fl e) in
    let differ = if s1 then not s2 else s2 in
    let tmp = if differ then 0xbf800000 else 0x3f800000 in
    supported p e (float_result fl e (fl.copysign (op1 fl e) tmp))
