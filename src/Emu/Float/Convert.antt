-- ===== src/Emu/Float/Convert.antt =====
-- The conversions between integers and floats of src/VEmu.cpp. The conversion of a float outside the
-- range of the integer type has no meaning in C++.
use vemu.Common.{
  ℕ, ◌+◌, ◌^◌, Option, none, some, ◌&&◌, ltb, if◌then◌else◌, Outcome, ok, undefined, ◌>>=◌, u32,
  to_i32, ℤ, pos, pos_part, neg_part, signed64, of_ℤ,
}
use vemu.Emu.Platform.{Floats, Platform}
use vemu.Emu.State.{Emu, Handled, reg1, result}
use vemu.Emu.Float.Access.{op1, float_result, supported, supported_outcome}

-- The pattern of an integer with at most `below` and less than `above`.
abbrev pub in_range : ℕ → ℕ → Option ℤ → Outcome ℕ
in_range below above none = undefined
in_range below above (some z) =
    if ltb (neg_part z) (below + 1) && ltb (pos_part z) above then ok (of_ℤ z) else undefined

abbrev pub rounded : Floats → Emu → Option ℤ
rounded fl e = fl.integer_part (fl.round (op1 fl e))

-- `static_cast<int32_t>` and then `int64_t`: the pattern of the integer.
unfoldable pub fcvtws : Platform → Emu → Outcome Handled
fcvtws p e =
    supported_outcome p e (in_range (2 ^ 31) (2 ^ 31) (rounded p.floats e) >>= λ v. ok (result e v))

-- `static_cast<uint64_t>`: FCVT.WU.S does not narrow to 32 bits.
unfoldable pub fcvtwus : Platform → Emu → Outcome Handled
fcvtwus p e =
    supported_outcome p e (in_range 0 (2 ^ 64) (rounded p.floats e) >>= λ v. ok (result e v))

unfoldable pub fcvtls : Platform → Emu → Outcome Handled
fcvtls p e =
    supported_outcome p e (in_range (2 ^ 63) (2 ^ 63) (rounded p.floats e) >>= λ v. ok (result e v))

unfoldable pub fcvtlus : Platform → Emu → Outcome Handled
fcvtlus p e =
    supported_outcome p e (in_range 0 (2 ^ 64) (rounded p.floats e) >>= λ v. ok (result e v))

-- FCVT.S.L and FCVT.S.LU take the low 32 bits, as FCVT.S.W and FCVT.S.WU do.
unfoldable pub fcvtsw : Platform → Emu → Handled
fcvtsw p e =
    let fl = p.floats in
    supported p e (float_result fl e (fl.of_integer (signed64 (to_i32 (reg1 e)))))

unfoldable pub fcvtswu : Platform → Emu → Handled
fcvtswu p e =
    let fl = p.floats in supported p e (float_result fl e (fl.of_integer (pos (u32 (reg1 e)))))

unfoldable pub fcvtsl : Platform → Emu → Handled
fcvtsl p e =
    let fl = p.floats in
    supported p e (float_result fl e (fl.of_integer (signed64 (to_i32 (reg1 e)))))

unfoldable pub fcvtslu : Platform → Emu → Handled
fcvtslu p e =
    let fl = p.floats in supported p e (float_result fl e (fl.of_integer (pos (u32 (reg1 e)))))
