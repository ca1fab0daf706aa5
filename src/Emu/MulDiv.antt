-- ===== src/Emu/MulDiv.antt =====
-- The instructions of src/VEmu.cpp that multiply and divide.
use vemu.Common.{
  ℕ, ◌+◌, ◌-◌, ◌*◌, ◌/◌, ◌%◌, ◌^◌, bit_and, bit_or, ◌&&◌, ltb, ◌==◌, if◌then◌else◌, u32, u64, mul64,
  sext32, to_i32, ◌>>>◌, signed64, of_ℤ, shr_ℤ, ◌*ℤ◌, ◌/ℤ◌, ◌%ℤ◌, update,
}
use vemu.Emu.State.{Emu, Handled, reg1, reg2, result}

abbrev pub csr_fflags : ℕ
csr_fflags = 0x001

-- The patterns of `INT64_MIN`, of `INT32_MIN` extended to 64 bits, and of -1.
abbrev pub int64_min : ℕ
int64_min = 2 ^ 63

abbrev pub int32_min : ℕ
int32_min = 2 ^ 64 - 2 ^ 31

abbrev pub minus_one : ℕ
minus_one = 2 ^ 64 - 1

-- `csrs[FFLAGS] |= (0x8);`
abbrev pub flag_zero_divide : Emu → Emu
flag_zero_divide e = record e { csrs = update e.csrs csr_fflags (bit_or (e.csrs csr_fflags) 0x8) }

unfoldable pub mul : Emu → Handled
mul e = result e (mul64 (reg1 e) (reg2 e))

unfoldable pub mulw : Emu → Handled
mulw e = result e (to_i32 (u32 (bit_and (reg1 e) 0xffffffff) * u32 (bit_and (reg2 e) 0xffffffff)))

unfoldable pub mulh : Emu → Handled
mulh e = result e (of_ℤ (shr_ℤ (signed64 (reg1 e) *ℤ signed64 (reg2 e)) 64))

unfoldable pub mulhu : Emu → Handled
mulhu e = result e (u64 ((reg1 e * reg2 e) >>> 64))

-- `static_cast<unsigned __int128>(static_cast<__int128>(irs1))`.
abbrev pub extend128 : ℕ → ℕ
extend128 a = if ltb a (2 ^ 63) then a else a + (2 ^ 128 - 2 ^ 64)

unfoldable pub mulhsu : Emu → Handled
mulhsu e = result e (u64 (extend128 (reg1 e) * reg2 e % 2 ^ 128 / 2 ^ 64))

unfoldable pub div : Emu → Handled
div e =
    if reg2 e == 0
    then result (flag_zero_divide e) 0xffffffffffffffff
    else if (reg1 e == int64_min) && (reg2 e == minus_one)
    then result e (reg1 e)
    else result e (of_ℤ (signed64 (reg1 e) /ℤ signed64 (reg2 e)))

unfoldable pub divu : Emu → Handled
divu e =
    if reg2 e == 0
    then result (flag_zero_divide e) 0xffffffffffffffff
    else result e (reg1 e / reg2 e)

unfoldable pub divw : Emu → Handled
divw e =
    let rs1_32 = to_i32 (reg1 e) in
    let rs2_32 = to_i32 (reg2 e) in
    if rs2_32 == 0
    then result (flag_zero_divide e) 0xffffffffffffffff
    else if (rs2_32 == minus_one) && (rs1_32 == int32_min)
    then result e rs1_32
    else result e (of_ℤ (signed64 rs1_32 /ℤ signed64 rs2_32))

unfoldable pub divuw : Emu → Handled
divuw e =
    let rs1_32 = u32 (reg1 e) in
    let rs2_32 = u32 (reg2 e) in
    if rs2_32 == 0
    then result (flag_zero_divide e) 0xffffffffffffffff
    else result e (sext32 (rs1_32 / rs2_32))

unfoldable pub rem : Emu → Handled
rem e =
    if reg2 e == 0
    then result e (reg1 e)
    else if (reg1 e == int64_min) && (reg2 e == minus_one)
    then result e 0
    else result e (of_ℤ (signed64 (reg1 e) %ℤ signed64 (reg2 e)))

unfoldable pub remu : Emu → Handled
remu e = if reg2 e == 0 then result e (reg1 e) else result e (reg1 e % reg2 e)

unfoldable pub remw : Emu → Handled
remw e =
    let rs1_32 = to_i32 (reg1 e) in
    let rs2_32 = to_i32 (reg2 e) in
    if rs2_32 == 0
    then result e rs1_32
    else if (rs2_32 == minus_one) && (rs1_32 == int32_min)
    then result e 0
    else result e (of_ℤ (signed64 rs1_32 %ℤ signed64 rs2_32))

unfoldable pub remuw : Emu → Handled
remuw e =
    let rs1_32 = u32 (reg1 e) in
    let rs2_32 = u32 (reg2 e) in
    if rs2_32 == 0 then result e (sext32 rs1_32) else result e (sext32 (rs1_32 % rs2_32))
