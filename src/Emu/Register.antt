-- ===== src/Emu/Register.antt =====
-- The instructions on two registers of src/VEmu.cpp, without those that multiply or divide.
use vemu.Common.{
  ℕ, ◌+◌, ◌-◌, ◌^◌, bit_and, bit_or, bit_xor, ltb, if◌then◌else◌, u32, u64, add64, sub64, sext32,
  to_i32, ◌<<<◌, ◌>>>◌, asr32, shl32, signed64, of_ℤ, shr_ℤ, ltb_ℤ,
}
use vemu.Emu.State.{Emu, Handled, reg1, reg2, result}

unfoldable pub add : Emu → Handled
add e = result e (add64 (reg1 e) (reg2 e))

unfoldable pub addw : Emu → Handled
addw e = result e (to_i32 (u32 (reg1 e) + u32 (reg2 e)))

unfoldable pub sub : Emu → Handled
sub e = result e (sub64 (reg1 e) (reg2 e))

unfoldable pub subw : Emu → Handled
subw e = result e (to_i32 (u32 (reg1 e) + 2 ^ 32 - u32 (reg2 e)))

-- `static_cast<uint64_t>(iregs.load_reg(rs2)) & 0x3F`, and with 0x1F.
abbrev pub shamt64 : Emu → ℕ
shamt64 e = bit_and (reg2 e) 0x3f

abbrev pub shamt32 : Emu → ℕ
shamt32 e = bit_and (reg2 e) 0x1f

unfoldable pub sll : Emu → Handled
sll e = result e (u64 (reg1 e <<< shamt64 e))

unfoldable pub sllw : Emu → Handled
sllw e = result e (sext32 (shl32 (u32 (reg1 e)) (shamt32 e)))

unfoldable pub slt : Emu → Handled
slt e = result e (if ltb_ℤ (signed64 (reg1 e)) (signed64 (reg2 e)) then 1 else 0)

unfoldable pub sltu : Emu → Handled
sltu e = result e (if ltb (reg1 e) (reg2 e) then 1 else 0)

unfoldable pub xor : Emu → Handled
xor e = result e (bit_xor (reg1 e) (reg2 e))

unfoldable pub srl : Emu → Handled
srl e = result e (reg1 e >>> shamt64 e)

unfoldable pub srlw : Emu → Handled
srlw e = result e (sext32 (u32 (reg1 e) >>> shamt32 e))

unfoldable pub sra : Emu → Handled
sra e = result e (of_ℤ (shr_ℤ (signed64 (reg1 e)) (shamt64 e)))

unfoldable pub sraw : Emu → Handled
sraw e = result e (sext32 (asr32 (u32 (reg1 e)) (shamt32 e)))

unfoldable pub or : Emu → Handled
or e = result e (bit_or (reg1 e) (reg2 e))

unfoldable pub and : Emu → Handled
and e = result e (bit_and (reg1 e) (reg2 e))
