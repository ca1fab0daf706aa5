-- ===== src/Emu/Immediate.antt =====
-- The instructions on a register and an immediate of src/VEmu.cpp.
use vemu.Common.{
  ℕ, bit_and, bit_or, bit_xor, ltb, if◌then◌else◌, u32, u64, add64, sext32, ◌<<<◌, ◌>>>◌, asr32,
  shl32, signed64, of_ℤ, shr_ℤ, ltb_ℤ,
}
use vemu.Emu.State.{Emu, Handled, fields, imm, reg1, result}

unfoldable pub addi : Emu → Handled
addi e = result e (add64 (reg1 e) (imm e))

unfoldable pub addiw : Emu → Handled
addiw e = result e (sext32 (bit_and (add64 (reg1 e) (imm e)) 0xffffffff))

unfoldable pub slti : Emu → Handled
slti e = result e (if ltb_ℤ (signed64 (reg1 e)) (signed64 (imm e)) then 1 else 0)

unfoldable pub sltiu : Emu → Handled
sltiu e = result e (if ltb (reg1 e) (imm e) then 1 else 0)

unfoldable pub xori : Emu → Handled
xori e = result e (bit_xor (reg1 e) (imm e))

unfoldable pub ori : Emu → Handled
ori e = result e (bit_or (reg1 e) (imm e))

unfoldable pub andi : Emu → Handled
andi e = result e (bit_and (reg1 e) (imm e))

-- `static_cast<uint8_t>(curr_instr.get_fields().imm & 0x3F)`, and with 0x1F.
abbrev pub shamt64 : Emu → ℕ
shamt64 e = bit_and (fields e).imm 0x3f

abbrev pub shamt32 : Emu → ℕ
shamt32 e = bit_and (fields e).imm 0x1f

unfoldable pub slli : Emu → Handled
slli e = result e (u64 (reg1 e <<< shamt64 e))

unfoldable pub srli : Emu → Handled
srli e = result e (reg1 e >>> shamt64 e)

unfoldable pub srai : Emu → Handled
srai e = result e (of_ℤ (shr_ℤ (signed64 (reg1 e)) (shamt64 e)))

unfoldable pub slliw : Emu → Handled
slliw e = result e (sext32 (shl32 (u32 (reg1 e)) (shamt32 e)))

unfoldable pub srliw : Emu → Handled
srliw e = result e (sext32 (u32 (reg1 e) >>> shamt32 e))

unfoldable pub sraiw : Emu → Handled
sraiw e = result e (sext32 (asr32 (u32 (reg1 e)) (shamt32 e)))

unfoldable pub lui : Emu → Handled
lui e = result e (imm e)

unfoldable pub auipc : Emu → Handled
auipc e = result e (add64 e.pc (imm e))
