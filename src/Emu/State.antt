-- ===== src/Emu/State.antt =====
-- The state of an emulator of include/VEmu.h, and what the handlers of the instructions share. An
-- `int64_t` is held as its 64-bit pattern; sums, differences and products of
-- signed values wrap round.
use vemu.Common.{ℕ, Bool, List, sext32}
use vemu.Isa.{Mode, ReturnException, Fields, Instruction}
use vemu.Bus.{Bus}
use vemu.RegFile
use vemu.RegFile.{RegFile}
use vemu.FRegFile.{FRegFile}

pub data FileType : Type 0 where
  stdin stdout stderr disk_file : FileType

-- An open file: its bytes, its path, the descriptor of the host, its length and the position in it.
pub record FileHandle : Type 0 where
  pub contents : List ℕ
  pub pathname : List ℕ
  pub fd : ℕ
  pub len : ℕ
  pub idx : ℕ
  pub type : FileType

-- `exception_flags` is the global `softfloat_exceptionFlags`, and `opened` counts the files that the
-- host has opened.
pub record Emu : Type 0 where
  pub mode : Mode
  pub bus : Bus
  pub iregs : RegFile
  pub fregs : FRegFile
  pub csrs : ℕ → ℕ
  pub hex_instr : ℕ
  pub curr_instr : Instruction
  pub pc : ℕ
  pub file_table : List FileHandle
  pub has_exited : Bool
  pub exit_code : ℕ
  pub test_flag_done : Bool
  pub exception_flags : ℕ
  pub opened : ℕ

-- What a handler that cannot fail leaves.
abbrev pub Handled : Type 0
Handled = ReturnException × Emu

abbrev pub fields : Emu → Fields
fields e = e.curr_instr.f

-- `int64_t imm = static_cast<int64_t>(imm_32);`
abbrev pub imm : Emu → ℕ
imm e = sext32 (fields e).imm

-- `iregs.load_reg(rs1)`, `iregs.load_reg(rs2)`.
abbrev pub reg1 : Emu → ℕ
reg1 e = RegFile.load_reg e.iregs (fields e).rs1

abbrev pub reg2 : Emu → ℕ
reg2 e = RegFile.load_reg e.iregs (fields e).rs2

-- `iregs.store_reg(rd, res);`
abbrev pub set_rd : Emu → ℕ → Emu
set_rd e res = record e { iregs = RegFile.store_reg e.iregs (fields e).rd res }

-- `iregs.store_reg(rd, res); return ReturnException::NormalExecutionReturn;`
abbrev pub result : Emu → ℕ → Handled
result e res = (ReturnException.normal_execution_return, set_rd e res)
