-- ===== src/Emu/Jump.antt =====
-- The branches and jumps of src/VEmu.cpp. A handler that goes to an address leaves 4 less in `pc`,
-- since the loop of `run` adds 4 after it.
use vemu.Common.{Bool, not, bit_and, ltb, ◌==◌, if◌then◌else◌, add64, sub64, signed64, ltb_ℤ}
use vemu.Isa.{ReturnException}
use vemu.Emu.State.{Emu, Handled, imm, reg1, reg2, set_rd}

-- `if (taken) { this->pc += imm; this->pc -= 4; }` and the return.
abbrev pub branch : Emu → Bool → Handled
branch e taken = (
  ReturnException.normal_execution_return,
  if taken then record e { pc = sub64 (add64 e.pc (imm e)) 4 } else e,
)

unfoldable pub beq : Emu → Handled
beq e = branch e (reg1 e == reg2 e)

unfoldable pub bne : Emu → Handled
bne e = branch e (not (reg1 e == reg2 e))

unfoldable pub blt : Emu → Handled
blt e = branch e (ltb_ℤ (signed64 (reg1 e)) (signed64 (reg2 e)))

unfoldable pub bge : Emu → Handled
bge e = branch e (not (ltb_ℤ (signed64 (reg1 e)) (signed64 (reg2 e))))

unfoldable pub bltu : Emu → Handled
bltu e = branch e (ltb (reg1 e) (reg2 e))

unfoldable pub bgeu : Emu → Handled
bgeu e = branch e (not (ltb (reg1 e) (reg2 e)))

unfoldable pub jal : Emu → Handled
jal e = (
  ReturnException.normal_execution_return,
  record (set_rd e (add64 e.pc 4)) { pc = sub64 (add64 e.pc (imm e)) 4 },
)

-- `~(0x1)` is an `int`: extended to 64 bits it has every bit but the lowest.
unfoldable pub jalr : Emu → Handled
jalr e =
    let rs1_val = reg1 e in
    let target = bit_and (add64 rs1_val (imm e)) 0xfffffffffffffffe in
    (
      ReturnException.normal_execution_return,
      record (set_rd e (add64 e.pc 4)) { pc = sub64 target 4 },
    )
