-- ===== src/Emu/Table.antt =====
-- The table of handlers that `init_func_map` of src/VEmu.cpp fills, for the integer instructions, and
-- the handlers that do nothing but return a code.
use vemu.Common.{Option, none, some, Outcome, ok}
use vemu.Isa.{IName, ReturnException}
use vemu.Emu.State.{Emu, Handled}
use vemu.Emu.Immediate
use vemu.Emu.Register
use vemu.Emu.MulDiv
use vemu.Emu.Jump
use vemu.Emu.Csr
use vemu.Emu.Memory
use vemu.Emu.Atomic
use vemu.Emu.Trap

unfoldable pub fence : Emu → Handled
fence e = (ReturnException.normal_execution_return, e)

unfoldable pub fencei : Emu → Handled
fencei e = (ReturnException.normal_execution_return, e)

unfoldable pub ebreak : Emu → Handled
ebreak e = (ReturnException.instruction_address_breakpoint, e)

-- Without what it prints.
unfoldable pub xxx : Emu → Handled
xxx e = (ReturnException.illegal_instruction, e)

abbrev total : (Emu → Handled) → Option (Emu → Outcome Handled)
total handler = some (λ e. ok (handler e))

-- `inst_funcs`; the names that have no entry here are those of the floating-point instructions.
unfoldable pub inst_funcs : IName → Option (Emu → Outcome Handled)
inst_funcs IName.addi = total Immediate.addi
inst_funcs IName.addiw = total Immediate.addiw
inst_funcs IName.slti = total Immediate.slti
inst_funcs IName.sltiu = total Immediate.sltiu
inst_funcs IName.xori = total Immediate.xori
inst_funcs IName.ori = total Immediate.ori
inst_funcs IName.andi = total Immediate.andi
inst_funcs IName.slli = total Immediate.slli
inst_funcs IName.srli = total Immediate.srli
inst_funcs IName.srai = total Immediate.srai
inst_funcs IName.slliw = total Immediate.slliw
inst_funcs IName.srliw = total Immediate.srliw
inst_funcs IName.sraiw = total Immediate.sraiw
inst_funcs IName.lui = total Immediate.lui
inst_funcs IName.auipc = total Immediate.auipc
inst_funcs IName.add = total Register.add
inst_funcs IName.addw = total Register.addw
inst_funcs IName.sub = total Register.sub
inst_funcs IName.subw = total Register.subw
inst_funcs IName.sll = total Register.sll
inst_funcs IName.sllw = total Register.sllw
inst_funcs IName.slt = total Register.slt
inst_funcs IName.sltu = total Register.sltu
inst_funcs IName.xor = total Register.xor
inst_funcs IName.srl = total Register.srl
inst_funcs IName.srlw = total Register.srlw
inst_funcs IName.sra = total Register.sra
inst_funcs IName.sraw = total Register.sraw
inst_funcs IName.or = total Register.or
inst_funcs IName.and = total Register.and
inst_funcs IName.mul = total MulDiv.mul
inst_funcs IName.mulw = total MulDiv.mulw
inst_funcs IName.mulh = total MulDiv.mulh
inst_funcs IName.mulhu = total MulDiv.mulhu
inst_funcs IName.mulhsu = total MulDiv.mulhsu
inst_funcs IName.div = total MulDiv.div
inst_funcs IName.divu = total MulDiv.divu
inst_funcs IName.divw = total MulDiv.divw
inst_funcs IName.divuw = total MulDiv.divuw
inst_funcs IName.rem = total MulDiv.rem
inst_funcs IName.remu = total MulDiv.remu
inst_funcs IName.remw = total MulDiv.remw
inst_funcs IName.remuw = total MulDiv.remuw
inst_funcs IName.beq = total Jump.beq
inst_funcs IName.bne = total Jump.bne
inst_funcs IName.blt = total Jump.blt
inst_funcs IName.bge = total Jump.bge
inst_funcs IName.bltu = total Jump.bltu
inst_funcs IName.bgeu = total Jump.bgeu
inst_funcs IName.jal = total Jump.jal
inst_funcs IName.jalr = total Jump.jalr
inst_funcs IName.csrrw = total Csr.csrrw
inst_funcs IName.csrrs = total Csr.csrrs
inst_funcs IName.csrrc = total Csr.csrrc
inst_funcs IName.csrrwi = total Csr.csrrwi
inst_funcs IName.csrrsi = total Csr.csrrsi
inst_funcs IName.csrrci = total Csr.csrrci
inst_funcs IName.sret = total Trap.sret
inst_funcs IName.ecall = total Trap.ecall
inst_funcs IName.fence = total fence
inst_funcs IName.fencei = total fencei
inst_funcs IName.ebreak = total ebreak
inst_funcs IName.xxx = total xxx
inst_funcs IName.lb = some Memory.lb
inst_funcs IName.lh = some Memory.lh
inst_funcs IName.lw = some Memory.lw
inst_funcs IName.lbu = some Memory.lbu
inst_funcs IName.lhu = some Memory.lhu
inst_funcs IName.lwu = some Memory.lwu
inst_funcs IName.ld = some Memory.ld
inst_funcs IName.sb = some Memory.sb
inst_funcs IName.sh = some Memory.sh
inst_funcs IName.sw = some Memory.sw
inst_funcs IName.sd = some Memory.sd
inst_funcs IName.lrw = some Atomic.lrw
inst_funcs IName.lrd = some Atomic.lrd
inst_funcs IName.scw = some Atomic.scw
inst_funcs IName.scd = some Atomic.scd
inst_funcs IName.amoswapw = some Atomic.amoswapw
inst_funcs IName.amoaddw = some Atomic.amoaddw
inst_funcs IName.amoandw = some Atomic.amoandw
inst_funcs IName.amoorw = some Atomic.amoorw
inst_funcs IName.amoxorw = some Atomic.amoxorw
inst_funcs IName.amominw = some Atomic.amominw
inst_funcs IName.amomaxw = some Atomic.amomaxw
inst_funcs IName.amominuw = some Atomic.amominuw
inst_funcs IName.amomaxuw = some Atomic.amomaxuw
inst_funcs IName.amoswapd = some Atomic.amoswapd
inst_funcs IName.amoaddd = some Atomic.amoaddd
inst_funcs IName.amoxord = some Atomic.amoxord
inst_funcs IName.amoandd = some Atomic.amoandd
inst_funcs IName.amoord = some Atomic.amoord
inst_funcs IName.amomind = some Atomic.amomind
inst_funcs IName.amomaxd = some Atomic.amomaxd
inst_funcs IName.amominud = some Atomic.amominud
inst_funcs IName.amomaxud = some Atomic.amomaxud
inst_funcs IName.mret = some Trap.mret
inst_funcs _ = none
