-- ===== src/Decoder/Tables/Functs.antt =====
-- Tables of src/InstructionDecoder.cpp: the `funct3` and `funct2` fields.
use vemu.Common.{ℕ, Option, none, some}
use vemu.Isa.Names.{IName}

unfoldable pub i_funct3 : IName → Option ℕ
i_funct3 IName.lb = some 0b000
i_funct3 IName.lh = some 0b001
i_funct3 IName.lw = some 0b010
i_funct3 IName.lbu = some 0b100
i_funct3 IName.lhu = some 0b101
i_funct3 IName.ld = some 0b011
i_funct3 IName.lwu = some 0b110
i_funct3 IName.addi = some 0b000
i_funct3 IName.addiw = some 0b000
i_funct3 IName.slti = some 0b010
i_funct3 IName.sltiu = some 0b011
i_funct3 IName.xori = some 0b100
i_funct3 IName.ori = some 0b110
i_funct3 IName.andi = some 0b111
i_funct3 IName.slli = some 0b001
i_funct3 IName.srli = some 0b101
i_funct3 IName.srai = some 0b101
i_funct3 IName.slliw = some 0b001
i_funct3 IName.srliw = some 0b101
i_funct3 IName.sraiw = some 0b101
i_funct3 IName.ecall = some 0b000
i_funct3 IName.ebreak = some 0b000
i_funct3 IName.fence = some 0b000
i_funct3 IName.fencei = some 0b001
i_funct3 IName.csrrw = some 0b001
i_funct3 IName.csrrs = some 0b010
i_funct3 IName.csrrc = some 0b011
i_funct3 IName.csrrwi = some 0b101
i_funct3 IName.csrrsi = some 0b110
i_funct3 IName.csrrci = some 0b111
i_funct3 IName.jalr = some 0b000
i_funct3 IName.flw = some 0b010
i_funct3 _ = none

unfoldable pub r_funct3 : IName → Option ℕ
r_funct3 IName.add = some 0b000
r_funct3 IName.addw = some 0b000
r_funct3 IName.sub = some 0b000
r_funct3 IName.subw = some 0b000
r_funct3 IName.sll = some 0b001
r_funct3 IName.sllw = some 0b001
r_funct3 IName.srlw = some 0b101
r_funct3 IName.sraw = some 0b101
r_funct3 IName.slt = some 0b010
r_funct3 IName.sltu = some 0b011
r_funct3 IName.xor = some 0b100
r_funct3 IName.srl = some 0b101
r_funct3 IName.sra = some 0b101
r_funct3 IName.or = some 0b110
r_funct3 IName.and = some 0b111
r_funct3 IName.lrw = some 0b010
r_funct3 IName.scw = some 0b010
r_funct3 IName.mul = some 0b000
r_funct3 IName.mulh = some 0b001
r_funct3 IName.mulhsu = some 0b010
r_funct3 IName.mulhu = some 0b011
r_funct3 IName.div = some 0b100
r_funct3 IName.divu = some 0b101
r_funct3 IName.rem = some 0b110
r_funct3 IName.remu = some 0b111
r_funct3 IName.mulw = some 0b000
r_funct3 IName.divw = some 0b100
r_funct3 IName.divuw = some 0b101
r_funct3 IName.remw = some 0b110
r_funct3 IName.remuw = some 0b111
r_funct3 IName.amoswapw = some 0b010
r_funct3 IName.amoaddw = some 0b010
r_funct3 IName.amoxorw = some 0b010
r_funct3 IName.amoandw = some 0b010
r_funct3 IName.amoorw = some 0b010
r_funct3 IName.amominw = some 0b010
r_funct3 IName.amomaxw = some 0b010
r_funct3 IName.amominuw = some 0b010
r_funct3 IName.amomaxuw = some 0b010
r_funct3 IName.amoswapd = some 0b011
r_funct3 IName.amoaddd = some 0b011
r_funct3 IName.amoxord = some 0b011
r_funct3 IName.amoandd = some 0b011
r_funct3 IName.amoord = some 0b011
r_funct3 IName.amomind = some 0b011
r_funct3 IName.amomaxd = some 0b011
r_funct3 IName.amominud = some 0b011
r_funct3 IName.amomaxud = some 0b011
r_funct3 IName.lrd = some 0b011
r_funct3 IName.scd = some 0b011
r_funct3 IName.fsgnjs = some 0b000
r_funct3 IName.fsgnjns = some 0b001
r_funct3 IName.fsgnjxs = some 0b010
r_funct3 IName.fmins = some 0b000
r_funct3 IName.fmaxs = some 0b001
r_funct3 IName.fmvxw = some 0b000
r_funct3 IName.feqs = some 0b010
r_funct3 IName.flts = some 0b001
r_funct3 IName.fles = some 0b000
r_funct3 IName.fclasss = some 0b001
r_funct3 IName.fmvwx = some 0b000
r_funct3 _ = none

unfoldable pub r4_funct2 : IName → Option ℕ
r4_funct2 IName.fmadds = some 0b00
r4_funct2 IName.fmsubs = some 0b00
r4_funct2 IName.fnmsubs = some 0b00
r4_funct2 IName.fnmadds = some 0b00
r4_funct2 _ = none

unfoldable pub b_funct3 : IName → Option ℕ
b_funct3 IName.beq = some 0b000
b_funct3 IName.bne = some 0b001
b_funct3 IName.blt = some 0b100
b_funct3 IName.bge = some 0b101
b_funct3 IName.bltu = some 0b110
b_funct3 IName.bgeu = some 0b111
b_funct3 _ = none

unfoldable pub s_funct3 : IName → Option ℕ
s_funct3 IName.sb = some 0b000
s_funct3 IName.sh = some 0b001
s_funct3 IName.sw = some 0b010
s_funct3 IName.sd = some 0b011
s_funct3 IName.fsw = some 0b010
s_funct3 _ = none
