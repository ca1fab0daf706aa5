-- ===== src/Decoder/Tables/Opcodes.antt =====
-- Tables of src/InstructionDecoder.cpp: the opcodes of each format. An entry that the source gives twice
-- stands once, as `std::map` keeps the first.
use vemu.Common.{ℕ, Option, none, some}
use vemu.Isa.Names.{IName}

unfoldable pub i_opcodes : IName → Option ℕ
i_opcodes IName.lb = some 0b0000011
i_opcodes IName.lbu = some 0b0000011
i_opcodes IName.lh = some 0b0000011
i_opcodes IName.lhu = some 0b0000011
i_opcodes IName.lw = some 0b0000011
i_opcodes IName.ld = some 0b0000011
i_opcodes IName.lwu = some 0b0000011
i_opcodes IName.addi = some 0b0010011
i_opcodes IName.addiw = some 0b0011011
i_opcodes IName.slti = some 0b0010011
i_opcodes IName.sltiu = some 0b0010011
i_opcodes IName.xori = some 0b0010011
i_opcodes IName.ori = some 0b0010011
i_opcodes IName.andi = some 0b0010011
i_opcodes IName.slli = some 0b0010011
i_opcodes IName.srli = some 0b0010011
i_opcodes IName.srai = some 0b0010011
i_opcodes IName.slliw = some 0b0011011
i_opcodes IName.srliw = some 0b0011011
i_opcodes IName.sraiw = some 0b0011011
i_opcodes IName.jalr = some 0b1100111
i_opcodes IName.fence = some 0b0001111
i_opcodes IName.fencei = some 0b0001111
i_opcodes IName.ecall = some 0b1110011
i_opcodes IName.ebreak = some 0b1110011
i_opcodes IName.csrrw = some 0b1110011
i_opcodes IName.csrrs = some 0b1110011
i_opcodes IName.csrrc = some 0b1110011
i_opcodes IName.csrrwi = some 0b1110011
i_opcodes IName.csrrsi = some 0b1110011
i_opcodes IName.csrrci = some 0b1110011
i_opcodes IName.flw = some 0b0000111
i_opcodes _ = none

unfoldable pub r_opcodes : IName → Option ℕ
r_opcodes IName.add = some 0b0110011
r_opcodes IName.addw = some 0b0111011
r_opcodes IName.sub = some 0b0110011
r_opcodes IName.subw = some 0b0111011
r_opcodes IName.sll = some 0b0110011
r_opcodes IName.sllw = some 0b0111011
r_opcodes IName.slt = some 0b0110011
r_opcodes IName.sltu = some 0b0110011
r_opcodes IName.xor = some 0b0110011
r_opcodes IName.srl = some 0b0110011
r_opcodes IName.srlw = some 0b0111011
r_opcodes IName.sra = some 0b0110011
r_opcodes IName.sraw = some 0b0111011
r_opcodes IName.or = some 0b0110011
r_opcodes IName.and = some 0b0110011
r_opcodes IName.mul = some 0b0110011
r_opcodes IName.mulh = some 0b0110011
r_opcodes IName.mulhsu = some 0b0110011
r_opcodes IName.mulhu = some 0b0110011
r_opcodes IName.div = some 0b0110011
r_opcodes IName.divu = some 0b0110011
r_opcodes IName.rem = some 0b0110011
r_opcodes IName.remu = some 0b0110011
r_opcodes IName.mulw = some 0b0111011
r_opcodes IName.divw = some 0b0111011
r_opcodes IName.divuw = some 0b0111011
r_opcodes IName.remw = some 0b0111011
r_opcodes IName.remuw = some 0b0111011
r_opcodes IName.lrw = some 0b0101111
r_opcodes IName.scw = some 0b0101111
r_opcodes IName.amoswapw = some 0b0101111
r_opcodes IName.amoaddw = some 0b0101111
r_opcodes IName.amoxorw = some 0b0101111
r_opcodes IName.amoandw = some 0b0101111
r_opcodes IName.amoorw = some 0b0101111
r_opcodes IName.amominw = some 0b0101111
r_opcodes IName.amomaxw = some 0b0101111
r_opcodes IName.amominuw = some 0b0101111
r_opcodes IName.amomaxuw = some 0b0101111
r_opcodes IName.amoswapd = some 0b0101111
r_opcodes IName.amoaddd = some 0b0101111
r_opcodes IName.amoxord = some 0b0101111
r_opcodes IName.amoandd = some 0b0101111
r_opcodes IName.amoord = some 0b0101111
r_opcodes IName.amomind = some 0b0101111
r_opcodes IName.amomaxd = some 0b0101111
r_opcodes IName.amominud = some 0b0101111
r_opcodes IName.amomaxud = some 0b0101111
r_opcodes IName.lrd = some 0b0101111
r_opcodes IName.scd = some 0b0101111
r_opcodes IName.fadds = some 0b1010011
r_opcodes IName.fsubs = some 0b1010011
r_opcodes IName.fmuls = some 0b1010011
r_opcodes IName.fdivs = some 0b1010011
r_opcodes IName.fsqrts = some 0b1010011
r_opcodes IName.fsgnjs = some 0b1010011
r_opcodes IName.fsgnjns = some 0b1010011
r_opcodes IName.fsgnjxs = some 0b1010011
r_opcodes IName.fmins = some 0b1010011
r_opcodes IName.fmaxs = some 0b1010011
r_opcodes IName.fcvtws = some 0b1010011
r_opcodes IName.fcvtwus = some 0b1010011
r_opcodes IName.fmvxw = some 0b1010011
r_opcodes IName.feqs = some 0b1010011
r_opcodes IName.flts = some 0b1010011
r_opcodes IName.fles = some 0b1010011
r_opcodes IName.fclasss = some 0b1010011
r_opcodes IName.fcvtsw = some 0b1010011
r_opcodes IName.fcvtswu = some 0b1010011
r_opcodes IName.fmvwx = some 0b1010011
r_opcodes IName.fcvtls = some 0b1010011
r_opcodes IName.fcvtlus = some 0b1010011
r_opcodes IName.fcvtslu = some 0b1010011
r_opcodes _ = none

unfoldable pub r4_opcodes : IName → Option ℕ
r4_opcodes IName.fmadds = some 0b1000011
r4_opcodes IName.fmsubs = some 0b1000111
r4_opcodes IName.fnmsubs = some 0b1001011
r4_opcodes IName.fnmadds = some 0b1001111
r4_opcodes _ = none

unfoldable pub b_opcodes : IName → Option ℕ
b_opcodes IName.beq = some 0b1100011
b_opcodes IName.bne = some 0b1100011
b_opcodes IName.blt = some 0b1100011
b_opcodes IName.bge = some 0b1100011
b_opcodes IName.bltu = some 0b1100011
b_opcodes IName.bgeu = some 0b1100011
b_opcodes _ = none

unfoldable pub s_opcodes : IName → Option ℕ
s_opcodes IName.sb = some 0b0100011
s_opcodes IName.sh = some 0b0100011
s_opcodes IName.sw = some 0b0100011
s_opcodes IName.sd = some 0b0100011
s_opcodes IName.fsw = some 0b0100111
s_opcodes _ = none

unfoldable pub j_opcodes : IName → Option ℕ
j_opcodes IName.jal = some 0b1101111
j_opcodes _ = none

unfoldable pub u_opcodes : IName → Option ℕ
u_opcodes IName.lui = some 0b0110111
u_opcodes IName.auipc = some 0b0010111
u_opcodes _ = none
