-- ===== src/Decoder/Tables/Functs7.antt =====
-- Tables of src/InstructionDecoder.cpp: the `funct7` and `funct6` fields. Of the two entries for FCVTLS
-- `std::map` keeps the first.
use vemu.Common.{ℕ, Option, none, some}
use vemu.Isa.Names.{IName}

unfoldable pub r_funct7 : IName → Option ℕ
r_funct7 IName.add = some 0b0000000
r_funct7 IName.addw = some 0b0000000
r_funct7 IName.sub = some 0b0100000
r_funct7 IName.subw = some 0b0100000
r_funct7 IName.sll = some 0b0000000
r_funct7 IName.sllw = some 0b0000000
r_funct7 IName.slt = some 0b0000000
r_funct7 IName.sltu = some 0b0000000
r_funct7 IName.xor = some 0b0000000
r_funct7 IName.srl = some 0b0000000
r_funct7 IName.srlw = some 0b0000000
r_funct7 IName.sra = some 0b0100000
r_funct7 IName.sraw = some 0b0100000
r_funct7 IName.or = some 0b0000000
r_funct7 IName.and = some 0b0000000
r_funct7 IName.mul = some 0b0000001
r_funct7 IName.mulh = some 0b0000001
r_funct7 IName.mulhsu = some 0b0000001
r_funct7 IName.mulhu = some 0b0000001
r_funct7 IName.div = some 0b0000001
r_funct7 IName.divu = some 0b0000001
r_funct7 IName.rem = some 0b0000001
r_funct7 IName.remu = some 0b0000001
r_funct7 IName.mulw = some 0b0000001
r_funct7 IName.divw = some 0b0000001
r_funct7 IName.divuw = some 0b0000001
r_funct7 IName.remw = some 0b0000001
r_funct7 IName.remuw = some 0b0000001
r_funct7 IName.lrw = some 0b0001000
r_funct7 IName.scw = some 0b0001100
r_funct7 IName.amoswapw = some 0b0000100
r_funct7 IName.amoaddw = some 0b0000000
r_funct7 IName.amoxorw = some 0b0010000
r_funct7 IName.amoandw = some 0b0110000
r_funct7 IName.amoorw = some 0b0100000
r_funct7 IName.amominw = some 0b1000000
r_funct7 IName.amomaxw = some 0b1010000
r_funct7 IName.amominuw = some 0b1100000
r_funct7 IName.amomaxuw = some 0b1110000
r_funct7 IName.lrd = some 0b0001000
r_funct7 IName.scd = some 0b0001100
r_funct7 IName.amoswapd = some 0b0000100
r_funct7 IName.amoaddd = some 0b0000000
r_funct7 IName.amoxord = some 0b0010000
r_funct7 IName.amoandd = some 0b0110000
r_funct7 IName.amoord = some 0b0100000
r_funct7 IName.amomind = some 0b1000000
r_funct7 IName.amomaxd = some 0b1010000
r_funct7 IName.amominud = some 0b1100000
r_funct7 IName.amomaxud = some 0b1110000
r_funct7 IName.fadds = some 0b0000000
r_funct7 IName.fsubs = some 0b0000100
r_funct7 IName.fmuls = some 0b0001000
r_funct7 IName.fdivs = some 0b0001100
r_funct7 IName.fsqrts = some 0b0101100
r_funct7 IName.fsgnjs = some 0b0010000
r_funct7 IName.fsgnjns = some 0b0010000
r_funct7 IName.fsgnjxs = some 0b0010000
r_funct7 IName.fmins = some 0b0010100
r_funct7 IName.fmaxs = some 0b0010100
r_funct7 IName.fcvtws = some 0b1100000
r_funct7 IName.fcvtwus = some 0b1100000
r_funct7 IName.fmvxw = some 0b1110000
r_funct7 IName.feqs = some 0b1010000
r_funct7 IName.flts = some 0b1010000
r_funct7 IName.fles = some 0b1010000
r_funct7 IName.fclasss = some 0b1110000
r_funct7 IName.fcvtsw = some 0b1101000
r_funct7 IName.fcvtswu = some 0b1101000
r_funct7 IName.fmvwx = some 0b1111000
r_funct7 IName.fcvtls = some 0b1100000
r_funct7 IName.fcvtlus = some 0b1100000
r_funct7 IName.fcvtslu = some 0b1101000
r_funct7 _ = none

unfoldable pub i_funct7 : IName → Option ℕ
i_funct7 IName.slli = some 0b0000000
i_funct7 IName.srli = some 0b0000000
i_funct7 IName.srai = some 0b0100000
i_funct7 IName.slliw = some 0b0000000
i_funct7 IName.srliw = some 0b0000000
i_funct7 IName.sraiw = some 0b0100000
i_funct7 _ = none

unfoldable pub i_funct6 : IName → Option ℕ
i_funct6 IName.slli = some 0b000000
i_funct6 IName.srli = some 0b000000
i_funct6 IName.srai = some 0b010000
i_funct6 _ = none
