-- ===== src/Decoder/Tables/Names.antt =====
-- Tables of src/InstructionDecoder.cpp: the names that are printed. FCVTLS and FMSUBS are given twice;
-- FCVTSL and FNMADDS have no entry.
use vemu.Common.{Option, none, some}
use vemu.Isa.Names.{IName}
use Prim.Native.String.{String}

unfoldable pub inst_string_names : IName → Option String
inst_string_names IName.lb = some "LB"
inst_string_names IName.lh = some "LH"
inst_string_names IName.lw = some "LW"
inst_string_names IName.lbu = some "LBU"
inst_string_names IName.lhu = some "LHU"
inst_string_names IName.ld = some "LD"
inst_string_names IName.lwu = some "LWU"
inst_string_names IName.addi = some "ADDI"
inst_string_names IName.addiw = some "ADDIW"
inst_string_names IName.slti = some "SLTI"
inst_string_names IName.sltiu = some "SLTIU"
inst_string_names IName.xori = some "XORI"
inst_string_names IName.ori = some "ORI"
inst_string_names IName.or = some "OR"
inst_string_names IName.andi = some "ANDI"
inst_string_names IName.and = some "AND"
inst_string_names IName.slli = some "SLLI"
inst_string_names IName.srli = some "SRLI"
inst_string_names IName.srai = some "SRAI"
inst_string_names IName.sra = some "SRA"
inst_string_names IName.slliw = some "SLLIW"
inst_string_names IName.srliw = some "SRLIW"
inst_string_names IName.srlw = some "SRLW"
inst_string_names IName.sraiw = some "SRAIW"
inst_string_names IName.sraw = some "SRAW"
inst_string_names IName.fence = some "FENCE"
inst_string_names IName.fencei = some "FENCEI"
inst_string_names IName.ecall = some "ECALL"
inst_string_names IName.ebreak = some "EBREAK"
inst_string_names IName.csrrw = some "CSRRW"
inst_string_names IName.csrrs = some "CSRRS"
inst_string_names IName.csrrc = some "CSRRC"
inst_string_names IName.csrrwi = some "CSRRWI"
inst_string_names IName.csrrsi = some "CSRRSI"
inst_string_names IName.csrrci = some "CSRRCI"
inst_string_names IName.beq = some "BEQ"
inst_string_names IName.bne = some "BNE"
inst_string_names IName.blt = some "BLT"
inst_string_names IName.bge = some "BGE"
inst_string_names IName.bltu = some "BLTU"
inst_string_names IName.bgeu = some "BGEU"
inst_string_names IName.sb = some "SB"
inst_string_names IName.sh = some "SH"
inst_string_names IName.sw = some "SW"
inst_string_names IName.sd = some "SD"
inst_string_names IName.add = some "ADD"
inst_string_names IName.addw = some "ADDW"
inst_string_names IName.sub = some "SUB"
inst_string_names IName.subw = some "SUBW"
inst_string_names IName.sll = some "SLL"
inst_string_names IName.sllw = some "SLLW"
inst_string_names IName.slt = some "SLT"
inst_string_names IName.sltu = some "SLTU"
inst_string_names IName.xor = some "XOR"
inst_string_names IName.srl = some "SRL"
inst_string_names IName.lui = some "LUI"
inst_string_names IName.auipc = some "AUIPC"
inst_string_names IName.jal = some "JAL"
inst_string_names IName.jalr = some "JALR"
inst_string_names IName.mul = some "MUL"
inst_string_names IName.mulh = some "MULH"
inst_string_names IName.mulhsu = some "MULHSU"
inst_string_names IName.mulhu = some "MULHU"
inst_string_names IName.div = some "DIV"
inst_string_names IName.divu = some "DIVU"
inst_string_names IName.rem = some "REM"
inst_string_names IName.remu = some "REMU"
inst_string_names IName.mulw = some "MULW"
inst_string_names IName.divw = some "DIVW"
inst_string_names IName.divuw = some "DIVUW"
inst_string_names IName.remw = some "REMW"
inst_string_names IName.remuw = some "REMUW"
inst_string_names IName.lrw = some "LRW"
inst_string_names IName.scw = some "SCW"
inst_string_names IName.amoswapw = some "AMOSWAPW"
inst_string_names IName.amoaddw = some "AMOADDW"
inst_string_names IName.amoxorw = some "AMOXORW"
inst_string_names IName.amoandw = some "AMOANDW"
inst_string_names IName.amoorw = some "AMOORW"
inst_string_names IName.amominw = some "AMOMINW"
inst_string_names IName.amomaxw = some "AMOMAXW"
inst_string_names IName.amominuw = some "AMOMINUW"
inst_string_names IName.amomaxuw = some "AMOMAXUW"
inst_string_names IName.lrd = some "LRD"
inst_string_names IName.scd = some "SCD"
inst_string_names IName.amoswapd = some "AMOSWAPD"
inst_string_names IName.amoaddd = some "AMOADDD"
inst_string_names IName.amoxord = some "AMOXORD"
inst_string_names IName.amoandd = some "AMOANDD"
inst_string_names IName.amoord = some "AMOORD"
inst_string_names IName.amomind = some "AMOMIND"
inst_string_names IName.amomaxd = some "AMOMAXD"
inst_string_names IName.amominud = some "AMOMINUD"
inst_string_names IName.amomaxud = some "AMOMAXUD"
inst_string_names IName.sret = some "SRET"
inst_string_names IName.mret = some "MRET"
inst_string_names IName.flw = some "FLW"
inst_string_names IName.fsw = some "FSW"
inst_string_names IName.fmadds = some "FMADDS"
inst_string_names IName.fmsubs = some "FMSUBS"
inst_string_names IName.fnmsubs = some "FNMSUBS"
inst_string_names IName.fadds = some "FADDS"
inst_string_names IName.fsubs = some "FSUBS"
inst_string_names IName.fmuls = some "FMULS"
inst_string_names IName.fdivs = some "FDIVS"
inst_string_names IName.fsqrts = some "FSQRTS"
inst_string_names IName.fsgnjs = some "FSGNJS"
inst_string_names IName.fsgnjns = some "FSGNJNS"
inst_string_names IName.fsgnjxs = some "FSGNJXS"
inst_string_names IName.fmins = some "FMINS"
inst_string_names IName.fmaxs = some "FMAXS"
inst_string_names IName.fcvtws = some "FCVTWS"
inst_string_names IName.fcvtwus = some "FCVTWUS"
inst_string_names IName.fmvxw = some "FMVXW"
inst_string_names IName.feqs = some "FEQS"
inst_string_names IName.flts = some "FLTS"
inst_string_names IName.fles = some "FLES"
inst_string_names IName.fclasss = some "FCLASSS"
inst_string_names IName.fcvtsw = some "FCVTSW"
inst_string_names IName.fcvtswu = some "FCVTSWU"
inst_string_names IName.fmvwx = some "FMVWX"
inst_string_names IName.fcvtls = some "FCVTLS"
inst_string_names IName.fcvtlus = some "FCVTLUS"
inst_string_names IName.fcvtslu = some "FCVTSLU"
inst_string_names IName.xxx = some "XXX"
inst_string_names _ = none
