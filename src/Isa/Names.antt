-- ===== src/Isa/Names.antt =====
-- The instruction names of include/defs.h, in the order of the enumeration.
use vemu.Common.{ℕ, Bool, ◌==◌}

pub data IName : Type 0 where
  lb lh lw lbu lhu ld lwu addi addw addiw slti sltiu xori ori andi slli srli srai slliw : IName
  srliw sraiw fence fencei ecall ebreak csrrw csrrs csrrc csrrwi csrrsi csrrci beq bne : IName
  blt bge bltu bgeu sb sh sw sd add sub subw sll sllw slt sltu xor srl srlw sra sraw or : IName
  and jal jalr lui auipc mul mulh mulhsu mulhu div divu rem remu mulw divw divuw remw : IName
  remuw lrw scw amoswapw amoaddw amoxorw amoandw amoorw amominw amomaxw amominuw : IName
  amomaxuw lrd scd amoswapd amoaddd amoxord amoandd amoord amomind amomaxd amominud : IName
  amomaxud sret mret flw fsw fmadds fmsubs fnmsubs fnmadds fadds fsubs fmuls fdivs : IName
  fsqrts fsgnjs fsgnjns fsgnjxs fmins fmaxs fcvtws fcvtwus fmvxw feqs flts fles fclasss : IName
  fcvtsw fcvtswu fmvwx fcvtls fcvtlus fcvtsl fcvtslu xxx : IName

-- The value of a name in its `uint8_t`.
abbrev pub to_code : IName → ℕ
to_code IName.lb = 0
to_code IName.lh = 1
to_code IName.lw = 2
to_code IName.lbu = 3
to_code IName.lhu = 4
to_code IName.ld = 5
to_code IName.lwu = 6
to_code IName.addi = 7
to_code IName.addw = 8
to_code IName.addiw = 9
to_code IName.slti = 10
to_code IName.sltiu = 11
to_code IName.xori = 12
to_code IName.ori = 13
to_code IName.andi = 14
to_code IName.slli = 15
to_code IName.srli = 16
to_code IName.srai = 17
to_code IName.slliw = 18
to_code IName.srliw = 19
to_code IName.sraiw = 20
to_code IName.fence = 21
to_code IName.fencei = 22
to_code IName.ecall = 23
to_code IName.ebreak = 24
to_code IName.csrrw = 25
to_code IName.csrrs = 26
to_code IName.csrrc = 27
to_code IName.csrrwi = 28
to_code IName.csrrsi = 29
to_code IName.csrrci = 30
to_code IName.beq = 31
to_code IName.bne = 32
to_code IName.blt = 33
to_code IName.bge = 34
to_code IName.bltu = 35
to_code IName.bgeu = 36
to_code IName.sb = 37
to_code IName.sh = 38
to_code IName.sw = 39
to_code IName.sd = 40
to_code IName.add = 41
to_code IName.sub = 42
to_code IName.subw = 43
to_code IName.sll = 44
to_code IName.sllw = 45
to_code IName.slt = 46
to_code IName.sltu = 47
to_code IName.xor = 48
to_code IName.srl = 49
to_code IName.srlw = 50
to_code IName.sra = 51
to_code IName.sraw = 52
to_code IName.or = 53
to_code IName.and = 54
to_code IName.jal = 55
to_code IName.jalr = 56
to_code IName.lui = 57
to_code IName.auipc = 58
to_code IName.mul = 59
to_code IName.mulh = 60
to_code IName.mulhsu = 61
to_code IName.mulhu = 62
to_code IName.div = 63
to_code IName.divu = 64
to_code IName.rem = 65
to_code IName.remu = 66
to_code IName.mulw = 67
to_code IName.divw = 68
to_code IName.divuw = 69
to_code IName.remw = 70
to_code IName.remuw = 71
to_code IName.lrw = 72
to_code IName.scw = 73
to_code IName.amoswapw = 74
to_code IName.amoaddw = 75
to_code IName.amoxorw = 76
to_code IName.amoandw = 77
to_code IName.amoorw = 78
to_code IName.amominw = 79
to_code IName.amomaxw = 80
to_code IName.amominuw = 81
to_code IName.amomaxuw = 82
to_code IName.lrd = 83
to_code IName.scd = 84
to_code IName.amoswapd = 85
to_code IName.amoaddd = 86
to_code IName.amoxord = 87
to_code IName.amoandd = 88
to_code IName.amoord = 89
to_code IName.amomind = 90
to_code IName.amomaxd = 91
to_code IName.amominud = 92
to_code IName.amomaxud = 93
to_code IName.sret = 94
to_code IName.mret = 95
to_code IName.flw = 96
to_code IName.fsw = 97
to_code IName.fmadds = 98
to_code IName.fmsubs = 99
to_code IName.fnmsubs = 100
to_code IName.fnmadds = 101
to_code IName.fadds = 102
to_code IName.fsubs = 103
to_code IName.fmuls = 104
to_code IName.fdivs = 105
to_code IName.fsqrts = 106
to_code IName.fsgnjs = 107
to_code IName.fsgnjns = 108
to_code IName.fsgnjxs = 109
to_code IName.fmins = 110
to_code IName.fmaxs = 111
to_code IName.fcvtws = 112
to_code IName.fcvtwus = 113
to_code IName.fmvxw = 114
to_code IName.feqs = 115
to_code IName.flts = 116
to_code IName.fles = 117
to_code IName.fclasss = 118
to_code IName.fcvtsw = 119
to_code IName.fcvtswu = 120
to_code IName.fmvwx = 121
to_code IName.fcvtls = 122
to_code IName.fcvtlus = 123
to_code IName.fcvtsl = 124
to_code IName.fcvtslu = 125
to_code IName.xxx = 126

-- `==` on the enumeration.
abbrev pub same_name : IName → IName → Bool
same_name m n = to_code m == to_code n
