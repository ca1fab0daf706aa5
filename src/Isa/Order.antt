-- ===== src/Isa/Order.antt =====
-- The keys that a `std::map` over the instruction names goes through, in the order of its iteration.
use vemu.Common.{List, [], ◌∷◌}
use vemu.Isa.Names.{IName}

unfoldable pub all_names : List IName
all_names =
    IName.lb ∷ IName.lh ∷ IName.lw ∷ IName.lbu ∷ IName.lhu ∷ IName.ld ∷ IName.lwu ∷ IName.addi
    ∷ IName.addw ∷ IName.addiw ∷ IName.slti ∷ IName.sltiu ∷ IName.xori ∷ IName.ori ∷ IName.andi
    ∷ IName.slli ∷ IName.srli ∷ IName.srai ∷ IName.slliw ∷ IName.srliw ∷ IName.sraiw ∷ IName.fence
    ∷ IName.fencei ∷ IName.ecall ∷ IName.ebreak ∷ IName.csrrw ∷ IName.csrrs ∷ IName.csrrc
    ∷ IName.csrrwi ∷ IName.csrrsi ∷ IName.csrrci ∷ IName.beq ∷ IName.bne ∷ IName.blt ∷ IName.bge
    ∷ IName.bltu ∷ IName.bgeu ∷ IName.sb ∷ IName.sh ∷ IName.sw ∷ IName.sd ∷ IName.add ∷ IName.sub
    ∷ IName.subw ∷ IName.sll ∷ IName.sllw ∷ IName.slt ∷ IName.sltu ∷ IName.xor ∷ IName.srl
    ∷ IName.srlw ∷ IName.sra ∷ IName.sraw ∷ IName.or ∷ IName.and ∷ IName.jal ∷ IName.jalr
    ∷ IName.lui ∷ IName.auipc ∷ IName.mul ∷ IName.mulh ∷ IName.mulhsu ∷ IName.mulhu ∷ IName.div
    ∷ IName.divu ∷ IName.rem ∷ IName.remu ∷ IName.mulw ∷ IName.divw ∷ IName.divuw ∷ IName.remw
    ∷ IName.remuw ∷ IName.lrw ∷ IName.scw ∷ IName.amoswapw ∷ IName.amoaddw ∷ IName.amoxorw
    ∷ IName.amoandw ∷ IName.amoorw ∷ IName.amominw ∷ IName.amomaxw ∷ IName.amominuw ∷ IName.amomaxuw
    ∷ IName.lrd ∷ IName.scd ∷ IName.amoswapd ∷ IName.amoaddd ∷ IName.amoxord ∷ IName.amoandd
    ∷ IName.amoord ∷ IName.amomind ∷ IName.amomaxd ∷ IName.amominud ∷ IName.amomaxud ∷ IName.sret
    ∷ IName.mret ∷ IName.flw ∷ IName.fsw ∷ IName.fmadds ∷ IName.fmsubs ∷ IName.fnmsubs
    ∷ IName.fnmadds ∷ IName.fadds ∷ IName.fsubs ∷ IName.fmuls ∷ IName.fdivs ∷ IName.fsqrts
    ∷ IName.fsgnjs ∷ IName.fsgnjns ∷ IName.fsgnjxs ∷ IName.fmins ∷ IName.fmaxs ∷ IName.fcvtws
    ∷ IName.fcvtwus ∷ IName.fmvxw ∷ IName.feqs ∷ IName.flts ∷ IName.fles ∷ IName.fclasss
    ∷ IName.fcvtsw ∷ IName.fcvtswu ∷ IName.fmvwx ∷ IName.fcvtls ∷ IName.fcvtlus ∷ IName.fcvtsl
    ∷ IName.fcvtslu ∷ IName.xxx ∷ []
