-- ===== src/Emu/Every.antt =====
-- Every integer instruction of src/VEmu.cpp leaves the registers other than `rd` alone.
use vemu.Common.{
  bit_or, bit_xor, ltb, ltb_ℤ, signed64, ◌+◌, ◌&&◌, to_i32, u32, ◌==◌, ◌≡◌, refl, bit_and, Option,
  none, some, Outcome, ok, add64, if◌then◌else◌, sext8, sext16, sext32,
}
use mathlib.Core.Path.{subst}
use vemu.Isa.{IName, ReturnException}
use vemu.Emu.State.{Emu, Handled, reg1, reg2}
use vemu.Emu.Csr.{csrrw, csrrs, csrrc, csrrwi, csrrsi, csrrci}
use vemu.Emu.Immediate.{
  addi, addiw, slti, sltiu, xori, ori, andi, slli, srli, srai, slliw, srliw, sraiw, lui, auipc,
}
use vemu.Emu.Register.{
  add, addw, sub, subw, sll, sllw, slt, sltu, xor, srl, srlw, sra, sraw, or, and,
}
use vemu.Emu.MulDiv.{
  mul, mulw, mulh, mulhu, mulhsu, div, divu, divw, divuw, rem, remu, remw, remuw, int64_min,
  int32_min, minus_one,
}
use vemu.Emu.Jump.{beq, bne, blt, bge, bltu, bgeu, jal, jalr}
use vemu.Emu.Memory.{lb, lh, lw, lbu, lhu, lwu, ld, sb, sh, sw, sd, load_unsigned, reg_rd}
use vemu.Emu.Atomic.{
  lrw, lrd, scw, scd, amoswapw, amoaddw, amoandw, amoorw, amoxorw, amominw, amomaxw, amominuw,
  amomaxuw, amoswapd, amoaddd, amoxord, amoandd, amoord, amomind, amomaxd, amominud, amomaxud,
}
use vemu.Emu.Trap.{sret, mret, ecall}
use vemu.Emu.Table.{fence, fencei, ebreak, xxx, inst_funcs}
use vemu.Emu.Frame.{
  Keeps, AllKeep, Keeps-refl, Keeps-rest, Keeps-set_rd, AllKeep-store, AllKeep-conditional,
  AllKeep-aligned, AllKeep-again, AllKeep-result, AllKeep-load_unsigned,
}
use vemu.Emu.Shapes.{
  divided, divided_unsigned, remainder, remainder_unsigned, branched, jumped, called, returned,
  reserved, amo_w_Keeps, amo_wu_Keeps, amo_d_Keeps,
}

abbrev pub Runs : Emu → Option (Emu → Outcome Handled) → Type 0
Runs e none = Unit {0}
Runs e (some handler) = AllKeep e (handler e)

pub handled : (n : IName) (e : Emu) → Runs e (inst_funcs n)
unfolding inst_funcs csrrw csrrs csrrc csrrwi csrrsi csrrci addi addiw slti sltiu xori ori andi slli
    srli srai slliw srliw sraiw lui auipc add addw sub subw sll sllw slt sltu xor srl srlw sra sraw
    or and mul mulw mulh mulhu mulhsu div divu divw divuw rem remu remw remuw beq bne blt bge bltu
    bgeu jal jalr lb lh lw lbu lhu lwu ld sb sh sw sd lrw lrd scw scd amoswapw amoaddw amoandw
    amoorw amoxorw amominw amomaxw amominuw amomaxuw amoswapd amoaddd amoxord amoandd amoord amomind
    amomaxd amominud amomaxud sret mret ecall fence fencei ebreak xxx
handled IName.addi e = AllKeep-result e _
handled IName.addiw e = AllKeep-result e _
handled IName.slti e = AllKeep-result e _
handled IName.sltiu e = AllKeep-result e _
handled IName.xori e = AllKeep-result e _
handled IName.ori e = AllKeep-result e _
handled IName.andi e = AllKeep-result e _
handled IName.slli e = AllKeep-result e _
handled IName.srli e = AllKeep-result e _
handled IName.srai e = AllKeep-result e _
handled IName.slliw e = AllKeep-result e _
handled IName.srliw e = AllKeep-result e _
handled IName.sraiw e = AllKeep-result e _
handled IName.lui e = AllKeep-result e _
handled IName.auipc e = AllKeep-result e _
handled IName.add e = AllKeep-result e _
handled IName.addw e = AllKeep-result e _
handled IName.sub e = AllKeep-result e _
handled IName.subw e = AllKeep-result e _
handled IName.sll e = AllKeep-result e _
handled IName.sllw e = AllKeep-result e _
handled IName.slt e = AllKeep-result e _
handled IName.sltu e = AllKeep-result e _
handled IName.xor e = AllKeep-result e _
handled IName.srl e = AllKeep-result e _
handled IName.srlw e = AllKeep-result e _
handled IName.sra e = AllKeep-result e _
handled IName.sraw e = AllKeep-result e _
handled IName.or e = AllKeep-result e _
handled IName.and e = AllKeep-result e _
handled IName.mul e = AllKeep-result e _
handled IName.mulw e = AllKeep-result e _
handled IName.mulh e = AllKeep-result e _
handled IName.mulhu e = AllKeep-result e _
handled IName.mulhsu e = AllKeep-result e _
handled IName.csrrw e = Keeps-set_rd e _ refl refl _
handled IName.csrrs e = Keeps-set_rd e _ refl refl _
handled IName.csrrc e = Keeps-set_rd e _ refl refl _
handled IName.csrrwi e = Keeps-set_rd e _ refl refl _
handled IName.csrrsi e = Keeps-set_rd e _ refl refl _
handled IName.csrrci e = Keeps-set_rd e _ refl refl _
handled IName.div e = divided e (reg2 e == 0) ((reg1 e == int64_min) && (reg2 e == minus_one)) _ _ _
handled IName.divw e =
    divided e (to_i32 (reg2 e) == 0)
      ((to_i32 (reg2 e) == minus_one) && (to_i32 (reg1 e) == int32_min)) _ _ _
handled IName.divu e = divided_unsigned e (reg2 e == 0) _ _
handled IName.divuw e = divided_unsigned e (u32 (reg2 e) == 0) _ _
handled IName.rem e =
    remainder e (reg2 e == 0) ((reg1 e == int64_min) && (reg2 e == minus_one)) _ _ _
handled IName.remw e =
    remainder e (to_i32 (reg2 e) == 0)
      ((to_i32 (reg2 e) == minus_one) && (to_i32 (reg1 e) == int32_min)) _ _ _
handled IName.remu e = remainder_unsigned e (reg2 e == 0) _ _
handled IName.remuw e = remainder_unsigned e (u32 (reg2 e) == 0) _ _
handled IName.beq e = branched e _
handled IName.bne e = branched e _
handled IName.blt e = branched e _
handled IName.bge e = branched e _
handled IName.bltu e = branched e _
handled IName.bgeu e = branched e _
handled IName.jal e = jumped e _
handled IName.jalr e = jumped e _
handled IName.fence e = Keeps-refl e
handled IName.fencei e = Keeps-refl e
handled IName.ebreak e = Keeps-refl e
handled IName.xxx e = Keeps-refl e
handled IName.ecall e = called e
handled IName.sret e = Keeps-rest e _ refl refl
handled IName.mret e = returned e
handled IName.lbu e = AllKeep-load_unsigned e 8
handled IName.lhu e = AllKeep-load_unsigned e 16
handled IName.lwu e = AllKeep-load_unsigned e 32
handled IName.ld e = AllKeep-load_unsigned e 64
handled IName.lb e =
    AllKeep-again e (load_unsigned e 8) (λ e'. sext8 (bit_and (reg_rd e') 0xff))
      (AllKeep-load_unsigned e 8)
handled IName.lh e =
    AllKeep-again e (load_unsigned e 16) (λ e'. sext16 (bit_and (reg_rd e') 0xffff))
      (AllKeep-load_unsigned e 16)
handled IName.lw e =
    AllKeep-again e (load_unsigned e 32) (λ e'. sext32 (bit_and (reg_rd e') 0xffffffff))
      (AllKeep-load_unsigned e 32)
handled IName.sb e = AllKeep-store e e refl refl _ _ _
handled IName.sh e = AllKeep-store e e refl refl _ _ _
handled IName.sw e = AllKeep-store e e refl refl _ _ _
handled IName.sd e = AllKeep-store e e refl refl _ _ _
handled IName.lrw e = reserved e 4 32
handled IName.lrd e = reserved e 8 64
handled IName.scw e = AllKeep-aligned e 4 _ _ (AllKeep-conditional e 32)
handled IName.scd e = AllKeep-aligned e 8 _ _ (AllKeep-conditional e 64)
handled IName.amoswapw e = amo_w_Keeps e (λ tmp v. v)
handled IName.amoaddw e = amo_w_Keeps e (λ tmp v. u32 (tmp + v))
handled IName.amoandw e = amo_w_Keeps e (λ tmp v. bit_and (bit_and tmp v) 0xffffffff)
handled IName.amoorw e = amo_w_Keeps e (λ tmp v. bit_and (bit_or tmp v) 0xffffffff)
handled IName.amoxorw e = amo_w_Keeps e (λ tmp v. bit_and (bit_xor tmp v) 0xffffffff)
handled IName.amominw e =
    amo_w_Keeps e (λ tmp v. if ltb_ℤ (signed64 tmp) (signed64 v) then u32 tmp else u32 v)
handled IName.amomaxw e =
    amo_w_Keeps e (λ tmp v. if ltb_ℤ (signed64 v) (signed64 tmp) then u32 tmp else u32 v)
handled IName.amominuw e = amo_wu_Keeps e (λ tmp v. if ltb tmp v then tmp else v)
handled IName.amomaxuw e = amo_wu_Keeps e (λ tmp v. if ltb v tmp then tmp else v)
handled IName.amoswapd e = amo_d_Keeps e (λ tmp v. v)
handled IName.amoaddd e = amo_d_Keeps e add64
handled IName.amoxord e = amo_d_Keeps e bit_xor
handled IName.amoandd e = amo_d_Keeps e bit_and
handled IName.amoord e = amo_d_Keeps e bit_or
handled IName.amomind e =
    amo_d_Keeps e (λ tmp v. if ltb_ℤ (signed64 tmp) (signed64 v) then tmp else v)
handled IName.amomaxd e =
    amo_d_Keeps e (λ tmp v. if ltb_ℤ (signed64 v) (signed64 tmp) then tmp else v)
handled IName.amominud e = amo_d_Keeps e (λ tmp v. if ltb tmp v then tmp else v)
handled IName.amomaxud e = amo_d_Keeps e (λ tmp v. if ltb v tmp then tmp else v)
handled _ e = tt

-- Whatever an integer instruction returns, and on every one of its paths, it leaves the state with
-- the same instruction, with 0 in register 0 if it was there, and with every register but `rd` as
-- it was.
pub inst_funcs-Keeps :
    (n : IName) (handler : Emu → Outcome Handled) (e : Emu) (ex : ReturnException) (e' : Emu)
    → inst_funcs n ≡ some handler
    → handler e ≡ ok (ex, e')
    → Keeps e e'
inst_funcs-Keeps n handler e ex e' found runs =
    subst (AllKeep e) runs (subst (Runs e) found (handled n e))
