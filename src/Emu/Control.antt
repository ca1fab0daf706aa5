-- ===== src/Emu/Control.antt =====
-- Where the branches and jumps of src/VEmu.cpp go on.
use vemu.Common.{
  ℕ, ◌/◌, ◌*◌, ◌^◌, ◌<◌, ◌≤◌, ◌≡◌, refl, Bool, true, false, add64, sub64, arith, signed64, ◌↔◌,
  ◌≤ℤ◌, ◌≢◌,
}
use vemu.Bits.{bit_and_field}
use vemu.RegFile
use vemu.RegFile.{load_reg-store_reg}
use vemu.Emu.State.{Emu, Handled, fields, imm, reg1, reg2}
use vemu.Emu.Jump.{branch, beq, bne, blt, bge, bltu, bgeu, jal, jalr}

-- `pc` after the handler and the `pc += 4` of `run`.
abbrev pub next_pc : Handled → ℕ
next_pc r = add64 r.1.pc 4

-- The handler goes on at `pc + imm` if the condition holds, and at the next instruction if not.
abbrev pub GoesIf : Emu → Type 0 → Handled → Type 0
GoesIf e p r = (p → next_pc r ≡ add64 e.pc (imm e)) × ((¬ p) → next_pc r ≡ add64 e.pc 4)

back_and_on : (x : ℕ) → x < 2 ^ 64 → add64 (sub64 x 4) 4 ≡ x
back_and_on x h = omega arith

branch-GoesIf :
    (e : Emu) (taken : Bool) (p : Type 0) → (taken ≡ true) ↔ p → GoesIf e p (branch e taken)
branch-GoesIf e true p h =
    (λ x. back_and_on (add64 e.pc (imm e)) (omega arith), λ n. absurd (n (h.0 refl)))
branch-GoesIf e false p h = (λ x. absurd (ground (arith, h.1 x)), λ n. refl)

branches_lem :
    (e : Emu)
    → GoesIf e (reg1 e ≡ reg2 e) (beq e)
      × GoesIf e (¬ (reg1 e ≡ reg2 e)) (bne e)
      × GoesIf e (¬ (signed64 (reg2 e) ≤ℤ signed64 (reg1 e))) (blt e)
      × GoesIf e (signed64 (reg2 e) ≤ℤ signed64 (reg1 e)) (bge e)
      × GoesIf e (reg1 e < reg2 e) (bltu e)
      × GoesIf e (reg2 e ≤ reg1 e) (bgeu e)
unfolding beq bne blt bge bltu bgeu
branches_lem e = (
  branch-GoesIf e _ _ (ground arith),
  branch-GoesIf e _ _ (ground arith),
  branch-GoesIf e _ _ (ground arith),
  branch-GoesIf e _ _ (ground arith),
  branch-GoesIf e _ _ (ground arith),
  branch-GoesIf e _ _ (ground arith),
)

jumps_lem :
    (e : Emu)
    → (next_pc (jal e) ≡ add64 e.pc (imm e))
      × (next_pc (jalr e) ≡ add64 (reg1 e) (imm e) / 2 * 2)
      × ((fields e).rd ≢ 0
          → (RegFile.load_reg (jal e).1.iregs (fields e).rd ≡ add64 e.pc 4)
            × (RegFile.load_reg (jalr e).1.iregs (fields e).rd ≡ add64 e.pc 4))
unfolding jal jalr
jumps_lem e = (
  back_and_on (add64 e.pc (imm e)) (omega arith),
  omega (arith, bit_and_field 1 63 (add64 (reg1 e) (imm e))),
  λ other. (
    ground (arith, load_reg-store_reg e.iregs (fields e).rd (fields e).rd (add64 e.pc 4)),
    ground (arith, load_reg-store_reg e.iregs (fields e).rd (fields e).rd (add64 e.pc 4)),
  ),
)

-- A branch goes to `pc + imm` (modulo 2 ^ 64) exactly on its condition: BEQ, BNE, BLT, BGE on the
-- registers as signed integers, BLTU and BGEU on them as unsigned numbers; otherwise the next
-- instruction follows. JAL goes to `pc + imm`, and JALR to `rs1 + imm` with its lowest bit cleared,
-- where `rs1` is read before `rd` is written; both leave the address of the next instruction in `rd`,
-- unless that is register 0.
pub transfers_lem :
    (e : Emu)
    → (GoesIf e (reg1 e ≡ reg2 e) (beq e)
        × GoesIf e (¬ (reg1 e ≡ reg2 e)) (bne e)
        × GoesIf e (¬ (signed64 (reg2 e) ≤ℤ signed64 (reg1 e))) (blt e)
        × GoesIf e (signed64 (reg2 e) ≤ℤ signed64 (reg1 e)) (bge e)
        × GoesIf e (reg1 e < reg2 e) (bltu e)
        × GoesIf e (reg2 e ≤ reg1 e) (bgeu e))
      × (next_pc (jal e) ≡ add64 e.pc (imm e))
      × (next_pc (jalr e) ≡ add64 (reg1 e) (imm e) / 2 * 2)
      × ((fields e).rd ≢ 0
          → (RegFile.load_reg (jal e).1.iregs (fields e).rd ≡ add64 e.pc 4)
            × (RegFile.load_reg (jalr e).1.iregs (fields e).rd ≡ add64 e.pc 4))
transfers_lem e = let jumps = jumps_lem e in (branches_lem e, jumps.0, jumps.1, jumps.2)
