-- ===== src/Emu/Float/Laws.antt =====
-- What the floating-point instructions of src/VEmu.cpp do not do.
use vemu.Common.{ℕ, ◌≡◌, refl, Bool, true, false, if◌then◌else◌}
use vemu.Emu.Platform.{Platform}
use vemu.Emu.State.{Emu, Handled, fields}
use vemu.Emu.Float.Arith.{fsgnjs, fsgnjns, fsgnjxs}
use vemu.Emu.Float.Compare.{fmins, fmaxs}

-- The instruction with another second source register.
abbrev pub with_rs2 : Emu → ℕ → Emu
with_rs2 e k = record e { curr_instr = record e.curr_instr { f = record (fields e) { rs2 = k } } }

same_fregs :
    (b : Bool) (r r' s s' : Handled)
    → r.1.fregs ≡ r'.1.fregs
    → s.1.fregs ≡ s'.1.fregs
    → (if b then r else s).1.fregs ≡ (if b then r' else s').1.fregs
same_fregs true r r' s s' h k = h
same_fregs false r r' s s' h k = k

-- FSGNJ.S, FSGNJN.S, FSGNJX.S, FMIN.S and FMAX.S do not depend on their second source register: they
-- leave the same floating-point registers with any other one.
pub second_operand_unused :
    (p : Platform) (e : Emu) (k : ℕ)
    → ((fsgnjs p (with_rs2 e k)).1.fregs ≡ (fsgnjs p e).1.fregs)
      × ((fsgnjns p (with_rs2 e k)).1.fregs ≡ (fsgnjns p e).1.fregs)
      × ((fsgnjxs p (with_rs2 e k)).1.fregs ≡ (fsgnjxs p e).1.fregs)
      × ((fmins p (with_rs2 e k)).1.fregs ≡ (fmins p e).1.fregs)
      × ((fmaxs p (with_rs2 e k)).1.fregs ≡ (fmaxs p e).1.fregs)
unfolding fsgnjs fsgnjns fsgnjxs fmins fmaxs
second_operand_unused p e k =
    let b = p.support_softfloat in
    (
      same_fregs b _ _ _ _ refl refl,
      same_fregs b _ _ _ _ refl refl,
      same_fregs b _ _ _ _ refl refl,
      same_fregs b _ _ _ _ refl refl,
      same_fregs b _ _ _ _ refl refl,
    )
