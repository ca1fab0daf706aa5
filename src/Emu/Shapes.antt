-- ===== src/Emu/Shapes.antt =====
-- The handlers of src/VEmu.cpp by what they do last: those of one shape leave the registers other than
-- `rd` alone for one reason.
use vemu.Common.{
  u32, ℕ, ◌/◌, ◌^◌, ◌==◌, refl, Bool, true, false, bit_and, Outcome, ok, add64, sub64,
  if◌then◌else◌, sext32, aborted,
}
use vemu.Isa.{Mode, ReturnException}
use vemu.Emu.State.{Emu, Handled, reg1, reg2, result, set_rd}
use vemu.Emu.Csr.{load_csr}
use vemu.Emu.MulDiv.{flag_zero_divide}
use vemu.Emu.Jump.{branch}
use vemu.Emu.Memory.{load_then}
use vemu.Emu.Atomic.{aligned, amo_store, amo_w, amo_wu, amo_d}
use vemu.Emu.Trap.{mret, ecall, mstatus, leave_machine, mepc}
use vemu.Emu.Frame.{
  Keeps, AllKeep, Keeps-refl, Keeps-rest, Keeps-set_rd, AllKeep-load, AllKeep-amo_store,
  AllKeep-aligned, AllKeep-result,
}

-- The results of the divisions and remainders, by their tests.
pub divided :
    (e : Emu) (by_zero overflows : Bool) (a b c : ℕ)
    → AllKeep e (
        ok (
          if by_zero
          then result (flag_zero_divide e) a
          else if overflows
          then result e b
          else result e c))
divided e true o a b c = Keeps-set_rd e (flag_zero_divide e) refl refl a
divided e false true a b c = AllKeep-result e b
divided e false false a b c = AllKeep-result e c

pub divided_unsigned :
    (e : Emu) (by_zero : Bool) (a b : ℕ)
    → AllKeep e (ok (if by_zero then result (flag_zero_divide e) a else result e b))
divided_unsigned e true a b = Keeps-set_rd e (flag_zero_divide e) refl refl a
divided_unsigned e false a b = AllKeep-result e b

pub remainder :
    (e : Emu) (by_zero overflows : Bool) (a b c : ℕ)
    → AllKeep e (ok (if by_zero then result e a else if overflows then result e b else result e c))
remainder e true o a b c = AllKeep-result e a
remainder e false true a b c = AllKeep-result e b
remainder e false false a b c = AllKeep-result e c

pub remainder_unsigned :
    (e : Emu) (by_zero : Bool) (a b : ℕ)
    → AllKeep e (ok (if by_zero then result e a else result e b))
remainder_unsigned e true a b = AllKeep-result e a
remainder_unsigned e false a b = AllKeep-result e b

pub branched : (e : Emu) (taken : Bool) → AllKeep e (ok (branch e taken))
branched e true = Keeps-rest e _ refl refl
branched e false = Keeps-refl e

-- The atomic operations, by what they store.
pub reserved :
    (e : Emu) (n sz : ℕ)
    → AllKeep e (
        aligned e n ReturnException.load_address_misaligned
          (load_then e (reg1 e) sz (λ e' value. ok (result e' value))))
reserved e n sz = AllKeep-aligned e n ReturnException.load_address_misaligned _ (
    AllKeep-load e (reg1 e) sz (λ e' value. ok (result e' value))
      (λ e' v i r. Keeps-set_rd e e' i r v))

module _ (e : Emu) (op : ℕ → ℕ → ℕ) where
  -- The part of an operation after its load.
  amo_Keeps :
      (n sz : ℕ) (stored old : Emu → ℕ → ℕ)
      → AllKeep e (
          aligned e n ReturnException.load_address_misaligned
            (load_then e (reg1 e) sz (λ e' v. amo_store e' sz (stored e' v) (old e' v))))
  amo_Keeps n sz stored old = AllKeep-aligned e n ReturnException.load_address_misaligned _ (
      AllKeep-load e (reg1 e) sz (λ e' v. amo_store e' sz (stored e' v) (old e' v))
        (λ e' v i r. AllKeep-amo_store e e' i r sz (stored e' v) (old e' v)))

  pub amo_w_Keeps : AllKeep e (amo_w e op)
  amo_w_Keeps =
      amo_Keeps 4 32
        (λ e' v. op (sext32 (bit_and v 0xffffffff)) (sext32 (bit_and (reg2 e') 0xffffffff)))
        (λ e' v. sext32 (bit_and v 0xffffffff))

  pub amo_wu_Keeps : AllKeep e (amo_wu e op)
  amo_wu_Keeps = amo_Keeps 4 32 (λ e' v. op (u32 v) (u32 (reg2 e'))) (λ e' v. sext32 (u32 v))

  pub amo_d_Keeps : AllKeep e (amo_d e op)
  amo_d_Keeps = amo_Keeps 8 64 (λ e' v. op v (reg2 e')) (λ e' v. v)

pub jumped : (e : Emu) (target : ℕ) → Keeps e (record (set_rd e (add64 e.pc 4)) { pc = target })
jumped e target = record {
  same_instr = refl;
  same_regs = (Keeps-set_rd e e refl refl (add64 e.pc 4)).same_regs;
}

pub called : (e : Emu) → AllKeep e (ok (ecall e))
unfolding ecall
called e = go e.mode
  where
    go :
        (m : Mode)
        → AllKeep e (
            ok (elim m [
              | Mode.user ↦ (ReturnException.environment_call_from_user_mode, e)
              | Mode.supervisor ↦ (ReturnException.environment_call_from_supervisor_mode, e)
              | Mode.machine ↦ (ReturnException.environment_call_from_machine_mode, e)
            ]))
    go Mode.user = Keeps-refl e
    go Mode.supervisor = Keeps-refl e
    go Mode.machine = Keeps-refl e

pub returned : (e : Emu) → AllKeep e (mret e)
unfolding mret
returned e =
    let mb = bit_and (load_csr e.csrs mstatus / 2 ^ 11) 0b11 in
    go (mb == 0x00) (mb == 0x01) (mb == 0x11)
  where
    back : Mode → Outcome Handled
    back m = ok (
      ReturnException.normal_execution_return,
      record e { pc = sub64 (load_csr e.csrs mepc) 4; mode = m; csrs = leave_machine e.csrs },
    )

    go :
        (a b c : Bool)
        → AllKeep e (
            if a
            then back Mode.user
            else if b
            then back Mode.supervisor
            else if c
            then back Mode.machine
            else aborted)
    go true b c = Keeps-rest e _ refl refl
    go false true c = Keeps-rest e _ refl refl
    go false false true = Keeps-rest e _ refl refl
    go false false false = tt
