-- ===== src/Emu/Frame.antt =====
-- What no instruction of src/VEmu.cpp does: it writes no integer register but `rd`, and never
-- register 0.
use vemu.Common.{
  ℕ, ◌≡◌, ◌≢◌, ◌⊎◌, inl, inr, refl, ◌==◌, Bool, true, false, if◌then◌else◌, Outcome, ok, aborted,
  exited, undefined, ◌>>=◌, Bool-cases, arith, add64, ◌%◌,
}
use vemu.Isa.{ReturnException}
use vemu.Bus
use vemu.Bus.{Bus}
use vemu.RegFile
use vemu.RegFile.{load_reg-store_reg}
use vemu.Emu.State.{Emu, Handled, fields, imm, set_rd, result, reg1}
use vemu.Emu.Memory.{load_then, load_unsigned, store_at}
use vemu.Emu.Atomic.{aligned, amo_store, store_conditional}

-- The registers other than `rd`, and register 0, are the same in both states, as is the
-- instruction.
pub record Keeps (e e' : Emu) : Type 0 where
  pub same_instr : e'.curr_instr ≡ e.curr_instr
  pub same_regs :
      (j : ℕ)
      → (j ≡ 0) ⊎ (j ≢ (fields e).rd)
      → RegFile.load_reg e'.iregs j ≡ RegFile.load_reg e.iregs j

abbrev pub AllKeep : Emu → Outcome Handled → Type 0
AllKeep e (ok (ex, e')) = Keeps e e'
AllKeep e _ = Unit {0}

pub Keeps-refl : (e : Emu) → Keeps e e
Keeps-refl e = record { same_instr = refl; same_regs = λ j h. refl }

-- A change of other parts of the state.
module _ (e e' : Emu) (instr : e'.curr_instr ≡ e.curr_instr) (regs : e'.iregs ≡ e.iregs) where
  pub Keeps-rest : Keeps e e'
  Keeps-rest = record { same_instr = instr; same_regs = λ j h. rw regs refl }

  pub Keeps-set_rd : (v : ℕ) → Keeps e (set_rd e' v)
  Keeps-set_rd v = record {
    same_instr = instr;
    same_regs = λ j h. ground (arith, instr, regs, load_reg-store_reg e.iregs (fields e).rd j v);
  }

pub AllKeep-load :
    (e : Emu) (addr sz : ℕ) (next : Emu → ℕ → Outcome Handled)
    → ((e' : Emu) (value : ℕ)
        → e'.curr_instr ≡ e.curr_instr
        → e'.iregs ≡ e.iregs
        → AllKeep e (next e' value))
    → AllKeep e (load_then e addr sz next)
AllKeep-load e addr sz next h = go (Bus.load e.bus addr sz)
  where
    go :
        (o : Outcome ((ℕ × ReturnException) × Bus))
        → AllKeep e (
            o >>= λ ((value, ex), bus'). elim ex [
              | ReturnException.normal_execution_return ↦ next (record e { bus = bus' }) value
              | other ↦ ok (other, record e { bus = bus' })
            ])
    go (ok ((value, ReturnException.normal_execution_return), bus')) =
        h (record e { bus = bus' }) value refl refl
    go (ok ((value, _), bus')) = Keeps-rest e (record e { bus = bus' }) refl refl
    go _ = tt

-- A store by a state with the same registers and instruction, and what follows it.
module _ (e e0 : Emu) (instr : e0.curr_instr ≡ e.curr_instr) (regs : e0.iregs ≡ e.iregs) where
  pub AllKeep-store : (addr value sz : ℕ) → AllKeep e (store_at e0 addr value sz)
  AllKeep-store addr value sz = go (Bus.store e0.bus addr value sz)
    where
      go :
          (o : Outcome (ReturnException × Bus))
          → AllKeep e (o >>= λ (ex, bus'). ok (ex, record e0 { bus = bus' }))
      go (ok (ex, bus')) = Keeps-rest e (record e0 { bus = bus' }) instr regs
      go _ = tt

  pub AllKeep-amo_store : (sz value old : ℕ) → AllKeep e (amo_store e0 sz value old)
  AllKeep-amo_store sz value old = go (Bus.store e0.bus (reg1 e0) value sz)
    where
      go :
          (o : Outcome (ReturnException × Bus))
          → AllKeep e (
              o >>= (λ (ex, bus'). ok (ex, record e0 { bus = bus' })) >>= λ (ex, e'). ok (elim ex [
                | ReturnException.normal_execution_return ↦ result e' old
                | other ↦ (other, e')
              ]))
      go (ok (ReturnException.normal_execution_return, bus')) =
          Keeps-set_rd e (record e0 { bus = bus' }) instr regs old
      go (ok (_, bus')) = Keeps-rest e (record e0 { bus = bus' }) instr regs
      go _ = tt

pub AllKeep-conditional : (e : Emu) (sz : ℕ) → AllKeep e (store_conditional e sz)
AllKeep-conditional e sz =
    go (Bus.store e.bus (reg1 e) (RegFile.load_reg e.iregs (fields e).rs2) sz)
  where
    go :
        (o : Outcome (ReturnException × Bus))
        → AllKeep e (
            o >>= (λ (ex, bus'). ok (ex, record e { bus = bus' })) >>= λ (ex, e').
            ok (ex, set_rd e' 0))
    go (ok (ex, bus')) = Keeps-set_rd e (record e { bus = bus' }) refl refl 0
    go _ = tt

pub AllKeep-aligned :
    (e : Emu) (n : ℕ) (code : ReturnException) (next : Outcome Handled)
    → AllKeep e next
    → AllKeep e (aligned e n code next)
AllKeep-aligned e n code next h = elim (Bool-cases (reg1 e % n == 0)) [
  | inl even ↦ rw even h
  | inr odd ↦ rw odd (Keeps-refl e)
]

-- A further write of `rd`, of a value that may depend on the state.
pub AllKeep-again :
    (e : Emu) (m : Outcome Handled) (value : Emu → ℕ)
    → AllKeep e m
    → AllKeep e (m >>= λ (ex, e'). ok (result e' (value e')))
AllKeep-again e (ok (ex, e')) value h = record {
  same_instr = h.same_instr;
  same_regs = λ j p. ground (
    arith,
    h.same_instr,
    h.same_regs j p,
    load_reg-store_reg e'.iregs (fields e').rd j (value e'),
  );
}
AllKeep-again e aborted value h = tt
AllKeep-again e (exited c) value h = tt
AllKeep-again e undefined value h = tt

-- The results of the handlers that only compute, and of those that test something first.
pub AllKeep-result : (e : Emu) (v : ℕ) → AllKeep e (ok (result e v))
AllKeep-result e v = Keeps-set_rd e e refl refl v

pub AllKeep-if :
    (e : Emu) (b : Bool) (r s : Handled)
    → AllKeep e (ok r)
    → AllKeep e (ok s)
    → AllKeep e (ok (if b then r else s))
AllKeep-if e true r s h k = h
AllKeep-if e false r s h k = k

pub AllKeep-load_unsigned : (e : Emu) (sz : ℕ) → AllKeep e (load_unsigned e sz)
AllKeep-load_unsigned e sz =
    AllKeep-load e (add64 (reg1 e) (imm e)) sz (λ e' value. ok (result e' value))
      (λ e' value instr regs. Keeps-set_rd e e' instr regs value)
