-- ===== src/Emu/Syscall/Frame.antt =====
-- What no system call of src/VEmu.cpp does: it changes no register but a0, and neither the program
-- counter nor the mode, the control registers or the floating-point registers.
use vemu.Common.{
  ◌==◌, ℕ, ◌≡◌, ◌≢◌, refl, Bool, true, false, Option, none, some, if◌then◌else◌, Outcome, ok,
  aborted, exited, undefined, ◌>>=◌, arith, to_i32, u32,
}
use vemu.Isa.{ReturnException}
use vemu.Mmu.{allocate, write_from}
use vemu.Mmu.Strings.{read_null_terminated_string, string_fuel}
use vemu.RegFile
use vemu.RegFile.{load_reg-store_reg}
use vemu.Emu.Platform.{Host}
use vemu.Emu.State.{Emu, Handled}
use vemu.Emu.Syscall.Table.{find_file}
use vemu.Emu.Syscall.Calls.{
  brk, write, open_call, close, exit_call, fstat, seek, lseek, read, ecall_fuzz, exit_emu, a0, a1,
  a2, a7, set_a0, set_mmu, done, reg, c_str,
}

pub record KeepsAllButA0 (e e' : Emu) : Type 0 where
  pub same_regs : (j : ℕ) → j ≢ 10 → RegFile.load_reg e'.iregs j ≡ RegFile.load_reg e.iregs j
  pub same_pc : e'.pc ≡ e.pc
  pub same_mode : e'.mode ≡ e.mode
  pub same_csrs : e'.csrs ≡ e.csrs
  pub same_fregs : e'.fregs ≡ e.fregs

-- Of a call that may fail.
pub record AllKeepButA0 (e : Emu) (call : Outcome Handled) : Type 0 where
  pub kept : (ex : ReturnException) (e' : Emu) → call ≡ ok (ex, e') → KeepsAllButA0 e e'

-- Both have the same registers, program counter, mode and control registers.
abbrev Same : Emu → Emu → Type 0
Same e e1 =
    (e1.iregs ≡ e.iregs)
    × (e1.pc ≡ e.pc)
    × (e1.mode ≡ e.mode)
    × (e1.csrs ≡ e.csrs)
    × (e1.fregs ≡ e.fregs)

module _ (e : Emu) where
  -- The states that the calls leave, with or without a write of a0.
  rest_keeps : (e1 : Emu) → Same e e1 → AllKeepButA0 e (done e1)
  rest_keeps e1 (regs, pc, mode, csrs, fregs) = record {
    kept = λ ex e' h. record {
      same_regs = λ j p. cc (h, regs);
      same_pc = cc (h, pc);
      same_mode = cc (h, mode);
      same_csrs = cc (h, csrs);
      same_fregs = cc (h, fregs);
    };
  }

  wrote : (e1 : Emu) (v j : ℕ) → e1.iregs ≡ e.iregs → j ≢ 10 → reg (set_a0 e1 v) j ≡ reg e j
  wrote e1 v j regs h = ground (arith, regs, load_reg-store_reg e.iregs 10 j v)

  a0_keeps : (e1 : Emu) (v : ℕ) → Same e e1 → AllKeepButA0 e (done (set_a0 e1 v))
  a0_keeps e1 v (regs, pc, mode, csrs, fregs) = record {
    kept = λ ex e' h. record {
      same_regs = λ j p. cc (h, wrote e1 v j regs p);
      same_pc = cc (h, pc);
      same_mode = cc (h, mode);
      same_csrs = cc (h, csrs);
      same_fregs = cc (h, fregs);
    };
  }

  fails_keeps : (o : Outcome Handled) → ((r : Handled) → o ≢ ok r) → AllKeepButA0 e o
  fails_keeps o h = record { kept = λ ex e' g. absurd (h (ex, e') g) }

  if_keeps :
      (b : Bool) (o r : Outcome Handled)
      → AllKeepButA0 e o
      → AllKeepButA0 e r
      → AllKeepButA0 e (if b then o else r)
  if_keeps true o r h k = h
  if_keeps false o r h k = k

  then_keeps :
      {X : Type 0} (o : Outcome X) (next : X → Outcome Handled)
      → ((x : X) → AllKeepButA0 e (next x))
      → AllKeepButA0 e (o >>= next)
  then_keeps (ok x) next h = h x
  then_keeps aborted next h = fails_keeps aborted (λ r g. cc)
  then_keeps (exited c) next h = fails_keeps (exited c) (λ r g. cc)
  then_keeps undefined next h = fails_keeps undefined (λ r g. cc)

  found_keeps :
      {X : Type 0} (o : Option X) (on_none : Outcome Handled) (on_some : X → Outcome Handled)
      → AllKeepButA0 e on_none
      → ((h : X) → AllKeepButA0 e (on_some h))
      → AllKeepButA0 e (elim o [ none ↦ on_none | some h ↦ on_some h ])
  found_keeps none n s h k = h
  found_keeps (some x) n s h k = k x

  brk_keeps : AllKeepButA0 e (brk e)
  unfolding brk
  brk_keeps = if_keeps _ _ _ (a0_keeps e _ (refl, refl, refl, refl, refl)) (
      then_keeps (allocate e.bus.mmu _) _
        (λ (base, m'). a0_keeps (set_mmu e m') _ (refl, refl, refl, refl, refl)))

  open_keeps : (host : Host) → AllKeepButA0 e (open_call host e)
  unfolding open_call
  open_keeps host =
      found_keeps (read_null_terminated_string (string_fuel e.bus.mmu) e.bus.mmu (a0 e)) _ _
        (fails_keeps _ (λ r g. cc))
        (λ read. then_keeps read _ (λ path.
          found_keeps (host.open_file e.opened (c_str path) (u32 (a1 e))) _ _
            (fails_keeps _ (λ r g. cc)) (λ opened. a0_keeps _ _ (refl, refl, refl, refl, refl))))

  close_keeps : AllKeepButA0 e (close e)
  unfolding close exit_emu
  close_keeps =
      found_keeps (find_file e.file_table (to_i32 (a0 e))) _ _
        (rest_keeps _ (refl, refl, refl, refl, refl))
        (λ h. rest_keeps _ (refl, refl, refl, refl, refl))

  fstat_keeps : (host : Host) → AllKeepButA0 e (fstat host e)
  unfolding fstat
  fstat_keeps host =
      found_keeps (find_file e.file_table (to_i32 (a0 e))) _ _ (fails_keeps _ (λ r g. cc)) (λ h.
        then_keeps (write_from e.bus.mmu _ (a1 e)) _
          (λ m'. a0_keeps (set_mmu e m') _ (refl, refl, refl, refl, refl)))

  lseek_keeps : AllKeepButA0 e (lseek e)
  unfolding lseek
  lseek_keeps =
      found_keeps (find_file e.file_table (a0 e)) _ _ (a0_keeps e _ (refl, refl, refl, refl, refl))
        (λ h.
          then_keeps (seek h (a1 e) (a2 e)) _ (λ idx. a0_keeps _ _ (refl, refl, refl, refl, refl)))

  read_keeps : AllKeepButA0 e (read e)
  unfolding read
  read_keeps = found_keeps (find_file e.file_table (a0 e)) _ _ (fails_keeps _ (λ r g. cc)) (λ h.
      if_keeps _ _ _ (rest_keeps e (refl, refl, refl, refl, refl)) (
        if_keeps _ _ _
          (then_keeps (write_from e.bus.mmu _ (a1 e)) _
            (λ m'. a0_keeps _ _ (refl, refl, refl, refl, refl)))
          (fails_keeps undefined (λ r g. cc))))

  write_keeps : AllKeepButA0 e (write e)
  unfolding write
  write_keeps = a0_keeps e (a2 e) (refl, refl, refl, refl, refl)

  exit_keeps : AllKeepButA0 e (exit_call e)
  unfolding exit_call exit_emu
  exit_keeps = rest_keeps _ (refl, refl, refl, refl, refl)

  ecall_keeps : (host : Host) → AllKeepButA0 e (ecall_fuzz host e)
  unfolding ecall_fuzz
  ecall_keeps host =
      let nr = a7 e in
      if_keeps (nr == 214) _ _ brk_keeps (
        if_keeps (nr == 64) _ _ write_keeps (
          if_keeps (nr == 1024) _ _ (open_keeps host) (
            if_keeps (nr == 57) _ _ close_keeps (
              if_keeps (nr == 93) _ _ exit_keeps (
                if_keeps (nr == 80) _ _ (fstat_keeps host) (
                  if_keeps (nr == 62) _ _ lseek_keeps
                    (if_keeps (nr == 63) _ _ read_keeps (fails_keeps (exited 1) (λ r g. cc)))))))))

-- Whatever a system call returns, it has left every register but a0 as it was, and so the program
-- counter, the mode, the control registers and the floating-point registers.
pub ecall_fuzz-KeepsAllButA0 :
    (host : Host) (e : Emu) (ex : ReturnException) (e' : Emu)
    → ecall_fuzz host e ≡ ok (ex, e')
    → KeepsAllButA0 e e'
ecall_fuzz-KeepsAllButA0 host e ex e' runs = (ecall_keeps e host).kept ex e' runs
