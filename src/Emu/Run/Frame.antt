-- ===== src/Emu/Run/Frame.antt =====
-- Register 0 in the loop of `VEmu::run` of src/VEmu.cpp.
use vemu.Common.{ℕ, ◌≡◌, refl, ◌∙◌, Option, none, some, inl, Outcome, ok, aborted, arith}
use vemu.Isa.{IName, ReturnException, Instruction}
use vemu.Emu.Platform.{Build, Platform}
use vemu.Emu.State.{Emu, Handled}
use vemu.Emu.Dispatch.{init_func_map, ecall_of}
use vemu.Emu.Syscall.Frame.{ecall_fuzz-KeepsAllButA0}
use vemu.Emu.Whole.{init_func_map-Keeps}
use vemu.Emu.Run.Fuel.{run-Returns}
use vemu.Emu.Run.{
  Progress, next_instr, test_done, call_handler, execute, fetch_and_execute, round, run, Reaches,
}
use vemu.Emu.Run.Keep.{
  zero_reg, KeepsZero, done_zero, fails_zero, if_zero, then_zero, same_state, settle_zero,
  interrupted_zero, fetched_zero,
}

-- The handlers: that of a system call of the fuzzing build, and the others.
abbrev HandlerKeeps : Platform → IName → Emu → Type 0
HandlerKeeps p n e = KeepsZero {X = Handled} e (λ (ex, e'). e') (call_handler (init_func_map p n) e)

other_zero :
    (p : Platform) (n : IName) (e : Emu)
    → ¬ ((n ≡ IName.ecall) × (p.build ≡ Build.fuzz))
    → HandlerKeeps p n e
unfolding call_handler
other_zero p n e h = go (init_func_map p n) refl
  where
    go :
        (o : Option (Emu → Outcome Handled))
        → init_func_map p n ≡ o
        → KeepsZero {X = Handled} e (λ (ex, e'). e') (call_handler o e)
    go none found = fails_zero e _ aborted (λ x g. cc)
    go (some handler) found = record {
      kept = λ (ex, e') runs.
          (init_func_map-Keeps p n handler e ex e' h found runs).same_regs 0 (inl refl);
    }

ecall_zero : (p : Platform) (e : Emu) → HandlerKeeps p IName.ecall e
unfolding call_handler init_func_map ecall_of
ecall_zero p e = go p.build refl
  where
    go : (b : Build) → p.build ≡ b → HandlerKeeps p IName.ecall e
    go Build.fuzz same = rw same (record {
      kept =
          λ (ex, e') runs. (ecall_fuzz-KeepsAllButA0 p.host e ex e' runs).same_regs 0 (omega arith);
    })
    go Build.test same = other_zero p IName.ecall e (λ (q, fuzz). cc (same, fuzz))
    go Build.plain same = other_zero p IName.ecall e (λ (q, fuzz). cc (same, fuzz))

handler_zero : (p : Platform) (n : IName) (e : Emu) → HandlerKeeps p n e
handler_zero p IName.ecall e = ecall_zero p e
handler_zero p n e = other_zero p n e (λ (q, fuzz). cc (q))

execute_zero :
    (p : Platform) (e : Emu) (inst : ℕ) (i : Instruction)
    → KeepsZero e same_state (execute p e inst i)
unfolding execute
execute_zero p e inst i =
    let loaded = record e { hex_instr = inst; curr_instr = i } in
    then_zero e (λ ((ex, e') : Handled). e') same_state _ _
      (record { kept = λ r runs. (handler_zero p i.name loaded).kept r runs })
      (λ (ex, e'). settle_zero p.build e' ex)

abbrev state_of : {D : Type 0} → Progress D → Emu
state_of (Progress.returned code e d) = e
state_of (Progress.continued e d) = e

module _ {D : Type 0} (decode : D → ℕ → Outcome (Instruction × D)) (p : Platform) where
  instruction_zero : (e : Emu) (d : D) → KeepsZero e state_of (fetch_and_execute decode p e d)
  unfolding fetch_and_execute
  instruction_zero e d =
      then_zero e (λ ((r, e1) : (ℕ × ReturnException) × Emu). e1) state_of _ _
        (fetched_zero e e.pc p.build)
        (λ ((inst, ex), e1). then_zero e1 same_state state_of _ _ (settle_zero p.build e1 ex) (λ e2.
          then_zero e2 (λ (r : Instruction × D). e2) state_of (decode d inst) _
            (record { kept = λ r g. refl })
            (λ (i, d').
              then_zero e2 same_state state_of _ _ (execute_zero p e2 inst i)
                (λ e3. done_zero e3 state_of (Progress.continued (next_instr e3) d') refl))))

  round_zero : (e : Emu) (d : D) → KeepsZero e state_of (round decode p e d)
  unfolding round
  round_zero e d = if_zero e state_of e.has_exited _ _ (done_zero e state_of _ refl) (
      then_zero e same_state state_of _ _ (interrupted_zero p.build e) (λ e1.
        if_zero e1 state_of (test_done p.build e1) _ _ (done_zero e1 state_of _ refl)
          (instruction_zero e1 d)))

  reached_zero : (e e' : Emu) (d d' : D) → Reaches decode p e d e' d' → zero_reg e' ≡ zero_reg e
  reached_zero e e' d d' (Reaches.here _ _) = refl
  reached_zero e e' d d' (Reaches.next _ _ first rest) =
      reached_zero _ e' _ d' rest ∙ (round_zero e d).kept _ first

  -- In every build and with any decoder, register 0 holds what it held at the start: in every state
  -- that rounds of the loop reach, and in the state that a run leaves. So it reads as 0 throughout if
  -- it does at first.
  pub zero_reg_lem :
      (e e' : Emu) (d d' : D)
      → (Reaches decode p e d e' d' → zero_reg e' ≡ zero_reg e)
        × ((fuel code : ℕ)
            → run decode p fuel e d ≡ some (ok (code, e', d'))
            → zero_reg e' ≡ zero_reg e)
  zero_reg_lem e e' d d' = (
    reached_zero e e' d d',
    λ fuel code h.
        let (e1, d1, reaches, last) = run-Returns decode p fuel e d h in
        (round_zero e1 d1).kept _ last ∙ reached_zero e e1 d d1 reaches,
  )
