-- ===== src/Emu/Run.antt =====
-- The loop of `VEmu::run` of src/VEmu.cpp. Its decoder, a singleton of the program, is any state `D`
-- with a decoding function.
use vemu.Common.{
  ℕ, zero, suc, ◌+◌, ◌≡◌, Bool, true, false, Option, none, some, if◌then◌else◌, Outcome, ok,
  aborted, exited, undefined, ◌>>=◌, u32, add64,
}
use vemu.Isa.{IName, Interrupt, ReturnException, Instruction}
use vemu.Mmu.Access as Memory
use vemu.Mmu.Access.{load_insn}
use vemu.Bus
use vemu.Emu.Platform.{Build, Platform}
use vemu.Emu.State.{Emu, Handled}
use vemu.Emu.Trap.{trap, is_fatal}
use vemu.Emu.Dispatch.{init_func_map}
use vemu.Emu.Interrupt.{check_pending_interrupt, take_interrupt}
pub mod Fuel
pub mod Cached
pub mod Keep
pub mod Frame
pub mod Exit

-- FUZZ_ENV has a `trap` that does nothing.
unfoldable pub trap_in : Build → Emu → ReturnException → Outcome Emu
unfolding trap
trap_in Build.fuzz e ex = ok e
trap_in _ e ex = trap e ex

abbrev pub is_normal : ReturnException → Bool
is_normal ReturnException.normal_execution_return = true
is_normal _ = false

-- `if (ex != NormalExecutionReturn) trap(ex); if (is_fatal(ex)) exit_fatally(ex);`
unfoldable pub settle : Build → Emu → ReturnException → Outcome Emu
unfolding trap_in is_fatal
settle b e ex = (if is_normal ex then ok e else trap_in b e ex) >>= λ e'.
    if is_fatal ex then exited 1 else ok e'

-- `if (i != Interrupt::NoInterrupt) take_interrupt(i);`
unfoldable pub take_pending : Interrupt → Emu → Outcome Emu
unfolding take_interrupt
take_pending Interrupt.no_interrupt e = ok e
take_pending i e = take_interrupt e i

-- FUZZ_ENV does not look for interrupts.
unfoldable pub interrupted : Build → Emu → Outcome Emu
unfolding check_pending_interrupt take_pending
interrupted Build.fuzz e = ok e
interrupted _ e = check_pending_interrupt e >>= λ (i, e'). take_pending i e'

-- `get_4byte_aligned_instr`: TEST_ENV loads through the bus, the other builds from the memory.
unfoldable pub get_4byte_aligned_instr : Build → Emu → ℕ → Outcome ((ℕ × ReturnException) × Emu)
unfolding Bus.load load_insn
get_4byte_aligned_instr Build.test e addr =
    Bus.load e.bus addr 32 >>= λ ((value, ex), bus'). ok ((u32 value, ex), record e { bus = bus' })
get_4byte_aligned_instr _ e addr = load_insn e.bus.mmu addr >>= λ r. ok (r, e)

-- What the handler of an instruction comes to: a name without an entry calls an empty
-- `std::function`, which throws.
unfoldable pub call_handler : Option (Emu → Outcome Handled) → Emu → Outcome Handled
call_handler none e = aborted
call_handler (some handler) e = handler e

unfoldable pub execute : Platform → Emu → ℕ → Instruction → Outcome Emu
unfolding call_handler init_func_map settle
execute p e inst i =
    call_handler (init_func_map p i.name) (record e { hex_instr = inst; curr_instr = i })
    >>= λ (ex, e'). settle p.build e' ex

-- `pc += 4`.
abbrev pub next_instr : Emu → Emu
next_instr e = record e { pc = add64 e.pc 4 }

-- A round of the loop ends with a return of `run` or goes on.
pub data Progress (D : Type 0) : Type 0 where
  returned : ℕ → Emu → D → Progress D
  continued : Emu → D → Progress D

unfoldable pub test_done : Build → Emu → Bool
test_done Build.test e = e.test_flag_done
test_done _ e = false

module _ {D : Type 0} (decode : D → ℕ → Outcome (Instruction × D)) (p : Platform) where
  -- From the fetch on.
  unfoldable pub fetch_and_execute : Emu → D → Outcome (Progress D)
  unfolding get_4byte_aligned_instr settle execute
  fetch_and_execute e d = get_4byte_aligned_instr p.build e e.pc >>= λ ((inst, ex), e1).
      settle p.build e1 ex >>= λ e2. decode d inst >>= λ (i, d').
      execute p e2 inst i >>= λ e3. ok (Progress.continued (next_instr e3) d')

  unfoldable pub round : Emu → D → Outcome (Progress D)
  unfolding interrupted test_done fetch_and_execute
  round e d =
      if e.has_exited
      then ok (Progress.returned e.exit_code e d)
      else (interrupted p.build e >>= λ e1.
          if test_done p.build e1 then ok (Progress.returned 0 e1 d) else fetch_and_execute e1 d)

  -- `run` on fuel: what it returns with the state it leaves, or `none` where the fuel is used up.
  unfoldable pub run : ℕ → Emu → D → Option (Outcome (ℕ × Emu × D))
  unfolding round
  run zero e d = none
  run (suc fuel) e d = elim (round e d) [
    | ok (Progress.returned code e' d') ↦ some (ok (code, e', d'))
    | ok (Progress.continued e' d') ↦ run fuel e' d'
    | aborted ↦ some aborted
    | exited code ↦ some (exited code)
    | undefined ↦ some undefined
  ]

  -- The same loop as a relation: the rounds from a state to another.
  pub data Reaches : Emu → D → Emu → D → Type 0 where
    here : (e : Emu) (d : D) → Reaches e d e d
    next :
        (e : Emu) (d : D) {e1 e2 : Emu} {d1 d2 : D}
        → round e d ≡ ok (Progress.continued e1 d1)
        → Reaches e1 d1 e2 d2
        → Reaches e d e2 d2
