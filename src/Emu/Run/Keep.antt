-- ===== src/Emu/Run/Keep.antt =====
-- Register 0 in the parts of a round of `VEmu::run` of src/VEmu.cpp before the instruction.
use vemu.Common.{
  ℕ, ◌≡◌, ◌≢◌, refl, ◌∙◌, Bool, true, false, Option, none, some, List, [], ◌∷◌, inl, inr, Outcome,
  ok, aborted, exited, undefined, ◌>>=◌, if◌then◌else◌, Bool-cases, ltb,
}
use vemu.Isa.{Interrupt, ReturnException, cause_code}
use vemu.Bus
use vemu.Bus.{Bus, DeviceSet, uart_is_interrupting}
use vemu.Devices.Plic.{plic_sclaim}
use vemu.Mmu.Access.{load_insn}
use vemu.RegFile
use vemu.Emu.Platform.{Build}
use vemu.Emu.State.{Emu}
use vemu.Emu.Trap.{trap, is_fatal, is_delegated, trap_supervisor, trap_machine}
use vemu.Emu.Interrupt.{
  check_pending_interrupt, first_pending, take_interrupt, interrupt_cause, interrupt_supervisor,
  interrupt_machine, is_pending, priorities, is_masked, poll_uart, claim_uart,
}
use vemu.Emu.Run.{is_normal, interrupted, trap_in, get_4byte_aligned_instr, settle, take_pending}

abbrev pub zero_reg : Emu → ℕ
zero_reg e = RegFile.load_reg e.iregs 0

-- What becomes of a call keeps register 0.
pub record KeepsZero {X : Type 0} (e : Emu) (state : X → Emu) (call : Outcome X) : Type 0 where
  pub kept : (x : X) → call ≡ ok x → zero_reg (state x) ≡ zero_reg e

module _ (e : Emu) where
  pub done_zero :
      {X : Type 0} (state : X → Emu) (x : X)
      → zero_reg (state x) ≡ zero_reg e
      → KeepsZero e state (ok x)
  done_zero state x h = record { kept = λ y g. cc (g, h) }

  pub fails_zero :
      {X : Type 0} (state : X → Emu) (o : Outcome X) → ((x : X) → o ≢ ok x) → KeepsZero e state o
  fails_zero state o h = record { kept = λ y g. absurd (h y g) }

  pub if_zero :
      {X : Type 0} (state : X → Emu) (b : Bool) (o r : Outcome X)
      → KeepsZero e state o
      → KeepsZero e state r
      → KeepsZero e state (if b then o else r)
  if_zero state true o r h k = h
  if_zero state false o r h k = k

-- One call after another.
pub then_zero :
    {X Y : Type 0} (e : Emu) (state : X → Emu) (state' : Y → Emu) (o : Outcome X)
    (next : X → Outcome Y)
    → KeepsZero e state o
    → ((x : X) → KeepsZero (state x) state' (next x))
    → KeepsZero e state' (o >>= next)
then_zero e state state' (ok x) next h k = record { kept = λ y g. (k x).kept y g ∙ h.kept x refl }
then_zero e state state' aborted next h k = fails_zero e state' aborted (λ x g. cc)
then_zero e state state' (exited c) next h k = fails_zero e state' (exited c) (λ x g. cc)
then_zero e state state' undefined next h k = fails_zero e state' undefined (λ x g. cc)

abbrev pub same_state : Emu → Emu
same_state e = e

one_of :
    (b : Bool) (x y : Emu) {z : ℕ}
    → zero_reg x ≡ z
    → zero_reg y ≡ z
    → zero_reg (if b then x else y) ≡ z
one_of true x y h k = h
one_of false x y h k = k

trap_zero : (e : Emu) (ex : ReturnException) → KeepsZero e same_state (trap e ex)
unfolding trap
trap_zero e ex =
    let cause = cause_code ex in
    if_zero e same_state (ltb cause 64) _ undefined
      (done_zero e same_state _
        (one_of (is_delegated e cause) (trap_supervisor e cause) (trap_machine e cause) refl refl))
      (fails_zero e same_state undefined (λ x g. cc))

take_zero : (e : Emu) (i : Interrupt) → KeepsZero e same_state (take_interrupt e i)
unfolding take_interrupt
take_zero e i =
    let cause = interrupt_cause i in
    if_zero e same_state (ltb cause 64) _ undefined
      (done_zero e same_state _ (
        one_of (is_delegated e cause) (interrupt_supervisor e cause) (interrupt_machine e cause)
          refl refl))
      (fails_zero e same_state undefined (λ x g. cc))

trapped_zero :
    (b : Build) (e : Emu) (ex : ReturnException) → KeepsZero e same_state (trap_in b e ex)
unfolding trap_in
trapped_zero Build.fuzz e ex = done_zero e same_state e refl
trapped_zero Build.test e ex = trap_zero e ex
trapped_zero Build.plain e ex = trap_zero e ex

pub settle_zero :
    (b : Build) (e : Emu) (ex : ReturnException) → KeepsZero e same_state (settle b e ex)
unfolding settle
settle_zero b e ex =
    then_zero e same_state same_state _ _
      (if_zero e same_state (is_normal ex) _ _ (done_zero e same_state e refl)
        (trapped_zero b e ex))
      (λ e'.
        if_zero e' same_state (is_fatal ex) (exited 1) _
          (fails_zero e' same_state (exited 1) (λ x g. cc)) (done_zero e' same_state e' refl))

pending_zero :
    (e : Emu) (rest : List (ℕ × Interrupt)) → zero_reg (first_pending e rest).1 ≡ zero_reg e
unfolding first_pending
pending_zero e [] = refl
pending_zero e ((pos, i) ∷ rest) = elim (Bool-cases (is_pending e pos)) [
  | inl now ↦ rw now refl
  | inr later ↦ rw later (pending_zero e rest)
]

claimed_zero : (e : Emu) (irq : Bool) → KeepsZero e same_state (claim_uart e irq)
unfolding claim_uart
claimed_zero e irq =
    if_zero e same_state irq _ _
      (then_zero e (λ (r : ReturnException × Bus). e) same_state (Bus.store e.bus plic_sclaim 32 10)
        _ (record { kept = λ r g. refl }) (λ (ex, bus'). done_zero e same_state _ refl))
      (done_zero e same_state e refl)

polled_zero : (e : Emu) → KeepsZero e same_state (poll_uart e)
unfolding poll_uart uart_is_interrupting
polled_zero e = go e.bus.devices
  where
    go :
        (o : Option DeviceSet)
        → KeepsZero e same_state (elim o [
          | none ↦ undefined
          | some d ↦
              let (irq, bus') = uart_is_interrupting e.bus d in
              claim_uart (record e { bus = bus' }) irq
        ])
    go none = fails_zero e same_state undefined (λ x g. cc)
    go (some d) = record {
      kept = λ x g.
          (claimed_zero (record e { bus = (uart_is_interrupting e.bus d).1 })
              (uart_is_interrupting e.bus d).0).kept
            x g;
    }

checked_zero :
    (e : Emu) → KeepsZero {X = Interrupt × Emu} e (λ (i, e'). e') (check_pending_interrupt e)
unfolding check_pending_interrupt
checked_zero e = if_zero e _ (is_masked e) _ _ (done_zero e _ (Interrupt.no_interrupt, e) refl) (
    then_zero e same_state _ (poll_uart e) _ (polled_zero e)
      (λ e'. done_zero e' _ _ (pending_zero e' priorities)))

taken_zero : (i : Interrupt) (e : Emu) → KeepsZero e same_state (take_pending i e)
unfolding take_pending
taken_zero Interrupt.no_interrupt e = done_zero e same_state e refl
taken_zero i e = take_zero e i

pub interrupted_zero : (b : Build) (e : Emu) → KeepsZero e same_state (interrupted b e)
unfolding interrupted
interrupted_zero Build.fuzz e = done_zero e same_state e refl
interrupted_zero Build.test e =
    then_zero e _ same_state (check_pending_interrupt e) _ (checked_zero e)
      (λ (i, e'). taken_zero i e')
interrupted_zero Build.plain e =
    then_zero e _ same_state (check_pending_interrupt e) _ (checked_zero e)
      (λ (i, e'). taken_zero i e')

-- The fetch.
module _ (e : Emu) (addr : ℕ) where
  pub fetched_zero :
      (b : Build)
      → KeepsZero {X = (ℕ × ReturnException) × Emu} e
          (λ (r, e'). e')
          (get_4byte_aligned_instr b e addr)
  unfolding get_4byte_aligned_instr
  fetched_zero Build.test =
      then_zero e (λ (r : (ℕ × ReturnException) × Bus). e) _ (Bus.load e.bus addr 32) _
        (record { kept = λ r g. refl }) (λ ((value, ex), bus'). done_zero e _ _ refl)
  fetched_zero Build.fuzz =
      then_zero e (λ (r : ℕ × ReturnException). e) _ (load_insn e.bus.mmu addr) _
        (record { kept = λ r g. refl }) (λ r. done_zero e _ _ refl)
  fetched_zero Build.plain =
      then_zero e (λ (r : ℕ × ReturnException). e) _ (load_insn e.bus.mmu addr) _
        (record { kept = λ r g. refl }) (λ r. done_zero e _ _ refl)
