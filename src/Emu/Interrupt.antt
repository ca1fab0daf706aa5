-- ===== src/Emu/Interrupt.antt =====
-- Interrupts in src/VEmu.cpp, in the builds other than FUZZ_ENV: `check_pending_interrupt` and
-- `take_interrupt`.
use vemu.Common.{
  ℕ, ◌*◌, ◌^◌, bit_and, bit_or, Bool, false, none, some, List, [], ◌∷◌, ◌==◌, ltb, not,
  if◌then◌else◌, Outcome, ok, undefined, ◌>>=◌, add64, sub64, u64,
}
use vemu.Isa.{Mode, Interrupt, interrupt_code}
use vemu.Devices.Plic.{plic_sclaim}
use vemu.Bus
use vemu.Bus.{Bus, uart_is_interrupting}
use vemu.Emu.State.{Emu}
use vemu.Emu.Csr.{load_csr}
use vemu.Emu.Trap.{
  mstatus, mtvec, mepc, mcause, mtval, sstatus, stvec, sepc, scause, stval, not_unsigned, or_csr,
  and_csr, csr_bit, is_delegated, record_trap, enter_supervisor, enter_machine,
}

abbrev pub mie : ℕ
mie = 0x304

abbrev pub mip : ℕ
mip = 0x344

-- Machine mode looks at MIE of MSTATUS, supervisor mode at SIE of SSTATUS.
abbrev pub is_masked : Emu → Bool
is_masked e = elim e.mode [
  | Mode.machine ↦ not (csr_bit e.csrs mstatus 3)
  | Mode.supervisor ↦ not (csr_bit e.csrs sstatus 1)
  | Mode.user ↦ false
]

-- `bus.store(PLIC_SCLAIM, 32, irq)`, with the number of the interrupt where the size belongs; what it
-- returns is dropped. Then SEIP of MIP is set.
unfoldable pub claim_uart : Emu → Bool → Outcome Emu
unfolding Bus.store
claim_uart e irq =
    if irq
    then (Bus.store e.bus plic_sclaim 32 10 >>= λ (ex, bus').
        ok (record e { bus = bus'; csrs = or_csr mip (2 ^ 9) e.csrs }))
    else ok e

-- Every build that checks for interrupts has the devices.
unfoldable pub poll_uart : Emu → Outcome Emu
unfolding uart_is_interrupting claim_uart
poll_uart e = elim e.bus.devices [
  | none ↦ undefined
  | some d ↦
      let (irq, bus') = uart_is_interrupting e.bus d in claim_uart (record e { bus = bus' }) irq
]

-- An interrupt that is both enabled and pending.
abbrev pub is_pending : Emu → ℕ → Bool
is_pending e pos =
    not (bit_and (bit_and (load_csr e.csrs mie) (load_csr e.csrs mip)) (2 ^ pos) == 0)

-- The six tests, in the order of the source, with the bit that each clears in MIP.
abbrev pub priorities : List (ℕ × Interrupt)
priorities =
    (11, Interrupt.machine_external_interrupt)
    ∷ (3, Interrupt.machine_software_interrupt)
    ∷ (7, Interrupt.machine_timer_interrupt)
    ∷ (9, Interrupt.supervisor_external_interrupt)
    ∷ (1, Interrupt.supervisor_software_interrupt)
    ∷ (5, Interrupt.supervisor_timer_interrupt)
    ∷ []

unfoldable pub first_pending : Emu → List (ℕ × Interrupt) → Interrupt × Emu
first_pending e [] = (Interrupt.no_interrupt, e)
first_pending e ((pos, i) ∷ rest) =
    let next = first_pending e rest in
    if is_pending e pos
    then (i, record e { csrs = and_csr mip (not_unsigned (2 ^ pos)) e.csrs })
    else next

unfoldable pub check_pending_interrupt : Emu → Outcome (Interrupt × Emu)
unfolding first_pending poll_uart
check_pending_interrupt e =
    if is_masked e
    then ok (Interrupt.no_interrupt, e)
    else (poll_uart e >>= λ e'. ok (first_pending e' priorities))

-- `(1ULL << 63ULL) | static_cast<uint64_t>(i)`.
abbrev pub interrupt_cause : Interrupt → ℕ
interrupt_cause i = bit_or (2 ^ 63) (interrupt_code i)

-- The vectored mode of STVEC and MTVEC: `4 * cause` wraps round at 64 bits.
abbrev pub vector : (ℕ → ℕ) → ℕ → ℕ → ℕ
vector csrs tvec cause = if csr_bit csrs tvec 0 then u64 (4 * cause) else 0

abbrev pub handler_pc : (ℕ → ℕ) → ℕ → ℕ → ℕ
handler_pc csrs tvec cause =
    sub64 (add64 (bit_and (load_csr csrs tvec) (not_unsigned 1)) (vector csrs tvec cause)) 4

abbrev pub interrupt_supervisor : Emu → ℕ → Emu
interrupt_supervisor e cause = record e {
  mode = Mode.supervisor;
  pc = handler_pc e.csrs stvec cause;
  csrs = enter_supervisor e.mode (record_trap sepc scause stval e.pc cause e.csrs);
}

abbrev pub interrupt_machine : Emu → ℕ → Emu
interrupt_machine e cause = record e {
  mode = Mode.machine;
  pc = handler_pc e.csrs mtvec cause;
  csrs = enter_machine e.mode (record_trap mepc mcause mtval e.pc cause e.csrs);
}

-- MEDELEG is shifted by the cause; C++ gives no meaning to a shift by 64 or more, and with bit 63 set
-- every cause is such. What a compiler makes of the shift decides where the interrupt goes.
unfoldable pub take_interrupt : Emu → Interrupt → Outcome Emu
take_interrupt e i =
    let cause = interrupt_cause i in
    if ltb cause 64
    then ok
        (if is_delegated e cause then interrupt_supervisor e cause else interrupt_machine e cause)
    else undefined
