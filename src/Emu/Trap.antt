-- ===== src/Emu/Trap.antt =====
-- Exceptions in src/VEmu.cpp, in the builds other than FUZZ_ENV: `trap`, the returns from it, the
-- calls of the environment (that of the build without TEST_ENV), and which exceptions are fatal.
use vemu.Common.{
  ℕ, ◌-◌, ◌*◌, ◌/◌, ◌^◌, bit_and, bit_or, Bool, true, false, ◌==◌, ltb, if◌then◌else◌, Outcome, ok,
  aborted, undefined, sub64,
}
use vemu.Isa.{Mode, ReturnException, cause_code}
use vemu.Emu.State.{Emu, Handled}
use vemu.Emu.Csr.{load_csr, store_csr}

abbrev pub mstatus : ℕ
mstatus = 0x300

abbrev pub medeleg : ℕ
medeleg = 0x302

abbrev pub mtvec : ℕ
mtvec = 0x305

abbrev pub mepc : ℕ
mepc = 0x341

abbrev pub mcause : ℕ
mcause = 0x342

abbrev pub mtval : ℕ
mtval = 0x343

abbrev pub sstatus : ℕ
sstatus = 0x100

abbrev pub stvec : ℕ
stvec = 0x105

abbrev pub sepc : ℕ
sepc = 0x141

abbrev pub scause : ℕ
scause = 0x142

abbrev pub stval : ℕ
stval = 0x143

-- `~m` of an `int`, extended to 64 bits, and `~m` of an `unsigned`, which is not.
abbrev pub not_int : ℕ → ℕ
not_int m = 2 ^ 64 - 1 - m

abbrev pub not_unsigned : ℕ → ℕ
not_unsigned m = 2 ^ 32 - 1 - m

-- `store_csr(c, load_csr(c) | m)` and `store_csr(c, load_csr(c) & m)`.
abbrev pub or_csr : ℕ → ℕ → (ℕ → ℕ) → ℕ → ℕ
or_csr c m csrs = store_csr csrs c (bit_or (load_csr csrs c) m)

abbrev pub and_csr : ℕ → ℕ → (ℕ → ℕ) → ℕ → ℕ
and_csr c m csrs = store_csr csrs c (bit_and (load_csr csrs c) m)

-- `(load_csr(c) >> k) & 1` as a condition.
abbrev pub csr_bit : (ℕ → ℕ) → ℕ → ℕ → Bool
csr_bit csrs c k = bit_and (load_csr csrs c / 2 ^ k) 1 == 1

-- The bit of a mode and the delegation: whether the exception goes to supervisor mode.
abbrev pub is_delegated : Emu → ℕ → Bool
is_delegated e cause = elim e.mode [ Mode.machine ↦ false | _ ↦ csr_bit e.csrs medeleg cause ]

-- The stores of SEPC, SCAUSE and STVAL, and those of MEPC, MCAUSE and MTVAL.
abbrev pub record_trap : ℕ → ℕ → ℕ → ℕ → ℕ → (ℕ → ℕ) → ℕ → ℕ
record_trap epc cause_csr tval pc cause csrs =
    store_csr (store_csr (store_csr csrs epc (bit_and pc (not_unsigned 1))) cause_csr cause) tval 0

-- SPIE becomes SIE, SIE becomes 0, and SPP tells the mode.
abbrev pub enter_supervisor : Mode → (ℕ → ℕ) → ℕ → ℕ
enter_supervisor prev_mode csrs =
    let c1 =
      if csr_bit csrs sstatus 1
      then or_csr sstatus (2 ^ 5) csrs
      else and_csr sstatus (not_unsigned (2 ^ 5)) csrs in
    let c2 = and_csr sstatus (not_unsigned (2 ^ 1)) c1 in
    elim prev_mode [
      | Mode.user ↦ and_csr sstatus (not_unsigned (2 ^ 8)) c2
      | _ ↦ or_csr sstatus (2 ^ 8) c2
    ]

-- MPIE becomes MIE, MIE becomes 0, and MPP tells the mode.
abbrev pub enter_machine : Mode → (ℕ → ℕ) → ℕ → ℕ
enter_machine prev_mode csrs =
    let c1 =
      if csr_bit csrs mstatus 3
      then or_csr mstatus (2 ^ 7) csrs
      else and_csr mstatus (not_unsigned (2 ^ 7)) csrs in
    let c2 = and_csr mstatus (not_unsigned (2 ^ 3)) c1 in
    elim prev_mode [
      | Mode.user ↦ and_csr mstatus (not_unsigned (3 * 2 ^ 11)) c2
      | Mode.supervisor ↦ or_csr mstatus (2 ^ 11) (and_csr mstatus (not_unsigned (2 ^ 12)) c2)
      | Mode.machine ↦ or_csr mstatus (3 * 2 ^ 11) c2
    ]

abbrev pub trap_supervisor : Emu → ℕ → Emu
trap_supervisor e cause = record e {
  mode = Mode.supervisor;
  pc = sub64 (bit_and (load_csr e.csrs stvec) (not_unsigned 1)) 4;
  csrs = enter_supervisor e.mode (record_trap sepc scause stval e.pc cause e.csrs);
}

abbrev pub trap_machine : Emu → ℕ → Emu
trap_machine e cause = record e {
  mode = Mode.machine;
  pc = sub64 (bit_and (load_csr e.csrs mtvec) (not_unsigned 1)) 4;
  csrs = enter_machine e.mode (record_trap mepc mcause mtval e.pc cause e.csrs);
}

-- MEDELEG is shifted by the code of the exception; C++ gives no meaning to a shift by 64 or more.
unfoldable pub trap : Emu → ReturnException → Outcome Emu
trap e ex =
    let cause = cause_code ex in
    if ltb cause 64
    then ok (if is_delegated e cause then trap_supervisor e cause else trap_machine e cause)
    else undefined

-- The stores of MRET to MSTATUS.
abbrev pub leave_machine : (ℕ → ℕ) → ℕ → ℕ
leave_machine csrs =
    let c1 =
      if csr_bit csrs mstatus 7
      then or_csr mstatus (2 ^ 3) csrs
      else and_csr mstatus (not_int (2 ^ 3)) csrs in
    and_csr mstatus (not_int (3 * 2 ^ 11)) (or_csr mstatus (2 ^ 7) c1)

-- The third test compares the two bits of MPP with 0x11, so that no value passes it.
unfoldable pub mret : Emu → Outcome Handled
mret e =
    let mb = bit_and (load_csr e.csrs mstatus / 2 ^ 11) 0b11 in
    let back : Mode → Outcome Handled = λ m. ok (
      ReturnException.normal_execution_return,
      record e { pc = sub64 (load_csr e.csrs mepc) 4; mode = m; csrs = leave_machine e.csrs },
    ) in
    if mb == 0x00
    then back Mode.user
    else if mb == 0x01
    then back Mode.supervisor
    else if mb == 0x11
    then back Mode.machine
    else aborted

-- The stores of SRET to SSTATUS.
abbrev pub leave_supervisor : (ℕ → ℕ) → ℕ → ℕ
leave_supervisor csrs =
    let c1 =
      if csr_bit csrs sstatus 5
      then or_csr sstatus (2 ^ 1) csrs
      else and_csr sstatus (not_int (2 ^ 1)) csrs in
    and_csr sstatus (not_int (2 ^ 8)) (or_csr sstatus (2 ^ 5) c1)

unfoldable pub sret : Emu → Handled
sret e =
    let mb = bit_and (load_csr e.csrs sstatus / 2 ^ 8) 0b1 in
    (
      ReturnException.normal_execution_return,
      record e {
        pc = sub64 (load_csr e.csrs sepc) 4;
        mode = if mb == 0x0 then Mode.user else Mode.supervisor;
        csrs = leave_supervisor e.csrs;
      },
    )

unfoldable pub ecall : Emu → Handled
ecall e = elim e.mode [
  | Mode.user ↦ (ReturnException.environment_call_from_user_mode, e)
  | Mode.supervisor ↦ (ReturnException.environment_call_from_supervisor_mode, e)
  | Mode.machine ↦ (ReturnException.environment_call_from_machine_mode, e)
]

unfoldable pub is_fatal : ReturnException → Bool
is_fatal ReturnException.load_access_fault = true
is_fatal ReturnException.instruction_access_fault = true
is_fatal ReturnException.instruction_address_misaligned = true
is_fatal ReturnException.store_amo_address_misaligned = true
is_fatal ReturnException.store_amo_access_fault = true
is_fatal _ = false
