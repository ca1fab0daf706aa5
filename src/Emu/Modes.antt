-- ===== src/Emu/Modes.antt =====
-- A trap of src/VEmu.cpp and the return from it.
use vemu.Common.{
  ℕ, ◌+◌, ◌*◌, ◌/◌, ◌%◌, ◌^◌, ◌<◌, ◌≡◌, ◌≢◌, refl, ap, ◌∙◌, false, bit_and, bit_or, Outcome, ok,
  aborted, arith, sub64,
}
use vemu.Bits.{bit_at, bit_at-bit_and, bit_at-bit_or, bit_and_mask, bit_and_field}
use vemu.Isa.{Mode, mode_bits, ReturnException, cause_code}
use vemu.Emu.State.{Emu, Handled, reg1}
use vemu.Emu.Csr.{load_csr, store_csr, csrrc, csr_addr, csr_sie}
use vemu.Emu.Trap.{
  trap, mret, mstatus, mepc, mcause, mtval, is_delegated, trap_machine, enter_machine,
  leave_machine, not_unsigned, record_trap,
}

-- The field MPP of MSTATUS, as MRET reads it.
abbrev mpp : (ℕ → ℕ) → ℕ
mpp csrs = bit_and (load_csr csrs mstatus / 2 ^ 11) 0b11

-- MPP by its bits.
mpp_bits : (x : ℕ) → bit_and (x / 2 ^ 11) 0b11 ≡ bit_at 12 x * 2 + bit_at 11 x
mpp_bits x = omega (arith, bit_and_mask 2 (x / 2 ^ 11))

field_user : (y : ℕ) → bit_and (bit_and y (not_unsigned (3 * 2 ^ 11)) / 2 ^ 11) 0b11 ≡ 0
field_user y =
    let m = not_unsigned (3 * 2 ^ 11) in
    omega (arith, mpp_bits (bit_and y m), bit_at-bit_and 11 y m, bit_at-bit_and 12 y m)

field_supervisor :
    (y : ℕ) → bit_and (bit_or (bit_and y (not_unsigned (2 ^ 12))) (2 ^ 11) / 2 ^ 11) 0b11 ≡ 1
field_supervisor y =
    let m = not_unsigned (2 ^ 12) in
    let x = bit_and y m in
    omega (
      arith,
      mpp_bits (bit_or x (2 ^ 11)),
      bit_at-bit_or 11 x (2 ^ 11),
      bit_at-bit_or 12 x (2 ^ 11),
      bit_at-bit_and 12 y m,
    )

field_machine : (y : ℕ) → bit_and (bit_or y (3 * 2 ^ 11) / 2 ^ 11) 0b11 ≡ 3
field_machine y =
    let m = 3 * 2 ^ 11 in
    omega (arith, mpp_bits (bit_or y m), bit_at-bit_or 11 y m, bit_at-bit_or 12 y m)

-- After a trap into machine mode MPP holds the mode before it.
trapped_mpp : (m : Mode) (csrs : ℕ → ℕ) → mpp (enter_machine m csrs) ≡ mode_bits m
unfolding load_csr store_csr
trapped_mpp Mode.user csrs = field_user _
trapped_mpp Mode.supervisor csrs = field_supervisor _
trapped_mpp Mode.machine csrs = field_machine _

-- The status is stored after MEPC.
trapped_mepc :
    (m : Mode) (pc cause : ℕ) (csrs : ℕ → ℕ)
    → load_csr (enter_machine m (record_trap mepc mcause mtval pc cause csrs)) mepc
      ≡ bit_and pc (not_unsigned 1)
unfolding load_csr store_csr
trapped_mepc Mode.user pc cause csrs = ground arith
trapped_mepc Mode.supervisor pc cause csrs = ground arith
trapped_mepc Mode.machine pc cause csrs = ground arith

-- What MRET does by the value of MPP.
abbrev returned : Emu → Mode → Emu
returned e m = record e {
  pc = sub64 (load_csr e.csrs mepc) 4;
  mode = m;
  csrs = leave_machine e.csrs;
}

mret_lem :
    (e : Emu) (m : Mode)
    → mpp e.csrs ≡ mode_bits m
    → mret e ≡ (elim m [
      | Mode.machine ↦ aborted
      | other ↦ ok (ReturnException.normal_execution_return, returned e other)
    ])
unfolding mret
mret_lem e Mode.user h = rw h refl
mret_lem e Mode.supervisor h = rw h refl
mret_lem e Mode.machine h = rw h refl

-- An exception that is not delegated, with one of the codes that MEDELEG can be shifted by, goes to
-- machine mode. MRET in the state after it restores the mode before it, user or supervisor, and the
-- address of the instruction, of which only the low 32 bits without the lowest are left, less the 4
-- that `run` adds; but if the mode was machine mode, MRET fails its assertion.
pub trap-mret :
    (e : Emu) (ex : ReturnException)
    → cause_code ex < 64
    → is_delegated e (cause_code ex) ≡ false
    → (e1 : Emu) × (trap e ex ≡ ok e1)
      × (e1.mode ≡ Mode.machine)
      × (e.mode ≢ Mode.machine
          → (e2 : Emu) × (mret e1 ≡ ok (ReturnException.normal_execution_return, e2))
            × (e2.mode ≡ e.mode)
            × (e2.pc ≡ sub64 (e.pc % 2 ^ 32 / 2 * 2) 4))
      × (e.mode ≡ Mode.machine → mret e1 ≡ aborted)
unfolding trap
trap-mret e ex small kept =
    let e1 = trap_machine e (cause_code ex) in
    let status = record_trap mepc mcause mtval e.pc (cause_code ex) e.csrs in
    let back = mret_lem e1 e.mode (trapped_mpp e.mode status) in
    let pc_lem : load_csr e1.csrs mepc ≡ e.pc % 2 ^ 32 / 2 * 2 =
      trapped_mepc e.mode e.pc (cause_code ex) e.csrs ∙ omega (arith, bit_and_field 1 31 e.pc) in
    (
      e1,
      ground arith,
      refl,
      λ low. (
        returned e1 e.mode,
        back ∙ unprivileged e.mode low,
        refl,
        ap (λ (x : ℕ). sub64 x 4) pc_lem,
      ),
      λ high. back ∙ ap (λ (m : Mode). choice m) high,
    )
  where
    e1' : Emu
    e1' = trap_machine e (cause_code ex)

    choice : Mode → Outcome Handled
    choice m = elim m [
      | Mode.machine ↦ aborted
      | other ↦ ok (ReturnException.normal_execution_return, returned e1' other)
    ]

    unprivileged :
        (m : Mode)
        → m ≢ Mode.machine
        → choice m ≡ ok (ReturnException.normal_execution_return, returned e1' m)
    unprivileged Mode.user low = refl
    unprivileged Mode.supervisor low = refl
    unprivileged Mode.machine low = absurd (low refl)

-- CSRRC with any bit set in `rs1` clears every bit of a register other than SIE, since it takes `!`
-- of the mask, not its complement.
csrrc_clears :
    (e : Emu) → csr_addr e ≢ csr_sie → reg1 e ≢ 0 → load_csr (csrrc e).1.csrs (csr_addr e) ≡ 0
unfolding csrrc load_csr store_csr
csrrc_clears e other some_bits = ground (arith, bit_and_mask 0 (e.csrs (csr_addr e)))
