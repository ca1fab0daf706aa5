-- ===== src/Emu/Delegated.antt =====
-- A trap of src/VEmu.cpp and the return from it, into supervisor mode first.
use vemu.Common.{
  ℕ, ◌*◌, ◌/◌, ◌%◌, ◌^◌, ◌<◌, ◌≡◌, ◌≢◌, refl, sym, ap, ◌∙◌, Bool, true, false, bit_and, bit_or,
  ◌==◌, if◌then◌else◌, ok, aborted, arith, sub64,
}
use vemu.Bits.{
  bit_at, bit_at-bit_and, bit_at-bit_or, bit_and_mask, bit_and_field, bit_at_lem, bit_at_small,
}
use vemu.Isa.{Mode, ReturnException, cause_code}
use vemu.Emu.State.{Emu}
use vemu.Emu.Csr.{load_csr, store_csr}
use vemu.Emu.Modes.{trap-mret}
use vemu.Emu.Trap.{
  trap, mret, sret, sstatus, sepc, scause, stval, is_delegated, trap_supervisor, enter_supervisor,
  leave_supervisor, not_unsigned, not_int, record_trap, csr_bit,
}

-- A field of one bit, as the source reads it.
read_bit : (k x : ℕ) → bit_and (x / 2 ^ k) 1 ≡ bit_at k x
read_bit k x = bit_and_mask 1 (x / 2 ^ k) ∙ sym (bit_at_lem k x)

-- SSTATUS after a trap from a mode: SPIE is `sie`, SIE is cleared, and SPP tells the mode.
abbrev with_spie : Bool → ℕ → ℕ
with_spie sie x = if sie then bit_or x (2 ^ 5) else bit_and x (not_unsigned (2 ^ 5))

abbrev entered : Mode → Bool → ℕ → ℕ
entered Mode.user sie x =
    bit_and (bit_and (with_spie sie x) (not_unsigned (2 ^ 1))) (not_unsigned (2 ^ 8))
entered _ sie x = bit_or (bit_and (with_spie sie x) (not_unsigned (2 ^ 1))) (2 ^ 8)

-- SSTATUS after the return, by SPIE.
abbrev left : Bool → ℕ → ℕ
left spie x =
    bit_and (bit_or (if spie then bit_or x (2 ^ 1) else bit_and x (not_int (2 ^ 1))) (2 ^ 5))
      (not_int (2 ^ 8))

abbrev bit_of : Bool → ℕ
bit_of b = if b then 1 else 0

spie_bit : (sie : Bool) (x : ℕ) → bit_at 5 (with_spie sie x) ≡ bit_of sie
spie_bit true x = omega (arith, bit_at-bit_or 5 x (2 ^ 5), bit_at_small 5 x)
spie_bit false x = omega (arith, bit_at-bit_and 5 x (not_unsigned (2 ^ 5)))

module _ (sie : Bool) (x : ℕ) where
  abbrev y : ℕ
  y = with_spie sie x

  abbrev z : ℕ
  z = bit_and y (not_unsigned (2 ^ 1))

  kept_spie : bit_at 5 z ≡ bit_of sie
  kept_spie =
      omega (arith, bit_at-bit_and 5 y (not_unsigned (2 ^ 1)), spie_bit sie x, bit_at_small 5 y)

  entered_spie : (m : Mode) → bit_at 5 (entered m sie x) ≡ bit_of sie
  entered_spie Mode.user =
      omega (arith, bit_at-bit_and 5 z (not_unsigned (2 ^ 8)), kept_spie, bit_at_small 5 z)
  entered_spie Mode.supervisor =
      omega (arith, bit_at-bit_or 5 z (2 ^ 8), kept_spie, bit_at_small 5 z)
  entered_spie Mode.machine = omega (arith, bit_at-bit_or 5 z (2 ^ 8), kept_spie, bit_at_small 5 z)

  entered_sie : (m : Mode) → bit_at 1 (entered m sie x) ≡ 0
  entered_sie Mode.user =
      omega (
        arith,
        bit_at-bit_and 1 z (not_unsigned (2 ^ 8)),
        bit_at-bit_and 1 y (not_unsigned (2 ^ 1)),
      )
  entered_sie Mode.supervisor =
      omega (arith, bit_at-bit_or 1 z (2 ^ 8), bit_at-bit_and 1 y (not_unsigned (2 ^ 1)))
  entered_sie Mode.machine =
      omega (arith, bit_at-bit_or 1 z (2 ^ 8), bit_at-bit_and 1 y (not_unsigned (2 ^ 1)))

left_sie : (spie : Bool) (x : ℕ) → bit_at 1 (left spie x) ≡ bit_of spie
left_sie true x = omega (
  arith,
  bit_at-bit_and 1 (bit_or (bit_or x (2 ^ 1)) (2 ^ 5)) (not_int (2 ^ 8)),
  bit_at-bit_or 1 (bit_or x (2 ^ 1)) (2 ^ 5),
  bit_at-bit_or 1 x (2 ^ 1),
  bit_at_small 1 x,
)
left_sie false x = omega (
  arith,
  bit_at-bit_and 1 (bit_or (bit_and x (not_int (2 ^ 1))) (2 ^ 5)) (not_int (2 ^ 8)),
  bit_at-bit_or 1 (bit_and x (not_int (2 ^ 1))) (2 ^ 5),
  bit_at-bit_and 1 x (not_int (2 ^ 1)),
)

-- The registers of the source hold these.
enter_lem :
    (m : Mode) (csrs : ℕ → ℕ)
    → load_csr (enter_supervisor m csrs) sstatus ≡ entered m (csr_bit csrs sstatus 1) (csrs sstatus)
unfolding load_csr store_csr
enter_lem Mode.user csrs = ground arith
enter_lem Mode.supervisor csrs = ground arith
enter_lem Mode.machine csrs = ground arith

leave_lem :
    (csrs : ℕ → ℕ)
    → load_csr (leave_supervisor csrs) sstatus ≡ left (csr_bit csrs sstatus 5) (csrs sstatus)
unfolding load_csr store_csr
leave_lem csrs = ground arith

-- The return address and the cause are stored before SSTATUS.
enter_rest :
    (m : Mode) (csrs : ℕ → ℕ)
    → (load_csr (enter_supervisor m csrs) sepc ≡ csrs sepc)
      × (load_csr (enter_supervisor m csrs) scause ≡ csrs scause)
unfolding load_csr store_csr
enter_rest Mode.user csrs = (ground arith, ground arith)
enter_rest Mode.supervisor csrs = (ground arith, ground arith)
enter_rest Mode.machine csrs = (ground arith, ground arith)

recorded :
    (pc cause : ℕ) (csrs : ℕ → ℕ)
    → (record_trap sepc scause stval pc cause csrs sepc ≡ bit_and pc (not_unsigned 1))
      × (record_trap sepc scause stval pc cause csrs scause ≡ cause)
      × (csr_bit (record_trap sepc scause stval pc cause csrs) sstatus 1 ≡ csr_bit csrs sstatus 1)
unfolding load_csr store_csr
recorded pc cause csrs = (refl, refl, refl)

-- A bit of a register as a test.
bit_test :
    (csrs : ℕ → ℕ) (c k : ℕ) (b : Bool)
    → bit_at k (load_csr csrs c) ≡ bit_of b
    → csr_bit csrs c k ≡ b
bit_test csrs c k true h = ground (arith, read_bit k (load_csr csrs c))
bit_test csrs c k false h = ground (arith, read_bit k (load_csr csrs c))

-- SSTATUS after a trap and after the return from it.
module _ (m : Mode) (c : ℕ → ℕ) where
  abbrev trapped : ℕ → ℕ
  trapped = enter_supervisor m c

  abbrev sie_before : Bool
  sie_before = csr_bit c sstatus 1

  trapped_off : csr_bit trapped sstatus 1 ≡ false
  trapped_off =
      bit_test trapped sstatus 1 false
        (ap (bit_at 1) (enter_lem m c) ∙ entered_sie sie_before (c sstatus) m)

  trapped_spie : csr_bit trapped sstatus 5 ≡ sie_before
  trapped_spie =
      bit_test trapped sstatus 5 sie_before
        (ap (bit_at 5) (enter_lem m c) ∙ entered_spie sie_before (c sstatus) m)

  restored_sie : csr_bit (leave_supervisor trapped) sstatus 1 ≡ sie_before
  restored_sie = bit_test (leave_supervisor trapped) sstatus 1 sie_before (
      ap (bit_at 1) (leave_lem trapped)
      ∙ left_sie (csr_bit trapped sstatus 5) (trapped sstatus)
      ∙ ap bit_of trapped_spie)

-- SPP is 0 after a trap from user mode, and 1 otherwise.
spp_user : (c : ℕ → ℕ) → bit_and (load_csr (trapped Mode.user c) sstatus / 2 ^ 8) 1 ≡ 0
spp_user c =
    let w = bit_and (with_spie (csr_bit c sstatus 1) (c sstatus)) (not_unsigned (2 ^ 1)) in
    ap (λ (x : ℕ). bit_and (x / 2 ^ 8) 1) (enter_lem Mode.user c)
    ∙ omega (
      arith,
      read_bit 8 (bit_and w (not_unsigned (2 ^ 8))),
      bit_at-bit_and 8 w (not_unsigned (2 ^ 8)),
    )

spp_supervisor : (c : ℕ → ℕ) → bit_and (load_csr (trapped Mode.supervisor c) sstatus / 2 ^ 8) 1 ≡ 1
spp_supervisor c =
    let w = bit_and (with_spie (csr_bit c sstatus 1) (c sstatus)) (not_unsigned (2 ^ 1)) in
    ap (λ (x : ℕ). bit_and (x / 2 ^ 8) 1) (enter_lem Mode.supervisor c)
    ∙ omega (arith, read_bit 8 (bit_or w (2 ^ 8)), bit_at-bit_or 8 w (2 ^ 8), bit_at_small 8 w)

restored_mode :
    (m : Mode) (c : ℕ → ℕ)
    → m ≢ Mode.machine
    → (if bit_and (load_csr (trapped m c) sstatus / 2 ^ 8) 1 == 0
        then Mode.user
        else Mode.supervisor)
      ≡ m
restored_mode Mode.user c low = rw (spp_user c) refl
restored_mode Mode.supervisor c low = rw (spp_supervisor c) refl
restored_mode Mode.machine c low = absurd (low refl)

not_from_machine : (e : Emu) (cause : ℕ) → is_delegated e cause ≡ true → e.mode ≢ Mode.machine
not_from_machine e cause delegated from_machine = ground arith

trap-sret :
    (e : Emu) (ex : ReturnException)
    → cause_code ex < 64
    → is_delegated e (cause_code ex) ≡ true
    → (e1 : Emu) × (trap e ex ≡ ok e1)
      × (e1.mode ≡ Mode.supervisor)
      × (load_csr e1.csrs scause ≡ cause_code ex)
      × (csr_bit e1.csrs sstatus 1 ≡ false)
      × ((sret e1).0 ≡ ReturnException.normal_execution_return)
      × ((sret e1).1.mode ≡ e.mode)
      × (csr_bit (sret e1).1.csrs sstatus 1 ≡ csr_bit e.csrs sstatus 1)
      × ((sret e1).1.pc ≡ sub64 (e.pc % 2 ^ 32 / 2 * 2) 4)
unfolding trap sret
trap-sret e ex small delegated =
    let e1 = trap_supervisor e (cause_code ex) in
    let cause = cause_code ex in
    let c = record_trap sepc scause stval e.pc cause e.csrs in
    let rest = enter_rest e.mode c in
    let kept = recorded e.pc cause e.csrs in
    (
      e1,
      ground arith,
      refl,
      rest.1 ∙ kept.1,
      trapped_off e.mode c,
      refl,
      restored_mode e.mode c (not_from_machine e cause delegated),
      restored_sie e.mode c ∙ kept.2,
      ap (λ (x : ℕ). sub64 x 4) (rest.0 ∙ kept.0 ∙ omega (arith, bit_and_field 1 31 e.pc)),
    )

-- An exception with one of the codes that MEDELEG can be shifted by goes to machine mode if it is not
-- delegated. MRET in the state after it restores the mode before it, user or supervisor, and the
-- address of the instruction, of which only the low 32 bits without the lowest are left, less the 4
-- that `run` adds; but if the mode was machine mode, MRET fails its assertion. If the exception is
-- delegated, it goes to supervisor mode with its code in SCAUSE and interrupts off (SIE of SSTATUS is
-- 0), and SRET in the state after it returns no exception and restores the mode before it, whether
-- interrupts were on, and the same part of the address.
pub returns_lem :
    (e : Emu) (ex : ReturnException)
    → cause_code ex < 64
    → (is_delegated e (cause_code ex) ≡ false
        → (e1 : Emu) × (trap e ex ≡ ok e1)
          × (e1.mode ≡ Mode.machine)
          × (e.mode ≢ Mode.machine
              → (e2 : Emu) × (mret e1 ≡ ok (ReturnException.normal_execution_return, e2))
                × (e2.mode ≡ e.mode)
                × (e2.pc ≡ sub64 (e.pc % 2 ^ 32 / 2 * 2) 4))
          × (e.mode ≡ Mode.machine → mret e1 ≡ aborted))
      × (is_delegated e (cause_code ex) ≡ true
          → (e1 : Emu) × (trap e ex ≡ ok e1)
            × (e1.mode ≡ Mode.supervisor)
            × (load_csr e1.csrs scause ≡ cause_code ex)
            × (csr_bit e1.csrs sstatus 1 ≡ false)
            × ((sret e1).0 ≡ ReturnException.normal_execution_return)
            × ((sret e1).1.mode ≡ e.mode)
            × (csr_bit (sret e1).1.csrs sstatus 1 ≡ csr_bit e.csrs sstatus 1)
            × ((sret e1).1.pc ≡ sub64 (e.pc % 2 ^ 32 / 2 * 2) 4))
returns_lem e ex small = (trap-mret e ex small, trap-sret e ex small)
