-- ===== src/Emu/Priority.antt =====
-- Which interrupt `check_pending_interrupt` of src/VEmu.cpp gives.
use native.Mathlib.Nat.{pow-succ'}
use vemu.Common.{
  ℕ, zero, suc, ◌-◌, ◌*◌, ◌/◌, ◌^◌, ◌<◌, ◌==◌, not, min, arith, bit_and, ◌≡◌, refl, ap, sym, ◌∙◌,
  ◌⊎◌, ◌↔◌, inl, inr, Bool, true, false, List, [], ◌∷◌, ok, update, Bool-cases,
}
use vemu.Bits.{bit_at, bit_at_lem, bit_at-bit_and, bit_and_field, bit_and_mask, bit_at_small}
use vemu.Isa.{Mode, Interrupt}
use vemu.Emu.Csr.{load_csr, store_csr}
use vemu.Emu.State.{Emu}
use vemu.Emu.Interrupt.{
  is_masked, is_pending, poll_uart, first_pending, priorities, check_pending_interrupt,
}

-- Machine mode masks interrupts where MIE (bit 3) of MSTATUS (0x300) is 0, and supervisor mode where SIE
-- (bit 1) of SSTATUS (0x100) is 0.
abbrev pub Masks : Emu → Type 0
Masks e =
    ((e.mode ≡ Mode.machine) × (bit_at 3 (e.csrs 0x300) ≡ 0))
    ⊎ ((e.mode ≡ Mode.supervisor) × (bit_at 1 (e.csrs 0x100) ≡ 0))

-- A bit is set both in MIE (0x304) and in MIP (0x344).
abbrev pub Waits : Emu → ℕ → Type 0
Waits e pos = (bit_at pos (e.csrs 0x304) ≡ 1) × (bit_at pos (e.csrs 0x344) ≡ 1)

-- The bit is cleared in MIP, of which the low 32 bits are left.
abbrev pub cleared : Emu → ℕ → Emu
cleared e pos = record e {
  csrs = update e.csrs 0x344 (bit_and (e.csrs 0x344) (2 ^ 32 - 1 - 2 ^ pos));
}

-- The answer in the state `e`: external, software and timer interrupts of machine mode, in this order,
-- and then those of supervisor mode.
abbrev pub Answers : Emu → Interrupt × Emu → Type 0
Answers e r =
    (Waits e 11 → r ≡ (Interrupt.machine_external_interrupt, cleared e 11))
    × ((¬ Waits e 11) → Waits e 3 → r ≡ (Interrupt.machine_software_interrupt, cleared e 3))
    × ((¬ Waits e 11)
        → (¬ Waits e 3)
        → Waits e 7
        → r ≡ (Interrupt.machine_timer_interrupt, cleared e 7))
    × ((¬ Waits e 11)
        → (¬ Waits e 3)
        → (¬ Waits e 7)
        → (Waits e 9 → r ≡ (Interrupt.supervisor_external_interrupt, cleared e 9))
          × ((¬ Waits e 9) → Waits e 1 → r ≡ (Interrupt.supervisor_software_interrupt, cleared e 1))
          × ((¬ Waits e 9)
              → (¬ Waits e 1)
              → Waits e 5
              → r ≡ (Interrupt.supervisor_timer_interrupt, cleared e 5))
          × ((¬ Waits e 9) → (¬ Waits e 1) → (¬ Waits e 5) → r ≡ (Interrupt.no_interrupt, e)))

is_masked_iff : (e : Emu) → (is_masked e ≡ true) ↔ Masks e
unfolding load_csr
is_masked_iff e = go e.mode refl
  where
    read : (k x : ℕ) → bit_and (x / 2 ^ k) 1 ≡ bit_at k x
    read k x = bit_and_mask 1 (x / 2 ^ k) ∙ sym (bit_at_lem k x)

    go : (m : Mode) → e.mode ≡ m → (is_masked e ≡ true) ↔ Masks e
    go Mode.machine same = rw same (ground (arith, read 3 (e.csrs 0x300)))
    go Mode.supervisor same = rw same (ground (arith, read 1 (e.csrs 0x100)))
    go Mode.user same = rw same (ground arith)

single_bit : (k x : ℕ) → bit_and x (2 ^ k) ≡ bit_at k x * 2 ^ k
single_bit k x =
    ap (bit_and x) {x = 2 ^ k} {y = (2 ^ 1 - 1) * 2 ^ k} (omega arith)
    ∙ bit_and_field k 1 x
    ∙ ap (λ (d : ℕ). d * 2 ^ k) (sym (bit_at_lem k x))

power_positive : (k : ℕ) → 0 < 2 ^ k
power_positive zero = omega arith
power_positive (suc k) = omega (arith, pow-succ' 2 k, power_positive k)

digit_test : (d n : ℕ) → d < 2 → 0 < n → (not (d * n == 0) ≡ true) ↔ (d ≡ 1)
digit_test zero n h p = ground arith
digit_test (suc zero) n h p = ground arith
digit_test (suc (suc d)) n h p = absurd (omega arith)

both_digits : (a b : ℕ) → a < 2 → b < 2 → (min a b ≡ 1) ↔ ((a ≡ 1) × (b ≡ 1))
both_digits a b p q = ground arith

is_pending_iff : (e : Emu) (pos : ℕ) → (is_pending e pos ≡ true) ↔ Waits e pos
unfolding load_csr
is_pending_iff e pos =
    let a = e.csrs 0x304 in
    let b = e.csrs 0x344 in
    let test =
      digit_test (bit_at pos (bit_and a b)) (2 ^ pos) (bit_at_small pos (bit_and a b))
        (power_positive pos) in
    let digits =
      both_digits (bit_at pos a) (bit_at pos b) (bit_at_small pos a) (bit_at_small pos b) in
    let same = single_bit pos (bit_and a b) in
    (
      λ h. digits.0 (sym (bit_at-bit_and pos a b) ∙ test.0 (rw (← same) h)),
      λ w. rw same (test.1 (bit_at-bit_and pos a b ∙ digits.1 w)),
    )

module _ (e : Emu) (pos : ℕ) (i : Interrupt) (rest : List (ℕ × Interrupt)) where
  first : Waits e pos → first_pending e ((pos, i) ∷ rest) ≡ (i, cleared e pos)
  unfolding first_pending load_csr store_csr
  first now = rw ((is_pending_iff e pos).1 now) refl

  later : (¬ Waits e pos) → first_pending e ((pos, i) ∷ rest) ≡ first_pending e rest
  unfolding first_pending
  later idle = elim (Bool-cases (is_pending e pos)) [
    | inl now ↦ absurd (idle ((is_pending_iff e pos).0 now))
    | inr not_now ↦ rw not_now refl
  ]

no_more : (e : Emu) → first_pending e [] ≡ (Interrupt.no_interrupt, e)
unfolding first_pending
no_more e = refl

-- The six tests, one after the other.
answers : (e : Emu) → Answers e (first_pending e priorities)
answers e = (
  first e 11 _ _,
  λ n11. λ w. later e 11 _ _ n11 ∙ first e 3 _ _ w,
  λ n11 n3. λ w. later e 11 _ _ n11 ∙ later e 3 _ _ n3 ∙ first e 7 _ _ w,
  λ n11 n3 n7.
      let rest = later e 11 _ _ n11 ∙ later e 3 _ _ n3 ∙ later e 7 _ _ n7 in
      (
        λ w. rest ∙ first e 9 _ _ w,
        λ n9 w. rest ∙ later e 9 _ _ n9 ∙ first e 1 _ _ w,
        λ n9 n1 w. rest ∙ later e 9 _ _ n9 ∙ later e 1 _ _ n1 ∙ first e 5 _ _ w,
        λ n9 n1 n5. rest ∙ later e 9 _ _ n9 ∙ later e 1 _ _ n1 ∙ later e 5 _ _ n5 ∙ no_more e,
      ),
)

-- In a mode that masks interrupts `check_pending_interrupt` finds none and does nothing. Otherwise, once
-- the UART has been asked, it finds the first that is both enabled and pending of: the external,
-- software and timer interrupt of machine mode, and the external, software and timer interrupt of
-- supervisor mode; it clears its bit of MIP, of which only the low 32 bits are left, and changes
-- nothing else. If there is none it finds none and changes nothing.
pub check_pending_interrupt_lem :
    (e e1 : Emu)
    → poll_uart e ≡ ok e1
    → (Masks e → check_pending_interrupt e ≡ ok (Interrupt.no_interrupt, e))
      × ((¬ Masks e) → (r : Interrupt × Emu) × (check_pending_interrupt e ≡ ok r) × Answers e1 r)
unfolding check_pending_interrupt
check_pending_interrupt_lem e e1 polled = (
  λ masks. rw ((is_masked_iff e).1 masks) refl,
  λ open_mask. (first_pending e1 priorities, go (is_masked e) refl open_mask, answers e1),
)
  where
    go :
        (b : Bool)
        → is_masked e ≡ b
        → (¬ Masks e)
        → check_pending_interrupt e ≡ ok (first_pending e1 priorities)
    go true masked not_masks = absurd (not_masks ((is_masked_iff e).0 masked))
    go false open_mask not_masks = rw (open_mask, polled) refl
