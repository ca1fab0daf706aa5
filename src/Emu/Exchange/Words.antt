-- ===== src/Emu/Exchange/Words.antt =====
-- The atomic memory operations of src/VEmu.cpp on words of 32 bits, in the build without devices.
use vemu.Common.{
  ℕ, ◌+◌, ◌%◌, ◌^◌, ◌<◌, ◌≡◌, refl, ◌∙◌, bit_and, bit_or, bit_xor, min, max, ltb, ltb_ℤ, signed64,
  if◌then◌else◌, arith, sext32, u32, Bool, true, false,
}
use vemu.Bits.{bit_and_mask}
use vemu.Bits.Masks.{bit_and-mod, bit_or-mod, bit_xor-mod}
use vemu.Mmu.RoundTrip.{Width}
use vemu.Emu.State.{Emu, reg2}
use vemu.Emu.Atomic.{
  amoswapw, amoaddw, amoandw, amoorw, amoxorw, amominw, amomaxw, amominuw, amomaxuw, amo_w, amo_wu,
}
use vemu.Emu.Exchange.{
  Exchanges, IsReady, exchange, IsLeast, IsGreatest, least, greatest, least-IsLeast,
  greatest-IsGreatest,
}

sext32-mod : (x : ℕ) → x < 2 ^ 32 → sext32 x % 2 ^ 32 ≡ x
sext32-mod x h = ground arith

extended_choice :
    (b : Bool) (x y : ℕ) → sext32 (if b then x else y) ≡ (if b then sext32 x else sext32 y)
extended_choice true x y = refl
extended_choice false x y = refl

module _ (e : Emu) (old : ℕ) (ready : IsReady Width.word e old) where
  -- The second operand, and the two with their signs extended.
  abbrev operand : ℕ
  operand = reg2 e % 2 ^ 32

  abbrev first : ℕ
  first = sext32 (bit_and old 0xffffffff)

  abbrev second : ℕ
  second = sext32 (bit_and (reg2 e) 0xffffffff)

  masked_first : bit_and old 0xffffffff ≡ old
  masked_first = omega (arith, bit_and_mask 32 old, ready.fits)

  masked_second : bit_and (reg2 e) 0xffffffff ≡ operand
  masked_second = bit_and_mask 32 (reg2 e)

  extended_first : first ≡ sext32 old
  extended_first = rw masked_first refl

  extended_second : second ≡ sext32 operand
  extended_second = rw masked_second refl

  low_first : first % 2 ^ 32 ≡ old
  low_first = rw extended_first (sext32-mod old ready.fits)

  low_second : second % 2 ^ 32 ≡ operand
  low_second = rw extended_second (sext32-mod operand (omega arith))

  signed_run :
      (op : ℕ → ℕ → ℕ) (new : ℕ)
      → op first second % 2 ^ 32 ≡ new
      → Exchanges 32 e (amo_w e op) (sext32 old) new
  signed_run op new is_new =
      exchange Width.word e old ready
        (λ e' v. op (sext32 (bit_and v 0xffffffff)) (sext32 (bit_and (reg2 e') 0xffffffff)))
        (λ e' v. sext32 (bit_and v 0xffffffff)) (sext32 old) new extended_first is_new

  unsigned_run :
      (op : ℕ → ℕ → ℕ) (new : ℕ)
      → op (u32 old) operand % 2 ^ 32 ≡ new
      → Exchanges 32 e (amo_wu e op) (sext32 old) new
  unsigned_run op new is_new =
      let same : u32 old ≡ old = omega (arith, ready.fits) in
      exchange Width.word e old ready (λ e' v. op (u32 v) (u32 (reg2 e'))) (λ e' v. sext32 (u32 v))
        (sext32 old) new (rw same refl) is_new

  -- What is stored is masked once more.
  masked_low : (x : ℕ) → bit_and x 0xffffffff % 2 ^ 32 ≡ x % 2 ^ 32
  masked_low x = omega (arith, bit_and_mask 32 x)

  conjunction : bit_and (bit_and first second) 0xffffffff % 2 ^ 32 ≡ bit_and old operand
  conjunction =
      masked_low (bit_and first second) ∙ bit_and-mod 32 first second ∙ cc (low_first, low_second)

  disjunction : bit_and (bit_or first second) 0xffffffff % 2 ^ 32 ≡ bit_or old operand
  disjunction =
      masked_low (bit_or first second) ∙ bit_or-mod 32 first second ∙ cc (low_first, low_second)

  exclusive : bit_and (bit_xor first second) 0xffffffff % 2 ^ 32 ≡ bit_xor old operand
  exclusive =
      masked_low (bit_xor first second) ∙ bit_xor-mod 32 first second ∙ cc (low_first, low_second)

  -- The choice of the smaller or the larger, extended again.
  abbrev smaller : ℕ
  smaller = if ltb_ℤ (signed64 first) (signed64 second) then old else operand

  abbrev larger : ℕ
  larger = if ltb_ℤ (signed64 second) (signed64 first) then old else operand

  smaller_extended : sext32 smaller ≡ least (sext32 old) (sext32 operand)
  smaller_extended =
      extended_choice (ltb_ℤ (signed64 first) (signed64 second)) old operand
      ∙ rw (extended_first, extended_second) refl

  larger_extended : sext32 larger ≡ greatest (sext32 old) (sext32 operand)
  larger_extended =
      extended_choice (ltb_ℤ (signed64 second) (signed64 first)) old operand
      ∙ rw (extended_first, extended_second) refl

  -- In the build without devices, at an aligned address whose four bytes are usable and hold `old`,
  -- and if `rd` is not register 0, the nine atomic operations on words return no exception, put `old` with its sign extended into
  -- `rd` and leave in memory, with the low 32 bits of `rs2` for the operand: the operand, the sum
  -- modulo 2 ^ 32, the exclusive or, the conjunction and the disjunction of the two, the smaller and
  -- the larger of them as unsigned numbers, and the smaller and the larger of them as signed 32-bit
  -- integers.
  pub word_exchanges_lem :
      Exchanges 32 e (amoswapw e) (sext32 old) operand
      × Exchanges 32 e (amoaddw e) (sext32 old) ((old + operand) % 2 ^ 32)
      × Exchanges 32 e (amoxorw e) (sext32 old) (bit_xor old operand)
      × Exchanges 32 e (amoandw e) (sext32 old) (bit_and old operand)
      × Exchanges 32 e (amoorw e) (sext32 old) (bit_or old operand)
      × Exchanges 32 e (amominuw e) (sext32 old) (min old operand)
      × Exchanges 32 e (amomaxuw e) (sext32 old) (max old operand)
      × ((new : ℕ) × IsLeast (sext32 old) (sext32 operand) (sext32 new)
          × Exchanges 32 e (amominw e) (sext32 old) new)
      × ((new : ℕ) × IsGreatest (sext32 old) (sext32 operand) (sext32 new)
          × Exchanges 32 e (amomaxw e) (sext32 old) new)
  unfolding amoswapw amoaddw amoxorw amoandw amoorw amominuw amomaxuw amominw amomaxw
  word_exchanges_lem = (
    signed_run (λ tmp v. v) operand low_second,
    signed_run (λ tmp v. u32 (tmp + v)) ((old + operand) % 2 ^ 32)
        (omega (arith, low_first, low_second)),
    signed_run (λ tmp v. bit_and (bit_xor tmp v) 0xffffffff) (bit_xor old operand) exclusive,
    signed_run (λ tmp v. bit_and (bit_and tmp v) 0xffffffff) (bit_and old operand) conjunction,
    signed_run (λ tmp v. bit_and (bit_or tmp v) 0xffffffff) (bit_or old operand) disjunction,
    unsigned_run (λ tmp v. if ltb tmp v then tmp else v) (min old operand)
        (ground (arith, ready.fits)),
    unsigned_run (λ tmp v. if ltb v tmp then tmp else v) (max old operand)
        (ground (arith, ready.fits)),
    (
      smaller,
      rw smaller_extended (least-IsLeast (sext32 old) (sext32 operand)),
      signed_run (λ tmp v. if ltb_ℤ (signed64 tmp) (signed64 v) then u32 tmp else u32 v) smaller
          (ground (arith, low_first, low_second, ready.fits)),
    ),
    (
      larger,
      rw larger_extended (greatest-IsGreatest (sext32 old) (sext32 operand)),
      signed_run (λ tmp v. if ltb_ℤ (signed64 v) (signed64 tmp) then u32 tmp else u32 v) larger
          (ground (arith, low_first, low_second, ready.fits)),
    ),
  )
