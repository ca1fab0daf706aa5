-- ===== src/Emu/Exchange.antt =====
-- The atomic memory operations of src/VEmu.cpp exchange a register and a word of memory, in the build
-- without devices.
pub mod Words
use vemu.Common.{
  ℕ, ◌+◌, ◌*◌, ◌%◌, ◌^◌, ◌<◌, ◌≡◌, ◌≢◌, refl, ap, ◌∙◌, none, Outcome, ok, ◌==◌, if◌then◌else◌, true,
  bit_and, bit_or, bit_xor, min, max, ltb, ltb_ℤ, signed64, ◌≤ℤ◌, ◌⊎◌, add64, arith, ◌>>=◌, sext32,
  u32,
}
use vemu.Bits.{bit_and_mask, bit_and-le, bit_or-lt, bit_xor-lt}
use vemu.Isa.{ReturnException}
use vemu.Mmu.RoundTrip.{Width, IsUsable, bytes, bits, load-store}
use vemu.Bus
use vemu.Bus.{Bus}
use vemu.Emu.State.{Emu, Handled, fields, reg1, reg2, result}
use vemu.Emu.Memory.{load_then}
use vemu.Emu.Atomic.{
  aligned, amo_store, amo_w, amo_wu, amo_d, amoswapd, amoaddd, amoxord, amoandd, amoord, amominud,
  amomaxud, amomind, amomaxd,
}
use vemu.Emu.Access.{written, written-result, bare_load, bare_store}

-- What the operation leaves in memory can be loaded, at a width of `sz` bits.
abbrev pub Holds : Emu → ℕ → ℕ → ℕ → Type 0
Holds e sz addr v =
    Bus.load e.bus addr sz ≡ ok ((v, ReturnException.normal_execution_return), e.bus)

-- The operation returns no exception, `rd` gets `old`, and memory at the address in `rs1` holds
-- `new`.
abbrev pub Exchanges : ℕ → Emu → Outcome Handled → ℕ → ℕ → Type 0
Exchanges sz e o old new =
    (r : Handled) × (o ≡ ok r)
    × (r.0 ≡ ReturnException.normal_execution_return)
    × (written r ≡ old)
    × Holds r.1 sz (reg1 e) new

-- The build without devices, an aligned address whose bytes are usable and hold `old`, and a
-- destination.
pub record IsReady (w : Width) (e : Emu) (old : ℕ) : Type 0 where
  pub bare : e.bus.devices ≡ none
  pub usable : IsUsable e.bus.mmu (reg1 e) (bytes w)
  pub holds : Holds e (bits w) (reg1 e) old
  pub other : (fields e).rd ≢ 0
  pub even : reg1 e % bytes w ≡ 0
  pub fits : old < 2 ^ bits w

-- An operation, by what it stores and what it leaves in `rd`.
module _ (w : Width) (e : Emu) (old : ℕ) (ready : IsReady w e old) (stored put : Emu → ℕ → ℕ) where
  abbrev operation : Outcome Handled
  operation =
      aligned e (bytes w) ReturnException.load_address_misaligned
        (load_then e (reg1 e) (bits w) (λ e' v. amo_store e' (bits w) (stored e' v) (put e' v)))

  pub exchange :
      (back new : ℕ)
      → put e old ≡ back
      → stored e old % 2 ^ bits w ≡ new
      → Exchanges (bits w) e operation back new
  exchange back new is_back is_new =
      let test : (reg1 e % bytes w == 0) ≡ true = ground (arith, ready.even) in
      let v = stored e old in
      let (m', stores, loads, rest) = load-store w e.bus.mmu (reg1 e) v ready.usable in
      let bus' : Bus = record e.bus { mmu = m' } in
      let e' : Emu = record e { bus = bus' } in
      (
        result e' (put e old),
        rw (test, ready.holds, bare_store e.bus (reg1 e) v (bits w) m' ready.bare stores) refl,
        refl,
        written-result e' (put e old) ready.other ∙ is_back,
        rw (← is_new) (
            bare_load bus' (reg1 e) (bits w) (v % 2 ^ bits w)
              ReturnException.normal_execution_return ready.bare loads),
      )

-- The smaller and the larger of two signed values, whatever their patterns are.
pub record IsLeast (a b c : ℕ) : Type 0 where
  pub one : (c ≡ a) ⊎ (c ≡ b)
  pub below_first : signed64 c ≤ℤ signed64 a
  pub below_second : signed64 c ≤ℤ signed64 b

pub record IsGreatest (a b c : ℕ) : Type 0 where
  pub one : (c ≡ a) ⊎ (c ≡ b)
  pub above_first : signed64 a ≤ℤ signed64 c
  pub above_second : signed64 b ≤ℤ signed64 c

abbrev pub least : ℕ → ℕ → ℕ
least a b = if ltb_ℤ (signed64 a) (signed64 b) then a else b

abbrev pub greatest : ℕ → ℕ → ℕ
greatest a b = if ltb_ℤ (signed64 b) (signed64 a) then a else b

pub least-IsLeast : (a b : ℕ) → IsLeast a b (least a b)
least-IsLeast a b = ground arith

pub greatest-IsGreatest : (a b : ℕ) → IsGreatest a b (greatest a b)
greatest-IsGreatest a b = ground arith

-- In the build without devices, at an aligned address whose eight bytes are usable and hold `old`,
-- and if `rd` is not register 0, the nine atomic operations on double words return no exception, put `old` into `rd` and leave in
-- memory: the value of `rs2`, the sum modulo 2 ^ 64, the exclusive or, the conjunction and the
-- disjunction of the two, the smaller and the larger of them as unsigned numbers, and the smaller
-- and the larger of them as signed integers.
pub exchanges_lem :
    (e : Emu) (old : ℕ)
    → IsReady Width.dword e old
    → reg2 e < 2 ^ 64
    → Exchanges 64 e (amoswapd e) old (reg2 e)
      × Exchanges 64 e (amoaddd e) old ((old + reg2 e) % 2 ^ 64)
      × Exchanges 64 e (amoxord e) old (bit_xor old (reg2 e))
      × Exchanges 64 e (amoandd e) old (bit_and old (reg2 e))
      × Exchanges 64 e (amoord e) old (bit_or old (reg2 e))
      × Exchanges 64 e (amominud e) old (min old (reg2 e))
      × Exchanges 64 e (amomaxud e) old (max old (reg2 e))
      × ((new : ℕ) × IsLeast old (reg2 e) new × Exchanges 64 e (amomind e) old new)
      × ((new : ℕ) × IsGreatest old (reg2 e) new × Exchanges 64 e (amomaxd e) old new)
unfolding amoswapd amoaddd amoxord amoandd amoord amominud amomaxud amomind amomaxd
exchanges_lem e old ready word =
    let small = ready.fits in
    let run = λ (op : ℕ → ℕ → ℕ).
      exchange Width.dword e old ready (λ e' v. op v (reg2 e')) (λ e' v. v) old in
    (
      run (λ tmp v. v) (reg2 e) refl (omega arith),
      run add64 ((old + reg2 e) % 2 ^ 64) refl (omega arith),
      run bit_xor (bit_xor old (reg2 e)) refl
          (omega (arith, bit_xor-lt 64 old (reg2 e) small word)),
      run bit_and (bit_and old (reg2 e)) refl
          (omega (arith, bit_and-le old old (reg2 e) (omega arith))),
      run bit_or (bit_or old (reg2 e)) refl (omega (arith, bit_or-lt 64 old (reg2 e) small word)),
      run (λ tmp v. if ltb tmp v then tmp else v) (min old (reg2 e)) refl (ground arith),
      run (λ tmp v. if ltb v tmp then tmp else v) (max old (reg2 e)) refl (ground arith),
      (
        least old (reg2 e),
        least-IsLeast old (reg2 e),
        run least (least old (reg2 e)) refl (ground arith),
      ),
      (
        greatest old (reg2 e),
        greatest-IsGreatest old (reg2 e),
        run greatest (greatest old (reg2 e)) refl (ground arith),
      ),
    )
