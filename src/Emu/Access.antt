-- ===== src/Emu/Access.antt =====
-- The loads and stores of src/VEmu.cpp as the program sees them: what comes back of what was stored,
-- and what the signed loads do with an exception.
use vemu.Common.{
  ℕ, ◌%◌, ◌^◌, ◌<◌, ◌≡◌, ◌≢◌, refl, ap, ◌∙◌, none, Outcome, ok, bit_and, add64, sext8, sext16,
  sext32, arith,
}
use vemu.Bits.{bit_and_mask}
use vemu.Isa.{ReturnException, Instruction}
use vemu.Mmu.{Mmu}
use vemu.Mmu.Access as Memory
use vemu.Mmu.RoundTrip.{Width, IsUsable, load-store}
use vemu.Bus
use vemu.Bus.{Bus}
use vemu.RegFile.{load_reg-store_reg}
use vemu.Emu.State.{Emu, Handled, fields, imm, reg1, reg2, result, set_rd}
use vemu.Emu.Memory.{lbu, lhu, lwu, ld, lb, lh, lw, sd, reg_rd}

-- The address of a load or store.
abbrev pub address : Emu → ℕ
address e = add64 (reg1 e) (imm e)

-- `rd` after a handler.
abbrev pub written : Handled → ℕ
written r = reg_rd r.1

-- The handler returns no exception and leaves `v` in `rd`.
abbrev pub Gives : Outcome Handled → ℕ → Type 0
Gives o v =
    (r : Handled) × (o ≡ ok r) × (r.0 ≡ ReturnException.normal_execution_return) × (written r ≡ v)

pub written-result : (e : Emu) (v : ℕ) → (fields e).rd ≢ 0 → written (result e v) ≡ v
written-result e v h = ground (arith, load_reg-store_reg e.iregs (fields e).rd (fields e).rd v)

-- The state after the load.
module _ (e : Emu) (v : ℕ) (bus' : Bus) (other : (fields e).rd ≢ 0) where
  abbrev loaded : Emu
  loaded = record e { bus = bus' }

  once : reg_rd (set_rd loaded v) ≡ v
  once = ground (arith, load_reg-store_reg e.iregs (fields e).rd (fields e).rd v)

  twice : (x : ℕ) → reg_rd (set_rd (set_rd loaded v) x) ≡ x
  twice x = ground (arith, load_reg-store_reg (set_rd loaded v).iregs (fields e).rd (fields e).rd x)

  -- The result of a signed load: that of the unsigned load, and a second write of `rd`.
  abbrev again : ℕ → Handled
  again x = result (set_rd loaded v) x

  -- After a load without an exception.
  signed_loads :
      (Bus.load e.bus (address e) 8 ≡ ok ((v, ReturnException.normal_execution_return), bus')
        → Gives (lb e) (sext8 (v % 2 ^ 8)))
      × (Bus.load e.bus (address e) 16 ≡ ok ((v, ReturnException.normal_execution_return), bus')
          → Gives (lh e) (sext16 (v % 2 ^ 16)))
      × (Bus.load e.bus (address e) 32 ≡ ok ((v, ReturnException.normal_execution_return), bus')
          → Gives (lw e) (sext32 (v % 2 ^ 32)))
  unfolding lb lh lw lbu lhu lwu
  signed_loads =
      let low = reg_rd (set_rd loaded v) in
      (
        λ h. (
          again (sext8 (bit_and low 0xff)),
          rw h refl,
          refl,
          twice (sext8 (bit_and low 0xff)) ∙ rw once (ap sext8 (bit_and_mask 8 v)),
        ),
        λ h. (
          again (sext16 (bit_and low 0xffff)),
          rw h refl,
          refl,
          twice (sext16 (bit_and low 0xffff)) ∙ rw once (ap sext16 (bit_and_mask 16 v)),
        ),
        λ h. (
          again (sext32 (bit_and low 0xffffffff)),
          rw h refl,
          refl,
          twice (sext32 (bit_and low 0xffffffff)) ∙ rw once (ap sext32 (bit_and_mask 32 v)),
        ),
      )

  -- What a signed load does where the bus returns an exception.
  after_fault : (x : ℕ) → reg_rd (set_rd loaded x) ≡ x
  after_fault x = ground (arith, load_reg-store_reg e.iregs (fields e).rd (fields e).rd x)

  -- After an exception.
  signed_loads_swallow :
      (ex : ReturnException)
      → ex ≢ ReturnException.normal_execution_return
      → (Bus.load e.bus (address e) 8 ≡ ok ((v, ex), bus')
          → Gives (lb e) (sext8 (reg_rd e % 2 ^ 8)))
        × (Bus.load e.bus (address e) 16 ≡ ok ((v, ex), bus')
            → Gives (lh e) (sext16 (reg_rd e % 2 ^ 16)))
        × (Bus.load e.bus (address e) 32 ≡ ok ((v, ex), bus')
            → Gives (lw e) (sext32 (reg_rd e % 2 ^ 32)))
  unfolding lb lh lw lbu lhu lwu
  signed_loads_swallow ReturnException.normal_execution_return fault = absurd (fault refl)
  signed_loads_swallow _ fault = (
    λ h. (
      result loaded (sext8 (bit_and (reg_rd e) 0xff)),
      rw h refl,
      refl,
      after_fault (sext8 (bit_and (reg_rd e) 0xff)) ∙ ap sext8 (bit_and_mask 8 (reg_rd e)),
    ),
    λ h. (
      result loaded (sext16 (bit_and (reg_rd e) 0xffff)),
      rw h refl,
      refl,
      after_fault (sext16 (bit_and (reg_rd e) 0xffff)) ∙ ap sext16 (bit_and_mask 16 (reg_rd e)),
    ),
    λ h. (
      result loaded (sext32 (bit_and (reg_rd e) 0xffffffff)),
      rw h refl,
      refl,
      after_fault (sext32 (bit_and (reg_rd e) 0xffffffff)) ∙ ap sext32 (bit_and_mask 32 (reg_rd e)),
    ),
  )

  -- If `rd` is not register 0, LB, LH and LW return no exception. If the bus returns a value with no
  -- exception, they put its low 8, 16 or 32 bits into `rd` with their sign extended; if it returns an
  -- exception, they drop it and extend the sign of what `rd` held before.
  pub signed_loads_lem :
      ((Bus.load e.bus (address e) 8 ≡ ok ((v, ReturnException.normal_execution_return), bus')
          → Gives (lb e) (sext8 (v % 2 ^ 8)))
        × (Bus.load e.bus (address e) 16 ≡ ok ((v, ReturnException.normal_execution_return), bus')
            → Gives (lh e) (sext16 (v % 2 ^ 16)))
        × (Bus.load e.bus (address e) 32 ≡ ok ((v, ReturnException.normal_execution_return), bus')
            → Gives (lw e) (sext32 (v % 2 ^ 32))))
      × ((ex : ReturnException)
          → ex ≢ ReturnException.normal_execution_return
          → (Bus.load e.bus (address e) 8 ≡ ok ((v, ex), bus')
              → Gives (lb e) (sext8 (reg_rd e % 2 ^ 8)))
            × (Bus.load e.bus (address e) 16 ≡ ok ((v, ex), bus')
                → Gives (lh e) (sext16 (reg_rd e % 2 ^ 16)))
            × (Bus.load e.bus (address e) 32 ≡ ok ((v, ex), bus')
                → Gives (lw e) (sext32 (reg_rd e % 2 ^ 32))))
  signed_loads_lem = (signed_loads, signed_loads_swallow)

-- Without devices the bus is the memory.
pub bare_load :
    (b : Bus) (addr sz v : ℕ) (ex : ReturnException)
    → b.devices ≡ none
    → Memory.load b.mmu addr sz ≡ ok (v, ex)
    → Bus.load b addr sz ≡ ok ((v, ex), b)
unfolding Bus.load
bare_load b addr sz v ex bare loads = rw (bare, loads) refl

pub bare_store :
    (b : Bus) (addr v sz : ℕ) (m' : Mmu)
    → b.devices ≡ none
    → Memory.store b.mmu addr v sz ≡ ok (ReturnException.normal_execution_return, m')
    → Bus.store b addr v sz ≡ ok (ReturnException.normal_execution_return, record b { mmu = m' })
unfolding Bus.store
bare_store b addr v sz m' bare stores = rw (bare, stores) refl

-- What SD has stored, LD loads: in the build without devices, where the eight bytes at the address
-- are usable, SD returns no exception, and LD of the same address in the state after it, with any
-- destination but register 0, returns none and puts the value into `rd`.
pub sd-ld :
    (e : Emu) (next : Instruction)
    → e.bus.devices ≡ none
    → reg2 e < 2 ^ 64
    → IsUsable e.bus.mmu (address e) 8
    → address (record e { curr_instr = next }) ≡ address e
    → next.f.rd ≢ 0
    → (e' : Emu) × (sd e ≡ ok (ReturnException.normal_execution_return, e'))
      × Gives (ld (record e' { curr_instr = next })) (reg2 e)
unfolding sd ld
sd-ld e next bare word usable same other =
    let (m', stores, loads, rest) = load-store Width.dword e.bus.mmu (address e) (reg2 e) usable in
    let bus' : Bus = record e.bus { mmu = m' } in
    let e' : Emu = record e { bus = bus' } in
    let e2 : Emu = record e' { curr_instr = next } in
    let first = bare_store e.bus (address e) (reg2 e) 64 m' bare stores in
    let second : Bus.load bus' (address e2) 64
        ≡ ok ((reg2 e % 2 ^ 64, ReturnException.normal_execution_return), bus') =
      ap (λ (a : ℕ). Bus.load bus' a 64) same
      ∙ bare_load bus' (address e) 64 (reg2 e % 2 ^ 64) ReturnException.normal_execution_return bare
          loads in
    (
      e',
      rw first refl,
      (
        result e2 (reg2 e % 2 ^ 64),
        rw second refl,
        refl,
        written-result e2 (reg2 e % 2 ^ 64) other ∙ omega arith,
      ),
    )
