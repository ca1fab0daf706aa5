-- ===== src/Devices/Laws.antt =====
-- What the registers of the devices promise to the emulated program.
use vemu.Common.{
  ℕ, List, [], ◌∷◌, ◌-◌, ◌≡◌, refl, Bool, true, false, ◌⊎◌, ◌≢◌, ◌==◌, if◌then◌else◌, update,
  bit_and, bit_or, arith, inl, inr, Bool-cases,
}
use vemu.Bits.{bit_and_mask, bit_at-bit_and, bit_at-bit_or}
use vemu.Isa.{ReturnException}
use vemu.Devices.Clint.{Clint, clint_mtime, clint_mtimecmp}
use vemu.Devices.Clint
use vemu.Devices.Plic.{Plic, plic_pending, plic_senable, plic_spriority, plic_sclaim}
use vemu.Devices.Plic
use vemu.Devices.Uart.{Uart, Reader, uart_rhr, uart_lsr, uart_base, uart_size, uart_lsr_rx}
use vemu.Devices.Uart

abbrev pub IsClintRegister : ℕ → Type 0
IsClintRegister a = (a ≡ clint_mtimecmp) ⊎ (a ≡ clint_mtime)

-- A 64-bit load from a CLINT address after a 64-bit store of `v` to a CLINT register gives `v` at
-- that register and what was there before at every other address.
clint_load-store :
    (c : Clint) (a b v : ℕ)
    → IsClintRegister a
    → Clint.load (Clint.store c a v 64).1 b 64
      ≡ (if a == b then (v, ReturnException.normal_execution_return) else Clint.load c b 64)
unfolding Clint.load Clint.store
clint_load-store c a b v h = ground arith

abbrev pub IsPlicRegister : ℕ → Type 0
IsPlicRegister a =
    (a ≡ plic_pending) ⊎ (a ≡ plic_senable) ⊎ (a ≡ plic_spriority) ⊎ (a ≡ plic_sclaim)

-- A 64-bit load from a PLIC address after a 64-bit store of `v` to one of the four PLIC registers
-- gives `v` at that register and what was there before at every other address.
plic_load-store :
    (p : Plic) (a b v : ℕ)
    → IsPlicRegister a
    → Plic.load (Plic.store p a v 64).1 b 64
      ≡ (if a == b then (v, ReturnException.normal_execution_return) else Plic.load p b 64)
unfolding Plic.load Plic.store
plic_load-store p a b v h = ground arith

-- The CLINT and the PLIC refuse every size but 64, with an access fault and no change of state.
timers_refuse :
    (c : Clint) (p : Plic) (a v sz : ℕ)
    → sz ≢ 64
    → ((Clint.load c a sz).1 ≡ ReturnException.load_access_fault)
      × (Clint.store c a v sz ≡ (ReturnException.store_amo_access_fault, c))
      × ((Plic.load p a sz).1 ≡ ReturnException.load_access_fault)
      × (Plic.store p a v sz ≡ (ReturnException.store_amo_access_fault, p))
unfolding Clint.load Clint.store Plic.load Plic.store
timers_refuse c p a v sz h = ground arith

-- A 64-bit load from the CLINT or the PLIC after a 64-bit store of `v` to one of its registers gives
-- `v` at that register and what was there before at every other address; every size but 64 is refused
-- by both, with an access fault and no change of state.
pub timers_lem :
    (c : Clint) (p : Plic) (a b v sz : ℕ)
    → (IsClintRegister a
        → Clint.load (Clint.store c a v 64).1 b 64
          ≡ (if a == b then (v, ReturnException.normal_execution_return) else Clint.load c b 64))
      × (IsPlicRegister a
          → Plic.load (Plic.store p a v 64).1 b 64
            ≡ (if a == b then (v, ReturnException.normal_execution_return) else Plic.load p b 64))
      × (sz ≢ 64
          → ((Clint.load c a sz).1 ≡ ReturnException.load_access_fault)
            × (Clint.store c a v sz ≡ (ReturnException.store_amo_access_fault, c))
            × ((Plic.load p a sz).1 ≡ ReturnException.load_access_fault)
            × (Plic.store p a v sz ≡ (ReturnException.store_amo_access_fault, p)))
timers_lem c p a b v sz =
    (clint_load-store c a b v, plic_load-store p a b v, timers_refuse c p a v sz)

-- The receiver holds a character that the program has not taken.
abbrev pub is_full : Uart → Bool
is_full u = bit_and (u.uart_mem (uart_lsr - uart_base)) uart_lsr_rx == 1

set_rx : (r : ℕ) → bit_and (bit_or r uart_lsr_rx) uart_lsr_rx ≡ 1
set_rx r = omega (arith, bit_and_mask 1 (bit_or r 1), bit_at-bit_or 0 r 1)

clear_rx : (r : ℕ) → bit_and (bit_and r 0xfe) uart_lsr_rx ≡ 0
clear_rx r = omega (arith, bit_and_mask 1 (bit_and r 0xfe), bit_at-bit_and 0 r 0xfe)

-- What happens to the port: a step of the reading thread, with the next character of the input, or a
-- load of a byte by the program.
pub data Event : Type 0 where
  thread : ℕ → Event
  program : ℕ → Event

abbrev happen : Event → Reader × Uart → Reader × Uart
unfolding Uart.step Uart.load
happen (Event.thread c) (r, u) = Uart.step c r u
happen (Event.program addr) (r, u) = (r, (Uart.load u addr 8).1)

-- The events in their order.
unfoldable pub after : List Event → Reader × Uart → Reader × Uart
unfolding happen
after [] s = s
after (e ∷ es) s = after es (happen e s)

-- The thread is not between its test and the end of its assignments.
abbrev pub IsIdle : Reader → Type 0
IsIdle Reader.reading = Unit {0}
IsIdle (Reader.waiting c) = Unit {0}
IsIdle _ = ⊥

abbrev IsSafe : Reader × Uart → Type 0
IsSafe (r, u) = is_full u ≡ true → IsIdle r

happen-IsSafe : (e : Event) (s : Reader × Uart) → IsSafe s → IsSafe (happen e s)
unfolding happen Uart.step Uart.load
happen-IsSafe (Event.thread c) (Reader.reading, u) safe = λ full. tt
happen-IsSafe (Event.thread c) (Reader.waiting d, u) safe = elim (Bool-cases (is_full u)) [
  | inl full ↦ rw full (λ now. tt)
  | inr empty ↦ rw empty (λ now. absurd (ground arith))
]
happen-IsSafe (Event.thread c) (Reader.storing d, u) safe = λ full. safe full
happen-IsSafe (Event.thread c) (Reader.marking, u) safe = λ full. safe full
happen-IsSafe (Event.thread c) (Reader.setting l, u) safe = λ full. tt
happen-IsSafe (Event.program addr) (r, u) safe =
    λ full. safe (ground (arith, clear_rx (u.uart_mem (uart_lsr - uart_base))))

after-IsSafe : (es : List Event) (s : Reader × Uart) → IsSafe s → IsSafe (after es s)
unfolding after
after-IsSafe [] s safe = safe
after-IsSafe (e ∷ es) s safe = after-IsSafe es (happen e s) (happen-IsSafe e s safe)

-- Two steps of the thread, in which the next character plays no part.
abbrev pub two_steps : List Event
two_steps = Event.thread 0 ∷ Event.thread 0 ∷ []

-- What a load of the receive register gives, and the port after it.
abbrev pub received : Uart → ℕ
unfolding Uart.load
received u = (Uart.load u uart_rhr 8).0.0

abbrev pub taken : Uart → Uart
unfolding Uart.load
taken u = (Uart.load u uart_rhr 8).1

-- The register with its bit set, and what a load makes of a port.
abbrev marked : Uart → Uart
marked v = record v { uart_mem = update v.uart_mem 5 (bit_or (v.uart_mem 5) 1) }

marked_full : (v : Uart) → is_full (marked v) ≡ true
marked_full v = rw (set_rx (v.uart_mem 5)) refl

taken_empty : (v : Uart) → is_full (taken v) ≡ false
unfolding taken
taken_empty v = rw (clear_rx (v.uart_mem 5)) refl

received-marked : (v : Uart) → (received v ≡ v.uart_mem 0) × (received (marked v) ≡ v.uart_mem 0)
unfolding received
received-marked v = (refl, refl)

marks : (v : Uart) → after two_steps (Reader.marking, v) ≡ (Reader.reading, marked v)
unfolding after Uart.step
marks v = refl

loads_between :
    (v : Uart)
    → after (Event.program uart_rhr ∷ two_steps) (Reader.marking, v)
      ≡ (Reader.reading, marked (taken v))
unfolding after happen Uart.step taken
loads_between v = refl

received_again : (v : Uart) → received (marked (taken v)) ≡ v.uart_mem 0
unfolding received taken
received_again v = refl

module _ (u : Uart) (c : ℕ) where
  waits : is_full u ≡ true → (d : ℕ) → Uart.step d (Reader.waiting c) u ≡ (Reader.waiting c, u)
  unfolding Uart.step
  waits full d = rw full refl

  -- The character is stored, and the receiver still empty.
  abbrev stored : Uart
  stored = record u { uart_mem = update u.uart_mem 0 c }

  stores : is_full u ≡ false → after two_steps (Reader.waiting c, u) ≡ (Reader.marking, stored)
  unfolding after Uart.step
  stores empty = rw empty refl

pub reader_lem :
    (u : Uart) (c : ℕ) (es : List Event)
    → (is_full (after es (Reader.reading, u)).1 ≡ true → IsIdle (after es (Reader.reading, u)).0)
      × (is_full u ≡ true → (d : ℕ) → Uart.step d (Reader.waiting c) u ≡ (Reader.waiting c, u))
      × (is_full u ≡ false
          → let u4 = (after two_steps (after two_steps (Reader.waiting c, u))).1 in
            (is_full u4 ≡ true) × (received u4 ≡ c) × (is_full (taken u4) ≡ false))
      × (is_full u ≡ false
          → let (r2, u2) = after two_steps (Reader.waiting c, u) in
            let u5 = (after (Event.program uart_rhr ∷ two_steps) (r2, u2)).1 in
            (received u2 ≡ c) × (is_full u5 ≡ true) × (received u5 ≡ c))
reader_lem u c es = (
  after-IsSafe es (Reader.reading, u) (λ full. tt),
  waits u c,
  λ empty.
      rw (stores u c empty, marks (stored u c))
        (
          marked_full (stored u c),
          (received-marked (stored u c)).1,
          taken_empty (marked (stored u c)),
        ),
  λ empty.
      rw (stores u c empty, loads_between (stored u c))
        (
          (received-marked (stored u c)).0,
          marked_full (taken (stored u c)),
          received_again (stored u c),
        ),
)
