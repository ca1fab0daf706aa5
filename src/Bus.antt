-- ===== src/Bus.antt =====
-- The bus of src/Bus.cpp and include/Bus.h: an address belongs to the first device whose range holds
-- it, and to the memory otherwise. Under FUZZ_ENV the vector of devices stays empty and the loops
-- over it are compiled out: that build has `devices = none`.
use vemu.Common.{
  ℕ, ◌+◌, Bool, Option, none, some, ◌&&◌, ltb, leb, if◌then◌else◌, Outcome, ok, ◌>>=◌,
}
use vemu.Isa.{ReturnException}
use vemu.Mmu
use vemu.Mmu.{Mmu}
use vemu.Emu.Platform.{Build}
use vemu.Mmu.Access as Memory
use vemu.Devices.Clint
use vemu.Devices.Clint.{Clint, clint_base, clint_size}
use vemu.Devices.Plic
use vemu.Devices.Plic.{Plic, plic_base, plic_size}
use vemu.Devices.Uart
use vemu.Devices.Uart.{Uart, uart_base, uart_size}

pub record DeviceSet : Type 0 where
  pub clint : Clint
  pub plic : Plic
  pub uart : Uart

pub record Bus : Type 0 where
  pub devices : Option DeviceSet
  pub mmu : Mmu

-- `addr >= base && addr < base + size`.
abbrev pub holds : ℕ → ℕ → ℕ → Bool
holds base size addr = leb base addr && ltb addr (base + size)

abbrev pub load_memory : Bus → ℕ → ℕ → Outcome ((ℕ × ReturnException) × Bus)
load_memory b addr sz = Memory.load b.mmu addr sz >>= λ r. ok (r, b)

abbrev pub load_device : Bus → DeviceSet → ℕ → ℕ → Outcome ((ℕ × ReturnException) × Bus)
load_device b d addr sz =
    let (r, uart') = Uart.load d.uart addr sz in
    if holds clint_base clint_size addr
    then ok (Clint.load d.clint addr sz, b)
    else if holds plic_base plic_size addr
    then ok (Plic.load d.plic addr sz, b)
    else if holds uart_base uart_size addr
    then ok (r, record b { devices = some (record d { uart = uart' }) })
    else load_memory b addr sz

unfoldable pub load : Bus → ℕ → ℕ → Outcome ((ℕ × ReturnException) × Bus)
load b addr sz = elim b.devices [ none ↦ load_memory b addr sz | some d ↦ load_device b d addr sz ]

-- What the memory returns is dropped, and `NormalExecutionReturn` given in its place.
abbrev pub store_memory : Bus → ℕ → ℕ → ℕ → Outcome (ReturnException × Bus)
store_memory b addr value sz = Memory.store b.mmu addr value sz >>= λ (e, mmu').
    ok (ReturnException.normal_execution_return, record b { mmu = mmu' })

abbrev pub store_device : Bus → DeviceSet → ℕ → ℕ → ℕ → Outcome (ReturnException × Bus)
store_device b d addr value sz =
    let (ce, clint') = Clint.store d.clint addr value sz in
    let (pe, plic') = Plic.store d.plic addr value sz in
    let (ue, uart') = Uart.store d.uart addr value sz in
    if holds clint_base clint_size addr
    then ok (ce, record b { devices = some (record d { clint = clint' }) })
    else if holds plic_base plic_size addr
    then ok (pe, record b { devices = some (record d { plic = plic' }) })
    else if holds uart_base uart_size addr
    then ok (ue, record b { devices = some (record d { uart = uart' }) })
    else store_memory b addr value sz

unfoldable pub store : Bus → ℕ → ℕ → ℕ → Outcome (ReturnException × Bus)
store b addr value sz = elim b.devices [
  | none ↦ store_memory b addr value sz
  | some d ↦ store_device b d addr value sz
]

-- Only in the builds that have devices.
unfoldable pub uart_is_interrupting : Bus → DeviceSet → Bool × Bus
uart_is_interrupting b d =
    let (i, uart') = Uart.is_interrupting d.uart in
    (i, record b { devices = some (record d { uart = uart' }) })

-- The constructor, on memory and a serial port that are not set yet.
unfoldable pub new : Build → Bool → Mmu → ℕ → Bus
unfolding Mmu.new Clint.new Plic.new Uart.new
new Build.fuzz interrupting raw mem_size = record { devices = none; mmu = Mmu.new raw mem_size }
new _ interrupting raw mem_size = record {
  devices = some (record { clint = Clint.new; plic = Plic.new; uart = Uart.new interrupting });
  mmu = Mmu.new raw mem_size;
}

-- The copy constructor, on the memory `raw`.
unfoldable pub copy : Mmu → Bus → Bus
unfolding Uart.copy Mmu.copy
copy raw other = record {
  devices = elim other.devices [
    | none ↦ none
    | some d ↦ some (record d { uart = Uart.copy d.uart })
  ];
  mmu = Mmu.copy raw other.mmu;
}
