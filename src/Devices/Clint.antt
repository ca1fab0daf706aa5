-- ===== src/Devices/Clint.antt =====
-- The core-local interruptor of src/CLINT.cpp: two 64-bit registers.
use vemu.Common.{ℕ, ◌+◌, ◌==◌, if◌then◌else◌}
use vemu.Isa.{ReturnException}

abbrev pub clint_base : ℕ
clint_base = 0x2000000

abbrev pub clint_size : ℕ
clint_size = 0x10000

abbrev pub clint_mtimecmp : ℕ
clint_mtimecmp = clint_base + 0x4000

abbrev pub clint_mtime : ℕ
clint_mtime = clint_base + 0xbff8

pub record Clint : Type 0 where
  pub mtime : ℕ
  pub mtimecmp : ℕ

unfoldable pub new : Clint
new = record { mtime = 0; mtimecmp = 0 }

unfoldable pub load64 : Clint → ℕ → ℕ
load64 c addr =
    if addr == clint_mtimecmp then c.mtimecmp else if addr == clint_mtime then c.mtime else 0

unfoldable pub store64 : Clint → ℕ → ℕ → Clint
store64 c addr value =
    if addr == clint_mtimecmp
    then record c { mtimecmp = value }
    else if addr == clint_mtime
    then record c { mtime = value }
    else c

-- Where an exception is returned the value is the 0 that the constructor of `std::pair` puts there.
unfoldable pub load : Clint → ℕ → ℕ → ℕ × ReturnException
unfolding load64
load c addr sz =
    if sz == 64
    then (load64 c addr, ReturnException.normal_execution_return)
    else (0, ReturnException.load_access_fault)

unfoldable pub store : Clint → ℕ → ℕ → ℕ → ReturnException × Clint
unfolding store64
store c addr value sz =
    if sz == 64
    then (ReturnException.normal_execution_return, store64 c addr value)
    else (ReturnException.store_amo_access_fault, c)
