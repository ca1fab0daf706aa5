-- ===== src/Devices/Plic.antt =====
-- The platform-level interrupt controller of src/PLIC.cpp: four 64-bit registers.
use vemu.Common.{ℕ, ◌+◌, ◌==◌, if◌then◌else◌}
use vemu.Isa.{ReturnException}

abbrev pub plic_base : ℕ
plic_base = 0xc000000

abbrev pub plic_size : ℕ
plic_size = 0x4000000

abbrev pub plic_pending : ℕ
plic_pending = plic_base + 0x1000

abbrev pub plic_senable : ℕ
plic_senable = plic_base + 0x2080

abbrev pub plic_spriority : ℕ
plic_spriority = plic_base + 0x201000

abbrev pub plic_sclaim : ℕ
plic_sclaim = plic_base + 0x201004

pub record Plic : Type 0 where
  pub pending : ℕ
  pub senable : ℕ
  pub spriority : ℕ
  pub sclaim : ℕ

unfoldable pub new : Plic
new = record { pending = 0; senable = 0; spriority = 0; sclaim = 0 }

unfoldable pub load64 : Plic → ℕ → ℕ
load64 p addr =
    if addr == plic_pending
    then p.pending
    else if addr == plic_senable
    then p.senable
    else if addr == plic_spriority
    then p.spriority
    else if addr == plic_sclaim
    then p.sclaim
    else 0

unfoldable pub store64 : Plic → ℕ → ℕ → Plic
store64 p addr value =
    if addr == plic_pending
    then record p { pending = value }
    else if addr == plic_senable
    then record p { senable = value }
    else if addr == plic_spriority
    then record p { spriority = value }
    else if addr == plic_sclaim
    then record p { sclaim = value }
    else p

unfoldable pub load : Plic → ℕ → ℕ → ℕ × ReturnException
unfolding load64
load p addr sz =
    if sz == 64
    then (load64 p addr, ReturnException.normal_execution_return)
    else (0, ReturnException.load_access_fault)

unfoldable pub store : Plic → ℕ → ℕ → ℕ → ReturnException × Plic
unfolding store64
store p addr value sz =
    if sz == 64
    then (ReturnException.normal_execution_return, store64 p addr value)
    else (ReturnException.store_amo_access_fault, p)
