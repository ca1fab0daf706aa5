-- ===== src/Emu/Syscall/Break.antt =====
-- The system call `brk` of src/VEmu.cpp, which moves the end of the memory that is handed out.
use vemu.Common.{◌-◌, ◌^◌, ◌≤◌, ◌<◌, ◌≡◌, ◌≢◌, refl, true, false, leb, ◌==◌, add64, sub64, arith}
use vemu.Mmu.{Mmu}
use vemu.Emu.State.{Emu}
use vemu.Mmu.Fill.{IsGrown, allocate-IsGrown}
use vemu.Emu.Syscall.Calls.{a0, brk, done, set_a0, set_mmu}

-- The outcomes of `brk`: with 0 it gives the end of the memory that is handed out; an address above
-- the end and inside the memory becomes the new end, and the bytes up to it may be written but not
-- read before; an address below the end is refused with -1. The contents of the memory stay.
pub brk_lem :
    (e : Emu)
    → e.bus.mmu.alloc_ptr < e.bus.mmu.ram_size
    → e.bus.mmu.ram_size ≤ 2 ^ 63
    → (a0 e ≡ 0
        → (m' : Mmu) × IsGrown e.bus.mmu 0 m'
          × (brk e ≡ done (set_a0 (set_mmu e m') e.bus.mmu.alloc_ptr)))
      × (a0 e ≢ 0
          → e.bus.mmu.alloc_ptr ≤ a0 e
          → a0 e < e.bus.mmu.ram_size
          → (m' : Mmu) × IsGrown e.bus.mmu (a0 e - e.bus.mmu.alloc_ptr) m'
            × (brk e ≡ done (set_a0 (set_mmu e m') (a0 e))))
      × (a0 e ≢ 0 → a0 e < e.bus.mmu.alloc_ptr → brk e ≡ done (set_a0 e (2 ^ 64 - 1)))
unfolding brk
brk_lem e inside_ram small =
    let m = e.bus.mmu in
    let old = m.alloc_ptr in
    (
      λ none.
          let (m', runs, is_grown) = allocate-IsGrown m 0 (ground arith) (omega arith) in
          let back : add64 old 0 ≡ old = ground arith in (m', is_grown, rw (none, runs, back) refl),
      λ some above within.
          let (m', runs, is_grown) = allocate-IsGrown m (a0 e - old) (omega arith) (omega arith) in
          let is_some : (a0 e == 0) ≡ false = ground arith in
          let more : sub64 (a0 e) old ≡ a0 e - old = ground arith in
          let up : leb (2 ^ 63) (a0 e - old) ≡ false = ground arith in
          let there : add64 old (a0 e - old) ≡ a0 e = ground arith in
          (m', is_grown, rw (is_some, more, up, runs, there) refl),
      λ some below.
          let is_some : (a0 e == 0) ≡ false = ground arith in
          let down : leb (2 ^ 63) (sub64 (a0 e) old) ≡ true = ground arith in
          rw (is_some, down) refl,
    )
