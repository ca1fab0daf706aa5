-- ===== src/Emu/Loaded.antt =====
-- What the constructor of src/VEmu.cpp for the bytes of a program leaves in memory.
use vemu.Common.{
  ℕ, ◌+◌, ◌^◌, ◌≤◌, ◌<◌, ◌≡◌, refl, bit_or, List, ◌∷◌, Option, some, length, get_or, ok, arith,
}
use vemu.Bits.{bit_and_field}
use vemu.Bus.{Bus}
use vemu.Mmu.{perm_write, perm_exec, perm_read}
use vemu.Mmu.Fill.{set_perms-IsGranted, allocate-IsGrown}
use vemu.Mmu.Permissions.{write_from-IsWritten}
use vemu.Emu.Platform.{Build}
use vemu.Emu.State.{Emu}
use vemu.Emu.Construct.{new, aligned_size, of_bytes, read_file, of_name}

-- Rounding up to a multiple of 64 KiB.
aligned_size_lem : (n : ℕ) → n + 0xffff < 2 ^ 64 → n ≤ aligned_size n
aligned_size_lem n small = ground (arith, bit_and_field 16 48 (n + 0xffff))

-- A program that fits stands in memory as it was given, from the first byte that was free before, where
-- the emulator starts; its bytes may be read and executed but not written, and its memory is taken. The constructor for a
-- file with these bytes makes the same emulator.
pub of_bytes_lem :
    (b : Build) (raw : Emu) (bus : Bus) (code : List ℕ) (start_pc c : ℕ) (cs : List ℕ)
    (files : List ℕ → Option (List ℕ))
    → files (c ∷ cs) ≡ some code
    → length code + 0xffff < 2 ^ 64
    → bus.mmu.alloc_ptr + aligned_size (length code) < bus.mmu.ram_size
    → bus.mmu.ram_size ≤ 2 ^ 64
    → (e : Emu) × (of_bytes b raw bus code start_pc ≡ ok e)
      × (e.pc ≡ bus.mmu.alloc_ptr)
      × ((i : ℕ) → i < length code → e.bus.mmu.ram (e.pc + i) ≡ get_or code i 0)
      × ((i : ℕ)
          → i < length code
          → e.bus.mmu.byte_permission (e.pc + i) ≡ bit_or perm_exec perm_read)
      × (e.bus.mmu.alloc_ptr ≡ bus.mmu.alloc_ptr + aligned_size (length code))
      × (of_name b raw bus files (c ∷ cs) start_pc ≡ ok e)
unfolding of_bytes of_name read_file new
of_bytes_lem b raw bus code start_pc c cs files found small fits ram_small =
    let n = length code in
    let base = bus.mmu.alloc_ptr in
    let room = aligned_size_lem n small in
    let (m1, taken, grown) = allocate-IsGrown bus.mmu (aligned_size n) fits ram_small in
    let in1 : base + n < m1.ram_size = omega (arith, grown.same_size, room, fits) in
    let small1 : m1.ram_size ≤ 2 ^ 64 = omega (arith, grown.same_size, ram_small) in
    let (m2, opened, set2) = set_perms-IsGranted m1 base n perm_write in1 small1 in
    let in2 : base + n < m2.ram_size = omega (arith, set2.same_size, in1) in
    let small2 : m2.ram_size ≤ 2 ^ 64 = omega (arith, set2.same_size, small1) in
    let (m3, stored, written) = write_from-IsWritten m2 code base in2 small2 (λ j p q.
      let now : m2.byte_permission j ≡ perm_write = ground (arith, set2.permission j) in
      rw now refl) in
    let in3 : base + n < m3.ram_size = omega (arith, written.same_size, in2) in
    let small3 : m3.ram_size ≤ 2 ^ 64 = omega (arith, written.same_size, small2) in
    let (m4, closed, set4) =
      set_perms-IsGranted m3 base n (bit_or perm_exec perm_read) in3 small3 in
    (
      record (new b raw bus start_pc) { bus = record bus { mmu = m4 }; pc = base },
      rw (taken, opened, stored, closed) refl,
      refl {a = base},
      λ i below. rw set4.same_ram (ground (arith, written.ram_at (base + i))),
      λ i below. ground (arith, set4.permission (base + i)),
      omega (arith, set4.same_pointer, written.same_pointer, set2.same_pointer, grown.pointer),
      rw (found, taken, opened, stored, closed) refl,
    )
