-- ===== src/Mmu/Fill.antt =====
-- `set_perms` and `allocate` of src/MMU.cpp, cell by cell.
use vemu.Common.{
  ℕ, zero, suc, ◌+◌, ◌^◌, ◌≤◌, ◌<◌, ◌≡◌, refl, ◌∙◌, true, bit_or, ltb, if◌then◌else◌, ok, add64,
  arith, for_range, update,
}
use vemu.Mmu.{Mmu, perm_raw, perm_write, allocate, set_perms}
use vemu.Mmu.Cells.{inside}

fill_lem :
    (perm n i j : ℕ) (p : ℕ → ℕ)
    → for_range n i (λ i p. update p i perm) p j ≡ (if inside i n j then perm else p j)
unfolding for_range
fill_lem perm zero i j p = ground arith
fill_lem perm (suc n) i j p = ground (arith, fill_lem perm n (i + 1) j (update p i perm))

-- A range gets a permission and nothing else changes.
pub record IsGranted (m : Mmu) (addr size perm : ℕ) (m' : Mmu) : Type 0 where
  pub permission :
      (j : ℕ) → m'.byte_permission j ≡ (if inside addr size j then perm else m.byte_permission j)
  pub same_ram : m'.ram ≡ m.ram
  pub same_size : m'.ram_size ≡ m.ram_size
  pub same_pointer : m'.alloc_ptr ≡ m.alloc_ptr
  pub same_blocks : m'.dirty_blocks ≡ m.dirty_blocks

abbrev filled : Mmu → ℕ → ℕ → ℕ → Mmu
filled m addr size perm = record m {
  byte_permission = for_range size addr (λ i p. update p i perm) m.byte_permission;
}

pub set_perms-IsGranted :
    (m : Mmu) (addr size perm : ℕ)
    → addr + size < m.ram_size
    → m.ram_size ≤ 2 ^ 64
    → (m' : Mmu) × (set_perms m addr size perm ≡ ok m') × IsGranted m addr size perm m'
unfolding set_perms
set_perms-IsGranted m addr size perm fits small =
    let first : ltb (add64 addr size) m.ram_size ≡ true = ground arith in
    let second : ltb (addr + size) (2 ^ 64) ≡ true = ground arith in
    (
      filled m addr size perm,
      rw (first, second) refl,
      record {
        permission = λ j. fill_lem perm size addr j m.byte_permission;
        same_ram = refl;
        same_size = refl;
        same_pointer = refl;
        same_blocks = refl;
      },
    )

-- `size` more bytes are handed out: nothing but the pointer and their permission bytes changes.
pub record IsGrown (m : Mmu) (size : ℕ) (m' : Mmu) : Type 0 where
  pub pointer : m'.alloc_ptr ≡ m.alloc_ptr + size
  pub permission :
      (j : ℕ)
      → m'.byte_permission j ≡ (if inside m.alloc_ptr size j then 10 else m.byte_permission j)
  pub same_ram : m'.ram ≡ m.ram
  pub same_size : m'.ram_size ≡ m.ram_size
  pub same_blocks : m'.dirty_blocks ≡ m.dirty_blocks

pub allocate-IsGrown :
    (m : Mmu) (size : ℕ)
    → m.alloc_ptr + size < m.ram_size
    → m.ram_size ≤ 2 ^ 64
    → (m' : Mmu) × (allocate m size ≡ ok (m.alloc_ptr, m')) × IsGrown m size m'
unfolding allocate
allocate-IsGrown m size fits small =
    let moved : Mmu = record m { alloc_ptr = add64 m.alloc_ptr size } in
    let first : ltb (add64 size m.alloc_ptr) m.ram_size ≡ true = ground arith in
    let (m', runs, is_set) =
      set_perms-IsGranted moved m.alloc_ptr size (bit_or perm_raw perm_write) fits small in
    (
      m',
      rw (first, runs) refl,
      record {
        pointer = is_set.same_pointer ∙ (ground arith);
        permission = is_set.permission;
        same_ram = is_set.same_ram;
        same_size = is_set.same_size;
        same_blocks = is_set.same_blocks;
      },
    )
