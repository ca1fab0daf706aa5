-- ===== src/Mmu/Reset/Blocks.antt =====
-- The loops of `reset_to` of src/MMU.cpp over the dirty blocks.
use vemu.Common.{
  ℕ, zero, suc, ◌+◌, ◌*◌, ◌/◌, ◌≤◌, ◌≡◌, refl, Bool, true, false, ◌||◌, List, [], ◌∷◌, ◌==◌,
  if◌then◌else◌, ok, for_range, update, arith,
}
use vemu.Mmu.{Mmu, block_size}
use vemu.Mmu.Cells.{inside}
use vemu.Mmu.Access.{insert_block, restore_block, has_room, restore_blocks, reset_to}

abbrev pub has_block : ℕ → List ℕ → Bool
has_block b [] = false
has_block b (c ∷ cs) = b == c || has_block b cs

-- Outside the dirty blocks the memory is that of `other`.
abbrev pub Tracks : Mmu → Mmu → Type 0
Tracks m other = (j : ℕ) → has_block (j / block_size) m.dirty_blocks ≡ false → m.ram j ≡ other.ram j

copy_loop :
    (source : ℕ → ℕ) (n i j : ℕ) (r : ℕ → ℕ)
    → for_range n i (λ i r. update r i (source i)) r j ≡ (if inside i n j then source j else r j)
unfolding for_range
copy_loop source zero i j r = ground arith
copy_loop source (suc n) i j r =
    ground (arith, copy_loop source n (i + 1) j (update r i (source i)))

pub restore_block_cell :
    (other : Mmu) (b j : ℕ) (r : ℕ → ℕ)
    → restore_block other b r j ≡ (if j / block_size == b then other.ram j else r j)
unfolding restore_block
restore_block_cell other b j r = ground (arith, copy_loop other.ram block_size (b * block_size) j r)

-- Every block of the list lies in a buffer of `n` bytes.
abbrev pub AllInside : ℕ → List ℕ → Type 0
AllInside n bs = (b : ℕ) → has_block b bs ≡ true → b * block_size + block_size ≤ n

restore_blocks_lem :
    (m other : Mmu) (bs : List ℕ) (r : ℕ → ℕ)
    → m.ram_size ≤ other.ram_size
    → AllInside m.ram_size bs
    → ((j : ℕ) → has_block (j / block_size) bs ≡ false → r j ≡ other.ram j)
    → (r' : ℕ → ℕ) × (restore_blocks m other bs r ≡ ok r') × ((j : ℕ) → r' j ≡ other.ram j)
unfolding restore_blocks
restore_blocks_lem m other [] r sizes inside_m h = (r, refl, λ j. h j refl)
restore_blocks_lem m other (b ∷ bs) r sizes inside_m h =
    let room : b * block_size + block_size ≤ m.ram_size = inside_m b (ground arith) in
    let first : has_room m b ≡ true = ground (arith, room) in
    let second : has_room other b ≡ true = ground (arith, room, sizes) in
    let (r', runs, all) =
      restore_blocks_lem m other bs (restore_block other b r) sizes
        (λ c held. inside_m c (ground (arith, held)))
        (λ j out. ground (arith, restore_block_cell other b j r, h j)) in
    (r', rw (first, second) runs, all)

-- If every byte outside the dirty blocks is that of `other`, and these lie in the buffers, `reset_to`
-- makes all bytes those of `other`, and leaves no block dirty.
pub reset_to-Tracks :
    (m other : Mmu)
    → m.ram_size ≤ other.ram_size
    → AllInside m.ram_size m.dirty_blocks
    → Tracks m other
    → (m' : Mmu) × (reset_to m other ≡ ok m')
      × ((j : ℕ) → m'.ram j ≡ other.ram j)
      × (m'.dirty_blocks ≡ [])
unfolding reset_to
reset_to-Tracks m other sizes inside_m h =
    let (ram, runs, all) = restore_blocks_lem m other m.dirty_blocks m.ram sizes inside_m h in
    (record m { ram = ram; dirty_blocks = [] }, rw runs refl, all, refl)

pub has_block-insert :
    (b c : ℕ) (cs : List ℕ) → has_block b (insert_block c cs) ≡ (b == c || has_block b cs)
has_block-insert b c [] = refl
has_block-insert b c (d ∷ ds) = ground (arith, has_block-insert b c ds)
