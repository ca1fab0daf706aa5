-- ===== src/Mmu/Reset.antt =====
-- `reset_to` of src/MMU.cpp undoes stores by the dirty blocks that `store` records.
pub mod Blocks
use vemu.Common.{
  ℕ, zero, suc, ◌+◌, ◌-◌, ◌*◌, ◌/◌, ◌%◌, ◌^◌, ◌≤◌, ◌<◌, ◌≡◌, refl, ap, sym, ◌∙◌, Bool, true, false,
  inl, inr, ◌||◌, List, [], ◌∷◌, ◌==◌, leb, if◌then◌else◌, get_or, length, Outcome, ok, ◌>>=◌,
  for_range, update, arith, Bool-cases, >>=-eq-ok,
}
use mathlib.Core.Path.{subst}
use vemu.Isa.{ReturnException}
use vemu.Mmu.{Mmu, block_size, write_from, rounds}
use vemu.Mmu.Cells.{inside, write_loop-ram, write_loop-rest}
use vemu.Mmu.RoundTrip.{Width, bytes, bits, split, IsUsable, store_bytes-split, wrote}
use vemu.Mmu.Access.{
  insert_block, store, store_bytes, restore_block, has_room, restore_blocks, reset_to,
}
use vemu.Mmu.Reset.Blocks.{
  has_block, Tracks, AllInside, restore_block_cell, reset_to-Tracks, has_block-insert,
}

-- A store at a width, and a run of stores.
pub record StoreOp : Type 0 where
  pub width : Width
  pub addr : ℕ
  pub value : ℕ

unfoldable pub run_stores : Mmu → List StoreOp → Outcome Mmu
run_stores m [] = ok m
run_stores m (s ∷ rest) = store m s.addr s.value (bits s.width) >>= λ (e, m'). run_stores m' rest

-- The store ends below 2 ^ 64 and in the block in which it begins.
abbrev pub Within : StoreOp → Type 0
Within s = (s.addr % block_size + bytes s.width ≤ block_size) × (s.addr + bytes s.width < 2 ^ 64)

abbrev pub AllWithin : List StoreOp → Type 0
AllWithin [] = Unit {0}
AllWithin (s ∷ rest) = Within s × AllWithin rest

write_from-outside :
    (m : Mmu) (buf : List ℕ) (start j : ℕ) {m' : Mmu}
    → write_from m buf start ≡ ok m'
    → inside start (length buf) j ≡ false
    → (m'.ram j ≡ m.ram j) × (m'.dirty_blocks ≡ m.dirty_blocks)
unfolding write_from
write_from-outside m buf start j h out = ground (
  arith,
  write_loop-ram buf start (rounds start (length buf)) start j m,
  write_loop-rest buf start (rounds start (length buf)) start m,
)

ram_of : ℕ → Outcome (ReturnException × Mmu) → ℕ
ram_of j (ok (e, m)) = m.ram j
ram_of j _ = 0

blocks_of : Outcome (ReturnException × Mmu) → List ℕ
blocks_of (ok (e, m)) = m.dirty_blocks
blocks_of _ = []

store-Tracks :
    (s : StoreOp) (m other : Mmu) {e : ReturnException} {m' : Mmu}
    → Within s
    → store m s.addr s.value (bits s.width) ≡ ok (e, m')
    → Tracks m other
    → Tracks m' other
unfolding store ram_of blocks_of
store-Tracks s m other {m'} within runs tracks j clean =
    let buf = split s.width s.value in
    let (shape, len) = store_bytes-split s.width m s.addr s.value in
    let (m1, writes, rest) = >>=-eq-ok (store_bytes m s.addr s.value (bits s.width)) _ runs in
    let same : m1.ram j ≡ m'.ram j = ap (ram_of j) rest in
    let dirty : insert_block (s.addr / block_size) m1.dirty_blocks ≡ m'.dirty_blocks =
      ap blocks_of rest in
    elim (Bool-cases (inside s.addr (length buf) j)) [
      | inl in_range ↦ absurd (
          ground
            (arith, len, has_block-insert (j / block_size) (s.addr / block_size) m1.dirty_blocks))
      | inr out ↦ ground (
        arith,
        write_from-outside m buf s.addr j (sym shape ∙ writes) out,
        has_block-insert (j / block_size) (s.addr / block_size) m1.dirty_blocks,
        tracks j,
      )
    ]

size_of : Outcome (ReturnException × Mmu) → ℕ
size_of (ok (e, m)) = m.ram_size
size_of _ = 0

write_from-fits :
    (m : Mmu) (buf : List ℕ) (start : ℕ) {m' : Mmu}
    → write_from m buf start ≡ ok m'
    → start + length buf < 2 ^ 64
    → (start + length buf < m.ram_size)
      × (m'.ram_size ≡ m.ram_size)
      × (m'.dirty_blocks ≡ m.dirty_blocks)
unfolding write_from
write_from-fits m buf start h low =
    ground (arith, write_loop-rest buf start (rounds start (length buf)) start m)

-- Whole blocks fill the buffer, and the dirty ones lie in it.
abbrev pub IsWhole : Mmu → Type 0
IsWhole m = (m.ram_size % block_size ≡ 0) × AllInside m.ram_size m.dirty_blocks

store-IsWhole :
    (s : StoreOp) (m : Mmu) {e : ReturnException} {m' : Mmu}
    → Within s
    → store m s.addr s.value (bits s.width) ≡ ok (e, m')
    → IsWhole m
    → (m'.ram_size ≡ m.ram_size) × IsWhole m'
unfolding store size_of blocks_of
store-IsWhole s m {m'} within runs whole =
    let (shape, len) = store_bytes-split s.width m s.addr s.value in
    let (m1, writes, rest) = >>=-eq-ok (store_bytes m s.addr s.value (bits s.width)) _ runs in
    let fits =
      write_from-fits m (split s.width s.value) s.addr (sym shape ∙ writes)
        (omega (arith, len, within.1)) in
    let size : m'.ram_size ≡ m.ram_size = sym (ap size_of rest) ∙ fits.1 in
    let same = fits.2 in
    let dirty : insert_block (s.addr / block_size) m1.dirty_blocks ≡ m'.dirty_blocks =
      ap blocks_of rest in
    (
      size,
      (
        omega (arith, size, whole.0),
        λ b held. ground (
          arith,
          size,
          fits.0,
          len,
          whole.0,
          whole.1 b,
          ap (has_block b) same,
          ap (has_block b) dirty,
          has_block-insert b (s.addr / block_size) m1.dirty_blocks,
        ),
      ),
    )

run_stores-IsWhole :
    (l : List StoreOp) (m : Mmu) {m' : Mmu}
    → AllWithin l
    → run_stores m l ≡ ok m'
    → IsWhole m
    → (m'.ram_size ≡ m.ram_size) × IsWhole m'
unfolding run_stores
run_stores-IsWhole [] m {m'} within runs whole =
    subst (λ (x : Mmu). (x.ram_size ≡ m.ram_size) × IsWhole x) (same runs) (refl, whole)
  where
    same : {m m' : Mmu} → ◌≡◌ {A = Outcome Mmu} (ok m) (ok m') → m ≡ m'
    same h = cc
run_stores-IsWhole (s ∷ rest) m within runs whole =
    let ((e, m1), first, later) = >>=-eq-ok (store m s.addr s.value (bits s.width)) _ runs in
    let (size, kept) = store-IsWhole s m within.0 first whole in
    let (size', kept') = run_stores-IsWhole rest m1 within.1 later kept in (size' ∙ size, kept')

run_stores-Tracks :
    (l : List StoreOp) (m other : Mmu) {m' : Mmu}
    → AllWithin l
    → run_stores m l ≡ ok m'
    → Tracks m other
    → Tracks m' other
unfolding run_stores
run_stores-Tracks [] m other within runs tracks =
    subst (λ (x : Mmu). Tracks x other) (same runs) tracks
  where
    same : {m m' : Mmu} → ◌≡◌ {A = Outcome Mmu} (ok m) (ok m') → m ≡ m'
    same h = cc
run_stores-Tracks (s ∷ rest) m other within runs tracks =
    let ((e, m1), first, later) = >>=-eq-ok (store m s.addr s.value (bits s.width)) _ runs in
    run_stores-Tracks rest m1 other within.1 later (store-Tracks s m other within.0 first tracks)

-- A store that reaches into a second block is not undone there.
reset_to-straddle :
    (w : Width) (m other : Mmu) (addr v j : ℕ)
    → m.ram_size ≤ other.ram_size
    → m.ram_size % block_size ≡ 0
    → IsUsable m addr (bytes w)
    → m.dirty_blocks ≡ []
    → addr ≤ j
    → j < addr + bytes w
    → addr / block_size < j / block_size
    → (m1 : Mmu) × (store m addr v (bits w) ≡ ok (ReturnException.normal_execution_return, m1))
      × ((m2 : Mmu) × (reset_to m1 other ≡ ok m2) × (m2.ram j ≡ get_or (split w v) (j - addr) 0))
unfolding store reset_to restore_blocks
reset_to-straddle w m other addr v j sizes whole usable clean p q next =
    let (shape, len) = store_bytes-split w m addr v in
    let (m1, runs, now) = wrote m (split w v) addr (rw len usable) in
    let block = addr / block_size in
    let one : insert_block block m1.dirty_blocks ≡ block ∷ [] = rw (now.same_blocks, clean) refl in
    let room : block * block_size + block_size ≤ m.ram_size = omega (arith, usable.fits, whole) in
    let first : leb (block * block_size + block_size) m1.ram_size ≡ true =
      ground (arith, room, now.same_size) in
    let second : has_room other block ≡ true = ground (arith, room, sizes) in
    (
      record m1 { dirty_blocks = insert_block block m1.dirty_blocks },
      rw (shape, runs) refl,
      (
        record m1 { ram = restore_block other block m1.ram; dirty_blocks = [] },
        rw (one, first, second) refl,
        ground (arith, restore_block_cell other block j m1.ram, now.ram_at j, len),
      ),
    )

-- Let a memory consist of whole blocks, with the dirty ones in it, and let `other` be at least as large
-- and hold the same bytes. Whatever stores run on the memory, each ending below 2 ^ 64 and within one
-- block, `reset_to` of `other` then gives back every byte and leaves no block dirty. But if no block was
-- dirty, a store that reaches into a second block is not undone there: each byte that it puts behind
-- the block of its address is still there after `reset_to`.
pub reset_to_lem :
    (m m' other : Mmu) (l : List StoreOp)
    → IsWhole m
    → m.ram_size ≤ other.ram_size
    → ((j : ℕ) → m.ram j ≡ other.ram j)
    → AllWithin l
    → run_stores m l ≡ ok m'
    → ((m2 : Mmu) × (reset_to m' other ≡ ok m2)
        × ((j : ℕ) → m2.ram j ≡ m.ram j)
        × (m2.dirty_blocks ≡ []))
      × ((w : Width) (addr v j : ℕ)
          → IsUsable m addr (bytes w)
          → m.dirty_blocks ≡ []
          → addr ≤ j
          → j < addr + bytes w
          → addr / block_size < j / block_size
          → (m1 : Mmu) × (store m addr v (bits w)
              ≡ ok (ReturnException.normal_execution_return, m1))
            × ((m2 : Mmu) × (reset_to m1 other ≡ ok m2)
                × (m2.ram j ≡ get_or (split w v) (j - addr) 0)))
reset_to_lem m m' other l whole sizes same within runs =
    let (size, whole') = run_stores-IsWhole l m {m' = m'} within runs whole in
    let (m2, resets, all, clean) =
      reset_to-Tracks m' other (omega (arith, size, sizes)) whole'.1
        (run_stores-Tracks l m other {m' = m'} within runs (λ j _. same j)) in
    (
      (m2, resets, λ j. all j ∙ sym (same j), clean),
      λ w addr v j. reset_to-straddle w m other addr v j sizes whole.0,
    )
