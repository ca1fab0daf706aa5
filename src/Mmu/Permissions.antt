-- ===== src/Mmu/Permissions.antt =====
-- What `write_from` and `read_to` of src/MMU.cpp do with the permission bytes.
use vemu.Common.{
  ℕ, ◌+◌, ◌-◌, ◌^◌, ◌≤◌, ◌<◌, bit_and, bit_or, ◌≡◌, refl, ap, Bool, true, false, ◌↔◌, inl, inr,
  ◌||◌, List, ◌==◌, if◌then◌else◌, get_or, length, ok, aborted, for_range, arith, Bool-cases,
}
use vemu.Bits.{bit_at, bit_at-bit_and, bit_at-bit_or, bit_and_field}
use vemu.Isa.{ReturnException}
use vemu.Mmu.{
  Mmu, perm_raw, perm_read, perm_write, has_perm, write_cell, write_from, read_to, can_read_all,
  can_write_all, has_raw, read_data, read_status,
}
use vemu.Mmu.Cells.{
  inside, touched, write_loop-ram, write_loop-permission, write_loop-rest, AllHave, NoneHas,
  rounds_lem, can_write_all_iff, can_read_all_iff, has_raw_iff, read_data_cell,
}

-- A test of one permission is a test of one bit.
module _ (p : ℕ) where
  pub has_raw_bit : has_perm p perm_raw ≡ (bit_at 3 p == 1)
  has_raw_bit = ground (arith, bit_and_field 3 1 p)

  pub has_read_bit : has_perm p perm_read ≡ (bit_at 2 p == 1)
  has_read_bit = ground (arith, bit_and_field 2 1 p)

  pub has_write_bit : has_perm p perm_write ≡ (bit_at 1 p == 1)
  has_write_bit = ground (arith, bit_and_field 1 1 p)

-- Setting the read bit and clearing the raw bit.
module _ (p : ℕ) where
  abbrev marked : ℕ
  marked = bit_and (bit_or p perm_read) 0xf7

  marked_raw : bit_at 3 marked ≡ 0
  marked_raw = omega (arith, bit_at-bit_and 3 (bit_or p perm_read) 0xf7)

  marked_read : bit_at 2 marked ≡ 1
  marked_read =
      omega (arith, bit_at-bit_and 2 (bit_or p perm_read) 0xf7, bit_at-bit_or 2 p perm_read)

  marked_write : bit_at 1 marked ≡ bit_at 1 p
  marked_write =
      omega (arith, bit_at-bit_and 1 (bit_or p perm_read) 0xf7, bit_at-bit_or 1 p perm_read)

-- A written cell is never raw, stays as writable as it was, and is readable if it was readable or
-- raw.
pub touched_lem :
    (p : ℕ)
    → (has_perm (touched p) perm_raw ≡ false)
      × (has_perm (touched p) perm_write ≡ has_perm p perm_write)
      × (has_perm (touched p) perm_read ≡ (has_perm p perm_read || has_perm p perm_raw))
touched_lem p = elim (Bool-cases (has_perm p perm_raw)) [
  | inl raw ↦ rw raw (
    ground (arith, has_raw_bit (marked p), marked_raw p),
    ground (arith, has_write_bit (marked p), has_write_bit p, marked_write p),
    ground (arith, has_read_bit (marked p), marked_read p),
  )
  | inr settled ↦ rw settled (settled, refl, ground arith)
]

-- What a write of `buf` at `start` leaves behind: exactly the range and its permissions change.
pub record IsWritten (m : Mmu) (buf : List ℕ) (start : ℕ) (m' : Mmu) : Type 0 where
  pub ram_at :
      (j : ℕ)
      → m'.ram j ≡ (if inside start (length buf) j then get_or buf (j - start) 0 else m.ram j)
  pub permission_at :
      (j : ℕ)
      → m'.byte_permission j ≡ (
          if inside start (length buf) j
          then touched (m.byte_permission j)
          else m.byte_permission j)
  pub same_blocks : m'.dirty_blocks ≡ m.dirty_blocks
  pub same_size : m'.ram_size ≡ m.ram_size
  pub same_pointer : m'.alloc_ptr ≡ m.alloc_ptr

module _ (m : Mmu) (buf : List ℕ) (start : ℕ) where
  abbrev written : Mmu
  written = for_range (length buf) start (write_cell buf start) m

  written-IsWritten : IsWritten m buf start written
  written-IsWritten = record {
    ram_at = λ j. write_loop-ram buf start (length buf) start j m;
    permission_at = λ j. write_loop-permission buf start (length buf) start j m;
    same_blocks = (write_loop-rest buf start (length buf) start m).0;
    same_size = (write_loop-rest buf start (length buf) start m).1;
    same_pointer = (write_loop-rest buf start (length buf) start m).2;
  }

  -- A write that fits and is allowed.
  pub write_from-IsWritten :
      start + length buf < m.ram_size
      → m.ram_size ≤ 2 ^ 64
      → AllHave m perm_write start (length buf)
      → (m' : Mmu) × (write_from m buf start ≡ ok m') × IsWritten m buf start m'
  unfolding write_from
  write_from-IsWritten fits small may_write = (written, runs, written-IsWritten)
    where
      runs : write_from m buf start ≡ ok written
      runs = ground (
        arith,
        ap (λ (n : ℕ). for_range n start (write_cell buf start) m)
            (rounds_lem start (length buf) (omega arith)),
        (can_write_all_iff m start (length buf) (omega arith)).1 may_write,
      )

  -- A write that does not fit or is not allowed.
  write_from-aborts :
      start + length buf < 2 ^ 64
      → (start + length buf < m.ram_size → ¬ AllHave m perm_write start (length buf))
      → write_from m buf start ≡ aborted
  unfolding write_from
  write_from-aborts small denied = elim (Bool-cases (can_write_all m start (length buf))) [
    | inl can ↦ ground (
      arith,
      λ (fits : start + length buf < m.ram_size).
          denied fits ((can_write_all_iff m start (length buf) small).0 can),
    )
    | inr cannot ↦ ground arith
  ]

  -- Into a buffer of at most 2 ^ 64 bytes, a write that ends below 2 ^ 64 succeeds if it fits and its
  -- cells are all writable: it stores the bytes in order, makes readable the cells that were readable
  -- or raw, and changes nothing else. If it does not fit, or if one of its cells is not writable, it
  -- fails an assertion.
  pub write_from_lem :
      m.ram_size ≤ 2 ^ 64
      → start + length buf < 2 ^ 64
      → (start + length buf < m.ram_size
          → AllHave m perm_write start (length buf)
          → (m' : Mmu) × (write_from m buf start ≡ ok m') × IsWritten m buf start m')
        × ((start + length buf < m.ram_size → ¬ AllHave m perm_write start (length buf))
            → write_from m buf start ≡ aborted)
  write_from_lem small below = (
    λ fits may_write. write_from-IsWritten fits small may_write,
    λ denied. write_from-aborts below denied,
  )

status_normal :
    (readable raw : Bool)
    → (read_status readable raw ≡ ReturnException.normal_execution_return)
      ↔ ((readable ≡ true) × (raw ≡ false))
unfolding read_status
status_normal readable raw = ground arith

status_raw :
    (readable raw : Bool)
    → (read_status readable raw ≡ ReturnException.uninitialized_memory_access) ↔ (¬ (raw ≡ false))
unfolding read_status
status_raw readable raw = ground arith

module _ (m : Mmu) (start len : ℕ) where
  -- A read of fewer than 2 ^ 63 bytes that fits into a buffer of at most 2 ^ 64 bytes returns the
  -- bytes there, and says `NormalExecutionReturn` exactly when every cell is readable and none is raw,
  -- and `UninitializedMemoryAccess` exactly when some cell is raw, whether or not all are readable. A
  -- longer read throws.
  pub read_to_lem :
      start + len < m.ram_size
      → m.ram_size ≤ 2 ^ 64
      → (len < 2 ^ 63
          → (d : ℕ → ℕ) × (e : ReturnException) × (read_to m start len ≡ ok (d, e))
            × ((k : ℕ) → k < len → d k ≡ m.ram (start + k))
            × ((e ≡ ReturnException.normal_execution_return)
                ↔ (AllHave m perm_read start len × NoneHas m perm_raw start len))
            × ((e ≡ ReturnException.uninitialized_memory_access)
                ↔ (¬ NoneHas m perm_raw start len)))
        × (2 ^ 63 ≤ len → read_to m start len ≡ aborted)
  unfolding read_to
  read_to_lem fits small = (
    λ short. (
      read_data m start len,
      read_status readable raw,
      ground arith,
      read_data_cell m start len low,
      (
        λ h.
            let (r, w) = (status_normal readable raw).0 h in
            ((can_read_all_iff m start len low).0 r, (has_raw_iff m start len low).0 w),
        λ h.
            (status_normal readable raw).1
              ((can_read_all_iff m start len low).1 h.0, (has_raw_iff m start len low).1 h.1),
      ),
      (
        λ h none_raw. (status_raw readable raw).0 h ((has_raw_iff m start len low).1 none_raw),
        λ some_raw. (status_raw readable raw).1 (λ w. some_raw ((has_raw_iff m start len low).0 w)),
      ),
    ),
    λ long. ground arith,
  )
    where
      readable : Bool
      readable = can_read_all m start len

      raw : Bool
      raw = has_raw m start len

      low : start + len < 2 ^ 64
      low = omega arith
