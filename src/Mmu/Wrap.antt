-- ===== src/Mmu/Wrap.antt =====
-- Accesses whose last address lies past 2 ^ 64: the sum in the bounds assertions of src/MMU.cpp
-- wraps round.
use vemu.Common.{ℕ, ◌+◌, ◌-◌, ◌^◌, ◌≤◌, ◌<◌, ◌≡◌, List, length, ok, for_range, arith}
use vemu.Isa.{ReturnException}
use vemu.Mmu.{Mmu, write_from, read_to, can_write_all, can_read_all, has_raw, read_data, rounds}
use vemu.Mmu.Cells.{rounds_wrapped}

module _ (m : Mmu) (start : ℕ) (low : start < 2 ^ 64) where
  -- A read of fewer than 2 ^ 63 bytes whose range runs past the end of the address space, so far that its end wraps round into
  -- the buffer, passes the assertion and returns zeros with `NormalExecutionReturn`, whatever the
  -- memory and its permissions are.
  read_to_wraps :
      (len : ℕ)
      → len < 2 ^ 63
      → 2 ^ 64 ≤ start + len
      → start + len - 2 ^ 64 < m.ram_size
      → read_to m start len ≡ ok (λ _. 0, ReturnException.normal_execution_return)
  unfolding read_to can_read_all has_raw read_data for_range
  read_to_wraps len short past fits =
      let none : rounds start len ≡ 0 = rounds_wrapped start len low (omega arith) past in
      rw none (ground arith)

  -- A write whose range runs past the end of the address space, so far that its end wraps round into
  -- the buffer, passes both assertions and stores nothing.
  write_from_wraps :
      (buf : List ℕ)
      → length buf < 2 ^ 64
      → 2 ^ 64 ≤ start + length buf
      → start + length buf - 2 ^ 64 < m.ram_size
      → write_from m buf start ≡ ok m
  unfolding write_from can_write_all for_range
  write_from_wraps buf short past fits =
      let none : rounds start (length buf) ≡ 0 = rounds_wrapped start (length buf) low short past in
      rw none (ground arith)

-- A read of fewer than 2 ^ 63 bytes, as many as a vector can have, whose range runs past the end of
-- the address space, so far that its end wraps round into the buffer, passes the assertion and returns zeros with `NormalExecutionReturn`, whatever the memory and
-- its permissions are; a write of such a range passes both assertions and stores nothing.
pub wraps_lem :
    (m : Mmu) (start : ℕ) (buf : List ℕ)
    → start < 2 ^ 64
    → length buf < 2 ^ 63
    → 2 ^ 64 ≤ start + length buf
    → start + length buf - 2 ^ 64 < m.ram_size
    → (read_to m start (length buf) ≡ ok (λ _. 0, ReturnException.normal_execution_return))
      × (write_from m buf start ≡ ok m)
wraps_lem m start buf low short past fits = (
  read_to_wraps m start low (length buf) short past fits,
  write_from_wraps m start low buf (omega arith) past fits,
)
