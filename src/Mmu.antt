-- ===== src/Mmu.antt =====
-- The memory of src/MMU.cpp and include/MMU.h: RAM, a permission byte for each byte of RAM, the
-- allocation pointer and the dirty blocks. The two vectors, which the constructor reserves, are
-- functions on addresses; an index is meaningful below `ram_size`.
pub mod Access
pub mod Cells
pub mod Permissions
pub mod RoundTrip
pub mod Reset
pub mod Wrap
pub mod Fill
pub mod Strings
pub mod Loading
pub mod Image
use vemu.Common.{
  ℕ, ◌+◌, ◌-◌, ◌/◌, ◌%◌, ◌^◌, max, bit_and, bit_or, Bool, true, false, not, ◌&&◌, ◌||◌, List, [],
  ◌∷◌, ltb, ◌==◌, if◌then◌else◌, get_or, length, Outcome, ok, aborted, undefined, ◌>>=◌, u8, u64,
  add64, ◌<<<◌, ◌>>>◌, for_range, update,
}
use vemu.Isa.{ReturnException}

abbrev pub perm_exec : ℕ
perm_exec = 1

abbrev pub perm_write : ℕ
perm_write = 2

abbrev pub perm_read : ℕ
perm_read = 4

abbrev pub perm_raw : ℕ
perm_raw = 8

abbrev pub block_size : ℕ
block_size = 4096

-- `(byte_permission[i] & mask) != 0`.
abbrev pub has_perm : ℕ → ℕ → Bool
has_perm p mask = not (bit_and p mask == 0)

pub record Mmu : Type 0 where
  pub ram : ℕ → ℕ
  pub byte_permission : ℕ → ℕ
  pub dirty_blocks : List ℕ
  pub ram_size : ℕ
  pub alloc_ptr : ℕ

-- The constructor reserves the two vectors of `raw` without filling them.
unfoldable pub new : Mmu → ℕ → Mmu
new raw mem_size = record raw { dirty_blocks = []; ram_size = mem_size; alloc_ptr = 0x10000 }

-- The copy constructor, on the object `raw`. The constructor above only reserves the two vectors, so
-- that their size is 0: assigning them copies no byte, and the copy has no memory of its own. What is
-- found in it has no meaning in C++, as the contents of `raw` stand for here.
unfoldable pub copy : Mmu → Mmu → Mmu
copy raw other = record raw {
  dirty_blocks = other.dirty_blocks;
  ram_size = other.ram_size;
  alloc_ptr = other.alloc_ptr;
}

-- `std::fill` over `size` bytes from `addr`. Where the end lies past the address space the iterators
-- of the range have no meaning.
unfoldable pub set_perms : Mmu → ℕ → ℕ → ℕ → Outcome Mmu
set_perms m addr size perm =
    if ltb (add64 addr size) m.ram_size
    then if ltb (addr + size) (2 ^ 64) then ok (record m { byte_permission = fill }) else undefined
    else aborted
  where
    fill : ℕ → ℕ
    fill = for_range size addr (λ i p. update p i perm) m.byte_permission

unfoldable pub allocate : Mmu → ℕ → Outcome (ℕ × Mmu)
allocate m size =
    let base = m.alloc_ptr in
    if ltb (add64 size base) m.ram_size
    then set_perms (record m { alloc_ptr = add64 m.alloc_ptr size }) base size
        (bit_or perm_raw perm_write)
      >>= (λ m'. ok (base, m'))
    else aborted

-- The end of `for (uint64_t i = start; i < start + n; i++)`, and its number of rounds: none if the
-- end has wrapped round to a smaller number.
abbrev pub end_of : ℕ → ℕ → ℕ
end_of start n = add64 start n

abbrev pub rounds : ℕ → ℕ → ℕ
rounds start n = end_of start n - start

-- The body of the second loop of `write_from`.
abbrev pub write_cell : List ℕ → ℕ → ℕ → Mmu → Mmu
write_cell buf start i m =
    let p = m.byte_permission i in
    record m {
      ram = update m.ram i (get_or buf (i - start) 0);
      byte_permission =
          if has_perm p perm_raw
          then update m.byte_permission i (bit_and (bit_or p perm_read) 0xf7)
          else m.byte_permission;
    }

-- `can_write_all` after the first loop.
unfoldable pub can_write_all : Mmu → ℕ → ℕ → Bool
can_write_all m start n =
    for_range (rounds start n) start (λ i all. all && has_perm (m.byte_permission i) perm_write)
      true

unfoldable pub write_from : Mmu → List ℕ → ℕ → Outcome Mmu
write_from m buf start =
    if ltb (end_of start (length buf)) m.ram_size
    then if can_write_all m start (length buf)
      then ok (for_range (rounds start (length buf)) start (write_cell buf start) m)
      else aborted
    else aborted

-- `can_read_all` and `has_raw` after the first loop of `read_to`.
unfoldable pub can_read_all : Mmu → ℕ → ℕ → Bool
can_read_all m start len =
    for_range (rounds start len) start (λ i all. all && has_perm (m.byte_permission i) perm_read)
      true

unfoldable pub has_raw : Mmu → ℕ → ℕ → Bool
has_raw m start len =
    for_range (rounds start len) start (λ i any. any || has_perm (m.byte_permission i) perm_raw)
      false

-- The vector that is returned, as a function: `len` zeros of which the second loop fills some.
unfoldable pub read_data : Mmu → ℕ → ℕ → ℕ → ℕ
read_data m start len =
    for_range (rounds start len) start (λ i out. update out (i - start) (m.ram i)) (λ _. 0)

unfoldable pub read_status : Bool → Bool → ReturnException
read_status readable true = ReturnException.uninitialized_memory_access
read_status false false = ReturnException.read_memory_with_no_permission
read_status true false = ReturnException.normal_execution_return

-- A vector of 2 ^ 63 bytes or more cannot be made: its constructor throws `std::length_error`.
unfoldable pub read_to : Mmu → ℕ → ℕ → Outcome ((ℕ → ℕ) × ReturnException)
unfolding read_status
read_to m start len =
    if ltb (end_of start len) m.ram_size
    then if ltb len (2 ^ 63)
      then ok (read_data m start len, read_status (can_read_all m start len) (has_raw m start len))
      else aborted
    else aborted
