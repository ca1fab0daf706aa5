-- ===== src/Mmu/Loading.antt =====
-- `load_file` of src/MMU.cpp, which copies the segments of an image into memory.
use vemu.Common.{
  ℕ, zero, suc, ◌+◌, ◌-◌, ◌^◌, bit_and, max, ltb, if◌then◌else◌, List, [], ◌∷◌, Outcome, ok, ◌>>=◌,
  add64,
}
use vemu.Fuzzing.Image.{MemorySegment, FileInfo}
use vemu.Mmu.{Mmu, perm_write, set_perms, write_from}

-- The first `mem_size` bytes of the segment, with 0 behind the `file_size` bytes that it has.
abbrev pub segment_bytes : MemorySegment → ℕ → ℕ → List ℕ
segment_bytes g i zero = []
segment_bytes g i (suc n) = (if ltb i g.file_size then g.bytes i else 0) ∷ segment_bytes g (i + 1) n

-- `std::max(alloc_ptr, (start_addr + mem_size + 0xFFFF) & ~0xFFFF)`.
abbrev pub pointer_after : Mmu → MemorySegment → ℕ
pointer_after m g =
    max m.alloc_ptr (bit_and (add64 (add64 g.start_addr g.mem_size) 0xffff) (2 ^ 64 - 1 - 0xffff))

unfoldable pub load_segment : Mmu → MemorySegment → Outcome Mmu
load_segment m g = do
  m1 ← set_perms m g.start_addr g.mem_size perm_write
  m2 ← write_from m1 (segment_bytes g 0 g.mem_size) g.start_addr
  m3 ← set_perms m2 g.start_addr g.mem_size g.perms
  ok (record m3 { alloc_ptr = pointer_after m3 g })

unfoldable pub load_segments : Mmu → List MemorySegment → Outcome Mmu
unfolding load_segment
load_segments m [] = ok m
load_segments m (g ∷ gs) = load_segment m g >>= λ m'. load_segments m' gs

unfoldable pub load_file : Mmu → FileInfo → Outcome Mmu
unfolding load_segments
load_file m info = load_segments m info.segments
