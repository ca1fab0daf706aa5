-- ===== src/Mmu/Image.antt =====
-- What `load_file` of src/MMU.cpp leaves in memory.
use vemu.Common.{
  ℕ, zero, suc, ◌+◌, ◌-◌, ◌^◌, ◌≤◌, ◌<◌, ◌≡◌, refl, ap, ◌∙◌, Bool, true, false, ◌||◌, ltb, add64,
  if◌then◌else◌, List, [], ◌∷◌, length, get_or, ok, aborted, arith, Bool-cases, inl, inr,
}
use vemu.Bits.{bit_and_field}
use vemu.Fuzzing.Image.{MemorySegment, FileInfo}
use vemu.Mmu.{Mmu, perm_write, set_perms}
use vemu.Mmu.Cells.{inside}
use vemu.Mmu.Fill.{set_perms-IsGranted}
use vemu.Mmu.Permissions.{write_from-IsWritten}
use vemu.Mmu.Loading.{segment_bytes, pointer_after, load_segment, load_segments, load_file}

-- A byte of a segment: past those of the file it is 0.
abbrev pub segment_byte : MemorySegment → ℕ → ℕ
segment_byte g o = if ltb o g.file_size then g.bytes o else 0

length-segment_bytes : (g : MemorySegment) (i n : ℕ) → length (segment_bytes g i n) ≡ n
length-segment_bytes g i zero = refl
length-segment_bytes g i (suc n) = omega (arith, length-segment_bytes g (i + 1) n)

get_or-segment_bytes :
    (g : MemorySegment) (i n j : ℕ)
    → j < n
    → get_or (segment_bytes g i n) j 0 ≡ segment_byte g (i + j)
get_or-segment_bytes g i zero j h = absurd (omega arith)
get_or-segment_bytes g i (suc n) zero h = ap (segment_byte g) {x = i} {y = i + 0} (omega arith)
get_or-segment_bytes g i (suc n) (suc j) h =
    get_or-segment_bytes g (i + 1) n j (omega arith)
    ∙ ap (segment_byte g) {x = i + 1 + j} {y = i + suc j} (omega arith)

-- A cell of the segment's place.
abbrev pub covers : MemorySegment → ℕ → Bool
covers g j = inside g.start_addr g.mem_size j

abbrev pub Fits : Mmu → MemorySegment → Type 0
Fits m g = g.start_addr + g.mem_size < m.ram_size

-- The segment is put in its place, and the rest of the memory stays.
record IsPlaced (m : Mmu) (g : MemorySegment) (m' : Mmu) : Type 0 where
  ram_at : (j : ℕ) → m'.ram j ≡ (if covers g j then segment_byte g (j - g.start_addr) else m.ram j)
  permission_at :
      (j : ℕ) → m'.byte_permission j ≡ (if covers g j then g.perms else m.byte_permission j)
  same_size : m'.ram_size ≡ m.ram_size
  taken : (m.alloc_ptr ≤ m'.alloc_ptr) × (g.start_addr + g.mem_size ≤ m'.alloc_ptr)

-- The end of the segment, rounded up to a multiple of 64 KiB.
pointer_after_lem :
    (m : Mmu) (g : MemorySegment)
    → g.start_addr + g.mem_size + 0xffff < 2 ^ 64
    → (m.alloc_ptr ≤ pointer_after m g) × (g.start_addr + g.mem_size ≤ pointer_after m g)
pointer_after_lem m g small =
    let end = bit_and_field 16 48 (g.start_addr + g.mem_size + 0xffff) in
    (ground arith, ground (arith, end))

load_segment-IsPlaced :
    (m : Mmu) (g : MemorySegment)
    → Fits m g
    → m.ram_size + 0xffff ≤ 2 ^ 64
    → (m' : Mmu) × (load_segment m g ≡ ok m') × IsPlaced m g m'
unfolding load_segment
load_segment-IsPlaced m g fits small =
    let start = g.start_addr in
    let n = g.mem_size in
    let buf = segment_bytes g 0 n in
    let len = length-segment_bytes g 0 n in
    let (m1, opened, set1) = set_perms-IsGranted m start n perm_write fits (omega arith) in
    let in1 : start + length buf < m1.ram_size = omega (arith, set1.same_size, len, fits) in
    let small1 : m1.ram_size ≤ 2 ^ 64 = omega (arith, set1.same_size, small) in
    let (m2, stored, written) = write_from-IsWritten m1 buf start in1 small1 (λ j p q.
      let now : m1.byte_permission j ≡ perm_write = ground (arith, set1.permission j, len) in
      rw now refl) in
    let in2 : start + n < m2.ram_size = omega (arith, written.same_size, set1.same_size, fits) in
    let small2 : m2.ram_size ≤ 2 ^ 64 = omega (arith, written.same_size, small1) in
    let (m3, closed, set3) = set_perms-IsGranted m2 start n g.perms in2 small2 in
    let end = pointer_after_lem m3 g (omega arith) in
    (
      record m3 { alloc_ptr = pointer_after m3 g },
      rw (opened, stored, closed) refl,
      record {
        ram_at = λ j. elim (Bool-cases (covers g j)) [
          | inl here ↦ ground (
            arith,
            len,
            written.ram_at j,
            ap (λ (r : ℕ → ℕ). r j) set3.same_ram,
            get_or-segment_bytes g 0 n (j - start),
          )
          | inr out ↦ ground (
            arith,
            len,
            written.ram_at j,
            ap (λ (r : ℕ → ℕ). r j) set3.same_ram,
            ap (λ (r : ℕ → ℕ). r j) set1.same_ram,
          )
        ];
        permission_at =
            λ j. ground (arith, len, set3.permission j, written.permission_at j, set1.permission j);
        same_size = omega (arith, set3.same_size, written.same_size, set1.same_size);
        taken = (
          omega (arith, end.0, set3.same_pointer, written.same_pointer, set1.same_pointer),
          end.1,
        );
      },
    )

-- A cell of the place of one of the segments.
unfoldable pub covered : List MemorySegment → ℕ → Bool
covered [] j = false
covered (g ∷ gs) j = covers g j || covered gs j

-- No segment's place overlaps a later one's.
unfoldable pub AreApart : List MemorySegment → Type 0
unfolding covered
AreApart [] = Unit
AreApart (g ∷ gs) = ((j : ℕ) → covers g j ≡ true → covered gs j ≡ false) × AreApart gs

unfoldable pub AllFit : Mmu → List MemorySegment → Type 0
AllFit m [] = Unit
AllFit m (g ∷ gs) = Fits m g × AllFit m gs

-- The bytes and the permissions of the segment are in its place, below the next free byte.
abbrev pub Stands : Mmu → MemorySegment → Type 0
Stands m g =
    ((o : ℕ)
      → o < g.mem_size
      → (m.ram (g.start_addr + o) ≡ segment_byte g o)
        × (m.byte_permission (g.start_addr + o) ≡ g.perms))
    × (g.start_addr + g.mem_size ≤ m.alloc_ptr)

unfoldable pub AllStand : Mmu → List MemorySegment → Type 0
AllStand m [] = Unit
AllStand m (g ∷ gs) = Stands m g × AllStand m gs

-- Outside the places of the segments nothing changes.
pub record IsImage (m : Mmu) (gs : List MemorySegment) (m' : Mmu) : Type 0 where
  pub all_stand : AllStand m' gs
  pub rest :
      (j : ℕ)
      → covered gs j ≡ false
      → (m'.ram j ≡ m.ram j) × (m'.byte_permission j ≡ m.byte_permission j)
  pub pointer : m.alloc_ptr ≤ m'.alloc_ptr

AllFit-same :
    (m m' : Mmu) (gs : List MemorySegment) → m'.ram_size ≡ m.ram_size → AllFit m gs → AllFit m' gs
unfolding AllFit
AllFit-same m m' [] same h = tt
AllFit-same m m' (g ∷ gs) same h = (omega (arith, same, h.0), AllFit-same m m' gs same h.1)

load_segments-IsImage :
    (m : Mmu) (gs : List MemorySegment)
    → AllFit m gs
    → AreApart gs
    → m.ram_size + 0xffff ≤ 2 ^ 64
    → (m' : Mmu) × (load_segments m gs ≡ ok m') × IsImage m gs m'
unfolding load_segments covered AreApart AllFit AllStand
load_segments-IsImage m [] fits apart small =
    (m, refl, record { all_stand = tt; rest = λ j h. (refl, refl); pointer = omega arith })
load_segments-IsImage m (g ∷ gs) fits apart small =
    let (m1, first, placed) = load_segment-IsPlaced m g fits.0 small in
    let (m', later, image) =
      load_segments-IsImage m1 gs (AllFit-same m m1 gs placed.same_size fits.1) apart.1
        (omega (arith, placed.same_size, small)) in
    (
      m',
      rw (first, later) refl,
      record {
        all_stand = (
          (
            λ o below.
                let here : covers g (g.start_addr + o) ≡ true = ground arith in
                let kept = image.rest (g.start_addr + o) (apart.0 (g.start_addr + o) here) in
                (
                  kept.0 ∙ ground (arith, placed.ram_at (g.start_addr + o)),
                  kept.1 ∙ ground (arith, placed.permission_at (g.start_addr + o)),
                ),
            omega (arith, placed.taken.1, image.pointer),
          ),
          image.all_stand,
        );
        rest = λ j out.
            let kept = image.rest j (ground arith) in
            (
              kept.0 ∙ ground (arith, placed.ram_at j),
              kept.1 ∙ ground (arith, placed.permission_at j),
            );
        pointer = omega (arith, placed.taken.0, image.pointer);
      },
    )

load_segment-aborts :
    (m : Mmu) (g : MemorySegment)
    → m.ram_size ≤ g.start_addr + g.mem_size
    → g.start_addr + g.mem_size < 2 ^ 64
    → load_segment m g ≡ aborted
unfolding load_segment set_perms
load_segment-aborts m g outside small =
    let test : ltb (add64 g.start_addr g.mem_size) m.ram_size ≡ false = ground arith in rw test refl

unfoldable pub AllBounded : List MemorySegment → Type 0
AllBounded [] = Unit
AllBounded (g ∷ gs) = (g.start_addr + g.mem_size < 2 ^ 64) × AllBounded gs

load_segments-aborts :
    (m : Mmu) (gs : List MemorySegment)
    → AllBounded gs
    → (¬ AllFit m gs)
    → m.ram_size + 0xffff ≤ 2 ^ 64
    → load_segments m gs ≡ aborted
unfolding load_segments AllBounded AllFit
load_segments-aborts m [] bounded misfit small = absurd (misfit tt)
load_segments-aborts m (g ∷ gs) bounded misfit small =
    elim (Bool-cases (ltb (g.start_addr + g.mem_size) m.ram_size)) [
      | inl within ↦
          let fits : Fits m g = ground arith in
          let (m1, first, placed) = load_segment-IsPlaced m g fits small in
          let later =
            load_segments-aborts m1 gs bounded.1
              (λ rest. misfit (fits, AllFit-same m1 m gs (omega (arith, placed.same_size)) rest))
              (omega (arith, placed.same_size, small)) in
          rw (first, later) refl
      | inr outside ↦ rw (load_segment-aborts m g (ground arith) bounded.0) refl
    ]

-- In a memory of at most 2 ^ 64 - 0xffff bytes, an image whose segments end below its size and do not
-- overlap is loaded: every segment's bytes, filled up with 0, and its permissions are in its place,
-- which ends at or before the next free byte, and outside the segments nothing changes. If a segment
-- does not end below the memory's size, and none wraps round, an assertion fails.
pub load_file_lem :
    (m : Mmu) (info : FileInfo)
    → m.ram_size + 0xffff ≤ 2 ^ 64
    → (AllFit m info.segments
        → AreApart info.segments
        → (m' : Mmu) × (load_file m info ≡ ok m') × IsImage m info.segments m')
      × (AllBounded info.segments → (¬ AllFit m info.segments) → load_file m info ≡ aborted)
unfolding load_file
load_file_lem m info small = (
  λ fits apart. load_segments-IsImage m info.segments fits apart small,
  λ bounded misfit. load_segments-aborts m info.segments bounded misfit small,
)
