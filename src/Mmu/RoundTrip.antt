-- ===== src/Mmu/RoundTrip.antt =====
-- A load gives back what a store has put into memory, at each of the four widths of src/MMU.cpp.
use vemu.Common.{
  ℕ, ◌+◌, ◌-◌, ◌*◌, ◌/◌, ◌%◌, ◌^◌, ◌≤◌, ◌<◌, ◌≡◌, refl, ap, ◌∙◌, true, ◌||◌, ◌⊎◌, List, [], ◌∷◌,
  if◌then◌else◌, get_or, length, ok, ◌>>=◌, u8, arith,
}
use vemu.Bits.{zero-bit_or, bit_or_fields, bit_and_mask}
use vemu.Isa.{ReturnException}
use vemu.Mmu.{
  Mmu, perm_raw, perm_read, perm_write, has_perm, write_from, read_to, block_size, can_read_all,
  has_raw, read_data,
}
use vemu.Mmu.Cells.{inside, AllHave, NoneHas}
use vemu.Mmu.Permissions.{touched_lem, IsWritten, write_from-IsWritten, read_to_lem}
use vemu.Mmu.Access.{
  word_of_1, word_of_2, word_of_4, word_of_8, byte_of, low_byte, insert_block, load, load_byte,
  load_hword, load_word, load_dword, store, store_bytes,
}

-- The widths of a load or store.
pub data Width : Type 0 where
  byte hword word dword : Width

abbrev pub bytes : Width → ℕ
bytes Width.byte = 1
bytes Width.hword = 2
bytes Width.word = 4
bytes Width.dword = 8

abbrev pub bits : Width → ℕ
bits w = 8 * bytes w

-- The bytes that `store` writes, and the word that `load` makes of the bytes that it reads.
abbrev pub split : Width → ℕ → List ℕ
split Width.byte v = u8 v ∷ []
split Width.hword v = low_byte v ∷ byte_of v 1 ∷ []
split Width.word v = low_byte v ∷ byte_of v 1 ∷ byte_of v 2 ∷ byte_of v 3 ∷ []
split Width.dword v =
    low_byte v
    ∷ byte_of v 1
    ∷ byte_of v 2
    ∷ byte_of v 3
    ∷ byte_of v 4
    ∷ byte_of v 5
    ∷ byte_of v 6
    ∷ byte_of v 7
    ∷ []

abbrev pub join : Width → (ℕ → ℕ) → ℕ
join Width.byte = word_of_1
join Width.hword = word_of_2
join Width.word = word_of_4
join Width.dword = word_of_8

pub store_bytes-split :
    (w : Width) (m : Mmu) (addr v : ℕ)
    → (store_bytes m addr v (bits w) ≡ write_from m (split w v) addr)
      × (length (split w v) ≡ bytes w)
unfolding store_bytes
store_bytes-split Width.byte m addr v = (refl, refl)
store_bytes-split Width.hword m addr v = (refl, refl)
store_bytes-split Width.word m addr v = (refl, refl)
store_bytes-split Width.dword m addr v = (refl, refl)

load-join :
    (w : Width) (m : Mmu) (addr : ℕ)
    → load m addr (bits w) ≡ (read_to m addr (bytes w) >>= λ (d, e). ok (join w d, e))
unfolding load load_byte load_hword load_word load_dword
load-join Width.byte m addr = refl
load-join _ m addr = refl

-- `|` of bytes at distinct places is their sum.
module _ (d : ℕ → ℕ) where
  join_1 : word_of_1 d ≡ d 0
  join_1 = zero-bit_or (d 0)

  join_2 : d 0 < 256 → word_of_2 d ≡ d 0 + d 1 * 2 ^ 8
  join_2 s0 = rw join_1 (bit_or_fields 8 (d 0) (d 1) s0)

  abbrev low_half : ℕ
  low_half = d 0 + d 1 * 2 ^ 8 + d 2 * 2 ^ 16 + d 3 * 2 ^ 24

  join_4 : d 0 < 256 → d 1 < 256 → d 2 < 256 → word_of_4 d ≡ low_half
  join_4 s0 s1 s2 = rw (
    join_2 s0,
    bit_or_fields 16 (d 0 + d 1 * 2 ^ 8) (d 2) (omega arith),
    bit_or_fields 24 (d 0 + d 1 * 2 ^ 8 + d 2 * 2 ^ 16) (d 3) (omega arith),
  )

  join_8 :
      d 0 < 256
      → d 1 < 256
      → d 2 < 256
      → d 3 < 256
      → d 4 < 256
      → d 5 < 256
      → d 6 < 256
      → word_of_8 d ≡ low_half + d 4 * 2 ^ 32 + d 5 * 2 ^ 40 + d 6 * 2 ^ 48 + d 7 * 2 ^ 56
  join_8 s0 s1 s2 s3 s4 s5 s6 = rw (
    join_4 s0 s1 s2,
    bit_or_fields 32 low_half (d 4) (omega arith),
    bit_or_fields 40 (low_half + d 4 * 2 ^ 32) (d 5) (omega arith),
    bit_or_fields 48 (low_half + d 4 * 2 ^ 32 + d 5 * 2 ^ 40) (d 6) (omega arith),
    bit_or_fields 56 (low_half + d 4 * 2 ^ 32 + d 5 * 2 ^ 40 + d 6 * 2 ^ 48) (d 7) (omega arith),
  )

-- The bytes of a word, as digits.
byte_of_digit : (v k : ℕ) → byte_of v k ≡ v / 2 ^ (8 * k) % 256
byte_of_digit v k = ground (arith, bit_and_mask 8 (v / 2 ^ (8 * k)))

low_byte_digit : (v : ℕ) → low_byte v ≡ v % 256
low_byte_digit v = ground (arith, bit_and_mask 8 (v % 256))

join-split :
    (w : Width) (d : ℕ → ℕ) (v : ℕ)
    → ((k : ℕ) → k < bytes w → d k ≡ get_or (split w v) k 0)
    → join w d ≡ v % 2 ^ bits w
join-split Width.byte d v h = rw (join_1 d, h 0 (omega arith)) refl
join-split Width.hword d v h =
    let e0 : d 0 ≡ v % 256 = h 0 (omega arith) ∙ low_byte_digit v in
    let e1 : d 1 ≡ v / 2 ^ 8 % 256 = h 1 (omega arith) ∙ byte_of_digit v 1 in
    omega (arith, join_2 d (omega arith))
join-split Width.word d v h =
    let e0 : d 0 ≡ v % 256 = h 0 (omega arith) ∙ low_byte_digit v in
    let e1 : d 1 ≡ v / 2 ^ 8 % 256 = h 1 (omega arith) ∙ byte_of_digit v 1 in
    let e2 : d 2 ≡ v / 2 ^ 16 % 256 = h 2 (omega arith) ∙ byte_of_digit v 2 in
    let e3 : d 3 ≡ v / 2 ^ 24 % 256 = h 3 (omega arith) ∙ byte_of_digit v 3 in
    omega (arith, join_4 d (omega arith) (omega arith) (omega arith))
join-split Width.dword d v h =
    let e0 : d 0 ≡ v % 256 = h 0 (omega arith) ∙ low_byte_digit v in
    let e1 : d 1 ≡ v / 2 ^ 8 % 256 = h 1 (omega arith) ∙ byte_of_digit v 1 in
    let e2 : d 2 ≡ v / 2 ^ 16 % 256 = h 2 (omega arith) ∙ byte_of_digit v 2 in
    let e3 : d 3 ≡ v / 2 ^ 24 % 256 = h 3 (omega arith) ∙ byte_of_digit v 3 in
    let e4 : d 4 ≡ v / 2 ^ 32 % 256 = h 4 (omega arith) ∙ byte_of_digit v 4 in
    let e5 : d 5 ≡ v / 2 ^ 40 % 256 = h 5 (omega arith) ∙ byte_of_digit v 5 in
    let e6 : d 6 ≡ v / 2 ^ 48 % 256 = h 6 (omega arith) ∙ byte_of_digit v 6 in
    let e7 : d 7 ≡ v / 2 ^ 56 % 256 = h 7 (omega arith) ∙ byte_of_digit v 7 in
    omega (
      arith,
      join_8 d (omega arith) (omega arith) (omega arith) (omega arith) (omega arith) (omega arith)
          (omega arith),
    )

-- What it takes to store a word and to read it back: it lies in the buffer, every cell is writable,
-- and every cell is readable or not yet initialised.
pub record IsUsable (m : Mmu) (addr n : ℕ) : Type 0 where
  pub fits : addr + n < m.ram_size
  pub small : m.ram_size ≤ 2 ^ 64
  pub may_write : AllHave m perm_write addr n
  pub may_read :
      (j : ℕ)
      → addr ≤ j
      → j < addr + n
      → (has_perm (m.byte_permission j) perm_read || has_perm (m.byte_permission j) perm_raw) ≡ true

-- Bytes that are written are read back.
module _ (m : Mmu) (buf : List ℕ) (start : ℕ) (usable : IsUsable m start (length buf)) where
  pub wrote : (m' : Mmu) × (write_from m buf start ≡ ok m') × IsWritten m buf start m'
  wrote = write_from-IsWritten m buf start usable.fits usable.small usable.may_write

  module _ (m' : Mmu) (now : IsWritten m buf start m') where
    all_readable : AllHave m' perm_read start (length buf)
    all_readable j p q =
        ground
          (arith, now.permission_at j, usable.may_read j p q, touched_lem (m.byte_permission j))

    none_raw : NoneHas m' perm_raw start (length buf)
    none_raw j p q = ground (arith, now.permission_at j, touched_lem (m.byte_permission j))

    read_back :
        length buf < 2 ^ 63
        → (d : ℕ → ℕ) × (read_to m' start (length buf)
            ≡ ok (d, ReturnException.normal_execution_return))
          × ((k : ℕ) → k < length buf → d k ≡ get_or buf k 0)
    read_back short =
        let fits : start + length buf < m'.ram_size = omega (arith, now.same_size, usable.fits) in
        let (d, e, runs, cells, normal, uninit) =
          (read_to_lem m' start (length buf) fits (omega (arith, now.same_size, usable.small))).0
            short in
        (
          d,
          runs ∙ ap (λ (x : ReturnException). ok (d, x)) (normal.1 (all_readable, none_raw)),
          λ k p. cells k p ∙ now.ram_at (start + k) ∙ at k p,
        )
      where
        at :
            (k : ℕ)
            → k < length buf
            → (if inside start (length buf) (start + k)
                then get_or buf (start + k - start) 0
                else m.ram (start + k))
              ≡ get_or buf k 0
        at k p =
            let e : start + k - start ≡ k = omega arith in
            ground (arith, ap (λ (i : ℕ). get_or buf i 0) e)

few_bytes : (w : Width) → bytes w < 2 ^ 63
few_bytes Width.byte = omega arith
few_bytes Width.hword = omega arith
few_bytes Width.word = omega arith
few_bytes Width.dword = omega arith

-- The dirty blocks play no part in a read.
read_to-dirty :
    (m : Mmu) (blocks : List ℕ) (start len : ℕ)
    → read_to (record m { dirty_blocks = blocks }) start len ≡ read_to m start len
unfolding read_to can_read_all has_raw read_data
read_to-dirty m blocks start len = refl

-- Storing a value at a width into usable memory and loading it again at that width gives its low
-- bits, with no exception, and the store leaves every byte outside its range as it was.
pub load-store :
    (w : Width) (m : Mmu) (addr v : ℕ)
    → IsUsable m addr (bytes w)
    → (m' : Mmu) × (store m addr v (bits w) ≡ ok (ReturnException.normal_execution_return, m'))
      × (load m' addr (bits w) ≡ ok (v % 2 ^ bits w, ReturnException.normal_execution_return))
      × ((j : ℕ) → (j < addr) ⊎ (addr + bytes w ≤ j) → m'.ram j ≡ m.ram j)
unfolding store
load-store w m addr v usable =
    let same = (store_bytes-split w m addr v).1 in
    let short : length (split w v) < 2 ^ 63 = omega (arith, same, few_bytes w) in
    let usable' : IsUsable m addr (length (split w v)) = rw same usable in
    let (m1, runs, now) = wrote m (split w v) addr usable' in
    let (d, reads, cells) = read_back m (split w v) addr usable' m1 now short in
    let blocks = insert_block (addr / block_size) m1.dirty_blocks in
    let m2 : Mmu = record m1 { dirty_blocks = blocks } in
    let reads' : read_to m1 addr (bytes w) ≡ ok (d, ReturnException.normal_execution_return) =
      rw (← same) reads in
    (
      m2,
      rw ((store_bytes-split w m addr v).0, runs) refl,
      rw
          (
            load-join w m2 addr,
            read_to-dirty m1 blocks addr (bytes w),
            reads',
            join-split w d v (rw (← same) cells),
          )
          refl,
      λ j p. ground (arith, now.ram_at j, same),
    )
