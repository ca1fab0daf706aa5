-- ===== src/Mmu/Access.antt =====
-- The loads and stores of src/MMU.cpp at each width, the fetch of an instruction, and `reset_to`.
use vemu.Common.{
  ℕ, ◌+◌, ◌*◌, ◌/◌, bit_and, bit_or, Bool, List, [], ◌∷◌, ltb, leb, ◌==◌, ◌||◌, ◌&&◌, if◌then◌else◌,
  Outcome, ok, aborted, undefined, ◌>>=◌, u8, u64, u32, ◌<<<◌, ◌>>>◌, for_range, update,
}
use vemu.Isa.{ReturnException}
use vemu.Mmu.{Mmu, block_size, read_to, write_from}

-- The bytes of a little-endian word, put together by `|` and `<<`.
abbrev pub word_of_1 : (ℕ → ℕ) → ℕ
word_of_1 d = bit_or 0 (d 0)

abbrev pub word_of_2 : (ℕ → ℕ) → ℕ
word_of_2 d = bit_or (word_of_1 d) (d 1 <<< 8)

abbrev pub word_of_4 : (ℕ → ℕ) → ℕ
word_of_4 d = bit_or (bit_or (word_of_2 d) (d 2 <<< 16)) (d 3 <<< 24)

abbrev pub word_of_8 : (ℕ → ℕ) → ℕ
word_of_8 d =
    bit_or (bit_or (bit_or (bit_or (word_of_4 d) (d 4 <<< 32)) (d 5 <<< 40)) (d 6 <<< 48))
      (d 7 <<< 56)

abbrev load_with : ((ℕ → ℕ) → ℕ) → Mmu → ℕ → ℕ → Outcome (ℕ × ReturnException)
load_with word m addr len = do (d, e) ← read_to m addr len; ok (word d, e)

unfoldable pub load_byte : Mmu → ℕ → Outcome (ℕ × ReturnException)
load_byte m addr = load_with word_of_1 m addr 1

unfoldable pub load_hword : Mmu → ℕ → Outcome (ℕ × ReturnException)
load_hword m addr = load_with word_of_2 m addr 2

unfoldable pub load_word : Mmu → ℕ → Outcome (ℕ × ReturnException)
load_word m addr = load_with word_of_4 m addr 4

unfoldable pub load_dword : Mmu → ℕ → Outcome (ℕ × ReturnException)
load_dword m addr = load_with word_of_8 m addr 8

unfoldable pub load : Mmu → ℕ → ℕ → Outcome (ℕ × ReturnException)
unfolding load_byte load_hword load_word load_dword
load m addr sz =
    if sz == 8
    then load_byte m addr
    else if sz == 16
    then load_hword m addr
    else if sz == 32
    then load_word m addr
    else if sz == 64
    then load_dword m addr
    else aborted

-- `static_cast<uint8_t>((data >> 8 * k) & 0xFF)`.
abbrev pub byte_of : ℕ → ℕ → ℕ
byte_of value k = u8 (bit_and (value >>> (8 * k)) 0xff)

unfoldable pub store_byte : Mmu → ℕ → ℕ → Outcome Mmu
store_byte m addr value = write_from m (u8 value ∷ []) addr

-- The lowest byte is cast before it is masked.
abbrev pub low_byte : ℕ → ℕ
low_byte value = bit_and (u8 value) 0xff

unfoldable pub store_hword : Mmu → ℕ → ℕ → Outcome Mmu
store_hword m addr value = write_from m (low_byte value ∷ byte_of value 1 ∷ []) addr

unfoldable pub store_word : Mmu → ℕ → ℕ → Outcome Mmu
store_word m addr value =
    write_from m (low_byte value ∷ byte_of value 1 ∷ byte_of value 2 ∷ byte_of value 3 ∷ []) addr

abbrev high_bytes : ℕ → List ℕ
high_bytes value = byte_of value 4 ∷ byte_of value 5 ∷ byte_of value 6 ∷ byte_of value 7 ∷ []

unfoldable pub store_dword : Mmu → ℕ → ℕ → Outcome Mmu
store_dword m addr value =
    write_from m
      (low_byte value ∷ byte_of value 1 ∷ byte_of value 2 ∷ byte_of value 3 ∷ high_bytes value) addr

-- `std::unordered_set::insert`.
abbrev pub insert_block : ℕ → List ℕ → List ℕ
insert_block b [] = b ∷ []
insert_block b (c ∷ cs) = if b == c then c ∷ cs else c ∷ insert_block b cs

-- The switch of `store` on the size.
unfoldable pub store_bytes : Mmu → ℕ → ℕ → ℕ → Outcome Mmu
unfolding store_byte store_hword store_word store_dword
store_bytes m addr value sz =
    if sz == 8
    then store_byte m addr value
    else if sz == 16
    then store_hword m addr value
    else if sz == 32
    then store_word m addr value
    else if sz == 64
    then store_dword m addr value
    else aborted

-- `store` returns `NormalExecutionReturn` whenever it returns.
unfoldable pub store : Mmu → ℕ → ℕ → ℕ → Outcome (ReturnException × Mmu)
unfolding store_bytes
store m addr value sz = do
  m' ← store_bytes m addr value sz
  let m'' = record m' { dirty_blocks = insert_block (addr / block_size) m'.dirty_blocks }
  ok (ReturnException.normal_execution_return, m'')

-- The fetch checks nothing: outside the buffer it has no meaning. The second part of the result of
-- the source is always `NormalExecutionReturn`.
unfoldable pub load_insn : Mmu → ℕ → Outcome (ℕ × ReturnException)
load_insn m addr =
    if leb m.ram_size (u64 (addr + 3)) || ltb (u64 (addr + 3)) addr
    then undefined
    else ok (u32 (word_of_4 (λ k. m.ram (addr + k))), ReturnException.normal_execution_return)

-- The inner loop of `reset_to`, for one block.
unfoldable pub restore_block : Mmu → ℕ → (ℕ → ℕ) → ℕ → ℕ
restore_block other blk ram =
    for_range block_size (blk * block_size) (λ i r. update r i (other.ram i)) ram

-- The block lies in the buffer.
abbrev pub has_room : Mmu → ℕ → Bool
has_room m blk = leb (blk * block_size + block_size) m.ram_size

-- The outer loop. Outside the buffers an access has no meaning.
unfoldable pub restore_blocks : Mmu → Mmu → List ℕ → (ℕ → ℕ) → Outcome (ℕ → ℕ)
unfolding restore_block
restore_blocks m other [] ram = ok ram
restore_blocks m other (b ∷ bs) ram =
    let rest = restore_blocks m other bs (restore_block other b ram) in
    if has_room m b && has_room other b then rest else undefined

unfoldable pub reset_to : Mmu → Mmu → Outcome Mmu
unfolding restore_blocks
reset_to m other = restore_blocks m other m.dirty_blocks m.ram >>= λ ram.
    ok (record m { ram = ram; dirty_blocks = [] })
