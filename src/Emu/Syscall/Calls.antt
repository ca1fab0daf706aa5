-- ===== src/Emu/Syscall/Calls.antt =====
-- The system calls of src/VEmu.cpp one by one, and the choice among them. What the `write` call prints
-- under VERBOSE_OUTPUT, which is false, is left out.
use vemu.Common.{
  ℕ, zero, suc, ◌+◌, ◌-◌, ◌/◌, ◌%◌, ◌^◌, true, none, some, List, [], ◌∷◌, ◌++◌, length, get_or, leb,
  ◌==◌, if◌then◌else◌, Outcome, ok, aborted, exited, undefined, ◌>>=◌, u8, u32, add64, sub64,
  to_i32, signed64, of_ℤ, pos, ◌%ℤ◌,
}
use vemu.Isa.{ReturnException}
use vemu.Mmu.{Mmu, allocate, write_from}
use vemu.Mmu.Strings.{read_null_terminated_string, string_fuel}
use vemu.RegFile
use vemu.Emu.Platform.{Host}
use vemu.Emu.State.{Emu, Handled, FileType, FileHandle}
use vemu.Emu.Syscall.Table.{find_file, put_file, erase_file, last_len}

abbrev pub reg_a0 : ℕ
reg_a0 = 10

abbrev pub reg : Emu → ℕ → ℕ
reg e i = RegFile.load_reg e.iregs i

abbrev pub a0 : Emu → ℕ
a0 e = reg e 10

abbrev pub a1 : Emu → ℕ
a1 e = reg e 11

abbrev pub a2 : Emu → ℕ
a2 e = reg e 12

abbrev pub a7 : Emu → ℕ
a7 e = reg e 17

abbrev pub set_a0 : Emu → ℕ → Emu
set_a0 e v = record e { iregs = RegFile.store_reg e.iregs reg_a0 v }

abbrev pub set_mmu : Emu → Mmu → Emu
set_mmu e m = record e { bus = record e.bus { mmu = m } }

abbrev pub done : Emu → Outcome Handled
done e = ok (ReturnException.normal_execution_return, e)

-- `exit_emu`.
unfoldable pub exit_emu : Emu → ℕ → Emu
exit_emu e code = record e { has_exited = true; exit_code = code }

-- A difference that is negative as an `int64_t` is refused with -1.
unfoldable pub brk : Emu → Outcome Handled
brk e =
    let increment = if a0 e == 0 then 0 else sub64 (a0 e) e.bus.mmu.alloc_ptr in
    if leb (2 ^ 63) increment
    then done (set_a0 e (2 ^ 64 - 1))
    else (allocate e.bus.mmu increment >>= λ (base, m').
        done (set_a0 (set_mmu e m') (add64 base increment)))

unfoldable pub write : Emu → Outcome Handled
write e = done (set_a0 e (a2 e))

-- The C string in a vector of bytes.
abbrev pub c_str : List ℕ → List ℕ
c_str [] = []
c_str (c ∷ s) = if c == 0 then [] else c ∷ c_str s

-- A file that the host does not open fails the assertion.
abbrev pub open_at : Host → Emu → List ℕ → Outcome Handled
open_at host e path = elim (host.open_file e.opened path (u32 (a1 e))) [
  | none ↦ aborted
  | some (fd, bytes) ↦
      let handle : FileHandle = record {
        contents = bytes;
        pathname = path;
        fd = fd;
        len = length bytes;
        idx = 0;
        type = FileType.disk_file;
      } in
      done
        (set_a0 (record e { opened = e.opened + 1; file_table = e.file_table ++ handle ∷ [] }) fd)
]

unfoldable pub open_call : Host → Emu → Outcome Handled
open_call host e = elim (read_null_terminated_string (string_fuel e.bus.mmu) e.bus.mmu (a0 e)) [
  | none ↦ undefined
  | some read ↦ read >>= λ p. open_at host e (c_str p)
]

-- The descriptor is cut to an `int`. One that is not open ends the emulator with code 12.
unfoldable pub close : Emu → Outcome Handled
unfolding exit_emu
close e =
    let fd = to_i32 (a0 e) in
    elim (find_file e.file_table fd) [
      | none ↦ done (exit_emu e 12)
      | some h ↦ done (record e { file_table = erase_file e.file_table fd })
    ]

-- `(uint8_t)(_exit_code % 255)`.
unfoldable pub exit_call : Emu → Outcome Handled
unfolding exit_emu
exit_call e = done (exit_emu e (u8 (of_ℤ (signed64 (to_i32 (a0 e)) %ℤ pos 255))))

-- The `n` low bytes of a number, the lowest first, and `n` bytes of an object from offset `i` that
-- nothing has written.
abbrev pub le_bytes : ℕ → ℕ → List ℕ
le_bytes zero v = []
le_bytes (suc n) v = v % 2 ^ 8 ∷ le_bytes n (v / 2 ^ 8)

abbrev pub unwritten : Host → ℕ → ℕ → List ℕ
unwritten host i zero = []
unwritten host i (suc n) = u8 (host.garbage i) ∷ unwritten host (i + 1) n

-- The bytes of the `riscv_stat` of descriptor `fd`, where `len` is the length of the last file of the
-- table.
unfoldable pub stat_bytes : Host → ℕ → ℕ → List ℕ
stat_bytes host fd len =
    let is_out = fd == 1 in
    let blksize = if is_out then 0x400 else 0x1000 in
    le_bytes 8 (if is_out then 0x18 else 0x802)
    ++ le_bytes 8 (if is_out then 0x3 else 0x22068c)
    ++ le_bytes 4 (if is_out then 0x2190 else 0x81fd)
    ++ le_bytes 4 0x1
    ++ le_bytes 4 0x3e8
    ++ le_bytes 4 (if is_out then 0x5 else 0x3e8)
    ++ le_bytes 8 (if is_out then 0x8800 else 0x0)
    ++ unwritten host 40 8
    ++ le_bytes 8 (if is_out then 0x0 else len)
    ++ le_bytes 4 blksize
    ++ unwritten host 60 4
    ++ le_bytes 8 (if is_out then 0x0 else len / blksize)
    ++ le_bytes 8 0x6440824f
    ++ unwritten host 80 8
    ++ le_bytes 8 0x6440824a
    ++ unwritten host 96 8
    ++ le_bytes 8 0x6440824a
    ++ unwritten host 112 16

unfoldable pub fstat : Host → Emu → Outcome Handled
unfolding stat_bytes
fstat host e = elim (find_file e.file_table (to_i32 (a0 e))) [
  | none ↦ aborted
  | some h ↦ write_from e.bus.mmu (stat_bytes host (a0 e) (last_len e.file_table)) (a1 e) >>= λ m'.
      done (set_a0 (set_mmu e m') 0)
]

-- The position that SEEK_SET, SEEK_CUR and SEEK_END give; another `whence` fails an assertion.
unfoldable pub seek : FileHandle → ℕ → ℕ → Outcome ℕ
seek h offset whence =
    if whence == 0
    then ok offset
    else if whence == 1
    then ok (add64 h.idx offset)
    else if whence == 2
    then ok (add64 h.len offset)
    else aborted

unfoldable pub lseek : Emu → Outcome Handled
unfolding seek
lseek e = elim (find_file e.file_table (a0 e)) [
  | none ↦ done (set_a0 e (2 ^ 64 - 1))
  | some h ↦ seek h (a1 e) (a2 e) >>= λ idx.
      done (
        set_a0 (record e { file_table = put_file e.file_table (a0 e) (record h { idx = idx }) })
          idx)
]

-- `n` bytes of a list from position `i`.
abbrev pub slice : List ℕ → ℕ → ℕ → List ℕ
slice l i zero = []
slice l i (suc n) = get_or l i 0 ∷ slice l (i + 1) n

-- `count` after it has been cut to the rest of the file.
abbrev pub cut_count : FileHandle → ℕ → ℕ
cut_count h count = if leb h.len (add64 h.idx count) then sub64 h.len h.idx else count

-- With nothing to read the call returns at once and leaves `a0` as it is. A range that reaches
-- outside the bytes of the file has no meaning in C++.
abbrev pub read_from : Emu → FileHandle → ℕ → Outcome Handled
read_from e h count =
    let moved = record h { idx = h.idx + count } in
    if count == 0
    then done e
    else if leb (h.idx + count) h.len
    then (write_from e.bus.mmu (slice h.contents h.idx count) (a1 e) >>= λ m'.
        done (
          set_a0 (record (set_mmu e m') { file_table = put_file e.file_table (a0 e) moved }) count))
    else undefined

unfoldable pub read : Emu → Outcome Handled
read e = elim (find_file e.file_table (a0 e)) [
  | none ↦ aborted
  | some h ↦ read_from e h (cut_count h (a2 e))
]

-- Any other call ends the program.
unfoldable pub ecall_fuzz : Host → Emu → Outcome Handled
unfolding brk write open_call close exit_call fstat lseek read
ecall_fuzz host e =
    let nr = a7 e in
    if nr == 214
    then brk e
    else if nr == 64
    then write e
    else if nr == 1024
    then open_call host e
    else if nr == 57
    then close e
    else if nr == 93
    then exit_call e
    else if nr == 80
    then fstat host e
    else if nr == 62
    then lseek e
    else if nr == 63
    then read e
    else exited 1
