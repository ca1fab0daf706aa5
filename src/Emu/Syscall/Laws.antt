-- ===== src/Emu/Syscall/Laws.antt =====
-- What `read`, `lseek` and `close` of src/VEmu.cpp do with the table of open files.
use vemu.Common.{
  ℕ, ◌+◌, ◌-◌, ◌%◌, ◌^◌, ◌≤◌, ◌<◌, min, ◌≡◌, ◌≢◌, refl, ap, sym, ◌∙◌, true, Option, none, some,
  List, [], ◌∷◌, inl, inr, Bool-cases, ==_iff, ◌==◌, ok, aborted, to_i32, arith,
}
use vemu.Mmu.{Mmu}
use vemu.RegFile.{load_reg-store_reg}
use vemu.Emu.State.{Emu, FileHandle}
use vemu.Emu.Syscall.Table.{find_file, put_file, erase_file}
use vemu.Emu.Syscall.Calls.{a0, a1, a2, lseek, seek, close, exit_emu, done, set_a0, set_mmu}

-- The handle that is found has the descriptor.
found_fd : (t : List FileHandle) (fd : ℕ) (h : FileHandle) → find_file t fd ≡ some h → h.fd ≡ fd
unfolding find_file
found_fd [] fd h found = cc
found_fd (g ∷ t) fd h found = elim (Bool-cases (g.fd == fd)) [
  | inl same ↦
      let here : some g ≡ some h = rw same at found in
      let equal : g ≡ h = cc here in
      ap (λ (x : FileHandle). x.fd) (sym equal) ∙ (==_iff g.fd fd).0 same
  | inr other ↦ found_fd t fd h (rw other at found)
]

-- A handle is replaced by one with the same descriptor.
module _ (fd : ℕ) (new : FileHandle) (same : new.fd ≡ fd) where
  find-put_file :
      (t : List FileHandle) (h : FileHandle)
      → find_file t fd ≡ some h
      → find_file (put_file t fd new) fd ≡ some new
  unfolding find_file put_file
  find-put_file [] h found = cc
  find-put_file (g ∷ t) h found = elim (Bool-cases (g.fd == fd)) [
    | inl here ↦ rw here (ground (arith, same))
    | inr other ↦ rw (other, find_file, other) (find-put_file t h (rw other at found))
  ]

  find-put_file_other :
      (t : List FileHandle) (other : ℕ)
      → other ≢ fd
      → find_file (put_file t fd new) other ≡ find_file t other
  unfolding find_file put_file
  find-put_file_other [] other apart = refl
  find-put_file_other (g ∷ t) other apart = elim (Bool-cases (g.fd == fd)) [
    | inl here ↦ rw here (ground (arith, same))
    | inr there ↦ rw (there, find_file) (rw (find-put_file_other t other apart) refl)
  ]

find-erase_file :
    (t : List FileHandle) (fd other : ℕ)
    → other ≢ fd
    → find_file (erase_file t fd) other ≡ find_file t other
unfolding find_file erase_file
find-erase_file [] fd other apart = refl
find-erase_file (g ∷ t) fd other apart = elim (Bool-cases (g.fd == fd)) [
  | inl here ↦ rw here (ground arith)
  | inr there ↦ rw (there, find_file) (rw (find-erase_file t fd other apart) refl)
]

-- An open file at a position in it.
pub record IsReadable (e : Emu) (h : FileHandle) : Type 0 where
  pub is_open : find_file e.file_table (a0 e) ≡ some h
  pub in_file : h.idx ≤ h.len
  pub len_small : h.len < 2 ^ 63
  pub count_small : a2 e < 2 ^ 63

-- What is left to read, at most `a2` bytes.
abbrev pub readable : Emu → FileHandle → ℕ
readable e h = min (a2 e) (h.len - h.idx)

-- The state after `n` bytes have been read into the memory `m`.
abbrev after_read : Emu → FileHandle → ℕ → Mmu → Emu
after_read e h n m =
    set_a0
      (record (set_mmu e m) {
        file_table = put_file e.file_table (a0 e) (record h { idx = h.idx + n });
      })
      n

-- `lseek` leaves the file of a0 at a position, gives that in a0 and moves no other file.
abbrev pub MovesTo : Emu → FileHandle → ℕ → Type 0
MovesTo e h idx =
    (e' : Emu) × (lseek e ≡ done e')
    × (a0 e' ≡ idx)
    × (find_file e'.file_table (a0 e) ≡ some (record h { idx = idx }))
    × ((fd : ℕ) → fd ≢ a0 e → find_file e'.file_table fd ≡ find_file e.file_table fd)

lseek-MovesTo :
    (e : Emu) (h : FileHandle) (idx : ℕ)
    → find_file e.file_table (a0 e) ≡ some h
    → seek h (a1 e) (a2 e) ≡ ok idx
    → MovesTo e h idx
unfolding lseek
lseek-MovesTo e h idx found sought = (
  set_a0 (record e { file_table = put_file e.file_table (a0 e) (record h { idx = idx }) }) idx,
  rw (found, lseek, sought) refl,
  ground (arith, load_reg-store_reg e.iregs 10 10 idx),
  find-put_file (a0 e) (record h { idx = idx }) (found_fd e.file_table (a0 e) h found) e.file_table
      h found,
  find-put_file_other (a0 e) (record h { idx = idx }) (found_fd e.file_table (a0 e) h found)
      e.file_table,
)

-- `lseek` moves an open file and no other, and gives the new position in a0. The position is `a1` if
-- `whence` is 0 (SEEK_SET), `a1` behind the position before if it is 1 (SEEK_CUR), and `a1` behind the
-- end of the file if it is 2 (SEEK_END), these modulo 2 ^ 64; another `whence` fails an assertion.
-- Without the file it gives -1.
pub lseek_lem :
    (e : Emu)
    → (find_file e.file_table (a0 e) ≡ none → lseek e ≡ done (set_a0 e (2 ^ 64 - 1)))
      × ((h : FileHandle)
          → find_file e.file_table (a0 e) ≡ some h
          → (a2 e ≡ 0 → MovesTo e h (a1 e))
            × (a2 e ≡ 1 → MovesTo e h ((h.idx + a1 e) % 2 ^ 64))
            × (a2 e ≡ 2 → MovesTo e h ((h.len + a1 e) % 2 ^ 64))
            × (2 < a2 e → lseek e ≡ aborted))
unfolding lseek seek
lseek_lem e = (
  λ missing. rw (missing, lseek) refl,
  λ h found. (
    λ set. lseek-MovesTo e h (a1 e) found (ground arith),
    λ cur. lseek-MovesTo e h ((h.idx + a1 e) % 2 ^ 64) found (ground arith),
    λ end. lseek-MovesTo e h ((h.len + a1 e) % 2 ^ 64) found (ground arith),
    λ other. rw (found, lseek) (ground (arith)),
  ),
)

-- `close` takes the file out of the table and leaves the others; a descriptor that is not open ends
-- the emulator with code 12.
close_lem :
    (e : Emu)
    → let fd = to_i32 (a0 e) in
      (e' : Emu) × (close e ≡ done e')
      × (find_file e.file_table fd ≡ none → (e'.has_exited ≡ true) × (e'.exit_code ≡ 12))
      × ((other : ℕ) → other ≢ fd → find_file e'.file_table other ≡ find_file e.file_table other)
unfolding close exit_emu
close_lem e = go (find_file e.file_table (to_i32 (a0 e))) refl
  where
    go :
        (o : Option FileHandle)
        → find_file e.file_table (to_i32 (a0 e)) ≡ o
        → (e' : Emu) × (close e ≡ done e')
          × (find_file e.file_table (to_i32 (a0 e)) ≡ none
              → (e'.has_exited ≡ true) × (e'.exit_code ≡ 12))
          × ((other : ℕ)
              → other ≢ to_i32 (a0 e)
              → find_file e'.file_table other ≡ find_file e.file_table other)
    go none missing =
        (exit_emu e 12, rw (missing, close) refl, λ h. (refl, refl), λ other apart. refl)
    go (some h) found = (
      record e { file_table = erase_file e.file_table (to_i32 (a0 e)) },
      rw (found, close) refl,
      λ missing. cc (found, missing),
      find-erase_file e.file_table (to_i32 (a0 e)),
    )
