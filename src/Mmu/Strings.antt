-- ===== src/Mmu/Strings.antt =====
-- `_read_null_terminated_string` of src/MMU.cpp, which reads bytes until it has read a 0.
use vemu.Common.{
  ℕ, zero, suc, ◌+◌, ◌^◌, ◌≤◌, ◌<◌, ◌≡◌, refl, ap, true, false, Option, none, some, List, [], ◌∷◌,
  ◌++◌, ◌==◌, ltb, if◌then◌else◌, Outcome, ok, aborted, exited, undefined, u64, add64, arith, inl,
  inr, Bool-cases, length, for_range, ◌≢◌, ◌∙◌,
}
use vemu.Isa.{ReturnException}
use vemu.Mmu.{Mmu, read_to, read_data, rounds}
use vemu.Mmu.Cells.{read_data_cell}

-- The byte in front of what the rest of the loop gives.
abbrev pub prepend : ℕ → Option (Outcome (List ℕ)) → Option (Outcome (List ℕ))
prepend c (some (ok s)) = some (ok (c ∷ s))
prepend c o = o

-- One round of the loop. The code of an exception is dropped: only a failed assertion stops it.
abbrev pub read_char :
    Outcome ((ℕ → ℕ) × ReturnException) → Option (Outcome (List ℕ)) → Option (Outcome (List ℕ))
read_char (ok (d, ex)) rest = if d 0 == 0 then some (ok (0 ∷ [])) else prepend (d 0) rest
read_char aborted rest = some aborted
read_char (exited c) rest = some (exited c)
read_char undefined rest = some undefined

-- On fuel; `none` where it does not reach the end.
unfoldable pub read_null_terminated_string : ℕ → Mmu → ℕ → Option (Outcome (List ℕ))
read_null_terminated_string zero m addr = none
read_null_terminated_string (suc fuel) m addr =
    read_char (read_to m addr 1) (read_null_terminated_string fuel m (u64 (addr + 1)))

-- One round for each byte of the buffer, and one more.
abbrev pub string_fuel : Mmu → ℕ
string_fuel m = suc m.ram_size

pub data Ends : Option (Outcome (List ℕ)) → Type 0 where
  ends : (o : Outcome (List ℕ)) → Ends (some o)

prepend-Ends : (c : ℕ) {o : Option (Outcome (List ℕ))} → Ends o → Ends (prepend c o)
prepend-Ends c (ends (ok s)) = ends (ok (c ∷ s))
prepend-Ends c (ends aborted) = ends aborted
prepend-Ends c (ends (exited n)) = ends (exited n)
prepend-Ends c (ends undefined) = ends undefined

read_char-Ends :
    (r : Outcome ((ℕ → ℕ) × ReturnException)) {o : Option (Outcome (List ℕ))}
    → Ends o
    → Ends (read_char r o)
read_char-Ends (ok (d, ex)) h = elim (Bool-cases (d 0 == 0)) [
  | inl last ↦ rw last (ends (ok (0 ∷ [])))
  | inr more ↦ rw more (prepend-Ends (d 0) h)
]
read_char-Ends aborted h = ends aborted
read_char-Ends (exited c) h = ends (exited c)
read_char-Ends undefined h = ends undefined

-- Past the buffer the assertion fails, and at the very end of the address space a 0 is read.
past :
    (m : Mmu) (addr : ℕ) (o : Option (Outcome (List ℕ)))
    → addr < 2 ^ 64
    → m.ram_size ≤ addr + 1
    → Ends (read_char (read_to m addr 1) o)
unfolding read_to read_data for_range
past m addr o low beyond = elim (Bool-cases (ltb (add64 addr 1) m.ram_size)) [
  | inl fits ↦
      let wrapped : add64 addr 1 ≡ 0 = ground arith in
      let no_rounds : rounds addr 1 ≡ 0 = omega arith in rw (fits, no_rounds) (ends (ok (0 ∷ [])))
  | inr out ↦ rw out (ends aborted)
]

reaches_end :
    (fuel : ℕ) (m : Mmu) (addr : ℕ)
    → addr < 2 ^ 64
    → m.ram_size ≤ 2 ^ 64
    → m.ram_size ≤ addr + suc fuel
    → Ends (read_null_terminated_string (suc fuel) m addr)
unfolding read_null_terminated_string
reaches_end zero m addr low small h = past m addr none low (omega arith)
reaches_end (suc fuel) m addr low small h = elim (Bool-cases (ltb (addr + 1) (2 ^ 64))) [
  | inl below ↦
      let next : u64 (addr + 1) ≡ addr + 1 = ground arith in
      rw next (
        read_char-Ends (read_to m addr 1)
          (reaches_end fuel m (addr + 1) (ground arith) small (omega arith)))
  | inr top ↦ past m addr _ low (ground arith)
]

-- The loop ends for every address and every memory, after at most one round more than the memory
-- has bytes.
pub read_null_terminated_string-Ends :
    (m : Mmu) (addr : ℕ)
    → addr < 2 ^ 64
    → m.ram_size ≤ 2 ^ 64
    → Ends (read_null_terminated_string (string_fuel m) m addr)
read_null_terminated_string-Ends m addr low small =
    reaches_end m.ram_size m addr low small (omega arith)

-- The bytes of `s` stand in memory from `addr`, a 0 behind them.
abbrev pub StringAt : Mmu → ℕ → List ℕ → Type 0
StringAt m addr [] = m.ram addr ≡ 0
StringAt m addr (c ∷ s) = (m.ram addr ≡ c) × (c ≢ 0) × StringAt m (addr + 1) s

-- A read of one byte inside the buffer gives that byte.
one_byte :
    (m : Mmu) (addr : ℕ) (o : Option (Outcome (List ℕ)))
    → addr + 1 < m.ram_size
    → m.ram_size ≤ 2 ^ 64
    → read_char (read_to m addr 1) o
      ≡ (if m.ram addr == 0 then some (ok (0 ∷ [])) else prepend (m.ram addr) o)
unfolding read_to
one_byte m addr o fits small =
    let inside : ltb (add64 addr 1) m.ram_size ≡ true = ground arith in
    let cell : read_data m addr 1 0 ≡ m.ram addr =
      read_data_cell m addr 1 (omega arith) 0 (omega arith) ∙ ap m.ram (omega arith) in
    rw (inside, cell) refl

-- A string that ends inside the buffer is read with its final 0, whatever the permissions of its
-- bytes are, with any fuel above its length.
read_null_terminated_string_lem :
    (s : List ℕ) (fuel : ℕ) (m : Mmu) (addr : ℕ)
    → StringAt m addr s
    → addr + length s + 1 < m.ram_size
    → m.ram_size ≤ 2 ^ 64
    → length s < fuel
    → read_null_terminated_string fuel m addr ≡ some (ok (s ++ 0 ∷ []))
unfolding read_null_terminated_string
read_null_terminated_string_lem s zero m addr at fits small enough = absurd (omega arith)
read_null_terminated_string_lem [] (suc fuel) m addr at fits small enough =
    one_byte m addr _ (omega arith) small ∙ rw at refl
read_null_terminated_string_lem (c ∷ s) (suc fuel) m addr (here, full, rest) fits small enough =
    let next : u64 (addr + 1) ≡ addr + 1 = omega arith in
    let more : (c == 0) ≡ false = ground arith in
    let later =
      read_null_terminated_string_lem s fuel m (addr + 1) rest (omega arith) small (omega arith) in
    one_byte m addr _ (omega arith) small ∙ rw (here, more, next, later) refl
