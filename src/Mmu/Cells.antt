-- ===== src/Mmu/Cells.antt =====
-- What the loops of the memory do, cell by cell.
use vemu.Common.{
  ℕ, zero, suc, ◌+◌, ◌-◌, ◌^◌, ◌≤◌, ◌<◌, bit_and, bit_or, ◌≡◌, refl, Bool, true, false, ◌&&◌, ◌||◌,
  List, ltb, leb, ◌==◌, if◌then◌else◌, get_or, for_range, update, arith, Bool-cases, inl, inr, ◌↔◌,
}
use vemu.Mmu.{
  Mmu, perm_raw, perm_read, perm_write, has_perm, rounds, write_cell, can_write_all, can_read_all,
  has_raw, read_data,
}

-- The address lies in the range of `n` bytes from `i`.
abbrev pub inside : ℕ → ℕ → ℕ → Bool
inside i n j = leb i j && ltb j (i + n)

-- The permission byte of a cell after a write.
abbrev pub touched : ℕ → ℕ
touched p = if has_perm p perm_raw then bit_and (bit_or p perm_read) 0xf7 else p

pub write_loop-ram :
    (buf : List ℕ) (start n i j : ℕ) (m : Mmu)
    → (for_range n i (write_cell buf start) m).ram j
      ≡ (if inside i n j then get_or buf (j - start) 0 else m.ram j)
unfolding for_range
write_loop-ram buf start zero i j m = ground arith
write_loop-ram buf start (suc n) i j m =
    ground (arith, write_loop-ram buf start n (i + 1) j (write_cell buf start i m))

pub write_loop-permission :
    (buf : List ℕ) (start n i j : ℕ) (m : Mmu)
    → (for_range n i (write_cell buf start) m).byte_permission j
      ≡ (if inside i n j then touched (m.byte_permission j) else m.byte_permission j)
unfolding for_range
write_loop-permission buf start zero i j m = ground arith
write_loop-permission buf start (suc n) i j m =
    ground (arith, write_loop-permission buf start n (i + 1) j (write_cell buf start i m))

pub write_loop-rest :
    (buf : List ℕ) (start n i : ℕ) (m : Mmu)
    → let m' = for_range n i (write_cell buf start) m in
      (m'.dirty_blocks ≡ m.dirty_blocks) × (m'.ram_size ≡ m.ram_size) × (m'.alloc_ptr ≡ m.alloc_ptr)
unfolding for_range
write_loop-rest buf start zero i m = (refl, refl, refl)
write_loop-rest buf start (suc n) i m =
    write_loop-rest buf start n (i + 1) (write_cell buf start i m)

read_loop :
    (ram : ℕ → ℕ) (start n i k : ℕ) (out : ℕ → ℕ)
    → start ≤ i
    → for_range n i (λ i out. update out (i - start) (ram i)) out k
      ≡ (if inside (i - start) n k then ram (start + k) else out k)
unfolding for_range
read_loop ram start zero i k out h = ground arith
read_loop ram start (suc n) i k out h =
    ground (arith, read_loop ram start n (i + 1) k (update out (i - start) (ram i)) (omega arith))

-- `all &= test(i)` over a range gives `true` exactly when it was `true` and every test is passed.
all_loop :
    (test : ℕ → Bool) (n i : ℕ) (all : Bool)
    → for_range n i (λ i all. all && test i) all ≡ true
    → (all ≡ true) × ((j : ℕ) → i ≤ j → j < i + n → test j ≡ true)
unfolding for_range
all_loop test zero i all h = (h, λ j p q. absurd (omega arith))
all_loop test (suc n) i all h =
    let ih = all_loop test n (i + 1) (all && test i) h in
    (
      ground (arith, ih.0),
      λ j p q. elim (Bool-cases (j == i)) [
        | inl here ↦ rw (here_eq j i here) (ground (arith, ih.0))
        | inr later ↦ ih.1 j (ground arith) (omega arith)
      ],
    )
  where
    here_eq : (j i : ℕ) → (j == i) ≡ true → j ≡ i
    here_eq j i h = ground arith

loop_all :
    (test : ℕ → Bool) (n i : ℕ)
    → ((j : ℕ) → i ≤ j → j < i + n → test j ≡ true)
    → for_range n i (λ i all. all && test i) true ≡ true
unfolding for_range
loop_all test zero i h = refl
loop_all test (suc n) i h =
    rw (h i (omega arith) (omega arith))
      (loop_all test n (i + 1) (λ j p q. h j (omega arith) (omega arith)))

-- `any |= test(i)` over a range gives `false` exactly when it was `false` and no test is passed.
any_loop :
    (test : ℕ → Bool) (n i : ℕ) (any : Bool)
    → for_range n i (λ i any. any || test i) any ≡ false
    → (any ≡ false) × ((j : ℕ) → i ≤ j → j < i + n → test j ≡ false)
unfolding for_range
any_loop test zero i any h = (h, λ j p q. absurd (omega arith))
any_loop test (suc n) i any h =
    let ih = any_loop test n (i + 1) (any || test i) h in
    (
      ground (arith, ih.0),
      λ j p q. elim (Bool-cases (j == i)) [
        | inl here ↦ rw (here_eq j i here) (ground (arith, ih.0))
        | inr later ↦ ih.1 j (ground arith) (omega arith)
      ],
    )
  where
    here_eq : (j i : ℕ) → (j == i) ≡ true → j ≡ i
    here_eq j i h = ground arith

loop_any :
    (test : ℕ → Bool) (n i : ℕ)
    → ((j : ℕ) → i ≤ j → j < i + n → test j ≡ false)
    → for_range n i (λ i any. any || test i) false ≡ false
unfolding for_range
loop_any test zero i h = refl
loop_any test (suc n) i h =
    rw (h i (omega arith) (omega arith))
      (loop_any test n (i + 1) (λ j p q. h j (omega arith) (omega arith)))

-- Every cell of the range, or no cell of it, has a permission.
abbrev pub AllHave : Mmu → ℕ → ℕ → ℕ → Type 0
AllHave m mask start n =
    (j : ℕ) → start ≤ j → j < start + n → has_perm (m.byte_permission j) mask ≡ true

abbrev pub NoneHas : Mmu → ℕ → ℕ → ℕ → Type 0
NoneHas m mask start n =
    (j : ℕ) → start ≤ j → j < start + n → has_perm (m.byte_permission j) mask ≡ false

-- A range that does not reach the end of the address space takes its `n` rounds.
pub rounds_lem : (start n : ℕ) → start + n < 2 ^ 64 → rounds start n ≡ n
rounds_lem start n h = omega arith

-- A range that does takes none.
pub rounds_wrapped :
    (start n : ℕ) → start < 2 ^ 64 → n < 2 ^ 64 → 2 ^ 64 ≤ start + n → rounds start n ≡ 0
rounds_wrapped start n p q h = omega arith

module _ (m : Mmu) (start n : ℕ) (fits : start + n < 2 ^ 64) where
  pub can_write_all_iff : (can_write_all m start n ≡ true) ↔ AllHave m perm_write start n
  unfolding can_write_all
  can_write_all_iff =
      rw (rounds_lem start n fits) (λ h. (all_loop _ n start true h).1, loop_all _ n start)

  pub can_read_all_iff : (can_read_all m start n ≡ true) ↔ AllHave m perm_read start n
  unfolding can_read_all
  can_read_all_iff =
      rw (rounds_lem start n fits) (λ h. (all_loop _ n start true h).1, loop_all _ n start)

  pub has_raw_iff : (has_raw m start n ≡ false) ↔ NoneHas m perm_raw start n
  unfolding has_raw
  has_raw_iff =
      rw (rounds_lem start n fits) (λ h. (any_loop _ n start false h).1, loop_any _ n start)

  pub read_data_cell : (k : ℕ) → k < n → read_data m start n k ≡ m.ram (start + k)
  unfolding read_data
  read_data_cell k h =
      rw (rounds_lem start n fits)
        (ground (arith, read_loop m.ram start n start k (λ _. 0) (omega arith)))
