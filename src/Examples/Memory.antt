-- ===== src/Examples/Memory.antt =====
-- The theorems on the memory, at a memory of 16 KiB whose bytes are all writable, and readable or
-- raw.
use vemu.Common.{
  get_or, ℕ, ◌+◌, ◌-◌, ◌/◌, ◌^◌, ◌≤◌, ◌<◌, ◌≡◌, ◌⊎◌, ◌↔◌, refl, List, [], ◌∷◌, ok, aborted, arith,
  ◌==◌, if◌then◌else◌, for_range,
}
use vemu.Isa.{ReturnException}
use vemu.Mmu.{Mmu, block_size, perm_write, perm_read, perm_raw, read_to, write_from, can_write_all}
use vemu.Mmu.Cells.{AllHave, NoneHas}
use vemu.Mmu.Access.{load, store, store_bytes, store_byte, store_dword, reset_to}
use vemu.Mmu.Permissions.{IsWritten, write_from_lem, read_to_lem}
use vemu.Mmu.RoundTrip.{Width, bytes, bits, split, IsUsable, load-store}
use vemu.Mmu.Reset.{StoreOp, IsWhole, run_stores, reset_to_lem}
use vemu.Mmu.Wrap.{wraps_lem}

abbrev fresh : Mmu
fresh = record {
  ram = λ _. 7;
  byte_permission = λ _. 10;
  dirty_blocks = [];
  ram_size = 16384;
  alloc_ptr = 0;
}

abbrev locked : Mmu
locked = record fresh { byte_permission = λ _. 4 }

abbrev two_bytes : List ℕ
two_bytes = 1 ∷ 2 ∷ []

abbrev fresh-IsUsable : (addr n : ℕ) → addr + n < 16384 → IsUsable fresh addr n
fresh-IsUsable addr n h = record {
  fits = h;
  small = omega arith;
  may_write = λ j p q. refl;
  may_read = λ j p q. refl;
}

write_from_lem_example :
    (8 + 2 < 16384
      → AllHave fresh perm_write 8 2
      → (m' : Mmu) × (write_from fresh two_bytes 8 ≡ ok m') × IsWritten fresh two_bytes 8 m')
    × ((8 + 2 < 16384 → ¬ AllHave fresh perm_write 8 2) → write_from fresh two_bytes 8 ≡ aborted)
write_from_lem_example = write_from_lem fresh two_bytes 8 (omega arith) (omega arith)

read_to_lem_example :
    (3 < 2 ^ 63
      → (d : ℕ → ℕ) × (e : ReturnException) × (read_to locked 8 3 ≡ ok (d, e))
        × ((k : ℕ) → k < 3 → d k ≡ 7)
        × ((e ≡ ReturnException.normal_execution_return)
            ↔ (AllHave locked perm_read 8 3 × NoneHas locked perm_raw 8 3))
        × ((e ≡ ReturnException.uninitialized_memory_access) ↔ (¬ NoneHas locked perm_raw 8 3)))
    × (2 ^ 63 ≤ 3 → read_to locked 8 3 ≡ aborted)
read_to_lem_example = read_to_lem locked 8 3 (omega arith) (omega arith)

load-store_example :
    (m' : Mmu) × (store fresh 4094 0x12345678 32 ≡ ok (ReturnException.normal_execution_return, m'))
    × (load m' 4094 32 ≡ ok (0x12345678, ReturnException.normal_execution_return))
    × ((j : ℕ) → (j < 4094) ⊎ (4098 ≤ j) → m'.ram j ≡ 7)
load-store_example =
    load-store Width.word fresh 4094 0x12345678 (fresh-IsUsable 4094 4 (omega arith))

abbrev dirtied : Mmu
dirtied = record fresh { ram = λ j. if j / 4096 == 1 then 9 else 7; dirty_blocks = 1 ∷ [] }

abbrev two_stores : List StoreOp
two_stores =
    record { width = Width.dword; addr = 4096; value = 5 }
    ∷ record { width = Width.byte; addr = 4095; value = 300 }
    ∷ []

abbrev after_stores : Mmu
after_stores = elim (run_stores fresh two_stores) [ ok m ↦ m | _ ↦ fresh ]

-- A larger memory with the same bytes.
abbrev reserve : Mmu
reserve = record fresh { ram_size = 20480 }

fresh-IsWhole : IsWhole fresh
fresh-IsWhole = (omega arith, λ b held. absurd (ground arith))

reset_to_lem_example :
    ((m2 : Mmu) × (reset_to after_stores reserve ≡ ok m2)
      × ((j : ℕ) → m2.ram j ≡ 7)
      × (m2.dirty_blocks ≡ []))
    × ((w : Width) (addr v j : ℕ)
        → IsUsable fresh addr (bytes w)
        → fresh.dirty_blocks ≡ []
        → addr ≤ j
        → j < addr + bytes w
        → addr / block_size < j / block_size
        → (m1 : Mmu) × (store fresh addr v (bits w)
            ≡ ok (ReturnException.normal_execution_return, m1))
          × ((m2 : Mmu) × (reset_to m1 reserve ≡ ok m2)
              × (m2.ram j ≡ get_or (split w v) (j - addr) 0)))
unfolding run_stores store store_bytes store_byte store_dword write_from can_write_all for_range
reset_to_lem_example =
    reset_to_lem fresh after_stores reserve two_stores fresh-IsWhole (omega arith) (λ j. refl)
      ((omega arith, omega arith), ((omega arith, omega arith), tt)) refl

-- A word on the boundary of two blocks.
not_undone :
    (m' : Mmu) × (store fresh 4094 0x12345678 32 ≡ ok (ReturnException.normal_execution_return, m'))
    × ((m2 : Mmu) × (reset_to m' reserve ≡ ok m2) × (m2.ram 4096 ≡ 0x34))
unfolding run_stores
not_undone =
    (reset_to_lem fresh fresh reserve [] fresh-IsWhole (omega arith) (λ j. refl) tt refl).1
      Width.word 4094 0x12345678 4096 (fresh-IsUsable 4094 4 (omega arith)) refl (omega arith)
      (omega arith) (omega arith)

wraps_lem_example :
    (read_to locked (2 ^ 64 - 1) 2 ≡ ok (λ _. 0, ReturnException.normal_execution_return))
    × (write_from locked two_bytes (2 ^ 64 - 1) ≡ ok locked)
wraps_lem_example =
    wraps_lem locked (2 ^ 64 - 1) two_bytes (omega arith) (omega arith) (omega arith) (omega arith)
