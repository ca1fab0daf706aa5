-- ===== src/Emu/Syscall/Table.antt =====
-- The table of open files of src/VEmu.cpp. The source goes through it in order and stops at the first
-- handle with the descriptor.
use vemu.Common.{ℕ, Option, none, some, List, [], ◌∷◌, ◌==◌, if◌then◌else◌}
use vemu.Emu.State.{FileHandle}

unfoldable pub find_file : List FileHandle → ℕ → Option FileHandle
find_file [] fd = none
find_file (h ∷ hs) fd = let rest = find_file hs fd in if h.fd == fd then some h else rest

-- The first handle with the descriptor is replaced.
unfoldable pub put_file : List FileHandle → ℕ → FileHandle → List FileHandle
put_file [] fd new = []
put_file (h ∷ hs) fd new =
    let rest = put_file hs fd new in if h.fd == fd then new ∷ hs else h ∷ rest

-- `file_table.erase(std::begin(file_table) + entry_idx)`.
unfoldable pub erase_file : List FileHandle → ℕ → List FileHandle
erase_file [] fd = []
erase_file (h ∷ hs) fd = let rest = erase_file hs fd in if h.fd == fd then hs else h ∷ rest

-- `file_table.back().len`, on a table that is not empty.
unfoldable pub last_len : List FileHandle → ℕ
last_len [] = 0
last_len (h ∷ []) = h.len
last_len (h ∷ g ∷ hs) = last_len (g ∷ hs)
