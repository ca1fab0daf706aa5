-- ===== src/Fuzzing/Elf.antt =====
-- `read_elf` and the constructor of `Corpus` of src/util.cpp.
-- ELFIO and the directories of the host are parameters: `load` is what `reader.load` finds in a file,
-- if it can, and `directory_iterator` the paths in a directory, or nothing where it throws.
use vemu.Common.{
  ℕ, ◌-◌, ◌%◌, ◌^◌, Bool, true, false, Option, none, some, List, [], ◌∷◌, ◌==◌, if◌then◌else◌,
  Outcome, ok, aborted, exited, ◌>>=◌,
}
use vemu.Fuzzing.Image.{MemorySegment, FileInfo}
use vemu.Fuzzing.Corpus.{Corpus}

-- What the source asks of a segment and of a file of ELFIO.
pub record ElfSegment : Type 0 where
  pub get_type : ℕ
  pub get_flags : ℕ
  pub get_virtual_address : ℕ
  pub get_memory_size : ℕ
  pub get_file_size : ℕ
  pub get_data : ℕ → ℕ

pub record Elf : Type 0 where
  pub segments : List ElfSegment
  pub get_entry : ℕ

-- PT_LOAD.
abbrev pub pt_load : ℕ
pt_load = 1

abbrev pub memory_segment : ElfSegment → MemorySegment
memory_segment s = record {
  perms = s.get_flags % 2 ^ 8;
  start_addr = s.get_virtual_address;
  mem_size = s.get_memory_size;
  file_size = s.get_file_size;
  bytes = s.get_data;
}

-- The segments that are to be loaded, in their order.
unfoldable pub loadable : List ElfSegment → List MemorySegment
loadable [] = []
loadable (s ∷ ss) =
    let rest = loadable ss in if s.get_type == pt_load then memory_segment s ∷ rest else rest

module _ (load : List ℕ → Option Elf) where
  unfoldable pub read_elf : List ℕ → Bool → Outcome FileInfo
  unfolding loadable
  read_elf fname exit_fatally = elim (load fname) [
    | none ↦
        if exit_fatally
        then exited 1
        else ok (record { file_name = []; segments = []; entry_point = 2 ^ 64 - 1; lock = false })
    | some elf ↦ ok (record {
      file_name = fname;
      segments = loadable elf.segments;
      entry_point = elf.get_entry;
      lock = false;
    })
  ]

  unfoldable pub read_all : List (List ℕ) → Outcome (List FileInfo)
  unfolding read_elf
  read_all [] = ok []
  read_all (path ∷ paths) = do f ← read_elf path true; fs ← read_all paths; ok (f ∷ fs)

  unfoldable pub new : (List ℕ → Option (List (List ℕ))) → List ℕ → Outcome Corpus
  unfolding read_all
  new directory_iterator dir_path = elim (directory_iterator dir_path) [
    | none ↦ aborted
    | some paths ↦ read_all paths >>= λ files. ok (record { corpus_files = files })
  ]
