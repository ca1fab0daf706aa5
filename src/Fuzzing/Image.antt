-- ===== src/Fuzzing/Image.antt =====
-- The loaded images of include/util.h. The bytes of a segment, which several parts of the program
-- share through a pointer, are a function on offsets below `file_size`.
use vemu.Common.{ℕ, Bool, List}

pub record MemorySegment : Type 0 where
  pub perms : ℕ
  pub start_addr : ℕ
  pub mem_size : ℕ
  pub file_size : ℕ
  pub bytes : ℕ → ℕ

-- `lock` says whether the mutex is held.
pub record FileInfo : Type 0 where
  pub file_name : List ℕ
  pub segments : List MemorySegment
  pub entry_point : ℕ
  pub lock : Bool
