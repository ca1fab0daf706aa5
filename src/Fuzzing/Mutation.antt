-- ===== src/Fuzzing/Mutation.antt =====
-- `push_mutate` and `pop_mutate` of src/util.cpp. The history, a map from the position of a byte to
-- its first value, is a list of entries, the latest first.
use vemu.Common.{
  ℕ, zero, suc, ◌%◌, Bool, false, ◌&&◌, ◌||◌, Option, none, some, List, [], ◌∷◌, ◌==◌,
  if◌then◌else◌, Outcome, ok, undefined, ◌>>=◌, u8, length, update,
}
use vemu.Fuzzing.Image.{MemorySegment, FileInfo}
use vemu.Fuzzing.Random.{gen_rand}

pub record Change : Type 0 where
  pub segment : ℕ
  pub offset : ℕ
  pub value : ℕ

abbrev pub MutationHistory : Type 0
MutationHistory = List Change

-- `history.find({ seg_idx, byte_idx }) != std::end(history)`.
unfoldable pub is_recorded : ℕ → ℕ → MutationHistory → Bool
is_recorded s o [] = false
is_recorded s o (c ∷ cs) = (c.segment == s && c.offset == o) || is_recorded s o cs

-- `info->segments[seg_idx]`.
unfoldable pub segment_at : List MemorySegment → ℕ → Option MemorySegment
segment_at [] i = none
segment_at (g ∷ gs) zero = some g
segment_at (g ∷ gs) (suc i) = segment_at gs i

-- `info->segments[seg_idx].data[byte_idx] = v`.
unfoldable pub set_byte : List MemorySegment → ℕ → ℕ → ℕ → List MemorySegment
set_byte [] s o v = []
set_byte (g ∷ gs) zero o v = record g { bytes = update g.bytes o v } ∷ gs
set_byte (g ∷ gs) (suc s) o v = g ∷ set_byte gs s o v

-- One byte changed: the position comes from two random numbers, the value from a third. The old
-- value goes into the history unless the position is there already.
abbrev pub mutate_byte :
    FileInfo → MutationHistory → ℕ → ℕ → MemorySegment → ℕ → FileInfo × MutationHistory
mutate_byte info history s o g v = (
  record info { segments = set_byte info.segments s o v },
  if is_recorded s o history
      then history
      else record { segment = s; offset = o; value = g.bytes o } ∷ history,
)

-- One round of the loop. `%` by 0, for an image with no segment or a segment with no byte, has no
-- meaning in C++.
unfoldable pub mutate_once :
    FileInfo → MutationHistory → ℕ → Outcome ((FileInfo × MutationHistory) × ℕ)
unfolding gen_rand segment_at set_byte is_recorded
mutate_once info history seed =
    let (r1, seed1) = gen_rand seed in
    let (r2, seed2) = gen_rand seed1 in
    let (r3, seed3) = gen_rand seed2 in
    let s = r1 % length info.segments in
    if length info.segments == 0 then undefined else elim (segment_at info.segments s) [
      | none ↦ undefined
      | some g ↦
          if g.file_size == 0
          then undefined
          else ok (mutate_byte info history s (r2 % g.file_size) g (u8 (r3 % 255)), seed3)
    ]

unfoldable pub push_mutate :
    ℕ → FileInfo → MutationHistory → ℕ → Outcome ((FileInfo × MutationHistory) × ℕ)
push_mutate zero info history seed = ok ((info, history), seed)
push_mutate (suc n) info history seed =
    mutate_once info history seed >>= λ ((info', history'), seed').
    push_mutate n info' history' seed'

unfoldable pub pop_mutate : FileInfo → MutationHistory → FileInfo
pop_mutate info [] = info
pop_mutate info (c ∷ cs) =
    pop_mutate (record info { segments = set_byte info.segments c.segment c.offset c.value }) cs
