-- ===== src/Fuzzing/Thread.antt =====
-- `FuzzThread` of src/FuzzThread.cpp and `substitute_input` of src/util.cpp. The emulator that the
-- thread has as a member is never used and is left out, as is the memory that the arguments take.
use vemu.Common.{
  ℕ, zero, suc, ◌%◌, Bool, true, false, ◌&&◌, ◌==◌, if◌then◌else◌, Option, none, some, List, [],
  ◌∷◌, Outcome, ok, aborted, exited, undefined, ◌>>=◌, ltb,
}
use vemu.Bus.{Bus}
use vemu.Decoder.Cache as Cached
use vemu.Decoder.Cache.{Decoder}
use vemu.Emu.Platform.{Platform}
use vemu.Emu.State.{Emu}
use vemu.Emu.Construct.{of_image}
use vemu.Emu.Run.{run}
use vemu.Fuzzing.Image.{MemorySegment, FileInfo}
use vemu.Fuzzing.Random.{gen_rand}
use vemu.Fuzzing.Mutation.{MutationHistory, segment_at, push_mutate, pop_mutate}
use vemu.Fuzzing.Corpus.{Corpus, get_random_free_file}

-- `strcmp(a, b) == 0`.
unfoldable pub same_string : List ℕ → List ℕ → Bool
same_string [] [] = true
same_string (a ∷ s) (b ∷ t) = a == b && same_string s t
same_string _ _ = false

-- `{}`.
abbrev pub placeholder : List ℕ
placeholder = 0x7b ∷ 0x7d ∷ []

unfoldable pub substitute_input : List (List ℕ) → List ℕ → List (List ℕ)
unfolding same_string
substitute_input [] input_name = []
substitute_input (arg ∷ args) input_name =
    (if same_string arg placeholder then input_name else arg) ∷ substitute_input args input_name

-- `seed` is the global of the random numbers, `decoder` the singleton of the decoder.
pub record FuzzThread : Type 0 where
  pub corpus : Corpus
  pub target : FileInfo
  pub fuzz_opts : List (List ℕ)
  pub seed : ℕ
  pub decoder : Decoder

-- Every position of the history is a byte of the image: outside it an access has no meaning.
unfoldable pub in_image : List MemorySegment → MutationHistory → Bool
in_image gs [] = true
in_image gs (c ∷ cs) = elim (segment_at gs c.segment) [
  | none ↦ false
  | some g ↦ ltb c.offset g.file_size && in_image gs cs
]

unfoldable pub file_at : List FileInfo → ℕ → Option FileInfo
file_at [] i = none
file_at (f ∷ fs) zero = some f
file_at (f ∷ fs) (suc i) = file_at fs i

unfoldable pub put_at : List FileInfo → ℕ → FileInfo → List FileInfo
put_at [] i new = []
put_at (f ∷ fs) zero new = new ∷ fs
put_at (f ∷ fs) (suc i) new = f ∷ put_at fs i new

-- `pop_mutate(input_info, hist)`, on a file of the corpus.
unfoldable pub restore_input : Corpus → ℕ → MutationHistory → Outcome Corpus
unfolding file_at put_at in_image pop_mutate
restore_input corpus idx hist = elim (file_at corpus.corpus_files idx) [
  | none ↦ undefined
  | some input ↦
      if in_image input.segments hist
      then ok (record { corpus_files = put_at corpus.corpus_files idx (pop_mutate input hist) })
      else undefined
]

-- The name of the input.
abbrev pub name_at : Corpus → ℕ → List ℕ
unfolding file_at
name_at corpus idx = elim (file_at corpus.corpus_files idx) [ none ↦ [] | some f ↦ f.file_name ]

-- What a round of `dispatch` does before the emulator runs: a file of the corpus is locked, the target
-- is mutated, an emulator is made from it, and the history is played back into the file.
module _ (p : Platform) (raw : Emu) (bus : Bus) where
  unfoldable pub prepare : FuzzThread → ℕ → Corpus → ℕ → Outcome (Emu × FuzzThread)
  unfolding gen_rand push_mutate of_image substitute_input name_at restore_input
  prepare t idx corpus seed = do
    let (r, seed1) = gen_rand seed
    ((target, hist), seed2) ← push_mutate (r % 8) t.target [] seed1
    em ← of_image p.build raw bus target (substitute_input t.fuzz_opts (name_at corpus idx))
    corpus' ← restore_input corpus idx hist
    ok (em, record t { corpus = corpus'; target = target; seed = seed2 })

  -- The run, on fuel. What it returns is dropped.
  unfoldable pub run_prepared : ℕ → Outcome (Emu × FuzzThread) → Option (Outcome FuzzThread)
  unfolding run
  run_prepared fuel (ok (em, t)) = elim (run Cached.decode p fuel em t.decoder) [
    | none ↦ none
    | some o ↦ some (o >>= λ (code, e, d). ok (record t { decoder = d }))
  ]
  run_prepared fuel aborted = some aborted
  run_prepared fuel (exited c) = some (exited c)
  run_prepared fuel undefined = some undefined

  -- A round, on fuel for the search and for the run.
  unfoldable pub dispatch_once : ℕ → FuzzThread → Option (Outcome FuzzThread)
  unfolding get_random_free_file prepare run_prepared
  dispatch_once fuel t = elim (get_random_free_file fuel t.corpus t.seed) [
    | none ↦ none
    | some (ok ((idx, corpus), seed)) ↦ run_prepared fuel (prepare t idx corpus seed)
    | some aborted ↦ some aborted
    | some (exited c) ↦ some (exited c)
    | some undefined ↦ some undefined
  ]

  unfoldable pub dispatch : ℕ → ℕ → FuzzThread → Option (Outcome FuzzThread)
  unfolding dispatch_once
  dispatch fuel zero t = some (ok t)
  dispatch fuel (suc runs) t = elim (dispatch_once fuel t) [
    | some (ok t') ↦ dispatch fuel runs t'
    | other ↦ other
  ]
