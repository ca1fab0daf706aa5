-- ===== src/Examples/Images.antt =====
-- The theorems on images and strings, at an image of one segment and a string of one byte.
use vemu.Common.{
  ℕ, ◌≡◌, true, false, ◌+◌, ◌<◌, ltb, if◌then◌else◌, some, [], ◌∷◌, ok, aborted, refl, arith,
}
use vemu.Mmu.Strings.{
  Ends, read_null_terminated_string, string_fuel, read_null_terminated_string-Ends,
}
use vemu.Fuzzing.Image.{FileInfo}
use vemu.Fuzzing.Mutation.{MutationHistory, push_mutate, pop_mutate}
use vemu.Fuzzing.Restore.{IsMutable, byte_at, push_mutate-pop_mutate}
use vemu.Fuzzing.Corpus.{Corpus, count_free}
use vemu.Fuzzing.Thread.{FuzzThread, dispatch}
use vemu.Fuzzing.Locked.{dispatch_lem}
use vemu.Fuzzing.Elf.{Elf}
use vemu.Fuzzing.Main.{main, main_lem}
use vemu.Mmu.{Mmu}
use vemu.Mmu.Loading.{load_file}
use vemu.Mmu.Image.{covered, AreApart, AllFit, AllStand, IsImage, AllBounded, load_file_lem}
use vemu.Decoder.Cache as Cached
use vemu.Examples.Machine.{machine, memory}
use vemu.Examples.Calls.{platform}

read_null_terminated_string-Ends_example :
    Ends (read_null_terminated_string (string_fuel memory) memory 64)
read_null_terminated_string-Ends_example =
    read_null_terminated_string-Ends memory 64 (omega arith) (omega arith)

abbrev image : FileInfo
image = record {
  file_name = [];
  segments = record { perms = 4; start_addr = 0; mem_size = 8; file_size = 4; bytes = λ o. o } ∷ [];
  entry_point = 0;
  lock = false;
}

image-IsMutable : IsMutable image.segments
image-IsMutable = record { some_segment = omega arith; some_bytes = (omega arith, tt) }

push_mutate-pop_mutate_example :
    (info' : FileInfo) × (h : MutationHistory) × (seed' : ℕ) × (push_mutate 7 image [] 123456789
      ≡ ok ((info', h), seed'))
    × ((s o : ℕ) → byte_at (pop_mutate info' h).segments s o ≡ byte_at image.segments s o)
push_mutate-pop_mutate_example = push_mutate-pop_mutate 7 image 123456789 image-IsMutable

-- A corpus of two files, one of which is locked.
abbrev two_files : Corpus
two_files = record { corpus_files = image ∷ record image { lock = true } ∷ [] }

-- The hundred rounds that the program asks for.
abbrev thread : FuzzThread
thread = record {
  corpus = two_files;
  target = image;
  fuzz_opts = (0x7b ∷ 0x7d ∷ []) ∷ [];
  seed = 123456789;
  decoder = Cached.new;
}

dispatch_lem_example :
    ((t' : FuzzThread)
      → dispatch platform machine machine.bus 7 100 thread ≡ some (ok t')
      → count_free two_files.corpus_files ≡ 100 + count_free t'.corpus.corpus_files)
    × (count_free two_files.corpus_files < 100
        → (t' : FuzzThread) → ¬ (dispatch platform machine machine.bus 7 100 thread ≡ some (ok t')))
dispatch_lem_example = dispatch_lem platform machine machine.bus 7 100 thread

-- A program of one page and its data, of which the file has two bytes.
abbrev two_segments : FileInfo
two_segments = record image {
  segments =
      record { perms = 5; start_addr = 0; mem_size = 4096; file_size = 4096; bytes = λ o. o }
      ∷ record { perms = 6; start_addr = 4096; mem_size = 8; file_size = 2; bytes = λ o. 9 }
      ∷ [];
}

load_file_lem_example :
    (AllFit memory two_segments.segments
      → AreApart two_segments.segments
      → (m' : Mmu) × (load_file memory two_segments ≡ ok m')
        × IsImage memory two_segments.segments m')
    × (AllBounded two_segments.segments
        → (¬ AllFit memory two_segments.segments)
        → load_file memory two_segments ≡ aborted)
load_file_lem_example = load_file_lem memory two_segments (omega arith)

-- The segments fit, and the six bytes behind those of the data are 0.
data_loaded :
    (m' : Mmu) × (load_file memory two_segments ≡ ok m')
    × ((o : ℕ) → o < 8 → m'.ram (4096 + o) ≡ (if ltb o 2 then 9 else 0))
unfolding AllFit AreApart covered AllStand
data_loaded =
    let (m', loads, image) =
      (load_file_lem memory two_segments (omega arith)).0 (omega arith, (omega arith, tt))
        (λ j h. ground arith, (λ j h. refl, tt)) in
    (m', loads, λ o h. (image.all_stand.1.0.0 o h).0)

-- A directory of one file, which holds the image of one segment.
abbrev the_file : Elf
the_file = record {
  segments =
      record {
        get_type = 1;
        get_flags = 4;
        get_virtual_address = 0;
        get_memory_size = 8;
        get_file_size = 4;
        get_data = λ o. o;
      }
      ∷ [];
  get_entry = 0;
}

main_lem_example :
    ((t : FuzzThread)
      → main
          (λ path. some the_file)
          (λ dir. some ((1 ∷ []) ∷ []))
          platform
          machine
          machine.bus
          7
          ([] ∷ [] ∷ [] ∷ [] ∷ [])
        ≡ some (ok t)
      → 1 ≡ 100 + count_free t.corpus.corpus_files)
    × (1 < 100
        → (t : FuzzThread)
        → ¬ (
            main
              (λ path. some the_file)
              (λ dir. some ((1 ∷ []) ∷ []))
              platform
              machine
              machine.bus
              7
              ([] ∷ [] ∷ [] ∷ [] ∷ [])
            ≡ some (ok t)))
main_lem_example =
    main_lem (λ path. some the_file) (λ dir. some ((1 ∷ []) ∷ [])) platform machine machine.bus 7 []
      [] [] [] [] ((1 ∷ []) ∷ []) refl
