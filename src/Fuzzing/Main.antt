-- ===== src/Fuzzing/Main.antt =====
-- `main` of src/main.cpp in the build with FUZZ_ENV, which reads a corpus and a target and asks for a
-- hundred rounds.
use vemu.Common.{
  ℕ, suc, ◌+◌, ◌<◌, ◌≡◌, refl, sym, ap, ◌∙◌, Bool, true, false, Option, none, some, List, [], ◌∷◌,
  length, Outcome, ok, aborted, exited, undefined, ◌>>=◌, >>=-eq-ok, arith,
}
use vemu.Bus.{Bus}
use vemu.Decoder.Cache as Cached
use vemu.Emu.Platform.{Platform}
use vemu.Emu.State.{Emu}
use vemu.Fuzzing.Image.{FileInfo}
use vemu.Fuzzing.Random.{first_seed}
use vemu.Fuzzing.Corpus.{Corpus, count_free}
use vemu.Fuzzing.Elf as Elf
use vemu.Fuzzing.Elf.{Elf, loadable, read_elf, read_all}
use vemu.Fuzzing.Thread.{FuzzThread, dispatch}
use vemu.Fuzzing.Locked.{dispatch_lem}

-- The rounds, once the thread is made.
unfoldable pub then_dispatch :
    Outcome FuzzThread → (FuzzThread → Option (Outcome FuzzThread)) → Option (Outcome FuzzThread)
then_dispatch (ok t) rounds = rounds t
then_dispatch aborted rounds = some aborted
then_dispatch (exited code) rounds = some (exited code)
then_dispatch undefined rounds = some undefined

module _ (load : List ℕ → Option Elf) (directory_iterator : List ℕ → Option (List (List ℕ))) where
  -- The arguments are the program, the directory, the target and at least one option for it.
  unfoldable pub make_thread : List (List ℕ) → Outcome FuzzThread
  unfolding Elf.new read_elf
  make_thread (name ∷ dir_path ∷ fname ∷ opt ∷ opts) = do
    corpus ← Elf.new load directory_iterator dir_path
    fuzz_info ← read_elf load fname true
    ok (record {
      corpus = corpus;
      target = fuzz_info;
      fuzz_opts = opt ∷ opts;
      seed = first_seed;
      decoder = Cached.new;
    })
  make_thread _ = exited 1

  unfoldable pub main : Platform → Emu → Bus → ℕ → List (List ℕ) → Option (Outcome FuzzThread)
  unfolding make_thread then_dispatch dispatch
  main p raw bus fuel argv = then_dispatch (make_thread argv) (dispatch p raw bus fuel 100)

abbrev lock_of : Outcome FileInfo → Bool
lock_of (ok f) = f.lock
lock_of _ = false

free_of : Outcome (List FileInfo) → ℕ
free_of (ok fs) = count_free fs
free_of _ = 0

abbrev free_in : Outcome Corpus → ℕ
free_in (ok corpus) = count_free corpus.corpus_files
free_in _ = 0

abbrev free_files : Outcome FuzzThread → ℕ
free_files (ok t) = count_free t.corpus.corpus_files
free_files _ = 0

one_more :
    (f : FileInfo) (gs fs : List FileInfo) (n : ℕ)
    → f.lock ≡ false
    → count_free gs ≡ n
    → ◌≡◌ {A = Outcome (List FileInfo)} (ok (f ∷ gs)) (ok fs)
    → count_free fs ≡ suc n
unfolding count_free free_of
one_more f gs fs n unlocked counted same = sym (ap free_of same) ∙ ground (arith, unlocked, counted)

-- Every file that is read comes unlocked.
module _ (load : List ℕ → Option Elf) where
  lock-read_elf : (fname : List ℕ) (f : FileInfo) → read_elf load fname true ≡ ok f → f.lock ≡ false
  unfolding read_elf
  lock-read_elf fname f h = sym (ap lock_of h) ∙ go (load fname)
    where
      go :
          (o : Option Elf)
          → lock_of (elim o [
            | none ↦ exited 1
            | some elf ↦ ok (record {
              file_name = fname;
              segments = loadable elf.segments;
              entry_point = elf.get_entry;
              lock = false;
            })
          ])
            ≡ false
      go none = refl
      go (some elf) = refl

  free-read_all :
      (paths : List (List ℕ)) (fs : List FileInfo)
      → read_all load paths ≡ ok fs
      → count_free fs ≡ length paths
  unfolding read_all count_free free_of
  free-read_all [] fs h = sym (ap free_of h)
  free-read_all (path ∷ paths) fs h =
      let (f, one, h1) = >>=-eq-ok (read_elf load path true) _ h in
      let (gs, later, h2) = >>=-eq-ok (read_all load paths) _ h1 in
      one_more f gs fs (length paths) (lock-read_elf path f one) (free-read_all paths gs later) h2

  module _ (directory_iterator : List ℕ → Option (List (List ℕ))) (paths : List (List ℕ)) where
    free-new :
        (dir_path : List ℕ) (corpus : Corpus)
        → directory_iterator dir_path ≡ some paths
        → Elf.new load directory_iterator dir_path ≡ ok corpus
        → count_free corpus.corpus_files ≡ length paths
    unfolding Elf.new
    free-new dir_path corpus listed h =
        let (fs, read, made) = >>=-eq-ok (read_all load paths) _ (rw (listed, Elf.new) at h) in
        sym (ap free_in made) ∙ free-read_all paths fs read

    free-make_thread :
        (name dir_path fname opt : List ℕ) (opts : List (List ℕ)) (t : FuzzThread)
        → directory_iterator dir_path ≡ some paths
        → make_thread load directory_iterator (name ∷ dir_path ∷ fname ∷ opt ∷ opts) ≡ ok t
        → count_free t.corpus.corpus_files ≡ length paths
    unfolding make_thread
    free-make_thread name dir_path fname opt opts t listed h =
        let (corpus, made, h1) = >>=-eq-ok (Elf.new load directory_iterator dir_path) _ h in
        let (info, read, h2) = >>=-eq-ok (read_elf load fname true) _ h1 in
        sym (ap free_files h2) ∙ free-new dir_path corpus listed made

ended_thread :
    (o : Outcome FuzzThread) (rounds : FuzzThread → Option (Outcome FuzzThread)) (t' : FuzzThread)
    → then_dispatch o rounds ≡ some (ok t')
    → (t : FuzzThread) × (o ≡ ok t) × (rounds t ≡ some (ok t'))
unfolding then_dispatch
ended_thread (ok t) rounds t' h = (t, refl, h)
ended_thread aborted rounds t' h = absurd (ground arith)
ended_thread (exited code) rounds t' h = absurd (ground arith)
ended_thread undefined rounds t' h = absurd (ground arith)

-- If the fuzzing program, given a directory, a target and options, comes to the end of its 100 rounds,
-- then 100 files of the directory are locked that were free when they were read. With fewer than 100
-- files in the directory it does not come to the end of its rounds, on any fuel, whatever the files
-- hold.
pub main_lem :
    (load : List ℕ → Option Elf) (directory_iterator : List ℕ → Option (List (List ℕ)))
    (p : Platform) (raw : Emu) (bus : Bus) (fuel : ℕ) (name dir_path fname opt : List ℕ)
    (opts paths : List (List ℕ))
    → directory_iterator dir_path ≡ some paths
    → ((t : FuzzThread)
        → main load directory_iterator p raw bus fuel (name ∷ dir_path ∷ fname ∷ opt ∷ opts)
          ≡ some (ok t)
        → length paths ≡ 100 + count_free t.corpus.corpus_files)
      × (length paths < 100
          → (t : FuzzThread)
          → ¬ (
              main load directory_iterator p raw bus fuel (name ∷ dir_path ∷ fname ∷ opt ∷ opts)
              ≡ some (ok t)))
unfolding main
main_lem load directory_iterator p raw bus fuel name dir_path fname opt opts paths listed =
    (locked, λ few t' h. omega (arith, locked t' h, few))
  where
    argv : List (List ℕ)
    argv = name ∷ dir_path ∷ fname ∷ opt ∷ opts

    locked :
        (t' : FuzzThread)
        → main load directory_iterator p raw bus fuel (name ∷ dir_path ∷ fname ∷ opt ∷ opts)
          ≡ some (ok t')
        → length paths ≡ 100 + count_free t'.corpus.corpus_files
    locked t' h =
        let (t, made, rounds) =
          ended_thread (make_thread load directory_iterator argv) (dispatch p raw bus fuel 100) t'
            h in
        omega (
          arith,
          free-make_thread load directory_iterator paths name dir_path fname opt opts t listed made,
          (dispatch_lem p raw bus fuel 100 t).0 t' rounds,
        )
