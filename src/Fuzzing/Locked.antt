-- ===== src/Fuzzing/Locked.antt =====
-- The locks that `FuzzThread::dispatch` of src/FuzzThread.cpp takes and does not give back.
use vemu.Common.{
  ℕ, zero, suc, ◌+◌, ◌<◌, ◌%◌, ◌≡◌, refl, sym, ap, ◌∙◌, Option, none, some, List, [], ◌∷◌, Outcome,
  ok, aborted, exited, undefined, >>=-eq-ok, arith, Bool-cases, inl, inr,
}
use vemu.Bus.{Bus}
use vemu.Decoder.Cache as Cached
use vemu.Emu.Platform.{Platform}
use vemu.Emu.State.{Emu}
use vemu.Emu.Construct.{of_image}
use vemu.Emu.Run.{run}
use vemu.Fuzzing.Image.{FileInfo}
use vemu.Fuzzing.Random.{gen_rand}
use vemu.Fuzzing.Mutation.{MutationHistory, set_byte, push_mutate, pop_mutate}
use vemu.Fuzzing.Corpus.{Corpus, get_random_free_file, count_free, get_random_free_file_lem}
use vemu.Fuzzing.Thread.{
  FuzzThread, substitute_input, in_image, file_at, put_at, restore_input, name_at, prepare,
  run_prepared, dispatch_once, dispatch,
}

lock-pop_mutate : (info : FileInfo) (h : MutationHistory) → (pop_mutate info h).lock ≡ info.lock
unfolding pop_mutate
lock-pop_mutate info [] = refl
lock-pop_mutate info (c ∷ cs) =
    lock-pop_mutate (record info { segments = set_byte info.segments c.segment c.offset c.value })
      cs

count_free-put_at :
    (fs : List FileInfo) (i : ℕ) (f new : FileInfo)
    → file_at fs i ≡ some f
    → new.lock ≡ f.lock
    → count_free (put_at fs i new) ≡ count_free fs
unfolding file_at put_at count_free
count_free-put_at [] i f new found same = refl
count_free-put_at (g ∷ fs) zero f new found same =
    let here : g ≡ f = cc found in rw (same, here) refl
count_free-put_at (g ∷ fs) (suc i) f new found same =
    rw (count_free-put_at fs i f new found same) refl

abbrev free_files : FuzzThread → ℕ
free_files t = count_free t.corpus.corpus_files

count_free-restore_input :
    (corpus : Corpus) (idx : ℕ) (hist : MutationHistory) (corpus' : Corpus)
    → restore_input corpus idx hist ≡ ok corpus'
    → count_free corpus'.corpus_files ≡ count_free corpus.corpus_files
unfolding restore_input
count_free-restore_input corpus idx hist corpus' h = go (file_at corpus.corpus_files idx) refl
  where
    go :
        (o : Option FileInfo)
        → file_at corpus.corpus_files idx ≡ o
        → count_free corpus'.corpus_files ≡ count_free corpus.corpus_files
    go none missing = absurd (ground (arith, rw (missing, restore_input) at h))
    go (some input) found = elim (Bool-cases (in_image input.segments hist)) [
      | inl within ↦
          let put = put_at corpus.corpus_files idx (pop_mutate input hist) in
          let runs = rw (found, restore_input, within) at h in
          let same : put ≡ corpus'.corpus_files = cc runs in
          rw (← same) (
            count_free-put_at corpus.corpus_files idx input (pop_mutate input hist) found
              (lock-pop_mutate input hist))
      | inr outside ↦ let runs = rw (found, restore_input, outside) at h in absurd (ground arith)
    ]

abbrev prepared : Emu → FuzzThread → Outcome (Emu × FuzzThread)
prepared em t = ok (em, t)

same_corpus :
    (em1 em : Emu) (t1 t : FuzzThread) → prepared em1 t1 ≡ prepared em t → t1.corpus ≡ t.corpus
same_corpus em1 em t1 t h = cc h

module _ (p : Platform) (raw : Emu) (bus : Bus) where
  free-prepare :
      (t : FuzzThread) (idx : ℕ) (corpus : Corpus) (seed : ℕ) (em : Emu) (t' : FuzzThread)
      → prepare p raw bus t idx corpus seed ≡ ok (em, t')
      → free_files t' ≡ count_free corpus.corpus_files
  unfolding prepare
  free-prepare t idx corpus seed em t' h =
      let (r, seed1) = gen_rand seed in
      let (((target, hist), seed2), mutated, h1) =
        >>=-eq-ok (push_mutate (r % 8) t.target [] seed1) _ h in
      let args = substitute_input t.fuzz_opts (name_at corpus idx) in
      let (em1, made, h2) = >>=-eq-ok (of_image p.build raw bus target args) _ h1 in
      let (corpus1, restored, h3) = >>=-eq-ok (restore_input corpus idx hist) _ h2 in
      let same = same_corpus em1 em _ t' h3 in
      rw (← same) (count_free-restore_input corpus idx hist corpus1 restored)

  free-run_prepared :
      (fuel : ℕ) (o : Outcome (Emu × FuzzThread)) (n : ℕ) (t' : FuzzThread)
      → ((em : Emu) (t : FuzzThread) → o ≡ ok (em, t) → free_files t ≡ n)
      → run_prepared p raw bus fuel o ≡ some (ok t')
      → free_files t' ≡ n
  unfolding run_prepared
  free-run_prepared fuel (ok (em, t)) n t' h runs = go (run Cached.decode p fuel em t.decoder) refl
    where
      go :
          (o : Option (Outcome (ℕ × Emu × Cached.Decoder)))
          → run Cached.decode p fuel em t.decoder ≡ o
          → free_files t' ≡ n
      go none e = absurd (ground (arith, rw (e, run_prepared) at runs))
      go (some (ok (code, e', d))) e =
          let ended = rw (e, run_prepared) at runs in
          let same : t.corpus ≡ t'.corpus = cc ended in rw (← same) (h em t refl)
      go (some aborted) e = absurd (ground (arith, rw (e, run_prepared) at runs))
      go (some (exited c)) e = absurd (ground (arith, rw (e, run_prepared) at runs))
      go (some undefined) e = absurd (ground (arith, rw (e, run_prepared) at runs))
  free-run_prepared fuel aborted n t' h runs = absurd (ground arith)
  free-run_prepared fuel (exited c) n t' h runs = absurd (ground arith)
  free-run_prepared fuel undefined n t' h runs = absurd (ground arith)

  free-dispatch_once :
      (fuel : ℕ) (t t' : FuzzThread)
      → dispatch_once p raw bus fuel t ≡ some (ok t')
      → free_files t ≡ suc (free_files t')
  unfolding dispatch_once
  free-dispatch_once fuel t t' h = go (get_random_free_file fuel t.corpus t.seed) refl
    where
      go :
          (o : Option (Outcome ((ℕ × Corpus) × ℕ)))
          → get_random_free_file fuel t.corpus t.seed ≡ o
          → free_files t ≡ suc (free_files t')
      go none e = absurd (ground (arith, rw (e, dispatch_once) at h))
      go (some (ok ((idx, corpus), seed))) e =
          let runs = rw (e, dispatch_once) at h in
          let (fewer, same) = (get_random_free_file_lem fuel t.corpus t.seed).1 idx corpus seed e in
          let kept =
            free-run_prepared fuel (prepare p raw bus t idx corpus seed)
              (count_free corpus.corpus_files) t'
              (λ em t1 made. free-prepare t idx corpus seed em t1 made) runs in
          fewer ∙ ap suc (sym kept)
      go (some aborted) e = absurd (ground (arith, rw (e, dispatch_once) at h))
      go (some (exited c)) e = absurd (ground (arith, rw (e, dispatch_once) at h))
      go (some undefined) e = absurd (ground (arith, rw (e, dispatch_once) at h))

  counted :
      (fuel runs : ℕ) (t t' : FuzzThread)
      → dispatch p raw bus fuel runs t ≡ some (ok t')
      → count_free t.corpus.corpus_files ≡ runs + count_free t'.corpus.corpus_files
  unfolding dispatch
  counted fuel zero t t' h = let same : t ≡ t' = cc h in rw same (omega arith)
  counted fuel (suc runs) t t' h =
      go (dispatch_once p raw bus fuel t) refl (λ t1 e. counted fuel runs t1 t' e)
    where
      go :
          (o : Option (Outcome FuzzThread))
          → dispatch_once p raw bus fuel t ≡ o
          → ((t1 : FuzzThread)
              → dispatch p raw bus fuel runs t1 ≡ some (ok t')
              → free_files t1 ≡ runs + free_files t')
          → free_files t ≡ suc runs + free_files t'
      go none e ih = absurd (ground (arith, rw (e, dispatch) at h))
      go (some (ok t1)) e ih =
          let later = ih t1 (rw (e, dispatch) at h) in
          omega (arith, later, free-dispatch_once fuel t t1 e)
      go (some aborted) e ih = absurd (ground (arith, rw (e, dispatch) at h))
      go (some (exited c)) e ih = absurd (ground (arith, rw (e, dispatch) at h))
      go (some undefined) e ih = absurd (ground (arith, rw (e, dispatch) at h))

  -- Every round of `dispatch` that comes to its end leaves one more file of the corpus locked, so that
  -- `dispatch` does not come to its end, on any fuel, with more rounds than files that are free.
  pub dispatch_lem :
      (fuel runs : ℕ) (t : FuzzThread)
      → ((t' : FuzzThread)
          → dispatch p raw bus fuel runs t ≡ some (ok t')
          → count_free t.corpus.corpus_files ≡ runs + count_free t'.corpus.corpus_files)
        × (count_free t.corpus.corpus_files < runs
            → (t' : FuzzThread) → ¬ (dispatch p raw bus fuel runs t ≡ some (ok t')))
  dispatch_lem fuel runs t =
      (counted fuel runs t, λ few t' ends. omega (arith, counted fuel runs t t' ends, few))
