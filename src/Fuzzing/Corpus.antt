-- ===== src/Fuzzing/Corpus.antt =====
-- `Corpus` of include/util.h and src/util.cpp: the files that the fuzzer draws its inputs from, each
-- with a lock. The constructor reads the files of a directory through ELFIO and is left out.
use vemu.Common.{
  ℕ, zero, suc, ◌+◌, ◌%◌, ◌<◌, ◌≡◌, refl, ap, Bool, true, false, Option, none, some, List, [], ◌∷◌,
  ◌==◌, ◌≢◌, if◌then◌else◌, Outcome, ok, undefined, length, arith, Bool-cases, inl, inr,
}
use vemu.Fuzzing.Image.{FileInfo}
use vemu.Fuzzing.Random.{gen_rand}

pub record Corpus : Type 0 where
  pub corpus_files : List FileInfo

abbrev pub behind : FileInfo → Option (List FileInfo) → Option (List FileInfo)
behind f none = none
behind f (some fs) = some (f ∷ fs)

-- `corpus_files[idx]->lock.try_lock()`: the files with that one locked, or nothing where its lock is
-- held. Whose lock it is is not kept: for a lock of the calling thread itself C++ leaves `try_lock` open,
-- and it is read as the failure that it is for another thread's.
unfoldable pub try_lock : List FileInfo → ℕ → Option (List FileInfo)
try_lock [] idx = none
try_lock (f ∷ fs) zero = if f.lock then none else some (record f { lock = true } ∷ fs)
try_lock (f ∷ fs) (suc idx) = behind f (try_lock fs idx)

-- The index of the file that is returned, with its lock held. On fuel; `none` where it does not
-- reach the end. `%` by 0, for a corpus without files, has no meaning in C++.
unfoldable pub get_random_free_file : ℕ → Corpus → ℕ → Option (Outcome ((ℕ × Corpus) × ℕ))
unfolding gen_rand try_lock
get_random_free_file zero corpus seed = none
get_random_free_file (suc fuel) corpus seed =
    let (r, seed') = gen_rand seed in
    let files = corpus.corpus_files in
    let rest = get_random_free_file fuel corpus seed' in
    if length files == 0 then some undefined else elim (try_lock files (r % length files)) [
      | some fs ↦ some (ok ((r % length files, record { corpus_files = fs }), seed'))
      | none ↦ rest
    ]

-- The number of files that are free.
unfoldable pub count_free : List FileInfo → ℕ
count_free [] = 0
count_free (f ∷ fs) = (if f.lock then 0 else 1) + count_free fs

-- What `try_lock` comes to: one file fewer is free.
abbrev Locks : List FileInfo → Option (List FileInfo) → Type 0
Locks fs none = Unit {0}
Locks fs (some gs) = (count_free fs ≡ suc (count_free gs)) × (length gs ≡ length fs)

behind-Locks :
    (f : FileInfo) (fs : List FileInfo) (o : Option (List FileInfo))
    → Locks fs o
    → Locks (f ∷ fs) (behind f o)
unfolding count_free
behind-Locks f fs none h = h
behind-Locks f fs (some gs) h = (ground (arith, h.0), ap suc h.1)

try_lock-Locks : (fs : List FileInfo) (idx : ℕ) → Locks fs (try_lock fs idx)
unfolding try_lock count_free
try_lock-Locks [] idx = tt
try_lock-Locks (f ∷ fs) zero = go f.lock refl
  where
    go : (b : Bool) → f.lock ≡ b → Locks (f ∷ fs) (try_lock (f ∷ fs) zero)
    go true held = rw held tt
    go false free = rw (free, try_lock) (ground (arith, free), refl)
try_lock-Locks (f ∷ fs) (suc idx) = behind-Locks f fs (try_lock fs idx) (try_lock-Locks fs idx)

-- What a search in `corpus` comes to.
abbrev Draws : Corpus → Option (Outcome ((ℕ × Corpus) × ℕ)) → Type 0
Draws corpus o =
    (count_free corpus.corpus_files ≡ 0 → 0 < length corpus.corpus_files → o ≡ none)
    × ((idx : ℕ) (corpus' : Corpus) (seed' : ℕ)
        → o ≡ some (ok ((idx, corpus'), seed'))
        → (count_free corpus.corpus_files ≡ suc (count_free corpus'.corpus_files))
          × (length corpus'.corpus_files ≡ length corpus.corpus_files))

-- When every file of a corpus is locked, `get_random_free_file` does not return, whatever its fuel
-- is. When it returns, one file fewer is free than before.
pub get_random_free_file_lem :
    (fuel : ℕ) (corpus : Corpus) (seed : ℕ)
    → (count_free corpus.corpus_files ≡ 0
        → 0 < length corpus.corpus_files
        → get_random_free_file fuel corpus seed ≡ none)
      × ((idx : ℕ) (corpus' : Corpus) (seed' : ℕ)
          → get_random_free_file fuel corpus seed ≡ some (ok ((idx, corpus'), seed'))
          → (count_free corpus.corpus_files ≡ suc (count_free corpus'.corpus_files))
            × (length corpus'.corpus_files ≡ length corpus.corpus_files))
unfolding get_random_free_file
get_random_free_file_lem zero corpus seed = (λ h k. refl, λ idx c s h. absurd (ground arith))
get_random_free_file_lem (suc fuel) corpus seed =
    let (r, seed') = gen_rand seed in
    let files = corpus.corpus_files in
    elim (Bool-cases (length files == 0)) [
      | inl empty ↦
          rw empty
            (λ h k. absurd (ground arith), λ idx c s h. absurd (not_ok undefined (λ x g. cc) h))
      | inr some_files ↦ rw some_files (
          found (try_lock files (r % length files)) (r % length files) seed'
            (try_lock-Locks files (r % length files)) (get_random_free_file fuel corpus seed')
            (get_random_free_file_lem fuel corpus seed'))
    ]
  where
    not_ok :
        {X : Type 0} (o : Outcome X) → ((x : X) → o ≢ ok x) → {x : X} → some o ≡ some (ok x) → ⊥
    not_ok o h {x} g = h x (cc g)

    found :
        (locked : Option (List FileInfo)) (idx seed' : ℕ)
        → Locks corpus.corpus_files locked
        → (rest : Option (Outcome ((ℕ × Corpus) × ℕ))) → Draws corpus rest
        → Draws corpus (elim locked [
          | some fs ↦ some (ok ((idx, record { corpus_files = fs }), seed'))
          | none ↦ rest
        ])
    found none idx seed' h rest later = later
    found (some fs) idx seed' h rest later = (
      λ k n. absurd (omega (arith, h.0, k)),
      λ i c s g.
          let locked : Corpus = record { corpus_files = fs } in
          let same : locked ≡ c = cc g in rw (← same) h,
    )
