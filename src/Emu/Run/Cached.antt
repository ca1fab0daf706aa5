-- ===== src/Emu/Run/Cached.antt =====
-- The caches of the decoder do not show in the loop of `VEmu::run` of src/VEmu.cpp.
use vemu.Common.{
  Bool, true, false, ℕ, zero, suc, ◌≡◌, refl, Option, none, some, Outcome, ok, aborted, exited,
  undefined, ◌>>=◌, if◌then◌else◌,
}
use vemu.Isa.{Instruction}
use vemu.Decoder.Cache.{Decoder}
use vemu.Decoder.Cache as Cached
use vemu.Decoder.Transparent.{IsCoherent, reference, decode-reference}
use vemu.Emu.Platform.{Platform}
use vemu.Emu.State.{Emu}
use vemu.Emu.Run.{
  Progress, next_instr, interrupted, test_done, get_4byte_aligned_instr, settle, execute,
  fetch_and_execute, round, run,
}

-- The decoder without caches has no state.
abbrev pub reference_decode : Unit {0} → ℕ → Outcome (Instruction × Unit {0})
reference_decode d inst = reference inst >>= λ i. ok (i, d)

-- A run with any decoder, without the decoder that it leaves.
abbrev pub forget :
    {D : Type 0} → Option (Outcome (ℕ × Emu × D)) → Option (Outcome (ℕ × Emu × Unit {0}))
forget none = none
forget (some o) = some (o >>= λ (code, e, d). ok (code, e, tt))

data Agree : Outcome (Progress Decoder) → Outcome (Progress (Unit {0})) → Type 0 where
  both_returned :
      (code : ℕ) (e : Emu) (d : Decoder)
      → IsCoherent d
      → Agree (ok (Progress.returned code e d)) (ok (Progress.returned code e tt))
  both_continued :
      (e : Emu) (d : Decoder)
      → IsCoherent d
      → Agree (ok (Progress.continued e d)) (ok (Progress.continued e tt))
  both_aborted : Agree aborted aborted
  both_exited : (code : ℕ) → Agree (exited code) (exited code)
  both_undefined : Agree undefined undefined

then_Agree :
    {X : Type 0} (o : Outcome X) (k : X → Outcome (Progress Decoder))
    (l : X → Outcome (Progress (Unit {0})))
    → ((x : X) → Agree (k x) (l x))
    → Agree (o >>= k) (o >>= l)
then_Agree (ok x) k l h = h x
then_Agree aborted k l h = Agree.both_aborted
then_Agree (exited c) k l h = Agree.both_exited c
then_Agree undefined k l h = Agree.both_undefined

-- A call of both decoders, and what follows it.
decoded_Agree :
    (d : Decoder) (inst : ℕ) (next : Instruction → Outcome Emu)
    → IsCoherent d
    → Agree
        (Cached.decode d inst >>= λ (i, d').
          next i >>= λ e'. ok (Progress.continued (next_instr e') d'))
        (reference_decode tt inst >>= λ (i, d').
          next i >>= λ e'. ok (Progress.continued (next_instr e') d'))
decoded_Agree d inst next coherent =
    let (same, after) = decode-reference d inst coherent in go (Cached.decode d inst) same after
  where
    go :
        (o : Outcome (Instruction × Decoder))
        → (o >>= λ (i, d'). ok i) ≡ reference inst
        → ((i : Instruction) (d' : Decoder) → o ≡ ok (i, d') → IsCoherent d')
        → Agree (o >>= λ (i, d'). next i >>= λ e'. ok (Progress.continued (next_instr e') d')) (
            reference_decode tt inst >>= λ (i, d').
            next i >>= λ e'. ok (Progress.continued (next_instr e') d'))
    go (ok (i, d')) same after = rw (← same) (
        then_Agree (next i) (λ e'. ok (Progress.continued (next_instr e') d'))
          (λ e'. ok (Progress.continued (next_instr e') tt))
          (λ e'. Agree.both_continued (next_instr e') d' (after i d' refl)))
    go aborted same after = rw (← same) Agree.both_aborted
    go (exited c) same after = rw (← same) (Agree.both_exited c)
    go undefined same after = rw (← same) Agree.both_undefined

if_Agree :
    (b : Bool) {o o' : Outcome (Progress Decoder)} {r r' : Outcome (Progress (Unit {0}))}
    → Agree o r
    → Agree o' r'
    → Agree (if b then o else o') (if b then r else r')
if_Agree true h k = h
if_Agree false h k = k

module _ (p : Platform) where
  fetched_Agree :
      (e : Emu) (d : Decoder)
      → IsCoherent d
      → Agree (fetch_and_execute Cached.decode p e d) (fetch_and_execute reference_decode p e tt)
  unfolding fetch_and_execute
  fetched_Agree e d coherent =
      then_Agree (get_4byte_aligned_instr p.build e e.pc) _ _ (λ ((inst, ex), e1).
        then_Agree (settle p.build e1 ex) _ _
          (λ e2. decoded_Agree d inst (execute p e2 inst) coherent))

  round_Agree :
      (e : Emu) (d : Decoder)
      → IsCoherent d
      → Agree (round Cached.decode p e d) (round reference_decode p e tt)
  unfolding round
  round_Agree e d coherent = if_Agree e.has_exited (Agree.both_returned e.exit_code e d coherent) (
      then_Agree (interrupted p.build e) _ _ (λ e1.
        if_Agree (test_done p.build e1) (Agree.both_returned 0 e1 d coherent)
          (fetched_Agree e1 d coherent)))

  -- The loop with the decoder of the source, its caches coherent at the start, does on any fuel
  -- what it does with the decoder without caches: it returns the same code with the same state,
  -- fails in the same way, or is still going.
  pub run-reference :
      (fuel : ℕ) (e : Emu) (d : Decoder)
      → IsCoherent d
      → forget (run Cached.decode p fuel e d) ≡ run reference_decode p fuel e tt
  unfolding run
  run-reference zero e d coherent = refl
  run-reference (suc fuel) e d coherent =
      go (λ e' d' c. run-reference fuel e' d' c) refl refl (round_Agree e d coherent)
    where
      go :
          ((e' : Emu) (d' : Decoder)
            → IsCoherent d'
            → forget (run Cached.decode p fuel e' d') ≡ run reference_decode p fuel e' tt)
          → {o : Outcome (Progress Decoder)} {r : Outcome (Progress (Unit {0}))}
          → round Cached.decode p e d ≡ o
          → round reference_decode p e tt ≡ r
          → Agree o r
          → forget (run Cached.decode p (suc fuel) e d) ≡ run reference_decode p (suc fuel) e tt
      go ih f g (Agree.both_returned code e' d' c) = rw (f, g, run) refl
      go ih f g (Agree.both_continued e' d' c) = rw (f, g, run) (ih e' d' c)
      go ih f g Agree.both_aborted = rw (f, g, run) refl
      go ih f g (Agree.both_exited code) = rw (f, g, run) refl
      go ih f g Agree.both_undefined = rw (f, g, run) refl
