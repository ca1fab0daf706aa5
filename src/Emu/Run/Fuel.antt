-- ===== src/Emu/Run/Fuel.antt =====
-- The loop of `VEmu::run` of src/VEmu.cpp on fuel and as a relation.
use vemu.Common.{
  ℕ, zero, suc, ◌≡◌, refl, sym, ◌∙◌, some, Outcome, ok, aborted, exited, undefined, arith,
}
use vemu.Isa.{Instruction}
use vemu.Emu.Platform.{Platform}
use vemu.Emu.State.{Emu}
use vemu.Emu.Run.{Progress, round, run, Reaches}

module _ {D : Type 0} (decode : D → ℕ → Outcome (Instruction × D)) (p : Platform) where
  run_last :
      (fuel : ℕ) (e : Emu) (d : D) {code : ℕ} {e' : Emu} {d' : D}
      → round decode p e d ≡ ok (Progress.returned code e' d')
      → run decode p (suc fuel) e d ≡ some (ok (code, e', d'))
  unfolding run
  run_last fuel e d last = rw (last, run) refl

  run_more :
      (fuel : ℕ) (e : Emu) (d : D) {e' : Emu} {d' : D}
      → round decode p e d ≡ ok (Progress.continued e' d')
      → run decode p (suc fuel) e d ≡ run decode p fuel e' d'
  unfolding run
  run_more fuel e d more = rw (more, run) refl

  -- Some rounds, and one that returns.
  abbrev pub Returns : Emu → D → ℕ → Emu → D → Type 0
  Returns e d code e2 d2 =
      (e1 : Emu) × (d1 : D) × Reaches decode p e d e1 d1
      × (round decode p e1 d1 ≡ ok (Progress.returned code e2 d2))

  -- With the fuel of a run that returns, the rounds are those of the relation.
  pub run-Returns :
      (fuel : ℕ) (e : Emu) (d : D) {code : ℕ} {e2 : Emu} {d2 : D}
      → run decode p fuel e d ≡ some (ok (code, e2, d2))
      → Returns e d code e2 d2
  unfolding run
  run-Returns zero e d h = absurd (ground arith)
  run-Returns (suc fuel) e d {code = code} {e2 = e2} {d2 = d2} h =
      go (λ e' d'. run-Returns fuel e' d') (round decode p e d) refl
    where
      go :
          ((e' : Emu) (d' : D)
            → run decode p fuel e' d' ≡ some (ok (code, e2, d2))
            → Returns e' d' code e2 d2)
          → (o : Outcome (Progress D)) → round decode p e d ≡ o
          → Returns e d code e2 d2
      go ih (ok (Progress.returned c e' d')) same =
          (e, d, Reaches.here e d, same ∙ cc (sym (run_last fuel e d same) ∙ h))
      go ih (ok (Progress.continued e' d')) same =
          let (e1, d1, reaches, last) = ih e' d' (sym (run_more fuel e d same) ∙ h) in
          (e1, d1, Reaches.next e d same reaches, last)
      go ih aborted same = let wrong = rw (same, run) at h in absurd (ground (arith))
      go ih (exited c) same = let wrong = rw (same, run) at h in absurd (ground (arith))
      go ih undefined same = let wrong = rw (same, run) at h in absurd (ground (arith))
