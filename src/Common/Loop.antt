-- ===== src/Common/Loop.antt =====
-- Counted loops, `for (i = start; i < end; i++)`, as a recursion on the rounds that are left, and
-- functions as arrays.
use Prim.Native.Nat.{ℕ, zero, suc, ◌+◌}
use vemu.Common.Tests.{◌==◌, if◌then◌else◌}

unfoldable pub for_range {ℓ} : {St : Type ℓ} → ℕ → ℕ → (ℕ → St → St) → St → St
for_range zero at step st = st
for_range (suc left) at step st = for_range left (at + 1) step (step at st)

-- Writing one cell of an array.
abbrev pub update {ℓ} : {A : Type ℓ} → (ℕ → A) → ℕ → A → ℕ → A
update f p v q = if p == q then v else f q
