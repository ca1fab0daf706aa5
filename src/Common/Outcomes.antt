-- ===== src/Common/Outcomes.antt =====
-- What a call of the emulator comes to, besides an exception code that it returns as a value.
use Prim.Native.Nat.{ℕ}
use mathlib.Core.Path.{◌≡◌, refl}

-- `aborted`: a failed `assert`, or an exception that nobody catches. `exited`: a call of `exit`.
-- `undefined`: C++ gives the access no meaning (an index outside the reserved buffer).
pub data Outcome {ℓ} (A : Type ℓ) : Type ℓ where
  ok : A → Outcome A
  aborted : Outcome A
  exited : ℕ → Outcome A
  undefined : Outcome A

infixl 5 ◌>>=◌
abbrev pub ◌>>=◌ {ℓ κ} : {A : Type ℓ} {B : Type κ} → Outcome A → (A → Outcome B) → Outcome B
ok a >>= f = f a
aborted >>= f = aborted
exited c >>= f = exited c
undefined >>= f = undefined

-- A call that gives a value, followed by another, is made of two that do.
pub >>=-eq-ok {ℓ κ} :
    {X : Type ℓ} {Y : Type κ} (call : Outcome X) (next : X → Outcome Y) {y : Y}
    → (call >>= next) ≡ ok y
    → (x : X) × (call ≡ ok x) × (next x ≡ ok y)
>>=-eq-ok (ok x) next runs = (x, refl, runs)
>>=-eq-ok aborted next runs = cc
>>=-eq-ok (exited code) next runs = cc
>>=-eq-ok undefined next runs = cc
