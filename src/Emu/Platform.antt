-- ===== src/Emu/Platform.antt =====
-- What the emulator of src/VEmu.cpp is built with and runs on, none of it part of the repository: the
-- build's macros, the floating point of the host and of the SoftFloat library, and the host's files.
-- A `float` is held as its 32-bit pattern and a `double` as its 64-bit pattern.
use vemu.Common.{ℕ, Bool, Option, List, ℤ}

-- FUZZ_ENV, TEST_ENV, or neither.
pub data Build : Type 0 where
  fuzz test plain : Build

pub data FpClass : Type 0 where
  infinite normal subnormal zero nan other : FpClass

pub record Floats : Type 0 where
  -- `static_cast<float>` of a `double`, and `static_cast<double>` of a `float`.
  pub to_float : ℕ → ℕ
  pub to_double : ℕ → ℕ
  -- `static_cast<float>` of an integer, and the integer part of a `float`, which a NaN and an
  -- infinity do not have.
  pub of_integer : ℤ → ℕ
  pub integer_part : ℕ → Option ℤ
  pub fma : ℕ → ℕ → ℕ → ℕ
  pub negate : ℕ → ℕ
  pub copysign : ℕ → ℕ → ℕ
  pub fmin : ℕ → ℕ → ℕ
  pub fmax : ℕ → ℕ → ℕ
  pub round : ℕ → ℕ
  pub fabs : ℕ → ℕ
  pub isinf : ℕ → Bool
  pub signbit : ℕ → Bool
  pub fpclassify : ℕ → FpClass
  -- `==`, `<` and `<=` of `float`s, and `==` and `<` of `double`s.
  pub equal : ℕ → ℕ → Bool
  pub less : ℕ → ℕ → Bool
  pub at_most : ℕ → ℕ → Bool
  pub equal_double : ℕ → ℕ → Bool
  pub less_double : ℕ → ℕ → Bool
  -- The operations of SoftFloat, from `softfloat_exceptionFlags` and the operands to the result and
  -- the flags after it.
  pub f32_add : ℕ → ℕ → ℕ → ℕ × ℕ
  pub f32_sub : ℕ → ℕ → ℕ → ℕ × ℕ
  pub f32_mul : ℕ → ℕ → ℕ → ℕ × ℕ
  pub f32_div : ℕ → ℕ → ℕ → ℕ × ℕ
  pub f32_sqrt : ℕ → ℕ → ℕ × ℕ

-- Opening a file, by the number of files opened before, its path and its flags: the descriptor and
-- the bytes that `lseek` and `read` find, or nothing where `open` returns -1. `garbage` is what an
-- uninitialised object on the stack holds.
pub record Host : Type 0 where
  pub open_file : ℕ → List ℕ → ℕ → Option (ℕ × List ℕ)
  pub garbage : ℕ → ℕ

pub record Platform : Type 0 where
  pub build : Build
  pub support_softfloat : Bool
  pub floats : Floats
  pub host : Host
