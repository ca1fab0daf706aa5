-- ===== src/FRegFile.antt =====
-- The floating-point registers of src/FRegFile.cpp, each a `double` held as its 64-bit pattern.
use vemu.Common.{ℕ, update}

pub record FRegFile : Type 0 where
  pub regs : ℕ → ℕ

-- 0.0 has the pattern 0.
unfoldable pub new : FRegFile
new = record { regs = λ _. 0 }

unfoldable pub store_reg : FRegFile → ℕ → ℕ → FRegFile
store_reg r idx value = record r { regs = update r.regs idx value }

unfoldable pub load_reg : FRegFile → ℕ → ℕ
load_reg r idx = r.regs idx
