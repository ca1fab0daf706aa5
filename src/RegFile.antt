-- ===== src/RegFile.antt =====
-- The integer registers of src/RegFile.cpp, each an `int64_t` held as its 64-bit pattern.
-- `std::array` is a function on indices; the fields of an instruction are below 32.
use vemu.Common.{ℕ, ◌==◌, if◌then◌else◌, update, ◌≡◌, arith}

pub record RegFile : Type 0 where
  pub regs : ℕ → ℕ

unfoldable pub new : RegFile
new = record { regs = λ _. 0 }

unfoldable pub store_reg : RegFile → ℕ → ℕ → RegFile
store_reg r idx value = if idx == 0 then r else record r { regs = update r.regs idx value }

unfoldable pub load_reg : RegFile → ℕ → ℕ
load_reg r idx = r.regs idx

-- A register holds what was last stored in it, except that stores to register 0 are dropped; no
-- other register changes.
pub load_reg-store_reg :
    (r : RegFile) (i j v : ℕ)
    → load_reg (store_reg r i v) j
      ≡ (if j == 0 then load_reg r 0 else if i == j then v else load_reg r j)
unfolding load_reg store_reg
load_reg-store_reg r i j v = ground arith
