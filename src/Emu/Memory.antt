-- ===== src/Emu/Memory.antt =====
-- The loads and stores of src/VEmu.cpp.
use vemu.Common.{ℕ, bit_and, Outcome, ok, ◌>>=◌, add64, sext8, sext16, sext32}
use vemu.Isa.{ReturnException}
use vemu.Bus
use vemu.Emu.State.{Emu, Handled, fields, imm, reg1, reg2, result}
use vemu.RegFile

-- `auto load_ret = load(addr, sz); if (load_ret.second != NormalExecutionReturn) return
-- load_ret.second;`, and then `next` on the value.
abbrev pub load_then : Emu → ℕ → ℕ → (Emu → ℕ → Outcome Handled) → Outcome Handled
load_then e addr sz next = do
  ((value, ex), bus') ← Bus.load e.bus addr sz
  let e' = record e { bus = bus' }
  elim ex [ ReturnException.normal_execution_return ↦ next e' value | other ↦ ok (other, e') ]

abbrev pub load_unsigned : Emu → ℕ → Outcome Handled
load_unsigned e sz = load_then e (add64 (reg1 e) (imm e)) sz (λ e' value. ok (result e' value))

unfoldable pub lbu : Emu → Outcome Handled
lbu e = load_unsigned e 8

unfoldable pub lhu : Emu → Outcome Handled
lhu e = load_unsigned e 16

unfoldable pub lwu : Emu → Outcome Handled
lwu e = load_unsigned e 32

unfoldable pub ld : Emu → Outcome Handled
ld e = load_unsigned e 64

-- `iregs.load_reg(rd)`.
abbrev pub reg_rd : Emu → ℕ
reg_rd e = RegFile.load_reg e.iregs (fields e).rd

-- LB, LH and LW call the unsigned load, drop what it returns, and extend the sign of what is then
-- in `rd`.
unfoldable pub lb : Emu → Outcome Handled
unfolding lbu
lb e = do (ex, e') ← lbu e; ok (result e' (sext8 (bit_and (reg_rd e') 0xff)))

unfoldable pub lh : Emu → Outcome Handled
unfolding lhu
lh e = do (ex, e') ← lhu e; ok (result e' (sext16 (bit_and (reg_rd e') 0xffff)))

unfoldable pub lw : Emu → Outcome Handled
unfolding lwu
lw e = do (ex, e') ← lwu e; ok (result e' (sext32 (bit_and (reg_rd e') 0xffffffff)))

-- `return store(addr, data, sz);`
abbrev pub store_at : Emu → ℕ → ℕ → ℕ → Outcome Handled
store_at e addr value sz = do
  (ex, bus') ← Bus.store e.bus addr value sz
  ok (ex, record e { bus = bus' })

abbrev pub store_reg2 : Emu → ℕ → ℕ → Outcome Handled
store_reg2 e value sz = store_at e (add64 (reg1 e) (imm e)) value sz

unfoldable pub sb : Emu → Outcome Handled
sb e = store_reg2 e (bit_and (reg2 e) 0xff) 8

unfoldable pub sh : Emu → Outcome Handled
sh e = store_reg2 e (bit_and (reg2 e) 0xffff) 16

unfoldable pub sw : Emu → Outcome Handled
sw e = store_reg2 e (bit_and (reg2 e) 0xffffffff) 32

unfoldable pub sd : Emu → Outcome Handled
sd e = store_reg2 e (reg2 e) 64
