-- ===== src/Emu/Atomic.antt =====
-- The atomic memory operations of src/VEmu.cpp. SC stores whatever came between it and the LR.
use vemu.Common.{
  ℕ, ◌+◌, ◌%◌, bit_and, bit_or, bit_xor, ltb, ◌==◌, if◌then◌else◌, Outcome, ok, ◌>>=◌, u32, add64,
  sext32, signed64, ltb_ℤ,
}
use vemu.Isa.{ReturnException}
use vemu.Emu.State.{Emu, Handled, reg1, reg2, set_rd, result}
use vemu.Emu.Memory.{load_then, store_at}

-- `if (addr % n != 0) return e;`
abbrev pub aligned : Emu → ℕ → ReturnException → Outcome Handled → Outcome Handled
aligned e n code next = if reg1 e % n == 0 then next else ok (code, e)

-- LR.W puts the 32 bits into `rd` without extending their sign.
unfoldable pub lrw : Emu → Outcome Handled
lrw e =
    aligned e 4 ReturnException.load_address_misaligned
      (load_then e (reg1 e) 32 (λ e' value. ok (result e' value)))

unfoldable pub lrd : Emu → Outcome Handled
lrd e =
    aligned e 8 ReturnException.load_address_misaligned
      (load_then e (reg1 e) 64 (λ e' value. ok (result e' value)))

-- `auto store_ret = store(…); iregs.store_reg(rd, 0); return store_ret;`
abbrev pub store_conditional : Emu → ℕ → Outcome Handled
store_conditional e sz = store_at e (reg1 e) (reg2 e) sz >>= λ (ex, e'). ok (ex, set_rd e' 0)

unfoldable pub scw : Emu → Outcome Handled
scw e = aligned e 4 ReturnException.store_amo_address_misaligned (store_conditional e 32)

unfoldable pub scd : Emu → Outcome Handled
scd e = aligned e 8 ReturnException.store_amo_address_misaligned (store_conditional e 64)

-- The store of an AMO, which returns early on an exception, and its result in `rd`.
abbrev pub amo_store : Emu → ℕ → ℕ → ℕ → Outcome Handled
amo_store e sz value old = do
  (ex, e') ← store_at e (reg1 e) value sz
  ok (elim ex [ ReturnException.normal_execution_return ↦ result e' old | other ↦ (other, e') ])

-- The 18 operations differ in what they store, `op` of the value loaded and that of `rs2`. On 32
-- bits the two are the 64-bit patterns of `int32_t`s, as is what goes to `rd`.
abbrev pub amo_w : Emu → (ℕ → ℕ → ℕ) → Outcome Handled
amo_w e op = aligned e 4 ReturnException.load_address_misaligned (
    load_then e (reg1 e) 32 (λ e' value.
      let tmp = sext32 (bit_and value 0xffffffff) in
      let rs2_val = sext32 (bit_and (reg2 e') 0xffffffff) in amo_store e' 32 (op tmp rs2_val) tmp))

-- The unsigned minimum and maximum, on `uint32_t`s.
abbrev pub amo_wu : Emu → (ℕ → ℕ → ℕ) → Outcome Handled
amo_wu e op = aligned e 4 ReturnException.load_address_misaligned (
    load_then e (reg1 e) 32
      (λ e' value. amo_store e' 32 (op (u32 value) (u32 (reg2 e'))) (sext32 (u32 value))))

abbrev pub amo_d : Emu → (ℕ → ℕ → ℕ) → Outcome Handled
amo_d e op =
    aligned e 8 ReturnException.load_address_misaligned
      (load_then e (reg1 e) 64 (λ e' value. amo_store e' 64 (op value (reg2 e')) value))

unfoldable pub amoswapw : Emu → Outcome Handled
amoswapw e = amo_w e (λ tmp v. v)

unfoldable pub amoaddw : Emu → Outcome Handled
amoaddw e = amo_w e (λ tmp v. u32 (tmp + v))

unfoldable pub amoandw : Emu → Outcome Handled
amoandw e = amo_w e (λ tmp v. bit_and (bit_and tmp v) 0xffffffff)

unfoldable pub amoorw : Emu → Outcome Handled
amoorw e = amo_w e (λ tmp v. bit_and (bit_or tmp v) 0xffffffff)

unfoldable pub amoxorw : Emu → Outcome Handled
amoxorw e = amo_w e (λ tmp v. bit_and (bit_xor tmp v) 0xffffffff)

unfoldable pub amominw : Emu → Outcome Handled
amominw e = amo_w e (λ tmp v. if ltb_ℤ (signed64 tmp) (signed64 v) then u32 tmp else u32 v)

unfoldable pub amomaxw : Emu → Outcome Handled
amomaxw e = amo_w e (λ tmp v. if ltb_ℤ (signed64 v) (signed64 tmp) then u32 tmp else u32 v)

unfoldable pub amominuw : Emu → Outcome Handled
amominuw e = amo_wu e (λ tmp v. if ltb tmp v then tmp else v)

unfoldable pub amomaxuw : Emu → Outcome Handled
amomaxuw e = amo_wu e (λ tmp v. if ltb v tmp then tmp else v)

unfoldable pub amoswapd : Emu → Outcome Handled
amoswapd e = amo_d e (λ tmp v. v)

unfoldable pub amoaddd : Emu → Outcome Handled
amoaddd e = amo_d e add64

unfoldable pub amoxord : Emu → Outcome Handled
amoxord e = amo_d e bit_xor

unfoldable pub amoandd : Emu → Outcome Handled
amoandd e = amo_d e bit_and

unfoldable pub amoord : Emu → Outcome Handled
amoord e = amo_d e bit_or

unfoldable pub amomind : Emu → Outcome Handled
amomind e = amo_d e (λ tmp v. if ltb_ℤ (signed64 tmp) (signed64 v) then tmp else v)

unfoldable pub amomaxd : Emu → Outcome Handled
amomaxd e = amo_d e (λ tmp v. if ltb_ℤ (signed64 v) (signed64 tmp) then tmp else v)

unfoldable pub amominud : Emu → Outcome Handled
amominud e = amo_d e (λ tmp v. if ltb tmp v then tmp else v)

unfoldable pub amomaxud : Emu → Outcome Handled
amomaxud e = amo_d e (λ tmp v. if ltb v tmp then tmp else v)
