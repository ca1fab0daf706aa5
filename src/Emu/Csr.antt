-- ===== src/Emu/Csr.antt =====
-- The control and status registers of src/VEmu.cpp and the instructions on them.
use vemu.Common.{ℕ, bit_and, bit_or, ◌==◌, if◌then◌else◌, update}
use vemu.Emu.State.{Emu, Handled, fields, reg1, result}

abbrev pub csr_mie : ℕ
csr_mie = 0x304

abbrev pub csr_mideleg : ℕ
csr_mideleg = 0x303

abbrev pub csr_sie : ℕ
csr_sie = 0x104

-- `!x` of an integer.
abbrev pub logical_not : ℕ → ℕ
logical_not x = if x == 0 then 1 else 0

unfoldable pub load_csr : (ℕ → ℕ) → ℕ → ℕ
load_csr csrs addr =
    if addr == csr_sie then bit_and (csrs csr_mie) (csrs csr_mideleg) else csrs addr

-- The first assignment of the SIE case takes `!` of MIDELEG, not its complement.
unfoldable pub store_csr : (ℕ → ℕ) → ℕ → ℕ → ℕ → ℕ
store_csr csrs addr val =
    let cleared = bit_and (csrs csr_mie) (logical_not (csrs csr_mideleg)) in
    if addr == csr_sie
    then update csrs csr_mie (bit_or cleared (bit_and val (csrs csr_mideleg)))
    else update csrs addr val

-- `uint64_t csr_addr = curr_instr.get_fields().imm; csr_addr &= 0xFFF;`
abbrev pub csr_addr : Emu → ℕ
csr_addr e = bit_and (fields e).imm 0xfff

-- The body of the six instructions: the register is read, `next` of its value is stored, and the
-- value goes to `rd`.
abbrev pub csr_instr : Emu → (ℕ → ℕ) → Handled
csr_instr e next =
    let csr_val = load_csr e.csrs (csr_addr e) in
    result (record e { csrs = store_csr e.csrs (csr_addr e) (next csr_val) }) csr_val

unfoldable pub csrrw : Emu → Handled
csrrw e = csr_instr e (λ v. reg1 e)

unfoldable pub csrrs : Emu → Handled
csrrs e = csr_instr e (λ v. bit_or v (reg1 e))

unfoldable pub csrrc : Emu → Handled
csrrc e = csr_instr e (λ v. bit_and v (logical_not (reg1 e)))

unfoldable pub csrrwi : Emu → Handled
csrrwi e = csr_instr e (λ v. (fields e).rs1)

unfoldable pub csrrsi : Emu → Handled
csrrsi e = csr_instr e (λ v. bit_or v (fields e).rs1)

unfoldable pub csrrci : Emu → Handled
csrrci e = csr_instr e (λ v. bit_and v (logical_not (fields e).rs1))
