-- ===== src/Decoder/Search.antt =====
-- The searches of src/InstructionDecoder.cpp for the name of an instruction with given fields: the
-- loops of `decode_r`, `decode_fp`, `decode_r4`, `decode_i`, `decode_b`, `decode_s`, `decode_j` and
-- `decode_u` over the tables, in the order of the names. A `map::at` without an entry throws an
-- exception that nothing catches.
use vemu.Common.{
  ℕ, bit_and, Bool, true, false, not, ◌&&◌, ◌||◌, Option, none, some, List, [], ◌∷◌, ◌==◌,
  if◌then◌else◌, Outcome, ok, aborted, ◌>>=◌,
}
use vemu.Isa.{IName, all_names, same_name, Format, Fields, Instruction}
use vemu.Decoder.Extract.{extract_opcode, extract_funct7}
use vemu.Decoder.Tables.Opcodes.{
  i_opcodes, r_opcodes, r4_opcodes, b_opcodes, s_opcodes, j_opcodes, u_opcodes,
}
use vemu.Decoder.Tables.Functs.{i_funct3, r_funct3, r4_funct2, b_funct3, s_funct3}
use vemu.Decoder.Tables.Functs7.{r_funct7, i_funct7, i_funct6}
use vemu.Decoder.Tables.Names.{inst_string_names}

-- `std::map::at`.
abbrev pub at {ℓ} : {A : Type ℓ} → Option A → Outcome A
at (some a) = ok a
at none = aborted

unfoldable pub get_opcode : IName → Format → Outcome ℕ
get_opcode n Format.r = at (r_opcodes n)
get_opcode n Format.i = at (i_opcodes n)
get_opcode n Format.s = at (s_opcodes n)
get_opcode n Format.b = at (b_opcodes n)
get_opcode n Format.u = at (u_opcodes n)
get_opcode n Format.j = at (j_opcodes n)
get_opcode n Format.r4 = at (r4_opcodes n)
get_opcode n Format.wrong = ok 255

unfoldable pub get_i_funct7 : IName → Outcome ℕ
get_i_funct7 IName.xxx = ok 255
get_i_funct7 n = at (i_funct7 n)

unfoldable pub get_i_funct6 : IName → Outcome ℕ
get_i_funct6 IName.xxx = ok 255
get_i_funct6 n = at (i_funct6 n)

-- `Instruction(t, ins, f, get_string_name(ins))`.
unfoldable pub named : Format → IName → Fields → Outcome Instruction
named t n f = at (inst_string_names n) >>= λ s. ok (record { t = t; name = n; f = f; str_name = s })

-- `Instruction(Instruction::Type::WRONG, IName::XXX, f, "XXX")`.
abbrev pub faulty : Fields → Instruction
faulty f = record { t = Format.wrong; name = IName.xxx; f = f; str_name = "XXX" }

-- One round of a loop over the entries of `table`: `body` says whether the entry is the one.
abbrev pub search :
    (IName → Option ℕ)
    → (IName → ℕ → Outcome Bool)
    → Format
    → Fields
    → List IName
    → Outcome Instruction
search table body t f [] = ok (faulty f)
search table body t f (n ∷ ns) =
    let rest = search table body t f ns in
    elim (table n) [
      | none ↦ rest
      | some v ↦ body n v >>= λ found. elim found [ true ↦ named t n f | false ↦ rest ]
    ]

-- The condition of `decode_r`; the last two bits of an atomic instruction's funct7 are `aq` and `rl`.
unfoldable pub matches_r : Fields → IName → ℕ → Outcome Bool
unfolding get_opcode
matches_r f n f3 = get_opcode n Format.r >>= λ op. at (r_funct7 n) >>= λ f7. ok (
    f.opcode == op && f3 == f.funct3 && f7 == f.funct7
    || f.opcode == op && f3 == f.funct3 && f.opcode == 0b0101111 && bit_and f.funct7 0xfc == f7)

unfoldable pub find_r : Fields → Outcome Instruction
unfolding matches_r
find_r f = search r_funct3 (matches_r f) Format.r f all_names

unfoldable pub is_fp_instr : ℕ → Bool
unfolding extract_opcode
is_fp_instr inst = extract_opcode inst == 0b1010011

unfoldable pub ignore_f3 : ℕ → Bool
unfolding extract_funct7
ignore_f3 inst =
    let f7 = extract_funct7 inst in
    f7 == 0b0000000
    || f7 == 0b0000100
    || f7 == 0b0001000
    || f7 == 0b0001100
    || f7 == 0b0101100
    || f7 == 0b1100000
    || f7 == 0b1101000

unfoldable pub matches_fp : Fields → IName → ℕ → Outcome Bool
unfolding get_opcode
matches_fp f n f3 = get_opcode n Format.r >>= λ op.
    at (r_funct7 n) >>= λ f7. ok (f.funct3 == f3 && f.opcode == op && f.funct7 == f7)

unfoldable pub find_fp_with_f3 : Fields → Outcome Instruction
unfolding matches_fp
find_fp_with_f3 f = search r_funct3 (matches_fp f) Format.r f all_names

-- The last loop of `decode_fp_without_f3`.
abbrev pub fp_by_f7 : Fields → List IName → Outcome IName
fp_by_f7 f [] = ok IName.xxx
fp_by_f7 f (n ∷ ns) =
    let rest = fp_by_f7 f ns in
    elim (r_funct7 n) [
      | none ↦ rest
      | some f7 ↦ get_opcode n Format.r >>= λ op. elim (f7 == f.funct7 && op == f.opcode) [
        | true ↦ ok n
        | false ↦ rest
      ]
    ]

unfoldable pub fp_name_without_f3 : Fields → Outcome IName
unfolding get_opcode
fp_name_without_f3 f =
    if f.funct7 == 0b1100000
    then ok (
        if f.rs2 == 0
        then IName.fcvtws
        else if f.rs2 == 1
        then IName.fcvtwus
        else if f.rs2 == 2
        then IName.fcvtls
        else if f.rs2 == 3
        then IName.fcvtlus
        else IName.xxx)
    else if f.funct7 == 0b1101000
    then ok (
        if f.rs2 == 0
        then IName.fcvtsw
        else if f.rs2 == 1
        then IName.fcvtswu
        else if f.rs2 == 2
        then IName.fcvtsl
        else if f.rs2 == 3
        then IName.fcvtslu
        else IName.xxx)
    else fp_by_f7 f all_names

unfoldable pub find_fp_without_f3 : Fields → Outcome Instruction
unfolding fp_name_without_f3
find_fp_without_f3 f = fp_name_without_f3 f >>= λ n. named Format.r n f

unfoldable pub find_r4 : Fields → Outcome Instruction
unfolding get_opcode
find_r4 f =
    search r4_funct2
      (λ n f2. get_opcode n Format.r4 >>= λ op. ok (f.opcode == op && f2 == f.funct2)) Format.r4 f
      all_names

abbrev pub is_shift_imm_32_instruction : IName → Bool
is_shift_imm_32_instruction n =
    same_name n IName.slliw || same_name n IName.srliw || same_name n IName.sraiw

abbrev pub is_shift_imm_64_instruction : IName → Bool
is_shift_imm_64_instruction n =
    same_name n IName.slli || same_name n IName.srli || same_name n IName.srai

-- The conditions of `decode_i`: for shifts by an immediate funct7 or funct6 counts too, and ECALL
-- and EBREAK are told apart by the immediate.
unfoldable pub matches_i : Fields → IName → ℕ → Outcome Bool
unfolding get_opcode get_i_funct7 get_i_funct6
matches_i f n f3 = get_opcode n Format.i >>= λ op. elim (is_shift_imm_32_instruction n) [
  | true ↦ get_i_funct7 n >>= λ f7. ok (f.opcode == op && f3 == f.funct3 && f7 == f.funct7)
  | false ↦ elim (is_shift_imm_64_instruction n) [
    | true ↦ get_i_funct6 n >>= λ f6. ok (f.opcode == op && f3 == f.funct3 && f6 == f.funct6)
    | false ↦ ok (
        op == f.opcode
        && f3 == f.funct3
        && (same_name n IName.ecall && f.imm == 0
            || same_name n IName.ebreak && f.imm == 1
            || not (same_name n IName.ebreak) && not (same_name n IName.ecall)))
  ]
]

unfoldable pub find_i : Fields → Outcome Instruction
unfolding matches_i
find_i f = search i_funct3 (matches_i f) Format.i f all_names

unfoldable pub find_b : Fields → Outcome Instruction
unfolding get_opcode
find_b f =
    search b_funct3 (λ n f3. get_opcode n Format.b >>= λ op. ok (f.opcode == op && f3 == f.funct3))
      Format.b f all_names

unfoldable pub find_s : Fields → Outcome Instruction
unfolding get_opcode
find_s f =
    search s_funct3 (λ n f3. get_opcode n Format.s >>= λ op. ok (f.opcode == op && f3 == f.funct3))
      Format.s f all_names

unfoldable pub find_j : Fields → Outcome Instruction
find_j f = search j_opcodes (λ n op. ok (op == f.opcode)) Format.j f all_names

unfoldable pub find_u : Fields → Outcome Instruction
find_u f = search u_opcodes (λ n op. ok (op == f.opcode)) Format.u f all_names
