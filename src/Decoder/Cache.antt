-- ===== src/Decoder/Cache.antt =====
-- The decoder with its two caches: `decode`, `instr_type`, `get_fields` and the initial entries of
-- src/InstructionDecoder.cpp. An `unordered_map` is a function into `Option`.
use vemu.Common.{
  ℕ, Bool, true, false, Option, none, some, List, [], ◌∷◌, ◌==◌, if◌then◌else◌, Outcome, ok, ◌>>=◌,
  update,
}
use vemu.Isa.{IName, all_names, Format, Fields, no_fields, Instruction}
use vemu.Decoder.Extract.{
  extract_opcode, extract_funct3, extract_funct7, extract_funct6, extract_rd, extract_rs1,
  extract_rs2, extract_rs3, extract_funct2, extract_shamt32, extract_shamt64, imm_i, imm_s, imm_b,
  imm_u, imm_j,
}
use vemu.Decoder.Tables.Opcodes.{
  i_opcodes, r_opcodes, r4_opcodes, b_opcodes, s_opcodes, j_opcodes, u_opcodes,
}
use vemu.Decoder.Search.{
  is_fp_instr, ignore_f3, find_r, find_fp_with_f3, find_fp_without_f3, find_r4, find_i, find_b,
  find_s, find_j, find_u,
}

pub record Decoder : Type 0 where
  pub instr_cache : ℕ → Option Instruction
  pub opcode_to_type_cache : ℕ → Option Format

abbrev pub mret_instr : Instruction
mret_instr = record {
  t = Format.r;
  name = IName.mret;
  f = record no_fields { opcode = 0b1110011; rs2 = 0b00010; funct7 = 0b0011000 };
  str_name = "MRET";
}

abbrev pub sret_instr : Instruction
sret_instr = record {
  t = Format.r;
  name = IName.sret;
  f = record no_fields { opcode = 0b1110011; rs2 = 0b00010; funct7 = 0b0001000 };
  str_name = "SRET";
}

-- `init_fixed_instrs`, on empty caches.
unfoldable pub new : Decoder
new = record {
  instr_cache =
      update (update (λ _. none) 0x30200073 (some mret_instr)) 0x10200073 (some sret_instr);
  opcode_to_type_cache = λ _. none;
}

-- `for (const auto& [k, v] : table) if (op == v) …`.
abbrev pub has_value : (IName → Option ℕ) → ℕ → List IName → Bool
has_value table op [] = false
has_value table op (n ∷ ns) =
    let rest = has_value table op ns in
    elim (table n) [ none ↦ rest | some v ↦ if op == v then true else rest ]

-- The searches of `instr_type(uint8_t)`, without the cache.
unfoldable pub type_of_opcode : ℕ → Format
type_of_opcode op =
    if has_value i_opcodes op all_names
    then Format.i
    else if has_value j_opcodes op all_names
    then Format.j
    else if has_value s_opcodes op all_names
    then Format.s
    else if has_value b_opcodes op all_names
    then Format.b
    else if has_value r_opcodes op all_names
    then Format.r
    else if has_value r4_opcodes op all_names
    then Format.r4
    else if has_value u_opcodes op all_names
    then Format.u
    else Format.wrong

unfoldable pub opcode_type : Decoder → ℕ → Format × Decoder
opcode_type d op = elim (d.opcode_to_type_cache op) [
  | some t ↦ (t, d)
  | none ↦
      let t = type_of_opcode op in
      (t, record d { opcode_to_type_cache = update d.opcode_to_type_cache op (some t) })
]

unfoldable pub instr_type : Decoder → ℕ → Format × Decoder
unfolding opcode_type extract_opcode
instr_type d inst = opcode_type d (extract_opcode inst)

-- The switch of `get_immediate`.
unfoldable pub immediate_of : Format → ℕ → ℕ
immediate_of Format.i inst = imm_i inst
immediate_of Format.j inst = imm_j inst
immediate_of Format.b inst = imm_b inst
immediate_of Format.s inst = imm_s inst
immediate_of Format.u inst = imm_u inst
immediate_of _ inst = 0

unfoldable pub get_immediate : Decoder → ℕ → ℕ × Decoder
unfolding instr_type
get_immediate d inst = let (t, d') = instr_type d inst in (immediate_of t inst, d')

-- The record that `get_fields` builds around the immediate.
unfoldable pub fields_with : ℕ → ℕ → Fields
fields_with imm inst = record {
  opcode = extract_opcode inst;
  rd = extract_rd inst;
  funct3 = extract_funct3 inst;
  rs1 = extract_rs1 inst;
  rs2 = extract_rs2 inst;
  funct7 = extract_funct7 inst;
  shamt32 = extract_shamt32 inst;
  shamt64 = extract_shamt64 inst;
  funct6 = extract_funct6 inst;
  imm = imm;
  funct2 = extract_funct2 inst;
  rs3 = extract_rs3 inst;
}

unfoldable pub get_fields : Decoder → ℕ → Fields × Decoder
unfolding get_immediate
get_fields d inst = let (imm, d') = get_immediate d inst in (fields_with imm inst, d')

-- `Fields f = get_fields(inst);` and a search with them.
abbrev pub with_fields :
    Decoder → ℕ → (Fields → Outcome Instruction) → Outcome (Instruction × Decoder)
with_fields d inst find = let (f, d') = get_fields d inst in find f >>= λ i. ok (i, d')

unfoldable pub decode_fp : Decoder → ℕ → Outcome (Instruction × Decoder)
decode_fp d inst =
    if ignore_f3 inst
    then with_fields d inst find_fp_without_f3
    else with_fields d inst find_fp_with_f3

unfoldable pub decode_r : Decoder → ℕ → Outcome (Instruction × Decoder)
unfolding decode_fp
decode_r d inst = if is_fp_instr inst then decode_fp d inst else with_fields d inst find_r

-- The switch of `decode`. The result of every case but the last is put into the cache.
unfoldable pub decode_type : Format → Decoder → ℕ → Outcome (Instruction × Decoder)
unfolding decode_r
decode_type Format.r d inst = decode_r d inst
decode_type Format.r4 d inst = with_fields d inst find_r4
decode_type Format.i d inst = with_fields d inst find_i
decode_type Format.s d inst = with_fields d inst find_s
decode_type Format.b d inst = with_fields d inst find_b
decode_type Format.u d inst = with_fields d inst find_u
decode_type Format.j d inst = with_fields d inst find_j
decode_type Format.wrong d inst =
    ok (record { t = Format.wrong; name = IName.xxx; f = no_fields; str_name = "XXX" }, d)

abbrev pub remember : Format → ℕ → Instruction × Decoder → Instruction × Decoder
remember Format.wrong inst (i, d) = (i, d)
remember _ inst (i, d) = (i, record d { instr_cache = update d.instr_cache inst (some i) })

unfoldable pub decode : Decoder → ℕ → Outcome (Instruction × Decoder)
unfolding decode_type instr_type
decode d inst = elim (d.instr_cache inst) [
  | some i ↦ ok (i, d)
  | none ↦ let (t, d') = instr_type d inst in decode_type t d' inst >>= λ r. ok (remember t inst r)
]
