-- ===== src/Decoder/Encode.antt =====
-- The instruction formats of the ISA as sums of fields, independent of the decoder, and the
-- immediates that the decoder reads from them.
use vemu.Common.{ℕ, ◌+◌, ◌*◌, ◌/◌, ◌%◌, ◌^◌, ◌<◌, ◌≡◌, arith, ◌∙◌, ap}
use vemu.Decoder.Extract.{imm_i, imm_s, imm_b, imm_u, imm_j}
use vemu.Decoder.Fields.{
  sext12, sext13, sext21, imm_i_lem, imm_s_lem, imm_b_lem, imm_u_lem, imm_j_lem,
}

-- The fields of a word that are not part of an immediate.
pub record Parts : Type 0 where
  pub opcode : ℕ
  pub rd : ℕ
  pub funct3 : ℕ
  pub rs1 : ℕ
  pub rs2 : ℕ
  pub funct7 : ℕ

pub record IsParts (p : Parts) : Type 0 where
  pub opcode_fits : p.opcode < 2 ^ 7
  pub rd_fits : p.rd < 2 ^ 5
  pub funct3_fits : p.funct3 < 2 ^ 3
  pub rs1_fits : p.rs1 < 2 ^ 5
  pub rs2_fits : p.rs2 < 2 ^ 5
  pub funct7_fits : p.funct7 < 2 ^ 7

abbrev pub encode_r : Parts → ℕ
encode_r p =
    p.opcode
    + p.rd * 2 ^ 7
    + p.funct3 * 2 ^ 12
    + p.rs1 * 2 ^ 15
    + p.rs2 * 2 ^ 20
    + p.funct7 * 2 ^ 25

abbrev pub encode_i : Parts → ℕ → ℕ
encode_i p v = p.opcode + p.rd * 2 ^ 7 + p.funct3 * 2 ^ 12 + p.rs1 * 2 ^ 15 + v * 2 ^ 20

abbrev pub encode_s : Parts → ℕ → ℕ
encode_s p v =
    p.opcode
    + v % 2 ^ 5 * 2 ^ 7
    + p.funct3 * 2 ^ 12
    + p.rs1 * 2 ^ 15
    + p.rs2 * 2 ^ 20
    + v / 2 ^ 5 * 2 ^ 25

-- imm[12|10:5], rs2, rs1, funct3, imm[4:1|11], opcode.
abbrev pub encode_b : Parts → ℕ → ℕ
encode_b p v =
    p.opcode
    + v / 2 ^ 11 % 2 * 2 ^ 7
    + v / 2 % 2 ^ 4 * 2 ^ 8
    + p.funct3 * 2 ^ 12
    + p.rs1 * 2 ^ 15
    + p.rs2 * 2 ^ 20
    + v / 2 ^ 5 % 2 ^ 6 * 2 ^ 25
    + v / 2 ^ 12 * 2 ^ 31

abbrev pub encode_u : Parts → ℕ → ℕ
encode_u p v = p.opcode + p.rd * 2 ^ 7 + v * 2 ^ 12

-- imm[20|10:1|11|19:12], rd, opcode.
abbrev pub encode_j : Parts → ℕ → ℕ
encode_j p v =
    p.opcode
    + p.rd * 2 ^ 7
    + v / 2 ^ 12 % 2 ^ 8 * 2 ^ 12
    + v / 2 ^ 11 % 2 * 2 ^ 20
    + v / 2 % 2 ^ 10 * 2 ^ 21
    + v / 2 ^ 20 * 2 ^ 31

-- The bits of the immediates of formats B and J, in order.
abbrev bits_b : ℕ → ℕ
bits_b w =
    w / 2 ^ 8 % 2 ^ 4 * 2
    + w / 2 ^ 25 % 2 ^ 6 * 2 ^ 5
    + w / 2 ^ 7 % 2 * 2 ^ 11
    + w / 2 ^ 31 * 2 ^ 12

abbrev bits_j : ℕ → ℕ
bits_j w =
    w / 2 ^ 21 % 2 ^ 4 * 2
    + w / 2 ^ 25 % 2 ^ 6 * 2 ^ 5
    + w / 2 ^ 20 % 2 * 2 ^ 11
    + w / 2 ^ 12 % 2 ^ 8 * 2 ^ 12
    + w / 2 ^ 31 * 2 ^ 20

-- Whatever the other fields of the word are, the decoder reads back every immediate that a format
-- can hold, its sign extended: 12 bits in formats I and S, 13 and 21 bits with an even value in
-- formats B and J, and the upper 20 bits in format U.
pub immediate-encode :
    (p : Parts)
    → IsParts p
    → ((v : ℕ) → v < 2 ^ 12 → imm_i (encode_i p v) ≡ sext12 v)
      × ((v : ℕ) → v < 2 ^ 12 → imm_s (encode_s p v) ≡ sext12 v)
      × ((v : ℕ) → v < 2 ^ 13 → v % 2 ≡ 0 → imm_b (encode_b p v) ≡ sext13 v)
      × ((v : ℕ) → v < 2 ^ 20 → imm_u (encode_u p v) ≡ v * 2 ^ 12)
      × ((v : ℕ) → v < 2 ^ 21 → v % 2 ≡ 0 → imm_j (encode_j p v) ≡ sext21 v)
immediate-encode p h = (
  λ v fits.
      imm_i_lem (encode_i p v) (omega arith)
      ∙ ap sext12 {x = encode_i p v / 2 ^ 20} {y = v} (omega arith),
  λ v fits.
      imm_s_lem (encode_s p v) (omega arith)
      ∙ ap sext12 {x = encode_s p v / 2 ^ 7 % 2 ^ 5 + encode_s p v / 2 ^ 25 * 2 ^ 5} {y = v}
          (omega arith),
  λ v fits even.
      imm_b_lem (encode_b p v) (omega arith)
      ∙ ap sext13 {x = bits_b (encode_b p v)} {y = v} (omega arith),
  λ v fits. imm_u_lem (encode_u p v) (omega arith) ∙ omega arith,
  λ v fits even.
      imm_j_lem (encode_j p v) (omega arith)
      ∙ ap sext21 {x = bits_j (encode_j p v)} {y = v} (omega arith),
)
