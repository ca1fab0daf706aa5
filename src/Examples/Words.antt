-- ===== src/Examples/Words.antt =====
-- The theorems on the decoder, at instruction words.
use vemu.Common.{ℕ, ◌%◌, ◌*◌, ◌<◌, ◌^◌, ◌≡◌, ok, ◌>>=◌, arith}
use vemu.Isa.{Instruction}
use vemu.Decoder.Extract.{
  extract_rd, extract_rs1, extract_rs2, extract_rs3, imm_i, imm_s, imm_b, imm_u, imm_j,
}
use vemu.Decoder.Fields.{registers_in_range, sext12, sext13, sext21}
use vemu.Decoder.Encode.{
  Parts, IsParts, encode_i, encode_s, encode_b, encode_u, encode_j, immediate-encode,
}
use vemu.Isa.{no_fields}
use vemu.Decoder.Search.{find_r, find_i, find_b, find_s}
use vemu.Decoder.Listing.{AllNamed, with_f3, with_f7, isa_r, isa_i, isa_b, isa_s, searches_lem}
use vemu.Decoder.Cache
use vemu.Decoder.Cache.{Decoder, decode}
use vemu.Decoder.Transparent.{IsCoherent, reference, new-IsCoherent, decode-reference}

-- `addi a0, a1, -1`.
abbrev some_word : ℕ
some_word = 0xfff58513

registers_in_range_example :
    (extract_rd some_word < 32)
    × (extract_rs1 some_word < 32)
    × (extract_rs2 some_word < 32)
    × (extract_rs3 some_word < 32)
    × (extract_rs3 some_word % 2 ≡ 0)
registers_in_range_example = registers_in_range some_word (omega arith)

abbrev parts : Parts
parts = record { opcode = 0x13; rd = 10; funct3 = 0; rs1 = 11; rs2 = 12; funct7 = 1 }

abbrev parts-IsParts : IsParts parts
parts-IsParts = record {
  opcode_fits = omega arith;
  rd_fits = omega arith;
  funct3_fits = omega arith;
  rs1_fits = omega arith;
  rs2_fits = omega arith;
  funct7_fits = omega arith;
}

immediate-encode_example :
    ((v : ℕ) → v < 2 ^ 12 → imm_i (encode_i parts v) ≡ sext12 v)
    × ((v : ℕ) → v < 2 ^ 12 → imm_s (encode_s parts v) ≡ sext12 v)
    × ((v : ℕ) → v < 2 ^ 13 → v % 2 ≡ 0 → imm_b (encode_b parts v) ≡ sext13 v)
    × ((v : ℕ) → v < 2 ^ 20 → imm_u (encode_u parts v) ≡ v * 2 ^ 12)
    × ((v : ℕ) → v < 2 ^ 21 → v % 2 ≡ 0 → imm_j (encode_j parts v) ≡ sext21 v)
immediate-encode_example = immediate-encode parts parts-IsParts

new-IsCoherent_use : IsCoherent Cache.new
new-IsCoherent_use = new-IsCoherent

decode-reference_example :
    ((decode Cache.new some_word >>= λ (i, d'). ok i) ≡ reference some_word)
    × ((i : Instruction) (d' : Decoder) → decode Cache.new some_word ≡ ok (i, d') → IsCoherent d')
decode-reference_example = decode-reference Cache.new some_word new-IsCoherent_use

searches_lem_example :
    AllNamed find_r with_f7 no_fields isa_r
    × AllNamed find_i with_f3 no_fields isa_i
    × AllNamed find_b with_f3 no_fields isa_b
    × AllNamed find_s with_f3 no_fields isa_s
searches_lem_example = searches_lem no_fields
