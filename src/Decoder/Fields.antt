-- ===== src/Decoder/Fields.antt =====
-- The masks and shifts of the decoder, as arithmetic on the instruction word.
use vemu.Common.{
  ℕ, ◌+◌, ◌-◌, ◌*◌, ◌/◌, ◌%◌, ◌^◌, ◌<◌, ◌≡◌, bit_and, ltb, if◌then◌else◌, asr32, shl32, arith,
}
use vemu.Bits.{bit_and_field, bit_and_mask, bit_and-shift, bit_or_fields, zero-bit_or}
use vemu.Decoder.Extract.{
  extract_opcode, extract_funct3, extract_funct7, extract_funct6, extract_rd, extract_rs1,
  extract_rs2, extract_rs3, extract_funct2, imm_i, imm_s, imm_b, imm_u, imm_j,
}

module _ (inst : ℕ) where
  pub opcode_lem : extract_opcode inst ≡ inst % 2 ^ 7
  unfolding extract_opcode
  opcode_lem = bit_and_mask 7 inst

  pub rd_lem : extract_rd inst ≡ inst / 2 ^ 7 % 2 ^ 5
  unfolding extract_rd
  rd_lem = omega (arith, bit_and_field 7 5 inst)

  pub funct3_lem : extract_funct3 inst ≡ inst / 2 ^ 12 % 2 ^ 3
  unfolding extract_funct3
  funct3_lem = omega (arith, bit_and_field 12 3 inst)

  pub rs1_lem : extract_rs1 inst ≡ inst / 2 ^ 15 % 2 ^ 5
  unfolding extract_rs1
  rs1_lem = omega (arith, bit_and_field 15 5 inst)

  pub rs2_lem : extract_rs2 inst ≡ inst / 2 ^ 20 % 2 ^ 5
  unfolding extract_rs2
  rs2_lem = omega (arith, bit_and_field 20 5 inst)

  pub funct7_lem : extract_funct7 inst ≡ inst / 2 ^ 25 % 2 ^ 7
  unfolding extract_funct7
  funct7_lem = omega (arith, bit_and_field 25 7 inst)

  pub funct6_lem : extract_funct6 inst ≡ inst / 2 ^ 26 % 2 ^ 6
  unfolding extract_funct6
  funct6_lem = omega (arith, bit_and_field 26 6 inst)

  pub funct2_lem : extract_funct2 inst ≡ inst / 2 ^ 25 % 2 ^ 2
  unfolding extract_funct2
  funct2_lem = omega (arith, bit_and_field 25 2 inst)

-- RS3_MASK is 0xF1000000 where the format has the five bits 0xF8000000.
rs3_lem : (inst : ℕ) → inst < 2 ^ 32 → extract_rs3 inst ≡ inst / 2 ^ 28 % 2 ^ 4 * 2
unfolding extract_rs3
rs3_lem inst small =
    omega (arith, bit_and-shift 27 inst 0xf1000000, bit_and_field 1 4 (inst / 2 ^ 27))

-- The sign extensions of the format's immediates, on 32 bits.
abbrev pub sext12 : ℕ → ℕ
sext12 v = if ltb v (2 ^ 11) then v else v + (2 ^ 32 - 2 ^ 12)

abbrev pub sext13 : ℕ → ℕ
sext13 v = if ltb v (2 ^ 12) then v else v + (2 ^ 32 - 2 ^ 13)

abbrev pub sext21 : ℕ → ℕ
sext21 v = if ltb v (2 ^ 20) then v else v + (2 ^ 32 - 2 ^ 21)

-- Shifting up and arithmetically down again extends the sign.
shift_20 : (v : ℕ) → v < 2 ^ 12 → asr32 (shl32 v 20) 20 ≡ sext12 v
shift_20 v h = ground arith

shift_19 : (v : ℕ) → v < 2 ^ 13 → asr32 (shl32 v 19) 19 ≡ sext13 v
shift_19 v h = ground arith

shift_11 : (v : ℕ) → v < 2 ^ 21 → asr32 (shl32 v 11) 11 ≡ sext21 v
shift_11 v h = ground arith

module _ (inst : ℕ) (small : inst < 2 ^ 32) where
  pub imm_i_lem : imm_i inst ≡ sext12 (inst / 2 ^ 20)
  unfolding imm_i
  imm_i_lem = ground (arith, bit_and_field 20 12 inst)

  pub imm_u_lem : imm_u inst ≡ inst / 2 ^ 12 * 2 ^ 12
  unfolding imm_u
  imm_u_lem = omega (arith, bit_and_field 12 20 inst)

  pub imm_s_lem : imm_s inst ≡ sext12 (inst / 2 ^ 7 % 2 ^ 5 + inst / 2 ^ 25 * 2 ^ 5)
  unfolding imm_s
  imm_s_lem =
      let lo = inst / 2 ^ 7 % 2 ^ 5 in
      let hi = inst / 2 ^ 25 in
      let a : extract_rd inst ≡ lo = rd_lem inst in
      let b : bit_and inst 0xfe000000 / 2 ^ 20 ≡ hi * 2 ^ 5 =
        omega (arith, bit_and_field 25 7 inst) in
      rw (zero-bit_or (extract_rd inst), a, b, bit_or_fields 5 lo hi (omega arith))
        (shift_20 (lo + hi * 2 ^ 5) (omega arith))

  pub imm_b_lem :
      imm_b inst
      ≡ sext13 (
          inst / 2 ^ 8 % 2 ^ 4 * 2
          + inst / 2 ^ 25 % 2 ^ 6 * 2 ^ 5
          + inst / 2 ^ 7 % 2 * 2 ^ 11
          + inst / 2 ^ 31 * 2 ^ 12)
  unfolding imm_b
  imm_b_lem =
      let f1 = inst / 2 ^ 8 % 2 ^ 4 in
      let f2 = inst / 2 ^ 25 % 2 ^ 6 in
      let f3 = inst / 2 ^ 7 % 2 in
      let f4 = inst / 2 ^ 31 in
      let a : bit_and (bit_and inst 0x00000f00 / 2 ^ 7) 0x0000001e ≡ f1 * 2 =
        omega
          (arith, bit_and_field 8 4 inst, bit_and_field 1 4 (bit_and inst 0x00000f00 / 2 ^ 7)) in
      let b : bit_and (bit_and inst 0x7e000000 / 2 ^ 20) 0x000007e0 ≡ f2 * 2 ^ 5 =
        omega
          (arith, bit_and_field 25 6 inst, bit_and_field 5 6 (bit_and inst 0x7e000000 / 2 ^ 20)) in
      let c : bit_and (shl32 (bit_and inst 0x00000080) 4) 0x00000800 ≡ f3 * 2 ^ 11 =
        omega
          (arith, bit_and_field 7 1 inst, bit_and_field 11 1 (shl32 (bit_and inst 0x00000080) 4)) in
      let d : bit_and (bit_and inst 0x80000000 / 2 ^ 19) 0xfffff000 ≡ f4 * 2 ^ 12 =
        omega (
          arith,
          bit_and_field 31 1 inst,
          bit_and_field 12 20 (bit_and inst 0x80000000 / 2 ^ 19),
        ) in
      rw
        (
          a,
          b,
          c,
          d,
          zero-bit_or (f1 * 2),
          bit_or_fields 5 (f1 * 2) f2 (omega arith),
          bit_or_fields 11 (f1 * 2 + f2 * 2 ^ 5) f3 (omega arith),
          bit_or_fields 12 (f1 * 2 + f2 * 2 ^ 5 + f3 * 2 ^ 11) f4 (omega arith),
        )
        (shift_19 (f1 * 2 + f2 * 2 ^ 5 + f3 * 2 ^ 11 + f4 * 2 ^ 12) (omega arith))

  pub imm_j_lem :
      imm_j inst
      ≡ sext21 (
          inst / 2 ^ 21 % 2 ^ 4 * 2
          + inst / 2 ^ 25 % 2 ^ 6 * 2 ^ 5
          + inst / 2 ^ 20 % 2 * 2 ^ 11
          + inst / 2 ^ 12 % 2 ^ 8 * 2 ^ 12
          + inst / 2 ^ 31 * 2 ^ 20)
  unfolding imm_j
  imm_j_lem =
      let f1 = inst / 2 ^ 21 % 2 ^ 4 in
      let f2 = inst / 2 ^ 25 % 2 ^ 6 in
      let f3 = inst / 2 ^ 20 % 2 in
      let f4 = inst / 2 ^ 12 % 2 ^ 8 in
      let f5 = inst / 2 ^ 31 in
      let a : bit_and (bit_and inst 0x01e00000 / 2 ^ 20) 0x0000001e ≡ f1 * 2 =
        omega
          (arith, bit_and_field 21 4 inst, bit_and_field 1 4 (bit_and inst 0x01e00000 / 2 ^ 20)) in
      let b : bit_and (bit_and inst 0x7e000000 / 2 ^ 20) 0x000007e0 ≡ f2 * 2 ^ 5 =
        omega
          (arith, bit_and_field 25 6 inst, bit_and_field 5 6 (bit_and inst 0x7e000000 / 2 ^ 20)) in
      let c : bit_and (bit_and inst 0x00100000 / 2 ^ 9) 0x00000800 ≡ f3 * 2 ^ 11 =
        omega
          (arith, bit_and_field 20 1 inst, bit_and_field 11 1 (bit_and inst 0x00100000 / 2 ^ 9)) in
      let d : bit_and (bit_and inst 0x000ff000) 0x000ff000 ≡ f4 * 2 ^ 12 =
        omega (arith, bit_and_field 12 8 inst, bit_and_field 12 8 (bit_and inst 0x000ff000)) in
      let e : bit_and (bit_and inst 0x80000000 / 2 ^ 11) 0xfff00000 ≡ f5 * 2 ^ 20 =
        omega (
          arith,
          bit_and_field 31 1 inst,
          bit_and_field 20 12 (bit_and inst 0x80000000 / 2 ^ 11),
        ) in
      rw
        (
          a,
          b,
          c,
          d,
          e,
          zero-bit_or (f1 * 2),
          bit_or_fields 5 (f1 * 2) f2 (omega arith),
          bit_or_fields 11 (f1 * 2 + f2 * 2 ^ 5) f3 (omega arith),
          bit_or_fields 12 (f1 * 2 + f2 * 2 ^ 5 + f3 * 2 ^ 11) f4 (omega arith),
          bit_or_fields 20 (f1 * 2 + f2 * 2 ^ 5 + f3 * 2 ^ 11 + f4 * 2 ^ 12) f5 (omega arith),
        )
        (shift_11 (f1 * 2 + f2 * 2 ^ 5 + f3 * 2 ^ 11 + f4 * 2 ^ 12 + f5 * 2 ^ 20) (omega arith))

-- Every register field of a 32-bit word is a register number; and the third source register is never odd,
-- since the mask RS3_MASK of the source leaves out its lowest bit.
pub registers_in_range :
    (inst : ℕ)
    → inst < 2 ^ 32
    → (extract_rd inst < 32)
      × (extract_rs1 inst < 32)
      × (extract_rs2 inst < 32)
      × (extract_rs3 inst < 32)
      × (extract_rs3 inst % 2 ≡ 0)
registers_in_range inst small = (
  omega (arith, rd_lem inst),
  omega (arith, rs1_lem inst),
  omega (arith, rs2_lem inst),
  omega (arith, rs3_lem inst small),
  omega (arith, rs3_lem inst small),
)
