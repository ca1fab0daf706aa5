-- ===== src/Decoder/Extract.antt =====
-- The fields and immediates of an instruction word, by the masks of include/defs.h:
-- `InstructionDecoder::extract_*` and `imm_*`. An `int32_t` is held as its 32-bit pattern.
use vemu.Common.{ℕ, bit_and, bit_or, ◌>>>◌, asr32, shl32}

unfoldable pub extract_opcode : ℕ → ℕ
extract_opcode inst = bit_and inst 0x0000007f

unfoldable pub extract_funct3 : ℕ → ℕ
extract_funct3 inst = bit_and inst 0x00007000 >>> 12

unfoldable pub extract_funct7 : ℕ → ℕ
extract_funct7 inst = bit_and inst 0xfe000000 >>> 25

unfoldable pub extract_funct6 : ℕ → ℕ
extract_funct6 inst = bit_and inst 0xfc000000 >>> 26

unfoldable pub extract_rd : ℕ → ℕ
extract_rd inst = bit_and inst 0x00000f80 >>> 7

unfoldable pub extract_rs1 : ℕ → ℕ
extract_rs1 inst = bit_and inst 0x000f8000 >>> 15

unfoldable pub extract_rs2 : ℕ → ℕ
extract_rs2 inst = bit_and inst 0x01f00000 >>> 20

unfoldable pub extract_rs3 : ℕ → ℕ
extract_rs3 inst = bit_and inst 0xf1000000 >>> 27

unfoldable pub extract_funct2 : ℕ → ℕ
extract_funct2 inst = bit_and inst 0x06000000 >>> 25

unfoldable pub extract_shamt32 : ℕ → ℕ
extract_shamt32 inst = bit_and inst 0x01f00000 >>> 20

unfoldable pub extract_shamt64 : ℕ → ℕ
extract_shamt64 inst = bit_and inst 0x03f00000 >>> 20

unfoldable pub imm_i : ℕ → ℕ
imm_i inst = asr32 (bit_and inst 0xfff00000) 20

-- The mask is unsigned, so that the inner shift is too.
unfoldable pub imm_s : ℕ → ℕ
unfolding extract_rd
imm_s inst =
    let imm = bit_or (bit_or 0 (extract_rd inst)) (bit_and inst 0xfe000000 >>> 20) in
    asr32 (shl32 imm 20) 20

unfoldable pub imm_b : ℕ → ℕ
imm_b inst =
    let imm_4_1 = bit_and (bit_and inst 0x00000f00 >>> 7) 0x0000001e in
    let imm_10_5 = bit_and (bit_and inst 0x7e000000 >>> 20) 0x000007e0 in
    let imm_11 = bit_and (shl32 (bit_and inst 0x00000080) 4) 0x00000800 in
    let imm_12 = bit_and (bit_and inst 0x80000000 >>> 19) 0xfffff000 in
    let imm = bit_or (bit_or (bit_or (bit_or 0 imm_4_1) imm_10_5) imm_11) imm_12 in
    asr32 (shl32 imm 19) 19

unfoldable pub imm_u : ℕ → ℕ
imm_u inst = bit_and inst 0xfffff000

unfoldable pub imm_j : ℕ → ℕ
imm_j inst =
    let imm_4_1 = bit_and (bit_and inst 0x01e00000 >>> 20) 0x0000001e in
    let imm_10_5 = bit_and (bit_and inst 0x7e000000 >>> 20) 0x000007e0 in
    let imm_11 = bit_and (bit_and inst 0x00100000 >>> 9) 0x00000800 in
    let imm_19_12 = bit_and (bit_and inst 0x000ff000) 0x000ff000 in
    let imm_20 = bit_and (bit_and inst 0x80000000 >>> 11) 0xfff00000 in
    let imm =
      bit_or (bit_or (bit_or (bit_or (bit_or 0 imm_4_1) imm_10_5) imm_11) imm_19_12) imm_20 in
    asr32 (shl32 imm 11) 11
