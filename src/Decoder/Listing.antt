-- ===== src/Decoder/Listing.antt =====
-- The encodings of the ISA manual for RV64IM and Zicsr, and the names that the searches of
-- src/InstructionDecoder.cpp give them.
use vemu.Common.{ℕ, ◌≡◌, refl, List, [], ◌∷◌, Outcome, ok, Option, some, none}
use vemu.Isa.{IName, Fields, Instruction, all_names}
use vemu.Decoder.Search.{
  find_r, find_i, find_b, find_s, named, matches_r, matches_i, get_opcode, get_i_funct7,
  get_i_funct6,
}
use vemu.Decoder.Tables.Opcodes.{r_opcodes, i_opcodes, b_opcodes, s_opcodes}
use vemu.Decoder.Tables.Functs.{r_funct3, i_funct3, b_funct3, s_funct3}
use vemu.Decoder.Tables.Functs7.{r_funct7, i_funct7, i_funct6}
use vemu.Decoder.Tables.Names.{inst_string_names}

-- The opcode, funct3 and funct7 of an instruction.
pub record Encoding : Type 0 where
  pub iname : IName
  pub opcode : ℕ
  pub funct3 : ℕ
  pub funct7 : ℕ

abbrev pub isa_r : List Encoding
isa_r =
    record { iname = IName.add; opcode = 0x33; funct3 = 0; funct7 = 0x0 }
    ∷ record { iname = IName.sub; opcode = 0x33; funct3 = 0; funct7 = 0x20 }
    ∷ record { iname = IName.sll; opcode = 0x33; funct3 = 1; funct7 = 0x0 }
    ∷ record { iname = IName.slt; opcode = 0x33; funct3 = 2; funct7 = 0x0 }
    ∷ record { iname = IName.sltu; opcode = 0x33; funct3 = 3; funct7 = 0x0 }
    ∷ record { iname = IName.xor; opcode = 0x33; funct3 = 4; funct7 = 0x0 }
    ∷ record { iname = IName.srl; opcode = 0x33; funct3 = 5; funct7 = 0x0 }
    ∷ record { iname = IName.sra; opcode = 0x33; funct3 = 5; funct7 = 0x20 }
    ∷ record { iname = IName.or; opcode = 0x33; funct3 = 6; funct7 = 0x0 }
    ∷ record { iname = IName.and; opcode = 0x33; funct3 = 7; funct7 = 0x0 }
    ∷ record { iname = IName.addw; opcode = 0x3b; funct3 = 0; funct7 = 0x0 }
    ∷ record { iname = IName.subw; opcode = 0x3b; funct3 = 0; funct7 = 0x20 }
    ∷ record { iname = IName.sllw; opcode = 0x3b; funct3 = 1; funct7 = 0x0 }
    ∷ record { iname = IName.srlw; opcode = 0x3b; funct3 = 5; funct7 = 0x0 }
    ∷ record { iname = IName.sraw; opcode = 0x3b; funct3 = 5; funct7 = 0x20 }
    ∷ record { iname = IName.mul; opcode = 0x33; funct3 = 0; funct7 = 0x1 }
    ∷ record { iname = IName.mulh; opcode = 0x33; funct3 = 1; funct7 = 0x1 }
    ∷ record { iname = IName.mulhsu; opcode = 0x33; funct3 = 2; funct7 = 0x1 }
    ∷ record { iname = IName.mulhu; opcode = 0x33; funct3 = 3; funct7 = 0x1 }
    ∷ record { iname = IName.div; opcode = 0x33; funct3 = 4; funct7 = 0x1 }
    ∷ record { iname = IName.divu; opcode = 0x33; funct3 = 5; funct7 = 0x1 }
    ∷ record { iname = IName.rem; opcode = 0x33; funct3 = 6; funct7 = 0x1 }
    ∷ record { iname = IName.remu; opcode = 0x33; funct3 = 7; funct7 = 0x1 }
    ∷ record { iname = IName.mulw; opcode = 0x3b; funct3 = 0; funct7 = 0x1 }
    ∷ record { iname = IName.divw; opcode = 0x3b; funct3 = 4; funct7 = 0x1 }
    ∷ record { iname = IName.divuw; opcode = 0x3b; funct3 = 5; funct7 = 0x1 }
    ∷ record { iname = IName.remw; opcode = 0x3b; funct3 = 6; funct7 = 0x1 }
    ∷ record { iname = IName.remuw; opcode = 0x3b; funct3 = 7; funct7 = 0x1 }
    ∷ []

abbrev pub isa_i : List Encoding
isa_i =
    record { iname = IName.lb; opcode = 0x03; funct3 = 0; funct7 = 0x0 }
    ∷ record { iname = IName.lh; opcode = 0x03; funct3 = 1; funct7 = 0x0 }
    ∷ record { iname = IName.lw; opcode = 0x03; funct3 = 2; funct7 = 0x0 }
    ∷ record { iname = IName.ld; opcode = 0x03; funct3 = 3; funct7 = 0x0 }
    ∷ record { iname = IName.lbu; opcode = 0x03; funct3 = 4; funct7 = 0x0 }
    ∷ record { iname = IName.lhu; opcode = 0x03; funct3 = 5; funct7 = 0x0 }
    ∷ record { iname = IName.lwu; opcode = 0x03; funct3 = 6; funct7 = 0x0 }
    ∷ record { iname = IName.addi; opcode = 0x13; funct3 = 0; funct7 = 0x0 }
    ∷ record { iname = IName.slti; opcode = 0x13; funct3 = 2; funct7 = 0x0 }
    ∷ record { iname = IName.sltiu; opcode = 0x13; funct3 = 3; funct7 = 0x0 }
    ∷ record { iname = IName.xori; opcode = 0x13; funct3 = 4; funct7 = 0x0 }
    ∷ record { iname = IName.ori; opcode = 0x13; funct3 = 6; funct7 = 0x0 }
    ∷ record { iname = IName.andi; opcode = 0x13; funct3 = 7; funct7 = 0x0 }
    ∷ record { iname = IName.addiw; opcode = 0x1b; funct3 = 0; funct7 = 0x0 }
    ∷ record { iname = IName.jalr; opcode = 0x67; funct3 = 0; funct7 = 0x0 }
    ∷ record { iname = IName.csrrw; opcode = 0x73; funct3 = 1; funct7 = 0x0 }
    ∷ record { iname = IName.csrrs; opcode = 0x73; funct3 = 2; funct7 = 0x0 }
    ∷ record { iname = IName.csrrc; opcode = 0x73; funct3 = 3; funct7 = 0x0 }
    ∷ record { iname = IName.csrrwi; opcode = 0x73; funct3 = 5; funct7 = 0x0 }
    ∷ record { iname = IName.csrrsi; opcode = 0x73; funct3 = 6; funct7 = 0x0 }
    ∷ record { iname = IName.csrrci; opcode = 0x73; funct3 = 7; funct7 = 0x0 }
    ∷ []

abbrev pub isa_b : List Encoding
isa_b =
    record { iname = IName.beq; opcode = 0x63; funct3 = 0; funct7 = 0x0 }
    ∷ record { iname = IName.bne; opcode = 0x63; funct3 = 1; funct7 = 0x0 }
    ∷ record { iname = IName.blt; opcode = 0x63; funct3 = 4; funct7 = 0x0 }
    ∷ record { iname = IName.bge; opcode = 0x63; funct3 = 5; funct7 = 0x0 }
    ∷ record { iname = IName.bltu; opcode = 0x63; funct3 = 6; funct7 = 0x0 }
    ∷ record { iname = IName.bgeu; opcode = 0x63; funct3 = 7; funct7 = 0x0 }
    ∷ []

abbrev pub isa_s : List Encoding
isa_s =
    record { iname = IName.sb; opcode = 0x23; funct3 = 0; funct7 = 0x0 }
    ∷ record { iname = IName.sh; opcode = 0x23; funct3 = 1; funct7 = 0x0 }
    ∷ record { iname = IName.sw; opcode = 0x23; funct3 = 2; funct7 = 0x0 }
    ∷ record { iname = IName.sd; opcode = 0x23; funct3 = 3; funct7 = 0x0 }
    ∷ []

abbrev pub name_of : Outcome Instruction → Option IName
name_of (ok i) = some i.name
name_of _ = none

-- A search names every encoding of a list, whatever the other fields are.
abbrev pub AllNamed :
    (Fields → Outcome Instruction) → (Fields → Encoding → Fields) → Fields → List Encoding → Type 0
AllNamed find fill f [] = Unit {0}
AllNamed find fill f (x ∷ xs) = (name_of (find (fill f x)) ≡ some x.iname) × AllNamed find fill f xs

-- The fields with an opcode and funct3, and with funct7 too.
abbrev pub with_f3 : Fields → Encoding → Fields
with_f3 f x = record f { opcode = x.opcode; funct3 = x.funct3 }

abbrev pub with_f7 : Fields → Encoding → Fields
with_f7 f x = record f { opcode = x.opcode; funct3 = x.funct3; funct7 = x.funct7 }

-- Whatever the registers and the immediate are, the searches give the name in the ISA manual to the
-- opcode, funct3 and funct7 of each of the 28 register instructions of RV64IM, and to the opcode and
-- funct3 of its loads, of its instructions on an immediate that do not shift, of JALR, of the six
-- CSR instructions, of the branches and of the stores.
pub searches_lem :
    (f : Fields)
    → AllNamed find_r with_f7 f isa_r
      × AllNamed find_i with_f3 f isa_i
      × AllNamed find_b with_f3 f isa_b
      × AllNamed find_s with_f3 f isa_s
unfolding find_r find_i find_b find_s named matches_r matches_i get_opcode r_opcodes i_opcodes
    b_opcodes s_opcodes r_funct3 i_funct3 b_funct3 s_funct3 r_funct7 i_funct7 i_funct6 get_i_funct7
    get_i_funct6 inst_string_names all_names
searches_lem f = (
  (
    refl,
    (
      refl,
      (
        refl,
        (
          refl,
          (
            refl,
            (
              refl,
              (
                refl,
                (
                  refl,
                  (
                    refl,
                    (
                      refl,
                      (
                        refl,
                        (
                          refl,
                          (
                            refl,
                            (
                              refl,
                              (
                                refl,
                                (
                                  refl,
                                  (
                                    refl,
                                    (
                                      refl,
                                      (
                                        refl,
                                        (
                                          refl,
                                          (
                                            refl,
                                            (
                                              refl,
                                              (refl, (refl, (refl, (refl, (refl, (refl, tt)))))),
                                            ),
                                          ),
                                        ),
                                      ),
                                    ),
                                  ),
                                ),
                              ),
                            ),
                          ),
                        ),
                      ),
                    ),
                  ),
                ),
              ),
            ),
          ),
        ),
      ),
    ),
  ),
  (
    refl,
    (
      refl,
      (
        refl,
        (
          refl,
          (
            refl,
            (
              refl,
              (
                refl,
                (
                  refl,
                  (
                    refl,
                    (
                      refl,
                      (
                        refl,
                        (
                          refl,
                          (
                            refl,
                            (refl, (refl, (refl, (refl, (refl, (refl, (refl, (refl, tt)))))))),
                          ),
                        ),
                      ),
                    ),
                  ),
                ),
              ),
            ),
          ),
        ),
      ),
    ),
  ),
  (refl, (refl, (refl, (refl, (refl, (refl, tt)))))),
  (refl, (refl, (refl, (refl, tt)))),
)
