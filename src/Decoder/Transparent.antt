-- ===== src/Decoder/Transparent.antt =====
-- The caches of the decoder do not show: `decode` gives what a decoder without caches gives.
use vemu.Common.{
  ℕ, ◌≡◌, refl, sym, ◌∙◌, ap, Option, none, some, inl, inr, ◌==◌, if◌then◌else◌, Outcome, ok,
  aborted, exited, undefined, ◌>>=◌, update, arith, Bool-cases, ==_iff,
}
use mathlib.Core.Path.{subst}
use vemu.Isa.{Format, Fields, no_fields, Instruction, IName}
use vemu.Decoder.Extract.{extract_opcode}
use vemu.Decoder.Search.{
  is_fp_instr, ignore_f3, find_r, find_fp_with_f3, find_fp_without_f3, find_r4, find_i, find_b,
  find_s, find_j, find_u,
}
use vemu.Decoder.Cache.{
  Decoder, mret_instr, sret_instr, new, type_of_opcode, opcode_type, immediate_of, fields_with,
  get_fields, with_fields, decode_r, decode_type, remember, decode,
}

-- A decoder with no state.
abbrev reference_find : Format → ℕ → Fields → Outcome Instruction
reference_find Format.r inst f =
    if is_fp_instr inst
    then if ignore_f3 inst then find_fp_without_f3 f else find_fp_with_f3 f
    else find_r f
reference_find Format.r4 inst f = find_r4 f
reference_find Format.i inst f = find_i f
reference_find Format.s inst f = find_s f
reference_find Format.b inst f = find_b f
reference_find Format.u inst f = find_u f
reference_find Format.j inst f = find_j f
reference_find Format.wrong inst f =
    ok (record { t = Format.wrong; name = IName.xxx; f = no_fields; str_name = "XXX" })

abbrev word_type : ℕ → Format
word_type inst = type_of_opcode (extract_opcode inst)

abbrev word_fields : ℕ → Fields
word_fields inst = fields_with (immediate_of (word_type inst) inst) inst

abbrev by_type : ℕ → Outcome Instruction
by_type inst = reference_find (word_type inst) inst (word_fields inst)

unfoldable pub reference : ℕ → Outcome Instruction
reference inst =
    if inst == 0x10200073
    then ok sret_instr
    else if inst == 0x30200073
    then ok mret_instr
    else by_type inst

-- Every cached type and every cached instruction is the right one.
abbrev TypesRight : Decoder → Type 0
TypesRight d = (op : ℕ) (t : Format) → d.opcode_to_type_cache op ≡ some t → t ≡ type_of_opcode op

-- The two instructions with a fixed encoding are in the cache from the start.
pub record IsCoherent (d : Decoder) : Type 0 where
  pub types : TypesRight d
  pub instrs : (inst : ℕ) (i : Instruction) → d.instr_cache inst ≡ some i → reference inst ≡ ok i
  pub fixed : (inst : ℕ) → d.instr_cache inst ≡ none → reference inst ≡ by_type inst

pub new-IsCoherent : IsCoherent new
unfolding new reference
new-IsCoherent = record {
  types = λ op t h. cc;
  instrs = λ inst i h. ground (arith);
  fixed = λ inst h. ground (arith);
}

-- What a call that may fill the type cache leaves.
abbrev Keeps : Decoder → Decoder → Type 0
Keeps d d' = (d'.instr_cache ≡ d.instr_cache) × TypesRight d'

new_entry :
    (d : Decoder) (op : ℕ)
    → TypesRight d
    → (q : ℕ) (t : Format) → update d.opcode_to_type_cache op (some (type_of_opcode op)) q ≡ some t
    → t ≡ type_of_opcode q
new_entry d op right q t h = elim (Bool-cases (op == q)) [
  | inl here ↦
      let e : op ≡ q = (==_iff op q).0 here in
      let g : some (type_of_opcode op) ≡ some t = ground (arith) in sym (cc g) ∙ ap type_of_opcode e
  | inr other ↦ right q t (ground (arith))
]

opcode_type_lem :
    (d : Decoder) (op : ℕ)
    → TypesRight d
    → ((opcode_type d op).0 ≡ type_of_opcode op) × Keeps d (opcode_type d op).1
unfolding opcode_type
opcode_type_lem d op right = go (d.opcode_to_type_cache op) refl
  where
    go :
        (o : Option Format)
        → d.opcode_to_type_cache op ≡ o
        → ((opcode_type d op).0 ≡ type_of_opcode op) × Keeps d (opcode_type d op).1
    go none e = rw (e, opcode_type) (refl, (refl, λ q t h. new_entry d op right q t h))
    go (some t) e = rw (e, opcode_type) (right op t e, (refl, right))

get_fields_lem :
    (d : Decoder) (inst : ℕ)
    → TypesRight d
    → ((get_fields d inst).0 ≡ word_fields inst) × Keeps d (get_fields d inst).1
unfolding get_fields
get_fields_lem d inst right =
    let (same, keeps) = opcode_type_lem d (extract_opcode inst) right in
    (ap (λ (t : Format). fields_with (immediate_of t inst) inst) same, keeps)

-- A search with the fields is the reference search, whatever it finds.
abbrev Decodes : Decoder → ℕ → Outcome Instruction → Outcome (Instruction × Decoder) → Type 0
Decodes d inst found result = (d' : Decoder) × Keeps d d' × (result ≡ (found >>= λ i. ok (i, d')))

with_fields_lem :
    (d : Decoder) (inst : ℕ) (find : Fields → Outcome Instruction)
    → TypesRight d
    → Decodes d inst (find (word_fields inst)) (with_fields d inst find)
with_fields_lem d inst find right =
    let (same, keeps) = get_fields_lem d inst right in
    (
      (get_fields d inst).1,
      keeps,
      ap (λ (f : Fields). find f >>= λ i. ok (i, (get_fields d inst).1)) same,
    )

decode_r_lem :
    (d : Decoder) (inst : ℕ)
    → TypesRight d
    → Decodes d inst (reference_find Format.r inst (word_fields inst)) (decode_r d inst)
unfolding decode_r
decode_r_lem d inst right = elim (Bool-cases (is_fp_instr inst)) [
  | inl fp ↦ rw fp (elim (Bool-cases (ignore_f3 inst)) [
    | inl no_f3 ↦ rw no_f3 (with_fields_lem d inst find_fp_without_f3 right)
    | inr f3 ↦ rw f3 (with_fields_lem d inst find_fp_with_f3 right)
  ])
  | inr other ↦ rw other (with_fields_lem d inst find_r right)
]

decode_type_lem :
    (t : Format) (d : Decoder) (inst : ℕ)
    → TypesRight d
    → Decodes d inst (reference_find t inst (word_fields inst)) (decode_type t d inst)
unfolding decode_type
decode_type_lem Format.r d inst right = decode_r_lem d inst right
decode_type_lem Format.r4 d inst right = with_fields_lem d inst find_r4 right
decode_type_lem Format.i d inst right = with_fields_lem d inst find_i right
decode_type_lem Format.s d inst right = with_fields_lem d inst find_s right
decode_type_lem Format.b d inst right = with_fields_lem d inst find_b right
decode_type_lem Format.u d inst right = with_fields_lem d inst find_u right
decode_type_lem Format.j d inst right = with_fields_lem d inst find_j right
decode_type_lem Format.wrong d inst right = (d, (refl, right), refl)

module _ (d d2 : Decoder) (inst : ℕ) (i : Instruction) (coherent : IsCoherent d)
    (keeps : Keeps d d2) (found : reference inst ≡ ok i) where
  abbrev filled : Decoder
  filled = record d2 { instr_cache = update d2.instr_cache inst (some i) }

  kept-IsCoherent : IsCoherent d2
  kept-IsCoherent = record {
    types = keeps.1;
    instrs = λ q j h. coherent.instrs q j (rw keeps.0 at h);
    fixed = λ q h. coherent.fixed q (rw keeps.0 at h);
  }

  filled-IsCoherent : IsCoherent filled
  filled-IsCoherent = record {
    types = keeps.1;
    instrs = λ q j h. elim (Bool-cases (inst == q)) [
      | inl here ↦
          let e : inst ≡ q = (==_iff inst q).0 here in
          let g : some i ≡ some j = ground arith in rw (← e) (found ∙ cc g)
      | inr other ↦ kept-IsCoherent.instrs q j (ground arith)
    ];
    fixed = λ q h. elim (Bool-cases (inst == q)) [
      | inl here ↦ absurd (ground arith)
      | inr other ↦ kept-IsCoherent.fixed q (ground arith)
    ];
  }

  remember-IsCoherent :
      (t : Format) → ((remember t inst (i, d2)).0 ≡ i) × IsCoherent (remember t inst (i, d2)).1
  remember-IsCoherent Format.wrong = (refl, kept-IsCoherent)
  remember-IsCoherent _ = (refl, filled-IsCoherent)

-- The result of `decode`, without and with the decoder that it leaves.
abbrev IsDecoded : ℕ → Outcome (Instruction × Decoder) → Type 0
IsDecoded inst result =
    ((result >>= λ (i, d'). ok i) ≡ reference inst)
    × ((i : Instruction) (d' : Decoder) → result ≡ ok (i, d') → IsCoherent d')

decoder_of : Decoder → Outcome (Instruction × Decoder) → Decoder
decoder_of d (ok (i, d')) = d'
decoder_of d _ = d

module _ (d d2 : Decoder) (inst : ℕ) (t : Format) (coherent : IsCoherent d)
    (keeps : Keeps d d2) where
  finish :
      (found : Outcome Instruction)
      → reference inst ≡ found
      → IsDecoded inst (found >>= (λ i. ok (i, d2)) >>= λ r. ok (remember t inst r))
  unfolding decoder_of
  finish (ok i) e =
      let (same, next) = remember-IsCoherent d d2 inst i coherent keeps e t in
      (ap ok same ∙ sym e, λ j d' h. subst IsCoherent (ap (decoder_of d) h) next)
  finish aborted e = (sym e, λ j d' h. cc)
  finish (exited c) e = (sym e, λ j d' h. cc)
  finish undefined e = (sym e, λ j d' h. cc)

-- With coherent caches `decode` returns what the decoder without caches returns for the word, or
-- fails as that does, and leaves the caches coherent.
pub decode-reference :
    (d : Decoder) (inst : ℕ)
    → IsCoherent d
    → ((decode d inst >>= λ (i, d'). ok i) ≡ reference inst)
      × ((i : Instruction) (d' : Decoder) → decode d inst ≡ ok (i, d') → IsCoherent d')
unfolding decode decoder_of
decode-reference d inst coherent = go (d.instr_cache inst) refl
  where
    go : (o : Option Instruction) → d.instr_cache inst ≡ o → IsDecoded inst (decode d inst)
    go (some i) e =
        rw (e, decode)
          (
            sym (coherent.instrs inst i e),
            λ j d' h. subst IsCoherent (ap (decoder_of d) h) coherent,
          )
    go none e =
        let (same, keeps) = opcode_type_lem d (extract_opcode inst) coherent.types in
        let d1 = (opcode_type d (extract_opcode inst)).1 in
        let (d2, more, runs) = decode_type_lem (word_type inst) d1 inst keeps.1 in
        let all : Keeps d d2 = (more.0 ∙ keeps.0, more.1) in
        rw (e, decode)
          (rw same (
            rw runs (
              finish d d2 inst (word_type inst) coherent all (by_type inst)
                (coherent.fixed inst e))))
