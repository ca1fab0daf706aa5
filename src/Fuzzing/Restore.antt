-- ===== src/Fuzzing/Restore.antt =====
-- `pop_mutate` of src/util.cpp undoes `push_mutate`.
use native.Mathlib.Nat.{mod-lt}
use vemu.Common.{
  ℕ, zero, suc, ◌%◌, ◌<◌, ◌≡◌, refl, sym, ◌∙◌, true, false, ◌&&◌, Option, none, some, List, [], ◌∷◌,
  ◌==◌, if◌then◌else◌, ok, u8, length, arith, inl, inr, Bool-cases, ap,
}
use vemu.Fuzzing.Image.{MemorySegment, FileInfo}
use vemu.Fuzzing.Random.{gen_rand}
use vemu.Fuzzing.Mutation.{
  MutationHistory, is_recorded, segment_at, set_byte, mutate_byte, mutate_once, push_mutate,
  pop_mutate,
}

-- The byte at an offset of a segment.
unfoldable pub byte_at : List MemorySegment → ℕ → ℕ → Option ℕ
byte_at [] s o = none
byte_at (g ∷ gs) zero o = some (g.bytes o)
byte_at (g ∷ gs) (suc s) o = byte_at gs s o

abbrev replaced : Option ℕ → ℕ → Option ℕ
replaced none v = none
replaced (some x) v = some v

byte_at-set_byte :
    (gs : List MemorySegment) (s o v s' o' : ℕ)
    → byte_at (set_byte gs s o v) s' o'
      ≡ (if s == s' && o == o' then replaced (byte_at gs s' o') v else byte_at gs s' o')
unfolding byte_at set_byte
byte_at-set_byte [] s o v s' o' = ground arith
byte_at-set_byte (g ∷ gs) zero o v zero o' = ground arith
byte_at-set_byte (g ∷ gs) zero o v (suc s') o' = ground arith
byte_at-set_byte (g ∷ gs) (suc s) o v zero o' = ground arith
byte_at-set_byte (g ∷ gs) (suc s) o v (suc s') o' = ground (arith, byte_at-set_byte gs s o v s' o')

-- An image that `push_mutate` can work on has a segment, and no segment without bytes.
abbrev pub NoneEmpty : List MemorySegment → Type 0
NoneEmpty [] = Unit {0}
NoneEmpty (g ∷ gs) = (0 < g.file_size) × NoneEmpty gs

pub record IsMutable (gs : List MemorySegment) : Type 0 where
  pub some_segment : 0 < length gs
  pub some_bytes : NoneEmpty gs

NoneEmpty-set_byte :
    (gs : List MemorySegment) (s o v : ℕ) → NoneEmpty gs → NoneEmpty (set_byte gs s o v)
unfolding set_byte
NoneEmpty-set_byte [] s o v h = h
NoneEmpty-set_byte (g ∷ gs) zero o v h = h
NoneEmpty-set_byte (g ∷ gs) (suc s) o v h = (h.0, NoneEmpty-set_byte gs s o v h.1)

length-set_byte : (gs : List MemorySegment) (s o v : ℕ) → length (set_byte gs s o v) ≡ length gs
unfolding set_byte
length-set_byte [] s o v = refl
length-set_byte (g ∷ gs) zero o v = refl
length-set_byte (g ∷ gs) (suc s) o v = ap suc (length-set_byte gs s o v)

segment_in_range :
    (gs : List MemorySegment) (i : ℕ)
    → NoneEmpty gs
    → i < length gs
    → (g : MemorySegment) × (segment_at gs i ≡ some g)
      × (0 < g.file_size)
      × ((o : ℕ) → byte_at gs i o ≡ some (g.bytes o))
unfolding segment_at byte_at
segment_in_range [] i h below = absurd (omega arith)
segment_in_range (g ∷ gs) zero h below = (g, refl, h.0, λ o. refl)
segment_in_range (g ∷ gs) (suc i) h below = segment_in_range gs i h.1 (omega arith)

-- What the history knows of the first image: the value of every recorded byte, which is still a
-- byte of the image, and that the others are unchanged.
abbrev AllRight : List MemorySegment → MutationHistory → Type 0
AllRight first [] = Unit {0}
AllRight first (c ∷ cs) = (byte_at first c.segment c.offset ≡ some c.value) × AllRight first cs

record Knows (first now : List MemorySegment) (history : MutationHistory) : Type 0 where
  right : AllRight first history
  same : (s o : ℕ) → is_recorded s o history ≡ false → byte_at now s o ≡ byte_at first s o
  present : (s o : ℕ) → is_recorded s o history ≡ true → (x : ℕ) × (byte_at now s o ≡ some x)

same_place : (s o s' o' : ℕ) → (s == s' && o == o') ≡ true → (s ≡ s') × (o ≡ o')
same_place s o s' o' h = ground arith

-- A change of one byte.
module _ (now : List MemorySegment) (s o v : ℕ) where
  present_after :
      (s' o' x : ℕ)
      → byte_at now s' o' ≡ some x
      → (y : ℕ) × (byte_at (set_byte now s o v) s' o' ≡ some y)
  present_after s' o' x e = elim (Bool-cases (s == s' && o == o')) [
    | inl here ↦ (v, rw (byte_at-set_byte now s o v s' o', here, e) refl)
    | inr other ↦ (x, rw (byte_at-set_byte now s o v s' o', other) e)
  ]

  untouched :
      (s' o' : ℕ)
      → (s == s' && o == o') ≡ false
      → byte_at (set_byte now s o v) s' o' ≡ byte_at now s' o'
  untouched s' o' other = rw (byte_at-set_byte now s o v s' o', other) refl

-- The same with its old value in the history if it was not recorded.
module _ (first now : List MemorySegment) (h : MutationHistory) (knows : Knows first now h)
    (s o v old : ℕ) (holds : byte_at now s o ≡ some old) where
  Knows-again : is_recorded s o h ≡ true → Knows first (set_byte now s o v) h
  Knows-again again = record {
    right = knows.right;
    same = λ s' o' fresh. elim (Bool-cases (s == s' && o == o')) [
      | inl here ↦
          let (p, q) = same_place s o s' o' here in
          let again' : is_recorded s' o' h ≡ true = rw (← p, ← q) again in absurd (cc)
      | inr other ↦ untouched now s o v s' o' other ∙ knows.same s' o' fresh
    ];
    present = λ s' o' recorded.
        let (x, e) = knows.present s' o' recorded in present_after now s o v s' o' x e;
  }

  Knows-first :
      is_recorded s o h ≡ false
      → Knows first (set_byte now s o v) (record { segment = s; offset = o; value = old } ∷ h)
  unfolding is_recorded
  Knows-first fresh = record {
    right = (sym (knows.same s o fresh) ∙ holds, knows.right);
    same = λ s' o' unrecorded.
        untouched now s o v s' o' (ground arith) ∙ knows.same s' o' (ground arith);
    present = λ s' o' recorded. elim (Bool-cases (s == s' && o == o')) [
      | inl here ↦
          let (p, q) = same_place s o s' o' here in
          present_after now s o v s' o' old (rw (← p, ← q) holds)
      | inr other ↦
          let (x, e) = knows.present s' o' (ground arith) in present_after now s o v s' o' x e
    ];
  }

-- Going back through the history gives the first image.
pop_mutate-Knows :
    (first : List MemorySegment) (h : MutationHistory) (info : FileInfo)
    → Knows first info.segments h
    → (s o : ℕ) → byte_at (pop_mutate info h).segments s o ≡ byte_at first s o
unfolding pop_mutate is_recorded
pop_mutate-Knows first [] info knows s o = knows.same s o refl
pop_mutate-Knows first (c ∷ cs) info knows s o =
    let now = info.segments in
    let back = set_byte now c.segment c.offset c.value in
    pop_mutate-Knows first cs (record info { segments = back }) (undone now knows) s o
  where
    undone :
        (now : List MemorySegment)
        → Knows first now (c ∷ cs)
        → Knows first (set_byte now c.segment c.offset c.value) cs
    undone now k = record {
      right = k.right.1;
      same = λ s' o' fresh. elim (Bool-cases (c.segment == s' && c.offset == o')) [
        | inl here ↦
            let (p, q) = same_place c.segment c.offset s' o' here in
            let (x, e) = k.present s' o' (ground arith) in
            rw (byte_at-set_byte now c.segment c.offset c.value s' o', here, e)
              (sym (rw (← p, ← q) k.right.0))
        | inr other ↦
            untouched now c.segment c.offset c.value s' o' other ∙ k.same s' o' (ground arith)
      ];
      present = λ s' o' recorded.
          let (x, e) = k.present s' o' (ground arith) in
          present_after now c.segment c.offset c.value s' o' x e;
    }

-- One round on a mutable image.
module _ (first : List MemorySegment) (info : FileInfo) (h : MutationHistory) (seed : ℕ)
    (mutable : IsMutable info.segments) (knows : Knows first info.segments h) where
  mutate_once-Knows :
      (info' : FileInfo) × (h' : MutationHistory) × (seed' : ℕ) × (mutate_once info h seed
        ≡ ok ((info', h'), seed'))
      × IsMutable info'.segments
      × Knows first info'.segments h'
  unfolding mutate_once
  mutate_once-Knows =
      let (r1, seed1) = gen_rand seed in
      let (r2, seed2) = gen_rand seed1 in
      let (r3, seed3) = gen_rand seed2 in
      let i = r1 % length info.segments in
      let (g, found, some_bytes, holds) =
        segment_in_range info.segments i mutable.some_bytes (mod-lt r1 mutable.some_segment) in
      let o = r2 % g.file_size in
      let v = u8 (r3 % 255) in
      let next = mutate_byte info h i o g v in
      let counted : (length info.segments == 0) ≡ false = ground (arith, mutable.some_segment) in
      let not_empty : (g.file_size == 0) ≡ false = ground arith in
      (
        next.0,
        next.1,
        seed3,
        rw (counted, found, not_empty) refl,
        record {
          some_segment = omega (arith, length-set_byte info.segments i o v, mutable.some_segment);
          some_bytes = NoneEmpty-set_byte info.segments i o v mutable.some_bytes;
        },
        elim (Bool-cases (is_recorded i o h)) [
          | inl again ↦
              rw again (Knows-again first info.segments h knows i o v (g.bytes o) (holds o) again)
          | inr fresh ↦
              rw fresh (Knows-first first info.segments h knows i o v (g.bytes o) (holds o) fresh)
        ],
      )

push_mutate-Knows :
    (n : ℕ) (first : List MemorySegment) (info : FileInfo) (h : MutationHistory) (seed : ℕ)
    → IsMutable info.segments
    → Knows first info.segments h
    → (info' : FileInfo) × (h' : MutationHistory) × (seed' : ℕ) × (push_mutate n info h seed
        ≡ ok ((info', h'), seed'))
      × Knows first info'.segments h'
unfolding push_mutate
push_mutate-Knows zero first info h seed mutable knows = (info, h, seed, refl, knows)
push_mutate-Knows (suc n) first info h seed mutable knows =
    let (info1, h1, seed1, once, mutable1, knows1) =
      mutate_once-Knows first info h seed mutable knows in
    let (info2, h2, seed2, rest, knows2) =
      push_mutate-Knows n first info1 h1 seed1 mutable1 knows1 in
    (info2, h2, seed2, rw once rest, knows2)

-- On an image with a segment, and with no segment without bytes, any number of mutations with any
-- seed succeeds, and `pop_mutate` with the history that they leave gives every byte of the image
-- its first value.
pub push_mutate-pop_mutate :
    (n : ℕ) (info : FileInfo) (seed : ℕ)
    → IsMutable info.segments
    → (info' : FileInfo) × (h : MutationHistory) × (seed' : ℕ) × (push_mutate n info [] seed
        ≡ ok ((info', h), seed'))
      × ((s o : ℕ) → byte_at (pop_mutate info' h).segments s o ≡ byte_at info.segments s o)
unfolding is_recorded
push_mutate-pop_mutate n info seed mutable =
    let start : Knows info.segments info.segments [] = record {
      right = tt;
      same = λ s o fresh. refl;
      present = λ s o h. cc;
    } in
    let (info', h, seed', runs, knows) =
      push_mutate-Knows n info.segments info [] seed mutable start in
    (info', h, seed', runs, pop_mutate-Knows info.segments h info' knows)
