-- ===== src/Common/Word.antt =====
-- Machine words as numbers below 2 ^ w: the casts, shifts and sums of the unsigned C++ types, and
-- the casts that extend a sign. A signed type is held as its two's complement bit pattern.
use Prim.Native.Nat.{ℕ, ◌+◌, ◌-◌, ◌*◌, ◌/◌, ◌%◌, ◌^◌}
use vemu.Common.Tests.{ltb, if◌then◌else◌}

abbrev pub u8 : ℕ → ℕ
u8 n = n % 2 ^ 8

abbrev pub u16 : ℕ → ℕ
u16 n = n % 2 ^ 16

abbrev pub u32 : ℕ → ℕ
u32 n = n % 2 ^ 32

abbrev pub u64 : ℕ → ℕ
u64 n = n % 2 ^ 64

-- `a + b`, `a - b`, `a * b` on 64 bits. `-` on ℕ stops at 0, so the modulus is added first.
abbrev pub add64 : ℕ → ℕ → ℕ
add64 a b = (a + b) % 2 ^ 64

abbrev pub sub64 : ℕ → ℕ → ℕ
sub64 a b = (a + 2 ^ 64 - b) % 2 ^ 64

abbrev pub mul64 : ℕ → ℕ → ℕ
mul64 a b = a * b % 2 ^ 64

-- The 64-bit pattern of an `int8_t`, `int16_t`, `int32_t` given by its own pattern.
abbrev pub sext8 : ℕ → ℕ
sext8 w = if ltb w (2 ^ 7) then w else w + (2 ^ 64 - 2 ^ 8)

abbrev pub sext16 : ℕ → ℕ
sext16 w = if ltb w (2 ^ 15) then w else w + (2 ^ 64 - 2 ^ 16)

abbrev pub sext32 : ℕ → ℕ
sext32 w = if ltb w (2 ^ 31) then w else w + (2 ^ 64 - 2 ^ 32)

-- `static_cast<int32_t>` of a 64-bit value, as the 64-bit pattern of the result.
abbrev pub to_i32 : ℕ → ℕ
to_i32 x = sext32 (u32 x)

infixl 75 ◌<<<◌ ◌>>>◌
abbrev pub ◌<<<◌ : ℕ → ℕ → ℕ
x <<< k = x * 2 ^ k

abbrev pub ◌>>>◌ : ℕ → ℕ → ℕ
x >>> k = x / 2 ^ k

-- `>>` of an `int32_t`, on its 32-bit pattern.
abbrev pub asr32 : ℕ → ℕ → ℕ
asr32 x k = if ltb x (2 ^ 31) then x / 2 ^ k else 2 ^ 32 - 1 - (2 ^ 32 - 1 - x) / 2 ^ k

-- `<<` on 32 bits.
abbrev pub shl32 : ℕ → ℕ → ℕ
shl32 x k = x * 2 ^ k % 2 ^ 32
