-- ===== src/Fuzzing/Random.antt =====
-- `gen_rand` of src/util.cpp, the generator xorshift64* over the global `seed`.
use vemu.Common.{ℕ, bit_xor, u64, mul64, ◌<<<◌, ◌>>>◌}

-- The first value of `seed`.
abbrev pub first_seed : ℕ
first_seed = 123456789

-- The three steps of the shift register.
unfoldable pub next_seed : ℕ → ℕ
next_seed seed =
    let x1 = bit_xor seed (seed >>> 12) in
    let x2 = bit_xor x1 (u64 (x1 <<< 25)) in bit_xor x2 (x2 >>> 27)

-- The number and the new seed.
unfoldable pub gen_rand : ℕ → ℕ × ℕ
unfolding next_seed
gen_rand seed = let x = next_seed seed in (mul64 x 0x2545f4914f6cdd1d, x)
