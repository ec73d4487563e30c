-- ===== src/Common/Word.antt =====
-- Unsigned machine words: a value is a number below the modulus, and every operation wraps.
use Prim.Native.Nat.{ℕ, ◌+◌, ◌-◌, ◌%◌, ◌^◌}

abbrev pub u32 : ℕ → ℕ
u32 n = n % 2 ^ 32

abbrev pub u64 : ℕ → ℕ
u64 n = n % 2 ^ 64

-- `++x` and `--x` on a uint32_t.
abbrev pub inc32 : ℕ → ℕ
inc32 n = u32 (n + 1)

abbrev pub dec32 : ℕ → ℕ
dec32 n = u32 (n + 2 ^ 32 - 1)
