-- ===== src/Prelude/Words.antt =====
-- Machine words as native numbers that wrap by `%`.
use Prim.Native.Nat.{ℕ, ◌+◌, ◌-◌, ◌*◌, ◌/◌, ◌%◌, ◌^◌}

abbrev pub u32 : ℕ → ℕ
u32 x = x % 2 ^ 32

abbrev pub u64 : ℕ → ℕ
u64 x = x % 2 ^ 64

-- `a - b` on ULONGLONG tick counts.
abbrev pub sub64 : ℕ → ℕ → ℕ
sub64 a b = (a + 2 ^ 64 - b) % 2 ^ 64

-- The octet at position `k` of a 32-bit word, `(x >> 8 * k) & 0xFF`.
abbrev pub octet : ℕ → ℕ → ℕ
octet x k = x / 2 ^ (8 * k) % 256
