-- ===== src/Prelude/Int.antt =====
-- C `int` values that may be negative, under the library's names for the integers.
use Prim.Native.Nat.{ℕ, ◌+◌, ◌-◌}
use mathlib.Core.Bool.{Bool, true, false}
use proxy_bridge.Prelude.Tests.{leb, ◌==◌, if◌then◌else◌}

-- `negsuc n` is -(n + 1).
pub data ℤ : Type 0 where
  pos : ℕ → ℤ
  negsuc : ℕ → ℤ

-- `a <= b` and `a == b` between a value that is never negative and an `int`.
abbrev pub leb_int : ℕ → ℤ → Bool
leb_int a (pos b) = leb a b
leb_int a (negsuc b) = false

abbrev pub geb_int : ℕ → ℤ → Bool
geb_int a (pos b) = leb b a
geb_int a (negsuc b) = true

abbrev pub eq_int : ℕ → ℤ → Bool
eq_int a (pos b) = a == b
eq_int a (negsuc b) = false

-- `a + 1` and `a - b`, of an `int`.
unfoldable pub plus_one : ℤ → ℤ
plus_one (pos n) = pos (n + 1)
plus_one (negsuc n) = if n == 0 then pos 0 else negsuc (n - 1)

unfoldable pub minus : ℤ → ℕ → ℤ
minus (pos a) b = if leb b a then pos (a - b) else negsuc (b - a - 1)
minus (negsuc a) b = negsuc (a + b)
