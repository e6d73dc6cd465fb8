-- ===== src/CText.antt =====
-- Windows/src/pb_*.c: what the sources use of the C library on NUL-terminated strings. A string is
-- the list of its bytes before the NUL; a pointer that may be NULL is an `Option`.
pub mod Tokens
pub mod Number
use proxy_bridge.Prelude.{
  ℕ, ◌+◌, ◌≡◌, refl, Bool, true, false, ◌&&◌, ◌||◌, List, [], ◌∷◌, Option, none, some, arith, ltb,
  leb, ◌==◌, if◌then◌else◌, Bytes, is_empty,
}

-- `tolower` in the C locale.
unfoldable pub to_lower : ℕ → ℕ
to_lower c = if leb b'A' c && leb c b'Z' then c + 32 else c

unfoldable pub same_letter : ℕ → ℕ → Bool
unfolding to_lower
same_letter a b = to_lower a == to_lower b

-- `_stricmp(a, b) == 0`.
unfoldable pub equal_fold : Bytes → Bytes → Bool
unfolding same_letter
equal_fold [] [] = true
equal_fold (x ∷ xs) (y ∷ ys) = same_letter x y && equal_fold xs ys
equal_fold _ _ = false

-- `strchr(s, c) != NULL`.
unfoldable pub contains : Bytes → ℕ → Bool
contains [] c = false
contains (x ∷ xs) c = x == c || contains xs c

-- The text behind the first `c`, `strchr(s, c) + 1`.
unfoldable pub behind : Bytes → ℕ → Option Bytes
behind [] c = none
behind (x ∷ xs) c = let later = behind xs c in if x == c then some xs else later

-- The text before the first `c`, or all of it.
unfoldable pub before : Bytes → ℕ → Bytes
before [] c = []
before (x ∷ xs) c = let rest = before xs c in if x == c then [] else x ∷ rest

-- The text behind the last `c`, `strrchr(s, c) + 1`.
unfoldable pub behind_last : Bytes → ℕ → Option Bytes
behind_last [] c = none
behind_last (x ∷ xs) c = elim (behind_last xs c) [
  | some t ↦ some t
  | none ↦ if x == c then some xs else none
]

-- A space or a tab.
abbrev pub is_blank : ℕ → Bool
is_blank c = c == b' ' || c == b'\t'
