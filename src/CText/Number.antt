-- ===== src/CText/Number.antt =====
-- Windows/src/pb_rules.c, pb_util.c, pb_http.c: `atoi` and the conversions of `sscanf_s`.
use proxy_bridge.Prelude.{
  ℕ, ◌+◌, ◌-◌, ◌*◌, ◌^◌, Bool, true, false, ◌&&◌, ◌||◌, [], ◌∷◌, Option, none, some, ltb, leb, ◌==◌,
  if◌then◌else◌, Bytes,
}
use proxy_bridge.Prelude.Int.{ℤ, pos, negsuc}

abbrev pub is_digit : ℕ → Bool
is_digit c = leb b'0' c && leb c b'9'

-- `isspace` in the C locale.
abbrev is_space : ℕ → Bool
is_space c = c == b' ' || leb 9 c && leb c 13

unfoldable pub skip_space : Bytes → Bytes
skip_space [] = []
skip_space (c ∷ cs) = let rest = skip_space cs in if is_space c then rest else c ∷ cs

-- The value of the leading digits, continued from `acc`.
unfoldable pub digits_value : ℕ → Bytes → ℕ
digits_value acc [] = acc
digits_value acc (c ∷ cs) = elim (is_digit c) [
  | true ↦ digits_value (acc * 10 + (c - b'0')) cs
  | false ↦ acc
]

unfoldable pub skip_digits : Bytes → Bytes
skip_digits [] = []
skip_digits (c ∷ cs) = let rest = skip_digits cs in if is_digit c then rest else c ∷ cs

-- The bounds of `int`, at which an overlong number stops.
clamp_int : Bool → ℕ → ℤ
clamp_int false n = pos (if ltb n (2 ^ 31) then n else 2 ^ 31 - 1)
clamp_int true n =
    if n == 0 then pos 0 else if leb n (2 ^ 31) then negsuc (n - 1) else negsuc (2 ^ 31 - 1)

-- The sign, and the text behind it.
signed : Bytes → Bool × Bytes
signed [] = (false, [])
signed (c ∷ cs) =
    if c == b'-' then (true, cs) else if c == b'+' then (false, cs) else (false, c ∷ cs)

starts_digit : Bytes → Bool
starts_digit [] = false
starts_digit (c ∷ cs) = is_digit c

-- `atoi`: white space, a sign, digits; 0 where no digit stands.
unfoldable pub atoi : Bytes → ℤ
unfolding skip_space signed digits_value clamp_int
atoi s = let (negative, rest) = signed (skip_space s) in clamp_int negative (digits_value 0 rest)

-- `%d` of `sscanf_s`: the number and the text behind it, or a failure.
unfoldable pub scan_int : Bytes → Option (ℤ × Bytes)
unfolding skip_space signed digits_value clamp_int starts_digit skip_digits
scan_int s =
    let (negative, rest) = signed (skip_space s) in
    if starts_digit rest
    then some (clamp_int negative (digits_value 0 rest), skip_digits rest)
    else none

-- A literal `.` of a format.
unfoldable pub scan_dot : Bytes → Option Bytes
scan_dot [] = none
scan_dot (c ∷ cs) = if c == b'.' then some cs else none
