-- ===== src/Pattern/Ipv4.antt =====
-- Windows/src/pb_rules.c: `match_ip_pattern` and `match_ip_list`. An address is the UINT32 whose
-- lowest octet is the first one of the dotted form.
use proxy_bridge.Prelude.{
  ℕ, zero, suc, ◌+◌, ◌-◌, ◌*◌, ◌^◌, bit_or, Bool, true, false, ◌&&◌, ◌||◌, List, [], ◌∷◌, ◌++◌,
  Option, none, some, ltb, leb, ◌==◌, if◌then◌else◌, Bytes, codes, length, take, equal, u32, octet,
}
use proxy_bridge.Prelude.Int.{ℤ, pos, negsuc, eq_int}
use proxy_bridge.CText.{behind, before}
use proxy_bridge.CText.Number.{atoi, scan_int, scan_dot}
use proxy_bridge.Pattern.TokenList.{parse_token_list}

infixl 5 ◌>>=◌
abbrev ◌>>=◌ {ℓ κ} : {A : Type ℓ} {B : Type κ} → Option A → (A → Option B) → Option B
none >>= f = none
some a >>= f = f a

-- The bit pattern of an `int`.
abbrev word : ℤ → ℕ
word (pos n) = n
word (negsuc n) = 2 ^ 32 - (n + 1)

-- `(a << 0) | (b << 8) | (c << 16) | (d << 24)`, as a UINT32.
unfoldable pub join_octets : ℤ → ℤ → ℤ → ℤ → ℕ
join_octets a b c d =
    bit_or (bit_or (bit_or (word a) (u32 (word b * 2 ^ 8))) (u32 (word c * 2 ^ 16)))
      (u32 (word d * 2 ^ 24))

-- `sscanf_s(s, "%d.%d.%d.%d", …) == 4`, with the four octets joined.
unfoldable pub scan_address : Bytes → Option ℕ
unfolding join_octets
scan_address s = do
  (a, s₁) ← scan_int s
  s₂ ← scan_dot s₁
  (b, s₃) ← scan_int s₂
  s₄ ← scan_dot s₃
  (c, s₅) ← scan_int s₄
  s₆ ← scan_dot s₅
  (d, _) ← scan_int s₆
  some (join_octets a b c d)

-- The octets in the opposite order, so that addresses compare as numbers.
unfoldable pub big_endian : ℕ → ℕ
big_endian ip = octet ip 0 * 2 ^ 24 + octet ip 1 * 2 ^ 16 + octet ip 2 * 2 ^ 8 + octet ip 3

in_range : ℕ → Option ℕ → Option ℕ → Bool
unfolding big_endian
in_range ip (some start) (some end) =
    leb (big_endian start) (big_endian ip) && leb (big_endian ip) (big_endian end)
in_range ip _ _ = false

-- The branch for a pattern with a dash; both parts are copied to buffers of 64 bytes.
match_range : Bytes → Bytes → ℕ → Bool
unfolding in_range
match_range start end ip =
    if leb 64 (length start)
    then false
    else in_range ip (scan_address start) (scan_address (take 63 end))

-- The parsing loop. `left` octets may still be begun; an octet keeps its first 15 bytes.
split_octets : ℕ → Bytes → Bytes → List Bytes
split_octets zero current text = []
split_octets (suc left) current [] = current ∷ []
split_octets (suc left) current (c ∷ cs) = elim (c == b'.') [
  | true ↦ current ∷ split_octets left [] cs
  | false ↦
      split_octets (suc left) (if ltb (length current) 15 then current ++ c ∷ [] else current) cs
]

match_octet : Bytes → ℕ → Bool
match_octet pattern value = equal pattern (codes "*") || eq_int value (atoi pattern)

-- Four octets are wanted.
match_octets : ℕ → List Bytes → Bool
unfolding match_octet
match_octets ip (a ∷ b ∷ c ∷ d ∷ []) =
    match_octet a (octet ip 0)
    && match_octet b (octet ip 1)
    && match_octet c (octet ip 2)
    && match_octet d (octet ip 3)
match_octets ip _ = false

ip_by_dash : Bytes → ℕ → Option Bytes → Bool
unfolding match_range split_octets match_octets
ip_by_dash pattern ip (some end) = match_range (before pattern b'-') end ip
ip_by_dash pattern ip none = match_octets ip (split_octets 4 [] (take 255 pattern))

unfoldable pub match_ip_pattern : Option Bytes → ℕ → Bool
unfolding ip_by_dash
match_ip_pattern none ip = true
match_ip_pattern (some pattern) ip =
    if equal pattern (codes "*") then true else ip_by_dash pattern ip (behind pattern b'-')

unfoldable pub match_ip_list : (ℕ → Bool) → Option Bytes → ℕ → Bool
match_ip_list malloc ip_list ip =
    parse_token_list malloc ip_list (codes ";") (λ token. match_ip_pattern (some token) ip)
