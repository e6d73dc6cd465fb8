-- ===== src/Pattern/Ipv6.antt =====
-- Windows/src/pb_rules.c: `match_ip_pattern_v6` and `match_ip_list_v6`. An address is its 16 bytes.
-- `inet_pton` is the system's parser: the bytes of the address that a text stands for.
use proxy_bridge.Prelude.{
  ℕ, ◌-◌, ◌*◌, ◌/◌, ◌%◌, ◌^◌, bit_and, Bool, true, false, not, ◌&&◌, [], ◌∷◌, Option, none, some,
  ltb, leb, ◌==◌, if◌then◌else◌, Bytes, codes, take, get_or, equal,
}
use proxy_bridge.Prelude.Int.{ℤ, pos, negsuc}
use proxy_bridge.CText.{contains, behind, before}
use proxy_bridge.CText.Number.{atoi}
use proxy_bridge.Pattern.TokenList.{parse_token_list}

-- `memcmp(a, b, n) <= 0` on buffers of the same length.
unfoldable pub at_most : Bytes → Bytes → Bool
at_most [] b = true
at_most (x ∷ a) [] = false
at_most (x ∷ a) (y ∷ b) = if x == y then at_most a b else ltb x y

-- `(UINT8)(0xFF << (8 - rem_bits))`.
abbrev pub prefix_mask : ℕ → ℕ
prefix_mask rem_bits = 255 * 2 ^ (8 - rem_bits) % 256

-- The comparison of the first `prefix_len` bits.
unfoldable pub same_prefix : ℕ → Bytes → Bytes → Bool
same_prefix prefix_len ip6 network =
    let full_bytes = prefix_len / 8 in
    let rem_bits = prefix_len % 8 in
    let mask = prefix_mask rem_bits in
    if ltb 0 full_bytes && not (equal (take full_bytes ip6) (take full_bytes network))
    then false
    else if ltb 0 rem_bits
    then bit_and (get_or ip6 full_bytes 0) mask == bit_and (get_or network full_bytes 0) mask
    else true

-- The prefix length of a CIDR pattern, if it lies in 0 … 128.
abbrev prefix_length : ℤ → Option ℕ
prefix_length (pos n) = if leb n 128 then some n else none
prefix_length (negsuc n) = none

match_cidr : Bytes → Option ℕ → Option Bytes → Bool
unfolding same_prefix
match_cidr ip6 (some prefix_len) (some network) = same_prefix prefix_len ip6 network
match_cidr ip6 _ _ = false

match_between : Bytes → Option Bytes → Option Bytes → Bool
unfolding at_most
match_between ip6 (some start) (some end) = at_most start ip6 && at_most ip6 end
match_between ip6 _ _ = false

match_exact : Bytes → Option Bytes → Bool
match_exact ip6 (some address) = equal ip6 address
match_exact ip6 none = false

module _ (inet_pton : Bytes → Option Bytes) where
  -- On the text behind the first dash of the copied pattern.
  v6_by_dash : Bytes → Bytes → Bytes → Option Bytes → Bool
  unfolding match_between match_exact
  v6_by_dash pattern copy ip6 (some end) =
      match_between ip6 (inet_pton (before copy b'-')) (inet_pton end)
  v6_by_dash pattern copy ip6 none = match_exact ip6 (inet_pton pattern)

  -- On the text behind the first slash of the copied pattern.
  v6_by_slash : Bytes → Bytes → Bytes → Option Bytes → Bool
  unfolding match_cidr v6_by_dash
  v6_by_slash pattern copy ip6 (some length_text) =
      match_cidr ip6 (prefix_length (atoi length_text)) (inet_pton (before copy b'/'))
  v6_by_slash pattern copy ip6 none = v6_by_dash pattern copy ip6 (behind copy b'-')

  unfoldable pub match_ip_pattern_v6 : Option Bytes → Bytes → Bool
  unfolding v6_by_slash
  match_ip_pattern_v6 none ip6 = true
  match_ip_pattern_v6 (some pattern) ip6 =
      let copy = take 127 pattern in
      if equal pattern (codes "*")
      then true
      else if not (contains pattern b':')
      then false
      else v6_by_slash pattern copy ip6 (behind copy b'/')

  unfoldable pub match_ip_list_v6 : (ℕ → Bool) → Option Bytes → Bytes → Bool
  match_ip_list_v6 malloc ip_list ip6 =
      parse_token_list malloc ip_list (codes ";") (λ token. match_ip_pattern_v6 (some token) ip6)
