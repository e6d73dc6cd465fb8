-- ===== src/Pattern/Wildcard.antt =====
-- Windows/src/pb_rules.c: `wildcard_match`. A call of itself is made on a shorter pattern, so the
-- length of the pattern bounds the depth, and is the fuel.
pub mod Matches
use proxy_bridge.Prelude.{
  ℕ, zero, suc, ◌+◌, Bool, true, false, ◌||◌, List, [], ◌∷◌, ◌==◌, Bytes, length,
}
use proxy_bridge.CText.{same_letter}

-- `while (*pattern == '*') pattern++;`
skip_stars : Bytes → Bytes
skip_stars [] = []
skip_stars (x ∷ p) = elim (x == b'*') [ true ↦ skip_stars p | false ↦ x ∷ p ]

-- The test behind the loop: the pattern holds nothing but stars.
only_stars : Bytes → Bool
only_stars [] = true
only_stars (x ∷ p) = elim (x == b'*') [ true ↦ only_stars p | false ↦ false ]

-- The inner loop: the rest of the pattern is tried at every byte that is left.
retry : (Bytes → Bool) → Bytes → Bool
retry attempt [] = false
retry attempt (c ∷ t) = elim (attempt (c ∷ t)) [ true ↦ true | false ↦ retry attempt t ]

-- A star before the pattern `p`, whose stars are collapsed.
star_then : (Bytes → Bytes → Bool) → Bytes → Bytes → Bool
unfolding retry
star_then match [] t = true
star_then match (x ∷ p) t = retry (match (x ∷ p)) t

match_fuel : ℕ → Bytes → Bytes → Bool
unfolding star_then skip_stars only_stars same_letter
match_fuel zero p t = false
match_fuel (suc f) p [] = only_stars p
match_fuel (suc f) [] (c ∷ t) = false
match_fuel (suc f) (x ∷ p) (c ∷ t) = elim (x == b'*') [
  | true ↦ star_then (match_fuel f) (skip_stars p) (c ∷ t)
  | false ↦ elim (same_letter x c) [ true ↦ match_fuel f p t | false ↦ false ]
]

unfoldable pub wildcard_match : Bytes → Bytes → Bool
unfolding match_fuel
wildcard_match pattern text = match_fuel (length pattern + 1) pattern text
