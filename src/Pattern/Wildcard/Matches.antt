-- ===== src/Pattern/Wildcard/Matches.antt =====
-- What it means for a text to match a wildcard pattern, with no search order in it, and the proof
-- that `wildcard_match` decides it.
use proxy_bridge.Prelude.{
  ℕ, zero, suc, ◌+◌, ◌<◌, ◌≤◌, Bool, true, false, ◌≡◌, refl, ap, subst, ◌↔◌, inl, inr, [], ◌∷◌,
  ◌==◌, Bytes, length, Bool-cases, arith,
}
use proxy_bridge.CText.{same_letter}
use proxy_bridge.Pattern.Wildcard.{
  skip_stars, only_stars, retry, star_then, match_fuel, wildcard_match,
}

pub data Matches : Bytes → Bytes → Type 0 where
  empty : Matches [] []
  byte :
      {x c : ℕ} {p t : Bytes}
      → (x == b'*') ≡ false
      → same_letter x c ≡ true
      → Matches p t
      → Matches (x ∷ p) (c ∷ t)
  leave : {x : ℕ} {p t : Bytes} → (x == b'*') ≡ true → Matches p t → Matches (x ∷ p) t
  take : {x c : ℕ} {p t : Bytes} → (x == b'*') ≡ true → Matches (x ∷ p) t → Matches (x ∷ p) (c ∷ t)

-- A star matches any text, so it may be put before a pattern or swapped for another star.
star_all : {x : ℕ} {p : Bytes} (t : Bytes) → (x == b'*') ≡ true → Matches p [] → Matches (x ∷ p) t
star_all [] s d = leave s d
star_all (c ∷ t) s d = take s (star_all t s d)

merge_stars :
    {x y : ℕ} {p t : Bytes} → (y == b'*') ≡ true → Matches (x ∷ y ∷ p) t → Matches (y ∷ p) t
merge_stars s (byte n e d) = take s d
merge_stars s (leave r d) = d
merge_stars s (take r d) = take s (merge_stars s d)

star_swap :
    {x y : ℕ} {p t : Bytes}
    → (x == b'*') ≡ true
    → (y == b'*') ≡ true
    → Matches (x ∷ p) t
    → Matches (y ∷ p) t
star_swap s r (byte n e d) = cc
star_swap s r (leave _ d) = leave r d
star_swap s r (take _ d) = take r (star_swap s r d)

skip_stars-sound :
    {x : ℕ} (p : Bytes) {t : Bytes}
    → (x == b'*') ≡ true
    → Matches (x ∷ skip_stars p) t
    → Matches (x ∷ p) t
unfolding skip_stars
skip_stars-sound [] s d = d
skip_stars-sound (y ∷ p) s d = elim (Bool-cases (y == b'*')) [
  | inl e ↦ leave s (star_swap s e (skip_stars-sound p s (rw (e, skip_stars) at d)))
  | inr e ↦ rw (e, skip_stars) at d
]

skip_stars-complete :
    {x : ℕ} (p : Bytes) {t : Bytes}
    → (x == b'*') ≡ true
    → Matches (x ∷ p) t
    → Matches (x ∷ skip_stars p) t
unfolding skip_stars
skip_stars-complete [] s d = d
skip_stars-complete (y ∷ p) s d = elim (Bool-cases (y == b'*')) [
  | inl e ↦ rw (e, skip_stars) (skip_stars-complete p s (star_swap e s (merge_stars e d)))
  | inr e ↦ rw (e, skip_stars) d
]

-- Where no star is left to collapse, the pattern begins with a plain byte.
skip_stars_head : (p : Bytes) {y : ℕ} {q : Bytes} → skip_stars p ≡ y ∷ q → (y == b'*') ≡ false
unfolding skip_stars
skip_stars_head [] e = cc
skip_stars_head (x ∷ p) e = elim (Bool-cases (x == b'*')) [
  | inl s ↦ skip_stars_head p (rw (s, skip_stars) at e)
  | inr s ↦ ground (arith, s, e)
]

length-skip_stars : (p : Bytes) → length (skip_stars p) ≤ length p
unfolding skip_stars
length-skip_stars [] = omega arith
length-skip_stars (x ∷ p) = ground (arith, length-skip_stars p)

only_stars-sound : (p : Bytes) → only_stars p ≡ true → Matches p []
unfolding only_stars
only_stars-sound [] h = empty
only_stars-sound (x ∷ p) h = elim (Bool-cases (x == b'*')) [
  | inl e ↦ leave e (only_stars-sound p (rw (e, only_stars) at h))
  | inr e ↦ cc (rw (e, only_stars) at h)
]

only_stars_complete : {p : Bytes} → Matches p [] → only_stars p ≡ true
unfolding only_stars
only_stars_complete empty = refl
only_stars_complete (leave s d) = rw (s, only_stars) (only_stars_complete d)

module _ {x : ℕ} {p : Bytes} (s : (x == b'*') ≡ true) (attempt : Bytes → Bool) where
  retry-sound :
      ((t : Bytes) → attempt t ≡ true → Matches p t)
      → (t : Bytes) → retry attempt t ≡ true
      → Matches (x ∷ p) t
  unfolding retry
  retry-sound sound [] h = cc
  retry-sound sound (c ∷ t) h = elim (Bool-cases (attempt (c ∷ t))) [
    | inl e ↦ leave s (sound (c ∷ t) e)
    | inr e ↦ take s (retry-sound sound t (rw (e, retry) at h))
  ]

-- A plain pattern needs a byte, so the inner loop finds where it begins.
retry_complete :
    {x y : ℕ} {p t : Bytes} (attempt : Bytes → Bool)
    → (y == b'*') ≡ false
    → (x == b'*') ≡ true
    → ((t : Bytes) → Matches (y ∷ p) t → attempt t ≡ true)
    → Matches (x ∷ y ∷ p) t
    → retry attempt t ≡ true
unfolding retry
retry_complete attempt n s complete (byte m e d) = cc
retry_complete attempt n s complete (leave r (byte m e d)) = rw (complete _ (byte m e d), retry)
retry_complete attempt n s complete (leave r (leave q d)) = cc
retry_complete attempt n s complete (leave r (take q d)) = cc
retry_complete attempt n s complete (take {c} {t} r d) = elim (Bool-cases (attempt (c ∷ t))) [
  | inl e ↦ rw (e, retry)
  | inr e ↦ rw (e, retry) (retry_complete attempt n s complete d)
]

star_then-sound :
    {x : ℕ} (match : Bytes → Bytes → Bool) (p t : Bytes)
    → (x == b'*') ≡ true
    → ((q u : Bytes) → match q u ≡ true → Matches q u)
    → star_then match p t ≡ true
    → Matches (x ∷ p) t
unfolding star_then
star_then-sound match [] t s sound h = star_all t s empty
star_then-sound match (y ∷ p) t s sound h = retry-sound s (match (y ∷ p)) (sound (y ∷ p)) t h

match_fuel-sound : (f : ℕ) (p t : Bytes) → match_fuel f p t ≡ true → Matches p t
unfolding match_fuel
match_fuel-sound zero p t h = cc
match_fuel-sound (suc f) [] [] h = empty
match_fuel-sound (suc f) (x ∷ p) [] h = only_stars-sound (x ∷ p) h
match_fuel-sound (suc f) [] (c ∷ t) h = cc
match_fuel-sound (suc f) (x ∷ p) (c ∷ t) h = elim (Bool-cases (x == b'*')) [
  | inl s ↦ skip_stars-sound p s (
      star_then-sound (match_fuel f) (skip_stars p) (c ∷ t) s (match_fuel-sound f)
        (rw (s, match_fuel) at h))
  | inr n ↦ elim (Bool-cases (same_letter x c)) [
    | inl e ↦ byte n e (match_fuel-sound f p t (rw (n, match_fuel, e) at h))
    | inr e ↦ cc (rw (n, match_fuel, e) at h)
  ]
]

byte_inv :
    {x c : ℕ} {p t : Bytes}
    → (x == b'*') ≡ false
    → Matches (x ∷ p) (c ∷ t)
    → (same_letter x c ≡ true) × Matches p t
byte_inv n (byte m e d) = (e, d)
byte_inv n (leave s d) = absurd (cc)
byte_inv n (take s d) = absurd (cc)

-- The star case, for a matcher that is complete on patterns no longer than `p`.
star_then_complete :
    {x : ℕ} (match : Bytes → Bytes → Bool) (p t : Bytes)
    → (x == b'*') ≡ true
    → ((q u : Bytes) → length q ≤ length p → Matches q u → match q u ≡ true)
    → Matches (x ∷ p) t
    → star_then match (skip_stars p) t ≡ true
star_then_complete {x} match p t s complete d = go (skip_stars p) refl
  where
    go : (q : Bytes) → skip_stars p ≡ q → star_then match q t ≡ true
    go [] e = unfold star_then in refl
    go (y ∷ q) e =
        unfold star_then in
        retry_complete (match (y ∷ q)) (skip_stars_head p e) s
          (λ u. complete (y ∷ q) u (omega (arith, length-skip_stars p, ap length e)))
          (subst (λ r. Matches (x ∷ r) t) e (skip_stars-complete p s d))

match_fuel_complete : (f : ℕ) (p t : Bytes) → length p < f → Matches p t → match_fuel f p t ≡ true
unfolding match_fuel
match_fuel_complete zero p t h d = absurd (omega arith)
match_fuel_complete (suc f) [] [] h d = refl
match_fuel_complete (suc f) (x ∷ p) [] h d = only_stars_complete d
match_fuel_complete (suc f) [] (c ∷ t) h d = elim d [ ]
match_fuel_complete (suc f) (x ∷ p) (c ∷ t) h d = elim (Bool-cases (x == b'*')) [
  | inl s ↦
      rw (s, match_fuel)
        (star_then_complete (match_fuel f) p (c ∷ t) s
          (λ q u shorter. match_fuel_complete f q u (omega arith)) d)
  | inr n ↦
      let (e, rest) = byte_inv n d in
      rw (n, match_fuel, e) (match_fuel_complete f p t (omega arith) rest)
]

-- `wildcard_match` answers true exactly on the texts that match, for every pattern and text; the
-- depth of its recursion is bounded by the length of the pattern.
pub wildcard_match_iff :
    (pattern text : Bytes) → (wildcard_match pattern text ≡ true) ↔ Matches pattern text
unfolding wildcard_match
wildcard_match_iff p t =
    (match_fuel-sound (length p + 1) p t, match_fuel_complete (length p + 1) p t (omega arith))
