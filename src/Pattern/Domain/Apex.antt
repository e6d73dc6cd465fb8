-- ===== src/Pattern/Domain/Apex.antt =====
-- Windows/src/pb_rules.c: which names a domain pattern stands for, with no search order in it.
use proxy_bridge.Prelude.{
  Bool, true, false, ◌&&◌, ◌≡◌, refl, sym, ap₂, subst, ◌↔◌, ◌⊎◌, inl, inr, [], ◌∷◌, some, ◌==◌,
  ==_iff, Bytes, is_empty, arith, Bool-cases,
}
use proxy_bridge.CText.{equal_fold, contains}
use proxy_bridge.Pattern.TokenList.{unrestricted}
use proxy_bridge.Pattern.Wildcard.{wildcard_match}
use proxy_bridge.Pattern.Wildcard.Matches.{Matches, empty, byte, leave, take, wildcard_match_iff}
use proxy_bridge.Pattern.Domain.{is_apex, match_name, match_domain_pattern, unknown}

equal_fold-Matches : (p t : Bytes) → contains p b'*' ≡ false → equal_fold p t ≡ true → Matches p t
unfolding contains equal_fold
equal_fold-Matches [] [] n e = empty
equal_fold-Matches [] (c ∷ t) n e = cc
equal_fold-Matches (x ∷ p) [] n e = cc
equal_fold-Matches (x ∷ p) (c ∷ t) n e =
    byte (ground arith) (ground arith) (equal_fold-Matches p t (ground arith) (ground arith))

Matches-equal_fold : (p t : Bytes) → contains p b'*' ≡ false → Matches p t → equal_fold p t ≡ true
unfolding contains equal_fold
Matches-equal_fold [] [] n empty = refl
Matches-equal_fold [] (c ∷ t) n d = elim d [ ]
Matches-equal_fold (x ∷ p) (c ∷ t) n (byte s l d) =
    let ih = Matches-equal_fold p t (ground arith) d in ground arith
Matches-equal_fold (x ∷ p) t n (leave s d) = absurd (ground arith)
Matches-equal_fold (x ∷ p) (c ∷ t) n (take s d) = absurd (ground arith)

-- The pattern is `*.rest`, and the name is `rest` itself, up to the case of letters.
pub record Apex (pattern domain : Bytes) : Type 0 where
  pub rest : Bytes
  pub starred : pattern ≡ b'*' ∷ b'.' ∷ rest
  pub not_empty : is_empty rest ≡ false
  pub same : equal_fold rest domain ≡ true

apex_parts : (a b c : Bool) → (a && b && c) ≡ true → (a ≡ true) × (b ≡ true) × (c ≡ true)
apex_parts a b c h = (ground arith, ground arith, ground arith)

is_apex-Apex : (p d : Bytes) → is_apex p d ≡ true → Apex p d
unfolding is_apex
is_apex-Apex [] d e = cc
is_apex-Apex (x ∷ []) d e = cc
is_apex-Apex (x ∷ y ∷ []) d e = cc
is_apex-Apex (x ∷ y ∷ z ∷ r) d e =
    let (a, b, c) = apex_parts (x == b'*') (y == b'.') (equal_fold (z ∷ r) d) e in
    record {
      rest = z ∷ r;
      starred = ap₂ (λ i j. i ∷ j ∷ z ∷ r) ((==_iff x b'*').0 a) ((==_iff y b'.').0 b);
      not_empty = refl;
      same = c;
    }

apex_is :
    (r d : Bytes) → is_empty r ≡ false → equal_fold r d ≡ true → is_apex (b'*' ∷ b'.' ∷ r) d ≡ true
unfolding is_apex
apex_is [] d n e = cc
apex_is (z ∷ r) d n e = e

Apex-is_apex : (p d : Bytes) → Apex p d → is_apex p d ≡ true
Apex-is_apex p d a =
    subst (λ q. is_apex q d ≡ true) (sym a.starred) (apex_is a.rest d a.not_empty a.same)

name_by :
    (p d : Bytes)
    → is_apex p d ≡ false
    → contains p b'*' ≡ true
    → match_name p d ≡ true
    → wildcard_match p d ≡ true
unfolding match_name
name_by p d a s = rw (a, s) (λ e. e)

name_plain :
    (p d : Bytes)
    → is_apex p d ≡ false
    → contains p b'*' ≡ false
    → match_name p d ≡ true
    → equal_fold p d ≡ true
unfolding match_name
name_plain p d a s = rw (a, s) (λ e. e)

match_name-Matches : (p d : Bytes) → (match_name p d ≡ true) ↔ (Matches p d ⊎ Apex p d)
unfolding match_name
match_name-Matches p d = elim (Bool-cases (is_apex p d)) [
  | inl a ↦ (λ e. inr (is_apex-Apex p d a), λ e. rw a refl)
  | inr a ↦ elim (Bool-cases (contains p b'*')) [
    | inl s ↦ (
      λ e. inl ((wildcard_match_iff p d).0 (name_by p d a s e)),
      λ e.
          rw (a, s)
            (elim e [ inl m ↦ (wildcard_match_iff p d).1 m | inr x ↦ cc (Apex-is_apex p d x) ]),
    )
    | inr s ↦ (
      λ e. inl (equal_fold-Matches p d s (name_plain p d a s e)),
      λ e.
          rw (a, s)
            (elim e [ inl m ↦ Matches-equal_fold p d s m | inr x ↦ cc (Apex-is_apex p d x) ]),
    )
  ]
]

-- A domain pattern that restricts names accepts a name that is known exactly where the name matches
-- it as a wildcard pattern, or the pattern is `*.rest` and the name is `rest` itself, in either
-- case of letters.
pub match_domain_pattern_iff :
    (pattern domain : Bytes)
    → unrestricted (some pattern) ≡ false
    → is_empty domain ≡ false
    → (match_domain_pattern (some pattern) (some domain) ≡ true)
      ↔ (Matches pattern domain ⊎ Apex pattern domain)
unfolding match_domain_pattern unknown
match_domain_pattern_iff pattern domain r k = rw (r, k) (match_name-Matches pattern domain)
