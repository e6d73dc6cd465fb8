-- ===== src/CText/Tokens.antt =====
-- Windows/src/pb_util.c, pb_rules.c: the loops over `strtok_s`.
use proxy_bridge.Prelude.{
  ℕ, ◌≡◌, refl, ap, ◌∙◌, true, false, List, [], ◌∷◌, ◌++◌, append-nil, append_assoc, inl, inr,
  arith, Bytes, All, Bool-cases, is_empty,
}
use proxy_bridge.CText.{contains}

-- The token under construction, unless it is empty: `strtok_s` returns no empty token.
flush : Bytes → List Bytes → List Bytes
flush [] rest = rest
flush (c ∷ cs) rest = (c ∷ cs) ∷ rest

split : Bytes → Bytes → Bytes → List Bytes
unfolding flush
split delimiters token [] = flush token []
split delimiters token (c ∷ cs) = elim (contains delimiters c) [
  | true ↦ flush token (split delimiters [] cs)
  | false ↦ split delimiters (token ++ c ∷ []) cs
]

-- What successive calls of `strtok_s` return: the maximal runs of bytes that are no delimiters.
unfoldable pub tokens : Bytes → Bytes → List Bytes
unfolding split contains
tokens delimiters list = split delimiters [] list

-- No byte of the text is a delimiter.
abbrev pub IsClean : Bytes → Bytes → Type 0
IsClean delimiters token = All (λ c. contains delimiters c ≡ false) token

-- A token as `strtok_s` returns it.
abbrev pub IsToken : Bytes → Bytes → Type 0
IsToken delimiters token = IsClean delimiters token × (is_empty token ≡ false)

IsClean-snoc :
    (delimiters token : Bytes) (c : ℕ)
    → IsClean delimiters token
    → contains delimiters c ≡ false
    → IsClean delimiters (token ++ c ∷ [])
IsClean-snoc d [] c h e = (e, tt)
IsClean-snoc d (x ∷ xs) c h e = (h.0, IsClean-snoc d xs c h.1 e)

flush-IsToken :
    (delimiters token : Bytes) (rest : List Bytes)
    → IsClean delimiters token
    → All (IsToken delimiters) rest
    → All (IsToken delimiters) (flush token rest)
unfolding flush
flush-IsToken d [] rest h r = r
flush-IsToken d (c ∷ cs) rest h r = ((h, refl), r)

split-IsToken :
    (delimiters token list : Bytes)
    → IsClean delimiters token
    → All (IsToken delimiters) (split delimiters token list)
unfolding split
split-IsToken d token [] h = flush-IsToken d token [] h tt
split-IsToken d token (c ∷ cs) h = elim (Bool-cases (contains d c)) [
  | inl e ↦ rw (e, split) (flush-IsToken d token _ h (split-IsToken d [] cs tt))
  | inr e ↦ rw (e, split) (split-IsToken d (token ++ c ∷ []) cs (IsClean-snoc d token c h e))
]

pub tokens-IsToken : (delimiters list : Bytes) → All (IsToken delimiters) (tokens delimiters list)
unfolding tokens
tokens-IsToken d list = split-IsToken d [] list tt

-- Texts joined by one delimiter byte.
abbrev pub join : ℕ → List Bytes → Bytes
join c [] = []
join c (t ∷ ts) = t ++ (c ∷ join c ts)

split-clean :
    (delimiters token part rest : Bytes)
    → IsClean delimiters part
    → split delimiters token (part ++ rest) ≡ split delimiters (token ++ part) rest
unfolding split
split-clean d token [] rest h = rw append-nil
split-clean d token (c ∷ part) rest h =
    rw (h.0, split) (split-clean d (token ++ c ∷ []) part rest h.1 ∙ rw append_assoc)

-- Joining tokens by a delimiter and splitting again gives the same tokens.
pub tokens-join :
    (delimiters : Bytes) (c : ℕ) (ts : List Bytes)
    → contains delimiters c ≡ true
    → All (IsToken delimiters) ts
    → tokens delimiters (join c ts) ≡ ts
unfolding tokens split flush
tokens-join d c [] e h = refl
tokens-join d c ([] ∷ ts) e h = absurd (ground arith)
tokens-join d c ((x ∷ t) ∷ ts) e h =
    split-clean d [] (x ∷ t) (c ∷ join c ts) h.0.0
    ∙ rw (e, split) (ap (◌∷◌ (x ∷ t)) (tokens-join d c ts e h.1))
