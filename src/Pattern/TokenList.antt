-- ===== src/Pattern/TokenList.antt =====
-- Windows/src/pb_util.c: `parse_token_list`, the loop that the host and port lists share, and the
-- copy of a list that each matcher makes.
use proxy_bridge.Prelude.{
  ℕ, ◌+◌, Bool, true, false, ◌||◌, [], ◌∷◌, Option, none, some, leb, if◌then◌else◌, Bytes, codes,
  length, take, any, is_empty, equal,
}
use proxy_bridge.CText.{is_blank}
use proxy_bridge.CText.Tokens.{tokens}

abbrev pub max_list_size : ℕ
max_list_size = 65536

-- `skip_whitespace`.
unfoldable pub skip_whitespace : Bytes → Bytes
skip_whitespace [] = []
skip_whitespace (c ∷ cs) = let rest = skip_whitespace cs in if is_blank c then rest else c ∷ cs

-- The list stands for everything: it is NULL, empty or a lone star.
unfoldable pub unrestricted : Option Bytes → Bool
unrestricted none = true
unrestricted (some list) = is_empty list || equal list (codes "*")

-- The writable copy: on the stack up to 256 bytes with the NUL, and past that from `malloc`.
-- `none` where that fails.
unfoldable pub list_copy : (ℕ → Bool) → Bytes → Option Bytes
list_copy malloc list =
    let copy = take max_list_size list in
    let len = length copy + 1 in if leb len 256 || malloc len then some copy else none

-- The loop over the tokens of a copy that was made.
unfoldable pub any_token : Bytes → (Bytes → Bool) → Option Bytes → Bool
any_token delimiters match_func none = false
any_token delimiters match_func (some copy) = any match_func (tokens delimiters copy)

-- `malloc` says of each size whether the allocation succeeds.
unfoldable pub parse_token_list : (ℕ → Bool) → Option Bytes → Bytes → (Bytes → Bool) → Bool
unfolding unrestricted any_token list_copy
parse_token_list malloc none delimiters match_func = true
parse_token_list malloc (some list) delimiters match_func =
    if unrestricted (some list)
    then true
    else any_token delimiters (λ token. match_func (skip_whitespace token)) (list_copy malloc list)
