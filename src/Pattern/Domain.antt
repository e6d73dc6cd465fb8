-- ===== src/Pattern/Domain.antt =====
-- Windows/src/pb_rules.c: `match_domain_pattern` and `match_domain_list`.
pub mod Apex
use proxy_bridge.Prelude.{
  ℕ, Bool, true, false, not, ◌&&◌, ◌∷◌, Option, none, some, ◌==◌, if◌then◌else◌, Bytes, codes,
  is_empty,
}
use proxy_bridge.CText.{equal_fold, contains}
use proxy_bridge.Pattern.Process.{trim_end}
use proxy_bridge.Pattern.TokenList.{skip_whitespace, unrestricted, list_copy, any_token}
use proxy_bridge.Pattern.Wildcard.{wildcard_match}

-- No name is known: the pointer is NULL or the text empty.
unfoldable pub unknown : Option Bytes → Bool
unknown none = true
unknown (some domain) = is_empty domain

-- The rest of a pattern `*.rest` is the whole name.
is_apex : Bytes → Bytes → Bool
is_apex (x ∷ y ∷ z ∷ rest) domain = x == b'*' && y == b'.' && equal_fold (z ∷ rest) domain
is_apex _ domain = false

-- The tests behind the guards, on a pattern and a name that are there.
unfoldable pub match_name : Bytes → Bytes → Bool
unfolding is_apex
match_name pattern domain =
    if is_apex pattern domain
    then true
    else if contains pattern b'*'
    then wildcard_match pattern domain
    else equal_fold pattern domain

unfoldable pub match_domain_pattern : Option Bytes → Option Bytes → Bool
unfolding match_name unknown
match_domain_pattern none domain = true
match_domain_pattern (some pattern) none = unrestricted (some pattern)
match_domain_pattern (some pattern) (some domain) =
    if unrestricted (some pattern)
    then true
    else if unknown (some domain)
    then false
    else match_name pattern domain

-- The test of one token.
match_domain_token : Bytes → Bytes → Bool
unfolding match_domain_pattern
match_domain_token domain token =
    let t = trim_end (skip_whitespace token) in
    not (is_empty t) && match_domain_pattern (some t) (some domain)

unfoldable pub match_domain_list : (ℕ → Bool) → Option Bytes → Option Bytes → Bool
unfolding match_domain_token unknown
match_domain_list malloc none domain = true
match_domain_list malloc (some domain_list) none = unrestricted (some domain_list)
match_domain_list malloc (some domain_list) (some domain) =
    if unrestricted (some domain_list)
    then true
    else if unknown (some domain)
    then false
    else any_token (codes ",;") (match_domain_token domain) (list_copy malloc domain_list)
