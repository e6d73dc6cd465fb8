-- ===== src/Pattern/Process.antt =====
-- Windows/src/pb_rules.c: `match_process_pattern` and `match_process_list`.
use proxy_bridge.Prelude.{
  ℕ, Bool, true, ◌&&◌, ◌||◌, [], ◌∷◌, Option, none, some, ltb, ◌==◌, if◌then◌else◌, Bytes, codes,
  length, equal,
}
use proxy_bridge.CText.{equal_fold, contains, before, behind_last, is_blank}
use proxy_bridge.Pattern.TokenList.{skip_whitespace, unrestricted, list_copy, any_token}
use proxy_bridge.Pattern.Wildcard.{wildcard_match}

-- Backslash.
abbrev pub backslash : ℕ
backslash = 92

-- The part of a path behind its last backslash, or all of it.
unfoldable pub filename : Bytes → Bytes
filename path = elim (behind_last path backslash) [ some name ↦ name | none ↦ path ]

-- The text that a pattern is held against: the path if the pattern has a separator.
unfoldable pub match_target : Bytes → Bytes → Bytes
unfolding filename
match_target pattern path =
    if contains pattern backslash || contains pattern b'/' then path else filename path

unfoldable pub match_process_pattern : Option Bytes → Bytes → Bool
unfolding match_target
match_process_pattern none process_full_path = true
match_process_pattern (some pattern) process_full_path =
    let target = match_target pattern process_full_path in
    if equal pattern (codes "*")
    then true
    else if contains pattern b'*'
    then wildcard_match pattern target
    else equal_fold pattern target

-- The text without the spaces and tabs at its end.
unfoldable pub trim_end : Bytes → Bytes
trim_end [] = []
trim_end (c ∷ cs) = elim (trim_end cs) [
  | [] ↦ if is_blank c then [] else c ∷ []
  | d ∷ ds ↦ c ∷ d ∷ ds
]

-- The loop `while (end > token && …)` keeps the first byte.
trim_tail : Bytes → Bytes
unfolding trim_end
trim_tail [] = []
trim_tail (c ∷ cs) = c ∷ trim_end cs

-- A text in double quotes stands for what is between them.
unquote : Bytes → Bytes
unquote [] = []
unquote (c ∷ cs) = if c == b'"' && ltb 1 (length (c ∷ cs)) then before cs b'"' else c ∷ cs

unfoldable pub clean_process : Bytes → Bytes
unfolding trim_tail unquote
clean_process token = unquote (trim_tail (skip_whitespace token))

unfoldable pub match_process_list : (ℕ → Bool) → Option Bytes → Bytes → Bool
match_process_list malloc none process_name = true
match_process_list malloc (some process_list) process_name =
    if unrestricted (some process_list)
    then true
    else any_token (codes ",;")
        (λ token. match_process_pattern (some (clean_process token)) process_name)
        (list_copy malloc process_list)
