-- ===== src/Pattern/Port.antt =====
-- Windows/src/pb_rules.c: `match_port_pattern` and `match_port_list`.
use proxy_bridge.Prelude.{
  ℕ, Bool, true, ◌&&◌, Option, none, some, if◌then◌else◌, Bytes, codes, equal,
}
use proxy_bridge.Prelude.Int.{leb_int, geb_int, eq_int}
use proxy_bridge.CText.{behind}
use proxy_bridge.CText.Number.{atoi}
use proxy_bridge.Pattern.TokenList.{parse_token_list}

-- On the text behind the first dash, if there is one.
port_by_dash : Bytes → ℕ → Option Bytes → Bool
port_by_dash pattern port none = eq_int port (atoi pattern)
port_by_dash pattern port (some end) = geb_int port (atoi pattern) && leb_int port (atoi end)

unfoldable pub match_port_pattern : Option Bytes → ℕ → Bool
unfolding port_by_dash
match_port_pattern none port = true
match_port_pattern (some pattern) port =
    if equal pattern (codes "*") then true else port_by_dash pattern port (behind pattern b'-')

unfoldable pub match_port_list : (ℕ → Bool) → Option Bytes → ℕ → Bool
match_port_list malloc port_list port =
    parse_token_list malloc port_list (codes ",;") (λ token. match_port_pattern (some token) port)
