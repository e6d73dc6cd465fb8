-- ===== src/Tests/Patterns.antt =====
-- Windows/src/pb_rules.c: the pattern matchers on small inputs.
use proxy_bridge.Prelude.{ℕ, Bool, true, false, ◌≡◌, ◌↔◌, ◌⊎◌, refl, none, some, codes, ◌+◌, ◌*◌}
use proxy_bridge.CText.Tokens.{tokens}
use proxy_bridge.Pattern.TokenList.{
  unrestricted, parse_token_list, list_copy, any_token, skip_whitespace,
}
use proxy_bridge.CText.{equal_fold, behind_last, behind, before, contains}
use proxy_bridge.CText.Number.{atoi, scan_int, scan_dot}
use proxy_bridge.Pattern.Wildcard.{wildcard_match}
use proxy_bridge.Pattern.Wildcard.Matches.{Matches, wildcard_match_iff}
use proxy_bridge.Pattern.Port.{match_port_list, match_port_pattern}
use proxy_bridge.Pattern.Ipv4.{match_ip_pattern, scan_address, big_endian}
use proxy_bridge.Pattern.Process.{match_process_list, match_process_pattern, clean_process}
use proxy_bridge.Pattern.Domain.{match_domain_list, match_domain_pattern}
use proxy_bridge.Pattern.Domain.Apex.{Apex, match_domain_pattern_iff}

program : Unit {0}
unfolding match_port_list match_ip_pattern match_process_list match_domain_list unrestricted
    parse_token_list any_token list_copy tokens match_process_pattern clean_process skip_whitespace
    wildcard_match behind behind_last before equal_fold atoi scan_int scan_dot scan_address
    big_endian match_port_pattern contains
program = tt

abbrev plenty : ℕ → Bool
plenty n = true

ports : match_port_list plenty (some (codes "80; 443,8000-9000")) 8080 ≡ true
unfolding program
ports = refl

-- 10.1.2.3, the first octet lowest.
abbrev address : ℕ
address = 10 + 1 * 256 + 2 * 65536 + 3 * 16777216

addresses :
    (match_ip_pattern (some (codes "10.1.*.3")) address ≡ true)
    × (match_ip_pattern (some (codes "10.1.2")) address ≡ false)
    × (match_ip_pattern (some (codes "10.1.2.3.4")) address ≡ true)
    × (match_ip_pattern (some (codes "10.0.0.0-10.1.2.4")) address ≡ true)
    × (match_ip_pattern (some (codes "10.0.0.0-10.1.2.2")) address ≡ false)
unfolding program
addresses = (refl, refl, refl, refl, refl)

processes :
    (match_process_list plenty (some (codes "fire*.exe; \"chrome.exe\"")) (codes "C:\\CHROME.exe")
      ≡ true)
    × (match_process_list plenty (some (codes "C:\\a\\*")) (codes "c:\\A\\b.exe") ≡ true)
    × (match_process_list plenty (some (codes "a.exe")) (codes "C:\\b.exe") ≡ false)
unfolding program
processes = (refl, refl, refl)

domains :
    (match_domain_list plenty (some (codes "*.google.com")) (some (codes "google.com")) ≡ true)
    × (match_domain_list plenty (some (codes "*.google.com")) (some (codes "a.GOOGLE.com")) ≡ true)
    × (match_domain_list plenty (some (codes "google.com")) (some (codes "a.google.com")) ≡ false)
    × (match_domain_list plenty (some (codes "google.com")) none ≡ false)
unfolding program
domains = (refl, refl, refl, refl)

wildcard_match_iff_example :
    (wildcard_match (codes "*A*b") (codes "xaxB") ≡ true) ↔ Matches (codes "*A*b") (codes "xaxB")
wildcard_match_iff_example = wildcard_match_iff (codes "*A*b") (codes "xaxB")

match_domain_pattern_iff_example :
    (match_domain_pattern (some (codes "*.google.com")) (some (codes "Google.com")) ≡ true) ↔ (
      Matches (codes "*.google.com") (codes "Google.com")
      ⊎ Apex (codes "*.google.com") (codes "Google.com"))
unfolding program
match_domain_pattern_iff_example =
    match_domain_pattern_iff (codes "*.google.com") (codes "Google.com") refl refl
