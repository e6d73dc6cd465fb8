-- ===== src/Rules/Walk.antt =====
-- Windows/src/pb_rules.c: `match_rule_inner` and `match_rule_v6_inner`. The caller holds the rules
-- lock for the whole walk, so the list is one value.
pub mod FirstMatch
pub mod Dns
use proxy_bridge.Prelude.{ℕ, Bool, List, [], ◌∷◌, Option, none, some, Bytes, if◌then◌else◌}
use proxy_bridge.Pattern.Ipv4.{match_ip_list}
use proxy_bridge.Pattern.Ipv6.{match_ip_list_v6}
use proxy_bridge.Rules.{RuleAction, direct, ProcessRule, Flow, Verdict, skip, keep, hit, judge}

-- The action of a match, and `*out_proxy_config_id`.
abbrev pub Match : Type 0
Match = RuleAction × ℕ

abbrev pub verdict_of : ProcessRule → Match
verdict_of rule = (rule.action, rule.proxy_config_id)

-- What is left to say when no rule was hit.
abbrev pub fallback : Option ProcessRule → Match
fallback none = (direct, 0)
fallback (some rule) = verdict_of rule

-- The first rule without filters is the one that is kept.
abbrev pub first_kept : Option ProcessRule → ProcessRule → Option ProcessRule
first_kept none rule = some rule
first_kept (some wildcard_rule) rule = some wildcard_rule

-- The loop over the list, with `wildcard_rule`.
unfoldable pub walk : Flow → Option ProcessRule → List ProcessRule → Match
walk flow wildcard_rule [] = fallback wildcard_rule
walk flow wildcard_rule (rule ∷ rules) = elim (judge flow rule) [
  | skip ↦ walk flow wildcard_rule rules
  | keep ↦ walk flow (first_kept wildcard_rule rule) rules
  | hit ↦ verdict_of rule
]

-- The globals that the matchers read: the list, the flags, and what the DNS cache answers.
pub record RuleTable : Type 0 where
  pub rules : List ProcessRule
  pub has_domain_rules : Bool
  pub proxy_udp_dns : Bool
  pub malloc : ℕ → Bool

-- `lookup` is `dns_cache_lookup` at the destination.
unfoldable pub match_rule : RuleTable → Option Bytes → Bytes → ℕ → ℕ → Bool → Match
match_rule table lookup process dest_ip dest_port is_udp =
    walk
      (record {
        hosts = λ list. match_ip_list table.malloc (some list) dest_ip;
        process = process;
        dest_port = dest_port;
        is_udp = is_udp;
        domain = if table.has_domain_rules then lookup else none;
        proxy_udp_dns = table.proxy_udp_dns;
        malloc = table.malloc;
      })
      none table.rules

-- `lookup` is `dns_cache_lookup_v6` at the destination.
unfoldable pub match_rule_v6 :
    (Bytes → Option Bytes) → RuleTable → Option Bytes → Bytes → Bytes → ℕ → Bool → Match
match_rule_v6 inet_pton table lookup process dest_ip6 dest_port is_udp =
    walk
      (record {
        hosts = λ list. match_ip_list_v6 inet_pton table.malloc (some list) dest_ip6;
        process = process;
        dest_port = dest_port;
        is_udp = is_udp;
        domain = if table.has_domain_rules then lookup else none;
        proxy_udp_dns = table.proxy_udp_dns;
        malloc = table.malloc;
      })
      none table.rules
