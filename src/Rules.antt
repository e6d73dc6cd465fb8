-- ===== src/Rules.antt =====
-- Windows/src/pb_internal.h, ProxyBridge.h, pb_rules.c: rules, and what one rule says of one flow.
pub mod Walk
pub mod Store
use proxy_bridge.Prelude.{
  ℕ, Bool, true, false, not, ◌&&◌, ◌||◌, List, [], ◌∷◌, Option, none, some, ◌==◌, if◌then◌else◌,
  Bytes, codes, is_empty, equal,
}
use proxy_bridge.Pattern.TokenList.{unrestricted}
use proxy_bridge.Pattern.Port.{match_port_list}
use proxy_bridge.Pattern.Process.{match_process_list}
use proxy_bridge.Pattern.Domain.{unknown, match_domain_list}

pub data RuleAction : Type 0 where
  proxy direct block : RuleAction

pub data RuleProtocol : Type 0 where
  tcp udp both : RuleProtocol

-- `PROCESS_RULE` without its link. The three lists are never NULL in a rule that is in the list.
pub record ProcessRule : Type 0 where
  pub rule_id : ℕ
  pub process_name : Bytes
  pub target_hosts : Bytes
  pub target_ports : Bytes
  pub target_domains : Bytes
  pub protocol : RuleProtocol
  pub action : RuleAction
  pub proxy_config_id : ℕ
  pub enabled : Bool

-- What a rule is held against. `hosts` is the host matcher of the address family, at the
-- destination; `domain` the name that the destination was resolved from, if it is known; `malloc`
-- says of each size whether an allocation succeeds; `proxy_udp_dns` is `g_proxy_udp_dns_enabled`.
pub record Flow : Type 0 where
  pub hosts : Bytes → Bool
  pub process : Bytes
  pub dest_port : ℕ
  pub is_udp : Bool
  pub domain : Option Bytes
  pub proxy_udp_dns : Bool
  pub malloc : ℕ → Bool

abbrev pub is_proxy : RuleAction → Bool
is_proxy proxy = true
is_proxy direct = false
is_proxy block = false

-- `rule_has_domain_filter`.
unfoldable pub rule_has_domain_filter : ProcessRule → Bool
rule_has_domain_filter rule = not (unrestricted (some rule.target_domains))

-- `match_domain_filter`.
unfoldable pub match_domain_filter : (ℕ → Bool) → ProcessRule → Option Bytes → Bool
unfolding rule_has_domain_filter
match_domain_filter malloc rule domain =
    if not (rule_has_domain_filter rule)
    then true
    else if unknown domain
    then false
    else match_domain_list malloc (some rule.target_domains) domain

-- The rule would proxy a UDP DNS query.
unfoldable pub is_proxy_udp_dns : Flow → ProcessRule → Bool
is_proxy_udp_dns flow rule = flow.is_udp && flow.dest_port == 53 && is_proxy rule.action

-- `rule->protocol` admits the flow.
abbrev pub protocol_admits : RuleProtocol → Bool → Bool
protocol_admits both is_udp = true
protocol_admits tcp is_udp = not is_udp
protocol_admits udp is_udp = is_udp

-- The rule is for any process.
unfoldable pub is_wildcard_process : ProcessRule → Bool
is_wildcard_process rule =
    equal rule.process_name (codes "*") || equal rule.process_name (codes "ANY")

-- A rule for any process that restricts hosts, ports or domains.
unfoldable pub is_filtered : ProcessRule → Bool
unfolding rule_has_domain_filter
is_filtered rule =
    not (equal rule.target_hosts (codes "*"))
    || not (equal rule.target_ports (codes "*"))
    || rule_has_domain_filter rule

-- The host, port and domain filters.
unfoldable pub filters_match : Flow → ProcessRule → Bool
filters_match flow rule =
    flow.hosts rule.target_hosts
    && match_port_list flow.malloc (some rule.target_ports) flow.dest_port
    && match_domain_filter flow.malloc rule flow.domain

-- What one turn of the loop makes of a rule: it goes on, keeps the rule for last, or returns it.
pub data Verdict : Type 0 where
  skip keep hit : Verdict

-- The guards of the loop: the rule is enabled, and admits the protocol.
unfoldable pub admits : Flow → ProcessRule → Bool
unfolding is_proxy_udp_dns
admits flow rule =
    if not rule.enabled
    then false
    else if is_proxy_udp_dns flow rule
    then flow.proxy_udp_dns
    else protocol_admits rule.protocol flow.is_udp

-- The body of the loop of `match_rule_inner`.
unfoldable pub judge : Flow → ProcessRule → Verdict
unfolding admits is_wildcard_process is_filtered
judge flow rule =
    if not (admits flow rule)
    then skip
    else if is_wildcard_process rule
    then if is_filtered rule then if filters_match flow rule then hit else skip else keep
    else if match_process_list flow.malloc (some rule.process_name) flow.process
    then if filters_match flow rule then hit else skip
    else skip
