-- ===== src/Decision.antt =====
-- Windows/src/pb_rules.c: the decision on one connection, `check_process_rule` for IPv4 and
-- `check_process_rule_v6` for IPv6.
pub mod Owner
pub mod FailClosed
use proxy_bridge.Prelude.{
  ℕ, zero, suc, ◌/◌, ◌^◌, Bool, true, false, not, ◌&&◌, ◌||◌, List, [], ◌∷◌, ◌++◌, Option, none,
  some, leb, ◌==◌, if◌then◌else◌, Bytes, equal, replicate, take, get_or, is_empty,
}
use proxy_bridge.Pattern.Ipv4.{big_endian}
use proxy_bridge.Rules.{RuleAction, proxy, direct, block}
use proxy_bridge.Rules.Walk.{Match, RuleTable, match_rule, match_rule_v6}
use proxy_bridge.Proxy.{ProxyConfig, ProxyStore, find_proxy_config, is_socks5}

-- `ntohl(ip) >> 24 == 127`.
unfoldable pub is_loopback_v4 : ℕ → Bool
is_loopback_v4 ip = big_endian ip / 2 ^ 24 == 127

-- `::1`, or an address of 127.0.0.0/8 that is mapped to IPv6.
unfoldable pub is_loopback_v6 : Bytes → Bool
is_loopback_v6 ip =
    equal ip (replicate 15 0 ++ 1 ∷ [])
    || (equal (take 12 ip) (replicate 10 0 ++ 255 ∷ 255 ∷ []) && get_or ip 12 0 == 127)

-- `g_loopback_bypass_enabled`, `g_fail_closed_on_unknown_owner` and `g_current_process_id`.
pub record Policy : Type 0 where
  pub loopback_bypass : Bool
  pub fail_closed : Bool
  pub current_process : ℕ

-- What a call returns, with what it stores through `out_pid` and `out_proxy_config_id`.
pub record Decision : Type 0 where
  pub action : RuleAction
  pub pid : ℕ
  pub proxy_config_id : ℕ

abbrev pub unresolved : Policy → RuleAction
unresolved policy = if policy.fail_closed then block else direct

-- The proxy of a PROXY verdict cannot carry the flow.
unfoldable pub is_unfit : Bool → Option ProxyConfig → Bool
is_unfit is_udp none = true
is_unfit is_udp (some cfg) =
    is_empty cfg.host || cfg.port == 0 || (is_udp && not (is_socks5 cfg.type))

-- The tests of the proxy that follow a match.
unfoldable pub checked : ProxyStore → Bool → ℕ → Match → Decision
checked proxies is_udp pid (proxy, id) =
    if is_unfit is_udp (find_proxy_config proxies id)
    then record { action = block; pid = pid; proxy_config_id = 0 }
    else record { action = proxy; pid = pid; proxy_config_id = id }
checked proxies is_udp pid (direct, id) = record {
  action = direct;
  pid = pid;
  proxy_config_id = id;
}
checked proxies is_udp pid (block, id) = record { action = block; pid = pid; proxy_config_id = id }

unfoldable pub named : Policy → ProxyStore → Bool → (Bytes → Match) → ℕ → Option Bytes → Decision
named policy proxies is_udp match_name pid none = record {
  action = unresolved policy;
  pid = pid;
  proxy_config_id = 0;
}
named policy proxies is_udp match_name pid (some process_name) =
    checked proxies is_udp pid (match_name process_name)

-- What the two calls share. `process_name` is what `get_process_name_from_pid` gives.
unfoldable pub decide :
    Policy → ProxyStore → Bool → Bool → ℕ → (ℕ → Option Bytes) → (Bytes → Match) → Decision
decide policy proxies is_udp is_loopback pid process_name match_name =
    if policy.loopback_bypass && is_loopback
    then record { action = direct; pid = 0; proxy_config_id = 0 }
    else if pid == 0
    then record { action = unresolved policy; pid = pid; proxy_config_id = 0 }
    else if pid == policy.current_process
    then record { action = direct; pid = pid; proxy_config_id = 0 }
    else named policy proxies is_udp match_name pid (process_name pid)

-- `pid` is what the owner lookup gives, which runs behind the test for loopback.
unfoldable pub check_process_rule :
    Policy
    → ProxyStore
    → RuleTable
    → Option Bytes
    → (ℕ → Option Bytes)
    → ℕ
    → ℕ
    → ℕ
    → ℕ
    → Bool
    → Decision
check_process_rule policy proxies table lookup process_name pid src_ip dest_ip dest_port is_udp =
    decide policy proxies is_udp (is_loopback_v4 src_ip && is_loopback_v4 dest_ip) pid process_name
      (λ process. match_rule table lookup process dest_ip dest_port is_udp)

unfoldable pub check_process_rule_v6 :
    (Bytes → Option Bytes)
    → Policy
    → ProxyStore
    → RuleTable
    → Option Bytes
    → (ℕ → Option Bytes)
    → ℕ
    → Bytes
    → Bytes
    → ℕ
    → Bool
    → Decision
check_process_rule_v6 inet_pton policy proxies table lookup process_name pid src_ip6 dest_ip6
      dest_port is_udp =
    decide policy proxies is_udp (is_loopback_v6 src_ip6 && is_loopback_v6 dest_ip6) pid
      process_name
      (λ process. match_rule_v6 inet_pton table lookup process dest_ip6 dest_port is_udp)
