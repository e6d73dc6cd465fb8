-- ===== src/Tests/Decision.antt =====
-- Windows/src/pb_proxy.c, pb_rules.c: configurations and decisions on small inputs.
use proxy_bridge.Prelude.{
  ℕ, ◌*◌, true, false, ◌&&◌, ◌≡◌, refl, List, [], ◌∷◌, ◌++◌, Option, none, some, Bytes, codes,
  arith, replicate, ltb, if◌then◌else◌,
}
use proxy_bridge.Rules.{proxy, both, ProcessRule, judge, rule_has_domain_filter}
use proxy_bridge.Rules.Walk.{RuleTable, walk, match_rule, match_rule_v6}
use proxy_bridge.Pattern.TokenList.{unrestricted}
use proxy_bridge.Pattern.Ipv4.{big_endian}
use proxy_bridge.Proxy.{
  http, socks5, ProxyConfig, ProxyStore, ProxyArgs, find_proxy_config, or_first,
}
use proxy_bridge.Proxy.Invariant.{ProxyInv}
use proxy_bridge.Proxy.Calls.{ProxyCall, adds, edits, deletes, calls, calls-ProxyInv}
use proxy_bridge.Decision.{
  Policy, check_process_rule, check_process_rule_v6, decide, named, checked, is_unfit,
  is_loopback_v4, is_loopback_v6,
}
use proxy_bridge.Decision.FailClosed.{
  Proxied, check_process_rule-Proxied, check_process_rule_v6-Proxied, LetThrough,
  check_process_rule-LetThrough, check_process_rule_v6-LetThrough,
}
use proxy_bridge.Decision.Owner.{Polls, Waits, poll, resolve_owner, resolve_owner-Waits}

abbrev no_proxies : ProxyStore
no_proxies = record { configs = []; next_config_id = 1; udp_generation = 1; closed = [] }

abbrev local : ProxyArgs
local = record {
  type = socks5;
  proxy_ip = some (codes "127.0.0.1");
  proxy_port = 1080;
  username = none;
  password = some [];
  send_domain_to_proxy = true;
}

abbrev resolve : ℕ → Bytes → ℕ
resolve k name = 16777343

abbrev history : List ((ℕ → Bytes → ℕ) × ProxyCall)
history =
    (resolve, adds local)
    ∷ (resolve, adds (record local { username = some (codes "me") }))
    ∷ (resolve, adds (record local { type = http }))
    ∷ (resolve, edits 1 (record local { proxy_port = 1081 }))
    ∷ (resolve, deletes 2)
    ∷ []

no_proxies-ProxyInv : ProxyInv no_proxies
no_proxies-ProxyInv = record { rising = omega arith; bounded = omega arith; usable = tt }

calls-ProxyInv_example : ProxyInv (calls no_proxies history)
calls-ProxyInv_example = calls-ProxyInv no_proxies history (omega arith) no_proxies-ProxyInv

abbrev config : ProxyConfig
config = record {
  config_id = 1;
  type = socks5;
  host = codes "127.0.0.1";
  port = 1080;
  send_domain_to_proxy = true;
  resolved_ip = 16777343;
  last_udp_attempt = 0;
  udp_tcp_ctrl = none;
  udp_send_sock = none;
  udp_connected = false;
}

abbrev one_proxy : ProxyStore
one_proxy = record no_proxies { configs = config ∷ []; next_config_id = 2 }

one_proxy-ProxyInv : ProxyInv one_proxy
one_proxy-ProxyInv = record {
  rising = (omega arith, omega arith);
  bounded = omega arith;
  usable = ((refl, omega arith), tt);
}

abbrev rule : ProcessRule
rule = record {
  rule_id = 1;
  process_name = codes "*";
  target_hosts = codes "*";
  target_ports = codes "*";
  target_domains = codes "*";
  protocol = both;
  action = proxy;
  proxy_config_id = 1;
  enabled = true;
}

abbrev table : RuleTable
table = record {
  rules = rule ∷ [];
  has_domain_rules = false;
  proxy_udp_dns = false;
  malloc = λ n. true;
}

abbrev policy : Policy
policy = record { loopback_bypass = true; fail_closed = true; current_process = 40 }

abbrev image : ℕ → Option Bytes
image pid = some (codes "a.exe")

program : Unit {0}
unfolding check_process_rule check_process_rule_v6 decide named checked is_unfit is_loopback_v4
    is_loopback_v6 big_endian find_proxy_config or_first walk judge rule_has_domain_filter
    unrestricted match_rule match_rule_v6
program = tt

check_process_rule-Proxied_example :
    Proxied policy one_proxy true
      (check_process_rule policy one_proxy table none image 8 33554442 134744072 443 true)
unfolding program
check_process_rule-Proxied_example =
    check_process_rule-Proxied policy one_proxy table none image 8 33554442 134744072 443 true refl

check_process_rule_v6-Proxied_example : Proxied policy one_proxy false (
    check_process_rule_v6
      (λ s. none)
      policy
      one_proxy
      table
      none
      image
      8
      (replicate 16 0)
      (replicate 16 7)
      443
      false)
unfolding program
check_process_rule_v6-Proxied_example =
    check_process_rule_v6-Proxied (λ s. none) policy one_proxy table none image 8 (replicate 16 0)
      (replicate 16 7) 443 false refl

check_process_rule-LetThrough_example :
    LetThrough policy
      (is_loopback_v4 16777343 && is_loopback_v4 16777343)
      8
      (image 8)
      (λ process. match_rule table none process 16777343 443 false)
unfolding program
check_process_rule-LetThrough_example =
    check_process_rule-LetThrough policy one_proxy table none image 8 16777343 16777343 443 false
      refl refl

check_process_rule_v6-LetThrough_example :
    LetThrough policy
      (is_loopback_v6 (replicate 15 0 ++ 1 ∷ []) && is_loopback_v6 (replicate 15 0 ++ 1 ∷ []))
      8
      (image 8)
      (λ process. match_rule_v6 (λ s. none) table none process (replicate 15 0 ++ 1 ∷ []) 443 false)
unfolding program
check_process_rule_v6-LetThrough_example =
    check_process_rule_v6-LetThrough (λ s. none) policy one_proxy table none image 8
      (replicate 15 0 ++ 1 ∷ []) (replicate 15 0 ++ 1 ∷ []) 443 false refl refl

abbrev polls : Polls
polls = record { event = λ k. 0; table = λ k. if ltb k 2 then 0 else 77; clock = λ k. 10 * k }

third_turn : resolve_owner 11 polls 100 0 ≡ some 77
unfolding resolve_owner poll
third_turn = refl

resolve_owner-Waits_example :
    (pid : ℕ) × (resolve_owner 11 polls 100 0 ≡ some pid) × Waits polls 100 0 pid
resolve_owner-Waits_example = resolve_owner-Waits polls 100 0 10 (omega arith)
