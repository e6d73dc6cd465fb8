-- ===== src/Decision/FailClosed.antt =====
-- Windows/src/pb_rules.c: what a decision to proxy, and one to let through, come with.
use proxy_bridge.Prelude.{
  ℕ, Bool, true, false, not, ◌&&◌, ◌≡◌, ◌≢◌, refl, sym, ap, ◌∙◌, inl, inr, Option, none, some, ◌==◌,
  ==_iff, &&_parts, Bytes, is_empty, arith, Bool-cases, Option-cases,
}
use proxy_bridge.Rules.{proxy, direct, block}
use proxy_bridge.Rules.Walk.{Match, RuleTable, match_rule, match_rule_v6}
use proxy_bridge.Proxy.{ProxyConfig, ProxyStore, find_proxy_config, is_socks5}
use proxy_bridge.Proxy.Found.{StandsFor, find_proxy_config-StandsFor}
use proxy_bridge.Decision.{
  Policy, Decision, unresolved, is_unfit, checked, named, decide, check_process_rule,
  check_process_rule_v6, is_loopback_v4, is_loopback_v6,
}

-- What a decision to proxy rests on.
pub record Proxied (policy : Policy) (proxies : ProxyStore) (is_udp : Bool) (d : Decision)
    : Type 0 where
  pub config : ProxyConfig
  pub found : find_proxy_config proxies d.proxy_config_id ≡ some config
  pub stands : StandsFor proxies d.proxy_config_id config
  pub has_host : is_empty config.host ≡ false
  pub has_port : config.port ≢ 0
  pub carries : (is_udp && not (is_socks5 config.type)) ≡ false
  pub owned : d.pid ≢ 0
  pub foreign : d.pid ≢ policy.current_process

fit_parts :
    (is_udp : Bool) (cfg : ProxyConfig)
    → is_unfit is_udp (some cfg) ≡ false
    → (is_empty cfg.host ≡ false) × (cfg.port ≢ 0) × ((is_udp && not (is_socks5 cfg.type)) ≡ false)
unfolding is_unfit
fit_parts is_udp cfg e = (ground arith, ground arith, ground arith)

unfit_none : (is_udp : Bool) → is_unfit is_udp none ≡ true
unfolding is_unfit
unfit_none is_udp = refl

fit_found :
    (policy : Policy) (proxies : ProxyStore) (is_udp : Bool) (pid id : ℕ)
    → pid ≢ 0
    → pid ≢ policy.current_process
    → is_unfit is_udp (find_proxy_config proxies id) ≡ false
    → Proxied policy proxies is_udp (record { action = proxy; pid = pid; proxy_config_id = id })
fit_found policy proxies is_udp pid id o f u = elim (Option-cases (find_proxy_config proxies id)) [
  | inl n ↦ cc (unfit_none is_udp, ap (is_unfit is_udp) n)
  | inr (c, n) ↦
      let (host, port, udp) = fit_parts is_udp c (sym (ap (is_unfit is_udp) n) ∙ u) in
      record {
        config = c;
        found = n;
        stands = find_proxy_config-StandsFor proxies id c n;
        has_host = host;
        has_port = port;
        carries = udp;
        owned = o;
        foreign = f;
      }
]

-- The statement, on any decision.
abbrev ProxiedIf : Policy → ProxyStore → Bool → Decision → Type 0
ProxiedIf policy proxies is_udp d = d.action ≡ proxy → Proxied policy proxies is_udp d

checked-ProxiedIf :
    (policy : Policy) (proxies : ProxyStore) (is_udp : Bool) (pid : ℕ) (m : Match)
    → pid ≢ 0
    → pid ≢ policy.current_process
    → ProxiedIf policy proxies is_udp (checked proxies is_udp pid m)
unfolding checked
checked-ProxiedIf policy proxies is_udp pid (proxy, id) o f =
    elim (Bool-cases (is_unfit is_udp (find_proxy_config proxies id))) [
      | inl u ↦ rw u (λ e. cc)
      | inr u ↦ rw u (λ e. fit_found policy proxies is_udp pid id o f u)
    ]
checked-ProxiedIf policy proxies is_udp pid (direct, id) o f = λ e. cc
checked-ProxiedIf policy proxies is_udp pid (block, id) o f = λ e. cc

unresolved_action : (policy : Policy) → unresolved policy ≢ proxy
unresolved_action policy = elim (Bool-cases policy.fail_closed) [
  | inl e ↦ simp e (λ h. cc)
  | inr e ↦ simp e (λ h. cc)
]

named-ProxiedIf :
    (policy : Policy) (proxies : ProxyStore) (is_udp : Bool) (match_name : Bytes → Match) (pid : ℕ)
    (name : Option Bytes)
    → pid ≢ 0
    → pid ≢ policy.current_process
    → ProxiedIf policy proxies is_udp (named policy proxies is_udp match_name pid name)
unfolding named
named-ProxiedIf policy proxies is_udp match_name pid none o f =
    λ e. absurd (unresolved_action policy e)
named-ProxiedIf policy proxies is_udp match_name pid (some n) o f =
    checked-ProxiedIf policy proxies is_udp pid (match_name n) o f

decide-ProxiedIf :
    (policy : Policy) (proxies : ProxyStore) (is_udp loop : Bool) (pid : ℕ)
    (process_name : ℕ → Option Bytes) (match_name : Bytes → Match)
    → ProxiedIf policy proxies is_udp
        (decide policy proxies is_udp loop pid process_name match_name)
unfolding decide
decide-ProxiedIf policy proxies is_udp loop pid process_name match_name =
    elim (Bool-cases (policy.loopback_bypass && loop)) [
      | inl a ↦ rw a (λ e. cc)
      | inr a ↦ elim (Bool-cases (pid == 0)) [
        | inl b ↦ rw (a, b) (λ e. absurd (unresolved_action policy e))
        | inr b ↦ elim (Bool-cases (pid == policy.current_process)) [
          | inl c ↦ rw (a, b, c) (λ e. cc)
          | inr c ↦
              rw (a, b, c)
                (named-ProxiedIf policy proxies is_udp match_name pid (process_name pid)
                  (λ z. cc ((==_iff pid 0).1 z))
                  (λ z. cc ((==_iff pid policy.current_process).1 z)))
        ]
      ]
    ]

-- A connection over IPv4 is sent to a proxy only if its owner is known and is not this process, and
-- only with a number that comes to a configuration with a host and a port which, for UDP, speaks
-- SOCKS5. That is the configuration with this number or, where none has it, the first one. It is so
-- whatever the rules say.
pub check_process_rule-Proxied :
    (policy : Policy) (proxies : ProxyStore) (table : RuleTable) (lookup : Option Bytes)
    (process_name : ℕ → Option Bytes) (pid src dest port : ℕ) (is_udp : Bool)
    → (check_process_rule policy proxies table lookup process_name pid src dest port is_udp).action
      ≡ proxy
    → Proxied policy proxies is_udp
        (check_process_rule policy proxies table lookup process_name pid src dest port is_udp)
unfolding check_process_rule
check_process_rule-Proxied policy proxies table lookup process_name pid src dest port is_udp e =
    decide-ProxiedIf policy proxies is_udp (is_loopback_v4 src && is_loopback_v4 dest) pid
      process_name (λ process. match_rule table lookup process dest port is_udp) e

-- A connection over IPv6 is sent to a proxy only if its owner is known and is not this process, and
-- only with a number that comes to a configuration with a host and a port which, for UDP, speaks
-- SOCKS5. That is the configuration with this number or, where none has it, the first one.
pub check_process_rule_v6-Proxied :
    (inet_pton : Bytes → Option Bytes) (policy : Policy) (proxies : ProxyStore) (table : RuleTable)
    (lookup : Option Bytes) (process_name : ℕ → Option Bytes) (pid : ℕ) (src dest : Bytes)
    (port : ℕ) (is_udp : Bool)
    → (check_process_rule_v6 inet_pton policy proxies table lookup process_name pid src dest port
        is_udp).action
      ≡ proxy
    → Proxied policy proxies is_udp (
        check_process_rule_v6 inet_pton policy proxies table lookup process_name pid src dest port
          is_udp)
unfolding check_process_rule_v6
check_process_rule_v6-Proxied inet_pton policy proxies table lookup process_name pid src dest port
      is_udp e =
    decide-ProxiedIf policy proxies is_udp (is_loopback_v6 src && is_loopback_v6 dest) pid
      process_name (λ process. match_rule_v6 inet_pton table lookup process dest port is_udp) e

-- Why a connection was let through.
pub data LetThrough (policy : Policy) (loop : Bool) (pid : ℕ) (name : Option Bytes)
    (match_name : Bytes → Match) : Type 0 where
  by_loopback :
      policy.loopback_bypass ≡ true → loop ≡ true → LetThrough policy loop pid name match_name
  by_self : pid ≢ 0 → pid ≡ policy.current_process → LetThrough policy loop pid name match_name
  by_rule :
      (n : Bytes)
      → pid ≢ 0
      → name ≡ some n
      → (match_name n).0 ≡ direct
      → LetThrough policy loop pid name match_name

checked_direct :
    (proxies : ProxyStore) (is_udp : Bool) (pid : ℕ) (m : Match)
    → (checked proxies is_udp pid m).action ≡ direct
    → m.0 ≡ direct
unfolding checked
checked_direct proxies is_udp pid (proxy, id) =
    elim (Bool-cases (is_unfit is_udp (find_proxy_config proxies id))) [
      | inl u ↦ rw u (λ e. cc)
      | inr u ↦ rw u (λ e. cc)
    ]
checked_direct proxies is_udp pid (direct, id) = λ e. refl
checked_direct proxies is_udp pid (block, id) = λ e. cc

unresolved_closed : (policy : Policy) → policy.fail_closed ≡ true → unresolved policy ≢ direct
unresolved_closed policy e = simp e (λ h. cc)

named-LetThrough :
    (policy : Policy) (proxies : ProxyStore) (is_udp loop : Bool) (match_name : Bytes → Match)
    (pid : ℕ) (name : Option Bytes)
    → policy.fail_closed ≡ true
    → pid ≢ 0
    → (named policy proxies is_udp match_name pid name).action ≡ direct
    → LetThrough policy loop pid name match_name
unfolding named
named-LetThrough policy proxies is_udp loop match_name pid none closed o e =
    absurd (unresolved_closed policy closed e)
named-LetThrough policy proxies is_udp loop match_name pid (some n) closed o e =
    by_rule n o refl (checked_direct proxies is_udp pid (match_name n) e)

decide-LetThrough :
    (policy : Policy) (proxies : ProxyStore) (is_udp loop : Bool) (pid : ℕ)
    (process_name : ℕ → Option Bytes) (match_name : Bytes → Match)
    → policy.fail_closed ≡ true
    → (decide policy proxies is_udp loop pid process_name match_name).action ≡ direct
    → LetThrough policy loop pid (process_name pid) match_name
unfolding decide
decide-LetThrough policy proxies is_udp loop pid process_name match_name closed =
    elim (Bool-cases (policy.loopback_bypass && loop)) [
      | inl a ↦ rw a (λ e.
          by_loopback (&&_parts policy.loopback_bypass loop a).0
            (&&_parts policy.loopback_bypass loop a).1)
      | inr a ↦ elim (Bool-cases (pid == 0)) [
        | inl b ↦ rw (a, b) (λ e. absurd (unresolved_closed policy closed e))
        | inr b ↦
            let o : pid ≢ 0 = λ z. cc ((==_iff pid 0).1 z) in
            elim (Bool-cases (pid == policy.current_process)) [
              | inl c ↦ rw (a, b, c) (λ e. by_self o ((==_iff pid policy.current_process).0 c))
              | inr c ↦
                  rw (a, b, c)
                    (named-LetThrough policy proxies is_udp loop match_name pid (process_name pid)
                      closed o)
            ]
      ]
    ]

-- Where unknown owners are blocked, a connection over IPv4 is let through without a proxy for one of
-- three reasons only: loopback is bypassed and both ends are loopback addresses, or the owner is this
-- process, or the owner is known by name and the rules answer DIRECT for it.
pub check_process_rule-LetThrough :
    (policy : Policy) (proxies : ProxyStore) (table : RuleTable) (lookup : Option Bytes)
    (process_name : ℕ → Option Bytes) (pid src dest port : ℕ) (is_udp : Bool)
    → policy.fail_closed ≡ true
    → (check_process_rule policy proxies table lookup process_name pid src dest port is_udp).action
      ≡ direct
    → LetThrough policy
        (is_loopback_v4 src && is_loopback_v4 dest)
        pid
        (process_name pid)
        (λ process. match_rule table lookup process dest port is_udp)
unfolding check_process_rule
check_process_rule-LetThrough policy proxies table lookup process_name pid src dest port is_udp
      closed e =
    decide-LetThrough policy proxies is_udp (is_loopback_v4 src && is_loopback_v4 dest) pid
      process_name (λ process. match_rule table lookup process dest port is_udp) closed e

-- Where unknown owners are blocked, a connection over IPv6 is let through without a proxy for one of
-- three reasons only: loopback is bypassed and both ends are loopback addresses, IPv4 ones that are
-- mapped included, or the owner is this process, or the owner is known by name and the rules answer
-- DIRECT for it.
pub check_process_rule_v6-LetThrough :
    (inet_pton : Bytes → Option Bytes) (policy : Policy) (proxies : ProxyStore) (table : RuleTable)
    (lookup : Option Bytes) (process_name : ℕ → Option Bytes) (pid : ℕ) (src dest : Bytes)
    (port : ℕ) (is_udp : Bool)
    → policy.fail_closed ≡ true
    → (check_process_rule_v6 inet_pton policy proxies table lookup process_name pid src dest port
        is_udp).action
      ≡ direct
    → LetThrough policy
        (is_loopback_v6 src && is_loopback_v6 dest)
        pid
        (process_name pid)
        (λ process. match_rule_v6 inet_pton table lookup process dest port is_udp)
unfolding check_process_rule_v6
check_process_rule_v6-LetThrough inet_pton policy proxies table lookup process_name pid src dest
      port is_udp closed e =
    decide-LetThrough policy proxies is_udp (is_loopback_v6 src && is_loopback_v6 dest) pid
      process_name (λ process. match_rule_v6 inet_pton table lookup process dest port is_udp) closed
      e
