-- ===== src/Rules/Walk/Dns.antt =====
-- Windows/src/pb_rules.c: how a program's own DNS queries (UDP, port 53) meet PROXY rules, and
-- where a verdict other than DIRECT comes from.
use proxy_bridge.Prelude.{
  ℕ, true, false, ◌≡◌, ◌≢◌, refl, sym, ap, ◌∙◌, List, [], ◌∷◌, ◌++◌, ◌⊎◌, inl, inr, Option, none,
  arith, Bytes, if◌then◌else◌, Bool-cases,
}
use proxy_bridge.Rules.{
  proxy, direct, ProcessRule, Flow, skip, keep, hit, is_proxy_udp_dns, judge, admits,
}
use proxy_bridge.Rules.Walk.{
  Match, verdict_of, first_kept, walk, RuleTable, match_rule, match_rule_v6,
}
use proxy_bridge.Rules.Walk.FirstMatch.{Decides, by_hit, by_wildcard, by_default, walk-Decides}

judge_not_admitted :
    (flow : Flow) (rule : ProcessRule) → admits flow rule ≡ false → judge flow rule ≡ skip
unfolding judge
judge_not_admitted flow rule e = rw e

admits_of_judge :
    (flow : Flow) (rule : ProcessRule) → judge flow rule ≢ skip → admits flow rule ≡ true
admits_of_judge flow rule n = elim (Bool-cases (admits flow rule)) [
  | inl e ↦ e
  | inr e ↦ absurd (n (judge_not_admitted flow rule e))
]

-- A rule of the list that is enabled and admits the flow.
pub record Source (flow : Flow) (rules : List ProcessRule) (m : Match) : Type 0 where
  pub before : List ProcessRule
  pub rule : ProcessRule
  pub after : List ProcessRule
  pub splits : rules ≡ before ++ rule ∷ after
  pub admitted : admits flow rule ≡ true
  pub verdict : m ≡ verdict_of rule

pub Decides-Source :
    {flow : Flow} {rules : List ProcessRule} {m : Match}
    → Decides flow rules m
    → (m ≡ (direct, 0)) ⊎ Source flow rules m
Decides-Source {flow} (by_hit before rule after split n h e) = inr (record {
  before = before;
  rule = rule;
  after = after;
  splits = split;
  admitted = admits_of_judge flow rule (rw h (λ x. cc));
  verdict = e;
})
Decides-Source {flow} (by_wildcard before rule after split n s h e) = inr (record {
  before = before;
  rule = rule;
  after = after;
  splits = split;
  admitted = admits_of_judge flow rule (rw h (λ x. cc));
  verdict = e;
})
Decides-Source (by_default all e) = inl e

-- What the guards of the loop let through.
admits_enabled : (flow : Flow) (rule : ProcessRule) → admits flow rule ≡ true → rule.enabled ≡ true
unfolding admits
admits_enabled flow rule h = ground arith

admits_dns :
    (flow : Flow) (rule : ProcessRule)
    → admits flow rule ≡ true
    → is_proxy_udp_dns flow rule ≡ true
    → flow.proxy_udp_dns ≡ true
unfolding admits
admits_dns flow rule h e = ground arith

-- Whatever the rules are, a flow of UDP port 53 is not proxied while the switch is off.
walk_dns_off :
    (flow : Flow) (rules : List ProcessRule)
    → flow.is_udp ≡ true
    → flow.dest_port ≡ 53
    → flow.proxy_udp_dns ≡ false
    → (walk flow none rules).0 ≢ proxy
unfolding is_proxy_udp_dns
walk_dns_off flow rules u p off e = elim (Decides-Source (walk-Decides flow rules)) [
  | inl d ↦ cc (ap (λ (m : Match). m.0) d)
  | inr s ↦
      let is : s.rule.action ≡ proxy = sym (ap (λ (m : Match). m.0) s.verdict) ∙ e in
      let on : flow.proxy_udp_dns ≡ true = admits_dns flow s.rule s.admitted (rw (u, p, is)) in cc
]

-- While the switch for DNS is off, no rule sends a UDP flow to port 53 through a proxy: neither
-- the matcher for IPv4 nor the one for IPv6 answers PROXY there.
pub match_rule_dns_off :
    (inet_pton : Bytes → Option Bytes) (table : RuleTable) (lookup : Option Bytes) (process : Bytes)
    (dest_ip : ℕ) (dest_ip6 : Bytes)
    → table.proxy_udp_dns ≡ false
    → ((match_rule table lookup process dest_ip 53 true).0 ≢ proxy)
      × ((match_rule_v6 inet_pton table lookup process dest_ip6 53 true).0 ≢ proxy)
unfolding match_rule match_rule_v6
match_rule_dns_off inet_pton table lookup process dest_ip dest_ip6 off =
    (walk_dns_off _ table.rules refl refl off, walk_dns_off _ table.rules refl refl off)

-- The rules that are enabled, in their order.
abbrev pub enabled_only : List ProcessRule → List ProcessRule
enabled_only [] = []
enabled_only (r ∷ rs) = if r.enabled then r ∷ enabled_only rs else enabled_only rs

judge_disabled : (flow : Flow) (rule : ProcessRule) → rule.enabled ≡ false → judge flow rule ≡ skip
unfolding judge admits
judge_disabled flow rule e = rw e

walk_congr :
    (flow : Flow) (k : Option ProcessRule) (r : ProcessRule) (rs ts : List ProcessRule)
    → ((k' : Option ProcessRule) → walk flow k' rs ≡ walk flow k' ts)
    → walk flow k (r ∷ rs) ≡ walk flow k (r ∷ ts)
unfolding walk
walk_congr flow k r rs ts ih =
    elim (judge flow r)
      as (λ v.
        (elim v [
          | skip ↦ walk flow k rs
          | keep ↦ walk flow (first_kept k r) rs
          | hit ↦ verdict_of r
        ])
        ≡ (elim v [
          | skip ↦ walk flow k ts
          | keep ↦ walk flow (first_kept k r) ts
          | hit ↦ verdict_of r
        ])) [ skip ↦ ih k | keep ↦ ih (first_kept k r) | hit ↦ refl ]

-- A disabled rule counts for nothing: without the disabled rules the walk gives the same result.
pub walk-enabled_only :
    (flow : Flow) (k : Option ProcessRule) (rules : List ProcessRule)
    → walk flow k (enabled_only rules) ≡ walk flow k rules
unfolding walk
walk-enabled_only flow k [] = refl
walk-enabled_only flow k (r ∷ rs) =
    let ih = λ (k' : Option ProcessRule). walk-enabled_only flow k' rs in
    elim (Bool-cases r.enabled) [
      | inl e ↦ simp e (walk_congr flow k r (enabled_only rs) rs ih)
      | inr e ↦ simp e (rw (judge_disabled flow r e, walk) (ih k))
    ]
