-- ===== src/Tests/Rules.antt =====
-- Windows/src/pb_rules.c: the rule engine and the rule API on small inputs.
use proxy_bridge.Prelude.{
  ap, ℕ, Bool, true, false, ◌≡◌, ◌≢◌, ◌↔◌, refl, List, [], ◌∷◌, Option, none, some, Bytes, codes,
  arith,
}
use proxy_bridge.Rules.{
  RuleAction, proxy, direct, block, RuleProtocol, tcp, both, ProcessRule, Flow, judge,
  filters_match, match_domain_filter, rule_has_domain_filter,
}
use proxy_bridge.Rules.Walk.{RuleTable, walk, match_rule, match_rule_v6}
use proxy_bridge.Rules.Walk.FirstMatch.{Decides, walk-Decides}
use proxy_bridge.Rules.Walk.Dns.{match_rule_dns_off}
use proxy_bridge.Rules.Store.{
  RuleStore, RuleArgs, ok, null_pointer, move_rule_to_position, unlink_first, insert_after,
  disable_rule, change_first, add_rule,
}
use proxy_bridge.Pattern.TokenList.{
  unrestricted, parse_token_list, list_copy, any_token, skip_whitespace,
}
use proxy_bridge.Pattern.Process.{match_process_list, match_process_pattern, clean_process}
use proxy_bridge.Pattern.Port.{match_port_list}
use proxy_bridge.CText.{equal_fold, behind_last}
use proxy_bridge.CText.Tokens.{tokens}
use proxy_bridge.Rules.Store.Order.{IsLoneMove, move_rule-null_pointer}
use proxy_bridge.Rules.Store.Moved.{Moved, move_rule-Moved}
use proxy_bridge.Conntrack.Direct.{DirectKey, remember_all, udp_direct_cached}
use proxy_bridge.Policy.{step-udp_direct_cached}
use proxy_bridge.Rules.Store.Flags.{StoreInv}
use proxy_bridge.Rules.Store.Calls.{
  Call, adds, disables, moves, run, run-StoreInv, Renewed, step-Renewed,
}

abbrev plenty : ℕ → Bool
plenty n = true

abbrev rule : ℕ → Bytes → RuleAction → RuleProtocol → Bool → ProcessRule
rule id name action protocol enabled = record {
  rule_id = id;
  process_name = name;
  target_hosts = codes "*";
  target_ports = codes "*";
  target_domains = codes "*";
  protocol = protocol;
  action = action;
  proxy_config_id = 1;
  enabled = enabled;
}

abbrev browser : ProcessRule
browser = rule 1 (codes "chrome.exe") proxy tcp true

abbrev catch_all : ProcessRule
catch_all = rule 2 (codes "*") block both true

abbrev switched_off : ProcessRule
switched_off = rule 3 (codes "chrome.exe") direct both false

abbrev three : List ProcessRule
three = catch_all ∷ switched_off ∷ browser ∷ []

abbrev flow_of : Bytes → ℕ → Bool → Flow
flow_of process port is_udp = record {
  hosts = λ list. true;
  process = process;
  dest_port = port;
  is_udp = is_udp;
  domain = none;
  proxy_udp_dns = true;
  malloc = plenty;
}

program : Unit {0}
unfolding walk judge unrestricted parse_token_list match_process_list any_token list_copy tokens
    match_process_pattern clean_process skip_whitespace equal_fold behind_last filters_match
    match_domain_filter match_port_list
program = tt

-- The catch-all stands first and still comes last.
chrome_is_proxied : walk (flow_of (codes "C:\\Chrome.EXE") 443 false) none three ≡ (proxy, 1)
unfolding program
chrome_is_proxied = refl

others_are_blocked : walk (flow_of (codes "D:\\curl.exe") 443 false) none three ≡ (block, 1)
unfolding program
others_are_blocked = refl

walk-Decides_example :
    Decides
      (flow_of (codes "chrome.exe") 443 false)
      three
      (walk (flow_of (codes "chrome.exe") 443 false) none three)
walk-Decides_example = walk-Decides (flow_of (codes "chrome.exe") 443 false) three

abbrev dns_off : RuleTable
dns_off = record { rules = three; has_domain_rules = false; proxy_udp_dns = false; malloc = plenty }

match_rule_dns_off_example :
    ((match_rule dns_off none (codes "chrome.exe") 134744072 53 true).0 ≢ proxy)
    × ((match_rule_v6 (λ s. none) dns_off none (codes "chrome.exe") [] 53 true).0 ≢ proxy)
match_rule_dns_off_example =
    match_rule_dns_off (λ s. none) dns_off none (codes "chrome.exe") 134744072 [] refl

-- The store before any call, and the arguments of two rules.
abbrev initial : RuleStore
initial = record {
  rules = [];
  next_rule_id = 1;
  has_active_rules = false;
  has_domain_rules = false;
  udp_generation = 1;
  running = true;
  dns_flushes = 0;
}

abbrev args : Bytes → Option Bytes → RuleAction → RuleArgs
args name domains action = record {
  process_name = some name;
  target_hosts = none;
  target_ports = some [];
  target_domains = domains;
  protocol = tcp;
  action = action;
  proxy_config_id = 1;
}

abbrev history : List ((ℕ → Bool) × Call)
history =
    (plenty, adds (args (codes "chrome.exe") none proxy))
    ∷ (plenty, adds (args (codes "*") (some (codes "*.corp")) direct))
    ∷ (plenty, disables 1)
    ∷ (plenty, moves 2 1)
    ∷ []

abbrev corporate : ProcessRule
corporate = record (rule 2 (codes "*") direct tcp true) { target_domains = codes "*.corp" }

abbrev final : RuleStore
final = record {
  rules = corporate ∷ record browser { enabled = false } ∷ [];
  next_rule_id = 3;
  has_active_rules = true;
  has_domain_rules = true;
  udp_generation = 5;
  running = true;
  dns_flushes = 1;
}

run-history : run initial history ≡ ok final
unfolding run move_rule_to_position unlink_first insert_after disable_rule change_first add_rule
    rule_has_domain_filter unrestricted
run-history = refl

initial-StoreInv : StoreInv initial
initial-StoreInv = record { active = refl; domain = refl; good = (tt, tt); next_pos = omega arith }

run-StoreInv_example : StoreInv final
run-StoreInv_example = run-StoreInv initial final history (omega arith) initial-StoreInv run-history

abbrev lone : RuleStore
lone = record initial { rules = browser ∷ []; next_rule_id = 2; has_active_rules = true }

-- The only rule is moved to the second place.
move_rule-null_pointer_example :
    (move_rule_to_position lone 1 2 ≡ null_pointer) ↔ IsLoneMove lone 1 2
move_rule-null_pointer_example = move_rule-null_pointer lone 1 2

abbrev ordered : RuleStore
ordered = record initial { rules = three; next_rule_id = 4; has_active_rules = true }

abbrev reordered : RuleStore
reordered = record ordered { rules = switched_off ∷ browser ∷ catch_all ∷ []; udp_generation = 2 }

move_rule-Moved_example : Moved ordered reordered 2 9
unfolding move_rule_to_position unlink_first insert_after
move_rule-Moved_example =
    move_rule-Moved ordered reordered 2 9 ((refl, (refl, tt)), ((refl, tt), (tt, tt))) refl

step-Renewed_example : Renewed ordered reordered
unfolding run move_rule_to_position unlink_first insert_after
step-Renewed_example = step-Renewed ordered reordered (plenty, moves 2 9) refl

abbrev flow : DirectKey
flow = record {
  ipv6 = false;
  source = 10 ∷ 0 ∷ 0 ∷ 2 ∷ [];
  source_port = 5000;
  destination = 8 ∷ 8 ∷ 8 ∷ 8 ∷ [];
  destination_port = 443;
}

abbrev first_id : List ProcessRule → ℕ
first_id [] = 0
first_id (r ∷ rs) = r.rule_id

other_order : reordered.rules ≢ ordered.rules
other_order e = absurd (omega (arith, ap first_id e))

step-udp_direct_cached_example :
    udp_direct_cached (remember_all ((1, 10, flow) ∷ [])) 2 20 flow ≡ false
unfolding run move_rule_to_position unlink_first insert_after
step-udp_direct_cached_example =
    step-udp_direct_cached ordered reordered (plenty, moves 2 9) 20 flow ((1, 10, flow) ∷ []) refl
      other_order (omega arith) (refl, refl) ((refl, refl), tt) (omega arith, tt)
