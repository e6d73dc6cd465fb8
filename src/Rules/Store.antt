-- ===== src/Rules/Store.antt =====
-- Windows/src/pb_rules.c: the rule-management API. Each call holds the rules lock exclusively while
-- it changes the list, so a call is one step from store to store.
pub mod Edits
pub mod Flags
pub mod Order
pub mod Moved
pub mod Kept
pub mod Calls
pub mod Ids
use proxy_bridge.Prelude.{
  ℕ, zero, suc, ◌+◌, ◌-◌, Bool, true, false, not, ◌&&◌, ◌||◌, List, [], ◌∷◌, ◌++◌, Option, none,
  some, ltb, leb, ◌==◌, if◌then◌else◌, Bytes, codes, length, take, is_empty, u32,
}
use proxy_bridge.Pattern.TokenList.{max_list_size}
use proxy_bridge.Rules.{RuleAction, RuleProtocol, ProcessRule, rule_has_domain_filter}

-- The globals that the calls change: the list, `g_next_rule_id`, the fast-path flags,
-- `g_udp_generation`; `running`; and how often the system's DNS cache was flushed.
pub record RuleStore : Type 0 where
  pub rules : List ProcessRule
  pub next_rule_id : ℕ
  pub has_active_rules : Bool
  pub has_domain_rules : Bool
  pub udp_generation : ℕ
  pub running : Bool
  pub dns_flushes : ℕ

-- A call returns, or follows a NULL pointer.
pub data Run {ℓ} (A : Type ℓ) : Type ℓ where
  ok : A → Run A
  null_pointer : Run A

-- `invalidate_udp_decisions`.
abbrev pub invalidate_udp_decisions : RuleStore → RuleStore
invalidate_udp_decisions s = record s { udp_generation = u32 (s.udp_generation + 1) }

-- The loop of `update_has_active_rules`: some rule is enabled, and some enabled one has domains.
scan_flags : Bool → List ProcessRule → Bool × Bool
scan_flags active [] = (active, false)
scan_flags active (r ∷ rs) = elim r.enabled [
  | true ↦ elim (rule_has_domain_filter r) [ true ↦ (true, true) | false ↦ scan_flags true rs ]
  | false ↦ scan_flags active rs
]

unfoldable pub update_has_active_rules : RuleStore → RuleStore
unfolding scan_flags
update_has_active_rules s =
    let (active, domain) = scan_flags false s.rules in
    record (invalidate_udp_decisions s) {
      has_active_rules = active;
      has_domain_rules = domain;
      dns_flushes =
          if domain && not s.has_domain_rules && s.running
          then s.dns_flushes + 1
          else s.dns_flushes;
    }

-- `sizeof(PROCESS_RULE)` on x64.
abbrev pub rule_size : ℕ
rule_size = 65592

-- The size and the text of the copy of a list argument; a list that is not given is a star.
abbrev list_or_star : Option Bytes → ℕ × Bytes
list_or_star none = (2, codes "*")
list_or_star (some []) = (2, codes "*")
list_or_star (some (c ∷ cs)) = let copy = take max_list_size (c ∷ cs) in (length copy + 1, copy)

-- The arguments of `ProxyBridge_AddRule` and `ProxyBridge_EditRule`.
pub record RuleArgs : Type 0 where
  pub process_name : Option Bytes
  pub target_hosts : Option Bytes
  pub target_ports : Option Bytes
  pub target_domains : Option Bytes
  pub protocol : RuleProtocol
  pub action : RuleAction
  pub proxy_config_id : ℕ

-- `strncpy_s(rule->process_name, MAX_PROCESS_NAME, process_name, _TRUNCATE)`.
abbrev copy_name : Bytes → Bytes
copy_name name = take 65535 name

pub new_rule : ℕ → Bytes → RuleArgs → ProcessRule
new_rule id name args = record {
  rule_id = id;
  process_name = copy_name name;
  target_hosts = (list_or_star args.target_hosts).1;
  target_ports = (list_or_star args.target_ports).1;
  target_domains = (list_or_star args.target_domains).1;
  protocol = args.protocol;
  action = args.action;
  proxy_config_id = args.proxy_config_id;
  enabled = true;
}

-- The three copies are made after the number is taken, so a failure uses the number up.
copies_made : (ℕ → Bool) → RuleArgs → Bool
copies_made malloc args =
    malloc (list_or_star args.target_hosts).0
    && malloc (list_or_star args.target_ports).0
    && malloc (list_or_star args.target_domains).0

-- `ProxyBridge_AddRule` behind its guard, on a name that is there.
add_named : (ℕ → Bool) → RuleStore → Bytes → RuleArgs → ℕ × RuleStore
unfolding copies_made new_rule update_has_active_rules
add_named malloc s name args =
    let numbered = record s { next_rule_id = u32 (s.next_rule_id + 1) } in
    if not (malloc rule_size)
    then (0, s)
    else if not (copies_made malloc args)
    then (0, numbered)
    else (
      s.next_rule_id,
      update_has_active_rules
          (record numbered { rules = s.rules ++ new_rule s.next_rule_id name args ∷ [] }),
    )

-- An empty name is refused as one that is NULL is.
add_with : (ℕ → Bool) → RuleStore → RuleArgs → Option Bytes → ℕ × RuleStore
unfolding add_named
add_with malloc s args none = (0, s)
add_with malloc s args (some []) = (0, s)
add_with malloc s args (some (c ∷ cs)) = add_named malloc s (c ∷ cs) args

unfoldable pub add_rule : (ℕ → Bool) → RuleStore → RuleArgs → ℕ × RuleStore
unfolding add_with
add_rule malloc s args = add_with malloc s args args.process_name

-- The loops that change the first rule with a number, and then stop.
unfoldable pub change_first :
    ℕ → (ProcessRule → ProcessRule) → List ProcessRule → Option (List ProcessRule)
change_first id change [] = none
change_first id change (r ∷ rs) = elim (r.rule_id == id) [
  | true ↦ some (change r ∷ rs)
  | false ↦ elim (change_first id change rs) [ none ↦ none | some ts ↦ some (r ∷ ts) ]
]

-- The loop that unlinks the first rule with a number: the rule, and the list without it.
unfoldable pub unlink_first : ℕ → List ProcessRule → Option (ProcessRule × List ProcessRule)
unlink_first id [] = none
unlink_first id (r ∷ rs) = elim (r.rule_id == id) [
  | true ↦ some (r, rs)
  | false ↦ elim (unlink_first id rs) [ none ↦ none | some (found, ts) ↦ some (found, r ∷ ts) ]
]

-- A list was found and changed, or not.
pub install : RuleStore → Option (List ProcessRule) → Bool × RuleStore
unfolding update_has_active_rules
install s none = (false, s)
install s (some rules) = (true, update_has_active_rules (record s { rules = rules }))

pub set_enabled : Bool → RuleStore → ℕ → Bool × RuleStore
unfolding install
set_enabled value s rule_id =
    if rule_id == 0
    then (false, s)
    else install s (change_first rule_id (λ r. record r { enabled = value }) s.rules)

unfoldable pub enable_rule : RuleStore → ℕ → Bool × RuleStore
unfolding set_enabled
enable_rule = set_enabled true

unfoldable pub disable_rule : RuleStore → ℕ → Bool × RuleStore
unfolding set_enabled
disable_rule = set_enabled false

unlinked : Option (ProcessRule × List ProcessRule) → Option (List ProcessRule)
unlinked none = none
unlinked (some (found, rest)) = some rest

unfoldable pub delete_rule : RuleStore → ℕ → Bool × RuleStore
unfolding install unlinked
delete_rule s rule_id =
    if rule_id == 0 then (false, s) else install s (unlinked (unlink_first rule_id s.rules))

-- The domains that `ProxyBridge_EditRule` stores.
abbrev domains_in : Option Bytes → Bytes
domains_in none = codes "*"
domains_in (some []) = codes "*"
domains_in (some (c ∷ cs)) = c ∷ cs

-- The change that an edit makes; the number, the switch and the place in the list stay.
pub edited : Bytes → Bytes → Bytes → RuleArgs → ProcessRule → ProcessRule
edited name hosts ports args r = record r {
  process_name = copy_name name;
  target_hosts = hosts;
  target_ports = ports;
  target_domains = domains_in args.target_domains;
  protocol = args.protocol;
  action = args.action;
  proxy_config_id = args.proxy_config_id;
}

-- `_strdup` of the three lists.
duplicated : (ℕ → Bool) → Bytes → Bytes → RuleArgs → Bool
duplicated malloc hosts ports args =
    malloc (length hosts + 1)
    && malloc (length ports + 1)
    && malloc (length (domains_in args.target_domains) + 1)

edit_given : (ℕ → Bool) → RuleStore → ℕ → Bytes → Bytes → Bytes → RuleArgs → Bool × RuleStore
unfolding edited duplicated install
edit_given malloc s rule_id name hosts ports args =
    if not (duplicated malloc hosts ports args)
    then (false, s)
    else install s (change_first rule_id (edited name hosts ports args) s.rules)

-- An edit is refused where the number is 0, or the name, the hosts or the ports are NULL.
edit_with :
    (ℕ → Bool)
    → RuleStore
    → ℕ
    → RuleArgs
    → Option Bytes
    → Option Bytes
    → Option Bytes
    → Bool × RuleStore
unfolding edit_given
edit_with malloc s rule_id args (some name) (some hosts) (some ports) =
    edit_given malloc s rule_id name hosts ports args
edit_with malloc s rule_id args _ _ _ = (false, s)

unfoldable pub edit_rule : (ℕ → Bool) → RuleStore → ℕ → RuleArgs → Bool × RuleStore
unfolding edit_with
edit_rule malloc s rule_id args =
    if rule_id == 0
    then (false, s)
    else edit_with malloc s rule_id args args.process_name args.target_hosts args.target_ports

-- The loop of `ProxyBridge_GetRulePosition`, from `position` on.
unfoldable pub position_from : ℕ → ℕ → List ProcessRule → ℕ
position_from position id [] = 0
position_from position id (r ∷ rs) = elim (r.rule_id == id) [
  | true ↦ position
  | false ↦ position_from (position + 1) id rs
]

unfoldable pub get_rule_position : RuleStore → ℕ → ℕ
unfolding position_from
get_rule_position s rule_id = if rule_id == 0 then 0 else position_from 1 rule_id s.rules

-- The rule goes behind the entry that is `steps` links on, or to the tail where the list ends first.
unfoldable pub insert_after : ℕ → ProcessRule → List ProcessRule → List ProcessRule
insert_after steps rule [] = rule ∷ []
insert_after zero rule (c ∷ cs) = c ∷ rule ∷ cs
insert_after (suc steps) rule (c ∷ cs) = c ∷ insert_after steps rule cs

-- The insertion. Past position 1 the search for the tail reads `current->next` of the first entry
-- that is left, which is NULL where there is none.
pub insert_at : ℕ → ProcessRule → List ProcessRule → Run (List ProcessRule)
insert_at new_position rule rest =
    if new_position == 1
    then ok (rule ∷ rest)
    else if is_empty rest
    then null_pointer
    else ok (insert_after (new_position - 2) rule rest)

pub finish_move : RuleStore → Run (List ProcessRule) → Run (Bool × RuleStore)
finish_move s null_pointer = null_pointer
finish_move s (ok rules) = ok (true, invalidate_udp_decisions (record s { rules = rules }))

move_found : RuleStore → ℕ → Option (ProcessRule × List ProcessRule) → Run (Bool × RuleStore)
unfolding insert_at finish_move
move_found s new_position none = ok (false, s)
move_found s new_position (some (rule, rest)) = finish_move s (insert_at new_position rule rest)

unfoldable pub move_rule_to_position : RuleStore → ℕ → ℕ → Run (Bool × RuleStore)
unfolding move_found
move_rule_to_position s rule_id new_position =
    if rule_id == 0 || new_position == 0
    then ok (false, s)
    else move_found s new_position (unlink_first rule_id s.rules)
