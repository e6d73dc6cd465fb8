-- ===== src/Rules/Store/Flags.antt =====
-- Windows/src/pb_rules.c: the invariant of the rule store. The fast-path flags tell the truth about
-- the list, the numbers are distinct, and each is 1 or more and below the next one.
use proxy_bridge.Prelude.{
  ℕ, ◌+◌, ◌≤◌, ◌<◌, ◌^◌, Bool, true, false, ◌&&◌, ◌||◌, ◌≡◌, refl, sym, ap, subst, ◌∙◌, inl, inr,
  List, [], ◌∷◌, ◌++◌, append-nil, Option, none, some, arith, ◌==◌, ==_iff, any, Bytes, Bool-cases,
  u32,
}
use proxy_bridge.Rules.{ProcessRule, rule_has_domain_filter}
use proxy_bridge.Rules.Store.Edits.{
  Lacks, Split, find-Split, unlink_first-Lacks, change_first-Lacks, change_first-split,
}
use proxy_bridge.Rules.Store.Ids.{
  Good, Good-with, Good-without, Numbered-suc, Numbered-Lacks, Split-others-Lacks,
}
use proxy_bridge.Rules.Store.Order.{unlink_Split}
use proxy_bridge.Rules.Store.{
  RuleStore, RuleArgs, scan_flags, update_has_active_rules, install, add_named, add_with, add_rule,
  change_first, set_enabled, delete_rule, new_rule, copies_made, rule_size,
}

-- Some rule is enabled; some enabled rule restricts domains.
abbrev pub some_enabled : List ProcessRule → Bool
some_enabled rules = any (λ r. r.enabled) rules

abbrev pub some_domain : List ProcessRule → Bool
some_domain rules = any (λ r. r.enabled && rule_has_domain_filter r) rules

scan_flags-any :
    (active : Bool) (rules : List ProcessRule)
    → scan_flags active rules ≡ (active || some_enabled rules, some_domain rules)
unfolding scan_flags
scan_flags-any active [] = ground arith
scan_flags-any active (r ∷ rs) = ground (arith, scan_flags-any true rs, scan_flags-any active rs)

-- The invariant of the store.
pub record StoreInv (s : RuleStore) : Type 0 where
  pub active : s.has_active_rules ≡ some_enabled s.rules
  pub domain : s.has_domain_rules ≡ some_domain s.rules
  pub good : Good s.next_rule_id s.rules
  pub next_pos : 1 ≤ s.next_rule_id

-- After the flags are computed again, only the list has to be good.
update-StoreInv :
    (s : RuleStore)
    → Good s.next_rule_id s.rules
    → 1 ≤ s.next_rule_id
    → StoreInv (update_has_active_rules s)
unfolding update_has_active_rules
update-StoreInv s g n = record {
  active = ap (λ (p : Bool × Bool). p.0) (scan_flags-any false s.rules);
  domain = ap (λ (p : Bool × Bool). p.1) (scan_flags-any false s.rules);
  good = g;
  next_pos = n;
}

-- Taking a number.
module _ (next : ℕ) (bound : next + 1 < 2 ^ 32) where
  no_wrap : next + 1 ≡ u32 (next + 1)
  no_wrap = omega arith

  Good-next : (rules : List ProcessRule) → Good next rules → Good (u32 (next + 1)) rules
  Good-next rules (d, n) = subst (λ k. Good k rules) no_wrap (d, Numbered-suc next rules n)

  -- The new rule goes to the end under the number that was taken.
  Good-new :
      (rule : ProcessRule) (rules : List ProcessRule)
      → rule.rule_id ≡ next
      → 1 ≤ next
      → Good next rules
      → Good (u32 (next + 1)) (rules ++ rule ∷ [])
  Good-new rule rules e pos g =
      Good-with (u32 (next + 1)) rules rule []
        (subst (Good (u32 (next + 1))) (sym (append-nil rules)) (Good-next rules g))
        (omega arith, omega arith)
        (subst (Lacks rule.rule_id) (sym (append-nil rules))
          (subst (λ k. Lacks k rules) (sym e) (Numbered-Lacks next rules g.1)))

add_named-StoreInv :
    (malloc : ℕ → Bool) (s : RuleStore) (name : Bytes) (args : RuleArgs)
    → s.next_rule_id + 1 < 2 ^ 32
    → StoreInv s
    → StoreInv (add_named malloc s name args).1
unfolding add_named
add_named-StoreInv malloc s name args bound v = elim (Bool-cases (malloc rule_size)) [
  | inr e ↦ rw e v
  | inl e ↦ elim (Bool-cases (copies_made malloc args)) [
    | inr f ↦
        rw (e, f)
          (record {
            active = v.active;
            domain = v.domain;
            good = Good-next s.next_rule_id bound s.rules v.good;
            next_pos = omega (arith, v.next_pos);
          })
    | inl f ↦
        rw (e, f)
          (update-StoreInv
            (record s {
              rules = s.rules ++ new_rule s.next_rule_id name args ∷ [];
              next_rule_id = u32 (s.next_rule_id + 1);
            })
            (Good-new s.next_rule_id bound (new_rule s.next_rule_id name args) s.rules refl
              v.next_pos v.good)
            (omega (arith, v.next_pos)))
  ]
]

add_with-StoreInv :
    (malloc : ℕ → Bool) (s : RuleStore) (args : RuleArgs) (name : Option Bytes)
    → s.next_rule_id + 1 < 2 ^ 32
    → StoreInv s
    → StoreInv (add_with malloc s args name).1
unfolding add_with
add_with-StoreInv malloc s args none bound v = v
add_with-StoreInv malloc s args (some []) bound v = v
add_with-StoreInv malloc s args (some (c ∷ cs)) bound v =
    add_named-StoreInv malloc s (c ∷ cs) args bound v

-- `ProxyBridge_AddRule` keeps the invariant, whether it succeeds or not.
pub add_rule-StoreInv :
    (malloc : ℕ → Bool) (s : RuleStore) (args : RuleArgs)
    → s.next_rule_id + 1 < 2 ^ 32
    → StoreInv s
    → StoreInv (add_rule malloc s args).1
unfolding add_rule
add_rule-StoreInv malloc s args bound v = add_with-StoreInv malloc s args args.process_name bound v

-- A change of one rule that keeps its number.
change-Good :
    (next id : ℕ) (change : ProcessRule → ProcessRule) {rules : List ProcessRule}
    (sp : Split id rules)
    → (change sp.rule).rule_id ≡ sp.rule.rule_id
    → Good next rules
    → Good next (sp.before ++ change sp.rule ∷ sp.after)
change-Good next id change sp e g =
    let (rest, range) =
      Good-without next sp.before sp.rule sp.after (subst (Good next) sp.splits g) in
    let same : id ≡ (change sp.rule).rule_id = sym (e ∙ (==_iff _ _).0 sp.numbered) in
    Good-with next sp.before (change sp.rule) sp.after rest
      (subst (λ k. (1 ≤ k) × (k < next)) (sym e) range)
      (subst (λ k. Lacks k (sp.before ++ sp.after)) same (Split-others-Lacks sp g.0))

pub install_change-StoreInv :
    (s : RuleStore) (id : ℕ) (change : ProcessRule → ProcessRule)
    → ((r : ProcessRule) → (change r).rule_id ≡ r.rule_id)
    → StoreInv s
    → StoreInv (install s (change_first id change s.rules)).1
unfolding install
install_change-StoreInv s id change keeps v = elim (find-Split id s.rules) [
  | inl lacks ↦ rw (change_first-Lacks id change s.rules lacks) v
  | inr sp ↦
      rw
        (ap (change_first id change) sp.splits
          ∙ change_first-split id change sp.before sp.rule sp.after sp.first sp.numbered)
        (update-StoreInv (record s { rules = sp.before ++ change sp.rule ∷ sp.after })
          (change-Good s.next_rule_id id change sp (keeps sp.rule) v.good) v.next_pos)
]

pub set_enabled-StoreInv :
    (value : Bool) (s : RuleStore) (id : ℕ) → StoreInv s → StoreInv (set_enabled value s id).1
unfolding set_enabled
set_enabled-StoreInv value s id v = elim (Bool-cases (id == 0)) [
  | inl e ↦ rw e v
  | inr e ↦ rw e (install_change-StoreInv s id (λ r. record r { enabled = value }) (λ r. refl) v)
]

pub delete_rule-StoreInv : (s : RuleStore) (id : ℕ) → StoreInv s → StoreInv (delete_rule s id).1
unfolding delete_rule
delete_rule-StoreInv s id v = elim (Bool-cases (id == 0)) [
  | inl e ↦ rw e v
  | inr e ↦ elim (find-Split id s.rules) [
    | inl lacks ↦ rw (e, unlink_first-Lacks id s.rules lacks) v
    | inr sp ↦
        rw (e, unlink_Split sp)
          (update-StoreInv (record s { rules = sp.before ++ sp.after })
            (Good-without s.next_rule_id sp.before sp.rule sp.after
              (subst (Good s.next_rule_id) sp.splits v.good)).0
            v.next_pos)
  ]
]
