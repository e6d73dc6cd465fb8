-- ===== src/Rules/Store/Kept.antt =====
-- Windows/src/pb_rules.c: what each call of the rule API keeps.
use proxy_bridge.Prelude.{
  ℕ, zero, suc, ◌+◌, ◌≤◌, Bool, false, ◌&&◌, ◌||◌, ◌≡◌, refl, sym, ap, subst, ◌∙◌, inl, inr, List,
  [], ◌∷◌, ◌++◌, Option, none, some, arith, ◌==◌, ==_iff, any, Bytes, Bool-cases, if◌then◌else◌,
  take, drop,
}
use proxy_bridge.Rules.{ProcessRule, rule_has_domain_filter}
use proxy_bridge.Rules.Store.Edits.{Lacks, Split, find-Split}
use proxy_bridge.Rules.Store.Ids.{Good, Good-with, Good-without, Split-others-Lacks}
use proxy_bridge.Rules.Store.Order.{take-append-drop, move_absent, move_refused}
use proxy_bridge.Rules.Store.Moved.{placed, moved_state}
use proxy_bridge.Rules.Store.Flags.{some_enabled, some_domain, StoreInv, install_change-StoreInv}
use proxy_bridge.Rules.Store.{
  RuleStore, RuleArgs, Run, ok, invalidate_udp_decisions, install, update_has_active_rules,
  add_with, rule_size, copies_made, set_enabled, add_rule, delete_rule, edit_rule, edit_with,
  edit_given, edited, duplicated, move_rule_to_position,
}

edit_with-StoreInv :
    (malloc : ℕ → Bool) (s : RuleStore) (id : ℕ) (args : RuleArgs) (name hosts ports : Option Bytes)
    → StoreInv s
    → StoreInv (edit_with malloc s id args name hosts ports).1
unfolding edit_with edit_given
edit_with-StoreInv malloc s id args (some name) (some hosts) (some ports) v =
    elim (Bool-cases (duplicated malloc hosts ports args)) [
      | inl e ↦ rw e (install_change-StoreInv s id (edited name hosts ports args) (λ r. refl) v)
      | inr e ↦ rw e v
    ]
edit_with-StoreInv malloc s id args _ _ _ v = v

pub edit_rule-StoreInv :
    (malloc : ℕ → Bool) (s : RuleStore) (id : ℕ) (args : RuleArgs)
    → StoreInv s
    → StoreInv (edit_rule malloc s id args).1
unfolding edit_rule
edit_rule-StoreInv malloc s id args v = elim (Bool-cases (id == 0)) [
  | inl e ↦ rw e v
  | inr e ↦ rw e (edit_with-StoreInv malloc s id args _ _ _ v)
]

any-middle {ℓ} :
    {A : Type ℓ} (p : A → Bool) (xs : List A) (a : A) (ys : List A)
    → any p (xs ++ a ∷ ys) ≡ (p a || any p (xs ++ ys))
any-middle p [] a ys = refl
any-middle p (x ∷ xs) a ys = rw (any-middle p xs a ys) (ground arith)

-- Taking an entry out of one place and putting it in at another keeps what `any` says.
any_moved {ℓ} :
    {A : Type ℓ} (p : A → Bool) (before : List A) (a : A) (after : List A) (q : ℕ)
    → any p (take q (before ++ after) ++ a ∷ drop q (before ++ after)) ≡ any p (before ++ a ∷ after)
any_moved p before a after q =
    any-middle p (take q (before ++ after)) a (drop q (before ++ after))
    ∙ ap (λ xs. p a || any p xs) (take-append-drop q (before ++ after))
    ∙ sym (any-middle p before a after)

moved-StoreInv :
    (s : RuleStore) (id q : ℕ) (sp : Split id s.rules)
    → StoreInv s
    → StoreInv
        (invalidate_udp_decisions (record s { rules = placed sp.rule (sp.before ++ sp.after) q }))
moved-StoreInv s id q sp v = record {
  active =
      v.active
      ∙ ap some_enabled sp.splits
      ∙ sym (any_moved (λ r. r.enabled) sp.before sp.rule sp.after q);
  domain =
      v.domain
      ∙ ap some_domain sp.splits
      ∙ sym (any_moved (λ r. r.enabled && rule_has_domain_filter r) sp.before sp.rule sp.after q);
  good =
      let (rest, range) =
        Good-without s.next_rule_id sp.before sp.rule sp.after
          (subst (Good s.next_rule_id) sp.splits v.good) in
      let back = sym (take-append-drop q (sp.before ++ sp.after)) in
      Good-with s.next_rule_id (take q (sp.before ++ sp.after)) sp.rule
        (drop q (sp.before ++ sp.after)) (subst (Good s.next_rule_id) back rest) range
        (subst (Lacks sp.rule.rule_id) back (
          subst (λ k. Lacks k (sp.before ++ sp.after)) (sym ((==_iff _ _).0 sp.numbered))
            (Split-others-Lacks sp v.good.0)));
  next_pos = v.next_pos;
}

-- What every call leaves: the invariant, and at most one number taken.
abbrev pub Kept : RuleStore → RuleStore → Type 0
Kept s t = StoreInv t × (t.next_rule_id ≤ s.next_rule_id + 1)

ok_same :
    (b c : Bool) (s t : RuleStore)
    → ◌≡◌ {A = Run (Bool × RuleStore)} (ok (b, s)) (ok (c, t))
    → s ≡ t
ok_same b c s t e = cc

unchanged :
    (b : Bool) (s s' : RuleStore) (r : Run (Bool × RuleStore))
    → StoreInv s
    → r ≡ ok (false, s)
    → r ≡ ok (b, s')
    → Kept s s'
unchanged b s s' r v e f = subst (Kept s) (ok_same false b s s' (sym e ∙ f)) (v, omega arith)

pub move_rule-Kept :
    (s s' : RuleStore) (id p : ℕ) (b : Bool)
    → StoreInv s
    → move_rule_to_position s id p ≡ ok (b, s')
    → Kept s s'
move_rule-Kept s s' id zero b v e = unchanged b s s' _ v (move_refused s id 0 (inr refl)) e
move_rule-Kept s s' zero (suc q) b v e =
    unchanged b s s' _ v (move_refused s 0 (suc q) (inl refl)) e
move_rule-Kept s s' (suc i) (suc q) b v e = elim (find-Split (suc i) s.rules) [
  | inl lacks ↦ unchanged b s s' _ v (move_absent s (suc i) (suc q) lacks) e
  | inr sp ↦
      subst (Kept s) (moved_state b s s' (suc i) q sp (omega arith) e)
        (moved-StoreInv s (suc i) q sp v, omega arith)
]

pub install-next :
    (s : RuleStore) (rules : Option (List ProcessRule))
    → (install s rules).1.next_rule_id ≡ s.next_rule_id
unfolding install update_has_active_rules
install-next s none = refl
install-next s (some rules) = refl

pub add_rule-next :
    (malloc : ℕ → Bool) (s : RuleStore) (args : RuleArgs)
    → (add_rule malloc s args).1.next_rule_id ≤ s.next_rule_id + 1
unfolding add_rule
add_rule-next malloc s args = go args.process_name
  where
    go : (name : Option Bytes) → (add_with malloc s args name).1.next_rule_id ≤ s.next_rule_id + 1
    go none = omega arith
    go (some []) = omega arith
    go (some (c ∷ cs)) = elim (Bool-cases (malloc rule_size)) [
      | inr e ↦ rw e (omega arith)
      | inl e ↦ elim (Bool-cases (copies_made malloc args)) [
        | inr f ↦ rw (e, f) (omega arith)
        | inl f ↦ rw (e, f) (omega arith)
      ]
    ]

pub edit_rule-next :
    (malloc : ℕ → Bool) (s : RuleStore) (id : ℕ) (args : RuleArgs)
    → (edit_rule malloc s id args).1.next_rule_id ≡ s.next_rule_id
unfolding edit_rule edit_with edit_given
edit_rule-next malloc s id args = go args.process_name args.target_hosts args.target_ports
  where
    go :
        (name hosts ports : Option Bytes)
        → (if id == 0
            then (false, s)
            else edit_with malloc s id args name hosts ports).1.next_rule_id
          ≡ s.next_rule_id
    go (some name) (some hosts) (some ports) = elim (Bool-cases (id == 0)) [
      | inl e ↦ rw e
      | inr e ↦ elim (Bool-cases (duplicated malloc hosts ports args)) [
        | inl f ↦ rw (e, f) (install-next s _)
        | inr f ↦ rw (e, f)
      ]
    ]
    go _ _ _ = ground arith

pub set_enabled-next :
    (value : Bool) (s : RuleStore) (id : ℕ)
    → (set_enabled value s id).1.next_rule_id ≡ s.next_rule_id
unfolding set_enabled
set_enabled-next value s id = elim (Bool-cases (id == 0)) [
  | inl e ↦ rw e
  | inr e ↦ rw e (install-next s _)
]

pub delete_rule-next : (s : RuleStore) (id : ℕ) → (delete_rule s id).1.next_rule_id ≡ s.next_rule_id
unfolding delete_rule
delete_rule-next s id = elim (Bool-cases (id == 0)) [
  | inl e ↦ rw e
  | inr e ↦ rw e (install-next s _)
]
