-- ===== src/Rules/Store/Calls.antt =====
-- Windows/src/pb_rules.c: sequences of calls of the rule API.
use proxy_bridge.Prelude.{
  ℕ, Bytes, ◌+◌, ◌<◌, ◌^◌, Bool, true, false, ◌≡◌, refl, subst, ◌⊎◌, inl, inr, List, [], ◌∷◌,
  Option, none, some, arith, length, u32, ◌==◌, ◌||◌, if◌then◌else◌, Bool-cases,
}
use proxy_bridge.Rules.{ProcessRule}
use proxy_bridge.Rules.Store.Flags.{
  StoreInv, add_rule-StoreInv, set_enabled-StoreInv, delete_rule-StoreInv,
}
use proxy_bridge.Rules.Store.Kept.{
  Kept, edit_rule-StoreInv, move_rule-Kept, add_rule-next, edit_rule-next, set_enabled-next,
  delete_rule-next,
}
use proxy_bridge.Rules.Store.{
  RuleStore, RuleArgs, Run, ok, null_pointer, install, change_first, unlink_first, add_rule,
  add_with, rule_size, copies_made, enable_rule, disable_rule, set_enabled, unlinked, delete_rule,
  edit_rule, edit_with, edit_given, duplicated, move_rule_to_position, move_found, finish_move,
  update_has_active_rules,
}

-- The calls that change the rules.
pub data Call : Type 0 where
  adds : RuleArgs → Call
  edits : ℕ → RuleArgs → Call
  enables disables deletes : ℕ → Call
  moves : ℕ → ℕ → Call

abbrev after_move : Run (Bool × RuleStore) → Run RuleStore
after_move null_pointer = null_pointer
after_move (ok (b, s)) = ok s

-- One call, and the outcomes of the allocations that it makes.
pub step : RuleStore → (ℕ → Bool) × Call → Run RuleStore
step s (malloc, adds args) = ok (add_rule malloc s args).1
step s (malloc, edits id args) = ok (edit_rule malloc s id args).1
step s (malloc, enables id) = ok (enable_rule s id).1
step s (malloc, disables id) = ok (disable_rule s id).1
step s (malloc, deletes id) = ok (delete_rule s id).1
step s (malloc, moves id p) = after_move (move_rule_to_position s id p)

next_run : Run RuleStore → (RuleStore → Run RuleStore) → Run RuleStore
next_run null_pointer f = null_pointer
next_run (ok s) f = f s

unfoldable pub run : RuleStore → List ((ℕ → Bool) × Call) → Run RuleStore
unfolding step next_run
run s [] = ok s
run s (c ∷ cs) = next_run (step s c) (λ t. run t cs)

Run-inv :
    (r : Run RuleStore) (f : RuleStore → Run RuleStore) {t : RuleStore}
    → next_run r f ≡ ok t
    → (a : RuleStore) × (r ≡ ok a) × (f a ≡ ok t)
unfolding next_run
Run-inv (ok a) f e = (a, refl, e)
Run-inv null_pointer f e = cc

ok_injective : (s t : RuleStore) → ok s ≡ ok t → s ≡ t
ok_injective s t e = cc

after_move-inv :
    (r : Run (Bool × RuleStore)) (t : RuleStore)
    → after_move r ≡ ok t
    → (b : Bool) × (r ≡ ok (b, t))
after_move-inv null_pointer t e = cc
after_move-inv (ok (b, s)) t e = (b, cc)

step-Kept :
    (s t : RuleStore) (c : (ℕ → Bool) × Call)
    → s.next_rule_id + 1 < 2 ^ 32
    → StoreInv s
    → step s c ≡ ok t
    → Kept s t
unfolding step enable_rule disable_rule
step-Kept s t (malloc, adds args) bound v e =
    subst (Kept s) (ok_injective _ _ e)
      (add_rule-StoreInv malloc s args bound v, add_rule-next malloc s args)
step-Kept s t (malloc, edits id args) bound v e =
    subst (Kept s) (ok_injective _ _ e)
      (edit_rule-StoreInv malloc s id args v, omega (arith, edit_rule-next malloc s id args))
step-Kept s t (malloc, enables id) bound v e =
    subst (Kept s) (ok_injective _ _ e)
      (set_enabled-StoreInv true s id v, omega (arith, set_enabled-next true s id))
step-Kept s t (malloc, disables id) bound v e =
    subst (Kept s) (ok_injective _ _ e)
      (set_enabled-StoreInv false s id v, omega (arith, set_enabled-next false s id))
step-Kept s t (malloc, deletes id) bound v e =
    subst (Kept s) (ok_injective _ _ e)
      (delete_rule-StoreInv s id v, omega (arith, delete_rule-next s id))
step-Kept s t (malloc, moves id p) bound v e =
    let (b, m) = after_move-inv (move_rule_to_position s id p) t e in move_rule-Kept s t id p b v m

-- Every history of calls that returns keeps the invariant, as long as fewer than 2 ^ 32 numbers are
-- given out: the flags say whether a rule is enabled and whether an enabled rule restricts domains,
-- and the numbers of the rules are distinct, at least 1 and below the next one.
pub run-StoreInv :
    (s t : RuleStore) (cs : List ((ℕ → Bool) × Call))
    → s.next_rule_id + length cs < 2 ^ 32
    → StoreInv s
    → run s cs ≡ ok t
    → StoreInv t
unfolding run
run-StoreInv s t [] bound v e = subst StoreInv (ok_injective s t e) v
run-StoreInv s t (c ∷ cs) bound v e =
    let (u, one, rest) = Run-inv (step s c) (λ x. run x cs) e in
    let k = step-Kept s u c (omega arith) v one in run-StoreInv u t cs (omega (arith, k.1)) k.0 rest

-- A change of the list comes with a new generation of UDP decisions.
abbrev pub Renewed : RuleStore → RuleStore → Type 0
Renewed s t = (t.rules ≡ s.rules) ⊎ (t.udp_generation ≡ u32 (s.udp_generation + 1))

install-Renewed : (s : RuleStore) (o : Option (List ProcessRule)) → Renewed s (install s o).1
unfolding install update_has_active_rules
install-Renewed s none = inl refl
install-Renewed s (some rules) = inr refl

add_with-Renewed :
    (malloc : ℕ → Bool) (s : RuleStore) (args : RuleArgs) (name : Option Bytes)
    → Renewed s (add_with malloc s args name).1
unfolding add_with update_has_active_rules
add_with-Renewed malloc s args none = inl refl
add_with-Renewed malloc s args (some []) = inl refl
add_with-Renewed malloc s args (some (c ∷ cs)) = elim (Bool-cases (malloc rule_size)) [
  | inr e ↦ rw e (inl refl)
  | inl e ↦ elim (Bool-cases (copies_made malloc args)) [
    | inr f ↦ rw (e, f) (inl refl)
    | inl f ↦ rw (e, f) (inr refl)
  ]
]

edit_with-Renewed :
    (malloc : ℕ → Bool) (s : RuleStore) (id : ℕ) (args : RuleArgs) (name hosts ports : Option Bytes)
    → Renewed s (edit_with malloc s id args name hosts ports).1
unfolding edit_with edit_given
edit_with-Renewed malloc s id args (some name) (some hosts) (some ports) =
    elim (Bool-cases (duplicated malloc hosts ports args)) [
      | inl e ↦ rw e (install-Renewed s _)
      | inr e ↦ rw e (inl refl)
    ]
edit_with-Renewed malloc s id args _ _ _ = inl refl

-- Behind the guard for the number 0.
guarded-Renewed :
    (s : RuleStore) (id : ℕ) (r : Bool × RuleStore)
    → Renewed s r.1
    → Renewed s (if id == 0 then (false, s) else r).1
guarded-Renewed s id r h = elim (Bool-cases (id == 0)) [ inl e ↦ rw e (inl refl) | inr e ↦ rw e h ]

guarded_install-Renewed :
    (s : RuleStore) (id : ℕ) (o : Option (List ProcessRule))
    → Renewed s (if id == 0 then (false, s) else install s o).1
guarded_install-Renewed s id o = guarded-Renewed s id (install s o) (install-Renewed s o)

finish_move-Renewed :
    (s t : RuleStore) (b : Bool) (r : Run (List ProcessRule))
    → finish_move s r ≡ ok (b, t)
    → Renewed s t
unfolding finish_move
finish_move-Renewed s t b null_pointer e = cc
finish_move-Renewed s t b (ok rules) e = inr (ground arith)

move_found-Renewed :
    (s t : RuleStore) (b : Bool) (p : ℕ) (o : Option (ProcessRule × List ProcessRule))
    → move_found s p o ≡ ok (b, t)
    → Renewed s t
unfolding move_found
move_found-Renewed s t b p none e = inl (ground arith)
move_found-Renewed s t b p (some (rule, rest)) e = finish_move-Renewed s t b _ e

move_rule-Renewed :
    (s t : RuleStore) (b : Bool) (id p : ℕ) → move_rule_to_position s id p ≡ ok (b, t) → Renewed s t
unfolding move_rule_to_position
move_rule-Renewed s t b id p e = elim (Bool-cases (id == 0 || p == 0)) [
  | inl f ↦ inl (ground (arith, rw f at e))
  | inr f ↦ move_found-Renewed s t b p _ (rw f at e)
]

-- A call that returns either leaves the list of rules as it was, or makes the generation of UDP
-- decisions the next number, modulo 2 ^ 32.
pub step-Renewed : (s t : RuleStore) (c : (ℕ → Bool) × Call) → step s c ≡ ok t → Renewed s t
unfolding step enable_rule disable_rule set_enabled delete_rule add_rule edit_rule
step-Renewed s t (malloc, adds args) e =
    subst (Renewed s) (ok_injective _ _ e) (add_with-Renewed malloc s args args.process_name)
step-Renewed s t (malloc, edits id args) e = subst (Renewed s) (ok_injective _ _ e) (
    guarded-Renewed s id
      (edit_with malloc s id args args.process_name args.target_hosts args.target_ports)
      (edit_with-Renewed malloc s id args args.process_name args.target_hosts args.target_ports))
step-Renewed s t (malloc, enables id) e =
    subst (Renewed s) (ok_injective _ _ e)
      (guarded_install-Renewed s id (change_first id (λ r. record r { enabled = true }) s.rules))
step-Renewed s t (malloc, disables id) e =
    subst (Renewed s) (ok_injective _ _ e)
      (guarded_install-Renewed s id (change_first id (λ r. record r { enabled = false }) s.rules))
step-Renewed s t (malloc, deletes id) e =
    subst (Renewed s) (ok_injective _ _ e)
      (guarded_install-Renewed s id (unlinked (unlink_first id s.rules)))
step-Renewed s t (malloc, moves id p) e =
    let (b, m) = after_move-inv (move_rule_to_position s id p) t e in move_rule-Renewed s t b id p m
