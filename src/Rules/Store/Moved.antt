-- ===== src/Rules/Store/Moved.antt =====
-- Windows/src/pb_rules.c: the order of the rules after `ProxyBridge_MoveRuleToPosition`.
use Prim.Native.Nat.{min}
use proxy_bridge.Prelude.{
  ℕ, zero, suc, ◌+◌, Bool, true, ◌≡◌, ◌≢◌, refl, sym, ap, subst, ◌∙◌, inl, inr, List, ◌∷◌, ◌++◌,
  some, arith, ◌==◌, length, length-append, length-take, take, drop, u32,
}
use proxy_bridge.Rules.{ProcessRule}
use proxy_bridge.Rules.Store.Edits.{
  Lacks, Split, find-Split, unlink_first-split, position_from-split, Lacks-parts,
}
use proxy_bridge.Rules.Store.Ids.{Distinct, Split-others-Lacks}
use proxy_bridge.Rules.Store.{
  RuleStore, Run, ok, unlink_first, position_from, get_rule_position, insert_at, finish_move,
  move_rule_to_position, invalidate_udp_decisions,
}
use proxy_bridge.Rules.Store.Order.{
  take-append-drop, insert_at-take, unlink_Split, move_present, move_refused, move_absent,
  Run-cases,
}

-- What a successful move says of the order.
pub record Moved (s s' : RuleStore) (id p : ℕ) : Type 0 where
  pub rule : ProcessRule
  pub others : List ProcessRule
  pub was : unlink_first id s.rules ≡ some (rule, others)
  pub is : unlink_first id s'.rules ≡ some (rule, others)
  pub position : get_rule_position s' id ≡ min p (length s.rules)
  pub generation : s'.udp_generation ≡ u32 (s.udp_generation + 1)

abbrev pub placed : ProcessRule → List ProcessRule → ℕ → List ProcessRule
placed rule others q = take q others ++ rule ∷ drop q others

take-Lacks :
    (id : ℕ) (others : List ProcessRule) (q : ℕ) → Lacks id others → Lacks id (take q others)
take-Lacks id others q lacks =
    (Lacks-parts id (take q others) (drop q others)
      (subst (Lacks id) (sym (take-append-drop q others)) lacks)).0

module _ (id : ℕ) (rule : ProcessRule) (others : List ProcessRule) (q : ℕ) (lacks : Lacks id others)
    (numbered : (rule.rule_id == id) ≡ true) where
  unlink_placed : unlink_first id (placed rule others q) ≡ some (rule, others)
  unlink_placed =
      unlink_first-split id (take q others) rule (drop q others) (take-Lacks id others q lacks)
        numbered
      ∙ ap (λ xs. some (rule, xs)) (take-append-drop q others)

  position_placed : position_from 1 id (placed rule others q) ≡ 1 + min q (length others)
  position_placed =
      position_from-split 1 id (take q others) rule (drop q others) (take-Lacks id others q lacks)
        numbered
      ∙ ap (λ n. 1 + n) (length-take q others)

Split-length :
    {id : ℕ} {rules : List ProcessRule} (sp : Split id rules)
    → length rules ≡ 1 + length (sp.before ++ sp.after)
Split-length sp =
    ap length sp.splits
    ∙ omega (arith, length-append sp.before (sp.rule ∷ sp.after), length-append sp.before sp.after)

Moved-placed :
    (s : RuleStore) (id q : ℕ) (sp : Split id s.rules)
    → id ≢ 0
    → Distinct s.rules
    → Moved s
        (invalidate_udp_decisions (record s { rules = placed sp.rule (sp.before ++ sp.after) q }))
        id
        (suc q)
unfolding get_rule_position
Moved-placed s id q sp n d =
    let lacks = Split-others-Lacks sp d in
    record {
      rule = sp.rule;
      others = sp.before ++ sp.after;
      was = unlink_Split sp;
      is = unlink_placed id sp.rule _ q lacks sp.numbered;
      position = ground (arith, position_placed id sp.rule _ q lacks sp.numbered, Split-length sp);
      generation = refl;
    }

ok_injective :
    (b : Bool) (s t : RuleStore)
    → ◌≡◌ {A = Run (Bool × RuleStore)} (ok (true, s)) (ok (b, t))
    → s ≡ t
ok_injective b s t e = cc

pub moved_state :
    (b : Bool) (s s' : RuleStore) (id q : ℕ) (sp : Split id s.rules)
    → id ≢ 0
    → move_rule_to_position s id (suc q) ≡ ok (b, s')
    → invalidate_udp_decisions (record s { rules = placed sp.rule (sp.before ++ sp.after) q }) ≡ s'
unfolding finish_move
moved_state b s s' id q sp n e =
    elim (Run-cases (insert_at (suc q) sp.rule (sp.before ++ sp.after))) [
      | inl f ↦ cc (move_present s id q sp n, ap (finish_move s) f)
      | inr (out, o) ↦
          let at_q = insert_at-take q sp.rule _ out o in
          let run : ◌≡◌ {A = Run (Bool × RuleStore)}
              (ok (true, invalidate_udp_decisions (record s { rules = out }))) (ok (b, s')) =
            sym (move_present s id q sp n ∙ ap (finish_move s) o) ∙ e in
          subst (λ xs. invalidate_udp_decisions (record s { rules = xs }) ≡ s') at_q
            (ok_injective b _ _ run)
    ]

-- A move that succeeds takes the rule with the number to the position, or to the end where the
-- list is shorter; the other rules keep their order; and cached UDP decisions are invalidated.
pub move_rule-Moved :
    (s s' : RuleStore) (id p : ℕ)
    → Distinct s.rules
    → move_rule_to_position s id p ≡ ok (true, s')
    → Moved s s' id p
move_rule-Moved s s' id zero d e = cc (move_refused s id 0 (inr refl))
move_rule-Moved s s' zero (suc q) d e = cc (move_refused s 0 (suc q) (inl refl))
move_rule-Moved s s' (suc i) (suc q) d e = elim (find-Split (suc i) s.rules) [
  | inl lacks ↦ cc (move_absent s (suc i) (suc q) lacks)
  | inr sp ↦
      subst (λ t. Moved s t (suc i) (suc q)) (moved_state true s s' (suc i) q sp (omega arith) e)
        (Moved-placed s (suc i) q sp (omega arith) d)
]
