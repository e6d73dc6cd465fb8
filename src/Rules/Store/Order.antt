-- ===== src/Rules/Store/Order.antt =====
-- Windows/src/pb_rules.c: what `ProxyBridge_MoveRuleToPosition` does to the order of the rules.
use proxy_bridge.Prelude.{
  ℕ, zero, suc, ◌-◌, ◌≤◌, ◌<◌, false, ◌≡◌, ◌≢◌, refl, ap, ◌∙◌, ◌⊎◌, ◌↔◌, inl, inr, List, [], ◌∷◌,
  ◌++◌, some, arith, ==_iff, take, drop,
}
use proxy_bridge.Rules.{ProcessRule}
use proxy_bridge.Rules.Store.Edits.{
  Lacks, Split, find-Split, unlink_first-Lacks, unlink_first-split,
}
use proxy_bridge.Rules.Store.{
  RuleStore, Run, ok, null_pointer, unlink_first, insert_after, insert_at, finish_move,
  move_rule_to_position,
}

pub take-append-drop {ℓ} : {A : Type ℓ} (n : ℕ) (xs : List A) → take n xs ++ drop n xs ≡ xs
take-append-drop zero xs = refl
take-append-drop (suc n) [] = refl
take-append-drop (suc n) (x ∷ xs) = ap (◌∷◌ x) (take-append-drop n xs)

insert_after-take :
    (n : ℕ) (rule c : ProcessRule) (cs : List ProcessRule)
    → insert_after n rule (c ∷ cs) ≡ take (suc n) (c ∷ cs) ++ rule ∷ drop (suc n) (c ∷ cs)
unfolding insert_after
insert_after-take zero rule c cs = refl
insert_after-take (suc n) rule c [] = refl
insert_after-take (suc n) rule c (d ∷ ds) = ap (◌∷◌ c) (insert_after-take n rule d ds)

-- What the insertion gives: past position 1 it faults on the empty list.
insert_at-first :
    (rule : ProcessRule) (rest : List ProcessRule) → insert_at 1 rule rest ≡ ok (rule ∷ rest)
unfolding insert_at
insert_at-first rule rest = refl

insert_at-nil : (q : ℕ) (rule : ProcessRule) → insert_at (suc (suc q)) rule [] ≡ null_pointer
unfolding insert_at
insert_at-nil q rule = ground arith

insert_at-cons :
    (q : ℕ) (rule c : ProcessRule) (cs : List ProcessRule)
    → insert_at (suc (suc q)) rule (c ∷ cs)
      ≡ ok (take (suc q) (c ∷ cs) ++ rule ∷ drop (suc q) (c ∷ cs))
unfolding insert_at
insert_at-cons q rule c cs =
    let back : suc (suc q) - 2 ≡ q = omega arith in
    ground (arith, insert_after-take q rule c cs, ap (λ n. insert_after n rule (c ∷ cs)) back)

-- The rule stands behind the first `q` of the others.
pub insert_at-take :
    (q : ℕ) (rule : ProcessRule) (rest out : List ProcessRule)
    → insert_at (suc q) rule rest ≡ ok out
    → out ≡ take q rest ++ rule ∷ drop q rest
insert_at-take zero rule rest out e = cc (insert_at-first rule rest)
insert_at-take (suc q) rule [] out e = cc (insert_at-nil q rule)
insert_at-take (suc q) rule (c ∷ cs) out e = cc (insert_at-cons q rule c cs)

insert_at-faults :
    (q : ℕ) (rule : ProcessRule) (rest : List ProcessRule)
    → insert_at (suc q) rule rest ≡ null_pointer
    → (0 < q) × (rest ≡ [])
insert_at-faults zero rule rest e = cc (insert_at-first rule rest)
insert_at-faults (suc q) rule [] e = (omega arith, refl)
insert_at-faults (suc q) rule (c ∷ cs) e = cc (insert_at-cons q rule c cs)

-- What a move comes to, by the place of the rule in the list.
pub move_absent :
    (s : RuleStore) (id p : ℕ) → Lacks id s.rules → move_rule_to_position s id p ≡ ok (false, s)
unfolding move_rule_to_position
move_absent s id p h = rw (unlink_first-Lacks id s.rules h) (ground arith)

pub unlink_Split :
    {id : ℕ} {rules : List ProcessRule} (sp : Split id rules)
    → unlink_first id rules ≡ some (sp.rule, sp.before ++ sp.after)
unlink_Split {id} sp =
    ap (unlink_first id) sp.splits
    ∙ unlink_first-split id sp.before sp.rule sp.after sp.first sp.numbered

pub move_present :
    (s : RuleStore) (id q : ℕ) (sp : Split id s.rules)
    → id ≢ 0
    → move_rule_to_position s id (suc q)
      ≡ finish_move s (insert_at (suc q) sp.rule (sp.before ++ sp.after))
unfolding move_rule_to_position
move_present s id q sp n = rw (unlink_Split sp) (ground arith)

pub move_refused :
    (s : RuleStore) (id p : ℕ) → (id ≡ 0) ⊎ (p ≡ 0) → move_rule_to_position s id p ≡ ok (false, s)
unfolding move_rule_to_position
move_refused s id p h = ground arith

append-eq-nil : (xs ys : List ProcessRule) → xs ++ ys ≡ [] → (xs ≡ []) × (ys ≡ [])
append-eq-nil [] ys e = (refl, e)
append-eq-nil (x ∷ xs) ys e = cc

pub Run-cases {ℓ} : {A : Type ℓ} (r : Run A) → (r ≡ null_pointer) ⊎ ((a : A) × (r ≡ ok a))
Run-cases null_pointer = inl refl
Run-cases (ok a) = inr (a, refl)

-- The state that brings the fault about.
abbrev pub IsLoneMove : RuleStore → ℕ → ℕ → Type 0
IsLoneMove s id p = (id ≢ 0) × (2 ≤ p) × ((r : ProcessRule) × (s.rules ≡ r ∷ []) × (r.rule_id ≡ id))

fault_Split :
    (s : RuleStore) (id q : ℕ) (sp : Split id s.rules)
    → id ≢ 0
    → insert_at (suc q) sp.rule (sp.before ++ sp.after) ≡ null_pointer
    → IsLoneMove s id (suc q)
fault_Split s id q sp n e =
    let (pos, empty) = insert_at-faults q sp.rule _ e in
    let (b, a) = append-eq-nil sp.before sp.after empty in
    (
      n,
      omega arith,
      (
        sp.rule,
        sp.splits ∙ ap (λ xs. xs ++ sp.rule ∷ sp.after) b ∙ ap (λ ys. sp.rule ∷ ys) a,
        (==_iff _ _).0 sp.numbered,
      ),
    )

move_fault :
    (s : RuleStore) (id p : ℕ) → move_rule_to_position s id p ≡ null_pointer → IsLoneMove s id p
unfolding finish_move
move_fault s id zero e = cc (move_refused s id 0 (inr refl))
move_fault s zero (suc q) e = cc (move_refused s 0 (suc q) (inl refl))
move_fault s (suc i) (suc q) e = elim (find-Split (suc i) s.rules) [
  | inl lacks ↦ cc (move_absent s (suc i) (suc q) lacks)
  | inr sp ↦
      let present = move_present s (suc i) q sp (omega arith) in
      elim (Run-cases (insert_at (suc q) sp.rule (sp.before ++ sp.after))) [
        | inl f ↦ fault_Split s (suc i) q sp (omega arith) f
        | inr (out, o) ↦ cc (ap (finish_move s) o)
      ]
]

-- Moving a rule follows a NULL pointer exactly where the rule is the only one and the position is
-- past 1: the list that is left is empty, and the search for its tail reads its first entry.
pub move_rule-null_pointer :
    (s : RuleStore) (id p : ℕ) → (move_rule_to_position s id p ≡ null_pointer) ↔ IsLoneMove s id p
unfolding finish_move unlink_first
move_rule-null_pointer s id p = (move_fault s id p, back p)
  where
    back : (p : ℕ) → IsLoneMove s id p → move_rule_to_position s id p ≡ null_pointer
    back zero h = absurd (omega arith)
    back (suc zero) h = absurd (omega arith)
    back (suc (suc q)) (n, le, (r, e, is)) =
        let sp : Split id s.rules = record {
          before = [];
          rule = r;
          after = [];
          splits = e;
          first = tt;
          numbered = (==_iff _ _).1 is;
        } in
        move_present s id (suc q) sp n ∙ ap (finish_move s) (insert_at-nil q r)
