-- ===== src/Rules/Store/Edits.antt =====
-- Windows/src/pb_rules.c: the loops that look for a rule by its number, and what a call leaves.
use proxy_bridge.Prelude.{
  ℕ, ◌+◌, true, false, ◌≡◌, refl, ap, ◌∙◌, ◌⊎◌, inl, inr, List, [], ◌∷◌, ◌++◌, none, some, arith,
  ◌==◌, All, length, Bool-cases,
}
use proxy_bridge.Rules.{ProcessRule}
use proxy_bridge.Rules.Store.{change_first, unlink_first, position_from}

-- No rule of the list has the number.
abbrev pub Lacks : ℕ → List ProcessRule → Type 0
Lacks id rules = All (λ r. (r.rule_id == id) ≡ false) rules

-- The list split at the first rule with a number.
pub record Split (id : ℕ) (rules : List ProcessRule) : Type 0 where
  pub before : List ProcessRule
  pub rule : ProcessRule
  pub after : List ProcessRule
  pub splits : rules ≡ before ++ rule ∷ after
  pub first : Lacks id before
  pub numbered : (rule.rule_id == id) ≡ true

pub Split-cons :
    {id : ℕ} (r : ProcessRule) {rs : List ProcessRule}
    → (r.rule_id == id) ≡ false
    → Split id rs
    → Split id (r ∷ rs)
Split-cons r e s = record {
  before = r ∷ s.before;
  rule = s.rule;
  after = s.after;
  splits = ap (◌∷◌ r) s.splits;
  first = (e, s.first);
  numbered = s.numbered;
}

-- A list holds a rule with the number or lacks it.
pub find-Split : (id : ℕ) (rules : List ProcessRule) → Lacks id rules ⊎ Split id rules
find-Split id [] = inl tt
find-Split id (r ∷ rs) =
    let ih = find-Split id rs in
    elim (Bool-cases (r.rule_id == id)) [
      | inl e ↦
          inr
            (record { before = []; rule = r; after = rs; splits = refl; first = tt; numbered = e })
      | inr e ↦ elim ih [ inl lacks ↦ inl (e, lacks) | inr s ↦ inr (Split-cons r e s) ]
    ]

pub unlink_first-Lacks :
    (id : ℕ) (rules : List ProcessRule) → Lacks id rules → unlink_first id rules ≡ none
unfolding unlink_first
unlink_first-Lacks id [] h = refl
unlink_first-Lacks id (r ∷ rs) h = rw (h.0, unlink_first, unlink_first-Lacks id rs h.1)

pub unlink_first-split :
    (id : ℕ) (before : List ProcessRule) (rule : ProcessRule) (after : List ProcessRule)
    → Lacks id before
    → (rule.rule_id == id) ≡ true
    → unlink_first id (before ++ rule ∷ after) ≡ some (rule, before ++ after)
unfolding unlink_first
unlink_first-split id [] rule after h e = rw (e, unlink_first)
unlink_first-split id (r ∷ rs) rule after h e =
    rw (h.0, unlink_first, unlink_first-split id rs rule after h.1 e)

pub change_first-Lacks :
    (id : ℕ) (change : ProcessRule → ProcessRule) (rules : List ProcessRule)
    → Lacks id rules
    → change_first id change rules ≡ none
unfolding change_first
change_first-Lacks id change [] h = refl
change_first-Lacks id change (r ∷ rs) h =
    rw (h.0, change_first, change_first-Lacks id change rs h.1)

pub change_first-split :
    (id : ℕ) (change : ProcessRule → ProcessRule) (before : List ProcessRule) (rule : ProcessRule)
    (after : List ProcessRule)
    → Lacks id before
    → (rule.rule_id == id) ≡ true
    → change_first id change (before ++ rule ∷ after) ≡ some (before ++ change rule ∷ after)
unfolding change_first
change_first-split id change [] rule after h e = rw (e, change_first)
change_first-split id change (r ∷ rs) rule after h e =
    rw (h.0, change_first, change_first-split id change rs rule after h.1 e)

pub position_from-split :
    (k id : ℕ) (before : List ProcessRule) (rule : ProcessRule) (after : List ProcessRule)
    → Lacks id before
    → (rule.rule_id == id) ≡ true
    → position_from k id (before ++ rule ∷ after) ≡ k + length before
unfolding position_from
position_from-split k id [] rule after h e = rw (e, position_from) (omega arith)
position_from-split k id (r ∷ rs) rule after h e =
    rw (h.0, position_from) (position_from-split (k + 1) id rs rule after h.1 e ∙ omega arith)

pub position_from-Lacks :
    (k id : ℕ) (rules : List ProcessRule) → Lacks id rules → position_from k id rules ≡ 0
unfolding position_from
position_from-Lacks k id [] h = refl
position_from-Lacks k id (r ∷ rs) h =
    rw (h.0, position_from) (position_from-Lacks (k + 1) id rs h.1)

pub Lacks-append :
    (id : ℕ) (xs ys : List ProcessRule) → Lacks id xs → Lacks id ys → Lacks id (xs ++ ys)
Lacks-append id [] ys hx hy = hy
Lacks-append id (x ∷ xs) ys hx hy = (hx.0, Lacks-append id xs ys hx.1 hy)

pub Lacks-parts :
    (id : ℕ) (xs ys : List ProcessRule) → Lacks id (xs ++ ys) → Lacks id xs × Lacks id ys
Lacks-parts id [] ys h = (tt, h)
Lacks-parts id (x ∷ xs) ys h = let (hx, hy) = Lacks-parts id xs ys h.1 in ((h.0, hx), hy)
