-- ===== src/Rules/Store/Ids.antt =====
-- Windows/src/pb_rules.c: the numbers of the rules stay distinct.
use proxy_bridge.Prelude.{ℕ, ◌+◌, ◌≤◌, ◌<◌, List, [], ◌∷◌, ◌++◌, arith, ==_iff, All, subst}
use proxy_bridge.Rules.{ProcessRule}
use proxy_bridge.Rules.Store.Edits.{Lacks, Lacks-append, Lacks-parts, Split}

-- No two rules of the list have one number.
abbrev pub Distinct : List ProcessRule → Type 0
Distinct [] = Unit
Distinct (r ∷ rs) = Lacks r.rule_id rs × Distinct rs

pub Distinct-around :
    (before : List ProcessRule) (rule : ProcessRule) (after : List ProcessRule)
    → Distinct (before ++ rule ∷ after)
    → Lacks rule.rule_id after
Distinct-around [] rule after d = d.0
Distinct-around (r ∷ rs) rule after d = Distinct-around rs rule after d.1

-- A rule may be taken out of the middle, or put there under a number that is not in use.
pub Distinct-without :
    (before : List ProcessRule) (rule : ProcessRule) (after : List ProcessRule)
    → Distinct (before ++ rule ∷ after)
    → Distinct (before ++ after)
Distinct-without [] rule after d = d.1
Distinct-without (r ∷ rs) rule after d =
    let (hx, hy) = Lacks-parts r.rule_id rs (rule ∷ after) d.0 in
    (Lacks-append r.rule_id rs after hx hy.1, Distinct-without rs rule after d.1)

pub Distinct-with :
    (before : List ProcessRule) (rule : ProcessRule) (after : List ProcessRule)
    → Lacks rule.rule_id (before ++ after)
    → Distinct (before ++ after)
    → Distinct (before ++ rule ∷ after)
Distinct-with [] rule after h d = (h, d)
Distinct-with (r ∷ rs) rule after h d =
    let (hx, hy) = Lacks-parts r.rule_id rs after d.0 in
    (
      Lacks-append r.rule_id rs (rule ∷ after) hx (ground (arith, h.0), hy),
      Distinct-with rs rule after h.1 d.1,
    )

-- The rules around the first one with a number lack that number.
pub Split-others-Lacks :
    {id : ℕ} {rules : List ProcessRule} (sp : Split id rules)
    → Distinct rules
    → Lacks id (sp.before ++ sp.after)
Split-others-Lacks {id} sp d = Lacks-append id sp.before sp.after sp.first (
    subst (λ n. Lacks n sp.after) ((==_iff _ _).0 sp.numbered)
      (Distinct-around sp.before sp.rule sp.after (subst Distinct sp.splits d)))

-- Every number is 1 or more, and was given out before `next`.
abbrev pub Numbered : ℕ → List ProcessRule → Type 0
Numbered next rules = All (λ r. (1 ≤ r.rule_id) × (r.rule_id < next)) rules

pub Numbered-parts :
    (next : ℕ) (xs ys : List ProcessRule)
    → Numbered next (xs ++ ys)
    → Numbered next xs × Numbered next ys
Numbered-parts next [] ys h = (tt, h)
Numbered-parts next (x ∷ xs) ys h = let (hx, hy) = Numbered-parts next xs ys h.1 in ((h.0, hx), hy)

pub Numbered-append :
    (next : ℕ) (xs ys : List ProcessRule)
    → Numbered next xs
    → Numbered next ys
    → Numbered next (xs ++ ys)
Numbered-append next [] ys hx hy = hy
Numbered-append next (x ∷ xs) ys hx hy = (hx.0, Numbered-append next xs ys hx.1 hy)

pub Numbered-suc :
    (next : ℕ) (rules : List ProcessRule) → Numbered next rules → Numbered (next + 1) rules
Numbered-suc next [] h = tt
Numbered-suc next (r ∷ rs) h = ((h.0.0, omega arith), Numbered-suc next rs h.1)

pub Numbered-Lacks : (next : ℕ) (rules : List ProcessRule) → Numbered next rules → Lacks next rules
Numbered-Lacks next [] h = tt
Numbered-Lacks next (r ∷ rs) h = (ground (arith, h.0), Numbered-Lacks next rs h.1)

-- A list of rules with distinct numbers, given out before `next`.
abbrev pub Good : ℕ → List ProcessRule → Type 0
Good next rules = Distinct rules × Numbered next rules

pub Good-without :
    (next : ℕ) (before : List ProcessRule) (rule : ProcessRule) (after : List ProcessRule)
    → Good next (before ++ rule ∷ after)
    → Good next (before ++ after) × ((1 ≤ rule.rule_id) × (rule.rule_id < next))
Good-without next before rule after (d, n) =
    let (nb, na) = Numbered-parts next before (rule ∷ after) n in
    ((Distinct-without before rule after d, Numbered-append next before after nb na.1), na.0)

pub Good-with :
    (next : ℕ) (before : List ProcessRule) (rule : ProcessRule) (after : List ProcessRule)
    → Good next (before ++ after)
    → (1 ≤ rule.rule_id) × (rule.rule_id < next)
    → Lacks rule.rule_id (before ++ after)
    → Good next (before ++ rule ∷ after)
Good-with next before rule after (d, n) r lacks =
    let (nb, na) = Numbered-parts next before after n in
    (Distinct-with before rule after lacks d, Numbered-append next before (rule ∷ after) nb (r, na))
