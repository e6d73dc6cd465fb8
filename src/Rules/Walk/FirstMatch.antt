-- ===== src/Rules/Walk/FirstMatch.antt =====
-- The order in which rules count: the first rule that is hit, wherever it stands; else the first
-- rule for everything; else DIRECT.
use proxy_bridge.Prelude.{
  ◌≡◌, ◌≢◌, refl, sym, ap, subst, ◌∙◌, List, [], ◌∷◌, ◌++◌, ◌⊎◌, inl, inr, Option, none, some, All,
}
use proxy_bridge.Rules.{direct, ProcessRule, Flow, Verdict, skip, keep, hit, judge}
use proxy_bridge.Rules.Walk.{Match, verdict_of, fallback, first_kept, walk}

-- A result of the walk, with where it comes from.
pub data Decides (flow : Flow) (rules : List ProcessRule) (m : Match) : Type 0 where
  by_hit :
      (before : List ProcessRule) (rule : ProcessRule) (after : List ProcessRule)
      → rules ≡ before ++ rule ∷ after
      → All (λ r. judge flow r ≢ hit) before
      → judge flow rule ≡ hit
      → m ≡ verdict_of rule
      → Decides flow rules m
  by_wildcard :
      (before : List ProcessRule) (rule : ProcessRule) (after : List ProcessRule)
      → rules ≡ before ++ rule ∷ after
      → All (λ r. judge flow r ≢ hit) rules
      → All (λ r. judge flow r ≡ skip) before
      → judge flow rule ≡ keep
      → m ≡ verdict_of rule
      → Decides flow rules m
  by_default : All (λ r. judge flow r ≡ skip) rules → m ≡ (direct, 0) → Decides flow rules m

Verdict-cases : (v : Verdict) → (v ≡ skip) ⊎ (v ≡ keep) ⊎ (v ≡ hit)
Verdict-cases skip = inl refl
Verdict-cases keep = inr (inl refl)
Verdict-cases hit = inr (inr refl)

-- The rule that is held for last once a list without a hit has been walked.
abbrev kept_of : Verdict → Option ProcessRule → ProcessRule → Option ProcessRule
kept_of keep k rule = first_kept k rule
kept_of _ k rule = k

abbrev kept : Flow → Option ProcessRule → List ProcessRule → Option ProcessRule
kept flow k [] = k
kept flow k (rule ∷ rules) = kept flow (kept_of (judge flow rule) k rule) rules

-- A list that splits at its first hit.
abbrev HitAt : Flow → List ProcessRule → Match → Type 0
HitAt flow rules m =
    (before : List ProcessRule) × (rule : ProcessRule) × (after : List ProcessRule) × (rules
      ≡ before ++ rule ∷ after)
    × All (λ r. judge flow r ≢ hit) before
    × (judge flow rule ≡ hit)
    × (m ≡ verdict_of rule)

abbrev NoHit : Flow → List ProcessRule → Type 0
NoHit flow rules = All (λ r. judge flow r ≢ hit) rules

HitAt-cons :
    (flow : Flow) (r : ProcessRule) (rs : List ProcessRule) {m : Match}
    → judge flow r ≢ hit
    → HitAt flow rs m
    → HitAt flow (r ∷ rs) m
HitAt-cons flow r rs n (before, rule, after, e, none_before, h, v) =
    (r ∷ before, rule, after, ap (◌∷◌ r) e, (n, none_before), h, v)

-- Where a rule is not hit the walk goes on behind it.
walk-cons :
    (flow : Flow) (k : Option ProcessRule) (r : ProcessRule) (rs : List ProcessRule)
    → judge flow r ≢ hit
    → walk flow k (r ∷ rs) ≡ walk flow (kept_of (judge flow r) k r) rs
unfolding walk
walk-cons flow k r rs n = elim (Verdict-cases (judge flow r)) [
  | inl e ↦ rw (e, walk)
  | inr (inl e) ↦ rw (e, walk)
  | inr (inr e) ↦ absurd (n e)
]

-- What a walk comes to: the first hit, or the rule held for last.
abbrev Outcome : Flow → Option ProcessRule → List ProcessRule → Type 0
Outcome flow k rules =
    HitAt flow rules (walk flow k rules)
    ⊎ (NoHit flow rules × (walk flow k rules ≡ fallback (kept flow k rules)))

Outcome-cons :
    (flow : Flow) (k : Option ProcessRule) (r : ProcessRule) (rs : List ProcessRule)
    → judge flow r ≢ hit
    → Outcome flow (kept_of (judge flow r) k r) rs
    → Outcome flow k (r ∷ rs)
Outcome-cons flow k r rs n (inl h) = inl (rw (walk-cons flow k r rs n) (HitAt-cons flow r rs n h))
Outcome-cons flow k r rs n (inr (all, e)) = inr ((n, all), walk-cons flow k r rs n ∙ e)

walk-Outcome :
    (flow : Flow) (k : Option ProcessRule) (rules : List ProcessRule) → Outcome flow k rules
unfolding walk
walk-Outcome flow k [] = inr (tt, refl)
walk-Outcome flow k (r ∷ rs) =
    let ih = λ (k' : Option ProcessRule). walk-Outcome flow k' rs in
    elim (Verdict-cases (judge flow r)) [
      | inl e ↦ Outcome-cons flow k r rs (rw e (λ h. cc)) (ih _)
      | inr (inl e) ↦ Outcome-cons flow k r rs (rw e (λ h. cc)) (ih _)
      | inr (inr e) ↦ inl ([], r, rs, refl, tt, e, rw (e, walk))
    ]

kept-some : (flow : Flow) (w : ProcessRule) (rs : List ProcessRule) → kept flow (some w) rs ≡ some w
kept-some flow w [] = refl
kept-some flow w (r ∷ rs) = elim (Verdict-cases (judge flow r)) [
  | inl e ↦ rw e (kept-some flow w rs)
  | inr (inl e) ↦ rw e (kept-some flow w rs)
  | inr (inr e) ↦ rw e (kept-some flow w rs)
]

-- Without a hit, every rule is skipped, or the first that is not is the one held for last.
abbrev KeptAt : Flow → List ProcessRule → Option ProcessRule → Type 0
KeptAt flow rules k =
    (All (λ r. judge flow r ≡ skip) rules × (k ≡ none))
    ⊎ ((before : List ProcessRule) × (rule : ProcessRule) × (after : List ProcessRule) × (rules
          ≡ before ++ rule ∷ after)
        × All (λ r. judge flow r ≡ skip) before
        × (judge flow rule ≡ keep)
        × (k ≡ some rule))

KeptAt-cons :
    (flow : Flow) (r : ProcessRule) (rs : List ProcessRule) {k : Option ProcessRule}
    → judge flow r ≡ skip
    → KeptAt flow rs k
    → KeptAt flow (r ∷ rs) k
KeptAt-cons flow r rs e (inl (all, n)) = inl ((e, all), n)
KeptAt-cons flow r rs e (inr (before, rule, after, split, skips, h, k)) =
    inr (r ∷ before, rule, after, ap (◌∷◌ r) split, (e, skips), h, k)

kept-none :
    (flow : Flow) (rules : List ProcessRule)
    → NoHit flow rules
    → KeptAt flow rules (kept flow none rules)
kept-none flow [] h = inl (tt, refl)
kept-none flow (r ∷ rs) h = elim (Verdict-cases (judge flow r)) [
  | inl e ↦
      subst (λ v. KeptAt flow (r ∷ rs) (kept flow (kept_of v none r) rs)) (sym e)
        (KeptAt-cons flow r rs e (kept-none flow rs h.1))
  | inr (inl e) ↦
      subst (λ v. KeptAt flow (r ∷ rs) (kept flow (kept_of v none r) rs)) (sym e)
        (inr ([], r, rs, refl, tt, e, kept-some flow r rs))
  | inr (inr e) ↦ absurd (h.0 e)
]

KeptAt-Decides :
    (flow : Flow) (rules : List ProcessRule) (k : Option ProcessRule) (m : Match)
    → NoHit flow rules
    → m ≡ fallback k
    → KeptAt flow rules k
    → Decides flow rules m
KeptAt-Decides flow rules k m n e (inl (all, none_kept)) =
    by_default all (e ∙ ap fallback none_kept)
KeptAt-Decides flow rules k m n e (inr (before, rule, after, split, skips, kept_here, is_kept)) =
    by_wildcard before rule after split n skips kept_here (e ∙ ap fallback is_kept)

-- The walk gives the action and the proxy of the first rule that is hit; if none is, those of the
-- first rule that is kept for last; and if there is none of these either, DIRECT with proxy 0.
pub walk-Decides :
    (flow : Flow) (rules : List ProcessRule) → Decides flow rules (walk flow none rules)
walk-Decides flow rules = elim (walk-Outcome flow none rules) [
  | inl (before, rule, after, split, n, h, e) ↦ by_hit before rule after split n h e
  | inr (n, e) ↦ KeptAt-Decides flow rules _ _ n e (kept-none flow rules n)
]
