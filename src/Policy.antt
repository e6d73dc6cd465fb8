-- ===== src/Policy.antt =====
-- Windows/src/pb_rules.c, pb_conntrack.c: how a change of the rules reaches the decisions on UDP
-- flows that are cached: both read one generation number, `g_udp_generation`.
use proxy_bridge.Prelude.{
  ℕ, ◌+◌, ◌≤◌, ◌<◌, ◌^◌, Bool, false, ◌≡◌, ◌≢◌, subst, inl, inr, List, [], ◌∷◌, All, Bool-cases,
  arith,
}
use proxy_bridge.Rules.Store.{RuleStore, ok}
use proxy_bridge.Rules.Store.Calls.{Call, step, step-Renewed}
use proxy_bridge.Conntrack.Direct.{
  DirectKey, Remember, IsKey, AllKeys, Vouched, remember_all, udp_direct_cached,
  remember_all-Vouched,
}

-- The decisions that were remembered up to a generation.
abbrev pub UpTo : ℕ → List Remember → Type 0
UpTo generation rs = All (λ (r : Remember). r.0 ≤ generation) rs

unvouched :
    (generation now : ℕ) (k : DirectKey) (rs : List Remember)
    → UpTo generation rs
    → Vouched (generation + 1) now k rs
    → ⊥
unvouched generation now k [] up v = v
unvouched generation now k (r ∷ rs) (u, up) (inl v) = omega (arith, v.1)
unvouched generation now k (r ∷ rs) (u, up) (inr v) = unvouched generation now k rs up v

-- Once a call of the rule API has changed the rules, no decision on a UDP flow that was remembered
-- before counts any more, as long as the generation number has not wrapped around.
pub step-udp_direct_cached :
    (s t : RuleStore) (c : (ℕ → Bool) × Call) (now : ℕ) (k : DirectKey) (rs : List Remember)
    → step s c ≡ ok t
    → t.rules ≢ s.rules
    → s.udp_generation + 1 < 2 ^ 32
    → IsKey k
    → AllKeys rs
    → UpTo s.udp_generation rs
    → udp_direct_cached (remember_all rs) t.udp_generation now k ≡ false
step-udp_direct_cached s t c now k rs e changed bound key keys up =
    elim (Bool-cases (udp_direct_cached (remember_all rs) t.udp_generation now k)) [
      | inr h ↦ h
      | inl h ↦ elim (step-Renewed s t c e) [
        | inl same ↦ absurd (changed same)
        | inr g ↦
            let next : t.udp_generation ≡ s.udp_generation + 1 = omega arith in
            absurd (
              unvouched s.udp_generation now k rs up (
                subst (λ x. Vouched x now k rs) next
                  (remember_all-Vouched t.udp_generation now k rs key keys h)))
      ]
    ]
