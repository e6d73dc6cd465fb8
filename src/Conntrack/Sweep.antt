-- ===== src/Conntrack/Sweep.antt =====
-- Windows/src/pb_conntrack.c: the sweep of `cleanup_stale_connections` over the forward table.
use proxy_bridge.Prelude.{
  ℕ, ◌≤◌, true, false, ◌≡◌, refl, sym, ap, subst, ◌∙◌, List, [], ◌∷◌, none, some, ◌==◌, ==_iff,
  Bool-cases, arith, inl, inr,
}
use proxy_bridge.Conntrack.{Connection, Tracker, value, and_then, home}
use proxy_bridge.Conntrack.Chains.{bit, count, count_head}
use proxy_bridge.Conntrack.Counted.{expected}
use proxy_bridge.Conntrack.Linked.{
  Linked, Gives, in_forward, released, release-released, released-Linked, forward-Live,
}
use proxy_bridge.Conntrack.Table.{
  release, is_stale, Place, at_head, in_cell, Sweeping, behind_cell, chain_from, is_held, sweep,
  moved_on, sweep_on,
}

-- The rest of a chain that the sweep has still to walk is part of the chain.
abbrev Rest : List ℕ → List ℕ → Type 0
Rest ps l = (x : ℕ) → count x ps ≤ count x l

cell_home :
    (t : Tracker) (b p : ℕ) (c : Connection)
    → Linked t
    → 1 ≤ count p (t.forward b)
    → t.heap p ≡ some c
    → b ≡ home c.src_port
cell_home t b p c v n holds =
    let z : count p (t.forward b) ≡ bit (home c.src_port == b) =
      v.in_home b p ∙ ap (expected (λ d. in_forward d b)) holds in
    elim (Bool-cases (home c.src_port == b)) [
      | inl e ↦ sym ((==_iff (home c.src_port) b).0 e)
      | inr e ↦ absurd (let w : count p (t.forward b) ≡ 0 = z ∙ ap bit e in omega arith)
    ]

sweep_stale :
    (now b : ℕ) (place : Place) (p : ℕ) (ps : List ℕ) (t u : Tracker) (c : Connection)
    → t.heap p ≡ some c
    → is_stale now c ≡ true
    → release b p c t ≡ value u
    → sweep now b place (p ∷ ps) t ≡ value (u, some place)
unfolding sweep and_then
sweep_stale now b place p ps t u c holds e r = rw (holds, sweep, e, r) refl

sweep_kept :
    (now b : ℕ) (place : Place) (p : ℕ) (ps : List ℕ) (t : Tracker) (c : Connection)
    → t.heap p ≡ some c
    → is_stale now c ≡ false
    → sweep now b place (p ∷ ps) t ≡ sweep now b (in_cell p) ps t
unfolding sweep
sweep_kept now b place p ps t c holds e = rw (holds, sweep, e) refl

sweep-Linked :
    (now b : ℕ) (place : Place) (ps : List ℕ) (t : Tracker)
    → Linked t
    → Rest ps (t.forward b)
    → Gives (sweep now b place ps t) (λ r. Linked r.0)
unfolding sweep
sweep-Linked now b place [] t v rest = ((t, none), refl, v)
sweep-Linked now b place (p ∷ ps) t v rest =
    let inside : 1 ≤ count p (t.forward b) = omega (arith, count_head p ps, rest p) in
    let (c, holds) = forward-Live t v b p inside in
    let at = cell_home t b p c v inside holds in
    elim (Bool-cases (is_stale now c)) [
      | inl e ↦ (
        (released p c t, some place),
        sweep_stale now b place p ps t (released p c t) c holds e (
            subst (λ k. release k p c t ≡ value (released p c t)) (sym at)
              (release-released t p c v holds)),
        released-Linked t p c v holds,
      )
      | inr e ↦
          let (u, run, w) = sweep-Linked now b (in_cell p) ps t v (λ x. omega (arith, rest x)) in
          (u, sweep_kept now b place p ps t c holds e ∙ run, w)
    ]

behind_cell-Rest : (p : ℕ) (l : List ℕ) → Rest (behind_cell p l) l
unfolding behind_cell
behind_cell-Rest p [] x = omega arith
behind_cell-Rest p (y ∷ ys) x = ground (arith, behind_cell-Rest p ys x)

chain_from-Rest : (place : Place) (l : List ℕ) → Rest (chain_from place l) l
chain_from-Rest at_head l x = omega arith
chain_from-Rest (in_cell p) l x = behind_cell-Rest p l x

-- A sweep whose cell is still in the chain goes on well.
pub sweep_on-Linked :
    (s : Sweeping) (t : Tracker)
    → Linked t
    → is_held s.place (t.forward s.bucket) ≡ true
    → Gives (sweep_on s t) (λ r. Linked r.0)
unfolding sweep_on and_then
sweep_on-Linked s t v held =
    let (r, run, w) =
      sweep-Linked s.now s.bucket s.place (chain_from s.place (t.forward s.bucket)) t v
        (chain_from-Rest s.place (t.forward s.bucket)) in
    ((r.0, moved_on s r.1), rw (held, run) refl, w)
