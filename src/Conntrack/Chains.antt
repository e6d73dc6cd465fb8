-- ===== src/Conntrack/Chains.antt =====
-- Windows/src/pb_conntrack.c: walks along a chain whose pointers all lead to cells.
use proxy_bridge.Prelude.{
  ℕ, ◌+◌, ◌-◌, ◌≤◌, Bool, true, false, ◌≡◌, refl, List, [], ◌∷◌, Option, none, some, ◌==◌, ==_iff,
  Bool-cases, arith, ◌⊎◌, inl, inr,
}
use proxy_bridge.Conntrack.{Connection, value, and_then, find_in, unlink_in}
use proxy_bridge.Conntrack.Table.{without}

abbrev pub bit : Bool → ℕ
bit true = 1
bit false = 0

-- How often the pointer stands in the chain.
abbrev pub count : ℕ → List ℕ → ℕ
count a [] = 0
count a (x ∷ xs) = bit (x == a) + count a xs

pub count-without : (a p : ℕ) (l : List ℕ) → count a (without p l) ≡ count a l - bit (p == a)
unfolding without
count-without a p [] = ground arith
count-without a p (x ∷ xs) = elim (Bool-cases (x == p)) [
  | inl e ↦ rw (e, (==_iff x p).0 e) (omega arith)
  | inr e ↦ rw (e, count-without a p xs) (ground arith)
]

-- Every pointer of the chain leads to a cell.
abbrev pub Live : (ℕ → Option Connection) → List ℕ → Type 0
Live heap l = (x : ℕ) → 1 ≤ count x l → (c : Connection) × (heap x ≡ some c)

pub count_head : (x : ℕ) (l : List ℕ) → 1 ≤ count x (x ∷ l)
count_head x l = rw ((==_iff x x).1 refl) (omega arith)

pub Live-tail :
    (heap : ℕ → Option Connection) (x : ℕ) (l : List ℕ) → Live heap (x ∷ l) → Live heap l
Live-tail heap x l live y n = live y (omega arith)

pub Live-head :
    (heap : ℕ → Option Connection) (x : ℕ) (l : List ℕ)
    → Live heap (x ∷ l)
    → (c : Connection) × (heap x ≡ some c)
Live-head heap x l live = live x (count_head x l)

pub unlink_in-Live :
    (heap : ℕ → Option Connection) (p : ℕ) (l : List ℕ)
    → Live heap l
    → unlink_in heap p l ≡ value (without p l)
unfolding unlink_in without and_then
unlink_in-Live heap p [] live = refl
unlink_in-Live heap p (q ∷ qs) live =
    let (c, e) = Live-head heap q qs live in
    elim (Bool-cases (q == p)) [
      | inl s ↦ rw s
      | inr s ↦ rw (s, e, unlink_in-Live heap p qs (Live-tail heap q qs live))
    ]

-- What a walk finds: nothing, or a cell of the chain that passes the test.
pub record Found (heap : ℕ → Option Connection) (mine : Connection → Bool) (l : List ℕ)
    : Type 0 where
  pub at : ℕ
  pub cell : Connection
  pub found : find_in heap mine l ≡ value (some (at, cell))
  pub holds : heap at ≡ some cell
  pub passes : mine cell ≡ true
  pub inside : 1 ≤ count at l

pub find_in-Live :
    (heap : ℕ → Option Connection) (mine : Connection → Bool) (l : List ℕ)
    → Live heap l
    → (find_in heap mine l ≡ value none) ⊎ Found heap mine l
unfolding find_in
find_in-Live heap mine [] live = inl refl
find_in-Live heap mine (p ∷ ps) live =
    let (c, e) = Live-head heap p ps live in
    elim (Bool-cases (mine c)) [
      | inl s ↦ inr (record {
        at = p;
        cell = c;
        found = rw (e, find_in, s);
        holds = e;
        passes = s;
        inside = count_head p ps;
      })
      | inr s ↦ elim (find_in-Live heap mine ps (Live-tail heap p ps live)) [
        | inl none_left ↦ inl (rw (e, find_in, s, none_left))
        | inr f ↦ inr (record {
          at = f.at;
          cell = f.cell;
          found = rw (e, find_in, s, f.found);
          holds = f.holds;
          passes = f.passes;
          inside = omega (arith, f.inside);
        })
      ]
    ]
