-- ===== src/Conntrack/Counted.antt =====
-- Windows/src/pb_conntrack.c: a table of chains that holds each cell as often as a test of the cell
-- says, and what linking, unlinking and changing a cell do to it.
use proxy_bridge.Prelude.{
  ℕ, Bool, true, false, ◌≡◌, refl, sym, ap, subst, ◌∙◌, List, ◌∷◌, Option, none, some, ◌==◌, ==_iff,
  Bool-cases, Option-cases, arith, ◌⊎◌, inl, inr,
}
use proxy_bridge.Conntrack.{Connection, put}
use proxy_bridge.Conntrack.Chains.{bit, count, count-without, Live}
use proxy_bridge.Conntrack.Table.{without}

pub put_same {ℓ} :
    {B : Type ℓ} (f : ℕ → B) (k : ℕ) (v : B) (n : ℕ) → (n == k) ≡ true → put f k v n ≡ v
unfolding put
put_same f k v n e = rw e

pub put_other {ℓ} :
    {B : Type ℓ} (f : ℕ → B) (k : ℕ) (v : B) (n : ℕ) → (n == k) ≡ false → put f k v n ≡ f n
unfolding put
put_other f k v n e = rw e

pub put-put {ℓ} :
    {B : Type ℓ} (f : ℕ → B) (k : ℕ) (v w : B) (n : ℕ) → put (put f k v) k w n ≡ put f k w n
put-put f k v w n = elim (Bool-cases (n == k)) [
  | inl e ↦ put_same (put f k v) k w n e ∙ sym (put_same f k w n e)
  | inr e ↦ put_other (put f k v) k w n e ∙ put_other f k v n e ∙ sym (put_other f k w n e)
]

abbrev pub Heap : Type 0
Heap = ℕ → Option Connection

-- How often a cell is to stand in a chain.
abbrev pub expected : (Connection → Bool) → Option Connection → ℕ
expected test none = 0
expected test (some c) = bit (test c)

-- Chain `b` holds the pointer to a cell once if `test` says so of the cell, and else not at all.
abbrev pub Counted : (Connection → ℕ → Bool) → Heap → (ℕ → List ℕ) → Type 0
Counted test heap table = (b a : ℕ) → count a (table b) ≡ expected (λ c. test c b) (heap a)

pub Counted-Live :
    (test : Connection → ℕ → Bool) (heap : Heap) (table : ℕ → List ℕ)
    → Counted test heap table
    → (b : ℕ) → Live heap (table b)
Counted-Live test heap table counted b x n = elim (Option-cases (heap x)) [
  | inl e ↦
      let z : count x (table b) ≡ 0 = counted b x ∙ ap (expected (λ c. test c b)) e in
      absurd (omega arith)
  | inr s ↦ s
]

-- A cell is changed in what the test does not read.
pub Counted-keep :
    (test : Connection → ℕ → Bool) (heap : Heap) (table : ℕ → List ℕ) (p : ℕ) (c d : Connection)
    → heap p ≡ some c
    → ((b : ℕ) → test d b ≡ test c b)
    → Counted test heap table
    → Counted test (put heap p (some d)) table
Counted-keep test heap table p c d holds same counted b a = elim (Bool-cases (a == p)) [
  | inl e ↦
      rw (put_same heap p (some d) a e) (rw (same b, counted b a, (==_iff a p).0 e, holds) refl)
  | inr e ↦ rw (put_other heap p (some d) a e) (counted b a)
]

count-put :
    (table : ℕ → List ℕ) (k : ℕ) (l : List ℕ) (a b : ℕ)
    → ((b == k) ≡ true) × (count a (put table k l b) ≡ count a l) × (b ≡ k) × ((k == b) ≡ true)
      ⊎ ((b == k) ≡ false) × (count a (put table k l b) ≡ count a (table b)) × ((k == b) ≡ false)
count-put table k l a b = elim (Bool-cases (b == k)) [
  | inl e ↦ inl (e, ap (count a) (put_same table k l b e), (==_iff b k).0 e, ground arith)
  | inr e ↦ inr (e, ap (count a) (put_other table k l b e), ground arith)
]

-- A cell that stands in no chain is put at the head of chain `k`.
pub Counted-link :
    (test : Connection → ℕ → Bool) (heap : Heap) (table : ℕ → List ℕ) (p k : ℕ) (d : Connection)
    → ((b : ℕ) → expected (λ c. test c b) (heap p) ≡ 0)
    → ((b : ℕ) → test d b ≡ (k == b))
    → Counted test heap table
    → Counted test (put heap p (some d)) (put table k (p ∷ table k))
Counted-link test heap table p k d absent at counted b a =
    let here = counted b a in
    elim (Bool-cases (a == p)) [
      | inl e ↦
          let z : count a (table b) ≡ 0 =
            here ∙ ap (λ x. expected (λ c. test c b) (heap x)) ((==_iff a p).0 e) ∙ absent b in
          rw (put_same heap p (some d) a e) (elim (count-put table k (p ∷ table k) a b) [
            | inl (eb, n, q, r) ↦
                let pa : (p == a) ≡ true = ground arith in
                let z' : count a (table k) ≡ 0 = subst (λ x. count a (table x) ≡ 0) q z in
                rw (n, at b, r, pa, z') refl
            | inr (eb, n, r) ↦ rw (n, at b, r, z) refl
          ])
      | inr e ↦ rw (put_other heap p (some d) a e) (elim (count-put table k (p ∷ table k) a b) [
        | inl (eb, n, q, r) ↦
            let pa : (p == a) ≡ false = ground arith in
            let k' = subst (λ x. count a (table x) ≡ expected (λ c. test c b) (heap a)) q here in
            rw (n, pa) (omega arith)
        | inr (eb, n, r) ↦ n ∙ here
      ])
    ]

-- A cell is taken out of chain `k`, the only one that it stands in.
pub Counted-unlink :
    (test : Connection → ℕ → Bool) (heap : Heap) (table : ℕ → List ℕ) (p k : ℕ) (c : Connection)
    (o : Option Connection)
    → heap p ≡ some c
    → ((b : ℕ) → test c b ≡ (k == b))
    → ((b : ℕ) → expected (λ d. test d b) o ≡ 0)
    → Counted test heap table
    → Counted test (put heap p o) (put table k (without p (table k)))
Counted-unlink test heap table p k c o holds at absent counted b a =
    let here = counted b a in
    elim (Bool-cases (a == p)) [
      | inl e ↦
          let z : count a (table b) ≡ bit (k == b) =
            here
            ∙ ap (λ x. expected (λ d. test d b) (heap x)) ((==_iff a p).0 e)
            ∙ ap (expected (λ d. test d b)) holds
            ∙ ap bit (at b) in
          rw (put_same heap p o a e, absent b)
            (elim (count-put table k (without p (table k)) a b) [
              | inl (eb, n, q, r) ↦
                  let pa : (p == a) ≡ true = ground arith in
                  let z' : count a (table k) ≡ 1 =
                    subst (λ x. count a (table x) ≡ 1) q (z ∙ ap bit r) in
                  n ∙ rw (count-without a p (table k), pa, z') refl
              | inr (eb, n, r) ↦ n ∙ z ∙ ap bit r
            ])
      | inr e ↦ rw (put_other heap p o a e) (elim (count-put table k (without p (table k)) a b) [
        | inl (eb, n, q, r) ↦
            let pa : (p == a) ≡ false = ground arith in
            let k' = subst (λ x. count a (table x) ≡ expected (λ d. test d b) (heap a)) q here in
            n ∙ rw (count-without a p (table k), pa) (omega arith)
        | inr (eb, n, r) ↦ n ∙ here
      ])
    ]
