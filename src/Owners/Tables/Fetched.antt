-- ===== src/Owners/Tables/Fetched.antt =====
-- Windows/src/pb_process.c: the buffer for the owner tables grows as far as it has to, and a table
-- that does not grow too fast is fetched.
use proxy_bridge.Prelude.{
  ℕ, zero, suc, ◌+◌, ◌-◌, ◌*◌, ◌/◌, ◌^◌, ◌≤◌, ◌<◌, Bool, true, false, ◌≡◌, refl, ◌⊎◌, inl, inr,
  List, Option, none, some, ltb, ◌==◌, if◌then◌else◌, Bool-cases, ==_iff, u32, arith, ltb→lt,
}
use proxy_bridge.Owners.Tables.{
  Scratch, grow, grown, pidtbl_reserve, Answer, no_error, insufficient, fetched, sized, first_call,
  after_first, attempts, owner_table_fetch,
}

-- A capacity after a number of doublings.
abbrev doubled : ℕ → ℕ → ℕ
doubled zero c = c
doubled (suc n) c = doubled n (c * 2)

grow_reaches :
    (n c need : ℕ)
    → c < 2 ^ 32
    → need < 2 ^ 32
    → need ≤ doubled n c
    → (r : ℕ) × (grow (suc n) c need ≡ some r) × (need ≤ r) × (r < 2 ^ 32)
unfolding grow
grow_reaches zero c need hc hn h = (c, ground arith, h, hc)
grow_reaches (suc n) c need hc hn h = elim (Bool-cases (ltb c need)) [
  | inr big ↦ (c, rw big refl, ground arith, hc)
  | inl small ↦ elim (Bool-cases (ltb ((2 ^ 32 - 1) / 2) c)) [
    | inl half ↦ (need, rw (small, half) refl, ground arith, hn)
    | inr less ↦
        let room : c * 2 < 2 ^ 32 = ground arith in
        let same : u32 (c * 2) ≡ c * 2 = omega arith in
        let (r, run, more, below) = grow_reaches n (c * 2) need room hn h in
        (r, rw (small, less, same) run, more, below)
  ]
]

-- What is asked of the buffer: there is none where its capacity is 0.
pub record IsScratch (s : Scratch) : Type 0 where
  pub small : s.cap < 2 ^ 32
  pub empty : s.present ≡ false → s.cap ≡ 0

doubled_far : (c need : ℕ) → 0 < c → need < 2 ^ 32 → need ≤ doubled 32 c
doubled_far c need pos h = omega arith

-- The buffer, once room for `need` bytes is reserved in it and there is memory.
pub record Reserved (need : ℕ) (r : Bool × Scratch) : Type 0 where
  pub there : r.0 ≡ true
  pub present : r.1.present ≡ true
  pub enough : need ≤ r.1.cap
  pub small : r.1.cap < 2 ^ 32

grown-Reserved :
    (realloc : ℕ → Bool) (s : Scratch) (need r : ℕ) (o : Option ℕ)
    → ((n : ℕ) → realloc n ≡ true)
    → o ≡ some r
    → need ≤ r
    → r < 2 ^ 32
    → Reserved need (grown realloc s o)
grown-Reserved realloc s need r o memory e h l =
    rw (e, memory r) (record { there = refl; present = refl; enough = h; small = l })

pub pidtbl_reserve-Reserved :
    (realloc : ℕ → Bool) (need : ℕ) (s : Scratch)
    → ((n : ℕ) → realloc n ≡ true)
    → IsScratch s
    → 0 < need
    → need < 2 ^ 32
    → Reserved need (pidtbl_reserve realloc need s)
unfolding pidtbl_reserve
pidtbl_reserve-Reserved realloc need s memory ok pos hn = elim (Bool-cases (ltb s.cap need)) [
  | inl small ↦
      let (r, run, more, below) =
        grow_reaches 32 (if s.cap == 0 then 16384 else s.cap) need (ground arith) hn
          (doubled_far _ need (ground arith) hn) in
      rw small (grown-Reserved realloc s need r _ memory run more below)
  | inr big ↦ elim (Bool-cases s.present) [
    | inl there ↦
        rw big (record { there = there; present = there; enough = ground arith; small = ok.small })
    | inr absent ↦ absurd (ground (arith, ok.empty absent))
  ]
]

not_stopped :
    (size : ℕ) → size + (size / 4 + 4096) < 2 ^ 32 → ltb (2 ^ 32 - 1 - size / 4 - 4096) size ≡ false
not_stopped size h = ground arith

one_more : (k : ℕ) → k + 1 ≡ suc k
one_more k = omega arith

-- A system whose table has `rows k` at its call `k`, and needs `wanted k` bytes for it.
pub record Serves (Row : Type 0) (wanted : ℕ → ℕ) (rows : ℕ → List Row)
    (owner_call : ℕ → Option ℕ → Answer Row) : Type 0 where
  pub ample :
      (k size : ℕ) → wanted k ≤ size → owner_call k (some size) ≡ no_error (rows k) (wanted k)
  pub short : (k size : ℕ) → size < wanted k → owner_call k (some size) ≡ insufficient (wanted k)
  pub sizing : owner_call 0 none ≡ insufficient (wanted 0)

module _ {Row : Type 0} (realloc : ℕ → Bool) (owner_call : ℕ → Option ℕ → Answer Row)
    (wanted : ℕ → ℕ) (rows : ℕ → List Row) (memory : (n : ℕ) → realloc n ≡ true)
    (serves : Serves Row wanted rows owner_call)
    (bounded : (k : ℕ) → wanted k + (wanted k / 4 + 4096) < 2 ^ 32) where
  -- The fetch gives the rows of one of the calls up to `last`.
  abbrev Gets : ℕ → Option (List Row) × Scratch → Type 0
  Gets last r = (m : ℕ) × (m ≤ last) × (r.0 ≡ some (rows m))

  -- One attempt that has room, and one that has not.
  attempt_stops :
      (left k size : ℕ) (s : Scratch)
      → size + (size / 4 + 4096) < 2 ^ 32
      → Reserved (size + (size / 4 + 4096)) (pidtbl_reserve realloc (size + (size / 4 + 4096)) s)
      → wanted k ≤ size + (size / 4 + 4096)
      → (attempts realloc owner_call (suc left) k size s).0 ≡ some (rows k)
  unfolding attempts
  attempt_stops left k size s small r h =
      rw (not_stopped size small, r.there, serves.ample k _ h) refl

  attempt_goes_on :
      (left k size : ℕ) (s : Scratch)
      → size + (size / 4 + 4096) < 2 ^ 32
      → Reserved (size + (size / 4 + 4096)) (pidtbl_reserve realloc (size + (size / 4 + 4096)) s)
      → size + (size / 4 + 4096) < wanted k
      → attempts realloc owner_call (suc left) k size s
        ≡ attempts realloc owner_call left
            (suc k)
            (wanted k)
            (pidtbl_reserve realloc (size + (size / 4 + 4096)) s).1
  unfolding attempts
  attempt_goes_on left k size s small r h =
      rw (not_stopped size small, r.there, serves.short k _ h, one_more k) refl

  sooner :
      (k j : ℕ)
      → k ≤ j
      → wanted (suc j) ≤ wanted j + (wanted j / 4 + 4096)
      → wanted k + (wanted k / 4 + 4096) < wanted (suc k)
      → k < j
  sooner k j h slow fast = elim (Bool-cases (k == j)) [
    | inr e ↦ ground arith
    | inl e ↦
        let same : wanted (suc k) ≤ wanted k + (wanted k / 4 + 4096) = rw ((==_iff k j).0 e) slow in
        absurd (omega arith)
  ]

  attempts-Gets :
      (left k j : ℕ) (s : Scratch)
      → IsScratch s
      → k ≤ j
      → j < k + left
      → wanted (suc j) ≤ wanted j + (wanted j / 4 + 4096)
      → Gets (suc j) (attempts realloc owner_call left (suc k) (wanted k) s)
  attempts-Gets zero k j s ok h l slow = absurd (omega arith)
  attempts-Gets (suc left) k j s ok h l slow =
      let room = wanted k + (wanted k / 4 + 4096) in
      let r = pidtbl_reserve-Reserved realloc room s memory ok (omega arith) (bounded k) in
      elim (Bool-cases (ltb room (wanted (suc k)))) [
        | inr fit ↦ (
          suc k,
          omega arith,
          attempt_stops left (suc k) (wanted k) s (bounded k) r (ground arith),
        )
        | inl short ↦
            rw (attempt_goes_on left (suc k) (wanted k) s (bounded k) r (ltb→lt _ _ short)) (
              attempts-Gets left (suc k) j (pidtbl_reserve realloc room s).1
                (record { small = r.small; empty = λ absent. absurd (cc r.present) })
                (sooner k j h slow (ltb→lt _ _ short)) (omega arith) slow)
      ]

  first_call_lem :
      (there : Bool) (cap : ℕ)
      → (first_call realloc owner_call there cap ≡ sized (wanted 0))
        ⊎ (first_call realloc owner_call there cap ≡ fetched (rows 0))
  unfolding first_call
  first_call_lem false cap = inl (rw serves.sizing refl)
  first_call_lem true cap = elim (Bool-cases (ltb cap (wanted 0))) [
    | inl short ↦ inl (rw (serves.short 0 cap (ltb→lt _ _ short)) refl)
    | inr fit ↦ inr (rw (serves.ample 0 cap (ground arith)) refl)
  ]

  fetch-Gets :
      (j : ℕ) (s : Scratch)
      → IsScratch s
      → j < 4
      → wanted (suc j) ≤ wanted j + (wanted j / 4 + 4096)
      → Gets (suc j) (owner_table_fetch realloc owner_call s)
  unfolding owner_table_fetch after_first
  fetch-Gets j s ok l slow = elim (first_call_lem s.present s.cap) [
    | inl e ↦ rw e (attempts-Gets 4 0 j s ok (omega arith) l slow)
    | inr e ↦ rw e (0, omega arith, refl)
  ]

-- On a system whose table grows while it is fetched: with memory, and as long as the table does not
-- come near 2 ^ 32 bytes, the fetch succeeds if the table grows by no more than a quarter and 4096
-- bytes between two of the first five calls in turn. It gives the rows of one of these calls.
pub owner_table_fetch-Gets :
    {Row : Type 0} (realloc : ℕ → Bool) (owner_call : ℕ → Option ℕ → Answer Row) (wanted : ℕ → ℕ)
    (rows : ℕ → List Row) (j : ℕ) (s : Scratch)
    → ((n : ℕ) → realloc n ≡ true)
    → Serves Row wanted rows owner_call
    → ((k : ℕ) → wanted k + (wanted k / 4 + 4096) < 2 ^ 32)
    → IsScratch s
    → j < 4
    → wanted (suc j) ≤ wanted j + (wanted j / 4 + 4096)
    → (m : ℕ) × (m ≤ suc j) × ((owner_table_fetch realloc owner_call s).0 ≡ some (rows m))
owner_table_fetch-Gets realloc owner_call wanted rows j s memory serves bounded ok l slow =
    fetch-Gets realloc owner_call wanted rows memory serves bounded j s ok l slow
