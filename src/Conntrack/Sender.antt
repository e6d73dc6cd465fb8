-- ===== src/Conntrack/Sender.antt =====
-- Windows/src/pb_conntrack.c: what the reverse lookup of `find_v6_udp_sender` finds.
use proxy_bridge.Prelude.{
  ℕ, ◌+◌, ◌≤◌, ◌<◌, ltb→lt, true, false, ◌≡◌, refl, sym, ap, ap₂, subst, ◌∙◌, List, [], ◌∷◌, Option,
  none, some, ltb, ◌==◌, ==_iff, equal, equal_iff, Bool-cases, arith, ◌⊎◌, inl, inr, Bytes,
}
use proxy_bridge.Conntrack.{Connection, Tracker, value, rev_hash, rev_hash_v6}
use proxy_bridge.Conntrack.Chains.{bit, count, Live, Live-head, Live-tail}
use proxy_bridge.Conntrack.Counted.{Heap, expected}
use proxy_bridge.Conntrack.Linked.{Linked, Gives, reverse-Live, in_reverse}
use proxy_bridge.Conntrack.Table.{is_sender, later, better, latest_in, find_v6_udp_sender}

-- There is a best connection, and it was active no earlier than `c`.
abbrev pub NoLater : Connection → Option Connection → Type 0
NoLater c best = (d : Connection) × (best ≡ some d) × (c.last_activity ≤ d.last_activity)

some_injective : (c d : Connection) → some c ≡ some d → c ≡ d
some_injective c d e = cc

NoLater-later : (best : Option Connection) (c : Connection) → NoLater c (later best c)
unfolding later
NoLater-later none c = (c, refl, omega arith)
NoLater-later (some d) c = elim (Bool-cases (ltb d.last_activity c.last_activity)) [
  | inl e ↦ (c, rw e refl, omega arith)
  | inr e ↦ (d, rw e refl, ground arith)
]

activity : Option Connection → ℕ
activity none = 0
activity (some c) = c.last_activity

NoLater-kept :
    (best : Option Connection) (c e : Connection) → NoLater e best → NoLater e (later best c)
unfolding later activity
NoLater-kept none c e (d, h, n) = cc
NoLater-kept (some b) c e (d, h, n) = elim (Bool-cases (ltb b.last_activity c.last_activity)) [
  | inl t ↦
      let m : b.last_activity < c.last_activity = ltb→lt _ _ t in
      let k : b.last_activity ≡ d.last_activity = ap activity h in (c, rw t refl, omega arith)
  | inr t ↦ (d, rw t h, n)
]

later-cases :
    (best : Option Connection) (c : Connection) → (later best c ≡ some c) ⊎ (later best c ≡ best)
unfolding later
later-cases none c = inl refl
later-cases (some b) c = elim (Bool-cases (ltb b.last_activity c.last_activity)) [
  | inl t ↦ inl (rw t refl)
  | inr t ↦ inr (rw t refl)
]

-- What the walk has made of a chain when it began with `best`.
pub record Latest (heap : Heap) (dest_ip6 : Bytes) (port : ℕ) (l : List ℕ)
    (best r : Option Connection) : Type 0 where
  pub covers :
      (x : ℕ) (c : Connection)
      → 1 ≤ count x l
      → heap x ≡ some c
      → is_sender dest_ip6 port c ≡ true
      → NoLater c r
  pub keeps : (c : Connection) → NoLater c best → NoLater c r
  pub from_heap :
      (c : Connection)
      → r ≡ some c
      → (best ≡ some c) ⊎ ((is_sender dest_ip6 port c ≡ true) × (x : ℕ) × (heap x ≡ some c))

better_sender :
    (dest_ip6 : Bytes) (port : ℕ) (best : Option Connection) (c : Connection)
    → is_sender dest_ip6 port c ≡ true
    → better dest_ip6 port best c ≡ later best c
unfolding better
better_sender dest_ip6 port best c e = rw e refl

better_other :
    (dest_ip6 : Bytes) (port : ℕ) (best : Option Connection) (c : Connection)
    → is_sender dest_ip6 port c ≡ false
    → better dest_ip6 port best c ≡ best
unfolding better
better_other dest_ip6 port best c e = rw e refl

-- One turn of the walk.
Latest-cons :
    (heap : Heap) (dest_ip6 : Bytes) (port : ℕ) (best : Option Connection) (p : ℕ) (ps : List ℕ)
    (c : Connection) (r : Option Connection)
    → heap p ≡ some c
    → Latest heap dest_ip6 port ps (better dest_ip6 port best c) r
    → Latest heap dest_ip6 port (p ∷ ps) best r
Latest-cons heap dest_ip6 port best p ps c r holds w =
    elim (Bool-cases (is_sender dest_ip6 port c)) [
      | inl e ↦
          let b = better_sender dest_ip6 port best c e in
          record {
            covers = λ x d n h s. elim (Bool-cases (p == x)) [
              | inl q ↦
                  let same : c ≡ d =
                    some_injective c d (sym holds ∙ ap heap ((==_iff p x).0 q) ∙ h) in
                  subst (λ y. NoLater y r) same (w.keeps c (rw b (NoLater-later best c)))
              | inr q ↦
                  w.covers x d (let k = subst (λ y. 1 ≤ bit y + count x ps) q n in omega arith) h s
            ];
            keeps = λ d k. w.keeps d (rw b (NoLater-kept best c d k));
            from_heap = λ d h. elim (w.from_heap d h) [
              | inl f ↦ elim (later-cases best c) [
                | inl g ↦
                    let same : c ≡ d = some_injective c d (sym g ∙ sym b ∙ f) in
                    inr (
                      subst (λ y. is_sender dest_ip6 port y ≡ true) same e,
                      p,
                      holds ∙ ap some same,
                    )
                | inr g ↦ inl (sym g ∙ sym b ∙ f)
              ]
              | inr f ↦ inr f
            ];
          }
      | inr e ↦
          let b = better_other dest_ip6 port best c e in
          record {
            covers = λ x d n h s. elim (Bool-cases (p == x)) [
              | inl q ↦
                  let same : c ≡ d =
                    some_injective c d (sym holds ∙ ap heap ((==_iff p x).0 q) ∙ h) in
                  absurd (let z = subst (λ y. is_sender dest_ip6 port y ≡ false) same e in cc)
              | inr q ↦
                  w.covers x d (let k = subst (λ y. 1 ≤ bit y + count x ps) q n in omega arith) h s
            ];
            keeps = λ d k. w.keeps d (rw b k);
            from_heap = λ d h. elim (w.from_heap d h) [ inl f ↦ inl (sym b ∙ f) | inr f ↦ inr f ];
          }
    ]

latest_in-Latest :
    (heap : Heap) (dest_ip6 : Bytes) (port : ℕ) (best : Option Connection) (l : List ℕ)
    → Live heap l
    → Gives (latest_in heap dest_ip6 port best l) (λ r. Latest heap dest_ip6 port l best r)
unfolding latest_in
latest_in-Latest heap dest_ip6 port best [] live = (
  best,
  refl,
  record { covers = λ x c n. absurd (omega arith); keeps = λ c k. k; from_heap = λ c e. inl e },
)
latest_in-Latest heap dest_ip6 port best (p ∷ ps) live =
    let (c, holds) = Live-head heap p ps live in
    let (r, run, w) =
      latest_in-Latest heap dest_ip6 port (better dest_ip6 port best c) ps
        (Live-tail heap p ps live) in
    (r, rw (holds, latest_in) run, Latest-cons heap dest_ip6 port best p ps c r holds w)

sender_parts :
    (dest_ip6 : Bytes) (port : ℕ) (c : Connection)
    → is_sender dest_ip6 port c ≡ true
    → (c.is_ipv6 ≡ true) × (c.orig_dest_port ≡ port) × (equal c.orig_dest_ip6 dest_ip6 ≡ true)
unfolding is_sender
sender_parts dest_ip6 port c e = (ground arith, ground arith, ground arith)

-- A sender stands in the bucket that the lookup reads.
sender_bucket :
    (dest_ip6 : Bytes) (port : ℕ) (c : Connection)
    → is_sender dest_ip6 port c ≡ true
    → rev_hash c ≡ rev_hash_v6 dest_ip6 port
unfolding rev_hash
sender_bucket dest_ip6 port c e =
    let (six, p, d) = sender_parts dest_ip6 port c e in
    simp six (ap₂ rev_hash_v6 ((equal_iff c.orig_dest_ip6 dest_ip6).0 d) p)

-- Where some UDP connection over IPv6 to the destination is tracked, the reverse lookup reads no
-- freed cell and finds one of them, and the one that it finds was active no earlier.
pub find_v6_udp_sender-NoLater :
    (dest_ip6 : Bytes) (port : ℕ) (t : Tracker) (a : ℕ) (c : Connection)
    → Linked t
    → t.heap a ≡ some c
    → is_sender dest_ip6 port c ≡ true
    → (d : Connection) × (find_v6_udp_sender dest_ip6 port t ≡ value (some d))
      × (c.last_activity ≤ d.last_activity)
      × (is_sender dest_ip6 port d ≡ true)
      × (x : ℕ) × (t.heap x ≡ some d)
unfolding find_v6_udp_sender
find_v6_udp_sender-NoLater dest_ip6 port t a c v h s =
    let b = rev_hash_v6 dest_ip6 port in
    let (r, run, w) =
      latest_in-Latest t.heap dest_ip6 port none (t.reverse b) (reverse-Live t v b) in
    let (i, k) = v.keyed a c h in
    let at : c.rev_bucket ≡ b = k ∙ sender_bucket dest_ip6 port c s in
    let n : count a (t.reverse b) ≡ 1 =
      v.in_bucket b a
      ∙ ap (expected (λ d. in_reverse d b)) h
      ∙ simp (i, at) (rw ((==_iff b b).1 refl) refl) in
    let (d, e, later) = w.covers a c (omega arith) h s in
    elim (w.from_heap d e) [
      | inl f ↦ cc
      | inr (sender, x, held) ↦ (d, run ∙ ap value e, later, sender, x, held)
    ]
