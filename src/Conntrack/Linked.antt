-- ===== src/Conntrack/Linked.antt =====
-- Windows/src/pb_conntrack.c: the invariant of the connection tables, and the steps that keep it.
use proxy_bridge.Prelude.{
  ℕ, Bool, true, false, ◌&&◌, ◌≡◌, refl, sym, ap, subst, ◌∙◌, none, some, ◌==◌, ==_iff, Bool-cases,
  inl, inr,
}
use proxy_bridge.Conntrack.{
  Connection, Tracker, Access, value, and_then, put, home, rev_hash, rev_insert, rev_unlink,
}
use proxy_bridge.Conntrack.Chains.{Live, unlink_in-Live}
use proxy_bridge.Conntrack.Counted.{
  Heap, expected, put_same, put_other, put-put, Counted, Counted-Live, Counted-keep, Counted-link,
  Counted-unlink,
}
use proxy_bridge.Conntrack.Table.{without, release, track_new, modify}

abbrev pub in_forward : Connection → ℕ → Bool
in_forward c b = home c.src_port == b

abbrev pub in_reverse : Connection → ℕ → Bool
in_reverse c b = c.in_rev && (c.rev_bucket == b)

-- The cell is linked in the reverse table, in the bucket of its destination.
abbrev pub Keyed : Connection → Type 0
Keyed c = (c.in_rev ≡ true) × (c.rev_bucket ≡ rev_hash c)

-- Each table holds exactly the cells that are allocated, each once and in its bucket.
pub record Linked (t : Tracker) : Type 0 where
  pub in_home : Counted in_forward t.heap t.forward
  pub in_bucket : Counted in_reverse t.heap t.reverse
  pub keyed : (a : ℕ) (c : Connection) → t.heap a ≡ some c → Keyed c

-- A walk that reads no freed cell, with a property of its result.
abbrev pub Gives {ℓ κ} : {A : Type ℓ} → Access A → (A → Type κ) → Type (ℓ ⊔ κ)
Gives {A = A} r P = (a : A) × (r ≡ value a) × P a

some_injective : (c d : Connection) → some c ≡ some d → c ≡ d
some_injective c d e = cc

-- The cells of a heap with one write.
put-Keyed :
    (heap : Heap) (p : ℕ) (d : Connection)
    → Keyed d
    → ((a : ℕ) (c : Connection) → heap a ≡ some c → Keyed c)
    → (a : ℕ) (c : Connection) → put heap p (some d) a ≡ some c
    → Keyed c
put-Keyed heap p d new old a c e = elim (Bool-cases (a == p)) [
  | inl s ↦ subst Keyed (some_injective d c (sym (put_same heap p (some d) a s) ∙ e)) new
  | inr s ↦ old a c (sym (put_other heap p (some d) a s) ∙ e)
]

-- A change that touches neither the port nor the destination.
pub modify-Linked :
    (f : Connection → Connection) (t : Tracker) (p : ℕ) (c : Connection)
    → t.heap p ≡ some c
    → ((b : ℕ) → in_forward (f c) b ≡ in_forward c b)
    → ((b : ℕ) → in_reverse (f c) b ≡ in_reverse c b)
    → (Keyed c → Keyed (f c))
    → Linked t
    → Linked (modify f t (some (p, c)))
unfolding modify
modify-Linked f t p c holds forward reverse key v = record {
  in_home = Counted-keep in_forward t.heap t.forward p c (f c) holds forward v.in_home;
  in_bucket = Counted-keep in_reverse t.heap t.reverse p c (f c) holds reverse v.in_bucket;
  keyed = put-Keyed t.heap p (f c) (key (v.keyed p c holds)) v.keyed;
}

-- The state once a linked cell is out of the reverse table.
unfoldable pub out_of_reverse : ℕ → Connection → Tracker → Tracker
out_of_reverse p c t = record t {
  heap = put t.heap p (some (record c { in_rev = false }));
  reverse = put t.reverse c.rev_bucket (without p (t.reverse c.rev_bucket));
}

pub rev_unlink-out_of_reverse :
    (p : ℕ) (c : Connection) (t : Tracker)
    → c.in_rev ≡ true
    → Live t.heap (t.reverse c.rev_bucket)
    → rev_unlink p c t ≡ value (out_of_reverse p c t)
unfolding rev_unlink out_of_reverse and_then
rev_unlink-out_of_reverse p c t linked live =
    simp linked (rw (unlink_in-Live t.heap p (t.reverse c.rev_bucket) live) refl)

pub forward-Live : (t : Tracker) → Linked t → (b : ℕ) → Live t.heap (t.forward b)
forward-Live t v = Counted-Live in_forward t.heap t.forward v.in_home

pub reverse-Live : (t : Tracker) → Linked t → (b : ℕ) → Live t.heap (t.reverse b)
reverse-Live t v = Counted-Live in_reverse t.heap t.reverse v.in_bucket

in_reverse_linked :
    (c : Connection) → c.in_rev ≡ true → (b : ℕ) → in_reverse c b ≡ (c.rev_bucket == b)
in_reverse_linked c e b = simp e refl

-- The state once a cell is out of the forward table too, and freed.
unfoldable pub cut : ℕ → Connection → Tracker → Tracker
cut p c t = record t {
  forward = put t.forward (home c.src_port) (without p (t.forward (home c.src_port)));
}

unfoldable pub released : ℕ → Connection → Tracker → Tracker
unfolding out_of_reverse cut
released p c t = record (out_of_reverse p c (cut p c t)) {
  heap = put (put t.heap p (some (record c { in_rev = false }))) p none;
}

-- A cell is freed without a read of a freed cell.
pub release-released :
    (t : Tracker) (p : ℕ) (c : Connection)
    → Linked t
    → t.heap p ≡ some c
    → release (home c.src_port) p c t ≡ value (released p c t)
unfolding release and_then out_of_reverse cut released
release-released t p c v holds =
    let key = v.keyed p c holds in
    rw (rev_unlink-out_of_reverse p c (cut p c t) key.0 (reverse-Live t v c.rev_bucket)) refl

pub released-heap :
    (t : Tracker) (p : ℕ) (c : Connection) (a : ℕ) → (released p c t).heap a ≡ put t.heap p none a
unfolding released
released-heap t p c a = put-put t.heap p (some (record c { in_rev = false })) none a

put-none-Keyed :
    (heap : Heap) (p : ℕ)
    → ((a : ℕ) (c : Connection) → heap a ≡ some c → Keyed c)
    → (a : ℕ) (c : Connection) → put heap p none a ≡ some c
    → Keyed c
put-none-Keyed heap p old a c e = elim (Bool-cases (a == p)) [
  | inl s ↦ cc (put_same heap p none a s)
  | inr s ↦ old a c (sym (put_other heap p none a s) ∙ e)
]

-- Taking a cell out of both tables and freeing it keeps the invariant.
pub released-Linked :
    (t : Tracker) (p : ℕ) (c : Connection) → Linked t → t.heap p ≡ some c → Linked (released p c t)
unfolding released out_of_reverse cut
released-Linked t p c v holds =
    let key = v.keyed p c holds in
    let same = released-heap t p c in
    record {
      in_home = λ b a.
          Counted-unlink in_forward t.heap t.forward p (home c.src_port) c none holds (λ b. refl)
            (λ b. refl) v.in_home b a
          ∙ ap (expected (λ d. in_forward d b)) (sym (same a));
      in_bucket = λ b a.
          Counted-unlink in_reverse t.heap t.reverse p c.rev_bucket c none holds
            (in_reverse_linked c key.0) (λ b. refl) v.in_bucket b a
          ∙ ap (expected (λ d. in_reverse d b)) (sym (same a));
      keyed = λ a d e. put-none-Keyed t.heap p v.keyed a d (sym (same a) ∙ e);
    }

-- A cell is linked in the bucket of its destination.
in_reverse_new :
    (c : Connection) (b : ℕ)
    → in_reverse (record c { rev_bucket = rev_hash c; in_rev = true }) b ≡ (rev_hash c == b)
in_reverse_new c b = refl

rev_hash_new :
    (c : Connection) → rev_hash c ≡ rev_hash (record c { rev_bucket = rev_hash c; in_rev = true })
unfolding rev_hash
rev_hash_new c = refl

-- A new cell is linked in both tables.
pub track_new-Linked :
    (t : Tracker) (p : ℕ) (c : Connection)
    → Linked t
    → t.heap p ≡ none
    → Linked (track_new c.src_port c (some p) t)
unfolding track_new rev_insert
track_new-Linked t p c v free = record {
  in_home =
      Counted-link in_forward t.heap t.forward p (home c.src_port)
        (record c { rev_bucket = rev_hash c; in_rev = true }) (λ b. rw free refl) (λ b. refl)
        v.in_home;
  in_bucket =
      Counted-link in_reverse t.heap t.reverse p (rev_hash c)
        (record c { rev_bucket = rev_hash c; in_rev = true }) (λ b. rw free refl) (in_reverse_new c)
        v.in_bucket;
  keyed =
      put-Keyed t.heap p (record c { rev_bucket = rev_hash c; in_rev = true })
        (refl, rev_hash_new c) v.keyed;
}

-- A cell whose destination changes is taken out of its bucket and put into the new one.
pub relink-Linked :
    (t : Tracker) (p : ℕ) (c d : Connection)
    → Linked t
    → t.heap p ≡ some c
    → home d.src_port ≡ home c.src_port
    → Linked (rev_insert p d (out_of_reverse p c t))
unfolding rev_insert out_of_reverse
relink-Linked t p c d v holds port =
    let key = v.keyed p c holds in
    let e : Connection = record d { rev_bucket = rev_hash d; in_rev = true } in
    let heap : Heap = put t.heap p (some (record c { in_rev = false })) in
    let table = put t.reverse c.rev_bucket (without p (t.reverse c.rev_bucket)) in
    record {
      in_home = λ b a.
          Counted-keep in_forward t.heap t.forward p c e holds (λ x. rw port refl) v.in_home b a
          ∙ ap (expected (λ x. in_forward x b))
              (sym (put-put t.heap p (some (record c { in_rev = false })) (some e) a));
      in_bucket =
          Counted-link in_reverse heap table p (rev_hash d) e
            (λ b.
              rw (put_same t.heap p (some (record c { in_rev = false })) p ((==_iff p p).1 refl))
                refl)
            (in_reverse_new d)
            (Counted-unlink in_reverse t.heap t.reverse p c.rev_bucket c
              (some (record c { in_rev = false })) holds (in_reverse_linked c key.0) (λ b. refl)
              v.in_bucket);
      keyed = λ a x h.
          put-Keyed t.heap p e (refl, rev_hash_new d) v.keyed a x
            (sym (put-put t.heap p (some (record c { in_rev = false })) (some e) a) ∙ h);
    }
