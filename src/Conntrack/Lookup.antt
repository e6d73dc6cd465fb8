-- ===== src/Conntrack/Lookup.antt =====
-- Windows/src/pb_conntrack.c: a connection that is added is the one that a lookup finds.
use proxy_bridge.Prelude.{
  ℕ, Bool, true, false, ◌≡◌, refl, sym, ap, ◌∙◌, List, [], ◌∷◌, Option, none, some, ◌==◌, ==_iff,
  Bool-cases, Option-cases, arith, inl, inr, same_bool_iff,
}
use proxy_bridge.Conntrack.{
  Connection, Tracker, Access, value, dangling, and_then, put, home, rev_hash, find_in, rev_insert,
}
use proxy_bridge.Conntrack.Counted.{Heap, put_same, put_other}
use proxy_bridge.Conntrack.Linked.{Linked, reverse-Live, out_of_reverse, rev_unlink-out_of_reverse}
use proxy_bridge.Conntrack.Steps.{Hit, find_flow-Hit}
use proxy_bridge.Conntrack.Table.{
  Target, same_flow, find_flow, renewed, created, track_new, track_found, add_connection,
}

-- The cell carries what the call gave for its address family, and the present policy.
abbrev pub Carries : Bool → Target → ℕ → Connection → Type 0
Carries true target generation c =
    (c.orig_dest_ip6 ≡ target.dest_ip6)
    × (c.src_ip6 ≡ target.src_ip6)
    × (c.orig_dest_port ≡ target.dest_port)
    × (c.proxy_config_id ≡ target.proxy_id)
    × (c.policy_generation ≡ generation)
Carries false target generation c =
    (c.orig_dest_ip ≡ target.dest_ip)
    × (c.src_ip ≡ target.src_ip)
    × (c.orig_dest_port ≡ target.dest_port)
    × (c.proxy_config_id ≡ target.proxy_id)
    × (c.policy_generation ≡ generation)

-- The cell as `rev_insert` leaves it.
linked_cell : Connection → Connection
linked_cell c = record c { rev_bucket = rev_hash c; in_rev = true }

renewed-Carries :
    (v6 : Bool) (target : Target) (generation now : ℕ) (c : Connection)
    → Carries v6 target generation (linked_cell (renewed v6 target generation now c))
unfolding renewed linked_cell
renewed-Carries true target generation now c = (refl, refl, refl, refl, refl)
renewed-Carries false target generation now c = (refl, refl, refl, refl, refl)

renewed_flow :
    (port : ℕ) (is_udp v6 : Bool) (target : Target) (generation now : ℕ) (c : Connection)
    → c.src_port ≡ port
    → c.is_udp ≡ is_udp
    → same_flow port is_udp v6 (linked_cell (renewed v6 target generation now c)) ≡ true
unfolding renewed same_flow linked_cell
renewed_flow port is_udp true target generation now c p u =
    rw (p, u, (==_iff port port).1 refl, (same_bool_iff is_udp is_udp).1 refl) refl
renewed_flow port is_udp false target generation now c p u =
    rw (p, u, (==_iff port port).1 refl, (same_bool_iff is_udp is_udp).1 refl) refl

created_flow :
    (port : ℕ) (is_udp v6 : Bool) (target : Target) (generation now : ℕ)
    → same_flow port is_udp v6 (linked_cell (created port is_udp v6 target generation now)) ≡ true
unfolding created
created_flow port is_udp v6 target generation now =
    renewed_flow port is_udp v6 target generation now _ refl refl

created-Carries :
    (port : ℕ) (is_udp v6 : Bool) (target : Target) (generation now : ℕ)
    → Carries v6 target generation (linked_cell (created port is_udp v6 target generation now))
unfolding created
created-Carries port is_udp v6 target generation now = renewed-Carries v6 target generation now _

same_flow_udp :
    (port : ℕ) (is_udp v6 : Bool) (c : Connection)
    → same_flow port is_udp v6 c ≡ true
    → c.is_udp ≡ is_udp
unfolding same_flow
same_flow_udp port is_udp v6 c e = (same_bool_iff c.is_udp is_udp).0 (ground arith)

out_of_bucket :
    (port : ℕ) (is_udp v6 : Bool) (c : Connection)
    → same_flow port is_udp v6 c ≡ true
    → same_flow port is_udp v6 (record c { in_rev = false }) ≡ true
unfolding same_flow
out_of_bucket port is_udp v6 c e = e

-- The turns of a walk.
find_in_freed :
    (heap : Heap) (mine : Connection → Bool) (q : ℕ) (qs : List ℕ)
    → heap q ≡ none
    → find_in heap mine (q ∷ qs) ≡ dangling
unfolding find_in
find_in_freed heap mine q qs h = rw (h, find_in) refl

find_in_hit :
    (heap : Heap) (mine : Connection → Bool) (q : ℕ) (qs : List ℕ) (x : Connection)
    → heap q ≡ some x
    → mine x ≡ true
    → find_in heap mine (q ∷ qs) ≡ value (some (q, x))
unfolding find_in
find_in_hit heap mine q qs x h m = rw (h, find_in, m) refl

find_in_miss :
    (heap : Heap) (mine : Connection → Bool) (q : ℕ) (qs : List ℕ) (x : Connection)
    → heap q ≡ some x
    → mine x ≡ false
    → find_in heap mine (q ∷ qs) ≡ find_in heap mine qs
unfolding find_in
find_in_miss heap mine q qs x h m = rw (h, find_in, m) refl

found_at :
    (p q : ℕ) (c x : Connection)
    → ◌≡◌ {A = Access (Option (ℕ × Connection))} (value (some (q, x))) (value (some (p, c)))
    → q ≡ p
found_at p q c x e = cc

-- The cell that a walk finds is written, and still passes the test.
find_in-put :
    (heap : Heap) (mine : Connection → Bool) (p : ℕ) (c d : Connection) (l : List ℕ)
    → find_in heap mine l ≡ value (some (p, c))
    → mine d ≡ true
    → find_in (put heap p (some d)) mine l ≡ value (some (p, d))
unfolding find_in
find_in-put heap mine p c d [] e m = cc
find_in-put heap mine p c d (q ∷ qs) e m = elim (Bool-cases (q == p)) [
  | inl s ↦
      find_in_hit (put heap p (some d)) mine q qs d (put_same heap p (some d) q s) m
      ∙ ap (λ x. value (some (x, d))) ((==_iff q p).0 s)
  | inr s ↦ elim (Option-cases (heap q)) [
    | inl h ↦ cc (find_in_freed heap mine q qs h)
    | inr (x, h) ↦ elim (Bool-cases (mine x)) [
      | inl t ↦
          let w : q ≡ p = found_at p q c x (sym (find_in_hit heap mine q qs x h t) ∙ e) in
          cc ((==_iff q p).1 w)
      | inr t ↦
          find_in_miss (put heap p (some d)) mine q qs x (put_other heap p (some d) q s ∙ h) t
          ∙ find_in-put heap mine p c d qs (sym (find_in_miss heap mine q qs x h t) ∙ e) m
    ]
  ]
]

-- What the lookup finds after a call: a cell of the flow with what the call gave.
abbrev pub Finds : Bool → ℕ → Bool → Target → ℕ → Tracker → Type 0
Finds v6 port is_udp target generation u =
    (p : ℕ) × (c : Connection) × (find_flow port is_udp v6 u ≡ value (some (p, c)))
    × Carries v6 target generation c

renewed-Finds :
    (v6 : Bool) (port : ℕ) (is_udp : Bool) (target : Target) (now : ℕ) (t : Tracker)
    → (h : Hit t port is_udp v6)
    → Finds v6 port is_udp target t.generation
        (rev_insert h.at (renewed v6 target t.generation now h.cell) (out_of_reverse h.at h.cell t))
unfolding rev_insert out_of_reverse find_flow linked_cell
renewed-Finds v6 port is_udp target now t h =
    let mine = same_flow port is_udp v6 in
    let d = linked_cell (renewed v6 target t.generation now h.cell) in
    (
      h.at,
      d,
      find_in-put (put t.heap h.at (some (record h.cell { in_rev = false }))) mine h.at
          (record h.cell { in_rev = false }) d (t.forward (home port))
          (find_in-put t.heap mine h.at h.cell (record h.cell { in_rev = false })
            (t.forward (home port)) h.found (out_of_bucket port is_udp v6 h.cell h.passes))
          (renewed_flow port is_udp v6 target t.generation now h.cell h.port_is
            (same_flow_udp port is_udp v6 h.cell h.passes)),
      renewed-Carries v6 target t.generation now h.cell,
    )

created-Finds :
    (v6 : Bool) (port : ℕ) (is_udp : Bool) (target : Target) (now p : ℕ) (t : Tracker)
    → Finds v6 port is_udp target t.generation
        (track_new port (created port is_udp v6 target t.generation now) (some p) t)
unfolding track_new rev_insert find_flow linked_cell
created-Finds v6 port is_udp target now p t =
    let mine = same_flow port is_udp v6 in
    let d = linked_cell (created port is_udp v6 target t.generation now) in
    (
      p,
      d,
      rw
          (put_same t.forward (home port) (p ∷ t.forward (home port)) (home port)
            ((==_iff (home port) (home port)).1 refl))
          (find_in_hit (put t.heap p (some d)) mine p (t.forward (home port)) d
            (put_same t.heap p (some d) p ((==_iff p p).1 refl))
            (created_flow port is_udp v6 target t.generation now)),
      created-Carries port is_udp v6 target t.generation now,
    )

-- Unless a new cell is needed and the allocation fails, a call that adds a connection leaves one
-- that a lookup of the port, protocol and family finds: it has the endpoints and the proxy that the
-- call gave, and is stamped with the present policy, whether the port was tracked before or not.
pub add_connection-Finds :
    (v6 : Bool) (port : ℕ) (is_udp : Bool) (target : Target) (now p : ℕ) (t : Tracker)
    → Linked t
    → (u : Tracker) × (add_connection v6 port is_udp target now (some p) t ≡ value u)
      × Finds v6 port is_udp target t.generation u
unfolding add_connection and_then track_found
add_connection-Finds v6 port is_udp target now p t v = elim (find_flow-Hit t port is_udp v6 v) [
  | inl e ↦ (
    track_new port (created port is_udp v6 target t.generation now) (some p) t,
    rw e refl,
    created-Finds v6 port is_udp target now p t,
  )
  | inr h ↦
      let key = v.keyed h.at h.cell h.holds in
      (
        rev_insert h.at (renewed v6 target t.generation now h.cell) (out_of_reverse h.at h.cell t),
        rw
            (
              h.found,
              rev_unlink-out_of_reverse h.at h.cell t key.0 (reverse-Live t v h.cell.rev_bucket),
            )
            refl,
        renewed-Finds v6 port is_udp target now t h,
      )
]
