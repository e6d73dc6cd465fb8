-- ===== src/Conntrack/Steps.antt =====
-- Windows/src/pb_conntrack.c: each operation on the connection tables keeps their invariant.
use proxy_bridge.Prelude.{
  ℕ, Bool, true, false, ◌≡◌, refl, sym, ap, subst, ◌∙◌, Option, none, some, Bool-cases, arith, ◌⊎◌,
  inl, inr,
}
use proxy_bridge.Conntrack.{Connection, Tracker, value, and_then, home, rev_insert, rev_hash}
use proxy_bridge.Conntrack.Chains.{find_in-Live}
use proxy_bridge.Conntrack.Linked.{
  Linked, Gives, released, out_of_reverse, release-released, released-Linked, forward-Live,
  reverse-Live, modify-Linked, track_new-Linked, relink-Linked, rev_unlink-out_of_reverse,
}
use proxy_bridge.Conntrack.Table.{
  Target, same_flow, find_flow, renewed, created, track_new, track_found, add_connection, modify,
  get_connection_full, connection_fin, udp_flow_stamp, remove_connection, release, release_found,
  is_current, validate_found, udp_flow_validate,
}

-- What a lookup comes to: nothing, or a cell of the flow.
pub record Hit (t : Tracker) (port : ℕ) (is_udp is_ipv6 : Bool) : Type 0 where
  pub at : ℕ
  pub cell : Connection
  pub found : find_flow port is_udp is_ipv6 t ≡ value (some (at, cell))
  pub holds : t.heap at ≡ some cell
  pub port_is : cell.src_port ≡ port
  pub passes : same_flow port is_udp is_ipv6 cell ≡ true

same_flow_port :
    (port : ℕ) (is_udp is_ipv6 : Bool) (c : Connection)
    → same_flow port is_udp is_ipv6 c ≡ true
    → c.src_port ≡ port
unfolding same_flow
same_flow_port port is_udp is_ipv6 c e = ground arith

pub find_flow-Hit :
    (t : Tracker) (port : ℕ) (is_udp is_ipv6 : Bool)
    → Linked t
    → (find_flow port is_udp is_ipv6 t ≡ value none) ⊎ Hit t port is_udp is_ipv6
unfolding find_flow
find_flow-Hit t port is_udp is_ipv6 v =
    elim (find_in-Live t.heap (same_flow port is_udp is_ipv6) (t.forward (home port))
      (forward-Live t v (home port))) [
        | inl e ↦ inl e
        | inr f ↦ inr (record {
          at = f.at;
          cell = f.cell;
          found = f.found;
          holds = f.holds;
          port_is = same_flow_port port is_udp is_ipv6 f.cell f.passes;
          passes = f.passes;
        })
      ]

renewed_port :
    (is_ipv6 : Bool) (target : Target) (generation now : ℕ) (c : Connection)
    → (renewed is_ipv6 target generation now c).src_port ≡ c.src_port
unfolding renewed
renewed_port true target generation now c = refl
renewed_port false target generation now c = refl

created_port :
    (port : ℕ) (is_udp is_ipv6 : Bool) (target : Target) (generation now : ℕ)
    → (created port is_udp is_ipv6 target generation now).src_port ≡ port
unfolding created
created_port port is_udp is_ipv6 target generation now =
    renewed_port is_ipv6 target generation now _

track_new-Gives :
    (port : ℕ) (c : Connection) (a : Option ℕ) (t : Tracker)
    → c.src_port ≡ port
    → ((p : ℕ) → a ≡ some p → t.heap p ≡ none)
    → Linked t
    → Linked (track_new port c a t)
unfolding track_new
track_new-Gives port c none t e fresh v = v
track_new-Gives port c (some p) t e fresh v =
    subst (λ k. Linked (track_new k c (some p) t)) e (track_new-Linked t p c v (fresh p refl))

pub add_connection-Gives :
    (is_ipv6 : Bool) (port : ℕ) (is_udp : Bool) (target : Target) (now : ℕ) (a : Option ℕ)
    (t : Tracker)
    → ((p : ℕ) → a ≡ some p → t.heap p ≡ none)
    → Linked t
    → Gives (add_connection is_ipv6 port is_udp target now a t) Linked
unfolding add_connection and_then track_found
add_connection-Gives is_ipv6 port is_udp target now a t fresh v =
    elim (find_flow-Hit t port is_udp is_ipv6 v) [
      | inl e ↦ (
        track_new port (created port is_udp is_ipv6 target t.generation now) a t,
        rw e refl,
        track_new-Gives port (created port is_udp is_ipv6 target t.generation now) a t
            (created_port port is_udp is_ipv6 target t.generation now) fresh v,
      )
      | inr h ↦
          let d = renewed is_ipv6 target t.generation now h.cell in
          let key = v.keyed h.at h.cell h.holds in
          (
            rev_insert h.at d (out_of_reverse h.at h.cell t),
            rw
                (
                  h.found,
                  rev_unlink-out_of_reverse h.at h.cell t key.0
                      (reverse-Live t v h.cell.rev_bucket),
                )
                refl,
            relink-Linked t h.at h.cell d v h.holds
                (ap home (renewed_port is_ipv6 target t.generation now h.cell)),
          )
    ]

release-Linked :
    (t : Tracker) (port : ℕ) (is_udp is_ipv6 : Bool) (v : Linked t) (h : Hit t port is_udp is_ipv6)
    → release (home port) h.at h.cell t ≡ value (released h.at h.cell t)
release-Linked t port is_udp is_ipv6 v h =
    subst (λ k. release (home k) h.at h.cell t ≡ value (released h.at h.cell t)) h.port_is
      (release-released t h.at h.cell v h.holds)

pub remove_connection-Gives :
    (port : ℕ) (is_udp is_ipv6 : Bool) (t : Tracker)
    → Linked t
    → Gives (remove_connection port is_udp is_ipv6 t) Linked
unfolding remove_connection and_then release_found
remove_connection-Gives port is_udp is_ipv6 t v = elim (find_flow-Hit t port is_udp is_ipv6 v) [
  | inl e ↦ (t, rw e refl, v)
  | inr h ↦ (
    released h.at h.cell t,
    rw (h.found, release-Linked t port is_udp is_ipv6 v h) refl,
    released-Linked t h.at h.cell v h.holds,
  )
]

modify-none : (f : Connection → Connection) (t : Tracker) → Linked t → Linked (modify f t none)
unfolding modify
modify-none f t v = v

-- A change in place of the cell that a lookup finds.
modify-Hit :
    (f : Connection → Connection) (t : Tracker) (port : ℕ) (is_udp is_ipv6 : Bool)
    → ((c : Connection)
        → ((f c).src_port ≡ c.src_port)
          × ((f c).in_rev ≡ c.in_rev)
          × ((f c).rev_bucket ≡ c.rev_bucket)
          × (rev_hash (f c) ≡ rev_hash c))
    → Linked t
    → (h : Hit t port is_udp is_ipv6) → Linked (modify f t (some (h.at, h.cell)))
modify-Hit f t port is_udp is_ipv6 same v h =
    let (p, i, b, r) = same h.cell in
    modify-Linked f t h.at h.cell h.holds (λ x. rw p refl) (λ x. rw (i, b) refl)
      (λ k. (i ∙ k.0, b ∙ k.1 ∙ sym r)) v

pub modify_found-Gives :
    (f : Connection → Connection) (t : Tracker) (port : ℕ) (is_udp is_ipv6 : Bool)
    → ((c : Connection)
        → ((f c).src_port ≡ c.src_port)
          × ((f c).in_rev ≡ c.in_rev)
          × ((f c).rev_bucket ≡ c.rev_bucket)
          × (rev_hash (f c) ≡ rev_hash c))
    → Linked t
    → Gives (and_then (find_flow port is_udp is_ipv6 t) (λ found. value (modify f t found))) Linked
unfolding and_then
modify_found-Gives f t port is_udp is_ipv6 same v = elim (find_flow-Hit t port is_udp is_ipv6 v) [
  | inl e ↦ (modify f t none, rw e refl, modify-none f t v)
  | inr h ↦ (
    modify f t (some (h.at, h.cell)),
    rw h.found refl,
    modify-Hit f t port is_udp is_ipv6 same v h,
  )
]

touch_hash : (c : Connection) (now : ℕ) → rev_hash (record c { last_activity = now }) ≡ rev_hash c
unfolding rev_hash
touch_hash c now = refl

pub get_connection_full-Gives :
    (is_ipv6 : Bool) (port : ℕ) (is_udp : Bool) (now : ℕ) (t : Tracker)
    → Linked t
    → Gives (and_then (get_connection_full is_ipv6 port is_udp now t) (λ r. value r.1)) Linked
unfolding get_connection_full and_then
get_connection_full-Gives is_ipv6 port is_udp now t v =
    elim (find_flow-Hit t port is_udp is_ipv6 v) [
      | inl e ↦
          (modify (λ c. record c { last_activity = now }) t none, rw e refl, modify-none _ t v)
      | inr h ↦ (
        modify (λ c. record c { last_activity = now }) t (some (h.at, h.cell)),
        rw h.found refl,
        modify-Hit (λ c. record c { last_activity = now }) t port is_udp is_ipv6
            (λ c. (refl, refl, refl, touch_hash c now)) v h,
      )
    ]

pub connection_fin-Gives :
    (port : ℕ) (is_ipv6 : Bool) (bit now : ℕ) (t : Tracker)
    → Linked t
    → Gives (connection_fin port is_ipv6 bit now t) Linked
unfolding connection_fin rev_hash
connection_fin-Gives port is_ipv6 bit now t v =
    modify_found-Gives _ t port false is_ipv6 (λ c. (refl, refl, refl, refl)) v

pub udp_flow_stamp-Gives :
    (port : ℕ) (is_ipv6 : Bool) (generation : ℕ) (t : Tracker)
    → Linked t
    → Gives (udp_flow_stamp port is_ipv6 generation t) Linked
unfolding udp_flow_stamp rev_hash
udp_flow_stamp-Gives port is_ipv6 generation t v =
    modify_found-Gives _ t port true is_ipv6 (λ c. (refl, refl, refl, refl)) v

pub udp_flow_validate-Gives :
    (port : ℕ) (is_ipv6 : Bool) (target : Target) (now : ℕ) (t : Tracker)
    → Linked t
    → Gives (and_then (udp_flow_validate port is_ipv6 target now t) (λ r. value r.1)) Linked
unfolding udp_flow_validate validate_found and_then
udp_flow_validate-Gives port is_ipv6 target now t v = elim (find_flow-Hit t port true is_ipv6 v) [
  | inl e ↦ (t, rw e refl, v)
  | inr h ↦ elim (Bool-cases (is_current is_ipv6 target t.generation now h.cell)) [
    | inl c ↦ (
      modify (λ d. record d { last_activity = now }) t (some (h.at, h.cell)),
      rw (h.found, c) refl,
      modify-Hit (λ c. record c { last_activity = now }) t port true is_ipv6
          (λ c. (refl, refl, refl, touch_hash c now)) v h,
    )
    | inr c ↦ (
      released h.at h.cell t,
      rw (h.found, c, release-Linked t port true is_ipv6 v h) refl,
      released-Linked t h.at h.cell v h.holds,
    )
  ]
]
