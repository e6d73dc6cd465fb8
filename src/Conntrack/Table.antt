-- ===== src/Conntrack/Table.antt =====
-- Windows/src/pb_conntrack.c: the operations on the connection tables. `now` is the tick count, and
-- `calloc` the address that the allocation gives, if it succeeds. Each holds the lock, so it is one
-- step.
use proxy_bridge.Prelude.{
  any, ℕ, ◌+◌, bit_or, Bool, true, false, ◌&&◌, ◌||◌, List, [], ◌∷◌, Option, none, some, ltb, leb,
  ◌==◌, same_bool, if◌then◌else◌, Bytes, equal, replicate, sub64,
}
use proxy_bridge.Conntrack.{
  Connection, Tracker, Access, value, dangling, and_then, put, home, hash_size, rev_hash_v6,
  find_in, rev_insert, rev_unlink,
}

-- The connection belongs to the local port, protocol and address family.
unfoldable pub same_flow : ℕ → Bool → Bool → Connection → Bool
same_flow port is_udp is_ipv6 c =
    c.src_port == port && same_bool c.is_udp is_udp && same_bool c.is_ipv6 is_ipv6

unfoldable pub find_flow : ℕ → Bool → Bool → Tracker → Access (Option (ℕ × Connection))
find_flow port is_udp is_ipv6 t =
    find_in t.heap (same_flow port is_udp is_ipv6) (t.forward (home port))

-- A destination of either family, as the two `add` calls take it.
pub record Target : Type 0 where
  pub src_ip : ℕ
  pub dest_ip : ℕ
  pub src_ip6 : Bytes
  pub dest_ip6 : Bytes
  pub dest_port : ℕ
  pub proxy_id : ℕ

-- The fields that a new use of the port sets in the cell that is there.
unfoldable pub renewed : Bool → Target → ℕ → ℕ → Connection → Connection
renewed true target generation now c = record c {
  is_ipv6 = true;
  src_ip6 = target.src_ip6;
  orig_dest_ip6 = target.dest_ip6;
  orig_dest_port = target.dest_port;
  proxy_config_id = target.proxy_id;
  is_tracked = true;
  fin_flags = 0;
  policy_generation = generation;
  last_activity = now;
  in_rev = false;
}
renewed false target generation now c = record c {
  is_ipv6 = false;
  src_ip = target.src_ip;
  orig_dest_ip = target.dest_ip;
  orig_dest_port = target.dest_port;
  proxy_config_id = target.proxy_id;
  is_tracked = true;
  fin_flags = 0;
  policy_generation = generation;
  last_activity = now;
  in_rev = false;
}

-- The new cell, zeroed and then filled in.
unfoldable pub created : ℕ → Bool → Bool → Target → ℕ → ℕ → Connection
unfolding renewed
created port is_udp is_ipv6 target generation now = renewed is_ipv6 target generation now (record {
  src_port = port;
  is_udp = is_udp;
  src_ip = 0;
  orig_dest_ip = 0;
  orig_dest_port = 0;
  is_tracked = false;
  fin_flags = 0;
  policy_generation = 0;
  last_activity = 0;
  proxy_config_id = 0;
  is_ipv6 = false;
  src_ip6 = replicate 16 0;
  orig_dest_ip6 = replicate 16 0;
  rev_bucket = 0;
  in_rev = false;
})

unfoldable pub track_new : ℕ → Connection → Option ℕ → Tracker → Tracker
track_new port c none t = t
track_new port c (some p) t =
    rev_insert p c (record t { forward = put t.forward (home port) (p ∷ t.forward (home port)) })

unfoldable pub track_found :
    ℕ → Bool → Bool → Target → ℕ → Option ℕ → Tracker → Option (ℕ × Connection) → Access Tracker
track_found port is_udp is_ipv6 target now calloc t (some (p, c)) =
    and_then (rev_unlink p c t)
      (λ u. value (rev_insert p (renewed is_ipv6 target t.generation now c) u))
track_found port is_udp is_ipv6 target now calloc t none =
    value (track_new port (created port is_udp is_ipv6 target t.generation now) calloc t)

-- `add_connection` for IPv4 and `add_connection_v6` for IPv6.
unfoldable pub add_connection : Bool → ℕ → Bool → Target → ℕ → Option ℕ → Tracker → Access Tracker
add_connection is_ipv6 port is_udp target now calloc t =
    and_then (find_flow port is_udp is_ipv6 t) (track_found port is_udp is_ipv6 target now calloc t)

-- A change of one cell in place.
unfoldable pub modify : (Connection → Connection) → Tracker → Option (ℕ × Connection) → Tracker
modify f t none = t
modify f t (some (p, c)) = record t { heap = put t.heap p (some (f c)) }

-- `get_connection_full` and `get_connection_full_v6`: the connection, whose activity is renewed.
unfoldable pub get_connection_full :
    Bool → ℕ → Bool → ℕ → Tracker → Access (Option (ℕ × Connection) × Tracker)
get_connection_full is_ipv6 port is_udp now t =
    and_then (find_flow port is_udp is_ipv6 t)
      (λ found. value (found, modify (λ c. record c { last_activity = now }) t found))

-- `get_connection_proxy_id`.
proxy_id_of : Option (ℕ × Connection) → ℕ
proxy_id_of none = 0
proxy_id_of (some (p, c)) = c.proxy_config_id

unfoldable pub get_connection_proxy_id : ℕ → Bool → Tracker → Access ℕ
unfolding proxy_id_of
get_connection_proxy_id port is_udp t =
    and_then (find_flow port is_udp false t) (λ found. value (proxy_id_of found))

-- `is_connection_tracked`.
is_found : Option (ℕ × Connection) → Bool
is_found none = false
is_found (some f) = true

unfoldable pub is_connection_tracked : ℕ → Bool → Bool → Tracker → Access Bool
unfolding is_found
is_connection_tracked port is_udp is_ipv6 t =
    and_then
      (find_in t.heap (λ c. same_flow port is_udp is_ipv6 c && c.is_tracked)
        (t.forward (home port)))
      (λ found. value (is_found found))

-- `connection_fin`.
unfoldable pub connection_fin : ℕ → Bool → ℕ → ℕ → Tracker → Access Tracker
connection_fin port is_ipv6 bit now t = and_then (find_flow port false is_ipv6 t) (λ found.
    value
      (modify (λ c. record c { fin_flags = bit_or c.fin_flags bit; last_activity = now }) t found))

-- `udp_flow_stamp`.
unfoldable pub udp_flow_stamp : ℕ → Bool → ℕ → Tracker → Access Tracker
udp_flow_stamp port is_ipv6 generation t =
    and_then (find_flow port true is_ipv6 t)
      (λ found. value (modify (λ c. record c { policy_generation = generation }) t found))

-- The first link to the pointer is taken out.
unfoldable pub without : ℕ → List ℕ → List ℕ
without p [] = []
without p (q ∷ qs) = if q == p then qs else q ∷ without p qs

-- A cell that a cursor stands at is taken out of both tables and freed.
unfoldable pub release : ℕ → ℕ → Connection → Tracker → Access Tracker
release b p c t =
    and_then (rev_unlink p c (record t { forward = put t.forward b (without p (t.forward b)) }))
      (λ u. value (record u { heap = put u.heap p none }))

unfoldable pub release_found : ℕ → Tracker → Option (ℕ × Connection) → Access Tracker
release_found b t none = value t
release_found b t (some (p, c)) = release b p c t

unfoldable pub remove_connection : ℕ → Bool → Bool → Tracker → Access Tracker
remove_connection port is_udp is_ipv6 t =
    and_then (find_flow port is_udp is_ipv6 t) (release_found (home port) t)

-- The cached verdict still counts for the packet: same endpoints, same policy, not idle.
unfoldable pub is_current : Bool → Target → ℕ → ℕ → Connection → Bool
is_current is_ipv6 target generation now c =
    c.orig_dest_port == target.dest_port
    && (if is_ipv6
        then equal c.src_ip6 target.src_ip6 && equal c.orig_dest_ip6 target.dest_ip6
        else c.src_ip == target.src_ip && c.orig_dest_ip == target.dest_ip)
    && c.policy_generation == generation
    && (leb now c.last_activity || leb (sub64 now c.last_activity) 20000)

unfoldable pub validate_found :
    ℕ → Bool → Target → ℕ → Tracker → Option (ℕ × Connection) → Access (Bool × Tracker)
validate_found port is_ipv6 target now t none = value (false, t)
validate_found port is_ipv6 target now t (some (p, c)) =
    if is_current is_ipv6 target t.generation now c
    then value (true, modify (λ d. record d { last_activity = now }) t (some (p, c)))
    else and_then (release (home port) p c t) (λ u. value (false, u))

-- `udp_flow_validate`.
unfoldable pub udp_flow_validate : ℕ → Bool → Target → ℕ → Tracker → Access (Bool × Tracker)
udp_flow_validate port is_ipv6 target now t =
    and_then (find_flow port true is_ipv6 t) (validate_found port is_ipv6 target now t)

-- The entry is idle for too long: a closed connection stays a minute, an open one half an hour.
unfoldable pub is_stale : ℕ → Connection → Bool
is_stale now c = ltb (if c.fin_flags == 3 then 60000 else 1800000) (sub64 now c.last_activity)

-- Where `conn_ptr` points in `cleanup_stale_connections`: to the head of the chain, or to the link in a
-- cell.
pub data Place : Type 0 where
  at_head : Place
  in_cell : ℕ → Place

-- A sweep that has given up the lock: the tick count it has read, its bucket, and `conn_ptr`.
pub record Sweeping : Type 0 where
  pub now : ℕ
  pub bucket : ℕ
  pub place : Place

-- The chain from `*conn_ptr` on.
unfoldable pub behind_cell : ℕ → List ℕ → List ℕ
behind_cell p [] = []
behind_cell p (x ∷ xs) = let rest = behind_cell p xs in if x == p then xs else rest

abbrev pub chain_from : Place → List ℕ → List ℕ
chain_from at_head l = l
chain_from (in_cell p) l = behind_cell p l

-- Whether the cell that `conn_ptr` points into is still in the chain.
abbrev pub is_held : Place → List ℕ → Bool
is_held at_head l = true
is_held (in_cell p) l = any (λ x. x == p) l

-- The inner loop while the lock is held: it is given up once a cell has been unlinked, which is freed
-- then, or behind the end of the chain.
unfoldable pub sweep : ℕ → ℕ → Place → List ℕ → Tracker → Access (Tracker × Option Place)
sweep now b place [] t = value (t, none)
sweep now b place (p ∷ ps) t = elim (t.heap p) [
  | none ↦ dangling
  | some c ↦ elim (is_stale now c) [
    | true ↦ and_then (release b p c t) (λ u. value (u, some place))
    | false ↦ sweep now b (in_cell p) ps t
  ]
]

-- The outer loop: the same chain again, or the next one, or the end.
abbrev pub moved_on : Sweeping → Option Place → Option Sweeping
moved_on s (some place) = some (record s { place = place })
moved_on s none =
    if s.bucket + 1 == hash_size
    then none
    else some (record { now = s.now; bucket = s.bucket + 1; place = at_head })

-- The sweep takes the lock again; a cell that has left the chain was freed.
unfoldable pub sweep_on : Sweeping → Tracker → Access (Tracker × Option Sweeping)
sweep_on s t =
    if is_held s.place (t.forward s.bucket)
    then and_then (sweep s.now s.bucket s.place (chain_from s.place (t.forward s.bucket)) t)
        (λ r. value (r.0, moved_on s r.1))
    else dangling

-- A sweep that is under way, or a new one.
abbrev pub under_way : ℕ → Option Sweeping → Sweeping
under_way now none = record { now = now; bucket = 0; place = at_head }
under_way now (some s) = s

-- The walk of `find_v6_udp_sender` along one bucket of the reverse table: the most recent match.
unfoldable pub is_sender : Bytes → ℕ → Connection → Bool
is_sender dest_ip6 dest_port c =
    c.is_udp && c.is_ipv6 && c.orig_dest_port == dest_port && equal c.orig_dest_ip6 dest_ip6

unfoldable pub later : Option Connection → Connection → Option Connection
later none c = some c
later (some d) c = if ltb d.last_activity c.last_activity then some c else some d

unfoldable pub better : Bytes → ℕ → Option Connection → Connection → Option Connection
unfolding later
better dest_ip6 dest_port best c = if is_sender dest_ip6 dest_port c then later best c else best

unfoldable pub latest_in :
    (ℕ → Option Connection) → Bytes → ℕ → Option Connection → List ℕ → Access (Option Connection)
latest_in heap dest_ip6 dest_port best [] = value best
latest_in heap dest_ip6 dest_port best (p ∷ ps) = elim (heap p) [
  | none ↦ dangling
  | some c ↦ latest_in heap dest_ip6 dest_port (better dest_ip6 dest_port best c) ps
]

unfoldable pub find_v6_udp_sender : Bytes → ℕ → Tracker → Access (Option Connection)
find_v6_udp_sender dest_ip6 dest_port t =
    latest_in t.heap dest_ip6 dest_port none (t.reverse (rev_hash_v6 dest_ip6 dest_port))
