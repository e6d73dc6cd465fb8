-- ===== src/Tests/Conntrack.antt =====
-- Windows/src/pb_conntrack.c: the connection tables on small inputs.
use proxy_bridge.Prelude.{
  ℕ, true, false, ◌≡◌, ◌≤◌, refl, ap, ◌∙◌, ◌⊎◌, List, [], ◌∷◌, Option, none, some, replicate, ◌++◌,
  Bytes, arith,
}
use proxy_bridge.Conntrack.{Connection, Tracker, value, dangling, put, rev_hash, rev_insert}
use proxy_bridge.Conntrack.Linked.{Linked, track_new-Linked}
use proxy_bridge.Conntrack.Lookup.{Finds, add_connection-Finds}
use proxy_bridge.Conntrack.Stale.{is_stale_ahead}
use proxy_bridge.Conntrack.Sender.{find_v6_udp_sender-NoLater}
use proxy_bridge.Conntrack.Calls.{
  TrackerCall, adds, reads, fins, stamps, validates, removes, sweeps, perform_all, Tables, LostIn,
  perform, perform_all-Linked, Fresh, Allocator,
}
use proxy_bridge.Conntrack.Table.{
  Target, at_head, track_new, add_connection, is_sender, find_v6_udp_sender, is_stale,
}

abbrev empty : Tracker
empty = record { heap = λ p. none; forward = λ b. []; reverse = λ b. []; generation = 1 }

empty-Linked : Linked empty
empty-Linked = record { in_home = λ b a. refl; in_bucket = λ b a. refl; keyed = λ a c e. cc }

abbrev server : Bytes
server = replicate 15 0 ++ 9 ∷ []

abbrev target : Target
target = record {
  src_ip = 33554442;
  dest_ip = 134744072;
  src_ip6 = replicate 15 0 ++ 1 ∷ [];
  dest_ip6 = server;
  dest_port = 443;
  proxy_id = 2;
}

-- An allocator of one cell.
abbrev if_free : Option Connection → Option ℕ
if_free none = some 7
if_free (some c) = none

abbrev one_cell : Allocator
one_cell heap = if_free (heap 7)

seven : {p : ℕ} → ◌≡◌ {A = Option ℕ} (some 7) (some p) → p ≡ 7
seven e = cc

if_free_free : (o : Option Connection) (p : ℕ) → if_free o ≡ some p → (o ≡ none) × (p ≡ 7)
if_free_free none p e = (refl, seven e)
if_free_free (some c) p e = cc

one_cell-Fresh : Fresh one_cell
one_cell-Fresh heap p e = let (free, at) = if_free_free (heap 7) p e in ap heap at ∙ free

abbrev history : List TrackerCall
history =
    adds true 5000 true target 10
    ∷ adds true 5000 true (record target { dest_port = 53 }) 20
    ∷ adds false 5000 true target 30
    ∷ reads true 5000 true 40
    ∷ validates 5000 true target 50
    ∷ adds false 5000 false target 60
    ∷ fins 5000 false 3 70
    ∷ stamps 5000 false 9
    ∷ sweeps 2000000
    ∷ removes 5000 false false
    ∷ sweeps 2000000
    ∷ []

abbrev start : Tables
start = record { tracker = empty; sweeping = none }

perform_all-Linked_example :
    ((u : Tables) × (perform_all one_cell start history ≡ value u) × Linked u.tracker)
    ⊎ ((perform_all one_cell start history ≡ dangling) × LostIn one_cell start history)
perform_all-Linked_example = perform_all-Linked one_cell start history one_cell-Fresh empty-Linked

add_connection-Finds_example :
    (u : Tracker) × (add_connection false 5000 true target 10 (some 7) empty ≡ value u)
    × Finds false 5000 true target 1 u
add_connection-Finds_example = add_connection-Finds false 5000 true target 10 7 empty empty-Linked

abbrev sender : Connection
sender = record {
  src_port = 5000;
  is_udp = true;
  src_ip = 0;
  orig_dest_ip = 0;
  orig_dest_port = 443;
  is_tracked = true;
  fin_flags = 0;
  policy_generation = 1;
  last_activity = 10;
  proxy_config_id = 2;
  is_ipv6 = true;
  src_ip6 = replicate 16 0;
  orig_dest_ip6 = server;
  rev_bucket = 0;
  in_rev = false;
}

abbrev one_sender : Tracker
one_sender = track_new 5000 sender (some 7) empty

abbrev linked_sender : Connection
linked_sender = record sender { rev_bucket = rev_hash sender; in_rev = true }

at_seven : one_sender.heap 7 ≡ some linked_sender
unfolding track_new rev_insert put
at_seven = refl

is_linked_sender : is_sender server 443 linked_sender ≡ true
unfolding is_sender
is_linked_sender = refl

find_v6_udp_sender-NoLater_example :
    (d : Connection) × (find_v6_udp_sender server 443 one_sender ≡ value (some d))
    × (10 ≤ d.last_activity)
    × (is_sender server 443 d ≡ true)
    × (x : ℕ) × (one_sender.heap x ≡ some d)
find_v6_udp_sender-NoLater_example =
    find_v6_udp_sender-NoLater server 443 one_sender 7 linked_sender
      (track_new-Linked empty 7 sender empty-Linked refl) at_seven is_linked_sender

is_stale_ahead_example : is_stale 5 sender ≡ true
is_stale_ahead_example = is_stale_ahead 5 sender (omega arith) (omega arith) (omega arith)

-- A kept cell, and a stale one behind it in the chain: the sweep frees the second and rests in the
-- first, which another thread removes before it goes on.
abbrev two_cells : Tracker
two_cells =
    track_new 5000 (record sender { last_activity = 1900000 }) (some 7)
      (track_new 904 (record sender { src_port = 904 }) (some 8) empty)

test_lost :
    perform_all one_cell
      (record {
        tracker = two_cells;
        sweeping = some (record { now = 2000000; bucket = 904; place = at_head });
      })
      (sweeps 2000000 ∷ removes 5000 true true ∷ sweeps 2000000 ∷ [])
    ≡ dangling
unfolding track_new rev_insert put is_stale rev_hash perform_all perform
    proxy_bridge.Conntrack.and_then proxy_bridge.Conntrack.home proxy_bridge.Conntrack.rev_unlink
    proxy_bridge.Conntrack.unlink_in proxy_bridge.Conntrack.rev_hash_v6
    proxy_bridge.Conntrack.find_in proxy_bridge.Conntrack.Table.same_flow
    proxy_bridge.Conntrack.Table.sweep_on proxy_bridge.Conntrack.Table.sweep
    proxy_bridge.Conntrack.Table.release proxy_bridge.Conntrack.Table.remove_connection
    proxy_bridge.Conntrack.Table.find_flow proxy_bridge.Conntrack.Table.behind_cell
    proxy_bridge.Conntrack.Table.without proxy_bridge.Conntrack.Table.release_found
test_lost = refl
