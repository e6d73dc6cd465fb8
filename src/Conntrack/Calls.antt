-- ===== src/Conntrack/Calls.antt =====
-- Windows/src/pb_conntrack.c: sequences of operations on the connection tables.
use proxy_bridge.Prelude.{
  ℕ, Bool, true, false, ◌≡◌, refl, ap, ◌⊎◌, inl, inr, List, [], ◌∷◌, ◌++◌, Option, none, some,
  Bool-cases,
}
use proxy_bridge.Conntrack.{Connection, Tracker, Access, value, dangling, and_then}
use proxy_bridge.Conntrack.Linked.{Linked, Gives}
use proxy_bridge.Conntrack.Sweep.{sweep_on-Linked}
use proxy_bridge.Conntrack.Steps.{
  add_connection-Gives, remove_connection-Gives, get_connection_full-Gives, connection_fin-Gives,
  udp_flow_stamp-Gives, udp_flow_validate-Gives,
}
use proxy_bridge.Conntrack.Table.{
  Target, add_connection, get_connection_full, connection_fin, udp_flow_stamp, remove_connection,
  udp_flow_validate, Sweeping, Place, at_head, in_cell, is_held, sweep_on, under_way,
}

-- The operations that change the tables, each with the tick count at which it runs. Every call is what
-- a thread does while it holds the lock, so `sweeps` goes on with the sweep of
-- `cleanup_stale_connections` until it gives up the lock, and starts one where none is under way.
pub data TrackerCall : Type 0 where
  adds : Bool → ℕ → Bool → Target → ℕ → TrackerCall
  reads : Bool → ℕ → Bool → ℕ → TrackerCall
  fins : ℕ → Bool → ℕ → ℕ → TrackerCall
  stamps : ℕ → Bool → ℕ → TrackerCall
  validates : ℕ → Bool → Target → ℕ → TrackerCall
  removes : ℕ → Bool → Bool → TrackerCall
  sweeps : ℕ → TrackerCall

-- The tables, and the sweep that has given up the lock.
pub record Tables : Type 0 where
  pub tracker : Tracker
  pub sweeping : Option Sweeping

-- `calloc` picks the address of a new cell from what the heap holds.
abbrev pub Allocator : Type 0
Allocator = (ℕ → Option Connection) → Option ℕ

-- The allocator never gives out a cell that is in use.
abbrev pub Fresh : Allocator → Type 0
Fresh calloc = (heap : ℕ → Option Connection) (p : ℕ) → calloc heap ≡ some p → heap p ≡ none

-- An operation of another thread leaves the sweep where it is.
abbrev pub beside : Option Sweeping → Access Tracker → Access Tables
beside w r = and_then r (λ t. value (record { tracker = t; sweeping = w }))

unfoldable pub perform : Allocator → Tables → TrackerCall → Access Tables
perform calloc s (adds is_ipv6 port is_udp target now) =
    beside s.sweeping
      (add_connection is_ipv6 port is_udp target now (calloc s.tracker.heap) s.tracker)
perform calloc s (reads is_ipv6 port is_udp now) =
    beside s.sweeping
      (and_then (get_connection_full is_ipv6 port is_udp now s.tracker) (λ r. value r.1))
perform calloc s (fins port is_ipv6 bit now) =
    beside s.sweeping (connection_fin port is_ipv6 bit now s.tracker)
perform calloc s (stamps port is_ipv6 generation) =
    beside s.sweeping (udp_flow_stamp port is_ipv6 generation s.tracker)
perform calloc s (validates port is_ipv6 target now) =
    beside s.sweeping
      (and_then (udp_flow_validate port is_ipv6 target now s.tracker) (λ r. value r.1))
perform calloc s (removes port is_udp is_ipv6) =
    beside s.sweeping (remove_connection port is_udp is_ipv6 s.tracker)
perform calloc s (sweeps now) =
    and_then (sweep_on (under_way now s.sweeping) s.tracker)
      (λ r. value (record { tracker = r.0; sweeping = r.1 }))

unfoldable pub perform_all : Allocator → Tables → List TrackerCall → Access Tables
perform_all calloc s [] = value s
perform_all calloc s (c ∷ cs) = and_then (perform calloc s c) (λ u. perform_all calloc u cs)

-- The sweep has given up the lock, and rests in a cell that is no longer in its chain.
abbrev pub IsCut : Tables → Type 0
IsCut s =
    (w : Sweeping) × (p : ℕ) × (s.sweeping ≡ some w)
    × (w.place ≡ in_cell p)
    × (is_held (in_cell p) (s.tracker.forward w.bucket) ≡ false)

-- What a call comes to.
abbrev Ends : Allocator → Tables → TrackerCall → Type 0
Ends calloc s c =
    Gives (perform calloc s c) (λ u. Linked u.tracker)
    ⊎ ((now : ℕ) × (c ≡ sweeps now) × (perform calloc s c ≡ dangling) × IsCut s)

beside-Linked :
    (w : Option Sweeping) (r : Access Tracker)
    → Gives r Linked
    → Gives (beside w r) (λ u. Linked u.tracker)
unfolding and_then
beside-Linked w r (t, e, v) = (record { tracker = t; sweeping = w }, rw e refl, v)

sweeps_well :
    (calloc : Allocator) (now : ℕ) (s : Tables)
    → Linked s.tracker
    → is_held (under_way now s.sweeping).place (s.tracker.forward (under_way now s.sweeping).bucket)
      ≡ true
    → Gives (perform calloc s (sweeps now)) (λ u. Linked u.tracker)
unfolding perform and_then
sweeps_well calloc now s v held =
    let (r, run, w) = sweep_on-Linked (under_way now s.sweeping) s.tracker v held in
    (record { tracker = r.0; sweeping = r.1 }, rw run refl, w)

-- A place that is not held is in a cell.
rests_in :
    (place : Place) (l : List ℕ)
    → is_held place l ≡ false
    → (p : ℕ) × (place ≡ in_cell p) × (is_held (in_cell p) l ≡ false)
rests_in at_head l h = cc
rests_in (in_cell p) l h = (p, refl, h)

under_way-IsCut :
    (now : ℕ) (t : Tracker) (o : Option Sweeping)
    → is_held (under_way now o).place (t.forward (under_way now o).bucket) ≡ false
    → IsCut (record { tracker = t; sweeping = o })
under_way-IsCut now t none h = cc
under_way-IsCut now t (some w) h =
    let (p, e, n) = rests_in w.place (t.forward w.bucket) h in (w, p, refl, e, n)

sweep_lost :
    (w : Sweeping) (t : Tracker)
    → is_held w.place (t.forward w.bucket) ≡ false
    → sweep_on w t ≡ dangling
unfolding sweep_on
sweep_lost w t h = rw h refl

sweeps_lost :
    (calloc : Allocator) (now : ℕ) (s : Tables)
    → is_held (under_way now s.sweeping).place (s.tracker.forward (under_way now s.sweeping).bucket)
      ≡ false
    → perform calloc s (sweeps now) ≡ dangling
unfolding perform and_then
sweeps_lost calloc now s h = rw (sweep_lost (under_way now s.sweeping) s.tracker h) refl

perform-Ends :
    (calloc : Allocator) (s : Tables) (c : TrackerCall)
    → Fresh calloc
    → Linked s.tracker
    → Ends calloc s c
unfolding perform
perform-Ends calloc s (adds is_ipv6 port is_udp target now) fresh v = inl (
    beside-Linked s.sweeping _ (
      add_connection-Gives is_ipv6 port is_udp target now (calloc s.tracker.heap) s.tracker
        (fresh s.tracker.heap) v))
perform-Ends calloc s (reads is_ipv6 port is_udp now) fresh v =
    inl (beside-Linked s.sweeping _ (get_connection_full-Gives is_ipv6 port is_udp now s.tracker v))
perform-Ends calloc s (fins port is_ipv6 bit now) fresh v =
    inl (beside-Linked s.sweeping _ (connection_fin-Gives port is_ipv6 bit now s.tracker v))
perform-Ends calloc s (stamps port is_ipv6 generation) fresh v =
    inl (beside-Linked s.sweeping _ (udp_flow_stamp-Gives port is_ipv6 generation s.tracker v))
perform-Ends calloc s (validates port is_ipv6 target now) fresh v =
    inl (beside-Linked s.sweeping _ (udp_flow_validate-Gives port is_ipv6 target now s.tracker v))
perform-Ends calloc s (removes port is_udp is_ipv6) fresh v =
    inl (beside-Linked s.sweeping _ (remove_connection-Gives port is_udp is_ipv6 s.tracker v))
perform-Ends calloc s (sweeps now) fresh v =
    let w = under_way now s.sweeping in
    elim (Bool-cases (is_held w.place (s.tracker.forward w.bucket))) [
      | inl h ↦ inl (sweeps_well calloc now s v h)
      | inr h ↦
          inr (now, refl, sweeps_lost calloc now s h, under_way-IsCut now s.tracker s.sweeping h)
    ]

-- A sequence of calls that follows a pointer to a freed cell: it does so in a turn of the sweep, which
-- rests in a cell that has left its chain.
abbrev pub LostIn : Allocator → Tables → List TrackerCall → Type 0
LostIn calloc s calls =
    (before : List TrackerCall) × (now : ℕ) × (after : List TrackerCall) × (u : Tables) × (calls
      ≡ before ++ (sweeps now ∷ after))
    × (perform_all calloc s before ≡ value u)
    × IsCut u

-- The tables are shared by threads that take the lock in any order, and the sweep gives it up behind
-- each cell that it frees. With an allocator that gives out only free cells: either no pointer to a
-- freed cell is followed, and after the calls each table holds exactly the cells that are allocated,
-- each once, in the bucket of its port and in that of its destination; or a pointer to a freed cell is
-- followed, by the sweep, when it goes on from the link in a cell that is no longer in its chain. No
-- other operation ever follows one.
pub perform_all-Linked :
    (calloc : Allocator) (s : Tables) (calls : List TrackerCall)
    → Fresh calloc
    → Linked s.tracker
    → ((u : Tables) × (perform_all calloc s calls ≡ value u) × Linked u.tracker)
      ⊎ ((perform_all calloc s calls ≡ dangling) × LostIn calloc s calls)
unfolding perform_all and_then
perform_all-Linked calloc s [] fresh v = inl (s, refl, v)
perform_all-Linked calloc s (c ∷ cs) fresh v = elim (perform-Ends calloc s c fresh v) [
  | inr (now, e, d, cut) ↦ inr (rw d refl, ([], now, cs, s, ap (λ x. x ∷ cs) e, refl, cut))
  | inl (u, e, w) ↦ elim (perform_all-Linked calloc u cs fresh w) [
    | inl (z, f, x) ↦ inl (z, rw e f, x)
    | inr (f, (before, now, after, z, split, run, cut)) ↦
        inr (rw e f, (c ∷ before, now, after, z, ap (λ l. c ∷ l) split, rw e run, cut))
  ]
]
