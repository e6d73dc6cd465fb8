-- ===== src/Owners/Events.antt =====
-- Windows/src/pb_process.c: the cache of the owners that the driver's socket and flow events tell.
pub mod Fit
pub mod Best
pub mod Gone
use proxy_bridge.Prelude.{
  ℕ, zero, suc, ◌+◌, ◌*◌, ◌%◌, ◌^◌, bit_xor, Bool, true, false, ◌&&◌, ◌||◌, not, List, [], ◌∷◌,
  Option, none, some, ltb, leb, ◌==◌, if◌then◌else◌, same_bool, Bytes, equal, replicate, u32, sub64,
}
use proxy_bridge.Conntrack.{put}
use proxy_bridge.Rules.Store.{RuleStore, invalidate_udp_decisions}
use proxy_bridge.Owners.{PidCache, purge_udp_port}

abbrev pub owner_cache_size : ℕ
owner_cache_size = 2048

-- `OWNER_CACHE_TTL_MS`.
abbrev pub owner_ttl : ℕ
owner_ttl = 120000

-- `OWNER_CACHE_ENTRY`, without its link; addresses are their 16 bytes.
pub record OwnerEntry : Type 0 where
  pub local_addr : Bytes
  pub remote_addr : Bytes
  pub local_port : ℕ
  pub remote_port : ℕ
  pub pid : ℕ
  pub endpoint_id : ℕ
  pub timestamp : ℕ
  pub is_udp : Bool
  pub source_layer : ℕ

unfoldable pub owner_cache_hash : ℕ → Bool → ℕ
owner_cache_hash local_port is_udp =
    bit_xor (u32 (local_port * 2 ^ 16)) (if is_udp then 0x9E3779B9 else 0x85EBCA6B)
    % owner_cache_size

abbrev pub address_is_unspecified : Bytes → Bool
address_is_unspecified addr = equal addr (replicate 16 0)

-- The flow that an owner is sought for.
pub record Sought : Type 0 where
  pub local_addr : Bytes
  pub local_port : ℕ
  pub remote_addr : Bytes
  pub remote_port : ℕ
  pub is_udp : Bool

abbrev pub local_exact : Sought → OwnerEntry → Bool
local_exact q e = equal e.local_addr q.local_addr

abbrev pub remote_exact : Sought → OwnerEntry → Bool
remote_exact q e = e.remote_port == q.remote_port && equal e.remote_addr q.remote_addr

-- The tests that let the loop go on with the next entry, negated.
unfoldable pub fits : ℕ → Sought → OwnerEntry → Bool
fits now q e =
    e.local_port == q.local_port
    && (same_bool e.is_udp q.is_udp
        && (ltb (sub64 now e.timestamp) owner_ttl
            && ((local_exact q e || address_is_unspecified e.local_addr)
                && (remote_exact q e
                    || (e.remote_port == 0 && address_is_unspecified e.remote_addr)))))

unfoldable pub score : Sought → OwnerEntry → ℕ
score q e = (if local_exact q e then 2 else 0) + (if remote_exact q e then 2 else 0)

-- `score > best_score`, with `none` for the score -1 at the start.
abbrev pub beats : ℕ → Option ℕ → Bool
beats s none = true
beats s (some best) = ltb best s

-- The loop over a chain, with the best score and its pid so far.
unfoldable pub best_owner : ℕ → Sought → Option ℕ → ℕ → List OwnerEntry → ℕ
best_owner now q best pid [] = pid
best_owner now q best pid (e ∷ es) =
    let passed = best_owner now q best pid es in
    let taken = best_owner now q (some (score q e)) e.pid es in
    if fits now q e && beats (score q e) best
    then (if score q e == 4 then e.pid else taken)
    else passed

abbrev pub OwnerCache : Type 0
OwnerCache = ℕ → List OwnerEntry

unfoldable pub get_owner_event_pid : ℕ → Sought → OwnerCache → ℕ
unfolding best_owner
get_owner_event_pid now q cache =
    best_owner now q none 0 (cache (owner_cache_hash q.local_port q.is_udp))

-- The globals that the owner events change.
pub record Owners : Type 0 where
  pub events : OwnerCache
  pub pids : PidCache
  pub rules : RuleStore

abbrev pub is_same_event : OwnerEntry → OwnerEntry → Bool
is_same_event new e =
    e.endpoint_id == new.endpoint_id
    && (e.source_layer == new.source_layer
        && (e.local_port == new.local_port
            && (e.remote_port == new.remote_port
                && (same_bool e.is_udp new.is_udp
                    && (equal e.local_addr new.local_addr
                        && equal e.remote_addr new.remote_addr)))))

-- The chain with the entry for the event renewed, if there is one.
unfoldable pub renew_event : OwnerEntry → List OwnerEntry → Option (List OwnerEntry)
renew_event new [] = none
renew_event new (e ∷ es) =
    let rest = renew_event new es in
    if is_same_event new e
    then some (record e { pid = new.pid; timestamp = new.timestamp } ∷ es)
    else elim rest [ none ↦ none | some fs ↦ some (e ∷ fs) ]

unfoldable pub store_event : Bool → OwnerEntry → List OwnerEntry → List OwnerEntry
unfolding renew_event
store_event allocated new chain = elim (renew_event new chain) [
  | some renewed ↦ renewed
  | none ↦ if allocated then new ∷ chain else chain
]

-- `cache_owner_event`, with its arguments and the tick count as the entry to store.
unfoldable pub cache_owner_event : Bool → OwnerEntry → Owners → Owners
unfolding store_event
cache_owner_event allocated new s =
    let slot = owner_cache_hash new.local_port new.is_udp in
    if new.pid == 0 || new.local_port == 0 then s else record s {
      events = put s.events slot (store_event allocated new (s.events slot));
      rules = if new.is_udp then invalidate_udp_decisions s.rules else s.rules;
    }

-- What the removal of an entry does to the other globals: where it is a UDP endpoint, decisions are
-- invalidated, and its port is purged from the cache of pids.
unfoldable pub forget_udp : OwnerEntry → Owners → Owners
forget_udp e s =
    if e.is_udp
    then record s {
      pids = purge_udp_port e.local_port s.pids;
      rules = invalidate_udp_decisions s.rules;
    }
    else s

abbrev pub is_endpoint : ℕ → ℕ → OwnerEntry → Bool
is_endpoint endpoint_id source_layer e =
    e.endpoint_id == endpoint_id && e.source_layer == source_layer

-- The inner loop of `remove_owner_event_endpoint`: the chain that is left, and the globals.
unfoldable pub remove_from_chain : ℕ → ℕ → Owners → List OwnerEntry → List OwnerEntry × Owners
unfolding forget_udp
remove_from_chain endpoint_id source_layer s [] = ([], s)
remove_from_chain endpoint_id source_layer s (e ∷ es) =
    let taken = is_endpoint endpoint_id source_layer e in
    let (left, t) =
      remove_from_chain endpoint_id source_layer (if taken then forget_udp e s else s) es in
    ((if taken then left else e ∷ left), t)

-- The outer loop, for the number of slots that are left and from a slot on.
unfoldable pub remove_from_slots : ℕ → ℕ → ℕ → ℕ → Owners → Owners
unfolding remove_from_chain
remove_from_slots endpoint_id source_layer zero slot s = s
remove_from_slots endpoint_id source_layer (suc n) slot s =
    let (left, t) = remove_from_chain endpoint_id source_layer s (s.events slot) in
    remove_from_slots endpoint_id source_layer n (slot + 1)
      (record t { events = put t.events slot left })

unfoldable pub remove_owner_event_endpoint : ℕ → ℕ → Owners → Owners
unfolding remove_from_slots
remove_owner_event_endpoint endpoint_id source_layer s =
    remove_from_slots endpoint_id source_layer owner_cache_size 0 s

unfoldable pub clear_owner_event_cache : OwnerCache → OwnerCache
clear_owner_event_cache cache slot = []

unfoldable pub free_events : ℕ → List OwnerEntry → List OwnerEntry
free_events now [] = []
free_events now (e ∷ es) =
    let rest = free_events now es in
    if leb owner_ttl (sub64 now e.timestamp) then rest else e ∷ rest

unfoldable pub cleanup_stale_owner_cache : ℕ → OwnerCache → OwnerCache
unfolding free_events
cleanup_stale_owner_cache now cache slot = free_events now (cache slot)
