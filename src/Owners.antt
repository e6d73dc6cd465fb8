-- ===== src/Owners.antt =====
-- Windows/src/pb_process.c: the cache of the pids that the system's tables gave for local ports.
pub mod Buckets
pub mod Chains
pub mod Events
pub mod Known
pub mod Lookups
pub mod Tables
use proxy_bridge.Prelude.{
  ℕ, ◌*◌, ◌%◌, ◌^◌, bit_xor, Bool, true, false, ◌&&◌, not, List, [], ◌∷◌, Option, none, some, ltb,
  leb, ◌==◌, if◌then◌else◌, same_bool, u32, sub64,
}
use proxy_bridge.Conntrack.{put}

abbrev pub pid_cache_size : ℕ
pid_cache_size = 1024

-- `PID_CACHE_TTL_MS`.
abbrev pub pid_ttl : ℕ
pid_ttl = 30000

-- The local end of a connection, by which a pid is cached.
pub record LocalEnd : Type 0 where
  pub src_ip : ℕ
  pub src_port : ℕ
  pub is_udp : Bool

-- `PID_CACHE_ENTRY`, without its link.
pub record PidEntry : Type 0 where
  pub end : LocalEnd
  pub pid : ℕ
  pub timestamp : ℕ

unfoldable pub pid_cache_hash : LocalEnd → ℕ
pid_cache_hash k =
    bit_xor (bit_xor k.src_ip (u32 (k.src_port * 2 ^ 16))) (if k.is_udp then 2 ^ 31 else 0)
    % pid_cache_size

unfoldable pub same_end : LocalEnd → LocalEnd → Bool
same_end a b = a.src_ip == b.src_ip && (a.src_port == b.src_port && same_bool a.is_udp b.is_udp)

-- The first entry of a chain for the local end.
unfoldable pub find_pid : LocalEnd → List PidEntry → Option PidEntry
find_pid k [] = none
find_pid k (e ∷ es) = let rest = find_pid k es in if same_end e.end k then some e else rest

-- A pid that is not too old; 0 stands for no pid.
unfoldable pub fresh_pid : ℕ → Option PidEntry → ℕ
fresh_pid now none = 0
fresh_pid now (some e) = if ltb (sub64 now e.timestamp) pid_ttl then e.pid else 0

abbrev pub PidCache : Type 0
PidCache = ℕ → List PidEntry

unfoldable pub get_cached_pid : ℕ → LocalEnd → PidCache → ℕ
unfolding find_pid fresh_pid
get_cached_pid now k cache = fresh_pid now (find_pid k (cache (pid_cache_hash k)))

-- The chain with the entry for the local end renewed, if there is one.
unfoldable pub renew_pid : ℕ → LocalEnd → ℕ → List PidEntry → Option (List PidEntry)
renew_pid now k pid [] = none
renew_pid now k pid (e ∷ es) =
    let rest = renew_pid now k pid es in
    if same_end e.end k
    then some (record e { pid = pid; timestamp = now } ∷ es)
    else elim rest [ none ↦ none | some fs ↦ some (e ∷ fs) ]

-- Where there is none, a new entry is put at the head, if it can be allocated.
unfoldable pub store_pid : Bool → ℕ → LocalEnd → ℕ → List PidEntry → List PidEntry
unfolding renew_pid
store_pid allocated now k pid chain = elim (renew_pid now k pid chain) [
  | some renewed ↦ renewed
  | none ↦ if allocated then record { end = k; pid = pid; timestamp = now } ∷ chain else chain
]

unfoldable pub cache_pid : Bool → ℕ → LocalEnd → ℕ → PidCache → PidCache
unfolding store_pid
cache_pid allocated now k pid cache =
    put cache (pid_cache_hash k) (store_pid allocated now k pid (cache (pid_cache_hash k)))

unfoldable pub clear_pid_cache : PidCache → PidCache
clear_pid_cache cache slot = []

-- The chain without its first entry for the local end.
unfoldable pub drop_pid : LocalEnd → List PidEntry → List PidEntry
drop_pid k [] = []
drop_pid k (e ∷ es) = let rest = drop_pid k es in if same_end e.end k then es else e ∷ rest

unfoldable pub remove_cached_pid : LocalEnd → PidCache → PidCache
unfolding drop_pid
remove_cached_pid k cache = put cache (pid_cache_hash k) (drop_pid k (cache (pid_cache_hash k)))

-- A loop that frees the entries of a chain that a test takes.
unfoldable pub free_pids : (PidEntry → Bool) → List PidEntry → List PidEntry
free_pids taken [] = []
free_pids taken (e ∷ es) = let rest = free_pids taken es in if taken e then rest else e ∷ rest

abbrev pub is_expired_pid : ℕ → PidEntry → Bool
is_expired_pid now e = leb pid_ttl (sub64 now e.timestamp)

unfoldable pub cleanup_stale_pid_cache : ℕ → PidCache → PidCache
unfolding free_pids
cleanup_stale_pid_cache now cache slot = free_pids (is_expired_pid now) (cache slot)

-- `cleanup_stale_connections` frees the entries of this cache that are older than ten seconds by a clock
-- that it read before. It gives up the lock behind each, so that freeing the one of a local end is a
-- step of its own.
abbrev pub is_reaped : LocalEnd → ℕ → PidEntry → Bool
is_reaped k now e = same_end e.end k && ltb 10000 (sub64 now e.timestamp)

unfoldable pub reap_pid : LocalEnd → ℕ → PidCache → PidCache
unfolding free_pids
reap_pid k now cache slot = free_pids (is_reaped k now) (cache slot)

abbrev pub is_udp_port : ℕ → PidEntry → Bool
is_udp_port port e = e.end.is_udp && e.end.src_port == port

-- The loop of `remove_owner_event_endpoint` over this cache.
unfoldable pub purge_udp_port : ℕ → PidCache → PidCache
unfolding free_pids
purge_udp_port port cache slot = free_pids (is_udp_port port) (cache slot)
