-- ===== src/Owners/Lookups/Cached.antt =====
-- Windows/src/pb_process.c: a lookup that found a pid answers it again.
use proxy_bridge.Prelude.{
  ℕ, ◌+◌, ◌^◌, ◌≤◌, ◌<◌, Bool, true, false, ◌≡◌, ◌≢◌, refl, subst, List, Option, none, some, ◌==◌,
  ==_iff, arith,
}
use proxy_bridge.Conntrack.Counted.{put_same}
use proxy_bridge.Owners.{
  LocalEnd, PidEntry, PidCache, pid_ttl, pid_cache_hash, find_pid, fresh_pid, get_cached_pid,
  store_pid, cache_pid, is_expired_pid, cleanup_stale_pid_cache, is_reaped, reap_pid,
}
use proxy_bridge.Owners.Chains.{same_end_refl, find-store, find-spared, learned, entry}
use proxy_bridge.Owners.Lookups.{
  OwnerRow, same_v4, tcp_owner, cached_or, tcp_end, get_process_id_from_connection,
}

learned-some : (e : PidEntry) (o : Option PidEntry) → learned true e o ≡ some e
learned-some e none = refl
learned-some e (some old) = refl

fresh :
    (told again : ℕ) (k : LocalEnd) (pid : ℕ)
    → told ≤ again
    → again < told + pid_ttl
    → again < 2 ^ 64
    → fresh_pid again (some (entry k pid told)) ≡ pid
unfolding fresh_pid
fresh told again k pid l h w = ground arith

self_eq : (n : ℕ) → (n == n) ≡ true
self_eq n = (==_iff n n).1 refl

ne_eq : (a b : ℕ) → a ≢ b → (a == b) ≡ false
ne_eq a b h = ground arith

-- What the sweeps make of a cache, on an entry stored at `told`: those of
-- `cleanup_stale_connections` by a clock of at most ten seconds later, and those of
-- `cleanup_stale_pid_cache` by one of less than thirty.
pub data Swept (told : ℕ) (cache : PidCache) : PidCache → Type 0 where
  unswept : Swept told cache cache
  reaps :
      {u : PidCache} (k : LocalEnd) (now : ℕ)
      → Swept told cache u
      → told ≤ now
      → now ≤ told + 10000
      → now < 2 ^ 64
      → Swept told cache (reap_pid k now u)
  cleans :
      {u : PidCache} (now : ℕ)
      → Swept told cache u
      → told ≤ now
      → now < told + pid_ttl
      → now < 2 ^ 64
      → Swept told cache (cleanup_stale_pid_cache now u)

-- The entry that a cache has of a local end.
abbrev Has : LocalEnd → PidEntry → PidCache → Type 0
Has k e cache = find_pid k (cache (pid_cache_hash k)) ≡ some e

stored-Has :
    (told : ℕ) (k : LocalEnd) (pid : ℕ) (cache : PidCache)
    → Has k (entry k pid told) (cache_pid true told k pid cache)
unfolding cache_pid
stored-Has told k pid cache =
    rw
      (
        put_same cache (pid_cache_hash k) (store_pid true told k pid (cache (pid_cache_hash k)))
            (pid_cache_hash k) (self_eq (pid_cache_hash k)),
        find-store true told pid k k (cache (pid_cache_hash k)),
        same_end_refl k,
      )
      (learned-some (entry k pid told) (find_pid k (cache (pid_cache_hash k))))

young_reap :
    (told now pid : ℕ) (j k : LocalEnd)
    → told ≤ now
    → now ≤ told + 10000
    → now < 2 ^ 64
    → is_reaped j now (entry k pid told) ≡ false
young_reap told now pid j k l h w = ground arith

young_clean :
    (told now pid : ℕ) (k : LocalEnd)
    → told ≤ now
    → now < told + pid_ttl
    → now < 2 ^ 64
    → is_expired_pid now (entry k pid told) ≡ false
young_clean told now pid k l h w = ground arith

Swept-Has :
    (told pid : ℕ) (k : LocalEnd) (cache u : PidCache)
    → Has k (entry k pid told) cache
    → Swept told cache u
    → Has k (entry k pid told) u
unfolding reap_pid cleanup_stale_pid_cache
Swept-Has told pid k cache u h unswept = h
Swept-Has told pid k cache _ h (reaps {u} j now s l m w) =
    find-spared (is_reaped j now) k (u (pid_cache_hash k)) (entry k pid told)
      (Swept-Has told pid k cache u h s) (young_reap told now pid j k l m w)
Swept-Has told pid k cache _ h (cleans {u} now s l m w) =
    find-spared (is_expired_pid now) k (u (pid_cache_hash k)) (entry k pid told)
      (Swept-Has told pid k cache u h s) (young_clean told now pid k l m w)

-- An entry that the cache has is answered for thirty seconds.
get_cached_pid-Has :
    (told again : ℕ) (k : LocalEnd) (pid : ℕ) (cache : PidCache)
    → Has k (entry k pid told) cache
    → told ≤ again
    → again < told + pid_ttl
    → again < 2 ^ 64
    → get_cached_pid again k cache ≡ pid
unfolding get_cached_pid
get_cached_pid-Has told again k pid cache h l m w = rw h (fresh told again k pid l m w)

-- A lookup that finds a pid in the table where nothing is cached, and one where something is.
cached_or-found :
    (asked told : ℕ) (k : LocalEnd) (owner : List (OwnerRow ℕ) → ℕ) (rows : List (OwnerRow ℕ))
    (cache : PidCache)
    → get_cached_pid asked k cache ≡ 0
    → owner rows ≢ 0
    → cached_or true asked told k owner (some rows) cache
      ≡ (owner rows, cache_pid true told k (owner rows) cache)
unfolding cached_or
cached_or-found asked told k owner rows cache unknown found =
    rw (unknown, ne_eq (owner rows) 0 found) refl

cached_or-cached :
    (allocated : Bool) (asked told pid : ℕ) (k : LocalEnd) (owner : List (OwnerRow ℕ) → ℕ)
    (table : Option (List (OwnerRow ℕ))) (cache : PidCache)
    → get_cached_pid asked k cache ≡ pid
    → pid ≢ 0
    → cached_or allocated asked told k owner table cache ≡ (pid, cache)
unfolding cached_or
cached_or-cached allocated asked told pid k owner none cache known found = rw known refl
cached_or-cached allocated asked told pid k owner (some rows) cache known found =
    rw (known, ne_eq pid 0 found) refl

-- A TCP lookup that finds no fresh pid in the cache, but one in the system's table, and has memory to
-- cache it: for less than thirty seconds after, a lookup of the same local end gives this pid again and
-- leaves the cache as it is, whatever the system's table holds by then, and whatever the sweeps have
-- freed in between. The sweep of `cleanup_stale_connections` is to go by a clock of at most ten seconds
-- after, and nothing but the sweeps is to change the cache.
pub get_process_id_from_connection-again :
    (allocated : Bool) (asked told again later ip port : ℕ) (rows : List (OwnerRow ℕ))
    (table : Option (List (OwnerRow ℕ))) (cache swept : PidCache)
    → get_cached_pid asked (tcp_end ip port) cache ≡ 0
    → tcp_owner same_v4 ip port rows ≢ 0
    → told ≤ again
    → again < told + pid_ttl
    → again < 2 ^ 64
    → Swept told (get_process_id_from_connection true asked told ip port (some rows) cache).1 swept
    → let first = get_process_id_from_connection true asked told ip port (some rows) cache in
      (first.0 ≡ tcp_owner same_v4 ip port rows)
      × (get_process_id_from_connection allocated again later ip port table swept
          ≡ (first.0, swept))
unfolding get_process_id_from_connection
get_process_id_from_connection-again allocated asked told again later ip port rows table cache swept
      unknown found l h w s =
    let k = tcp_end ip port in
    let pid = tcp_owner same_v4 ip port rows in
    let first = cached_or-found asked told k (tcp_owner same_v4 ip port) rows cache unknown found in
    let there : Swept told (cache_pid true told k pid cache) swept =
      subst (λ r. Swept told r.1 swept) first s in
    let has =
      Swept-Has told pid k (cache_pid true told k pid cache) swept (stored-Has told k pid cache)
        there in
    let again_known = get_cached_pid-Has told again k pid swept has l h w in
    rw first (
      refl,
      cached_or-cached allocated again later pid k (tcp_owner same_v4 ip port) table swept
          again_known found,
    )
