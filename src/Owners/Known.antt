-- ===== src/Owners/Known.antt =====
-- Windows/src/pb_process.c: the cache of pids against its abstract view, a function from local ends
-- to what is known of them.
use proxy_bridge.Prelude.{
  ℕ, Bool, ◌≡◌, refl, sym, ap, ◌∙◌, inl, inr, List, [], ◌∷◌, Option, none, ◌==◌, ==_iff,
  if◌then◌else◌, Bool-cases,
}
use mathlib.Core.Path.{fun_ext}
use proxy_bridge.Conntrack.{put}
use proxy_bridge.Conntrack.Counted.{put_same, put_other}
use proxy_bridge.Owners.{
  LocalEnd, PidEntry, PidCache, pid_cache_hash, same_end, find_pid, fresh_pid, get_cached_pid,
  cache_pid, clear_pid_cache, remove_cached_pid, is_expired_pid, cleanup_stale_pid_cache,
  is_udp_port, purge_udp_port, is_reaped, reap_pid,
}
use proxy_bridge.Owners.Chains.{
  same_end-eq, Distinct, kept, find-free, free-Distinct, find-drop, drop-Distinct, entry, learned,
  find-store, store-Distinct,
}

-- The calls that change the cache.
pub data PidCall : Type 0 where
  stores : Bool → ℕ → LocalEnd → ℕ → PidCall
  removes : LocalEnd → PidCall
  purges : ℕ → PidCall
  cleans : ℕ → PidCall
  reaps : LocalEnd → ℕ → PidCall
  clears : PidCall

unfoldable pub call_pid : PidCall → PidCache → PidCache
call_pid (stores allocated now k pid) cache = cache_pid allocated now k pid cache
call_pid (removes k) cache = remove_cached_pid k cache
call_pid (purges port) cache = purge_udp_port port cache
call_pid (cleans now) cache = cleanup_stale_pid_cache now cache
call_pid (reaps k now) cache = reap_pid k now cache
call_pid clears cache = clear_pid_cache cache

unfoldable pub call_pids : List PidCall → PidCache → PidCache
unfolding call_pid
call_pids [] cache = cache
call_pids (c ∷ cs) cache = call_pids cs (call_pid c cache)

-- The same calls on what is known of each local end: a store makes the new pid and its time known,
-- without memory only where something was known before; a removal forgets one local end, a purge
-- the UDP ends of a port, a cleaning what is too old, a step of the sweep of
-- `cleanup_stale_connections` one local end if it is older than ten seconds, and a clearing all.
unfoldable pub tell : PidCall → (LocalEnd → Option PidEntry) → LocalEnd → Option PidEntry
tell (stores allocated now k pid) f j =
    if same_end k j then learned allocated (entry k pid now) (f k) else f j
tell (removes k) f j = if same_end k j then none else f j
tell (purges port) f j = kept (is_udp_port port) (f j)
tell (cleans now) f j = kept (is_expired_pid now) (f j)
tell (reaps k now) f j = kept (is_reaped k now) (f j)
tell clears f j = none

unfoldable pub tell_all : List PidCall → (LocalEnd → Option PidEntry) → LocalEnd → Option PidEntry
unfolding tell
tell_all [] f = f
tell_all (c ∷ cs) f = tell_all cs (tell c f)

-- What the cache holds of a local end.
known : PidCache → LocalEnd → Option PidEntry
known cache k = find_pid k (cache (pid_cache_hash k))

abbrev IsDistinct : PidCache → Type 0
IsDistinct cache = (slot : ℕ) → Distinct (cache slot)

-- Changing the chain of a local end's slot.
put-IsDistinct :
    (cache : PidCache) (slot : ℕ) (chain : List PidEntry)
    → IsDistinct cache
    → Distinct chain
    → IsDistinct (put cache slot chain)
put-IsDistinct cache slot chain d c n = elim (Bool-cases (n == slot)) [
  | inl e ↦ rw (put_same cache slot chain n e) c
  | inr e ↦ rw (put_other cache slot chain n e) (d n)
]

call_pid-IsDistinct :
    (c : PidCall) (cache : PidCache) → IsDistinct cache → IsDistinct (call_pid c cache)
unfolding call_pid cache_pid remove_cached_pid purge_udp_port cleanup_stale_pid_cache reap_pid
    clear_pid_cache
call_pid-IsDistinct (stores allocated now k pid) cache d slot =
    put-IsDistinct cache _ _ d (store-Distinct allocated now pid k _ (d (pid_cache_hash k))) slot
call_pid-IsDistinct (removes k) cache d slot =
    put-IsDistinct cache _ _ d (drop-Distinct k _ (d (pid_cache_hash k))) slot
call_pid-IsDistinct (purges port) cache d slot = free-Distinct (is_udp_port port) _ (d slot)
call_pid-IsDistinct (cleans now) cache d slot = free-Distinct (is_expired_pid now) _ (d slot)
call_pid-IsDistinct (reaps k now) cache d slot = free-Distinct (is_reaped k now) _ (d slot)
call_pid-IsDistinct clears cache d slot = tt

-- A search after the chain of `k` was changed in what it says of `k` only.
known-put :
    (cache : PidCache) (k j : LocalEnd) (chain : List PidEntry) (answer : Option PidEntry)
    → find_pid j chain ≡ (if same_end k j then answer else find_pid j (cache (pid_cache_hash k)))
    → known (put cache (pid_cache_hash k) chain) j
      ≡ (if same_end k j then answer else known cache j)
unfolding known
known-put cache k j chain answer h = elim (Bool-cases (pid_cache_hash j == pid_cache_hash k)) [
  | inl e ↦ rw (put_same cache (pid_cache_hash k) chain _ e) (rw ((==_iff _ _).0 e) h)
  | inr e ↦ rw (put_other cache (pid_cache_hash k) chain _ e) (elim (Bool-cases (same_end k j)) [
    | inl m ↦ absurd (
        cc (
          (==_iff (pid_cache_hash j) (pid_cache_hash k)).1
            (ap pid_cache_hash (sym (same_end-eq k j m)))))
    | inr m ↦ rw m refl
  ])
]

known-call :
    (c : PidCall) (cache : PidCache) (j : LocalEnd)
    → IsDistinct cache
    → known (call_pid c cache) j ≡ tell c (known cache) j
unfolding call_pid tell cache_pid remove_cached_pid purge_udp_port cleanup_stale_pid_cache reap_pid
    clear_pid_cache known find_pid
known-call (stores allocated now k pid) cache j d =
    known-put cache k j _ _ (find-store allocated now pid k j (cache (pid_cache_hash k)))
known-call (removes k) cache j d = known-put cache k j _ _ (find-drop j k _ (d (pid_cache_hash k)))
known-call (purges port) cache j d = find-free (is_udp_port port) j _ (d (pid_cache_hash j))
known-call (cleans now) cache j d = find-free (is_expired_pid now) j _ (d (pid_cache_hash j))
known-call (reaps k now) cache j d = find-free (is_reaped k now) j _ (d (pid_cache_hash j))
known-call clears cache j d = refl

known-calls :
    (cs : List PidCall) (cache : PidCache)
    → IsDistinct cache
    → known (call_pids cs cache) ≡ tell_all cs (known cache)
unfolding call_pids tell_all
known-calls [] cache d = refl
known-calls (c ∷ cs) cache d =
    known-calls cs (call_pid c cache) (call_pid-IsDistinct c cache d)
    ∙ ap (tell_all cs) (fun_ext (λ j. known-call c cache j d))

-- Whatever calls are made on the empty cache, at whatever times, and with or without memory: what a
-- lookup answers afterwards is what the same calls on a plain function from local ends make known, if
-- it is younger than thirty seconds. Among the calls are the sweep of `cleanup_stale_pid_cache`, and,
-- one by one, the frees of the sweep of `cleanup_stale_connections`, which forget a local end once it
-- is older than ten seconds.
pub get_cached_pid-calls :
    (cs : List PidCall) (now : ℕ) (k : LocalEnd)
    → get_cached_pid now k (call_pids cs (λ slot. [])) ≡ fresh_pid now (tell_all cs (λ j. none) k)
unfolding get_cached_pid known find_pid
get_cached_pid-calls cs now k =
    ap (λ f. fresh_pid now (f k)) (known-calls cs (λ slot. []) (λ slot. tt))
