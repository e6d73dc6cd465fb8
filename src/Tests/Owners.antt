-- ===== src/Tests/Owners.antt =====
-- Windows/src/pb_process.c: the caches of pids and owners on small inputs.
use proxy_bridge.Prelude.{
  ℕ, ◌≤◌, true, false, ◌≡◌, ◌≢◌, refl, ◌⊎◌, List, [], ◌∷◌, Option, none, some, ltb, if◌then◌else◌,
  Bytes, replicate, All, arith,
}
use proxy_bridge.Rules.Store.{RuleStore}
use proxy_bridge.Conntrack.{put}
use proxy_bridge.Owners.{
  LocalEnd, PidCache, same_end, pid_cache_hash, find_pid, fresh_pid, get_cached_pid, renew_pid,
  store_pid, cache_pid, free_pids, purge_udp_port, reap_pid,
}
use proxy_bridge.Owners.Buckets.{hash_ports}
use proxy_bridge.Owners.Known.{
  PidCall, stores, purges, reaps, call_pid, call_pids, tell, tell_all, get_cached_pid-calls,
}
use proxy_bridge.Owners.Events.{
  OwnerEntry, OwnerCache, Owners, Sought, owner_cache_hash, fits, score, best_owner,
  get_owner_event_pid, remove_owner_event_endpoint,
}
use proxy_bridge.Owners.Events.Fit.{Fits}
use proxy_bridge.Owners.Events.Best.{Foremost, get_owner_event_pid-Foremost}
use proxy_bridge.Owners.Events.Gone.{get_cached_pid-remove}
use proxy_bridge.Owners.Tables.{
  Scratch, Answer, no_error, insufficient, grow, pidtbl_reserve, attempts, first_call, after_first,
  owner_table_fetch,
}
use proxy_bridge.Owners.Tables.Fetched.{Serves, IsScratch, owner_table_fetch-Gets}
use proxy_bridge.Owners.Lookups.{
  OwnerRow, same_v4, tcp_owner, udp_owner, udp_owner_v4, get_process_id_from_connection, tcp_end,
  cached_or,
}
use proxy_bridge.Owners.Lookups.Cached
use proxy_bridge.Owners.Lookups.Cached.{get_process_id_from_connection-again}

abbrev dns_end : LocalEnd
dns_end = record { src_ip = 16777343; src_port = 5353; is_udp = true }

abbrev web : LocalEnd
web = record { src_ip = 16777343; src_port = 50000; is_udp = false }

abbrev pid_calls : List PidCall
pid_calls =
    stores true 100 dns_end 7
    ∷ stores true 120 web 8
    ∷ stores false 150 web 9
    ∷ purges 5353
    ∷ reaps web 160
    ∷ []

get_cached_pid-calls_example :
    get_cached_pid 200 web (call_pids pid_calls (λ slot. []))
    ≡ fresh_pid 200 (tell_all pid_calls (λ j. none) web)
get_cached_pid-calls_example = get_cached_pid-calls pid_calls 200 web

abbrev mapped : ℕ → Bytes
mapped last = 0 ∷ 0 ∷ 0 ∷ 0 ∷ 0 ∷ 0 ∷ 0 ∷ 0 ∷ 0 ∷ 0 ∷ 255 ∷ 255 ∷ 127 ∷ 0 ∷ 0 ∷ last ∷ []

-- An entry that is bound to no address, and one of the whole flow.
abbrev wildcard : OwnerEntry
wildcard = record {
  local_addr = replicate 16 0;
  remote_addr = replicate 16 0;
  local_port = 5353;
  remote_port = 0;
  pid = 11;
  endpoint_id = 1;
  timestamp = 1000;
  is_udp = true;
  source_layer = 1;
}

abbrev exact : OwnerEntry
exact = record wildcard {
  local_addr = mapped 1;
  remote_addr = mapped 2;
  remote_port = 53;
  pid = 12;
  endpoint_id = 2;
}

abbrev sought : Sought
sought = record {
  local_addr = mapped 1;
  local_port = 5353;
  remote_addr = mapped 2;
  remote_port = 53;
  is_udp = true;
}

abbrev events : OwnerCache
events slot = wildcard ∷ exact ∷ []

get_owner_event_pid-Foremost_example :
    ((get_owner_event_pid 2000 sought events ≡ 0)
      × All (λ x. ¬ Fits 2000 sought x) (events (owner_cache_hash 5353 true)))
    ⊎ Foremost 2000 sought
        (events (owner_cache_hash 5353 true))
        (get_owner_event_pid 2000 sought events)
get_owner_event_pid-Foremost_example = get_owner_event_pid-Foremost 2000 sought events

abbrev rule_store : RuleStore
rule_store = record {
  rules = [];
  next_rule_id = 1;
  has_active_rules = false;
  has_domain_rules = false;
  udp_generation = 4;
  running = true;
  dns_flushes = 0;
}

abbrev owners : Owners
owners = record {
  events = events;
  pids = λ slot. record { end = dns_end; pid = 12; timestamp = 1500 } ∷ [];
  rules = rule_store;
}

get_cached_pid-remove_example :
    get_cached_pid 2000 dns_end (remove_owner_event_endpoint 2 1 owners).pids ≡ 0
get_cached_pid-remove_example =
    get_cached_pid-remove 2 1 7 1 2000 16777343 owners exact (omega arith) refl refl refl

abbrev row : ℕ → ℕ → OwnerRow ℕ
row port pid = record { local_addr = 16777343; local_port = port; pid = pid }

-- A row in TIME_WAIT, without an owner, stands before the one of the connection.
abbrev rows : List (OwnerRow ℕ)
rows = row 20675 0 ∷ row 20675 40 ∷ []

-- A system that needs 70000 bytes at first, and then 90000.
abbrev needed : ℕ → ℕ
needed k = if ltb k 2 then 70000 else 90000

abbrev owner_call : ℕ → Option ℕ → Answer (OwnerRow ℕ)
owner_call k none = insufficient (needed k)
owner_call k (some size) =
    if ltb size (needed k) then insufficient (needed k) else no_error rows (needed k)

serves : Serves (OwnerRow ℕ) needed (λ k. rows) owner_call
serves = record {
  ample = λ k size h. ground arith;
  short = λ k size h. ground arith;
  sizing = refl;
}

abbrev no_buffer : Scratch
no_buffer = record { present = false; cap = 0 }

no_buffer-IsScratch : IsScratch no_buffer
no_buffer-IsScratch = record { small = omega arith; empty = λ e. refl }

owner_table_fetch-Gets_example :
    (m : ℕ) × (m ≤ 1) × ((owner_table_fetch (λ n. true) owner_call no_buffer).0 ≡ some rows)
owner_table_fetch-Gets_example =
    owner_table_fetch-Gets (λ n. true) owner_call needed (λ k. rows) 0 no_buffer (λ n. refl) serves
      (λ k. ground arith) no_buffer-IsScratch (omega arith) (omega arith)

abbrev empty_cache : PidCache
empty_cache slot = []

nothing_cached : get_cached_pid 100 (tcp_end 16777343 50000) empty_cache ≡ 0
unfolding get_cached_pid find_pid fresh_pid
nothing_cached = refl

row_found : tcp_owner same_v4 16777343 50000 rows ≢ 0
unfolding tcp_owner
row_found = omega arith

get_process_id_from_connection-again_example :
    let first =
      get_process_id_from_connection true 100 101 16777343 50000 (some rows) empty_cache in
    (first.0 ≡ tcp_owner same_v4 16777343 50000 rows)
    × (get_process_id_from_connection false 20000 20001 16777343 50000 none
          (reap_pid web 9000 first.1)
        ≡ (first.0, reap_pid web 9000 first.1))
get_process_id_from_connection-again_example =
    get_process_id_from_connection-again false 100 101 20000 20001 16777343 50000 rows none
      empty_cache _ nothing_cached row_found (omega arith) (omega arith) (omega arith)
      (Cached.reaps web 9000 Cached.unswept (omega arith) (omega arith) (omega arith))

hash_ports_example :
    (pid_cache_hash dns_end ≡ pid_cache_hash (record dns_end { src_port = 50000; is_udp = false }))
    × (owner_cache_hash 5353 true ≡ owner_cache_hash 50000 true)
hash_ports_example = hash_ports 16777343 5353 50000 true false

-- Runs of the model.
program : Unit {0}
unfolding put same_end pid_cache_hash find_pid fresh_pid get_cached_pid renew_pid store_pid
    cache_pid free_pids reap_pid purge_udp_port call_pid call_pids tell tell_all owner_cache_hash
    fits score best_owner get_owner_event_pid grow pidtbl_reserve attempts first_call after_first
    owner_table_fetch tcp_owner udp_owner udp_owner_v4 cached_or get_process_id_from_connection
program = tt

test_calls : get_cached_pid 200 web (call_pids pid_calls (λ slot. [])) ≡ 9
unfolding program
test_calls = refl

test_purged : get_cached_pid 200 dns_end (call_pids pid_calls (λ slot. [])) ≡ 0
unfolding program
test_purged = refl

test_best : get_owner_event_pid 2000 sought events ≡ 12
unfolding program
test_best = refl

test_expired : get_owner_event_pid 121000 sought events ≡ 0
unfolding program
test_expired = refl

test_fetch :
    (owner_table_fetch (λ n. true) owner_call no_buffer).1 ≡ record { present = true; cap = 131072 }
unfolding program
test_fetch = refl

test_time_wait :
    (get_process_id_from_connection true 100 101 16777343 50000 (some rows) empty_cache).0 ≡ 40
unfolding program
test_time_wait = refl
