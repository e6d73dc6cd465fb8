-- ===== src/Tests/Caches.antt =====
-- Windows/src/pb_conntrack.c, pb_dns.c: the caches on small inputs.
use proxy_bridge.Prelude.{
  ℕ, Bool, true, false, ◌≡◌, refl, List, [], ◌∷◌, some, Bytes, codes, arith, ◌++◌, replicate,
  length, ◌==◌, equal,
}
use proxy_bridge.Rules.{proxy}
use proxy_bridge.Conntrack.Direct.{
  DirectKey, Remember, remember_all, udp_direct_cached, Vouched, remember_all-Vouched,
  remember-cached,
}
use proxy_bridge.Prelude.Int.{pos, plus_one, minus}
use proxy_bridge.Conntrack.Logged.{
  LoggedConnection, Log, push_logged, add_logged_connection, add_freed, clear_logged_connections,
}
use proxy_bridge.Dns.{
  dns_bucket, dns_bucket_v6, dns_cache_store, dns_cache_lookup, cleanup_stale_dns_cache,
}
use proxy_bridge.Dns.Answers.{DnsStore, store_all}
use proxy_bridge.Dns.Prune.{dns_cache_lookup-cleanup}
use proxy_bridge.Dns.Names.{
  parsed, failed, turn, parse_labels, dns_parse_name, InBounds, dns_parse_name-InBounds,
}
use proxy_bridge.Dns.Snoop.{
  Moments, ip_at, ip6_at, store_record, behind_name, next_answer, parse_answers, skip_questions,
  answers_at, after_question, snoop_dns_response,
}
use proxy_bridge.Dns.Snoop.Told.{snoop_all, dns_cache_lookup-Snooped}
use proxy_bridge.Dns.Snoop.Told
use proxy_bridge.Dns.Stored.{dns_cache_lookup-store}

abbrev key : DirectKey
key = record {
  ipv6 = false;
  source = 10 ∷ 0 ∷ 0 ∷ 2 ∷ [];
  source_port = 5000;
  destination = 8 ∷ 8 ∷ 8 ∷ 8 ∷ [];
  destination_port = 443;
}

abbrev past : List Remember
past = (3, 1000, key) ∷ (2, 10, key) ∷ []

still_cached : udp_direct_cached (remember_all past) 3 5999 key ≡ true
unfolding remember_all
still_cached =
    remember-cached (remember_all ((2, 10, key) ∷ [])) 3 1000 5999 key (refl, refl) (omega arith)
      (omega arith)

remember_all-Vouched_example : Vouched 3 5999 key past
remember_all-Vouched_example =
    remember_all-Vouched 3 5999 key past (refl, refl) ((refl, refl), ((refl, refl), tt))
      still_cached

abbrev logged : LoggedConnection
logged = record { pid = 8; dest_ip = 134744072; dest_port = 443; action = proxy }

abbrev full : Log
full = record { entries = replicate 100 logged; count = pos 100 }

-- The list is cleared while an addition frees the entries it has cut off: the counter falls below 0
-- first, and is the length no more.
abbrev cleared : Log
cleared = clear_logged_connections (add_logged_connection true full logged).0

test_cleared :
    ((add_logged_connection true full logged).1 ≡ some 1)
    × ((add_freed true 1 cleared logged).count ≡ pos 0)
    × (length (add_freed true 1 cleared logged).entries ≡ 1)
unfolding add_logged_connection push_logged add_freed clear_logged_connections plus_one minus
test_cleared = (refl, refl, refl)

abbrev same : ℕ → ℕ → Bool
same a b = a == b

abbrev store_of : ℕ → ℕ → Bytes → DnsStore ℕ
store_of t ip name = record { allocated = true; now = t; address = ip; domain = name }

abbrev stores : List (DnsStore ℕ)
stores =
    store_of 50 134744072 (codes "dns.google") ∷ store_of 20 134744072 (codes "old.example") ∷ []

dns_cache_lookup-store_example :
    dns_cache_lookup dns_bucket same 300000 134744072 (
      dns_cache_store dns_bucket same true 50 134744072
        (codes "dns.google")
        (store_all dns_bucket same (store_of 20 134744072 (codes "old.example") ∷ [])))
    ≡ some (codes "dns.google")
dns_cache_lookup-store_example =
    dns_cache_lookup-store dns_bucket same
      (store_all dns_bucket same (store_of 20 134744072 (codes "old.example") ∷ [])) 50 300000
      134744072 (codes "dns.google") refl refl (omega arith) (omega arith)

latest_answer :
    dns_cache_lookup dns_bucket same 300000 134744072 (store_all dns_bucket same stores)
    ≡ some (codes "dns.google")
unfolding store_all
latest_answer =
    dns_cache_lookup-store dns_bucket same
      (store_all dns_bucket same (store_of 20 134744072 (codes "old.example") ∷ [])) 50 300000
      134744072 (codes "dns.google") refl refl (omega arith) (omega arith)

dns_cache_lookup-cleanup_example :
    dns_cache_lookup dns_bucket same 300030 134744072
      (cleanup_stale_dns_cache 300020 (store_all dns_bucket same stores))
    ≡ dns_cache_lookup dns_bucket same 300030 134744072 (store_all dns_bucket same stores)
dns_cache_lookup-cleanup_example =
    dns_cache_lookup-cleanup dns_bucket same (store_all dns_bucket same stores) 300020 300030
      134744072 (omega arith)

-- "a.bc" at 12, behind a pointer at 18 that follows the label "x".
abbrev message : Bytes
message = replicate 12 0 ++ 1 ∷ b'a' ∷ 2 ∷ b'b' ∷ b'c' ∷ 0 ∷ 1 ∷ b'x' ∷ 192 ∷ 12 ∷ []

program : Unit {0}
unfolding dns_parse_name parse_labels turn
program = tt

names :
    (dns_parse_name message 256 12 ≡ parsed (codes "a.bc") 18)
    × (dns_parse_name message 256 18 ≡ parsed (codes "x.a.bc") 22)
    × (dns_parse_name message 6 18 ≡ failed)
    × (dns_parse_name (192 ∷ 0 ∷ []) 256 0 ≡ failed)
unfolding program
names = (refl, refl, refl, refl)

dns_parse_name-InBounds_example : InBounds 22 256 18 (dns_parse_name message 256 18)
dns_parse_name-InBounds_example = dns_parse_name-InBounds message 256 18 (omega arith)

abbrev moments : Moments
moments = record { malloc = λ k. true; tick = λ k. 1000 }

-- An answer for the name `a`: an A record behind a pointer to the name, with the address 8.8.8.8.
abbrev reply : Bytes
reply =
    0 ∷ 7 ∷ 129 ∷ 128 ∷ 0 ∷ 1 ∷ 0 ∷ 1 ∷ 0 ∷ 0 ∷ 0 ∷ 0 ∷ 1 ∷ 97 ∷ 0 ∷ 0 ∷ 1 ∷ 0 ∷ 1 ∷ 192 ∷ 12 ∷ 0
    ∷ 1 ∷ 0 ∷ 1 ∷ 0 ∷ 0 ∷ 0 ∷ 60 ∷ 0 ∷ 4 ∷ 8 ∷ 8 ∷ 8 ∷ 8 ∷ []

dns_cache_lookup-Snooped_example :
    ((ip : ℕ) (name : Bytes)
      → dns_cache_lookup dns_bucket ◌==◌ 2000 ip (snoop_all ((moments, reply) ∷ [])).v4 ≡ some name
      → Told.Told ip_at 4 2000 ip name ((moments, reply) ∷ []))
    × ((ip6 name : Bytes)
        → dns_cache_lookup dns_bucket_v6 equal 2000 ip6 (snoop_all ((moments, reply) ∷ [])).v6
          ≡ some name
        → Told.Told ip6_at 16 2000 ip6 name ((moments, reply) ∷ []))
dns_cache_lookup-Snooped_example = dns_cache_lookup-Snooped ((moments, reply) ∷ []) 2000

test_snooped :
    dns_cache_lookup dns_bucket ◌==◌ 2000 134744072 (snoop_all ((moments, reply) ∷ [])).v4
    ≡ some (97 ∷ [])
unfolding snoop_all snoop_dns_response after_question answers_at skip_questions parse_answers
    next_answer behind_name store_record dns_parse_name parse_labels turn dns_cache_store
    dns_cache_lookup proxy_bridge.Conntrack.put dns_bucket proxy_bridge.CText.before
test_snooped = refl

-- A pointer to itself ends the walk, and nothing is stored.
test_looping :
    snoop_dns_response moments
      (0 ∷ 7 ∷ 129 ∷ 128 ∷ 0 ∷ 1 ∷ 0 ∷ 1 ∷ 0 ∷ 0 ∷ 0 ∷ 0 ∷ 192 ∷ 12 ∷ [])
      (snoop_all [])
    ≡ snoop_all []
unfolding snoop_dns_response after_question dns_parse_name parse_labels turn
test_looping = refl
