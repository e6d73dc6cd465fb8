-- ===== src/Dns/Stored.antt =====
-- Windows/src/pb_dns.c: a name that was stored is the one that the cache answers.
use proxy_bridge.Prelude.{
  ℕ, ◌+◌, ◌^◌, ◌<◌, Bool, true, false, ◌≡◌, refl, subst, ◌∙◌, inl, inr, List, [], ◌∷◌, Option, none,
  some, ltb, ==_iff, Bytes, is_empty, u64, arith, Bool-cases, Option-cases,
}
use proxy_bridge.Conntrack.Counted.{put_same}
use proxy_bridge.Dns.{
  DnsEntry, ttl, stored_name, renew_in, store_in, dns_cache_store, lookup_in, dns_cache_lookup,
}

lt_true : (a b : ℕ) → a < b → ltb a b ≡ true
lt_true a b h = ground arith

module _ {Key : Type 0} (bucket : Key → ℕ) (same : Key → Key → Bool) where
  -- A chain that there may be answers the name.
  abbrev IsTold : ℕ → Key → Bytes → Option (List (DnsEntry Key)) → Type 0
  IsTold now key name none = Unit
  IsTold now key name (some chain) = lookup_in bucket same now key chain ≡ some name

  lookup_hit :
      (x : DnsEntry Key) (xs : List (DnsEntry Key)) (now : ℕ) (key : Key)
      → same x.address key ≡ true
      → now < x.expire_tick
      → lookup_in bucket same now key (x ∷ xs) ≡ some x.domain
  unfolding lookup_in
  lookup_hit x xs now key m l = rw (m, lt_true now x.expire_tick l) refl

  lookup_other :
      (x : DnsEntry Key) (xs : List (DnsEntry Key)) (now : ℕ) (key : Key)
      → same x.address key ≡ false
      → lookup_in bucket same now key (x ∷ xs) ≡ lookup_in bucket same now key xs
  unfolding lookup_in
  lookup_other x xs now key m = rw (lookup_in, m) refl

  renew-IsTold :
      (key : Key) (domain : Bytes) (expire now : ℕ) (chain : List (DnsEntry Key))
      → now < expire
      → IsTold now key (stored_name domain) (renew_in bucket same key domain expire chain)
  unfolding renew_in
  renew-IsTold key domain expire now [] l = tt
  renew-IsTold key domain expire now (x ∷ xs) l = elim (Bool-cases (same x.address key)) [
    | inl h ↦
        rw (h, renew_in)
          (lookup_hit
            (record { address = x.address; domain = stored_name domain; expire_tick = expire }) xs
            now key h l)
    | inr h ↦ elim (Option-cases (renew_in bucket same key domain expire xs)) [
      | inl n ↦ rw (h, renew_in, n) tt
      | inr (fs, n) ↦
          rw (h, renew_in, n)
            (lookup_other x fs now key h
              ∙ subst (IsTold now key (stored_name domain)) n
                  (renew-IsTold key domain expire now xs l))
    ]
  ]

  store_in_answers :
      (key : Key) (domain : Bytes) (expire now : ℕ) (chain : List (DnsEntry Key))
      → same key key ≡ true
      → now < expire
      → lookup_in bucket same now key (store_in bucket same true key domain expire chain)
        ≡ some (stored_name domain)
  unfolding store_in
  store_in_answers key domain expire now chain r l =
      elim (Option-cases (renew_in bucket same key domain expire chain)) [
        | inl n ↦
            rw (store_in, n)
              (lookup_hit
                (record { address = key; domain = stored_name domain; expire_tick = expire }) chain
                now key r l)
        | inr (fs, n) ↦
            rw (store_in, n)
              (subst (IsTold now key (stored_name domain)) n
                (renew-IsTold key domain expire now chain l))
      ]

  -- A name that is stored for an address, with memory for the entry, is what the cache answers for
  -- it during the next five minutes, cut to 255 bytes, whether the address was known before or not.
  pub dns_cache_lookup-store :
      (cache : ℕ → List (DnsEntry Key)) (t now : ℕ) (key : Key) (domain : Bytes)
      → same key key ≡ true
      → is_empty domain ≡ false
      → now < t + ttl
      → t + ttl < 2 ^ 64
      → dns_cache_lookup bucket same now key (dns_cache_store bucket same true t key domain cache)
        ≡ some (stored_name domain)
  unfolding dns_cache_lookup dns_cache_store
  dns_cache_lookup-store cache t now key domain r e l b =
      let wrap : u64 (t + ttl) ≡ t + ttl = omega arith in
      rw
        (
          e,
          put_same cache (bucket key)
              (store_in bucket same true key domain (u64 (t + ttl)) (cache (bucket key)))
              (bucket key) ((==_iff (bucket key) (bucket key)).1 refl),
        )
        (store_in_answers key domain (u64 (t + ttl)) now (cache (bucket key)) r
          (omega (arith, wrap)))
