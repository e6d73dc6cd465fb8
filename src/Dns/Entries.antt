-- ===== src/Dns/Entries.antt =====
-- Windows/src/pb_dns.c: the entries of the cache, for any predicate on them.
use proxy_bridge.Prelude.{
  ℕ, ◌+◌, ◌<◌, Bool, true, false, ◌&&◌, &&_parts, ◌≡◌, refl, sym, subst, ◌∙◌, inl, inr, List, [],
  ◌∷◌, Option, none, some, ltb, ltb→lt, ◌==◌, Bytes, is_empty, u64, All, Bool-cases, Option-cases,
}
use proxy_bridge.Conntrack.Counted.{put_same, put_other}
use proxy_bridge.Dns.{
  DnsEntry, ttl, stored_name, renew_in, store_in, dns_cache_store, lookup_in, dns_cache_lookup,
}

-- A chain that there may be.
abbrev pub AllSome {ℓ} : {A : Type 0} → (A → Type ℓ) → Option (List A) → Type ℓ
AllSome P none = Unit
AllSome P (some xs) = All P xs

-- The entry that a store at a time makes, or renews.
abbrev pub entry_of : {Key : Type 0} → ℕ → Key → Bytes → DnsEntry Key
entry_of now key domain = record {
  address = key;
  domain = stored_name domain;
  expire_tick = u64 (now + ttl);
}

module _ {Key : Type 0} (bucket : Key → ℕ) (same : Key → Key → Bool)
    (P : DnsEntry Key → Type 0) where
  -- Every entry of a cache.
  abbrev pub Holds : (ℕ → List (DnsEntry Key)) → Type 0
  Holds cache = (slot : ℕ) → All P (cache slot)

  lookup_hit :
      (x : DnsEntry Key) (xs : List (DnsEntry Key)) (now : ℕ) (key : Key)
      → (same x.address key && ltb now x.expire_tick) ≡ true
      → lookup_in bucket same now key (x ∷ xs) ≡ some x.domain
  unfolding lookup_in
  lookup_hit x xs now key h = rw h refl

  lookup_miss :
      (x : DnsEntry Key) (xs : List (DnsEntry Key)) (now : ℕ) (key : Key)
      → (same x.address key && ltb now x.expire_tick) ≡ false
      → lookup_in bucket same now key (x ∷ xs) ≡ lookup_in bucket same now key xs
  unfolding lookup_in
  lookup_miss x xs now key h = rw (h, lookup_in) refl

  name_of : (a b : Bytes) → some a ≡ some b → a ≡ b
  name_of a b e = cc

  -- The entry that a name comes from.
  abbrev pub Source : ℕ → Key → Bytes → Type 0
  Source now key name =
      (e : DnsEntry Key) × P e
      × (same e.address key ≡ true)
      × (now < e.expire_tick)
      × (e.domain ≡ name)

  pub lookup_in-Source :
      (chain : List (DnsEntry Key)) (now : ℕ) (key : Key) (name : Bytes)
      → All P chain
      → lookup_in bucket same now key chain ≡ some name
      → Source now key name
  unfolding lookup_in
  lookup_in-Source [] now key name all e = cc
  lookup_in-Source (x ∷ xs) now key name (p, all) e =
      elim (Bool-cases (same x.address key && ltb now x.expire_tick)) [
        | inl h ↦
            let (m, l) = &&_parts _ _ h in
            (
              x,
              p,
              m,
              ltb→lt now x.expire_tick l,
              name_of x.domain name (sym (lookup_hit x xs now key h) ∙ e),
            )
        | inr h ↦ lookup_in-Source xs now key name all (sym (lookup_miss x xs now key h) ∙ e)
      ]

  renew-All :
      (now : ℕ) (key : Key) (domain : Bytes) (chain : List (DnsEntry Key))
      → ((a b : Key) → same a b ≡ true → a ≡ b)
      → P (entry_of now key domain)
      → All P chain
      → AllSome P (renew_in bucket same key domain (u64 (now + ttl)) chain)
  unfolding renew_in
  renew-All now key domain [] eq new all = tt
  renew-All now key domain (x ∷ xs) eq new (p, all) = elim (Bool-cases (same x.address key)) [
    | inl h ↦
        rw (h, renew_in)
          (subst (λ k. P (entry_of now k domain)) (sym (eq x.address key h)) new, all)
    | inr h ↦ elim (Option-cases (renew_in bucket same key domain (u64 (now + ttl)) xs)) [
      | inl n ↦ rw (h, renew_in, n) tt
      | inr (fs, n) ↦
          rw (h, renew_in, n) (p, subst (AllSome P) n (renew-All now key domain xs eq new all))
    ]
  ]

  store-All :
      (allocated : Bool) (now : ℕ) (key : Key) (domain : Bytes) (chain : List (DnsEntry Key))
      → ((a b : Key) → same a b ≡ true → a ≡ b)
      → P (entry_of now key domain)
      → All P chain
      → All P (store_in bucket same allocated key domain (u64 (now + ttl)) chain)
  unfolding store_in
  store-All allocated now key domain chain eq new all =
      elim (Option-cases (renew_in bucket same key domain (u64 (now + ttl)) chain)) [
        | inl n ↦ elim (Bool-cases allocated) [
          | inl a ↦ rw (All, n, a) (new, all)
          | inr a ↦ rw (All, n, a) all
        ]
        | inr (fs, n) ↦
            rw (All, n) (subst (AllSome P) n (renew-All now key domain chain eq new all))
      ]

  pub dns_cache_store-Holds :
      (allocated : Bool) (now : ℕ) (key : Key) (domain : Bytes) (cache : ℕ → List (DnsEntry Key))
      → ((a b : Key) → same a b ≡ true → a ≡ b)
      → P (entry_of now key domain)
      → Holds cache
      → Holds (dns_cache_store bucket same allocated now key domain cache)
  unfolding dns_cache_store
  dns_cache_store-Holds allocated now key domain cache eq new all slot =
      let chain =
        store_in bucket same allocated key domain (u64 (now + ttl)) (cache (bucket key)) in
      elim (Bool-cases (is_empty domain)) [
        | inl h ↦ rw h (all slot)
        | inr h ↦ elim (Bool-cases (slot == bucket key)) [
          | inl k ↦
              rw (h, put_same cache (bucket key) chain slot k)
                (store-All allocated now key domain (cache (bucket key)) eq new (all (bucket key)))
          | inr k ↦ rw (h, put_other cache (bucket key) chain slot k) (all slot)
        ]
      ]

  pub dns_cache_lookup-Source :
      (cache : ℕ → List (DnsEntry Key)) (now : ℕ) (key : Key) (name : Bytes)
      → Holds cache
      → dns_cache_lookup bucket same now key cache ≡ some name
      → Source now key name
  unfolding dns_cache_lookup
  dns_cache_lookup-Source cache now key name all e =
      lookup_in-Source (cache (bucket key)) now key name (all (bucket key)) e
