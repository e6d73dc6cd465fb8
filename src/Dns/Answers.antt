-- ===== src/Dns/Answers.antt =====
-- Windows/src/pb_dns.c: what the cache answers after a sequence of stores.
use proxy_bridge.Prelude.{
  ℕ, ◌+◌, ◌<◌, Bool, true, ◌≡◌, refl, sym, subst, ◌⊎◌, inl, inr, List, [], ◌∷◌, some, Bytes, u64,
  All, arith,
}
use proxy_bridge.Dns.Entries.{Holds, dns_cache_store-Holds, dns_cache_lookup-Source}
use proxy_bridge.Dns.{DnsEntry, ttl, stored_name, dns_cache_store, dns_cache_lookup}

-- A store: whether an entry could be allocated, the tick count, the address and the name.
pub record DnsStore (Key : Type 0) : Type 0 where
  pub allocated : Bool
  pub now : ℕ
  pub address : Key
  pub domain : Bytes

module _ {Key : Type 0} (bucket : Key → ℕ) (same : Key → Key → Bool) where
  -- The stores, the last one first.
  unfoldable pub store_all : List (DnsStore Key) → ℕ → List (DnsEntry Key)
  store_all [] slot = []
  store_all (s ∷ ss) slot =
      dns_cache_store bucket same s.allocated s.now s.address s.domain (store_all ss) slot

  -- Some store gave the name for the address, less than the lifetime of an entry ago.
  abbrev pub Told : ℕ → Key → Bytes → List (DnsStore Key) → Type 0
  Told now key name [] = ⊥
  Told now key name (s ∷ ss) =
      ((same s.address key ≡ true) × (stored_name s.domain ≡ name) × (now < s.now + ttl))
      ⊎ Told now key name ss

  -- An entry comes from some store for its address.
  abbrev Recorded : List (DnsStore Key) → DnsEntry Key → Type 0
  Recorded [] e = ⊥
  Recorded (s ∷ ss) e =
      ((s.address ≡ e.address)
        × (stored_name s.domain ≡ e.domain)
        × (u64 (s.now + ttl) ≡ e.expire_tick))
      ⊎ Recorded ss e

  Recorded-Told :
      (ss : List (DnsStore Key)) (e : DnsEntry Key) (now : ℕ) (key : Key)
      → same e.address key ≡ true
      → now < e.expire_tick
      → Recorded ss e
      → Told now key e.domain ss
  Recorded-Told [] e now key m l r = absurd r
  Recorded-Told (s ∷ ss) e now key m l (inl (a, d, t)) =
      inl (subst (λ x. same x key ≡ true) (sym a) m, d, omega arith)
  Recorded-Told (s ∷ ss) e now key m l (inr r) = inr (Recorded-Told ss e now key m l r)

  older :
      (ss : List (DnsStore Key)) (s : DnsStore Key) (chain : List (DnsEntry Key))
      → All (Recorded ss) chain
      → All (Recorded (s ∷ ss)) chain
  older ss s [] all = tt
  older ss s (x ∷ xs) (r, all) = (inr r, older ss s xs all)

  store_all-Recorded :
      (ss : List (DnsStore Key))
      → ((a b : Key) → same a b ≡ true → a ≡ b)
      → Holds bucket same (Recorded ss) (store_all ss)
  unfolding store_all
  store_all-Recorded [] eq slot = tt
  store_all-Recorded (s ∷ ss) eq slot =
      dns_cache_store-Holds bucket same (Recorded (s ∷ ss)) s.allocated s.now s.address s.domain
        (store_all ss) eq (inl (refl, refl, refl))
        (λ slot. older ss s (store_all ss slot) (store_all-Recorded ss eq slot)) slot

  -- A name that the cache answers for an address was stored for just this address, cut to 255
  -- bytes, less than five minutes before, whatever else was stored in the same bucket.
  pub dns_cache_lookup-Told :
      (ss : List (DnsStore Key)) (now : ℕ) (key : Key) (name : Bytes)
      → ((a b : Key) → same a b ≡ true → a ≡ b)
      → dns_cache_lookup bucket same now key (store_all ss) ≡ some name
      → Told now key name ss
  dns_cache_lookup-Told ss now key name eq e =
      let (x, r, m, l, d) =
        dns_cache_lookup-Source bucket same (Recorded ss) (store_all ss) now key name
          (store_all-Recorded ss eq) e in
      subst (λ n. Told now key n ss) d (Recorded-Told ss x now key m l r)
