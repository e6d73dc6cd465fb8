-- ===== src/Dns.antt =====
-- Windows/src/pb_dns.c: the cache of names that DNS answers gave for addresses. `Key` is an IPv4 or
-- an IPv6 address, `bucket` and `same` the hash and the comparison of its family.
pub mod Entries
pub mod Answers
pub mod Stored
pub mod Prune
pub mod Names
pub mod Snoop
use proxy_bridge.Prelude.{
  ℕ, ◌+◌, ◌*◌, ◌/◌, ◌%◌, ◌^◌, bit_xor, Bool, true, false, ◌&&◌, List, [], ◌∷◌, Option, none, some,
  ltb, leb, ◌==◌, if◌then◌else◌, Bytes, equal, take, is_empty, u32, u64,
}
use proxy_bridge.Conntrack.{put}

-- `DNS_CACHE_TTL_MS`.
abbrev pub ttl : ℕ
ttl = 300000

-- `dns_bucket`.
unfoldable pub dns_bucket : ℕ → ℕ
dns_bucket ip = u32 (ip * 2654435761) / 2 ^ 22

fnv : ℕ → Bytes → ℕ
fnv h [] = h
fnv h (x ∷ xs) = fnv (u32 (bit_xor h x * 16777619)) xs

-- `dns_bucket_v6`.
unfoldable pub dns_bucket_v6 : Bytes → ℕ
unfolding fnv
dns_bucket_v6 ip6 = fnv 2166136261 (take 16 ip6) % 1024

-- `DNS_CACHE_ENTRY`, or `DNS_CACHE_ENTRY_V6`, without its link.
pub record DnsEntry (Key : Type 0) : Type 0 where
  pub address : Key
  pub domain : Bytes
  pub expire_tick : ℕ

-- `strncpy_s` to a field of 256 bytes.
abbrev pub stored_name : Bytes → Bytes
stored_name domain = take 255 domain

module _ {Key : Type 0} (bucket : Key → ℕ) (same : Key → Key → Bool) where
  -- The chain with the entry for the address renewed, if there is one.
  unfoldable pub renew_in : Key → Bytes → ℕ → List (DnsEntry Key) → Option (List (DnsEntry Key))
  renew_in key domain expire [] = none
  renew_in key domain expire (e ∷ es) =
      let rest = renew_in key domain expire es in
      if same e.address key
      then some
          (record { address = e.address; domain = stored_name domain; expire_tick = expire } ∷ es)
      else elim rest [ none ↦ none | some fs ↦ some (e ∷ fs) ]

  -- Where there is none, a new entry is put at the head, if it can be allocated.
  unfoldable pub store_in : Bool → Key → Bytes → ℕ → List (DnsEntry Key) → List (DnsEntry Key)
  unfolding renew_in
  store_in allocated key domain expire chain = elim (renew_in key domain expire chain) [
    | some renewed ↦ renewed
    | none ↦
        if allocated
        then record { address = key; domain = stored_name domain; expire_tick = expire } ∷ chain
        else chain
  ]

  -- `dns_cache_store` and `dns_cache_store_v6`, on a domain that is not NULL.
  unfoldable pub dns_cache_store :
      Bool → ℕ → Key → Bytes → (ℕ → List (DnsEntry Key)) → ℕ → List (DnsEntry Key)
  unfolding store_in
  dns_cache_store allocated now key domain cache =
      if is_empty domain
      then cache
      else put cache (bucket key)
          (store_in allocated key domain (u64 (now + ttl)) (cache (bucket key)))

  unfoldable pub lookup_in : ℕ → Key → List (DnsEntry Key) → Option Bytes
  lookup_in now key [] = none
  lookup_in now key (e ∷ es) =
      let rest = lookup_in now key es in
      if same e.address key && ltb now e.expire_tick then some e.domain else rest

  -- `dns_cache_lookup` and `dns_cache_lookup_v6`, into a buffer of 256 bytes.
  unfoldable pub dns_cache_lookup : ℕ → Key → (ℕ → List (DnsEntry Key)) → Option Bytes
  unfolding lookup_in
  dns_cache_lookup now key cache = lookup_in now key (cache (bucket key))

-- One chain of `cleanup_stale_dns_cache`, and all of them.
unfoldable pub prune_in : {Key : Type 0} → ℕ → List (DnsEntry Key) → List (DnsEntry Key)
prune_in now [] = []
prune_in now (e ∷ es) =
    let rest = prune_in now es in if leb e.expire_tick now then rest else e ∷ rest

unfoldable pub cleanup_stale_dns_cache :
    {Key : Type 0} → ℕ → (ℕ → List (DnsEntry Key)) → ℕ → List (DnsEntry Key)
unfolding prune_in
cleanup_stale_dns_cache now cache slot = prune_in now (cache slot)
