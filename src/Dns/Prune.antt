-- ===== src/Dns/Prune.antt =====
-- Windows/src/pb_dns.c: pruning the cache takes no answer away.
use proxy_bridge.Prelude.{
  ℕ, ◌≤◌, Bool, true, false, ◌&&◌, ◌≡◌, refl, sym, ap, ◌∙◌, inl, inr, List, [], ◌∷◌, some, ltb, leb,
  if◌then◌else◌, arith, Bool-cases,
}
use proxy_bridge.Dns.{DnsEntry, lookup_in, dns_cache_lookup, prune_in, cleanup_stale_dns_cache}

expired_later :
    (expire now later : ℕ) → leb expire now ≡ true → now ≤ later → ltb later expire ≡ false
expired_later expire now later e l = ground arith

module _ {Key : Type 0} (bucket : Key → ℕ) (same : Key → Key → Bool) where
  lookup_expired :
      (x : DnsEntry Key) (xs : List (DnsEntry Key)) (now : ℕ) (key : Key)
      → ltb now x.expire_tick ≡ false
      → lookup_in bucket same now key (x ∷ xs) ≡ lookup_in bucket same now key xs
  unfolding lookup_in
  lookup_expired x xs now key e = elim (Bool-cases (same x.address key)) [
    | inl m ↦ rw (lookup_in, m, e) refl
    | inr m ↦ rw (lookup_in, m) refl
  ]

  lookup_congr :
      (x : DnsEntry Key) (xs ys : List (DnsEntry Key)) (now : ℕ) (key : Key)
      → lookup_in bucket same now key xs ≡ lookup_in bucket same now key ys
      → lookup_in bucket same now key (x ∷ xs) ≡ lookup_in bucket same now key (x ∷ ys)
  unfolding lookup_in
  lookup_congr x xs ys now key e =
      ap (λ r. if same x.address key && ltb now x.expire_tick then some x.domain else r) e

  lookup-prune :
      (chain : List (DnsEntry Key)) (now later : ℕ) (key : Key)
      → now ≤ later
      → lookup_in bucket same later key (prune_in now chain) ≡ lookup_in bucket same later key chain
  unfolding prune_in
  lookup-prune [] now later key l = refl
  lookup-prune (x ∷ xs) now later key l =
      let ih = lookup-prune xs now later key l in
      elim (Bool-cases (leb x.expire_tick now)) [
        | inl e ↦
            rw (prune_in, e)
              (ih ∙ sym (lookup_expired x xs later key (expired_later x.expire_tick now later e l)))
        | inr e ↦ rw (prune_in, e) (lookup_congr x (prune_in now xs) xs later key ih)
      ]

  -- A lookup after the cache is pruned gives what it would have given without the pruning.
  pub dns_cache_lookup-cleanup :
      (cache : ℕ → List (DnsEntry Key)) (now later : ℕ) (key : Key)
      → now ≤ later
      → dns_cache_lookup bucket same later key (cleanup_stale_dns_cache now cache)
        ≡ dns_cache_lookup bucket same later key cache
  unfolding dns_cache_lookup cleanup_stale_dns_cache
  dns_cache_lookup-cleanup cache now later key l = lookup-prune (cache (bucket key)) now later key l
