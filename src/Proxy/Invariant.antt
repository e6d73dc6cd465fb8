-- ===== src/Proxy/Invariant.antt =====
-- Windows/src/pb_proxy.c: the invariant of the proxy configurations under the calls of the API.
use proxy_bridge.Prelude.{
  ℕ, ◌+◌, ◌≤◌, true, false, ◌≡◌, ◌≢◌, refl, sym, subst, ◌⊎◌, inl, inr, List, [], ◌∷◌, ◌++◌, Option,
  none, some, ◌==◌, Bytes, length, is_empty, All, arith, Bool-cases,
}
use proxy_bridge.Proxy.{
  ProxyConfig, ProxyStore, ProxyArgs, max_proxy_configs, accepted, is_given, replace_config,
  replace_found, copy_host,
}

-- The numbers rise along the list, from `lo` on, and stay below `next`: so they are distinct.
abbrev pub Rising : ℕ → ℕ → List ProxyConfig → Type 0
Rising lo next [] = lo ≤ next
Rising lo next (c ∷ cs) = (lo ≤ c.config_id) × Rising (c.config_id + 1) next cs

-- A connection can be made with it: it has a host and a port.
abbrev pub Usable : ProxyConfig → Type 0
Usable c = (is_empty c.host ≡ false) × (c.port ≢ 0)

pub record ProxyInv (s : ProxyStore) : Type 0 where
  pub rising : Rising 1 s.next_config_id s.configs
  pub bounded : length s.configs ≤ max_proxy_configs
  pub usable : All Usable s.configs

Rising-lower :
    (lo lo' next : ℕ) (cs : List ProxyConfig) → lo' ≤ lo → Rising lo next cs → Rising lo' next cs
Rising-lower lo lo' next [] l r = omega arith
Rising-lower lo lo' next (c ∷ cs) l r = (omega (arith, r.0), r.1)

Rising-bound : (lo next : ℕ) (cs : List ProxyConfig) → Rising lo next cs → lo ≤ next
Rising-bound lo next [] r = r
Rising-bound lo next (c ∷ cs) r = omega (arith, r.0, Rising-bound (c.config_id + 1) next cs r.1)

pub Rising-append :
    (lo next : ℕ) (cs : List ProxyConfig) (c : ProxyConfig)
    → c.config_id ≡ next
    → Rising lo next cs
    → Rising lo (next + 1) (cs ++ c ∷ [])
Rising-append lo next [] c e r = (omega arith, omega arith)
Rising-append lo next (d ∷ ds) c e r = (r.0, Rising-append (d.config_id + 1) next ds c e r.1)

-- What a replacement may give: nothing, or a usable configuration under the same number.
abbrev pub Replacement : (ProxyConfig → List ProxyConfig) → Type 0
Replacement f =
    (c : ProxyConfig)
    → (f c ≡ []) ⊎ ((d : ProxyConfig) × (f c ≡ d ∷ []) × (d.config_id ≡ c.config_id) × Usable d)

replace-Rising :
    (lo next id : ℕ) (f : ProxyConfig → List ProxyConfig) (cs : List ProxyConfig)
    → Replacement f
    → Rising lo next cs
    → Rising lo next (replace_config id f cs)
unfolding replace_config
replace-Rising lo next id f [] g r = r
replace-Rising lo next id f (c ∷ cs) g r = elim (Bool-cases (c.config_id == id)) [
  | inl e ↦ elim (g c) [
    | inl n ↦
        rw (e, replace_config, n)
          (Rising-lower (c.config_id + 1) lo next cs (omega (arith, r.0)) r.1)
    | inr (d, n, k, u) ↦
        rw (e, replace_config, n)
          (omega (arith, r.0), subst (λ x. Rising (x + 1) next cs) (sym k) r.1)
  ]
  | inr e ↦ rw (e, replace_config) (r.0, replace-Rising (c.config_id + 1) next id f cs g r.1)
]

replace-Usable :
    (id : ℕ) (f : ProxyConfig → List ProxyConfig) (cs : List ProxyConfig)
    → Replacement f
    → All Usable cs
    → All Usable (replace_config id f cs)
unfolding replace_config
replace-Usable id f [] g a = a
replace-Usable id f (c ∷ cs) g a = elim (Bool-cases (c.config_id == id)) [
  | inl e ↦ elim (g c) [
    | inl n ↦ rw (e, replace_config, n) a.1
    | inr (d, n, k, u) ↦ rw (e, replace_config, n) (u, a.1)
  ]
  | inr e ↦ rw (e, replace_config) (a.0, replace-Usable id f cs g a.1)
]

length-replace :
    (id : ℕ) (f : ProxyConfig → List ProxyConfig) (cs : List ProxyConfig)
    → Replacement f
    → length (replace_config id f cs) ≤ length cs
unfolding replace_config
length-replace id f [] g = omega arith
length-replace id f (c ∷ cs) g = elim (Bool-cases (c.config_id == id)) [
  | inl e ↦ elim (g c) [
    | inl n ↦ rw (e, replace_config, n) (omega arith)
    | inr (d, n, k, u) ↦ rw (e, replace_config, n) (omega arith)
  ]
  | inr e ↦ rw (e, replace_config) (omega (arith, length-replace id f cs g))
]

pub replace_found-ProxyInv :
    (f : ProxyConfig → List ProxyConfig) (s : ProxyStore) (id : ℕ) (o : Option ProxyConfig)
    → Replacement f
    → ProxyInv s
    → ProxyInv (replace_found f s id o).1
unfolding replace_found
replace_found-ProxyInv f s id none g v = v
replace_found-ProxyInv f s id (some c) g v = record {
  rising = replace-Rising 1 s.next_config_id id f s.configs g v.rising;
  bounded = omega (arith, v.bounded, length-replace id f s.configs g);
  usable = replace-Usable id f s.configs g v.usable;
}

pub copy_usable : (host : Option Bytes) → is_given host ≡ true → is_empty (copy_host host) ≡ false
copy_usable none e = cc
copy_usable (some []) e = cc
copy_usable (some (x ∷ xs)) e = refl

pub accepted_parts :
    (args : ProxyArgs)
    → accepted args ≡ true
    → (is_given args.proxy_ip ≡ true) × (args.proxy_port ≢ 0)
unfolding accepted
accepted_parts args e = (ground arith, ground arith)
