-- ===== src/Proxy/Found.antt =====
-- Windows/src/pb_proxy.c: which configuration `find_proxy_config` gives for a number.
use proxy_bridge.Prelude.{
  ℕ, ◌≡◌, refl, sym, ◌∙◌, ◌⊎◌, inl, inr, List, [], ◌∷◌, none, some, ◌==◌, ==_iff, Bool-cases,
  Option-cases,
}
use proxy_bridge.Proxy.{
  ProxyConfig, ProxyStore, find_config, first_config, or_first, find_proxy_config,
}

-- The configuration has the number, or none has it and this is the first one.
abbrev pub StandsFor : ProxyStore → ℕ → ProxyConfig → Type 0
StandsFor s id c =
    (c.config_id ≡ id) ⊎ ((find_config id s.configs ≡ none) × (first_config s.configs ≡ some c))

found_in : (c d : ProxyConfig) → some c ≡ some d → c ≡ d
found_in c d e = cc

find_config-id :
    (id : ℕ) (cs : List ProxyConfig) (c : ProxyConfig)
    → find_config id cs ≡ some c
    → c.config_id ≡ id
find_config-id id [] c e = cc
find_config-id id (d ∷ ds) c e = elim (Bool-cases (d.config_id == id)) [
  | inl h ↦
      let same : find_config id (d ∷ ds) ≡ some d = rw (find_config, h) refl in
      let at : d ≡ c = found_in d c (sym same ∙ e) in rw (sym at) ((==_iff d.config_id id).0 h)
  | inr h ↦
      let later : find_config id (d ∷ ds) ≡ find_config id ds = rw (find_config, h) refl in
      find_config-id id ds c (sym later ∙ e)
]

-- What is found for a number stands for it.
pub find_proxy_config-StandsFor :
    (s : ProxyStore) (id : ℕ) (c : ProxyConfig) → find_proxy_config s id ≡ some c → StandsFor s id c
unfolding find_proxy_config or_first
find_proxy_config-StandsFor s id c e = elim (Option-cases (find_config id s.configs)) [
  | inl n ↦ inr (n, rw n at e)
  | inr (d, n) ↦
      let at : some d ≡ some c = rw n at e in inl (find_config-id id s.configs c (n ∙ at))
]
