-- ===== src/Proxy/Calls.antt =====
-- Windows/src/pb_proxy.c: sequences of calls that add, edit and delete proxy configurations.
use proxy_bridge.Prelude.{
  ℕ, ◌+◌, ◌≤◌, ◌<◌, ◌^◌, true, false, ◌≡◌, refl, sym, ap, subst, ◌∙◌, inl, inr, List, [], ◌∷◌,
  Option, none, some, leb, ◌==◌, Bytes, length, length-append, u32, All, All-append, arith,
  Bool-cases, Option-cases,
}
use proxy_bridge.Proxy.{
  ProxyConfig, ProxyStore, ProxyArgs, find_config, first_config, or_first, find_proxy_config,
  accepted, new_config, add_proxy_config, edited_config, replace_found, edit_proxy_config,
  delete_proxy_config, name_of, max_proxy_configs,
}
use proxy_bridge.Proxy.Invariant.{
  ProxyInv, Usable, Rising-append, replace_found-ProxyInv, copy_usable, accepted_parts,
}

new_config-Usable :
    (id resolved : ℕ) (args : ProxyArgs)
    → accepted args ≡ true
    → Usable (new_config id resolved args)
unfolding new_config
new_config-Usable id resolved args e =
    let (host, port) = accepted_parts args e in (copy_usable args.proxy_ip host, port)

edited_config-Usable :
    (resolved : ℕ) (args : ProxyArgs) (c : ProxyConfig)
    → accepted args ≡ true
    → Usable (edited_config resolved args c)
unfolding edited_config
edited_config-Usable resolved args c e =
    let (host, port) = accepted_parts args e in (copy_usable args.proxy_ip host, port)

new_config_id : (id resolved : ℕ) (args : ProxyArgs) → (new_config id resolved args).config_id ≡ id
unfolding new_config
new_config_id id resolved args = refl

edited_config_id :
    (resolved : ℕ) (args : ProxyArgs) (c : ProxyConfig)
    → (edited_config resolved args c).config_id ≡ c.config_id
unfolding edited_config
edited_config_id resolved args c = refl

-- The calls, each with what the name lookups made in it give.
pub data ProxyCall : Type 0 where
  adds : ProxyArgs → ProxyCall
  edits : ℕ → ProxyArgs → ProxyCall
  deletes : ℕ → ProxyCall

unfoldable pub call : ProxyStore → (ℕ → Bytes → ℕ) × ProxyCall → ProxyStore
call s (resolve, adds args) = (add_proxy_config resolve s args).1
call s (resolve, edits id args) = (edit_proxy_config resolve s id args).1
call s (resolve, deletes id) = (delete_proxy_config s id).1

unfoldable pub calls : ProxyStore → List ((ℕ → Bytes → ℕ) × ProxyCall) → ProxyStore
calls s [] = s
calls s (c ∷ cs) = calls (call s c) cs

-- The invariant, and how far the next number may have risen.
abbrev Kept : ProxyStore → ProxyStore → Type 0
Kept s t = ProxyInv t × (t.next_config_id ≤ s.next_config_id + 1)

add-Kept :
    (resolve : ℕ → Bytes → ℕ) (s : ProxyStore) (args : ProxyArgs)
    → s.next_config_id + 1 < 2 ^ 32
    → ProxyInv s
    → Kept s (add_proxy_config resolve s args).1
unfolding add_proxy_config
add-Kept resolve s args bound v = elim (Bool-cases (accepted args)) [
  | inr e ↦ rw e (v, omega arith)
  | inl e ↦ elim (Bool-cases (resolve 0 (name_of args.proxy_ip) == 0)) [
    | inl f ↦ rw (e, f) (v, omega arith)
    | inr f ↦ elim (Bool-cases (leb max_proxy_configs (length s.configs))) [
      | inl g ↦ rw (e, f, g) (v, omega arith)
      | inr g ↦
          let c = new_config s.next_config_id (resolve 1 (name_of args.proxy_ip)) args in
          let next : u32 (s.next_config_id + 1) ≡ s.next_config_id + 1 = omega arith in
          let short : length s.configs < 16 = ground arith in
          rw (e, f, g)
            (
              record {
                rising = rw next (
                    Rising-append 1 s.next_config_id s.configs c
                      (new_config_id s.next_config_id (resolve 1 (name_of args.proxy_ip)) args)
                      v.rising);
                bounded = rw (length-append s.configs (c ∷ [])) (omega arith);
                usable = All-append Usable s.configs (c ∷ []) v.usable (
                  new_config-Usable s.next_config_id (resolve 1 (name_of args.proxy_ip)) args e,
                  tt,
                );
              },
              omega (arith, next),
            )
    ]
  ]
]

found_next :
    (f : ProxyConfig → List ProxyConfig) (s : ProxyStore) (id : ℕ) (o : Option ProxyConfig)
    → (replace_found f s id o).1.next_config_id ≡ s.next_config_id
unfolding replace_found
found_next f s id none = refl
found_next f s id (some c) = refl

edit-Kept :
    (resolve : ℕ → Bytes → ℕ) (s : ProxyStore) (id : ℕ) (args : ProxyArgs)
    → ProxyInv s
    → Kept s (edit_proxy_config resolve s id args).1
unfolding edit_proxy_config
edit-Kept resolve s id args v = elim (Bool-cases (accepted args)) [
  | inr e ↦ rw e (v, omega arith)
  | inl e ↦ elim (Bool-cases (resolve 0 (name_of args.proxy_ip) == 0)) [
    | inl f ↦ rw (e, f) (v, omega arith)
    | inr f ↦
        let ip = resolve 0 (name_of args.proxy_ip) in
        let g = λ (c : ProxyConfig). edited_config ip args c ∷ [] in
        rw (e, f)
          (
            replace_found-ProxyInv g s id (find_config id s.configs)
                (λ c. inr (
                  edited_config ip args c,
                  refl,
                  edited_config_id ip args c,
                  edited_config-Usable ip args c e,
                ))
                v,
            omega (arith, found_next g s id (find_config id s.configs)),
          )
  ]
]

call-Kept :
    (s : ProxyStore) (c : (ℕ → Bytes → ℕ) × ProxyCall)
    → s.next_config_id + 1 < 2 ^ 32
    → ProxyInv s
    → Kept s (call s c)
unfolding call delete_proxy_config
call-Kept s (resolve, adds args) bound v = add-Kept resolve s args bound v
call-Kept s (resolve, edits id args) bound v = edit-Kept resolve s id args v
call-Kept s (resolve, deletes id) bound v = (
  replace_found-ProxyInv (λ c. []) s id (find_config id s.configs) (λ c. inl refl) v,
  omega (arith, found_next (λ c. []) s id (find_config id s.configs)),
)

-- Whatever calls are made and whatever the name lookups give, as long as fewer than 2 ^ 32 numbers
-- are given out: there are never more than 16 configurations, their numbers are distinct, at least
-- 1 and below the next one, and each has a host and a port.
pub calls-ProxyInv :
    (s : ProxyStore) (cs : List ((ℕ → Bytes → ℕ) × ProxyCall))
    → s.next_config_id + length cs < 2 ^ 32
    → ProxyInv s
    → ProxyInv (calls s cs)
unfolding calls
calls-ProxyInv s [] bound v = v
calls-ProxyInv s (c ∷ cs) bound v =
    let k = call-Kept s c (omega arith) v in calls-ProxyInv (call s c) cs (omega (arith, k.1)) k.0

some_injective : (c d : ProxyConfig) → some c ≡ some d → c ≡ d
some_injective c d e = cc

find_hit :
    (id : ℕ) (d : ProxyConfig) (ds : List ProxyConfig)
    → (d.config_id == id) ≡ true
    → some d ≡ find_config id (d ∷ ds)
find_hit id d ds h = rw (h, find_config) refl

find_miss :
    (id : ℕ) (d : ProxyConfig) (ds : List ProxyConfig)
    → (d.config_id == id) ≡ false
    → find_config id ds ≡ find_config id (d ∷ ds)
find_miss id d ds h = rw (h, find_config) refl

-- Looking a configuration up.
find_config-Usable :
    (id : ℕ) (cs : List ProxyConfig) (c : ProxyConfig)
    → All Usable cs
    → find_config id cs ≡ some c
    → Usable c
find_config-Usable id [] c a e = cc
find_config-Usable id (d ∷ ds) c a e = elim (Bool-cases (d.config_id == id)) [
  | inl h ↦ subst Usable (some_injective d c (find_hit id d ds h ∙ e)) a.0
  | inr h ↦ find_config-Usable id ds c a.1 (find_miss id d ds h ∙ e)
]

first_config-Usable :
    (cs : List ProxyConfig) (c : ProxyConfig) → All Usable cs → first_config cs ≡ some c → Usable c
first_config-Usable [] c a e = cc
first_config-Usable (d ∷ ds) c a e = subst Usable (some_injective d c e) a.0

-- The configuration that a rule's number comes to can be connected to, whether the number is in use
-- or the first configuration stands in for it.
pub find_proxy_config-Usable :
    (s : ProxyStore) (id : ℕ) (c : ProxyConfig)
    → ProxyInv s
    → find_proxy_config s id ≡ some c
    → Usable c
unfolding find_proxy_config or_first
find_proxy_config-Usable s id c v e = elim (Option-cases (find_config id s.configs)) [
  | inl n ↦ first_config-Usable s.configs c v.usable (ap (or_first s.configs) (sym n) ∙ e)
  | inr (d, f) ↦
      find_config-Usable id s.configs c v.usable (f ∙ ap (or_first s.configs) (sym f) ∙ e)
]
