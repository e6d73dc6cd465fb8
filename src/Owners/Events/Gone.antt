-- ===== src/Owners/Events/Gone.antt =====
-- Windows/src/pb_process.c: what `remove_owner_event_endpoint` leaves of the caches.
use proxy_bridge.Prelude.{
  ℕ, zero, suc, ◌+◌, ◌≤◌, ◌<◌, Bool, true, false, ◌≡◌, refl, sym, ap, ◌∙◌, inl, inr, List, [], ◌∷◌,
  none, some, ◌==◌, ==_iff, if◌then◌else◌, get_elem?, Bool-cases, arith,
}
use proxy_bridge.Conntrack.{put}
use proxy_bridge.Conntrack.Counted.{put_same, put_other}
use proxy_bridge.Owners.{
  LocalEnd, PidEntry, PidCache, pid_cache_hash, find_pid, fresh_pid, get_cached_pid, free_pids,
  is_udp_port, purge_udp_port,
}
use proxy_bridge.Owners.Chains.{same_end-eq}
use proxy_bridge.Owners.Events.{
  OwnerEntry, Owners, forget_udp, is_endpoint, remove_from_chain, remove_from_slots,
  owner_cache_size, remove_owner_event_endpoint,
}

-- The entries of a chain that are not of the endpoint, in their order.
unfoldable pub others : ℕ → ℕ → List OwnerEntry → List OwnerEntry
others id layer [] = []
others id layer (e ∷ es) =
    let rest = others id layer es in if is_endpoint id layer e then rest else e ∷ rest

-- No UDP entry of the port is cached.
abbrev NoUdp : ℕ → PidCache → Type 0
NoUdp port pids =
    (k : LocalEnd)
    → k.is_udp ≡ true
    → k.src_port ≡ port
    → find_pid k (pids (pid_cache_hash k)) ≡ none

-- Freeing entries makes none known.
free_none :
    (taken : PidEntry → Bool) (k : LocalEnd) (es : List PidEntry)
    → find_pid k es ≡ none
    → find_pid k (free_pids taken es) ≡ none
unfolding find_pid free_pids
free_none taken k [] h = refl
free_none taken k (e ∷ es) h = ground (arith, free_none taken k es)

find-free_port :
    (port : ℕ) (k : LocalEnd) (es : List PidEntry)
    → k.is_udp ≡ true
    → k.src_port ≡ port
    → find_pid k (free_pids (is_udp_port port) es) ≡ none
unfolding find_pid free_pids
find-free_port port k [] u p = refl
find-free_port port k (e ∷ es) u p =
    ground (arith, find-free_port port k es u p, same_end-eq e.end k)

forget-NoUdp_self :
    (e : OwnerEntry) (s : Owners) → e.is_udp ≡ true → NoUdp e.local_port (forget_udp e s).pids
unfolding forget_udp purge_udp_port
forget-NoUdp_self e s u k ku kp = rw u (find-free_port e.local_port k _ ku kp)

forget-NoUdp :
    (e : OwnerEntry) (s : Owners) (port : ℕ) → NoUdp port s.pids → NoUdp port (forget_udp e s).pids
unfolding forget_udp purge_udp_port
forget-NoUdp e s port h k ku kp = elim (Bool-cases e.is_udp) [
  | inl u ↦ rw u (free_none (is_udp_port e.local_port) k _ (h k ku kp))
  | inr u ↦ rw u (h k ku kp)
]

forget-events : (e : OwnerEntry) (s : Owners) → (forget_udp e s).events ≡ s.events
unfolding forget_udp
forget-events e s = ground arith

module _ (id layer : ℕ) where
  -- The globals after the head of a chain.
  abbrev past_head : OwnerEntry → Owners → Owners
  past_head e s = if is_endpoint id layer e then forget_udp e s else s

  head-events : (e : OwnerEntry) (s : Owners) → (past_head e s).events ≡ s.events
  head-events e s = elim (Bool-cases (is_endpoint id layer e)) [
    | inl h ↦ rw h (forget-events e s)
    | inr h ↦ rw h refl
  ]

  head-NoUdp :
      (e : OwnerEntry) (s : Owners) (port : ℕ) → NoUdp port s.pids → NoUdp port (past_head e s).pids
  head-NoUdp e s port free = elim (Bool-cases (is_endpoint id layer e)) [
    | inl h ↦ rw h (forget-NoUdp e s port free)
    | inr h ↦ rw h free
  ]

  chain-others :
      (es : List OwnerEntry) (s : Owners) → (remove_from_chain id layer s es).0 ≡ others id layer es
  unfolding remove_from_chain others
  chain-others [] s = refl
  chain-others (e ∷ es) s = rw (chain-others es (past_head e s)) refl

  chain-events :
      (es : List OwnerEntry) (s : Owners) → (remove_from_chain id layer s es).1.events ≡ s.events
  unfolding remove_from_chain
  chain-events [] s = refl
  chain-events (e ∷ es) s = chain-events es (past_head e s) ∙ head-events e s

  chain-NoUdp :
      (es : List OwnerEntry) (s : Owners) (port : ℕ)
      → NoUdp port s.pids
      → NoUdp port (remove_from_chain id layer s es).1.pids
  unfolding remove_from_chain
  chain-NoUdp [] s port free = free
  chain-NoUdp (e ∷ es) s port free = chain-NoUdp es (past_head e s) port (head-NoUdp e s port free)

  chain_gone :
      (es : List OwnerEntry) (i : ℕ) (s : Owners) (e : OwnerEntry)
      → get_elem? es i ≡ some e
      → is_endpoint id layer e ≡ true
      → e.is_udp ≡ true
      → NoUdp e.local_port (remove_from_chain id layer s es).1.pids
  unfolding remove_from_chain
  chain_gone [] i s e at mine udp = absurd (cc)
  chain_gone (x ∷ es) zero s e at mine udp =
      let same : x ≡ e = cc in
      rw same (chain-NoUdp es (past_head e s) e.local_port (rw mine (forget-NoUdp_self e s udp)))
  chain_gone (x ∷ es) (suc i) s e at mine udp = chain_gone es i (past_head x s) e at mine udp

  -- The globals after one slot.
  abbrev past_slot : ℕ → Owners → Owners
  past_slot slot s =
      let r = remove_from_chain id layer s (s.events slot) in
      record r.1 { events = put r.1.events slot r.0 }

  slots-NoUdp :
      (n slot : ℕ) (s : Owners) (port : ℕ)
      → NoUdp port s.pids
      → NoUdp port (remove_from_slots id layer n slot s).pids
  unfolding remove_from_slots
  slots-NoUdp zero slot s port free = free
  slots-NoUdp (suc n) slot s port free =
      slots-NoUdp n (slot + 1) (past_slot slot s) port (chain-NoUdp (s.events slot) s port free)

  past_slot_other :
      (slot b : ℕ) (s : Owners) → (b == slot) ≡ false → (past_slot slot s).events b ≡ s.events b
  past_slot_other slot b s h =
      put_other _ slot _ b h ∙ ap (λ f. f b) (chain-events (s.events slot) s)

  past_slot_same :
      (slot b : ℕ) (s : Owners)
      → (b == slot) ≡ true
      → (past_slot slot s).events b ≡ others id layer (s.events b)
  past_slot_same slot b s h =
      put_same _ slot _ b h
      ∙ chain-others (s.events slot) s
      ∙ ap (λ x. others id layer (s.events x)) (sym ((==_iff b slot).0 h))

  slots_before :
      (n slot b : ℕ) (s : Owners)
      → b < slot
      → (remove_from_slots id layer n slot s).events b ≡ s.events b
  unfolding remove_from_slots
  slots_before zero slot b s h = refl
  slots_before (suc n) slot b s h =
      slots_before n (slot + 1) b (past_slot slot s) (omega arith)
      ∙ past_slot_other slot b s (ground arith)

  slots-others :
      (n slot b : ℕ) (s : Owners)
      → slot ≤ b
      → b < slot + n
      → (remove_from_slots id layer n slot s).events b ≡ others id layer (s.events b)
  unfolding remove_from_slots
  slots-others zero slot b s h l = absurd (omega arith)
  slots-others (suc n) slot b s h l = elim (Bool-cases (b == slot)) [
    | inl e ↦
        slots_before n (slot + 1) b (past_slot slot s) (ground arith) ∙ past_slot_same slot b s e
    | inr e ↦
        slots-others n (slot + 1) b (past_slot slot s) (ground arith) (omega arith)
        ∙ ap (others id layer) (past_slot_other slot b s e)
  ]

  slots_gone :
      (n slot b i : ℕ) (s : Owners) (e : OwnerEntry)
      → slot ≤ b
      → b < slot + n
      → get_elem? (s.events b) i ≡ some e
      → is_endpoint id layer e ≡ true
      → e.is_udp ≡ true
      → NoUdp e.local_port (remove_from_slots id layer n slot s).pids
  unfolding remove_from_slots
  slots_gone zero slot b i s e h l at mine udp = absurd (omega arith)
  slots_gone (suc n) slot b i s e h l at mine udp = elim (Bool-cases (b == slot)) [
    | inl q ↦
        let same : b ≡ slot = (==_iff b slot).0 q in
        slots-NoUdp n (slot + 1) (past_slot slot s) e.local_port (
          chain_gone (s.events slot) i s e (ap (λ x. get_elem? (s.events x) i) (sym same) ∙ at) mine
            udp)
    | inr q ↦
        slots_gone n (slot + 1) b i (past_slot slot s) e (ground arith) (omega arith)
          (ap (λ es. get_elem? es i) (past_slot_other slot b s q) ∙ at) mine udp
  ]

-- Once an endpoint is closed, each bucket of the event cache holds just the entries that are not of
-- the endpoint, in their order.
pub remove_owner_event_endpoint-others :
    (id layer slot : ℕ) (s : Owners)
    → slot < owner_cache_size
    → (remove_owner_event_endpoint id layer s).events slot ≡ others id layer (s.events slot)
unfolding remove_owner_event_endpoint
remove_owner_event_endpoint-others id layer slot s h =
    slots-others id layer owner_cache_size 0 slot s (omega arith) h

-- Once an endpoint is closed that had a UDP entry in the event cache, no lookup in the cache of pids
-- answers for the entry's local port over UDP, at any local address and time.
pub get_cached_pid-remove :
    (id layer slot i now ip : ℕ) (s : Owners) (e : OwnerEntry)
    → slot < owner_cache_size
    → get_elem? (s.events slot) i ≡ some e
    → is_endpoint id layer e ≡ true
    → e.is_udp ≡ true
    → get_cached_pid now
        (record { src_ip = ip; src_port = e.local_port; is_udp = true })
        (remove_owner_event_endpoint id layer s).pids
      ≡ 0
unfolding remove_owner_event_endpoint get_cached_pid fresh_pid
get_cached_pid-remove id layer slot i now ip s e h at mine udp = ap (fresh_pid now) (
    slots_gone id layer owner_cache_size 0 slot i s e (omega arith) h at mine udp
      (record { src_ip = ip; src_port = e.local_port; is_udp = true }) refl refl)
