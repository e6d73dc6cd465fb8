-- ===== src/Handler/Settled.antt =====
-- Windows/src/pb_relay.c: what becomes of a connection and of its sockets.
use proxy_bridge.Prelude.{
  ℕ, ◌+◌, Bool, true, false, not, ◌||◌, ◌≡◌, refl, ◌⊎◌, inl, inr, List, [], ◌∷◌, Option, none, some,
  ◌==◌, if◌then◌else◌, is_empty, arith,
}
use proxy_bridge.Conntrack.Chains.{count}
use proxy_bridge.Proxy.{ProxyConfig, ProxyStore, find_proxy_config}
use proxy_bridge.Proxy.Found.{StandsFor, find_proxy_config-StandsFor}
use proxy_bridge.Sockets.{Socket}
use proxy_bridge.Handler.{
  address_of, ConnectionConfig, TransferAnswers, World, Carried, dropped, pooled, blocking, Handled,
  drop_client, drop_both, transfer_handler, name_for, handshake, with_socket, with_proxy,
  connection_handler,
}

-- The sockets that a relay of the pool has taken over.
abbrev pub handed : Carried → ℕ → List ℕ → List ℕ
handed dropped client opened = []
handed blocking client opened = []
handed pooled client opened = client ∷ opened

-- Each socket of the connection was closed or handed over, and that once.
abbrev pub IsSettled : ℕ → Handled → Type 0
IsSettled client h =
    (x : ℕ)
    → count x h.closed + count x (handed h.carried client h.opened) ≡ count x (client ∷ h.opened)

-- The configuration stands for the number, and has a host and a port; a stream was connected to its
-- address and port, and the handshake on it for the destination has succeeded.
abbrev pub HasAgreed : ProxyStore → World → ConnectionConfig → Option Socket → Type 0
HasAgreed store w c stream =
    (proxy : ProxyConfig) × (s : Socket) × StandsFor store c.proxy_config_id proxy
    × ((is_empty proxy.host || proxy.port == 0) ≡ false)
    × ((address_of proxy w == 0) ≡ false)
    × (w.connects (address_of proxy w) proxy.port ≡ true)
    × (handshake proxy.type w (name_for proxy w) c (w.stream (address_of proxy w) proxy.port)
        ≡ (true, s))
    × (stream ≡ some s)

abbrev pub Sound : ProxyStore → World → ConnectionConfig → Handled → Type 0
Sound store w c h =
    IsSettled c.client_socket h × ((h.carried ≡ dropped) ⊎ HasAgreed store w c h.stream)

if-either {ℓ} :
    {A : Type 0} (P : A → Type ℓ) (b : Bool) (r q : A)
    → (b ≡ true → P r)
    → (b ≡ false → P q)
    → P (if b then r else q)
if-either P true r q f g = f refl
if-either P false r q f g = g refl

pair_of : (p : Bool × Socket) → not p.0 ≡ false → p ≡ (true, p.1)
pair_of (true, s) h = refl
pair_of (false, s) h = cc

module _ (store : ProxyStore) (w : World) (c : ConnectionConfig) where
  early-Sound : Sound store w c (drop_client c.client_socket)
  early-Sound = ((λ x. omega arith), inl refl)

  gone-Sound : (proxy : ℕ) (s : Option Socket) → Sound store w c (drop_both c.client_socket proxy s)
  gone-Sound proxy s = ((λ x. omega arith), inl refl)

  transfer-Sound :
      (a : TransferAnswers) (proxy : ℕ) (s : Socket)
      → HasAgreed store w c (some s)
      → Sound store w c (transfer_handler a c.client_socket proxy s)
  unfolding transfer_handler
  transfer-Sound a proxy s agreed =
      let P = Sound store w c in
      let gone = gone-Sound proxy (some s) in
      if-either P a.taken_over _ _ (λ e. ((λ x. omega arith), inr agreed))
        (λ e.
          if-either P (not a.pair) _ _ (λ e. gone)
            (λ e.
              if-either P (not a.registered) _ _ (λ e. gone)
                (λ e.
                  if-either P (not a.directions) _ _ (λ e. gone)
                    (λ e.
                      if-either P (not a.thread) _ _ (λ e. gone)
                        (λ e. ((λ x. omega arith), inr agreed))))))

  with_socket-Sound :
      (proxy : ProxyConfig) (o : Option ℕ)
      → StandsFor store c.proxy_config_id proxy
      → (is_empty proxy.host || proxy.port == 0) ≡ false
      → (address_of proxy w == 0) ≡ false
      → Sound store w c (with_socket w c proxy (address_of proxy w) o)
  unfolding with_socket
  with_socket-Sound proxy none stands usable found = early-Sound
  with_socket-Sound proxy (some sock) stands usable found =
      let P = Sound store w c in
      let ip = address_of proxy w in
      let r = handshake proxy.type w (name_for proxy w) c (w.stream ip proxy.port) in
      let gone = gone-Sound sock in
      if-either P (not (w.connects ip proxy.port)) _ _ (λ e. gone none)
        (λ e.
          if-either P (not r.0) _ _ (λ e. gone (some r.1))
            (λ agreed.
              if-either P (not w.transfer_config) _ _ (λ e. gone (some r.1))
                (λ d.
                  transfer-Sound w.transfer sock r.1 (
                    proxy,
                    r.1,
                    stands,
                    usable,
                    found,
                    ground (arith, e),
                    pair_of r agreed,
                    refl,
                  ))))

  with_proxy-Sound :
      (found : Option ProxyConfig)
      → ((p : ProxyConfig) → found ≡ some p → StandsFor store c.proxy_config_id p)
      → Sound store w c (with_proxy w c found)
  unfolding with_proxy
  with_proxy-Sound none stands = early-Sound
  with_proxy-Sound (some proxy) stands =
      let P = Sound store w c in
      if-either P (is_empty proxy.host || proxy.port == 0) _ _ (λ e. early-Sound)
        (λ usable.
          if-either P (address_of proxy w == 0) _ _ (λ e. early-Sound)
            (λ found. with_socket-Sound proxy w.socket (stands proxy refl) usable found))

-- Whatever fails on the way: the client's socket and the one to the proxy, if it was opened, are each
-- closed once, or both are handed to a relay of the pool and not closed. And nothing is relayed except
-- on a stream that was connected to the port and the address of a configuration, cached or resolved
-- from its host, once the handshake on it for the original destination has succeeded. That is the
-- configuration with the connection's number or, where none has it, the first one; it has a host and
-- a port.
pub connection_handler-Sound :
    (store : ProxyStore) (w : World) (c : ConnectionConfig)
    → let h = connection_handler store w c in
      ((x : ℕ)
        → count x h.closed + count x (handed h.carried c.client_socket h.opened)
          ≡ count x (c.client_socket ∷ h.opened))
      × ((h.carried ≡ dropped) ⊎ HasAgreed store w c h.stream)
unfolding connection_handler
connection_handler-Sound store w c =
    with_proxy-Sound store w c (find_proxy_config store c.proxy_config_id)
      (find_proxy_config-StandsFor store c.proxy_config_id)
