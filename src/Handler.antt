-- ===== src/Handler.antt =====
-- Windows/src/pb_relay.c: `connection_handler`, which takes a redirected connection to its proxy. The
-- answers of the system, and what the DNS cache has for the destination, are in `World`.
pub mod Settled
use proxy_bridge.Prelude.{
  ℕ, Bool, true, false, not, ◌&&◌, ◌||◌, List, [], ◌∷◌, Option, none, some, ◌==◌, if◌then◌else◌,
  Bytes, is_empty,
}
use proxy_bridge.Proxy.{ProxyType, http, socks5, ProxyConfig, ProxyStore, find_proxy_config}
use proxy_bridge.Sockets.{Socket}
use proxy_bridge.Socks.{socks5_connect, socks5_connect_v6, socks5_connect_domain}
use proxy_bridge.Http.{http_connect, http_connect_v6}

-- `CONNECTION_CONFIG`.
pub record ConnectionConfig : Type 0 where
  pub client_socket : ℕ
  pub orig_dest_ip : ℕ
  pub orig_dest_ip6 : Bytes
  pub is_ipv6 : Bool
  pub orig_dest_port : ℕ
  pub proxy_config_id : ℕ

-- What `transfer_handler` meets: whether the pool takes the relay over; and else whether there is memory
-- for the pair, whether it is registered, whether there is memory for both directions, and a thread.
pub record TransferAnswers : Type 0 where
  pub taken_over : Bool
  pub pair : Bool
  pub registered : Bool
  pub directions : Bool
  pub thread : Bool

-- `connects` says whether `connect` succeeds for an address and a port, and `stream` is the stream to
-- what listens there.
pub record World : Type 0 where
  pub resolve : Bytes → ℕ
  pub inet_ntop : Bytes → Bytes
  pub cached_domain : Option Bytes
  pub socket : Option ℕ
  pub connects : ℕ → ℕ → Bool
  pub stream : ℕ → ℕ → Socket
  pub transfer_config : Bool
  pub transfer : TransferAnswers

-- How a connection ends up: it is dropped, or the pool relays it, or the blocking threads have.
pub data Carried : Type 0 where
  dropped pooled blocking : Carried

-- With the sockets that were opened for it and closed, and the stream to the proxy, if one was
-- connected.
pub record Handled : Type 0 where
  pub carried : Carried
  pub opened : List ℕ
  pub closed : List ℕ
  pub stream : Option Socket

-- The connection is dropped before there is a socket to the proxy, or with one.
abbrev pub drop_client : ℕ → Handled
drop_client client = record { carried = dropped; opened = []; closed = client ∷ []; stream = none }

abbrev pub drop_both : ℕ → ℕ → Option Socket → Handled
drop_both client proxy s = record {
  carried = dropped;
  opened = proxy ∷ [];
  closed = client ∷ proxy ∷ [];
  stream = s;
}

-- The blocking threads close both sockets when the last of them ends.
unfoldable pub transfer_handler : TransferAnswers → ℕ → ℕ → Socket → Handled
transfer_handler a client proxy s =
    let out = drop_both client proxy (some s) in
    if a.taken_over
    then record out { carried = pooled; closed = [] }
    else if not a.pair
    then out
    else if not a.registered
    then out
    else if not a.directions
    then out
    else if not a.thread
    then out
    else record out { carried = blocking }

-- The name goes to the proxy only where the configuration opts in.
abbrev pub name_for : ProxyConfig → World → Option Bytes
name_for proxy w = if proxy.send_domain_to_proxy then w.cached_domain else none

unfoldable pub socks_handshake : Bool → Option Bytes → ConnectionConfig → Socket → Bool × Socket
unfolding socks5_connect socks5_connect_v6 socks5_connect_domain
socks_handshake is_ipv6 (some name) c s = socks5_connect_domain name c.orig_dest_port s
socks_handshake true none c s = socks5_connect_v6 c.orig_dest_ip6 c.orig_dest_port s
socks_handshake false none c s = socks5_connect c.orig_dest_ip c.orig_dest_port s

unfoldable pub handshake :
    ProxyType → World → Option Bytes → ConnectionConfig → Socket → Bool × Socket
unfolding socks_handshake http_connect http_connect_v6
handshake socks5 w name c s = socks_handshake c.is_ipv6 name c s
handshake http w name c s =
    if c.is_ipv6
    then http_connect_v6 w.inet_ntop name c.orig_dest_ip6 c.orig_dest_port s
    else http_connect name c.orig_dest_ip c.orig_dest_port s

-- The address that is cached for the host, or else the one that it resolves to; 0 if there is none.
abbrev pub address_of : ProxyConfig → World → ℕ
address_of proxy w = if proxy.resolved_ip == 0 then w.resolve proxy.host else proxy.resolved_ip

-- The connection to the proxy at an address, once there is a socket for it.
unfoldable pub with_socket : World → ConnectionConfig → ProxyConfig → ℕ → Option ℕ → Handled
unfolding handshake transfer_handler
with_socket w c proxy proxy_ip none = drop_client c.client_socket
with_socket w c proxy proxy_ip (some socks_sock) =
    let (agreed, s) = handshake proxy.type w (name_for proxy w) c (w.stream proxy_ip proxy.port) in
    let out = drop_both c.client_socket socks_sock in
    if not (w.connects proxy_ip proxy.port)
    then out none
    else if not agreed
    then out (some s)
    else if not w.transfer_config
    then out (some s)
    else transfer_handler w.transfer c.client_socket socks_sock s

unfoldable pub with_proxy : World → ConnectionConfig → Option ProxyConfig → Handled
unfolding with_socket
with_proxy w c none = drop_client c.client_socket
with_proxy w c (some proxy) =
    let proxy_ip = address_of proxy w in
    let out = drop_client c.client_socket in
    if is_empty proxy.host || proxy.port == 0
    then out
    else if proxy_ip == 0
    then out
    else with_socket w c proxy proxy_ip w.socket

unfoldable pub connection_handler : ProxyStore → World → ConnectionConfig → Handled
unfolding with_proxy find_proxy_config
connection_handler store w c = with_proxy w c (find_proxy_config store c.proxy_config_id)
