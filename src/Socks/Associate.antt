-- ===== src/Socks/Associate.antt =====
-- Windows/src/pb_socks5.c: `establish_udp_associate_for_config`. The calls of the operating system
-- that it makes, and the stream of the connection to the proxy, are a parameter.
pub mod Balance
use proxy_bridge.Prelude.{
  ℕ, Bool, true, false, ◌||◌, not, List, ◌∷◌, Option, none, some, ltb, ◌==◌, if◌then◌else◌, Bytes,
  is_empty, sub64,
}
use proxy_bridge.Sockets.{Socket}
use proxy_bridge.Proxy.{ProxyConfig, is_socks5, close_both}
use proxy_bridge.Socks.{socks5_udp_associate_with_config}

-- The clock, the sockets that the two calls of `socket` give, the address that the name lookup
-- gives, whether the connection is established in time, and the stream on it.
pub record Network : Type 0 where
  pub now : ℕ
  pub tcp_socket : Option ℕ
  pub udp_socket : Option ℕ
  pub resolve : Bytes → ℕ
  pub connects : Bool
  pub stream : Socket

-- A configuration with its `udp_relay_addr`, and the sockets that have been opened and closed.
pub record Association : Type 0 where
  pub config : ProxyConfig
  pub relay_addr : ℕ × ℕ
  pub opened : List ℕ
  pub closed : List ℕ

-- The control connection stands, and the socket for datagrams is opened.
unfoldable pub with_datagrams : ℕ → Association → Option ℕ → Bool × Association
with_datagrams tcp_sock s none = (
  false,
  record s {
    config = record s.config { udp_tcp_ctrl = none; udp_send_sock = none; udp_connected = false };
    closed = tcp_sock ∷ s.closed;
  },
)
with_datagrams tcp_sock s (some udp_sock) = (
  true,
  record s {
    config = record s.config {
      udp_tcp_ctrl = some tcp_sock;
      udp_send_sock = some udp_sock;
      udp_connected = true;
    };
    opened = udp_sock ∷ s.opened;
  },
)

-- The proxy has answered with the address of its relay; one that is left open is that of the proxy.
unfoldable pub with_relay : Network → ℕ → ℕ → Association → Option (ℕ × ℕ) → Bool × Association
unfolding with_datagrams
with_relay net tcp_sock socks5_ip s none = (false, record s { closed = tcp_sock ∷ s.closed })
with_relay net tcp_sock socks5_ip s (some (ip, port)) =
    with_datagrams tcp_sock (record s { relay_addr = ((if ip == 0 then socks5_ip else ip), port) })
      net.udp_socket

-- The socket for the control connection is opened, and connected to the proxy.
unfoldable pub with_control : Network → Association → Option ℕ → Bool × Association
unfolding with_relay
with_control net s none = (false, s)
with_control net s (some tcp_sock) =
    let socks5_ip = net.resolve s.config.host in
    let t = record s { opened = tcp_sock ∷ s.opened } in
    if socks5_ip == 0
    then (false, record t { closed = tcp_sock ∷ t.closed })
    else if not net.connects
    then (false, record t { closed = tcp_sock ∷ t.closed })
    else with_relay net tcp_sock socks5_ip t (socks5_udp_associate_with_config net.stream).0

-- The sockets of the last attempt are closed.
abbrev pub started : ℕ → Association → Association
started now s = record s {
  config = record s.config { last_udp_attempt = now; udp_tcp_ctrl = none; udp_send_sock = none };
  closed = close_both s.config s.closed;
}

unfoldable pub establish_udp_associate_for_config : Network → Association → Bool × Association
unfolding with_control close_both
establish_udp_associate_for_config net s =
    if is_empty s.config.host || s.config.port == 0
    then (false, s)
    else if not (is_socks5 s.config.type)
    then (false, s)
    else if ltb (sub64 net.now s.config.last_udp_attempt) 1000
    then (false, s)
    else with_control net (started net.now s) net.tcp_socket
