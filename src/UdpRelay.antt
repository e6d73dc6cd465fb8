-- ===== src/UdpRelay.antt =====
-- Windows/src/pb_relay.c: `udp_relay_server`, as it serves one SOCKS5 configuration. Each event of its
-- loop is a call; the answers of the operating system come with it.
pub mod Datagrams
pub mod Served
use proxy_bridge.Prelude.{
  ℕ, ◌+◌, ◌*◌, ◌/◌, ◌%◌, ◌^◌, ◌-◌, Bool, true, false, ◌&&◌, ◌||◌, is_empty, not, List, [], ◌∷◌,
  ◌++◌, Option, none, some, ltb, leb, ◌==◌, if◌then◌else◌, Bytes, length, take, drop, get_or, octet,
}
use proxy_bridge.Proxy.{ProxyConfig, close_both}
use proxy_bridge.Socks.{port_bytes}
use proxy_bridge.Socks.Associate.{Network, Association, establish_udp_associate_for_config}

-- `MAXBUF`.
abbrev pub max_buf : ℕ
max_buf = 65535

-- The header of a datagram to the proxy, and the payload.
unfoldable pub encapsulate_v4 : ℕ → ℕ → Bytes → Bytes
encapsulate_v4 dest_ip dest_port payload =
    0
    ∷ 0
    ∷ 0
    ∷ 1
    ∷ octet dest_ip 0
    ∷ octet dest_ip 1
    ∷ octet dest_ip 2
    ∷ octet dest_ip 3
    ∷ (port_bytes dest_port ++ payload)

unfoldable pub encapsulate_v6 : Bytes → ℕ → Bytes → Bytes
encapsulate_v6 dest_ip6 dest_port payload =
    0 ∷ 0 ∷ 0 ∷ 4 ∷ (take 16 dest_ip6 ++ (port_bytes dest_port ++ payload))

-- The sender that a datagram of the proxy names.
pub data Sender : Type 0 where
  v4 : ℕ → ℕ → Sender
  v6 : Bytes → ℕ → Sender

abbrev pub port_at : ℕ → Bytes → ℕ
port_at k buf = get_or buf k 0 * 256 + get_or buf (k + 1) 0

abbrev pub sender_v4 : Bytes → Sender
sender_v4 buf =
    v4
      (get_or buf 4 0
        + (get_or buf 5 0 * 2 ^ 8 + (get_or buf 6 0 * 2 ^ 16 + get_or buf 7 0 * 2 ^ 24)))
      (port_at 8 buf)

abbrev pub sender_v6 : Bytes → Sender
sender_v6 buf = v6 (take 16 (drop 4 buf)) (port_at 20 buf)

-- A datagram from the proxy: its sender and its payload, or nothing where it is passed over.
unfoldable pub decapsulate : Bytes → Option (Sender × Bytes)
decapsulate buf =
    if ltb (length buf) 10
    then none
    else if not (get_or buf 2 0 == 0)
    then none
    else if get_or buf 3 0 == 1
    then some (sender_v4 buf, drop 10 buf)
    else if get_or buf 3 0 == 4 && leb 22 (length buf)
    then some (sender_v6 buf, drop 22 buf)
    else none

-- Both sockets are closed, and the configuration counts as not connected.
abbrev pub dropped : Association → Association
dropped s = record s {
  config = record s.config { udp_tcp_ctrl = none; udp_send_sock = none; udp_connected = false };
  closed = close_both s.config s.closed;
}

-- A datagram to the proxy: the socket that it is sent on, and where to.
pub record Datagram : Type 0 where
  pub socket : Option ℕ
  pub to : ℕ × ℕ
  pub bytes : Bytes

abbrev pub to_proxy : Association → Bytes → Datagram
to_proxy s bytes = record { socket = s.config.udp_send_sock; to = s.relay_addr; bytes = bytes }

-- The configuration is connected if it is not.
unfoldable pub connect_unless : Bool → Network → Association → Bool × Association
connect_unless true net s = (true, s)
connect_unless false net s = establish_udp_associate_for_config net s

abbrev pub connect_if_down : Network → Association → Bool × Association
connect_if_down net s = connect_unless s.config.udp_connected net s

-- An error of `sendto` has the association made anew, and the datagram is sent once more.
unfoldable pub resend : Network → Bytes → Association → List Datagram × Association
resend retry bytes s =
    let (again, t) = establish_udp_associate_for_config retry (dropped s) in
    ((if again then to_proxy t bytes ∷ [] else []), t)

-- A datagram of an application for a destination over IPv4; `goes` says whether `sendto` succeeds.
unfoldable pub from_application :
    Network → Network → Bool → ℕ × ℕ → Bytes → Association → List Datagram × Association
unfolding connect_unless resend encapsulate_v4
from_application net retry goes dest payload s =
    let bytes = encapsulate_v4 dest.0 dest.1 payload in
    let (up, t) = connect_if_down net s in
    if is_empty payload || ltb (max_buf - 10) (length payload)
    then ([], s)
    else if not up
    then ([], t)
    else if goes
    then (to_proxy t bytes ∷ [], t)
    else resend retry bytes t

-- The same over IPv6.
unfoldable pub from_application_v6 :
    Network → Bytes × ℕ → Bytes → Association → List Datagram × Association
unfolding connect_unless encapsulate_v6
from_application_v6 net dest payload s =
    let t = (connect_if_down net s).1 in
    if is_empty payload || ltb (max_buf - 22) (length payload)
    then ([], s)
    else if t.config.udp_connected
    then (to_proxy t (encapsulate_v6 dest.0 dest.1 payload) ∷ [], t)
    else ([], t)

-- The control connection was closed by the proxy.
unfoldable pub control_closed : Network → Association → Association
control_closed net s =
    if s.config.udp_connected then (establish_udp_associate_for_config net (dropped s)).1 else s

-- An error of `recvfrom` on the socket for datagrams.
unfoldable pub receive_failed : Association → Association
receive_failed s = if s.config.udp_connected then dropped s else s

-- The events of the loop for one configuration, and its end.
pub data Event : Type 0 where
  idle : Network → Event
  closed_by_proxy : Network → Event
  datagram : Network → Network → Bool → ℕ × ℕ → Bytes → Event
  datagram_v6 : Network → Bytes × ℕ → Bytes → Event
  failed : Event
  stopped : Event

unfoldable pub serve : Event → Association → Association
unfolding connect_unless control_closed from_application from_application_v6 receive_failed
serve (idle net) s = (connect_if_down net s).1
serve (closed_by_proxy net) s = control_closed net s
serve (datagram net retry goes dest payload) s = (from_application net retry goes dest payload s).1
serve (datagram_v6 net dest payload) s = (from_application_v6 net dest payload s).1
serve failed s = receive_failed s
serve stopped s = dropped s

unfoldable pub serve_all : List Event → Association → Association
unfolding serve
serve_all [] s = s
serve_all (e ∷ es) s = serve_all es (serve e s)
