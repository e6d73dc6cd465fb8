-- ===== src/UdpRelay/Datagrams.antt =====
-- Windows/src/pb_relay.c: the headers of the datagrams to and from the proxy.
use proxy_bridge.Prelude.{◌^◌, ◌<◌, ◌≡◌, Bytes, length}
use proxy_bridge.UdpRelay.{encapsulate_v4, encapsulate_v6, Sender, v4, v6}

-- The datagram that carries a payload for, or from, an address.
abbrev pub datagram_of : Sender → Bytes → Bytes
datagram_of (v4 ip port) payload = encapsulate_v4 ip port payload
datagram_of (v6 ip6 port) payload = encapsulate_v6 ip6 port payload

-- Values that fit into their fields.
abbrev pub IsSized : Sender → Type 0
IsSized (v4 ip port) = (ip < 2 ^ 32) × (port < 2 ^ 16)
IsSized (v6 ip6 port) = (length ip6 ≡ 16) × (port < 2 ^ 16)
