-- ===== src/Socks.antt =====
-- Windows/src/pb_socks5.c: the SOCKS5 client on a connected socket.
pub mod Replies
pub mod Connects
pub mod Requests
pub mod Associate
use proxy_bridge.Prelude.{
  ℕ, ◌+◌, ◌*◌, ◌/◌, ◌%◌, ◌^◌, Bool, true, false, ◌&&◌, ◌||◌, not, List, [], ◌∷◌, ◌++◌, Option, none,
  some, ltb, ◌==◌, if◌then◌else◌, Bytes, length, take, get_or, octet,
}
use proxy_bridge.Sockets.{Socket, send_all, recv_n}

abbrev pub is_read : Option Bytes → Bool
is_read none = false
is_read (some xs) = true

-- A read whose bytes are not used.
unfoldable pub drain : ℕ → Socket → Bool × Socket
drain n s = let (got, t) = recv_n n s in (is_read got, t)

-- BND.ADDR and BND.PORT behind the length of a domain.
unfoldable pub drain_domain : Option Bytes → Socket → Bool × Socket
unfolding drain
drain_domain none s = (false, s)
drain_domain (some dlen) s = drain (get_or dlen 0 0 + 2) s

-- BND.ADDR and BND.PORT, by the type of the address.
unfoldable pub drain_bound : ℕ → Socket → Bool × Socket
unfolding drain drain_domain
drain_bound atyp s =
    if atyp == 1
    then drain 6 s
    else if atyp == 4
    then drain 18 s
    else if atyp == 3
    then (let (dlen, t) = recv_n 1 s in drain_domain dlen t)
    else (false, s)

-- The reply behind its first four bytes, with the code that is reported, `none` for -1.
unfoldable pub reply_after : Option Bytes → Socket → (Bool × Option ℕ) × Socket
unfolding drain_bound
reply_after none s = ((false, none), s)
reply_after (some hdr) s =
    if get_or hdr 0 0 == 5 && get_or hdr 1 0 == 0
    then (let (ok, t) = drain_bound (get_or hdr 3 0) s in ((ok, some (get_or hdr 1 0)), t))
    else ((false, some (get_or hdr 1 0)), s)

unfoldable pub socks5_read_connect_reply : Socket → (Bool × Option ℕ) × Socket
unfolding reply_after
socks5_read_connect_reply s = let (hdr, t) = recv_n 4 s in reply_after hdr t

abbrev pub greeting : Bytes
greeting = 5 ∷ 1 ∷ 0 ∷ []

abbrev pub is_no_auth : Option Bytes → Bool
is_no_auth none = false
is_no_auth (some reply) = get_or reply 0 0 == 5 && get_or reply 1 0 == 0

unfoldable pub socks5_negotiate_no_auth : Socket → Bool × Socket
socks5_negotiate_no_auth s =
    let (all, t) = send_all greeting s in
    let (reply, u) = recv_n 2 t in if all then (is_no_auth reply, u) else (false, t)

-- What the three CONNECT functions do with their request.
unfoldable pub connect_with : Bytes → Socket → Bool × Socket
unfolding socks5_negotiate_no_auth socks5_read_connect_reply
connect_with request s =
    let (agreed, t) = socks5_negotiate_no_auth s in
    let (all, u) = send_all request t in
    let (reply, v) = socks5_read_connect_reply u in
    if not agreed then (false, t) else if not all then (false, u) else (reply.0, v)

abbrev pub port_bytes : ℕ → Bytes
port_bytes dest_port = (dest_port / 256 % 256) ∷ (dest_port % 256) ∷ []

abbrev pub request_v4 : ℕ → ℕ → Bytes
request_v4 dest_ip dest_port =
    5
    ∷ 1
    ∷ 0
    ∷ 1
    ∷ octet dest_ip 0
    ∷ octet dest_ip 1
    ∷ octet dest_ip 2
    ∷ octet dest_ip 3
    ∷ port_bytes dest_port

abbrev pub request_v6 : Bytes → ℕ → Bytes
request_v6 dest_ip6 dest_port = 5 ∷ 1 ∷ 0 ∷ 4 ∷ (take 16 dest_ip6 ++ port_bytes dest_port)

-- `hlen` bytes of the name, which is cut where its length is stored in a byte.
abbrev pub request_domain : Bytes → ℕ → Bytes
request_domain hostname dest_port =
    5 ∷ 1 ∷ 0 ∷ 3 ∷ (length hostname % 256) ∷ (hostname ++ port_bytes dest_port)

unfoldable pub socks5_connect : ℕ → ℕ → Socket → Bool × Socket
unfolding connect_with
socks5_connect dest_ip dest_port = connect_with (request_v4 dest_ip dest_port)

unfoldable pub socks5_connect_v6 : Bytes → ℕ → Socket → Bool × Socket
unfolding connect_with
socks5_connect_v6 dest_ip6 dest_port = connect_with (request_v6 dest_ip6 dest_port)

unfoldable pub socks5_connect_domain : Bytes → ℕ → Socket → Bool × Socket
unfolding connect_with
socks5_connect_domain hostname dest_port s =
    if length hostname == 0 || ltb 255 (length hostname)
    then (false, s)
    else connect_with (request_domain hostname dest_port) s

-- `sin_addr` and `sin_port`, the port in host order.
abbrev pub relay_of : Bytes → ℕ × ℕ
relay_of ap = (
  get_or ap 0 0 + (get_or ap 1 0 * 2 ^ 8 + (get_or ap 2 0 * 2 ^ 16 + get_or ap 3 0 * 2 ^ 24)),
  get_or ap 4 0 * 256 + get_or ap 5 0,
)

abbrev pub relay_read : Option Bytes → Option (ℕ × ℕ)
relay_read none = none
relay_read (some ap) = some (relay_of ap)

abbrev pub is_bound_v4 : Option Bytes → Bool
is_bound_v4 none = false
is_bound_v4 (some rep) = get_or rep 0 0 == 5 && (get_or rep 1 0 == 0 && get_or rep 3 0 == 1)

abbrev pub associate_request : Bytes
associate_request = 5 ∷ 3 ∷ 0 ∷ 1 ∷ 0 ∷ 0 ∷ 0 ∷ 0 ∷ 0 ∷ 0 ∷ []

-- The address of the relay; `none` where the function returns -1.
unfoldable pub socks5_udp_associate_with_config : Socket → Option (ℕ × ℕ) × Socket
unfolding socks5_negotiate_no_auth
socks5_udp_associate_with_config s =
    let (agreed, t) = socks5_negotiate_no_auth s in
    let (all, u) = send_all associate_request t in
    let (rep, v) = recv_n 4 u in
    let (ap, w) = recv_n 6 v in
    if not agreed
    then (none, t)
    else if not all
    then (none, u)
    else if not (is_bound_v4 rep)
    then (none, v)
    else (relay_read ap, w)
