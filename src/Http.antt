-- ===== src/Http.antt =====
-- Windows/src/pb_http.c: CONNECT through an HTTP proxy. inet_ntop is a parameter.
pub mod Requests
use proxy_bridge.Prelude.{
  ℕ, zero, suc, ◌+◌, ◌-◌, ◌*◌, ◌/◌, ◌%◌, ◌^◌, Bool, true, false, not, List, [], ◌∷◌, ◌++◌, Option,
  none, some, ltb, leb, ◌==◌, if◌then◌else◌, Bytes, codes, equal, length, take, drop, is_empty,
  octet,
}
use Prim.Native.Nat.{min}
use proxy_bridge.Prelude.Int.{ℤ, pos, negsuc}
use proxy_bridge.CText.{behind, before}
use proxy_bridge.CText.Number.{atoi}
use proxy_bridge.Sockets.{Socket}

-- `%d` of a number that is not negative: a 32-bit one has ten digits at most.
unfoldable pub digits : ℕ → ℕ → Bytes
digits zero n = []
digits (suc fuel) n =
    let rest = digits fuel (n / 10) in
    if ltb n 10 then (b'0' + n) ∷ [] else rest ++ ((b'0' + n % 10) ∷ [])

unfoldable pub decimal : ℕ → Bytes
unfolding digits
decimal n = digits 10 n

-- `format_ip_address`.
unfoldable pub format_ip_address : ℕ → Bytes
unfolding decimal
format_ip_address ip =
    decimal (octet ip 0)
    ++ (b'.'
        ∷ (decimal (octet ip 1)
            ++ (b'.' ∷ (decimal (octet ip 2) ++ (b'.' ∷ decimal (octet ip 3))))))

-- A call of `send`: how many bytes it accepts.
unfoldable pub send_once : Bytes → Socket → ℕ × Socket
send_once buf s =
    let n = min (s.accepts s.calls) (length buf) in
    (n, record s { calls = s.calls + 1; sent = s.sent ++ take n buf })

-- A call of `recv`: one segment, or what fits of it; nothing where it fails or the peer closed.
abbrev pub first_segment : ℕ → List Bytes → Bytes × List Bytes
first_segment n [] = ([], [])
first_segment n (xs ∷ xss) = if leb (length xs) n then (xs, xss) else (take n xs, drop n xs ∷ xss)

unfoldable pub recv_once : ℕ → Socket → Bytes × Socket
recv_once n s =
    let (read, left) = first_segment n s.segments in (read, record s { segments = left })

abbrev pub crlf : Bytes
crlf = 13 ∷ 10 ∷ []

-- What follows the authority and a space in the request line, and the other lines.
abbrev pub after_authority : Bytes → Bytes
after_authority authority =
    codes "HTTP/1.1"
    ++ (crlf
        ++ (codes "Host: "
            ++ (authority ++ (crlf ++ (codes "Proxy-Connection: keep-alive" ++ (crlf ++ crlf))))))

-- The request; a host of at most 269 bytes leaves it within the buffer of 1024.
unfoldable pub request : Bytes → ℕ → Bytes
unfolding decimal
request host dest_port =
    let authority = host ++ (b':' ∷ decimal dest_port) in
    codes "CONNECT " ++ (authority ++ (b' ' ∷ after_authority authority))

-- The request is sent and a reply is read, each by one call; the reply is used as a C string.
unfoldable pub exchange : Bytes → Socket → Option Bytes × Socket
unfolding send_once recv_once
exchange text s =
    let (n, t) = send_once text s in
    let (read, u) = recv_once 4095 t in
    if not (n == length text)
    then (none, t)
    else if is_empty read
    then (none, u)
    else (some (before read 0), u)

abbrev pub is_200 : ℤ → Bool
is_200 (pos n) = n == 200
is_200 (negsuc n) = false

-- The number behind the first space is 200.
abbrev pub code_is_200 : Option Bytes → Bool
code_is_200 none = false
code_is_200 (some code_start) = is_200 (atoi code_start)

abbrev pub is_http : Bytes → Bool
is_http response = equal (take 7 response) (codes "HTTP/1.")

unfoldable pub accepts_v4 : Option Bytes → Bool
accepts_v4 none = false
accepts_v4 (some response) =
    if not (is_http response) then false else code_is_200 (behind response b' ')

unfoldable pub accepts_v6 : Option Bytes → Bool
accepts_v6 none = false
accepts_v6 (some response) = code_is_200 (behind response b' ')

-- The host of the request: the name, if the configuration lets the proxy resolve it and it is known.
abbrev pub host_part : Option Bytes → Bytes → Bytes
host_part none address = address
host_part (some cached_domain) address = cached_domain

unfoldable pub http_connect : Option Bytes → ℕ → ℕ → Socket → Bool × Socket
unfolding exchange accepts_v4 request format_ip_address
http_connect name dest_ip dest_port s =
    let (response, t) =
      exchange (request (host_part name (format_ip_address dest_ip)) dest_port) s in
    (accepts_v4 response, t)

unfoldable pub http_connect_v6 : (Bytes → Bytes) → Option Bytes → Bytes → ℕ → Socket → Bool × Socket
unfolding exchange accepts_v6 request
http_connect_v6 inet_ntop name dest_ip6 dest_port s =
    let host = host_part name (b'[' ∷ (inet_ntop dest_ip6 ++ (b']' ∷ []))) in
    let (response, t) = exchange (request host dest_port) s in (accepts_v6 response, t)
