-- ===== src/Socks/Requests.antt =====
-- Windows/src/pb_socks5.c: the requests, read by the grammar of RFC 1928.
use proxy_bridge.Prelude.{
  ℕ, ◌+◌, ◌-◌, ◌*◌, ◌/◌, ◌%◌, ◌^◌, ◌≤◌, ◌<◌, ◌&&◌, ◌≡◌, refl, ap, ◌∙◌, ◌∷◌, ◌++◌, append_assoc,
  append-nil, Option, none, some, ◌==◌, if◌then◌else◌, Bytes, length, take, drop, octet, take_all,
  arith,
}
use proxy_bridge.Sockets.Streams.{take-append, drop-append}
use proxy_bridge.Socks.{port_bytes}
use proxy_bridge.Socks.Connects.{Destination, v4, v6, domain, request_of}

-- DST.PORT, most significant byte first, and what follows.
read_port : (ℕ → Destination) → Bytes → Option (Destination × Bytes)
read_port make (hi ∷ lo ∷ rest) = some (make (hi * 256 + lo), rest)
read_port make _ = none

read_v4 : Bytes → Option (Destination × Bytes)
unfolding read_port
read_v4 (a ∷ b ∷ c ∷ d ∷ rest) = read_port (v4 (a + (b * 2 ^ 8 + (c * 2 ^ 16 + d * 2 ^ 24)))) rest
read_v4 _ = none

read_domain : Bytes → Option (Destination × Bytes)
unfolding read_port
read_domain (n ∷ rest) = read_port (domain (take n rest)) (drop n rest)
read_domain _ = none

read_address : ℕ → Bytes → Option (Destination × Bytes)
unfolding read_port read_v4 read_domain
read_address atyp bytes =
    if atyp == 1
    then read_v4 bytes
    else if atyp == 3
    then read_domain bytes
    else if atyp == 4
    then read_port (v6 (take 16 bytes)) (drop 16 bytes)
    else none

-- A CONNECT request: VER, CMD, RSV, ATYP, DST.ADDR, DST.PORT.
unfoldable pub read_request : Bytes → Option (Destination × Bytes)
unfolding read_address
read_request (ver ∷ cmd ∷ rsv ∷ atyp ∷ bytes) =
    if ver == 5 && (cmd == 1 && rsv == 0) then read_address atyp bytes else none
read_request _ = none

-- Values that fit into their fields: addresses of 32 and 128 bits, ports of 16 bits, and names of 1 to
-- 255 bytes.
abbrev pub IsSized : Destination → Type 0
IsSized (v4 ip port) = (ip < 2 ^ 32) × (port < 2 ^ 16)
IsSized (v6 ip6 port) = (length ip6 ≡ 16) × (port < 2 ^ 16)
IsSized (domain name port) = (1 ≤ length name) × (length name ≤ 255) × (port < 2 ^ 16)

pub port_lem : (port : ℕ) → port < 2 ^ 16 → port / 256 % 256 * 256 + port % 256 ≡ port
port_lem port h = omega arith

pub octets_lem :
    (ip : ℕ)
    → ip < 2 ^ 32
    → octet ip 0 + (octet ip 1 * 2 ^ 8 + (octet ip 2 * 2 ^ 16 + octet ip 3 * 2 ^ 24)) ≡ ip
octets_lem ip h = omega arith

read_port_lem :
    (make : ℕ → Destination) (port : ℕ) (rest : Bytes)
    → port < 2 ^ 16
    → read_port make (port_bytes port ++ rest) ≡ some (make port, rest)
unfolding read_port
read_port_lem make port rest h = ap (λ p. some (make p, rest)) (port_lem port h)

pub take_front : (n : ℕ) (xs ys : Bytes) → length xs ≡ n → take n (xs ++ ys) ≡ xs
take_front n xs ys h =
    let none_left : n - length xs ≡ 0 = omega arith in
    take-append xs ys n (omega arith) ∙ rw none_left (append-nil xs)

drop_front : (n : ℕ) (xs ys : Bytes) → length xs ≡ n → drop n (xs ++ ys) ≡ ys
drop_front n xs ys h =
    let none_left : n - length xs ≡ 0 = omega arith in
    drop-append xs ys n (omega arith) ∙ rw none_left refl

-- A server that reads a request of the client by the grammar of RFC 1928 finds the destination that
-- was asked for, and just what follows the request, if address, port and name fit into their fields.
pub read_request-request_of :
    (d : Destination) (rest : Bytes)
    → IsSized d
    → read_request (request_of d ++ rest) ≡ some (d, rest)
unfolding read_request read_address read_v4 read_domain
read_request-request_of (v4 ip port) rest (i, p) =
    rw (octets_lem ip i) (read_port_lem (v4 ip) port rest p)
read_request-request_of (v6 ip6 port) rest (i, p) =
    rw
      (
        take_all 16 ip6 (omega arith),
        append_assoc ip6 (port_bytes port) rest,
        take_front 16 ip6 (port_bytes port ++ rest) i,
        drop_front 16 ip6 (port_bytes port ++ rest) i,
      )
      (read_port_lem (v6 ip6) port rest p)
read_request-request_of (domain name port) rest (h, l, p) =
    let fits : length name % 256 ≡ length name = omega arith in
    rw
      (
        fits,
        append_assoc name (port_bytes port) rest,
        take_front (length name) name (port_bytes port ++ rest) refl,
        drop_front (length name) name (port_bytes port ++ rest) refl,
      )
      (read_port_lem (domain name) port rest p)
