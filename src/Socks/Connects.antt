-- ===== src/Socks/Connects.antt =====
-- Windows/src/pb_socks5.c: how a CONNECT goes, from the greeting to the reply.
use proxy_bridge.Prelude.{
  ℕ, ◌≤◌, ◌<◌, Bool, false, ◌&&◌, ◌||◌, ◌≡◌, refl, ap, ◌∙◌, inl, inr, [], ◌∷◌, ◌++◌, Option, none,
  some, ltb, ◌==◌, Bytes, length, take, drop, Bool-cases, arith,
}
use proxy_bridge.Sockets.{Socket, send_all}
use proxy_bridge.Sockets.Streams.{recv_n-sent}
use proxy_bridge.Sockets.Sends.{send_all-segments, send_all-accepts, send_all-sent, send_all-goes}
use proxy_bridge.Socks.{
  greeting, is_no_auth, socks5_negotiate_no_auth, connect_with, request_v4, request_v6,
  request_domain, socks5_connect, socks5_connect_v6, socks5_connect_domain,
}
use proxy_bridge.Socks.Replies.{
  behind_choice, behind_reply, Comes, Ends, lacking, taking, Comes-Taking, read_reply-Ends,
}

choice-Ends :
    (sent bytes : Bytes) (s : Socket)
    → 2 ≤ length bytes
    → Comes sent (drop 2 bytes) s
    → Ends sent (behind_choice bytes) (is_no_auth (some (take 2 bytes)), s)
choice-Ends sent (ver ∷ method ∷ bytes) s h c = elim (Bool-cases (ver == 5 && method == 0)) [
  | inl e ↦ rw e (refl, c)
  | inr e ↦ rw e refl
]
choice-Ends sent [] s h c = absurd (omega arith)
choice-Ends sent (_ ∷ []) s h c = absurd (omega arith)

behind_choice_short : (bytes : Bytes) → length bytes < 2 → behind_choice bytes ≡ none
behind_choice_short (ver ∷ method ∷ bytes) h = absurd (omega arith)
behind_choice_short [] h = refl
behind_choice_short (_ ∷ []) h = refl

-- A send in front of a step.
sent-Comes :
    (buf sent bytes : Bytes) (s : Socket)
    → ((k : ℕ) → 0 < s.accepts k)
    → Comes sent bytes s
    → Comes (sent ++ buf) bytes (send_all buf s).1
sent-Comes buf sent bytes s open_ (e, f, same) = (
  rw (send_all-segments buf s) e,
  rw (send_all-segments buf s) f,
  send_all-sent buf s (send_all-goes buf s open_) ∙ ap (λ x. x ++ buf) same,
)

negotiate-Ends :
    (sent bytes : Bytes) (s : Socket)
    → ((k : ℕ) → 0 < s.accepts k)
    → Comes sent bytes s
    → Ends (sent ++ greeting) (behind_choice bytes) (socks5_negotiate_no_auth s)
unfolding socks5_negotiate_no_auth
negotiate-Ends sent bytes s open_ c =
    elim (Comes-Taking 2 (sent ++ greeting) bytes (send_all greeting s).1
      (sent-Comes greeting sent bytes s open_ c)) [
        | lacking h r ↦ rw (send_all-goes greeting s open_, behind_choice_short bytes h, r) refl
        | taking h r d ↦
            rw (send_all-goes greeting s open_, r) (choice-Ends (sent ++ greeting) bytes _ h d)
      ]

-- The bytes behind a choice of no authentication and a reply that reports success.
abbrev pub behind_handshake : Option Bytes → Option Bytes
behind_handshake none = none
behind_handshake (some bytes) = behind_reply bytes

negotiate-accepts : (s : Socket) → (socks5_negotiate_no_auth s).1.accepts ≡ s.accepts
unfolding socks5_negotiate_no_auth
negotiate-accepts s = elim (Bool-cases (send_all greeting s).0) [
  | inl all ↦ rw all ((recv_n-sent 2 (send_all greeting s).1).1 ∙ send_all-accepts greeting s)
  | inr part ↦ rw part (send_all-accepts greeting s)
]

-- The request and the reply, after a negotiation.
requested :
    (request sent : Bytes) (o : Option Bytes) (s : Socket)
    → ((k : ℕ) → 0 < s.accepts k)
    → Ends (sent ++ greeting) o (socks5_negotiate_no_auth s)
    → Ends ((sent ++ greeting) ++ request) (behind_handshake o) (connect_with request s)
unfolding connect_with
requested request sent none s open_ refused = rw refused refl
requested request sent (some bytes) s open_ (agreed, c) =
    let t = (socks5_negotiate_no_auth s).1 in
    let still : (k : ℕ) → 0 < t.accepts k = λ k. rw (negotiate-accepts s) (open_ k) in
    rw (agreed, send_all-goes request t still)
      (read_reply-Ends ((sent ++ greeting) ++ request) bytes (send_all request t).1
        (sent-Comes request (sent ++ greeting) bytes t still c))

connect_with-Ends :
    (request sent bytes : Bytes) (s : Socket)
    → ((k : ℕ) → 0 < s.accepts k)
    → Comes sent bytes s
    → Ends
        ((sent ++ greeting) ++ request)
        (behind_handshake (behind_choice bytes))
        (connect_with request s)
connect_with-Ends request sent bytes s open_ c =
    requested request sent (behind_choice bytes) s open_ (negotiate-Ends sent bytes s open_ c)

-- What a CONNECT can be asked for, the function that asks for it, and its request.
pub data Destination : Type 0 where
  v4 : ℕ → ℕ → Destination
  v6 : Bytes → ℕ → Destination
  domain : Bytes → ℕ → Destination

abbrev pub connect : Destination → Socket → Bool × Socket
connect (v4 ip port) = socks5_connect ip port
connect (v6 ip6 port) = socks5_connect_v6 ip6 port
connect (domain name port) = socks5_connect_domain name port

abbrev pub request_of : Destination → Bytes
request_of (v4 ip port) = request_v4 ip port
request_of (v6 ip6 port) = request_v6 ip6 port
request_of (domain name port) = request_domain name port

-- A name has between 1 and 255 bytes.
abbrev pub IsNamed : Destination → Type 0
IsNamed (domain name port) = (1 ≤ length name) × (length name ≤ 255)
IsNamed _ = Unit

named_length :
    (name : Bytes)
    → 1 ≤ length name
    → length name ≤ 255
    → (length name == 0 || ltb 255 (length name)) ≡ false
named_length name h l = ground arith

-- However the bytes from the proxy are cut into segments: where each call of `send` accepts something
-- and nothing fails before the proxy closes, a CONNECT succeeds exactly if the bytes begin with the
-- choice of no authentication and a reply of RFC 1928 that reports success. It has then taken just
-- these bytes from the stream, and has sent just the greeting and the request. A name is to have
-- between 1 and 255 bytes.
pub connect-Ends :
    (d : Destination) (sent bytes : Bytes) (s : Socket)
    → IsNamed d
    → ((k : ℕ) → 0 < s.accepts k)
    → Comes sent bytes s
    → Ends
        ((sent ++ greeting) ++ request_of d)
        (behind_handshake (behind_choice bytes))
        (connect d s)
unfolding socks5_connect socks5_connect_v6 socks5_connect_domain
connect-Ends (v4 ip port) sent bytes s n open_ c =
    connect_with-Ends (request_v4 ip port) sent bytes s open_ c
connect-Ends (v6 ip6 port) sent bytes s n open_ c =
    connect_with-Ends (request_v6 ip6 port) sent bytes s open_ c
connect-Ends (domain name port) sent bytes s n open_ c =
    rw (named_length name n.0 n.1)
      (connect_with-Ends (request_domain name port) sent bytes s open_ c)
