-- ===== src/Sockets.antt =====
-- Windows/src/pb_util.c: `send_all` and `recv_n` on a stream socket. What `send` and `recv` do is in
-- the state of the socket: how much each call of `send` accepts, and the segments that come in.
pub mod Streams
pub mod Sends
use proxy_bridge.Prelude.{
  ℕ, zero, suc, ◌+◌, ◌-◌, Bool, true, false, List, [], ◌∷◌, ◌++◌, Option, none, some, leb, ◌==◌,
  if◌then◌else◌, Bytes, length, take, drop, is_empty,
}
use Prim.Native.Nat.{min}

-- `accepts k` is what call `k` of `send` accepts at most, 0 where it fails; `calls` counts them. An
-- empty segment stands for a failure or a time-out in between; after the last one the peer closed.
pub record Socket : Type 0 where
  pub accepts : ℕ → ℕ
  pub calls : ℕ
  pub sent : Bytes
  pub segments : List Bytes

-- The loop of `send_all`, on the bytes that are left; each turn sends one at least.
unfoldable pub send_from : ℕ → Bytes → Socket → Bool × Socket
send_from zero buf s = (is_empty buf, s)
send_from (suc fuel) buf s =
    let n = min (s.accepts s.calls) (length buf) in
    let rest =
      send_from fuel (drop n buf) (record s { calls = s.calls + 1; sent = s.sent ++ take n buf }) in
    if is_empty buf
    then (true, s)
    else if n == 0
    then (false, record s { calls = s.calls + 1 })
    else rest

-- Whether all was sent.
unfoldable pub send_all : Bytes → Socket → Bool × Socket
unfolding send_from
send_all buf s = send_from (length buf) buf s

-- The bytes before those that a call gives.
abbrev pub after_bytes : Bytes → Option Bytes × List Bytes → Option Bytes × List Bytes
after_bytes xs (none, left) = (none, left)
after_bytes xs (some ys, left) = (some (xs ++ ys), left)

-- The loop of `recv_n`, on the bytes that are wanted still. A call of `recv` gives a segment, or
-- what is wanted of it.
unfoldable pub recv_from : ℕ → List Bytes → Option Bytes × List Bytes
recv_from n [] = if n == 0 then (some [], []) else (none, [])
recv_from n (xs ∷ xss) =
    let rest = after_bytes xs (recv_from (n - length xs) xss) in
    if n == 0
    then (some [], xs ∷ xss)
    else if is_empty xs
    then (none, xss)
    else if leb (length xs) n
    then rest
    else (some (take n xs), drop n xs ∷ xss)

-- The bytes read; `none` is SOCKET_ERROR.
unfoldable pub recv_n : ℕ → Socket → Option Bytes × Socket
unfolding recv_from
recv_n n s = let (read, left) = recv_from n s.segments in (read, record s { segments = left })
