-- ===== src/Relay.antt =====
-- Windows/src/pb_relay.c: the relay of one connection by the workers on the completion port. What the
-- system completes, and whether it takes a new operation or has memory, is in the steps.
pub mod Steps
pub mod Streams
pub mod Buffers
pub mod Closing
pub mod Ends
pub mod Runs
use proxy_bridge.Prelude.{
  ℕ, ◌+◌, ◌-◌, ◌/◌, Bool, true, false, ◌&&◌, not, List, [], ◌∷◌, ◌++◌, Option, none, some, ltb,
  ◌==◌, if◌then◌else◌, Bytes, length, take, drop, is_empty,
}

abbrev pub relay_buf_size : ℕ
relay_buf_size = 65536

abbrev pub relay_pool_keep : ℕ
relay_pool_keep = 256

pub data RelayState : Type 0 where
  waiting reading sending : RelayState

-- `RELAY_DIR`: the `len` bytes of the buffer, if there is one, and `off`. Besides: whether the thread
-- that starts the relay has yet to post the first operation, whether an operation is pending, what
-- was received and what was sent so far, and whether the end was passed on.
pub record RelayDir : Type 0 where
  pub state : RelayState
  pub buf : Option Bytes
  pub off : ℕ
  pub unposted : Bool
  pub pending : Bool
  pub received : Bytes
  pub sent : Bytes
  pub shut : Bool

-- The free buffers that are kept, and how many were allocated and freed; those that other connections
-- hold are not counted.
pub record BufferPool : Type 0 where
  pub kept : ℕ
  pub allocated : ℕ
  pub freed : ℕ

unfoldable pub relay_buf_get : Bool → BufferPool → Bool × BufferPool
relay_buf_get malloc p =
    if ltb 0 p.kept
    then (true, record p { kept = p.kept - 1 })
    else (malloc, record p { allocated = if malloc then p.allocated + 1 else p.allocated })

unfoldable pub relay_buf_put : Option Bytes → BufferPool → BufferPool
relay_buf_put none p = p
relay_buf_put (some buf) p =
    if ltb p.kept relay_pool_keep
    then record p { kept = p.kept + 1 }
    else record p { freed = p.freed + 1 }

-- What the system answers in a turn: whether there is memory, and whether it takes the operation.
pub record Answers : Type 0 where
  pub malloc : Bool
  pub posted : Bool

-- A direction after a turn, and whether it ends, cleanly or not.
pub record Turned : Type 0 where
  pub dir : RelayDir
  pub pool : BufferPool
  pub ends : Option Bool

-- An operation is posted, or the direction ends.
abbrev pub post : Bool → RelayDir → BufferPool → Turned
post posted d pool = record {
  dir = record d { pending = posted };
  pool = pool;
  ends = if posted then none else some false;
}

unfoldable pub relay_post_wait : Answers → RelayDir → BufferPool → Turned
unfolding relay_buf_put
relay_post_wait a d pool =
    post a.posted (record d { buf = none; state = waiting }) (relay_buf_put d.buf pool)

-- The buffer that there is, or one from the pool.
unfoldable pub read_into : Answers → RelayDir → Option Bytes → BufferPool → Turned
unfolding relay_buf_get
read_into a d (some buf) pool = post a.posted (record d { state = reading }) pool
read_into a d none pool =
    let (got, q) = relay_buf_get a.malloc pool in
    if got
    then post a.posted (record d { buf = some []; state = reading }) q
    else record { dir = d; pool = q; ends = some false }

unfoldable pub relay_post_read : Answers → RelayDir → BufferPool → Turned
unfolding read_into
relay_post_read a d pool = read_into a d d.buf pool

unfoldable pub relay_post_send : Answers → RelayDir → BufferPool → Turned
relay_post_send a d pool = post a.posted (record d { state = sending }) pool

-- What a completion tells: a failure, or the bytes that were received, or as many as were sent.
pub data Completion : Type 0 where
  failed : Completion
  completed : Bytes → Completion

abbrev pub content : Option Bytes → Bytes
content none = []
content (some buf) = buf

abbrev pub stop : Bool → RelayDir → BufferPool → Turned
stop clean d pool = record { dir = d; pool = pool; ends = some clean }

-- The case RS_READ: the end, or bytes that are to be sent.
unfoldable pub after_read : Answers → RelayDir → BufferPool → Bytes → Turned
unfolding relay_post_send
after_read a d pool bytes =
    if is_empty bytes
    then stop true d pool
    else relay_post_send a (record d { buf = some bytes; off = 0; received = d.received ++ bytes })
        pool

-- The direction once `n` bytes more have been sent.
abbrev pub advanced : RelayDir → ℕ → RelayDir
advanced d n = record d { off = d.off + n; sent = d.sent ++ take n (drop d.off (content d.buf)) }

-- The case RS_SEND: the rest is sent, or the buffer is given back, or kept for the next read.
unfoldable pub after_send : Answers → RelayDir → BufferPool → ℕ → Turned
unfolding relay_post_send relay_post_wait relay_post_read
after_send a d pool n =
    let e = advanced d n in
    if n == 0
    then stop false d pool
    else if ltb (d.off + n) (length (content d.buf))
    then relay_post_send a e pool
    else if ltb (length (content d.buf)) (relay_buf_size / 4)
    then relay_post_wait a e pool
    else relay_post_read a e pool

-- The body of the loop of `relay_worker`, for a direction whose operation has completed.
unfoldable pub turn_in : RelayState → Answers → RelayDir → BufferPool → Bytes → Turned
unfolding relay_post_read after_read after_send
turn_in waiting a d pool bytes = relay_post_read a d pool
turn_in reading a d pool bytes = after_read a d pool bytes
turn_in sending a d pool bytes = after_send a d pool (length bytes)

unfoldable pub worker_turn : Answers → RelayDir → BufferPool → Completion → Turned
unfolding turn_in
worker_turn a d pool failed = stop false (record d { pending = false }) pool
worker_turn a d pool (completed bytes) = turn_in d.state a (record d { pending = false }) pool bytes
