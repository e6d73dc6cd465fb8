-- ===== src/Relay/Steps.antt =====
-- Windows/src/pb_relay.c: the two directions of a connection, how it ends, and the steps that the
-- threads take in any order.
use proxy_bridge.Prelude.{
  ℕ, ◌-◌, ◌+◌, ◌≤◌, Bool, true, false, ◌≡◌, [], none, some, ◌==◌, if◌then◌else◌,
}
use proxy_bridge.Relay.{
  RelayDir, waiting, BufferPool, relay_pool_keep, relay_buf_put, Answers, Turned, relay_post_wait,
  Completion, worker_turn,
}

-- The buffers of a pool that no direction holds.
abbrev pub at_rest : BufferPool → ℕ
at_rest p = p.kept + p.freed

pub data Side : Type 0 where
  upload download : Side

-- `RELAY_CONN` with the pool of buffers: both directions, how many are alive, whether the relay is
-- being aborted; whether it was freed; and how often its two sockets were closed.
pub record Relay : Type 0 where
  pub up : RelayDir
  pub down : RelayDir
  pub refs : ℕ
  pub closing : Bool
  pub freed : Bool
  pub closes : ℕ
  pub pool : BufferPool

abbrev pub new_dir : RelayDir
new_dir = record {
  state = waiting;
  buf = none;
  off = 0;
  unposted = true;
  pending = false;
  received = [];
  sent = [];
  shut = false;
}

-- The relay that `relay_start` has registered, before it posts the first operations.
unfoldable pub relay_start : BufferPool → Relay
relay_start pool = record {
  up = new_dir;
  down = new_dir;
  refs = 2;
  closing = false;
  freed = false;
  closes = 0;
  pool = pool;
}

abbrev pub dir_of : Side → Relay → RelayDir
dir_of upload r = r.up
dir_of download r = r.down

abbrev pub with_dir : Side → RelayDir → BufferPool → Relay → Relay
with_dir upload d pool r = record r { up = d; pool = pool }
with_dir download d pool r = record r { down = d; pool = pool }

-- `relay_abort`: both sockets are shut down, once.
unfoldable pub relay_abort : Relay → Relay
relay_abort r = record r { closing = true }

unfoldable pub relay_release : Relay → Relay
unfolding relay_buf_put
relay_release r =
    if r.refs - 1 == 0
    then record r {
      refs = 0;
      freed = true;
      closes = r.closes + 1;
      pool = relay_buf_put r.down.buf (relay_buf_put r.up.buf r.pool);
    }
    else record r { refs = r.refs - 1 }

-- The end of a direction is passed on to its destination.
abbrev pub shut_down : Side → Relay → Relay
shut_down upload r = record r { up = record r.up { shut = true } }
shut_down download r = record r { down = record r.down { shut = true } }

unfoldable pub relay_dir_end : Side → Bool → Relay → Relay
unfolding relay_abort relay_release
relay_dir_end side true r = relay_release (shut_down side r)
relay_dir_end side false r = relay_release (relay_abort r)

-- A direction after a turn is put back, and ends if it has to.
unfoldable pub put_back : Side → Turned → Relay → Relay
unfolding relay_dir_end
put_back side t r = elim t.ends [
  | none ↦ with_dir side t.dir t.pool r
  | some clean ↦ relay_dir_end side clean (with_dir side t.dir t.pool r)
]

-- A worker takes the completion of an operation of a direction.
unfoldable pub complete : Side → Answers → Completion → Relay → Relay
unfolding worker_turn put_back
complete side a c r = put_back side (worker_turn a (dir_of side r) r.pool c) r

-- `relay_start` posts the first operation of a direction.
unfoldable pub post_first : Side → Answers → Relay → Relay
unfolding relay_post_wait put_back
post_first side a r =
    put_back side (relay_post_wait a (record (dir_of side r) { unposted = false }) r.pool) r

-- One step of a thread: the starting thread posts for the upload and then for the download; a worker
-- takes a completion; other connections take buffers of the pool and give them back; and a relay that
-- is not freed may be aborted when the engine stops.
pub data Step (r : Relay) : Relay → Type 0 where
  post_upload : (a : Answers) → r.up.unposted ≡ true → Step r (post_first upload a r)
  post_download :
      (a : Answers)
      → r.up.unposted ≡ false
      → r.down.unposted ≡ true
      → Step r (post_first download a r)
  completes :
      (side : Side) (a : Answers) (c : Completion)
      → (dir_of side r).pending ≡ true
      → Step r (complete side a c r)
  exchanges :
      (q : BufferPool)
      → q.allocated + at_rest r.pool ≡ r.pool.allocated + at_rest q
      → q.kept ≤ relay_pool_keep
      → Step r (record r { pool = q })
  aborts : r.freed ≡ false → Step r (relay_abort r)

pub data Reach (start : Relay) : Relay → Type 0 where
  here : Reach start start
  next : {r s : Relay} → Reach start r → Step r s → Reach start s
