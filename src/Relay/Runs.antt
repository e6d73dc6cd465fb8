-- ===== src/Relay/Runs.antt =====
-- Windows/src/pb_relay.c: a relay over all the orders in which its threads take their steps.
use proxy_bridge.Prelude.{
  ◌+◌, ◌≤◌, ◌<◌, true, false, ◌||◌, ◌≡◌, refl, ◌⊎◌, inl, inr, ◌++◌, Bool-cases, arith,
}
use proxy_bridge.Relay.{
  RelayDir, BufferPool, relay_pool_keep, Answers, Turned, relay_post_wait, Completion, worker_turn,
}
use proxy_bridge.Relay.Streams.{unsent, worker_turn-Flows, first-Flows}
use proxy_bridge.Relay.Buffers.{worker_turn-Swap, wait-Swap}
use proxy_bridge.Relay.Steps.{
  at_rest, Side, upload, download, Relay, new_dir, dir_of, relay_abort, put_back, relay_start,
  complete, post_first, Step, post_upload, post_download, completes, aborts, exchanges, Reach, here,
  next,
}
use proxy_bridge.Relay.Closing.{alive, DirInv, Holding, Gone, RelayInv}
use proxy_bridge.Relay.Ends.{Fed, abort-dirs, put_back-RelayInv}

-- A direction that is alive belongs to a relay that is not freed.
none_alive : (side : Side) (r : Relay) → Gone r → alive (dir_of side r) ≡ true → ⊥
none_alive upload r g h = cc (g.up_over, h)
none_alive download r g h = cc (g.down_over, h)

-- A turn of a direction that is alive.
turn-RelayInv :
    (side : Side) (d : RelayDir) (t : Turned) (r : Relay)
    → RelayInv r
    → Fed (dir_of side r) d r.pool t
    → RelayInv (put_back side t r)
turn-RelayInv side d t r i f = elim i.lives [
  | inl (h, some_left) ↦ put_back-RelayInv side d t r i h some_left f
  | inr g ↦ absurd (none_alive side r g f.live)
]

complete-RelayInv :
    (side : Side) (a : Answers) (c : Completion) (r : Relay)
    → RelayInv r
    → (dir_of side r).pending ≡ true
    → RelayInv (complete side a c r)
unfolding complete
complete-RelayInv side a c r i p =
    let d = dir_of side r in
    let j = i.dirs side in
    turn-RelayInv side d (worker_turn a d r.pool c) r i (record {
      live = rw p refl;
      same_shut = refl;
      in_use = ground (arith, j.one, p);
      same_buf = refl;
      flows = worker_turn-Flows a d r.pool c j.stream;
      turned = worker_turn-Swap a d r.pool c j.equipped;
    })

post_first-RelayInv :
    (side : Side) (a : Answers) (r : Relay)
    → RelayInv r
    → (dir_of side r).unposted ≡ true
    → RelayInv (post_first side a r)
unfolding post_first
post_first-RelayInv side a r i u =
    let d = record (dir_of side r) { unposted = false } in
    let j = i.dirs side in
    turn-RelayInv side d (relay_post_wait a d r.pool) r i (record {
      live = ground (arith, u);
      same_shut = refl;
      in_use = refl;
      same_buf = refl;
      flows = first-Flows a d r.pool (j.fresh u);
      turned = wait-Swap a d r.pool;
    })

abort-RelayInv : (r : Relay) → RelayInv r → RelayInv (relay_abort r)
unfolding relay_abort
abort-RelayInv r i = record {
  dirs = abort-dirs r i.dirs;
  bound = i.bound;
  lives = elim i.lives [
    | inl (h, l) ↦ inl (
      record { here = h.here; counted = h.counted; unclosed = h.unclosed; balance = h.balance },
      l,
    )
    | inr g ↦ inr (record {
      freed = g.freed;
      up_over = g.up_over;
      down_over = g.down_over;
      closed = g.closed;
      balance = g.balance;
    })
  ];
}

pool-dirs :
    (q : BufferPool) (r : Relay)
    → ((x : Side) → DirInv (dir_of x r))
    → (x : Side) → DirInv (dir_of x (record r { pool = q }))
pool-dirs q r dirs upload = dirs upload
pool-dirs q r dirs download = dirs download

-- Other connections take buffers from the pool and give them back.
exchange-RelayInv :
    (q : BufferPool) (r : Relay)
    → RelayInv r
    → q.allocated + at_rest r.pool ≡ r.pool.allocated + at_rest q
    → q.kept ≤ relay_pool_keep
    → RelayInv (record r { pool = q })
exchange-RelayInv q r i e l = record {
  dirs = pool-dirs q r i.dirs;
  bound = l;
  lives = elim i.lives [
    | inl (h, some_left) ↦ inl (
      record {
        here = h.here;
        counted = h.counted;
        unclosed = h.unclosed;
        balance = omega (arith, h.balance, e);
      },
      some_left,
    )
    | inr g ↦ inr (record {
      freed = g.freed;
      up_over = g.up_over;
      down_over = g.down_over;
      closed = g.closed;
      balance = omega (arith, g.balance, e);
    })
  ];
}

Step-RelayInv : {r s : Relay} → Step r s → RelayInv r → RelayInv s
Step-RelayInv {r} (post_upload a u) i = post_first-RelayInv upload a r i u
Step-RelayInv {r} (post_download a v u) i = post_first-RelayInv download a r i u
Step-RelayInv {r} (completes side a c p) i = complete-RelayInv side a c r i p
Step-RelayInv {r} (aborts f) i = abort-RelayInv r i
Step-RelayInv {r} (exchanges q e l) i = exchange-RelayInv q r i e l

Reach-RelayInv : {r s : Relay} → RelayInv r → Reach r s → RelayInv s
Reach-RelayInv i here = i
Reach-RelayInv i (next run step) = Step-RelayInv step (Reach-RelayInv i run)

new_dir-DirInv : DirInv new_dir
new_dir-DirInv = record {
  stream = refl;
  equipped = omega arith;
  one = refl;
  fresh = λ h. refl;
  whole = λ h. refl;
  over = λ h. absurd (cc h);
}

new_dirs : (pool : BufferPool) (side : Side) → DirInv (dir_of side (relay_start pool))
unfolding relay_start
new_dirs pool upload = new_dir-DirInv
new_dirs pool download = new_dir-DirInv

start-RelayInv :
    (pool : BufferPool)
    → pool.allocated ≡ at_rest pool
    → pool.kept ≤ relay_pool_keep
    → RelayInv (relay_start pool)
unfolding relay_start
start-RelayInv pool balance bound = record {
  dirs = new_dirs pool;
  bound = bound;
  lives =
      inl (
        record { here = refl; counted = refl; unclosed = refl; balance = omega arith },
        omega arith,
      );
}

-- In each direction and at any time, whatever the system completes or refuses, and in whatever order
-- the threads take their steps: what was received from one end is what was sent to the other and what
-- the buffer still holds to be sent, in this order. Where the end of a stream was passed on, all that
-- was received had been sent, and nothing of the direction is pending.
pub Reach-Streams :
    (pool : BufferPool) {r : Relay} (side : Side)
    → pool.allocated ≡ at_rest pool
    → pool.kept ≤ relay_pool_keep
    → Reach (relay_start pool) r
    → let d = dir_of side r in
      (d.received ≡ d.sent ++ unsent d)
      × ((d.shut ≡ false) ⊎ ((d.received ≡ d.sent) × (alive d ≡ false)))
Reach-Streams pool {r} side balance bound run =
    let i = (Reach-RelayInv (start-RelayInv pool balance bound) run).dirs side in
    (
      i.stream,
      elim (Bool-cases (dir_of side r).shut) [ inl h ↦ inr (i.whole h, i.over h) | inr h ↦ inl h ],
    )

some_alive : (r : Relay) → Holding 0 r → 0 < r.refs → (alive r.up || alive r.down) ≡ true
some_alive r h l = ground (arith, h.counted)

-- A relay that is freed has no operation that is pending or still to be posted, so none completes on
-- freed memory; its two sockets were closed just once; and of the buffers that were allocated, each
-- is kept in the pool or was freed, and that once. One that is not freed has not closed them, and has
-- a direction that is alive. The pool never keeps more than 256 buffers.
pub Reach-Closed :
    (pool : BufferPool) {r : Relay}
    → pool.allocated ≡ at_rest pool
    → pool.kept ≤ relay_pool_keep
    → Reach (relay_start pool) r
    → (r.pool.kept ≤ relay_pool_keep)
      × (((r.freed ≡ false) × (r.closes ≡ 0) × ((alive r.up || alive r.down) ≡ true))
          ⊎ ((r.freed ≡ true)
              × (r.closes ≡ 1)
              × ((alive r.up || alive r.down) ≡ false)
              × (r.pool.allocated ≡ at_rest r.pool)))
Reach-Closed pool {r} balance bound run =
    let i = Reach-RelayInv (start-RelayInv pool balance bound) run in
    (
      i.bound,
      elim i.lives [
        | inl (h, l) ↦ inl (h.here, h.unclosed, some_alive r h l)
        | inr g ↦ inr (g.freed, g.closed, rw (g.up_over, g.down_over) refl, g.balance)
      ],
    )
