-- ===== src/Relay/Buffers.antt =====
-- Windows/src/pb_relay.c: no buffer is lost or freed twice.
use proxy_bridge.Prelude.{
  ℕ, ◌+◌, ◌/◌, ◌≤◌, Bool, true, false, ◌≡◌, refl, sym, subst, inl, inr, [], ◌∷◌, Option, none, some,
  ltb, ◌==◌, Bytes, length, Bool-cases, arith,
}
use proxy_bridge.Relay.Steps.{at_rest}
use proxy_bridge.Relay.{
  RelayState, waiting, reading, sending, RelayDir, BufferPool, relay_pool_keep, relay_buf_get,
  relay_buf_put, relay_buf_size, Answers, Turned, relay_post_wait, read_into, relay_post_read,
  relay_post_send, Completion, failed, completed, content, after_read, advanced, after_send,
  turn_in, worker_turn,
}

-- Whether a direction holds a buffer.
abbrev pub holds : Option Bytes → ℕ
holds none = 0
holds (some buf) = 1

-- From a pool and a buffer that is held or not to those after a turn: what was allocated in between is
-- held, kept or freed; and the pool keeps no more than it may.
pub record Balances (buf : Option Bytes) (p : BufferPool) (buf' : Option Bytes) (q : BufferPool)
    : Type 0 where
  pub balance : q.allocated + (holds buf + at_rest p) ≡ p.allocated + (holds buf' + at_rest q)
  pub bound : p.kept ≤ relay_pool_keep → q.kept ≤ relay_pool_keep

Balances-refl : (buf : Option Bytes) (p : BufferPool) → Balances buf p buf p
Balances-refl buf p = record { balance = refl; bound = λ h. h }

pub put-Balances : (buf : Option Bytes) (p : BufferPool) → Balances buf p none (relay_buf_put buf p)
unfolding relay_buf_put
put-Balances none p = record { balance = refl; bound = λ h. h }
put-Balances (some buf) p = elim (Bool-cases (ltb p.kept relay_pool_keep)) [
  | inl room ↦ rw room (record { balance = omega arith; bound = λ h. ground arith })
  | inr full ↦ rw full (record { balance = omega arith; bound = λ h. h })
]

get-Balances :
    (malloc : Bool) (p : BufferPool) (bytes : Bytes)
    → (relay_buf_get malloc p).0 ≡ true
    → Balances none p (some bytes) (relay_buf_get malloc p).1
unfolding relay_buf_get
get-Balances malloc p bytes got = record { balance = ground arith; bound = λ h. ground arith }

get_failed-Balances :
    (malloc : Bool) (p : BufferPool)
    → (relay_buf_get malloc p).0 ≡ false
    → Balances none p none (relay_buf_get malloc p).1
unfolding relay_buf_get
get_failed-Balances malloc p out = record { balance = ground arith; bound = λ h. ground arith }

-- A read that is pending, and a send, has a buffer.
abbrev pub needs : RelayState → ℕ
needs waiting = 0
needs reading = 1
needs sending = 1

abbrev pub Equipped : RelayDir → Type 0
Equipped d = needs d.state ≤ holds d.buf

-- The buffer and the pool after a turn that starts with a buffer and a pool.
abbrev pub Swap : Option Bytes → BufferPool → Turned → Type 0
Swap buf p t = Balances buf p t.dir.buf t.pool × Equipped t.dir

holds_one : (buf : Option Bytes) → 1 ≤ holds buf → holds buf ≡ 1
holds_one none h = absurd (omega arith)
holds_one (some bytes) h = refl

read-Swap :
    (a : Answers) (d : RelayDir) (p : BufferPool) (buf : Option Bytes)
    → d.buf ≡ buf
    → Equipped d
    → Swap buf p (read_into a d buf p)
unfolding read_into
read-Swap a d p (some bytes) e h = rw e (Balances-refl (some bytes) p, omega arith)
read-Swap a d p none e h = elim (Bool-cases (relay_buf_get a.malloc p).0) [
  | inl got ↦ rw got (get-Balances a.malloc p [] got, omega arith)
  | inr out ↦ rw out (
    subst (λ x. Balances none p x (relay_buf_get a.malloc p).1) (sym e)
        (get_failed-Balances a.malloc p out),
    h,
  )
]

held_again :
    (buf : Option Bytes) (p : BufferPool) (bytes : Bytes)
    → holds buf ≡ 1
    → Balances buf p (some bytes) p
held_again buf p bytes h = record { balance = omega arith; bound = λ l. l }

after_send-Swap :
    (a : Answers) (d : RelayDir) (p : BufferPool) (n : ℕ)
    → 1 ≤ holds d.buf
    → Equipped d
    → Swap d.buf p (after_send a d p n)
unfolding after_send relay_post_send relay_post_wait relay_post_read
after_send-Swap a d p n full h =
    let bytes = content d.buf in
    elim (Bool-cases (n == 0)) [
      | inl z ↦ rw z (Balances-refl d.buf p, h)
      | inr z ↦ elim (Bool-cases (ltb (d.off + n) (length bytes))) [
        | inl more ↦ rw (z, more) (Balances-refl d.buf p, full)
        | inr all ↦ elim (Bool-cases (ltb (length bytes) (relay_buf_size / 4))) [
          | inl few ↦ rw (z, all, few) (put-Balances d.buf p, omega arith)
          | inr many ↦ rw (z, all, many) (read-Swap a (advanced d n) p d.buf refl h)
        ]
      ]
    ]

turn_in-Swap :
    (st : RelayState) (a : Answers) (d : RelayDir) (p : BufferPool) (bytes : Bytes)
    → needs st ≤ holds d.buf
    → Equipped d
    → Swap d.buf p (turn_in st a d p bytes)
unfolding turn_in relay_post_read after_read relay_post_send
turn_in-Swap waiting a d p bytes k h = read-Swap a d p d.buf refl h
turn_in-Swap reading a d p [] k h = (Balances-refl d.buf p, h)
turn_in-Swap reading a d p (x ∷ bytes) k h =
    (held_again d.buf p (x ∷ bytes) (holds_one d.buf k), omega arith)
turn_in-Swap sending a d p bytes k h = after_send-Swap a d p (length bytes) k h

pub worker_turn-Swap :
    (a : Answers) (d : RelayDir) (p : BufferPool) (c : Completion)
    → Equipped d
    → Swap d.buf p (worker_turn a d p c)
unfolding worker_turn
worker_turn-Swap a d p failed h = (Balances-refl d.buf p, h)
worker_turn-Swap a d p (completed bytes) h =
    turn_in-Swap d.state a (record d { pending = false }) p bytes h h

pub wait-Swap : (a : Answers) (d : RelayDir) (p : BufferPool) → Swap d.buf p (relay_post_wait a d p)
unfolding relay_post_wait
wait-Swap a d p = (put-Balances d.buf p, omega arith)
