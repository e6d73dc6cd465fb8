-- ===== src/Relay/Streams.antt =====
-- Windows/src/pb_relay.c: a direction of a relay sends on just what it received, in its order.
use proxy_bridge.Prelude.{
  ℕ, ◌+◌, ◌/◌, Bool, true, false, ◌≡◌, refl, sym, ap, ◌∙◌, inl, inr, [], ◌∷◌, ◌++◌, take-drop,
  drop-drop, drop_past, append-nil, append_assoc, Option, none, some, ltb, ◌==◌, Bytes, length,
  take, drop, Bool-cases, arith,
}
use proxy_bridge.Relay.{
  RelayState, waiting, reading, sending, RelayDir, BufferPool, relay_buf_get, relay_buf_put,
  relay_buf_size, Answers, Turned, post, stop, relay_post_wait, read_into, relay_post_read,
  relay_post_send, Completion, failed, completed, content, after_read, advanced, after_send,
  turn_in, worker_turn,
}

-- What was received and is still to be sent.
abbrev pub unsent_in : RelayState → ℕ → Bytes → Bytes
unsent_in waiting off bytes = []
unsent_in reading off bytes = []
unsent_in sending off bytes = drop off bytes

abbrev pub unsent : RelayDir → Bytes
unsent d = unsent_in d.state d.off (content d.buf)

abbrev pub goes_on : Option Bool → Bool
goes_on none = true
goes_on (some clean) = false

-- A turn of a direction whose operation has completed: what was received is what was sent and what is
-- still to be sent; an operation is pending again or the direction ends; and where it ends cleanly,
-- all was sent.
pub record Flows (d : RelayDir) (t : Turned) : Type 0 where
  pub stream : t.dir.received ≡ t.dir.sent ++ unsent t.dir
  pub shut : t.dir.shut ≡ d.shut
  pub unposted : t.dir.unposted ≡ d.unposted
  pub alive : t.dir.pending ≡ goes_on t.ends
  pub clean : t.ends ≡ some true → t.dir.received ≡ t.dir.sent

post-Flows :
    (posted : Bool) (d e : RelayDir) (p : BufferPool)
    → e.received ≡ e.sent ++ unsent e
    → e.shut ≡ d.shut
    → e.unposted ≡ d.unposted
    → Flows d (post posted e p)
post-Flows true d e p h s u = record {
  stream = h;
  shut = s;
  unposted = u;
  alive = refl;
  clean = λ q. absurd (cc q);
}
post-Flows false d e p h s u = record {
  stream = h;
  shut = s;
  unposted = u;
  alive = refl;
  clean = λ q. absurd (cc q);
}

stop-Flows :
    (d e : RelayDir) (p : BufferPool)
    → e.received ≡ e.sent ++ unsent e
    → e.shut ≡ d.shut
    → e.unposted ≡ d.unposted
    → e.pending ≡ false
    → Flows d (stop false e p)
stop-Flows d e p h s u off = record {
  stream = h;
  shut = s;
  unposted = u;
  alive = off;
  clean = λ q. absurd (cc q);
}

-- All that was received has been sent.
abbrev Done : RelayDir → Type 0
Done d = d.received ≡ d.sent

no_more : (d : RelayDir) → Done d → d.received ≡ d.sent ++ []
no_more d h = h ∙ sym (append-nil d.sent)

all_sent : (d : RelayDir) → d.received ≡ d.sent ++ [] → Done d
all_sent d h = h ∙ append-nil d.sent

wait-Flows :
    (a : Answers) (d e : RelayDir) (p : BufferPool)
    → Done e
    → e.shut ≡ d.shut
    → e.unposted ≡ d.unposted
    → Flows d (relay_post_wait a e p)
unfolding relay_post_wait
wait-Flows a d e p h s u =
    post-Flows a.posted d (record e { buf = none; state = waiting }) (relay_buf_put e.buf p)
      (no_more e h) s u

-- A read needs a buffer; where there is none, the direction is left as it is.
read-Flows :
    (a : Answers) (d e : RelayDir) (p : BufferPool) (buf : Option Bytes)
    → Done e
    → e.received ≡ e.sent ++ unsent e
    → e.shut ≡ d.shut
    → e.unposted ≡ d.unposted
    → e.pending ≡ false
    → Flows d (read_into a e buf p)
unfolding read_into
read-Flows a d e p (some buf) h l s u off =
    post-Flows a.posted d (record e { state = reading }) p (no_more e h) s u
read-Flows a d e p none h l s u off = elim (Bool-cases (relay_buf_get a.malloc p).0) [
  | inl got ↦ rw got (
      post-Flows a.posted d (record e { buf = some []; state = reading })
        (relay_buf_get a.malloc p).1 (no_more e h) s u)
  | inr out ↦ rw out (stop-Flows d e (relay_buf_get a.malloc p).1 l s u off)
]

after_read-Flows :
    (a : Answers) (d : RelayDir) (p : BufferPool) (bytes : Bytes)
    → Done d
    → d.received ≡ d.sent ++ unsent d
    → d.pending ≡ false
    → Flows d (after_read a d p bytes)
unfolding after_read relay_post_send
after_read-Flows a d p [] h l off = record {
  stream = l;
  shut = refl;
  unposted = refl;
  alive = off;
  clean = λ q. h;
}
after_read-Flows a d p (x ∷ bytes) h l off =
    post-Flows a.posted d
      (record d {
        buf = some (x ∷ bytes);
        off = 0;
        received = d.received ++ x ∷ bytes;
        state = sending;
      })
      p (ap (λ xs. xs ++ x ∷ bytes) h) refl refl

-- What is left once `n` bytes more have been sent.
advanced_lem :
    (d : RelayDir) (n : ℕ)
    → d.received ≡ d.sent ++ drop d.off (content d.buf)
    → d.received ≡ (advanced d n).sent ++ drop (d.off + n) (content d.buf)
advanced_lem d n h =
    let left = drop d.off (content d.buf) in
    h
    ∙ ap (λ xs. d.sent ++ xs)
        (sym (take-drop n left) ∙ ap (λ xs. take n left ++ xs) (drop-drop d.off n (content d.buf)))
    ∙ sym (append_assoc d.sent (take n left) (drop (d.off + n) (content d.buf)))

unsent_sending :
    (d : RelayDir) (off : ℕ)
    → d.state ≡ sending
    → unsent_in d.state off (content d.buf) ≡ drop off (content d.buf)
unsent_sending d off st = rw st refl

after_send-Flows :
    (a : Answers) (d : RelayDir) (p : BufferPool) (n : ℕ)
    → d.state ≡ sending
    → d.received ≡ d.sent ++ unsent d
    → d.pending ≡ false
    → Flows d (after_send a d p n)
unfolding after_send relay_post_send relay_post_read
after_send-Flows a d p n st l off =
    let bytes = content d.buf in
    let e = advanced d n in
    let h : d.received ≡ e.sent ++ drop (d.off + n) bytes =
      advanced_lem d n (l ∙ ap (λ xs. d.sent ++ xs) (unsent_sending d d.off st)) in
    elim (Bool-cases (n == 0)) [
      | inl z ↦ rw z (stop-Flows d d p l refl refl off)
      | inr z ↦ elim (Bool-cases (ltb (d.off + n) (length bytes))) [
        | inl more ↦
            rw (z, more) (post-Flows a.posted d (record e { state = sending }) p h refl refl)
        | inr all ↦
            let nothing : drop (d.off + n) bytes ≡ [] =
              drop_past (d.off + n) bytes (ground arith) in
            let done : Done e = h ∙ ap (λ xs. e.sent ++ xs) nothing ∙ append-nil e.sent in
            elim (Bool-cases (ltb (length bytes) (relay_buf_size / 4))) [
              | inl few ↦ rw (z, all, few) (wait-Flows a d e p done refl refl)
              | inr many ↦
                  rw (z, all, many)
                    (read-Flows a d e p d.buf done
                      (h ∙ ap (λ xs. e.sent ++ xs) (sym (unsent_sending d (d.off + n) st))) refl
                      refl off)
            ]
      ]
    ]

-- The state of a direction while an operation of it is pending.
abbrev IsIn : RelayState → RelayDir → Type 0
IsIn st d = (d.state ≡ st) × (d.received ≡ d.sent ++ unsent d) × (d.pending ≡ false)

idle_lem :
    (st : RelayState) (d : RelayDir) → IsIn st d → unsent_in st d.off (content d.buf) ≡ [] → Done d
idle_lem st d (e, l, off) none_left =
    l
    ∙ ap (λ s. d.sent ++ unsent_in s d.off (content d.buf)) e
    ∙ ap (λ xs. d.sent ++ xs) none_left
    ∙ append-nil d.sent

turn_in-Flows :
    (st : RelayState) (a : Answers) (d : RelayDir) (p : BufferPool) (bytes : Bytes)
    → IsIn st d
    → Flows d (turn_in st a d p bytes)
unfolding turn_in relay_post_read
turn_in-Flows waiting a d p bytes i =
    read-Flows a d d p d.buf (idle_lem waiting d i refl) i.1 refl refl i.2
turn_in-Flows reading a d p bytes i =
    after_read-Flows a d p bytes (idle_lem reading d i refl) i.1 i.2
turn_in-Flows sending a d p bytes i = after_send-Flows a d p (length bytes) i.0 i.1 i.2

was_pending : (d : RelayDir) (t : Turned) → Flows (record d { pending = false }) t → Flows d t
was_pending d t f = record {
  stream = f.stream;
  shut = f.shut;
  unposted = f.unposted;
  alive = f.alive;
  clean = f.clean;
}

-- The turn of a worker on any completion.
pub worker_turn-Flows :
    (a : Answers) (d : RelayDir) (p : BufferPool) (c : Completion)
    → d.received ≡ d.sent ++ unsent d
    → Flows d (worker_turn a d p c)
unfolding worker_turn
worker_turn-Flows a d p failed l = stop-Flows d (record d { pending = false }) p l refl refl refl
worker_turn-Flows a d p (completed bytes) l =
    was_pending d _ (turn_in-Flows d.state a (record d { pending = false }) p bytes (refl, l, refl))

-- The first operation of a direction, which has received nothing.
pub first-Flows :
    (a : Answers) (d : RelayDir) (p : BufferPool)
    → d.received ≡ d.sent
    → Flows d (relay_post_wait a d p)
first-Flows a d p h = wait-Flows a d d p h refl refl
