-- ===== src/Socks/Replies.antt =====
-- Windows/src/pb_socks5.c: what a CONNECT makes of the bytes that the proxy sends.
use proxy_bridge.Prelude.{
  ℕ, ◌+◌, ◌≤◌, ◌<◌, Bool, true, false, ◌&&◌, ◌≡◌, refl, ◌∙◌, inl, inr, [], ◌∷◌, Option, none, some,
  leb, ◌==◌, if◌then◌else◌, subst, Bytes, length, take, drop, Bool-cases, arith,
}
use proxy_bridge.Sockets.{Socket, recv_n}
use proxy_bridge.Sockets.Streams.{joined, Flowing, short, full, recv_n-Receives, recv_n-sent}
use proxy_bridge.Socks.{drain, drain_domain, drain_bound, reply_after, socks5_read_connect_reply}

-- The bytes behind a number of others, if there are as many.
abbrev pub behind : ℕ → Bytes → Option Bytes
behind n bytes = if leb n (length bytes) then some (drop n bytes) else none

-- The bytes behind a domain with its length, and a port.
abbrev pub behind_domain : Bytes → Option Bytes
behind_domain [] = none
behind_domain (n ∷ bytes) = behind (n + 2) bytes

abbrev pub behind_bound : ℕ → Bytes → Option Bytes
behind_bound atyp bytes =
    if atyp == 1
    then behind 6 bytes
    else if atyp == 4
    then behind 18 bytes
    else if atyp == 3
    then behind_domain bytes
    else none

-- The bytes behind a reply of RFC 1928 that reports success.
abbrev pub behind_reply : Bytes → Option Bytes
behind_reply (ver ∷ rep ∷ rsv ∷ atyp ∷ bytes) =
    if ver == 5 && rep == 0 then behind_bound atyp bytes else none
behind_reply _ = none

-- The bytes behind the choice of no authentication.
abbrev pub behind_choice : Bytes → Option Bytes
behind_choice (ver ∷ method ∷ bytes) = if ver == 5 && method == 0 then some bytes else none
behind_choice _ = none

-- A socket on which a stream comes in, and what it has sent.
abbrev pub Comes : Bytes → Bytes → Socket → Type 0
Comes sent bytes s = (joined s.segments ≡ bytes) × Flowing s.segments × (s.sent ≡ sent)

-- What a step of the protocol makes of the stream, where it sends nothing.
abbrev pub Ends : Bytes → Option Bytes → Bool × Socket → Type 0
Ends sent none r = r.0 ≡ false
Ends sent (some rest) r = (r.0 ≡ true) × Comes sent rest r.1

leb_short : (a b : ℕ) → b < a → leb a b ≡ false
leb_short a b h = ground arith

leb_full : (a b : ℕ) → a ≤ b → leb a b ≡ true
leb_full a b h = ground arith

-- A read of a stream: what is read, and what comes in behind it.
pub data Taking (n : ℕ) (sent bytes : Bytes) (s : Socket) : Type 0 where
  lacking : length bytes < n → (recv_n n s).0 ≡ none → Taking n sent bytes s
  taking :
      n ≤ length bytes
      → (recv_n n s).0 ≡ some (take n bytes)
      → Comes sent (drop n bytes) (recv_n n s).1
      → Taking n sent bytes s

pub Comes-Taking :
    (n : ℕ) (sent bytes : Bytes) (s : Socket) → Comes sent bytes s → Taking n sent bytes s
Comes-Taking n sent bytes s (e, f, same) =
    subst (λ x. Taking n sent x s) e
      (elim (recv_n-Receives n s f) [
        | short h r ↦ lacking h r
        | full h r j g ↦ taking h r (j, g, (recv_n-sent n s).0 ∙ same)
      ])

drain-Ends :
    (n : ℕ) (sent bytes : Bytes) (s : Socket)
    → Comes sent bytes s
    → Ends sent (behind n bytes) (drain n s)
unfolding drain
drain-Ends n sent bytes s c = elim (Comes-Taking n sent bytes s c) [
  | lacking h e ↦ rw (leb_short n _ h, e) refl
  | taking h e d ↦ rw (leb_full n _ h, e) (refl, d)
]

domain-Ends :
    (sent bytes : Bytes) (s : Socket)
    → 1 ≤ length bytes
    → Comes sent (drop 1 bytes) s
    → Ends sent (behind_domain bytes) (drain_domain (some (take 1 bytes)) s)
unfolding drain_domain
domain-Ends sent [] s h c = absurd (omega arith)
domain-Ends sent (n ∷ bytes) s h c = drain-Ends (n + 2) sent bytes s c

behind_domain_short : (bytes : Bytes) → length bytes < 1 → behind_domain bytes ≡ none
behind_domain_short [] h = refl
behind_domain_short (n ∷ bytes) h = absurd (omega arith)

domain_read :
    (sent bytes : Bytes) (s : Socket)
    → Comes sent bytes s
    → Ends sent (behind_domain bytes) (drain_domain (recv_n 1 s).0 (recv_n 1 s).1)
unfolding drain_domain
domain_read sent bytes s c = elim (Comes-Taking 1 sent bytes s c) [
  | lacking h r ↦ rw (behind_domain_short bytes h, r, drain_domain) refl
  | taking h r d ↦ rw r (domain-Ends sent bytes _ h d)
]

bound-Ends :
    (atyp : ℕ) (sent bytes : Bytes) (s : Socket)
    → Comes sent bytes s
    → Ends sent (behind_bound atyp bytes) (drain_bound atyp s)
unfolding drain_bound
bound-Ends atyp sent bytes s c = elim (Bool-cases (atyp == 1)) [
  | inl one ↦ rw one (drain-Ends 6 sent bytes s c)
  | inr e ↦ elim (Bool-cases (atyp == 4)) [
    | inl four ↦ rw (e, four) (drain-Ends 18 sent bytes s c)
    | inr g ↦ elim (Bool-cases (atyp == 3)) [
      | inl three ↦ rw (e, g, three) (domain_read sent bytes s c)
      | inr h ↦ rw (e, g, h) refl
    ]
  ]
]

-- The result of a reply without the code that it reports.
abbrev pub verdict : (Bool × Option ℕ) × Socket → Bool × Socket
verdict r = (r.0.0, r.1)

reply-Ends :
    (sent bytes : Bytes) (s : Socket)
    → 4 ≤ length bytes
    → Comes sent (drop 4 bytes) s
    → Ends sent (behind_reply bytes) (verdict (reply_after (some (take 4 bytes)) s))
unfolding reply_after
reply-Ends sent (ver ∷ rep ∷ rsv ∷ atyp ∷ bytes) s h c = elim (Bool-cases (ver == 5 && rep == 0)) [
  | inl e ↦ rw e (bound-Ends atyp sent bytes s c)
  | inr e ↦ rw e refl
]
reply-Ends sent [] s h c = absurd (omega arith)
reply-Ends sent (_ ∷ []) s h c = absurd (omega arith)
reply-Ends sent (_ ∷ _ ∷ []) s h c = absurd (omega arith)
reply-Ends sent (_ ∷ _ ∷ _ ∷ []) s h c = absurd (omega arith)

behind_reply_short : (bytes : Bytes) → length bytes < 4 → behind_reply bytes ≡ none
behind_reply_short (ver ∷ rep ∷ rsv ∷ atyp ∷ bytes) h = absurd (omega arith)
behind_reply_short [] h = refl
behind_reply_short (_ ∷ []) h = refl
behind_reply_short (_ ∷ _ ∷ []) h = refl
behind_reply_short (_ ∷ _ ∷ _ ∷ []) h = refl

pub read_reply-Ends :
    (sent bytes : Bytes) (s : Socket)
    → Comes sent bytes s
    → Ends sent (behind_reply bytes) (verdict (socks5_read_connect_reply s))
unfolding socks5_read_connect_reply
read_reply-Ends sent bytes s c = elim (Comes-Taking 4 sent bytes s c) [
  | lacking h r ↦ rw (behind_reply_short bytes h, r, reply_after) refl
  | taking h r d ↦ rw r (reply-Ends sent bytes _ h d)
]
