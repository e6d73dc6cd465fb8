-- ===== src/Dns/Snoop/Told.antt =====
-- Windows/src/pb_dns.c: what the caches answer after DNS messages have been snooped.
use proxy_bridge.Prelude.{
  ℕ, zero, suc, ◌+◌, ◌<◌, ◌≤◌, Bool, true, ◌&&◌, ◌≡◌, refl, sym, ap, subst, ◌-◌, ◌∙◌, ◌⊎◌, inl, inr,
  List, [], ◌∷◌, Option, none, some, ltb, leb, ◌==◌, ==_iff, Bytes, equal, equal_iff, length, All,
  u64, arith, Bool-cases,
}
use proxy_bridge.CText.{before}
use proxy_bridge.Dns.{DnsEntry, ttl, stored_name, dns_bucket, dns_bucket_v6, dns_cache_lookup}
use proxy_bridge.Dns.Entries.{Holds, dns_cache_store-Holds, dns_cache_lookup-Source}
use proxy_bridge.Dns.Names.{Parse, parsed, failed, no_fuel, dns_parse_name}
use proxy_bridge.Dns.Snoop.{
  DnsCaches, Moments, field, ip_at, ip6_at, store_record, Next, ends, answer, behind_name,
  next_answer, parse_answers, skip_questions, answers_at, after_question, is_answer,
  snoop_dns_response,
}

-- The name of the first question, up to its first NUL.
abbrev pub asked : Parse → Option Bytes
asked (parsed qname end) = some (before qname 0)
asked failed = none
asked no_fuel = none

-- An address that the bytes at a place of the message give, of so many bytes.
abbrev pub Gives : {Key : Type 0} → (Bytes → ℕ → Key) → ℕ → Bytes → Key → Type 0
Gives read n msg address = (at : ℕ) × (at + n ≤ length msg) × (read msg at ≡ address)

-- The entry comes from the message: it is a response without an error, its first question has the
-- name, and the address stands in it; the entry lives for five minutes from some moment.
abbrev pub From : {Key : Type 0} → (Bytes → ℕ → Key) → ℕ → Moments → Bytes → DnsEntry Key → Type 0
From read n m msg e =
    (is_answer msg ≡ true)
    × ((qname : Bytes) × (asked (dns_parse_name msg 256 12) ≡ some qname)
        × (stored_name qname ≡ e.domain))
    × Gives read n msg e.address
    × ((k : ℕ) × (u64 (m.tick k + ttl) ≡ e.expire_tick))

abbrev pub Snooped :
    {Key : Type 0} → (Bytes → ℕ → Key) → ℕ → List (Moments × Bytes) → DnsEntry Key → Type 0
Snooped read n [] e = ⊥
Snooped read n (s ∷ ss) e = From read n s.0 s.1 e ⊎ Snooped read n ss e

abbrev Kept : List (Moments × Bytes) → DnsCaches → Type 0
Kept ss c =
    Holds dns_bucket ◌==◌ (Snooped ip_at 4 ss) c.v4
    × Holds dns_bucket_v6 equal (Snooped ip6_at 16 ss) c.v6

-- The messages, the last one first, on empty caches.
unfoldable pub snoop_all : List (Moments × Bytes) → DnsCaches
snoop_all [] = record { v4 = λ slot. []; v6 = λ slot. [] }
snoop_all (s ∷ ss) = snoop_dns_response s.0 s.1 (snoop_all ss)

older :
    {Key : Type 0} (read : Bytes → ℕ → Key) (n : ℕ) (s : Moments × Bytes)
    (ss : List (Moments × Bytes)) (es : List (DnsEntry Key))
    → All (Snooped read n ss) es
    → All (Snooped read n (s ∷ ss)) es
older read n s ss [] all = tt
older read n s ss (e ∷ es) (h, all) = (inr h, older read n s ss es all)

-- An answer that lies within the message.
abbrev Within : Bytes → Next → Type 0
Within msg ends = Unit
Within msg (answer at) = at + 10 + field msg (at + 8) ≤ length msg

behind_name-Within : (msg : Bytes) (p : Parse) → Within msg (behind_name msg p)
unfolding behind_name
behind_name-Within msg failed = tt
behind_name-Within msg no_fuel = tt
behind_name-Within msg (parsed name at) = elim (Bool-cases (ltb (length msg) (at + 10))) [
  | inl a ↦ rw a tt
  | inr a ↦ elim (Bool-cases (ltb (length msg) (at + 10 + field msg (at + 8)))) [
    | inl b ↦ rw (a, b) tt
    | inr b ↦ rw (a, b) (ground arith)
  ]
]

next_answer-Within : (msg : Bytes) (offset : ℕ) → Within msg (next_answer msg offset)
unfolding next_answer
next_answer-Within msg offset = elim (Bool-cases (leb (length msg) offset)) [
  | inl a ↦ rw a tt
  | inr a ↦ rw a (behind_name-Within msg (dns_parse_name msg 256 offset))
]

last_size : (a b : Bool) (x n : ℕ) → (a && b && x == n) ≡ true → x ≡ n
last_size a b x n h = ground arith

name_of : (a b : Bytes) → some a ≡ some b → a ≡ b
name_of a b e = cc

module _ (m : Moments) (msg qname : Bytes) (ss : List (Moments × Bytes))
    (response : is_answer msg ≡ true) (named : asked (dns_parse_name msg 256 12) ≡ some qname) where
  store_record-Kept :
      (k at : ℕ) (c : DnsCaches)
      → at + 10 + field msg (at + 8) ≤ length msg
      → Kept ((m, msg) ∷ ss) c
      → Kept ((m, msg) ∷ ss) (store_record (m.malloc k) (m.tick k) qname msg at c)
  unfolding store_record
  store_record-Kept k at c l i =
      let a = field msg at == 1 && field msg (at + 2) == 1 && field msg (at + 8) == 4 in
      let b = field msg at == 28 && field msg (at + 2) == 1 && field msg (at + 8) == 16 in
      elim (Bool-cases a) [
        | inl h ↦
            let size : field msg (at + 8) ≡ 4 =
              last_size (field msg at == 1) (field msg (at + 2) == 1) (field msg (at + 8)) 4 h in
            rw h (
              dns_cache_store-Holds dns_bucket ◌==◌ (Snooped ip_at 4 ((m, msg) ∷ ss)) (m.malloc k)
                  (m.tick k) (ip_at msg (at + 10)) qname c.v4 (λ x y e. (==_iff x y).0 e)
                  (inl (response, (qname, named, refl), (at + 10, omega arith, refl), (k, refl)))
                  i.0,
              i.1,
            )
        | inr h ↦ elim (Bool-cases b) [
          | inl j ↦
              let size : field msg (at + 8) ≡ 16 =
                last_size (field msg at == 28) (field msg (at + 2) == 1) (field msg (at + 8)) 16
                  j in
              rw (h, j)
                (
                  i.0,
                  dns_cache_store-Holds dns_bucket_v6 equal (Snooped ip6_at 16 ((m, msg) ∷ ss))
                      (m.malloc k) (m.tick k) (ip6_at msg (at + 10)) qname c.v6
                      (λ x y e. (equal_iff x y).0 e)
                      (inl
                        (response, (qname, named, refl), (at + 10, omega arith, refl), (k, refl)))
                      i.1,
                )
          | inr j ↦ rw (h, j) i
        ]
      ]

  parse_answers-Kept :
      (k offset : ℕ) (c : DnsCaches)
      → Kept ((m, msg) ∷ ss) c
      → Kept ((m, msg) ∷ ss) (parse_answers m k qname msg offset c)
  unfolding parse_answers
  parse_answers-Kept zero offset c i = i
  parse_answers-Kept (suc k) offset c i =
      (elim (next_answer msg offset)
          as (λ t.
            Within msg t
            → Kept ((m, msg) ∷ ss) (elim t [
              | ends ↦ c
              | answer at ↦
                  parse_answers m k qname msg (at + 10 + field msg (at + 8))
                    (store_record (m.malloc k) (m.tick k) qname msg at c)
            ])) [
              | ends ↦ λ h. i
              | answer at ↦ λ h.
                  parse_answers-Kept k (at + 10 + field msg (at + 8)) _
                    (store_record-Kept k at c h i)
            ])
        (next_answer-Within msg offset)

  answers_at-Kept :
      (o : Option ℕ) (c : DnsCaches)
      → Kept ((m, msg) ∷ ss) c
      → Kept ((m, msg) ∷ ss) (answers_at m qname msg o c)
  unfolding answers_at
  answers_at-Kept none c i = i
  answers_at-Kept (some offset) c i = parse_answers-Kept (field msg 6) offset c i

  after_question-Kept :
      (p : Parse) (c : DnsCaches)
      → asked p ≡ asked (dns_parse_name msg 256 12)
      → Kept ((m, msg) ∷ ss) c
      → Kept ((m, msg) ∷ ss) (after_question m msg p c)
  unfolding after_question
  after_question-Kept failed c e i = i
  after_question-Kept no_fuel c e i = i
  after_question-Kept (parsed q end) c e i =
      let same_name : before q 0 ≡ qname = name_of (before q 0) qname (e ∙ named) in
      subst
        (λ n.
          Kept ((m, msg) ∷ ss)
            (answers_at m n msg (skip_questions (field msg 4 - 1) msg (end + 4)) c))
        (sym same_name) (answers_at-Kept (skip_questions (field msg 4 - 1) msg (end + 4)) c i)

question-Kept :
    (m : Moments) (msg : Bytes) (ss : List (Moments × Bytes)) (c : DnsCaches)
    → is_answer msg ≡ true
    → Kept ((m, msg) ∷ ss) c
    → (p : Parse) → p ≡ dns_parse_name msg 256 12
    → Kept ((m, msg) ∷ ss) (after_question m msg p c)
unfolding after_question
question-Kept m msg ss c r i (parsed q end) e =
    after_question-Kept m msg (before q 0) ss r (ap asked (sym e)) (parsed q end) c (ap asked e) i
question-Kept m msg ss c r i failed e = i
question-Kept m msg ss c r i no_fuel e = i

snoop-Kept :
    (m : Moments) (msg : Bytes) (ss : List (Moments × Bytes)) (c : DnsCaches)
    → Kept ((m, msg) ∷ ss) c
    → Kept ((m, msg) ∷ ss) (snoop_dns_response m msg c)
unfolding snoop_dns_response
snoop-Kept m msg ss c i = elim (Bool-cases (ltb (length msg) 12)) [
  | inl a ↦ rw a i
  | inr a ↦ elim (Bool-cases (is_answer msg)) [
    | inr b ↦ rw (a, b) i
    | inl b ↦ elim (Bool-cases (field msg 6 == 0)) [
      | inl d ↦ rw (a, b, d) i
      | inr d ↦ rw (a, b, d) (question-Kept m msg ss c b i (dns_parse_name msg 256 12) refl)
    ]
  ]
]

snoop_all-Kept : (ss : List (Moments × Bytes)) → Kept ss (snoop_all ss)
unfolding snoop_all
snoop_all-Kept [] = ((λ slot. tt), λ slot. tt)
snoop_all-Kept ((m, msg) ∷ ss) =
    let i = snoop_all-Kept ss in
    snoop-Kept m msg ss (snoop_all ss) (
      (λ slot. older ip_at 4 (m, msg) ss ((snoop_all ss).v4 slot) (i.0 slot)),
      λ slot. older ip6_at 16 (m, msg) ss ((snoop_all ss).v6 slot) (i.1 slot),
    )

-- Some message told the name for the address, less than the lifetime of an entry ago.
abbrev pub Told :
    {Key : Type 0} → (Bytes → ℕ → Key) → ℕ → ℕ → Key → Bytes → List (Moments × Bytes) → Type 0
Told read n now address name [] = ⊥
Told read n now address name (s ∷ ss) =
    ((is_answer s.1 ≡ true)
      × ((qname : Bytes) × (asked (dns_parse_name s.1 256 12) ≡ some qname)
          × (stored_name qname ≡ name))
      × Gives read n s.1 address
      × ((k : ℕ) × (now < s.0.tick k + ttl)))
    ⊎ Told read n now address name ss

Snooped-Told :
    {Key : Type 0} (read : Bytes → ℕ → Key) (n now : ℕ) (e : DnsEntry Key)
    (ss : List (Moments × Bytes))
    → now < e.expire_tick
    → Snooped read n ss e
    → Told read n now e.address e.domain ss
Snooped-Told read n now e [] l h = absurd h
Snooped-Told read n now e (s ∷ ss) l (inr h) = inr (Snooped-Told read n now e ss l h)
Snooped-Told read n now e (s ∷ ss) l (inl (r, q, g, (k, t))) = inl (r, q, g, (k, omega arith))

found_Told :
    {Key : Type 0} (read : Bytes → ℕ → Key) (n now : ℕ) (e : DnsEntry Key) (key : Key)
    (name : Bytes) (ss : List (Moments × Bytes))
    → e.address ≡ key
    → e.domain ≡ name
    → now < e.expire_tick
    → Snooped read n ss e
    → Told read n now key name ss
found_Told read n now e key name ss a d l h =
    subst (λ k. Told read n now k name ss) a
      (subst (λ x. Told read n now e.address x ss) d (Snooped-Told read n now e ss l h))

-- Whatever messages come in, with or without memory: a name that a cache answers for an address is the
-- name of the first question of one of the messages, up to its first NUL byte and cut to 255 bytes.
-- That message is a response without an error, it came less than five minutes before, and the bytes
-- of the address stand in it. It is so for IPv4 and for IPv6.
pub dns_cache_lookup-Snooped :
    (ss : List (Moments × Bytes)) (now : ℕ)
    → ((ip : ℕ) (name : Bytes)
        → dns_cache_lookup dns_bucket ◌==◌ now ip (snoop_all ss).v4 ≡ some name
        → Told ip_at 4 now ip name ss)
      × ((ip6 name : Bytes)
          → dns_cache_lookup dns_bucket_v6 equal now ip6 (snoop_all ss).v6 ≡ some name
          → Told ip6_at 16 now ip6 name ss)
dns_cache_lookup-Snooped ss now = (
  (λ ip name e.
      let (x, p, m, l, d) =
        dns_cache_lookup-Source dns_bucket ◌==◌ (Snooped ip_at 4 ss) (snoop_all ss).v4 now ip name
          (snoop_all-Kept ss).0 e in
      found_Told ip_at 4 now x ip name ss ((==_iff x.address ip).0 m) d l p),
  λ ip6 name e.
      let (x, p, m, l, d) =
        dns_cache_lookup-Source dns_bucket_v6 equal (Snooped ip6_at 16 ss) (snoop_all ss).v6 now ip6
          name (snoop_all-Kept ss).1 e in
      found_Told ip6_at 16 now x ip6 name ss ((equal_iff x.address ip6).0 m) d l p,
)
