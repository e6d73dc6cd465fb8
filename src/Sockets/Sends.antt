-- ===== src/Sockets/Sends.antt =====
-- Windows/src/pb_util.c: `send_all` sends just its bytes where it says so, and says so where each call
-- of `send` accepts something.
use proxy_bridge.Prelude.{
  take-drop, ℕ, zero, suc, ◌+◌, ◌≤◌, ◌<◌, true, false, ◌≡◌, refl, sym, ap, ◌∙◌, inl, inr, [], ◌∷◌,
  ◌++◌, append_assoc, append-nil, ◌==◌, Bytes, length, length-drop, take, drop, is_empty,
  Bool-cases, arith,
}
use Prim.Native.Nat.{min}
use proxy_bridge.Sockets.{Socket, send_from, send_all}

is_empty-nil : (xs : Bytes) → is_empty xs ≡ true → xs ≡ []
is_empty-nil [] h = refl
is_empty-nil (x ∷ xs) h = absurd (cc)

-- The socket after one turn.
abbrev turned : Bytes → Socket → Socket
turned buf s = record s {
  calls = s.calls + 1;
  sent = s.sent ++ take (min (s.accepts s.calls) (length buf)) buf;
}

abbrev rest_of : Bytes → Socket → Bytes
rest_of buf s = drop (min (s.accepts s.calls) (length buf)) buf

-- A send does not touch what comes in.
send_from-segments :
    (fuel : ℕ) (buf : Bytes) (s : Socket)
    → ((send_from fuel buf s).1.segments ≡ s.segments)
      × ((send_from fuel buf s).1.accepts ≡ s.accepts)
unfolding send_from
send_from-segments zero buf s = (refl, refl)
send_from-segments (suc fuel) buf s = elim (Bool-cases (is_empty buf)) [
  | inl e ↦ rw (e, send_from) (refl, refl)
  | inr e ↦ elim (Bool-cases (min (s.accepts s.calls) (length buf) == 0)) [
    | inl z ↦ rw (e, send_from, z) (refl, refl)
    | inr z ↦ rw (e, send_from, z) (send_from-segments fuel (rest_of buf s) (turned buf s))
  ]
]

send_from-sent :
    (fuel : ℕ) (buf : Bytes) (s : Socket)
    → (send_from fuel buf s).0 ≡ true
    → (send_from fuel buf s).1.sent ≡ s.sent ++ buf
unfolding send_from
send_from-sent zero buf s = λ h. rw (is_empty-nil buf h) (sym (append-nil s.sent))
send_from-sent (suc fuel) buf s = elim (Bool-cases (is_empty buf)) [
  | inl e ↦ rw (e, send_from) (λ h. rw (is_empty-nil buf e) (sym (append-nil s.sent)))
  | inr e ↦ elim (Bool-cases (min (s.accepts s.calls) (length buf) == 0)) [
    | inl z ↦ rw (e, send_from, z) (λ h. absurd (cc h))
    | inr z ↦
        rw (e, send_from, z)
          (λ h.
            send_from-sent fuel (rest_of buf s) (turned buf s) h
            ∙ append_assoc s.sent (take (min (s.accepts s.calls) (length buf)) buf) (rest_of buf s)
            ∙ ap (λ xs. s.sent ++ xs) (take-drop (min (s.accepts s.calls) (length buf)) buf))
  ]
]

empty_of : (buf : Bytes) → length buf ≤ 0 → is_empty buf ≡ true
empty_of [] h = refl
empty_of (x ∷ xs) h = absurd (omega arith)

longer : (buf : Bytes) → is_empty buf ≡ false → 0 < length buf
longer [] h = absurd (cc)
longer (x ∷ xs) h = omega arith

send_from-goes :
    (fuel : ℕ) (buf : Bytes) (s : Socket)
    → ((k : ℕ) → 0 < s.accepts k)
    → length buf ≤ fuel
    → (send_from fuel buf s).0 ≡ true
unfolding send_from
send_from-goes zero buf s open_ h = empty_of buf h
send_from-goes (suc fuel) buf s open_ h = elim (Bool-cases (is_empty buf)) [
  | inl e ↦ rw (e, send_from) refl
  | inr e ↦ elim (Bool-cases (min (s.accepts s.calls) (length buf) == 0)) [
    | inl z ↦ absurd (ground (arith, longer buf e, open_ s.calls))
    | inr z ↦
        rw (e, send_from, z)
          (send_from-goes fuel (rest_of buf s) (turned buf s) open_
            (ground (arith, length-drop (min (s.accepts s.calls) (length buf)) buf, longer buf e)))
  ]
]

pub send_all-segments : (buf : Bytes) (s : Socket) → (send_all buf s).1.segments ≡ s.segments
unfolding send_all
send_all-segments buf s = (send_from-segments (length buf) buf s).0

pub send_all-accepts : (buf : Bytes) (s : Socket) → (send_all buf s).1.accepts ≡ s.accepts
unfolding send_all
send_all-accepts buf s = (send_from-segments (length buf) buf s).1

pub send_all-sent :
    (buf : Bytes) (s : Socket) → (send_all buf s).0 ≡ true → (send_all buf s).1.sent ≡ s.sent ++ buf
unfolding send_all
send_all-sent buf s h = send_from-sent (length buf) buf s h

pub send_all-goes :
    (buf : Bytes) (s : Socket) → ((k : ℕ) → 0 < s.accepts k) → (send_all buf s).0 ≡ true
unfolding send_all
send_all-goes buf s open_ = send_from-goes (length buf) buf s open_ (omega arith)
