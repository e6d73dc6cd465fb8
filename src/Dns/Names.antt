-- ===== src/Dns/Names.antt =====
-- Windows/src/pb_dns.c: `dns_parse_name`, which follows compression pointers, and its bounds.
use native.Mathlib.Nat.{add-mul}
use proxy_bridge.Prelude.{
  ℕ, zero, suc, ◌+◌, ◌-◌, ◌*◌, ◌%◌, ◌≤◌, ◌<◌, ◌≡◌, ap, ◌∙◌, inl, inr, [], ◌∷◌, ◌++◌, Option, none,
  some, ltb, leb, ◌==◌, if◌then◌else◌, Bytes, length, length-append, length-take, get_or, take,
  drop, is_empty, arith, Bool-cases,
}

-- The name and the new `*offset`; FALSE; or the fuel ran out.
pub data Parse : Type 0 where
  parsed : Bytes → ℕ → Parse
  failed no_fuel : Parse

-- The end of the name in the message: behind the first pointer, if one was followed.
abbrev pub end_of : Option ℕ → ℕ → ℕ
end_of none pos = pos + 1
end_of (some jumped_end) pos = jumped_end

-- `jumped_end` once a pointer at `pos` is followed.
abbrev pub jumped_from : Option ℕ → ℕ → ℕ
jumped_from none pos = pos + 2
jumped_from (some jumped_end) pos = jumped_end

-- The target of the pointer at `pos`.
abbrev pub target_of : Bytes → ℕ → ℕ
target_of msg pos = get_or msg pos 0 % 64 * 256 + get_or msg (pos + 1) 0

-- `dst` with the label behind `pos`.
abbrev pub with_label : Bytes → ℕ → Bytes → Bytes
with_label msg pos dst =
    (if is_empty dst then dst else dst ++ b'.' ∷ []) ++ take (get_or msg pos 0) (drop (pos + 1) msg)

-- What one turn of the loop comes to: the function returns, or it goes on at another place.
pub data Turn : Type 0 where
  returns : Parse → Turn
  goes_on : ℕ → Bytes → ℕ → Option ℕ → Turn

-- The body of the loop. `dst` is what has been written.
unfoldable pub turn : Bytes → ℕ → ℕ → Bytes → ℕ → Option ℕ → Turn
turn msg dst_len pos dst jumps jumped =
    let b = get_or msg pos 0 in
    if leb (length msg) pos
    then returns failed
    else if b == 0
    then returns (parsed dst (end_of jumped pos))
    else if leb 192 b
    then if leb (length msg) (pos + 1)
      then returns failed
      else if leb 10 jumps
      then returns failed
      else goes_on (target_of msg pos) dst (jumps + 1) (some (jumped_from jumped pos))
    else if ltb (length msg) (pos + 1 + b)
    then returns failed
    else if leb dst_len (length dst + b + 2)
    then returns failed
    else goes_on (pos + 1 + b) (with_label msg pos dst) jumps jumped

unfoldable pub parse_labels : ℕ → Bytes → ℕ → ℕ → Bytes → ℕ → Option ℕ → Parse
parse_labels zero msg dst_len pos dst jumps jumped = no_fuel
parse_labels (suc fuel) msg dst_len pos dst jumps jumped =
    elim (turn msg dst_len pos dst jumps jumped) [
      | returns r ↦ r
      | goes_on pos dst jumps jumped ↦ parse_labels fuel msg dst_len pos dst jumps jumped
    ]

-- At most ten pointers are followed, and each label moves on through the message.
abbrev pub steps_left : ℕ → ℕ → ℕ → ℕ
steps_left len pos jumps = (10 - jumps) * (len + 1) + (len - pos) + 1

unfoldable pub dns_parse_name : Bytes → ℕ → ℕ → Parse
dns_parse_name msg dst_len offset =
    parse_labels (steps_left (length msg) offset 0) msg dst_len offset [] 0 none

-- The result is one that the caller can use: the fuel was enough, the name with its final NUL fits,
-- and the new offset is behind the old one and not behind the end of the message.
abbrev pub InBounds : ℕ → ℕ → ℕ → Parse → Type 0
InBounds len dst_len start (parsed name offset) =
    (length name + 1 ≤ dst_len) × (start < offset) × (offset ≤ len)
InBounds len dst_len start failed = Unit
InBounds len dst_len start no_fuel = ⊥

-- Where the name ends, on the way: nothing has been followed yet, or the end is fixed.
abbrev pub Position : ℕ → ℕ → ℕ → Option ℕ → Type 0
Position len start pos none = start ≤ pos
Position len start pos (some jumped_end) = (start < jumped_end) × (jumped_end ≤ len)

end_bounds :
    (len start pos : ℕ) (jumped : Option ℕ)
    → pos < len
    → Position len start pos jumped
    → (start < end_of jumped pos) × (end_of jumped pos ≤ len)
end_bounds len start pos none l p = (omega arith, omega arith)
end_bounds len start pos (some j) l p = p

jump_bounds :
    (len start pos : ℕ) (jumped : Option ℕ)
    → pos + 1 < len
    → Position len start pos jumped
    → (start < jumped_from jumped pos) × (jumped_from jumped pos ≤ len)
jump_bounds len start pos none l p = (omega arith, omega arith)
jump_bounds len start pos (some j) l p = p

later_Position :
    (len start pos next : ℕ) (jumped : Option ℕ)
    → pos ≤ next
    → Position len start pos jumped
    → Position len start next jumped
later_Position len start pos next none l p = omega arith
later_Position len start pos next (some j) l p = p

length-with_label :
    (msg : Bytes) (pos : ℕ) (dst : Bytes)
    → length (with_label msg pos dst) ≤ length dst + get_or msg pos 0 + 1
length-with_label msg pos [] =
    let t = length-take (get_or msg pos 0) (drop (pos + 1) msg) in omega arith
length-with_label msg pos (x ∷ xs) =
    let label = take (get_or msg pos 0) (drop (pos + 1) msg) in
    let t = length-take (get_or msg pos 0) (drop (pos + 1) msg) in
    let a = length-append (xs ++ b'.' ∷ []) label in
    let d = length-append xs (b'.' ∷ []) in omega arith

times_next : (k n : ℕ) → (k + 1) * n ≡ k * n + n
times_next k n = omega (arith, add-mul k 1 n)

jump_steps :
    (len pos target jumps : ℕ)
    → jumps < 10
    → steps_left len target (jumps + 1) < steps_left len pos jumps
jump_steps len pos target jumps j =
    let k = 10 - (jumps + 1) in
    let e : 10 - jumps ≡ k + 1 = omega arith in
    let d : (10 - jumps) * (len + 1) ≡ k * (len + 1) + (len + 1) =
      ap (λ x. x * (len + 1)) e ∙ times_next k (len + 1) in
    omega arith

-- A turn returns within the bounds, or goes on with less left to do.
abbrev TurnOk : ℕ → ℕ → ℕ → ℕ → Turn → Type 0
TurnOk len dst_len start steps (returns r) = InBounds len dst_len start r
TurnOk len dst_len start steps (goes_on pos dst jumps jumped) =
    (steps_left len pos jumps < steps) × (length dst + 1 ≤ dst_len) × Position len start pos jumped

turn-TurnOk :
    (msg : Bytes) (dst_len start pos : ℕ) (dst : Bytes) (jumps : ℕ) (jumped : Option ℕ)
    → length dst + 1 ≤ dst_len
    → Position (length msg) start pos jumped
    → TurnOk
        (length msg)
        dst_len
        start
        (steps_left (length msg) pos jumps)
        (turn msg dst_len pos dst jumps jumped)
unfolding turn
turn-TurnOk msg dst_len start pos dst jumps jumped d p = elim (Bool-cases (leb (length msg) pos)) [
  | inl a ↦ rw a tt
  | inr a ↦
      let l : pos < length msg = ground arith in
      elim (Bool-cases (get_or msg pos 0 == 0)) [
        | inl b ↦ let (x, y) = end_bounds (length msg) start pos jumped l p in rw (a, b) (d, x, y)
        | inr b ↦ elim (Bool-cases (leb 192 (get_or msg pos 0))) [
          | inl c ↦ elim (Bool-cases (leb (length msg) (pos + 1))) [
            | inl e ↦ rw (a, b, c, e) tt
            | inr e ↦ elim (Bool-cases (leb 10 jumps)) [
              | inl f ↦ rw (a, b, c, e, f) tt
              | inr f ↦
                  rw (a, b, c, e, f)
                    (
                      jump_steps (length msg) pos (target_of msg pos) jumps (ground arith),
                      d,
                      jump_bounds (length msg) start pos jumped (ground arith) p,
                    )
            ]
          ]
          | inr c ↦ elim (Bool-cases (ltb (length msg) (pos + 1 + get_or msg pos 0))) [
            | inl e ↦ rw (a, b, c, e) tt
            | inr e ↦ elim (Bool-cases (leb dst_len (length dst + get_or msg pos 0 + 2))) [
              | inl f ↦ rw (a, b, c, e, f) tt
              | inr f ↦
                  let n = length-with_label msg pos dst in
                  let m : length dst + get_or msg pos 0 + 2 < dst_len = ground arith in
                  rw (a, b, c, e, f)
                    (
                      omega arith,
                      omega arith,
                      later_Position (length msg) start pos (pos + 1 + get_or msg pos 0) jumped
                          (omega arith) p,
                    )
            ]
          ]
        ]
      ]
]

-- Reading on from any place of the message.
parse_labels-InBounds :
    (fuel : ℕ) (msg : Bytes) (dst_len start pos : ℕ) (dst : Bytes) (jumps : ℕ) (jumped : Option ℕ)
    → steps_left (length msg) pos jumps ≤ fuel
    → length dst + 1 ≤ dst_len
    → Position (length msg) start pos jumped
    → InBounds (length msg) dst_len start (parse_labels fuel msg dst_len pos dst jumps jumped)
unfolding parse_labels
parse_labels-InBounds zero msg dst_len start pos dst jumps jumped f d p = absurd (omega arith)
parse_labels-InBounds (suc fuel) msg dst_len start pos dst jumps jumped f d p =
    (elim (turn msg dst_len pos dst jumps jumped)
        as (λ t.
          TurnOk (length msg) dst_len start (steps_left (length msg) pos jumps) t
          → InBounds (length msg) dst_len start (elim t [
            | returns r ↦ r
            | goes_on pos dst jumps jumped ↦ parse_labels fuel msg dst_len pos dst jumps jumped
          ])) [
            | returns r ↦ λ h. h
            | goes_on pos' dst' jumps' jumped' ↦ λ h.
                parse_labels-InBounds fuel msg dst_len start pos' dst' jumps' jumped'
                  (omega (arith, h.0)) h.1 h.2
          ])
      (turn-TurnOk msg dst_len start pos dst jumps jumped d p)

-- On any message, also one that is made to loop, the parser returns after at most ten pointers and
-- one pass over the message behind each; if it gives a name, the name and its final NUL fit into the
-- buffer, and the new offset is behind the old one and not behind the end of the message.
pub dns_parse_name-InBounds :
    (msg : Bytes) (dst_len offset : ℕ)
    → 0 < dst_len
    → InBounds (length msg) dst_len offset (dns_parse_name msg dst_len offset)
unfolding dns_parse_name
dns_parse_name-InBounds msg dst_len offset l =
    parse_labels-InBounds (steps_left (length msg) offset 0) msg dst_len offset offset [] 0 none
      (omega arith) (omega arith) (omega arith)
