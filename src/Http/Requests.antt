-- ===== src/Http/Requests.antt =====
-- Windows/src/pb_http.c: the request, as a proxy reads it.
use proxy_bridge.Prelude.{
  ℕ, zero, suc, ◌+◌, ◌-◌, ◌*◌, ◌/◌, ◌%◌, ◌^◌, ◌<◌, true, false, ◌||◌, ◌≡◌, refl, sym, ap, ◌∙◌, inl,
  inr, [], ◌∷◌, ◌++◌, Option, none, some, ltb, ◌==◌, if◌then◌else◌, Bytes, codes, append_assoc,
  append-nil, Bool-cases, arith, take, drop, equal,
}
use proxy_bridge.CText.{contains, before, behind, behind_last}
use proxy_bridge.CText.Number.{is_digit, digits_value}
use proxy_bridge.Http.{digits, decimal, crlf, request}

-- The text behind the last colon, and the text before it.
unfoldable pub before_last : Bytes → ℕ → Bytes
unfolding behind_last
before_last [] c = []
before_last (x ∷ xs) c =
    let rest = before_last xs c in
    elim (behind_last xs c) [ some t ↦ x ∷ rest | none ↦ if x == c then [] else x ∷ rest ]

-- The first line, which ends before a CR or an LF.
unfoldable pub first_line : Bytes → Bytes
unfolding before
first_line text = before (before text 13) 10

-- The authority of the request line: the method is CONNECT, and behind a space there is just HTTP/1.1.
unfoldable pub read_line : Bytes → Option Bytes
unfolding before behind
read_line line =
    let target = drop 8 line in
    if equal (take 8 line) (codes "CONNECT ")
    then elim (behind target b' ') [
      | none ↦ none
      | some version ↦ if equal version (codes "HTTP/1.1") then some (before target b' ') else none
    ]
    else none

unfoldable pub read_authority : Bytes → Option Bytes
unfolding read_line first_line
read_authority text = read_line (first_line text)

-- The host, and the value of the port.
unfoldable pub read_host : Bytes → Bytes × Option ℕ
unfolding before_last behind_last digits_value
read_host authority = (
  before_last authority b':',
  elim (behind_last authority b':') [ none ↦ none | some t ↦ some (digits_value 0 t) ],
)

digit_value :
    (acc d : ℕ) (rest : Bytes)
    → d < 10
    → digits_value acc ((b'0' + d) ∷ rest) ≡ digits_value (acc * 10 + d) rest
unfolding digits_value
digit_value acc d rest h =
    let e : is_digit (b'0' + d) ≡ true = ground arith in
    let v : b'0' + d - b'0' ≡ d = omega arith in rw (digits_value, e, v) refl

zero_more : (n : ℕ) → 0 * 10 + n ≡ n
zero_more n = omega arith

digits-value :
    (fuel n : ℕ) (rest : Bytes)
    → n < 10 ^ fuel
    → digits_value 0 (digits fuel n ++ rest) ≡ digits_value n rest
unfolding digits
digits-value zero n rest h = let e : n ≡ 0 = omega (arith, h) in rw e refl
digits-value (suc fuel) n rest h = elim (Bool-cases (ltb n 10)) [
  | inl e ↦
      rw e (digit_value 0 n rest (ground (arith, e)) ∙ ap (λ k. digits_value k rest) (zero_more n))
  | inr e ↦
      let less : n / 10 < 10 ^ fuel = omega (arith, h) in
      let whole : n / 10 * 10 + n % 10 ≡ n = omega arith in
      rw (e, append_assoc (digits fuel (n / 10)) ((b'0' + n % 10) ∷ []) rest)
        (digits-value fuel (n / 10) ((b'0' + n % 10) ∷ rest) less
          ∙ digit_value (n / 10) (n % 10) rest (omega arith)
          ∙ ap (λ k. digits_value k rest) whole)
]

-- A byte that is not a digit is in no number.
contains-append : (xs ys : Bytes) (c : ℕ) → contains (xs ++ ys) c ≡ (contains xs c || contains ys c)
unfolding contains
contains-append [] ys c = refl
contains-append (x ∷ xs) ys c = rw (contains-append xs ys c) (ground arith)

digits-contains : (fuel n c : ℕ) → is_digit c ≡ false → contains (digits fuel n) c ≡ false
unfolding digits contains
digits-contains zero n c h = refl
digits-contains (suc fuel) n c h = elim (Bool-cases (ltb n 10)) [
  | inl e ↦ rw e (ground arith)
  | inr e ↦
      rw
        (
          e,
          contains-append (digits fuel (n / 10)) ((b'0' + n % 10) ∷ []) c,
          digits-contains fuel (n / 10) c h,
        )
        (ground arith)
]

before-append : (xs rest : Bytes) (c : ℕ) → contains xs c ≡ false → before (xs ++ (c ∷ rest)) c ≡ xs
unfolding before contains
before-append [] rest c h = ground arith
before-append (x ∷ xs) rest c h =
    let e : (x == c) ≡ false = ground arith in
    let later : contains xs c ≡ false = ground arith in
    rw e (ap (λ l. x ∷ l) (before-append xs rest c later))

behind_last-none : (xs : Bytes) (c : ℕ) → contains xs c ≡ false → behind_last xs c ≡ none
unfolding behind_last contains
behind_last-none [] c h = refl
behind_last-none (x ∷ xs) c h =
    let e : (x == c) ≡ false = ground arith in
    let later : contains xs c ≡ false = ground arith in rw (behind_last-none xs c later, e) refl

behind_last-append :
    (xs ys : Bytes) (c : ℕ) → contains ys c ≡ false → behind_last (xs ++ (c ∷ ys)) c ≡ some ys
unfolding behind_last
behind_last-append [] ys c h =
    let e : (c == c) ≡ true = ground arith in rw (behind_last-none ys c h, e) refl
behind_last-append (x ∷ xs) ys c h = rw (behind_last-append xs ys c h) refl

before_last-append :
    (xs ys : Bytes) (c : ℕ) → contains ys c ≡ false → before_last (xs ++ (c ∷ ys)) c ≡ xs
unfolding before_last
before_last-append [] ys c h =
    let e : (c == c) ≡ true = ground arith in rw (before_last, behind_last-none ys c h, e) refl
before_last-append (x ∷ xs) ys c h =
    rw (before_last, behind_last-append xs ys c h) (ap (λ l. x ∷ l) (before_last-append xs ys c h))

before_all : (xs : Bytes) (c : ℕ) → contains xs c ≡ false → before xs c ≡ xs
unfolding before contains
before_all [] c h = refl
before_all (x ∷ xs) c h =
    let e : (x == c) ≡ false = ground arith in
    let later : contains xs c ≡ false = ground arith in
    rw e (ap (λ l. x ∷ l) (before_all xs c later))

behind-append :
    (xs rest : Bytes) (c : ℕ) → contains xs c ≡ false → behind (xs ++ (c ∷ rest)) c ≡ some rest
unfolding behind contains
behind-append [] rest c h = let e : (c == c) ≡ true = ground arith in rw e refl
behind-append (x ∷ xs) rest c h =
    let e : (x == c) ≡ false = ground arith in
    let later : contains xs c ≡ false = ground arith in rw e (behind-append xs rest c later)

-- The host and the port of the request line.
abbrev pub read_target : Option Bytes → Option (Bytes × Option ℕ)
read_target none = none
read_target (some authority) = some (read_host authority)

decimal-value : (n : ℕ) → n < 2 ^ 16 → digits_value 0 (decimal n) ≡ n
unfolding decimal digits_value
decimal-value n h =
    ap (λ l. digits_value 0 l) (sym (append-nil (digits 10 n))) ∙ digits-value 10 n [] (omega arith)

decimal-contains : (n c : ℕ) → is_digit c ≡ false → contains (decimal n) c ≡ false
unfolding decimal
decimal-contains n c h = digits-contains 10 n c h

read_host-authority :
    (host : Bytes) (port : ℕ)
    → port < 2 ^ 16
    → read_host (host ++ (b':' ∷ decimal port)) ≡ (host, some port)
unfolding read_host
read_host-authority host port p =
    let none_in = decimal-contains port b':' refl in
    rw
      (
        before_last-append host (decimal port) b':' none_in,
        behind_last-append host (decimal port) b':' none_in,
      )
      (ap (λ n. (host, some n)) (decimal-value port p))

authority-contains :
    (host : Bytes) (port c : ℕ)
    → contains host c ≡ false
    → contains (b':' ∷ decimal port) c ≡ false
    → contains (host ++ (b':' ∷ decimal port)) c ≡ false
authority-contains host port c h p = contains-append host (b':' ∷ decimal port) c ∙ rw (h, p) refl

-- The request line of an authority.
abbrev request_line : Bytes → Bytes
request_line authority = codes "CONNECT " ++ (authority ++ (b' ' ∷ codes "HTTP/1.1"))

line-contains :
    (authority : Bytes) (c : ℕ)
    → contains authority c ≡ false
    → contains (codes "CONNECT ") c ≡ false
    → contains (b' ' ∷ codes "HTTP/1.1") c ≡ false
    → contains (request_line authority) c ≡ false
line-contains authority c a method version =
    contains-append (codes "CONNECT ") (authority ++ (b' ' ∷ codes "HTTP/1.1")) c
    ∙ rw (method, contains-append authority (b' ' ∷ codes "HTTP/1.1") c, a, version) refl

first_line_lem :
    (line rest : Bytes)
    → contains line 13 ≡ false
    → contains line 10 ≡ false
    → first_line (line ++ (13 ∷ rest)) ≡ line
unfolding first_line
first_line_lem line rest cr lf =
    ap (λ l. before l 10) (before-append line rest 13 cr) ∙ before_all line 10 lf

read_line_lem :
    (authority : Bytes)
    → contains authority b' ' ≡ false
    → read_line (request_line authority) ≡ some authority
unfolding read_line
read_line_lem authority h =
    rw
      (
        behind-append authority (codes "HTTP/1.1") b' ' h,
        before-append authority (codes "HTTP/1.1") b' ' h,
      )
      refl

-- The request begins with its line.
request-line :
    (host : Bytes) (port : ℕ)
    → (rest : Bytes) × (request host port
        ≡ request_line (host ++ (b':' ∷ decimal port)) ++ (13 ∷ rest))
unfolding request
request-line host port =
    let authority = host ++ (b':' ∷ decimal port) in
    let rest =
      10
      ∷ (codes "Host: "
          ++ (authority ++ (crlf ++ (codes "Proxy-Connection: keep-alive" ++ (crlf ++ crlf))))) in
    (
      rest,
      ap (λ l. codes "CONNECT " ++ l)
          (sym (append_assoc authority (b' ' ∷ codes "HTTP/1.1") (13 ∷ rest))),
    )

-- A proxy that reads the request line of a CONNECT request, which ends at the first CR or LF, finds
-- the host and the port that were asked for and the version HTTP/1.1, whether the host is a name, an
-- IPv4 address or an IPv6 address in brackets. The host is to have no space, CR or LF, and the port is
-- to fit into 16 bits.
pub read_target-request :
    (host : Bytes) (port : ℕ)
    → contains host b' ' ≡ false
    → contains host 13 ≡ false
    → contains host 10 ≡ false
    → port < 2 ^ 16
    → read_target (read_authority (request host port)) ≡ some (host, some port)
unfolding read_authority contains
read_target-request host port sp cr lf p =
    let authority = host ++ (b':' ∷ decimal port) in
    let (rest, split) = request-line host port in
    let no_cr =
      line-contains authority 13
        (authority-contains host port 13 cr (decimal-contains port 13 refl)) refl refl in
    let no_lf =
      line-contains authority 10
        (authority-contains host port 10 lf (decimal-contains port 10 refl)) refl refl in
    let no_space = authority-contains host port b' ' sp (decimal-contains port b' ' refl) in
    let found : read_authority (request host port) ≡ some authority =
      ap (λ t. read_line (first_line t)) split
      ∙ ap read_line (first_line_lem (request_line authority) rest no_cr no_lf)
      ∙ read_line_lem authority no_space in
    ap read_target found ∙ ap some (read_host-authority host port p)
