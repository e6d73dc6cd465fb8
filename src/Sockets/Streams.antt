-- ===== src/Sockets/Streams.antt =====
-- Windows/src/pb_util.c: a socket as a stream of bytes, however it is cut into segments.
use proxy_bridge.Prelude.{
  ℕ, zero, suc, ◌-◌, ◌≤◌, ◌<◌, false, ◌≡◌, refl, ap, ◌∙◌, inl, inr, List, [], ◌∷◌, ◌++◌, Option,
  none, some, leb, ◌==◌, if◌then◌else◌, Bytes, length, length-append, take, drop, is_empty, All,
  subst, ==_iff, length-drop, Bool-cases, arith,
}
use proxy_bridge.Sockets.{Socket, after_bytes, recv_from, recv_n}

-- The bytes that come in.
abbrev pub joined : List Bytes → Bytes
joined [] = []
joined (xs ∷ xss) = xs ++ joined xss

-- Nothing fails before the peer closes.
abbrev pub Flowing : List Bytes → Type 0
Flowing segments = All (λ xs. 0 < length xs) segments

-- The first `n` bytes of a stream and the others, if there are as many.
unfoldable pub cut : ℕ → Bytes → Option (Bytes × Bytes)
cut n bytes = if leb n (length bytes) then some (take n bytes, drop n bytes) else none

-- What a read leaves, against what it is to give and to leave of the stream.
abbrev pub Reads : {A : Type 0} → Option (A × Bytes) → Option A → List Bytes → Type 0
Reads none r left = r ≡ none
Reads (some (a, rest)) r left = (r ≡ some a) × (joined left ≡ rest) × Flowing left

suc_sub : (n m : ℕ) → suc n - suc m ≡ n - m
suc_sub n m = omega arith

pub take-append :
    (xs ys : Bytes) (n : ℕ) → length xs ≤ n → take n (xs ++ ys) ≡ xs ++ take (n - length xs) ys
take-append [] ys n h = ap (λ k. take k ys) (omega arith)
take-append (x ∷ xs) ys zero h = absurd (omega arith)
take-append (x ∷ xs) ys (suc n) h =
    rw (suc_sub n (length xs)) (ap (◌∷◌ x) (take-append xs ys n (omega arith)))

pub drop-append :
    (xs ys : Bytes) (n : ℕ) → length xs ≤ n → drop n (xs ++ ys) ≡ drop (n - length xs) ys
drop-append [] ys n h = ap (λ k. drop k ys) (omega arith)
drop-append (x ∷ xs) ys zero h = absurd (omega arith)
drop-append (x ∷ xs) ys (suc n) h = rw (suc_sub n (length xs)) (drop-append xs ys n (omega arith))

take-append_within : (xs ys : Bytes) (n : ℕ) → n ≤ length xs → take n (xs ++ ys) ≡ take n xs
take-append_within xs ys zero h = refl
take-append_within [] ys (suc n) h = absurd (omega arith)
take-append_within (x ∷ xs) ys (suc n) h = ap (◌∷◌ x) (take-append_within xs ys n (omega arith))

drop-append_within : (xs ys : Bytes) (n : ℕ) → n ≤ length xs → drop n (xs ++ ys) ≡ drop n xs ++ ys
drop-append_within xs ys zero h = refl
drop-append_within [] ys (suc n) h = absurd (omega arith)
drop-append_within (x ∷ xs) ys (suc n) h = drop-append_within xs ys n (omega arith)

cut-all :
    (n : ℕ) (bytes : Bytes) → n ≤ length bytes → cut n bytes ≡ some (take n bytes, drop n bytes)
unfolding cut
cut-all n bytes h = ground arith

cut-none : (n : ℕ) (bytes : Bytes) → length bytes < n → cut n bytes ≡ none
unfolding cut
cut-none n bytes h = ground arith

cut-append :
    (xs ys : Bytes) (n : ℕ)
    → length xs ≤ n
    → n - length xs ≤ length ys
    → cut n (xs ++ ys) ≡ some (xs ++ take (n - length xs) ys, drop (n - length xs) ys)
unfolding cut
cut-append xs ys n h l =
    cut-all n (xs ++ ys) (omega (arith, length-append {0} xs ys))
    ∙ rw (take-append xs ys n h, drop-append xs ys n h) refl

nonempty : (xs : Bytes) → 0 < length xs → is_empty xs ≡ false
nonempty [] h = absurd (omega arith)
nonempty (x ∷ xs) h = refl

after_some :
    (xs ys : Bytes) (r : Option Bytes × List Bytes)
    → r.0 ≡ some ys
    → after_bytes xs r ≡ (some (xs ++ ys), r.1)
after_some xs ys (none, left) h = absurd (cc)
after_some xs ys (some zs, left) h = cc

after_none : (xs : Bytes) (r : Option Bytes × List Bytes) → r.0 ≡ none → (after_bytes xs r).0 ≡ none
after_none xs (none, left) h = refl
after_none xs (some zs, left) h = absurd (cc)

-- What a read of later segments gives, with the bytes before them.
after_bytes-Reads :
    (xs ys : Bytes) (n : ℕ) (r : Option Bytes × List Bytes)
    → length xs ≤ n
    → Reads (cut (n - length xs) ys) r.0 r.1
    → Reads (cut n (xs ++ ys)) (after_bytes xs r).0 (after_bytes xs r).1
after_bytes-Reads xs ys n r h reads = elim (Bool-cases (leb (n - length xs) (length ys))) [
  | inl fit ↦
      let k = n - length xs in
      let got : Reads (some (take k ys, drop k ys)) r.0 r.1 =
        subst (λ o. Reads o r.0 r.1) (cut-all k ys (ground arith)) reads in
      rw (cut-append xs ys n h (ground arith), after_some xs (take k ys) r got.0)
        (refl, got.1, got.2)
  | inr short ↦
      let got : Reads {A = Bytes} none r.0 r.1 =
        subst (λ o. Reads o r.0 r.1) (cut-none (n - length xs) ys (ground arith)) reads in
      rw (cut-none n (xs ++ ys) (ground (arith, length-append xs ys)), after_none xs r got) refl
]

flow-drop :
    (n : ℕ) (xs : Bytes) (xss : List Bytes)
    → n < length xs
    → Flowing xss
    → Flowing (drop n xs ∷ xss)
flow-drop n xs xss h f = (omega (arith, length-drop {0} n xs), f)

pub recv_from-Reads :
    (n : ℕ) (segments : List Bytes)
    → Flowing segments
    → Reads (cut n (joined segments)) (recv_from n segments).0 (recv_from n segments).1
unfolding recv_from
recv_from-Reads n [] f = elim (Bool-cases (n == 0)) [
  | inl e ↦ rw (cut-all n [] (ground arith), e, (==_iff n 0).0 e) (refl, refl, tt)
  | inr e ↦ rw (cut-none n [] (ground arith), e) refl
]
recv_from-Reads n (xs ∷ xss) f = elim (Bool-cases (n == 0)) [
  | inl e ↦
      rw (e, recv_from, cut-all n (xs ++ joined xss) (ground arith))
        (rw ((==_iff n 0).0 e) (refl, refl, f))
  | inr e ↦ elim (Bool-cases (leb (length xs) n)) [
    | inl fit ↦
        rw (e, recv_from, nonempty xs f.0, fit)
          (after_bytes-Reads xs (joined xss) n (recv_from (n - length xs) xss) (ground arith)
            (recv_from-Reads (n - length xs) xss f.1))
    | inr less ↦
        rw
          (
            e,
            recv_from,
            nonempty xs f.0,
            less,
            cut-all n (xs ++ joined xss) (ground (arith, length-append xs (joined xss))),
            take-append_within xs (joined xss) n (ground arith),
            drop-append_within xs (joined xss) n (ground arith),
          )
          (refl, refl, flow-drop n xs xss (ground arith) f.1)
  ]
]

-- How a read of a socket goes, on the stream that comes in.
pub data Receives (n : ℕ) (s : Socket) : Type 0 where
  short : length (joined s.segments) < n → (recv_n n s).0 ≡ none → Receives n s
  full :
      n ≤ length (joined s.segments)
      → (recv_n n s).0 ≡ some (take n (joined s.segments))
      → joined (recv_n n s).1.segments ≡ drop n (joined s.segments)
      → Flowing (recv_n n s).1.segments
      → Receives n s

pub recv_n-Receives : (n : ℕ) (s : Socket) → Flowing s.segments → Receives n s
unfolding recv_n
recv_n-Receives n s f =
    let stream = joined s.segments in
    let r = recv_from n s.segments in
    elim (Bool-cases (leb n (length stream))) [
      | inl fit ↦
          let got : Reads (some (take n stream, drop n stream)) r.0 r.1 =
            subst (λ o. Reads o r.0 r.1) (cut-all n stream (ground arith))
              (recv_from-Reads n s.segments f) in
          full (ground arith) got.0 got.1 got.2
      | inr less ↦
          let got : Reads {A = Bytes} none r.0 r.1 =
            subst (λ o. Reads o r.0 r.1) (cut-none n stream (ground arith))
              (recv_from-Reads n s.segments f) in
          short (ground arith) got
    ]

-- A read sends nothing.
pub recv_n-sent :
    (n : ℕ) (s : Socket) → ((recv_n n s).1.sent ≡ s.sent) × ((recv_n n s).1.accepts ≡ s.accepts)
unfolding recv_n
recv_n-sent n s = (refl, refl)
