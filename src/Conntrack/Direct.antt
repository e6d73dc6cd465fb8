-- ===== src/Conntrack/Direct.antt =====
-- Windows/src/pb_conntrack.c: the cache of UDP flows that are let through, `udp_direct_entries`. One
-- thread owns it.
use proxy_bridge.Prelude.{
  ℕ, zero, suc, ◌+◌, ◌*◌, ◌%◌, ◌^◌, ◌<◌, bit_xor, Bool, true, false, ◌&&◌, ◌≡◌, refl, sym, ap,
  subst, ◌∙◌, ◌⊎◌, inl, inr, List, [], ◌∷◌, ◌++◌, ltb, ltb→lt, ◌==◌, ==_iff, same_bool,
  same_bool_iff, Bytes, equal, equal_iff, length, take, drop, replicate, u32, u64, arith,
  Bool-cases,
}
use proxy_bridge.Conntrack.{put}
use proxy_bridge.Conntrack.Counted.{put_same, put_other}

-- `UDP_DIRECT_ENTRY`.
pub record DirectEntry : Type 0 where
  pub source : Bytes
  pub destination : Bytes
  pub source_port : ℕ
  pub destination_port : ℕ
  pub ipv6 : Bool
  pub generation : ℕ
  pub expires : ℕ

-- The arguments that name a flow.
pub record DirectKey : Type 0 where
  pub ipv6 : Bool
  pub source : Bytes
  pub source_port : ℕ
  pub destination : Bytes
  pub destination_port : ℕ

-- How many bytes of the addresses count.
abbrev pub width : Bool → ℕ
width true = 16
width false = 4

stir : ℕ → Bytes → Bytes → ℕ
stir h (s ∷ ss) (d ∷ ds) = stir (u32 (u32 (u32 (h * 31) + s) + d)) ss ds
stir h _ _ = h

abbrev bit_of : Bool → ℕ
bit_of true = 1
bit_of false = 0

unfoldable pub udp_direct_slot : DirectKey → ℕ
unfolding stir
udp_direct_slot k =
    stir (bit_xor (bit_xor (u32 (k.source_port * 2 ^ 16)) k.destination_port) (bit_of k.ipv6))
      (take (width k.ipv6) k.source) (take (width k.ipv6) k.destination)
    % 4096

-- The entry is for the flow.
unfoldable pub is_entry_of : DirectKey → DirectEntry → Bool
is_entry_of k e =
    same_bool e.ipv6 k.ipv6
    && e.source_port == k.source_port
    && e.destination_port == k.destination_port
    && equal (take (width k.ipv6) e.source) (take (width k.ipv6) k.source)
    && equal (take (width k.ipv6) e.destination) (take (width k.ipv6) k.destination)

unfoldable pub udp_direct_cached : (ℕ → DirectEntry) → ℕ → ℕ → DirectKey → Bool
udp_direct_cached entries generation now k =
    let e = entries (udp_direct_slot k) in
    ltb now e.expires && e.generation == generation && is_entry_of k e

-- `memcpy` to the front of an array.
abbrev overlay : ℕ → Bytes → Bytes → Bytes
overlay n new old = take n new ++ drop n old

unfoldable pub remembered_entry : ℕ → ℕ → DirectKey → DirectEntry → DirectEntry
remembered_entry generation now k e = record {
  source = overlay (width k.ipv6) k.source e.source;
  destination = overlay (width k.ipv6) k.destination e.destination;
  source_port = k.source_port;
  destination_port = k.destination_port;
  ipv6 = k.ipv6;
  generation = generation;
  expires = u64 (now + 5000);
}

unfoldable pub udp_direct_remember : (ℕ → DirectEntry) → ℕ → ℕ → DirectKey → ℕ → DirectEntry
udp_direct_remember entries generation now k =
    put entries (udp_direct_slot k)
      (remembered_entry generation now k (entries (udp_direct_slot k)))

-- The zeroed table that the program starts with.
abbrev pub no_entries : ℕ → DirectEntry
no_entries slot = record {
  source = replicate 16 0;
  destination = replicate 16 0;
  source_port = 0;
  destination_port = 0;
  ipv6 = false;
  generation = 0;
  expires = 0;
}

-- A call of `udp_direct_remember`: the generation, the tick count and the flow.
abbrev pub Remember : Type 0
Remember = ℕ × ℕ × DirectKey

-- The calls, the last one first.
unfoldable pub remember_all : List Remember → ℕ → DirectEntry
remember_all [] = no_entries
remember_all ((generation, now, k) ∷ rs) = udp_direct_remember (remember_all rs) generation now k

-- The addresses are as long as the family says.
abbrev pub IsKey : DirectKey → Type 0
IsKey k = (length k.source ≡ width k.ipv6) × (length k.destination ≡ width k.ipv6)

-- The flows are the same.
pub record SameFlow (k j : DirectKey) : Type 0 where
  pub family : k.ipv6 ≡ j.ipv6
  pub ports : (k.source_port ≡ j.source_port) × (k.destination_port ≡ j.destination_port)
  pub addresses : (k.source ≡ j.source) × (k.destination ≡ j.destination)

-- Some call was for the flow, under the generation and less than five seconds ago.
abbrev pub Vouched : ℕ → ℕ → DirectKey → List Remember → Type 0
Vouched generation now k [] = ⊥
Vouched generation now k ((g, t, j) ∷ rs) =
    (SameFlow j k × (g ≡ generation) × (now < t + 5000)) ⊎ Vouched generation now k rs

abbrev pub AllKeys : List Remember → Type 0
AllKeys [] = Unit
AllKeys ((g, t, j) ∷ rs) = IsKey j × AllKeys rs

take_overlay : (n : ℕ) (a x : Bytes) → length a ≡ n → take n (take n a ++ x) ≡ a
take_overlay zero [] x e = refl
take_overlay zero (y ∷ ys) x e = absurd (omega arith)
take_overlay (suc n) [] x e = absurd (omega arith)
take_overlay (suc n) (y ∷ ys) x e = ap (◌∷◌ y) (take_overlay n ys x (omega arith))

take_exact : (n : ℕ) (a : Bytes) → length a ≡ n → take n a ≡ a
take_exact zero [] e = refl
take_exact zero (y ∷ ys) e = absurd (omega arith)
take_exact (suc n) [] e = refl
take_exact (suc n) (y ∷ ys) e = ap (◌∷◌ y) (take_exact n ys (omega arith))

same_address :
    (n m : ℕ) (a b old : Bytes)
    → m ≡ n
    → length a ≡ m
    → length b ≡ n
    → equal (take n (overlay m a old)) (take n b) ≡ true
    → a ≡ b
same_address n m a b old e la lb h =
    let same : take n (overlay m a old) ≡ take n b =
      (equal_iff (take n (overlay m a old)) (take n b)).0 h in
    sym (subst (λ w. take w (overlay m a old) ≡ a) e (take_overlay m a (drop m old) la))
    ∙ same
    ∙ take_exact n b lb

five_parts :
    (a b c d e : Bool)
    → (a && b && c && d && e) ≡ true
    → (a ≡ true) × (b ≡ true) × (c ≡ true) × (d ≡ true) × (e ≡ true)
five_parts a b c d e h = (ground arith, ground arith, ground arith, ground arith, ground arith)

-- An entry that was written for one flow and is read for another.
entry_SameFlow :
    (g now : ℕ) (j k : DirectKey) (e : DirectEntry)
    → IsKey j
    → IsKey k
    → is_entry_of k (remembered_entry g now j e) ≡ true
    → SameFlow j k
unfolding is_entry_of remembered_entry
entry_SameFlow g now j k e js ks h =
    let (f, p, q, s, d) = five_parts _ _ _ _ _ h in
    let family : j.ipv6 ≡ k.ipv6 = (same_bool_iff j.ipv6 k.ipv6).0 f in
    record {
      family = family;
      ports = (
        (==_iff j.source_port k.source_port).0 p,
        (==_iff j.destination_port k.destination_port).0 q,
      );
      addresses = (
        same_address (width k.ipv6) (width j.ipv6) j.source k.source e.source (ap width family) js.0
            ks.0 s,
        same_address (width k.ipv6) (width j.ipv6) j.destination k.destination e.destination
            (ap width family) js.1 ks.1 d,
      );
    }

three_parts : (a b c : Bool) → (a && b && c) ≡ true → (a ≡ true) × (b ≡ true) × (c ≡ true)
three_parts a b c h = (ground arith, ground arith, ground arith)

remembered_Vouch :
    (g t generation now : ℕ) (j k : DirectKey) (e : DirectEntry)
    → IsKey j
    → IsKey k
    → (ltb now (remembered_entry g t j e).expires
        && (remembered_entry g t j e).generation == generation
        && is_entry_of k (remembered_entry g t j e))
      ≡ true
    → SameFlow j k × (g ≡ generation) × (now < t + 5000)
unfolding remembered_entry
remembered_Vouch g t generation now j k e js ks h =
    let (l, p, q) = three_parts _ _ _ h in
    let m : now < u64 (t + 5000) = ltb→lt now (u64 (t + 5000)) l in
    (entry_SameFlow g t j k e js ks q, (==_iff g generation).0 p, omega arith)

-- A flow counts as one that was let through only if that was remembered for just this flow, under
-- the present generation of decisions and less than five seconds ago, whatever else was remembered
-- in the same slot before or after.
pub remember_all-Vouched :
    (generation now : ℕ) (k : DirectKey) (rs : List Remember)
    → IsKey k
    → AllKeys rs
    → udp_direct_cached (remember_all rs) generation now k ≡ true
    → Vouched generation now k rs
unfolding udp_direct_cached remember_all udp_direct_remember
remember_all-Vouched generation now k [] ks all h =
    let (l, p, q) = three_parts _ _ _ h in absurd (let m : now < 0 = ltb→lt now 0 l in omega arith)
remember_all-Vouched generation now k ((g, t, j) ∷ rs) ks (js, all) h =
    let old = remember_all rs in
    let new = remembered_entry g t j (old (udp_direct_slot j)) in
    elim (Bool-cases (udp_direct_slot k == udp_direct_slot j)) [
      | inl s ↦ inl (
          remembered_Vouch g t generation now j k (old (udp_direct_slot j)) js ks (
            subst (λ e. (ltb now e.expires && e.generation == generation && is_entry_of k e) ≡ true)
              (put_same old (udp_direct_slot j) new (udp_direct_slot k) s) h))
      | inr s ↦ inr (
          remember_all-Vouched generation now k rs ks all (
            subst (λ e. (ltb now e.expires && e.generation == generation && is_entry_of k e) ≡ true)
              (put_other old (udp_direct_slot j) new (udp_direct_slot k) s) h))
    ]

lt_true : (a b : ℕ) → a < b → ltb a b ≡ true
lt_true a b h = ground arith

overlay-equal :
    (n : ℕ) (a x : Bytes) → length a ≡ n → equal (take n (overlay n a x)) (take n a) ≡ true
overlay-equal n a x e =
    (equal_iff (take n (overlay n a x)) (take n a)).1
      (take_overlay n a (drop n x) e ∙ sym (take_exact n a e))

-- A flow that has been remembered counts as let through for the next five seconds, as long as the
-- generation of decisions stays the same.
pub remember-cached :
    (entries : ℕ → DirectEntry) (generation t now : ℕ) (k : DirectKey)
    → IsKey k
    → now < t + 5000
    → t + 5000 < 2 ^ 64
    → udp_direct_cached (udp_direct_remember entries generation t k) generation now k ≡ true
unfolding udp_direct_cached udp_direct_remember is_entry_of remembered_entry
remember-cached entries generation t now k ks l b =
    let e = entries (udp_direct_slot k) in
    let wrap : u64 (t + 5000) ≡ t + 5000 = omega arith in
    rw
      (
        put_same entries (udp_direct_slot k) (remembered_entry generation t k e) (udp_direct_slot k)
            ((==_iff (udp_direct_slot k) (udp_direct_slot k)).1 refl),
        lt_true now (u64 (t + 5000)) (omega (arith, wrap)),
        (==_iff generation generation).1 refl,
        (same_bool_iff k.ipv6 k.ipv6).1 refl,
        (==_iff k.source_port k.source_port).1 refl,
        (==_iff k.destination_port k.destination_port).1 refl,
        overlay-equal (width k.ipv6) k.source e.source ks.0,
        overlay-equal (width k.ipv6) k.destination e.destination ks.1,
      )
      refl
