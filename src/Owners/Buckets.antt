-- ===== src/Owners/Buckets.antt =====
-- Windows/src/pb_process.c: which buckets of the two caches are ever used.
use proxy_bridge.Prelude.{
  ℕ, zero, suc, ◌+◌, ◌*◌, ◌/◌, ◌%◌, ◌^◌, ◌≤◌, ◌<◌, bit_xor, Bool, ◌≡◌, refl, sym, ap₂, ◌∙◌,
  if◌then◌else◌, u32, arith,
}
use Prim.Native.Nat.{digits, differ, bit_xor-bitwise}
use proxy_bridge.Owners.{pid_cache_hash}
use proxy_bridge.Owners.Events.{owner_cache_hash}

-- The digits of an exclusive or do not depend on the fuel, once it is enough.
abbrev xor_digits : ℕ → ℕ → ℕ → ℕ
xor_digits fuel a b = digits (λ b. b) differ fuel a b

xor_digits_enough : (n m a b : ℕ) → a ≤ n → a ≤ m → xor_digits n a b ≡ xor_digits m a b
xor_digits_enough zero zero zero b p q = refl
xor_digits_enough zero (suc m) zero b p q = refl
xor_digits_enough (suc n) zero zero b p q = refl
xor_digits_enough (suc n) (suc m) zero b p q = refl
xor_digits_enough zero m (suc a) b p q = absurd (omega arith)
xor_digits_enough (suc n) zero (suc a) b p q = absurd (omega arith)
xor_digits_enough (suc n) (suc m) (suc a) b p q =
    omega (arith, xor_digits_enough n m (suc a / 2) (b / 2) (omega arith) (omega arith))

zero-bit_xor : (b : ℕ) → bit_xor 0 b ≡ b
zero-bit_xor b = bit_xor-bitwise 0 b

bit_xor_step : (a b : ℕ) → bit_xor a b ≡ bit_xor (a / 2) (b / 2) * 2 + differ (a % 2) (b % 2)
bit_xor_step zero b = omega (arith, zero-bit_xor b, zero-bit_xor (b / 2))
bit_xor_step (suc a) b = omega (
  arith,
  bit_xor-bitwise (suc a) b,
  bit_xor-bitwise (suc a / 2) (b / 2),
  xor_digits_enough a (suc a / 2) (suc a / 2) (b / 2) (omega arith) (omega arith),
)

differ-lt : (a b : ℕ) → a < 2 → b < 2 → differ a b < 2
differ-lt zero b h l = l
differ-lt (suc zero) zero h l = omega arith
differ-lt (suc zero) (suc zero) h l = omega arith
differ-lt (suc zero) (suc (suc b)) h l = absurd (omega arith)
differ-lt (suc (suc a)) b h l = absurd (omega arith)

half-bit_xor : (a b : ℕ) → bit_xor a b / 2 ≡ bit_xor (a / 2) (b / 2)
half-bit_xor a b =
    omega (arith, bit_xor_step a b, differ-lt (a % 2) (b % 2) (omega arith) (omega arith))

low-bit_xor : (a b : ℕ) → bit_xor a b % 2 ≡ differ (a % 2) (b % 2)
low-bit_xor a b =
    omega (arith, bit_xor_step a b, differ-lt (a % 2) (b % 2) (omega arith) (omega arith))

-- Two numbers with the same lowest digits.
abbrev Agree : ℕ → ℕ → ℕ → Type 0
Agree zero a b = Unit {0}
Agree (suc n) a b = (a % 2 ≡ b % 2) × Agree n (a / 2) (b / 2)

Agree-xor : (n a b c d : ℕ) → Agree n a b → Agree n c d → Agree n (bit_xor a c) (bit_xor b d)
Agree-xor zero a b c d h l = tt
Agree-xor (suc n) a b c d h l = (
  low-bit_xor a c ∙ ap₂ differ h.0 l.0 ∙ sym (low-bit_xor b d),
  rw (half-bit_xor a c, half-bit_xor b d) (Agree-xor n (a / 2) (b / 2) (c / 2) (d / 2) h.1 l.1),
)

Agree-refl : (n a : ℕ) → Agree n a a
Agree-refl zero a = tt
Agree-refl (suc n) a = (refl, Agree-refl n (a / 2))

Agree-mod : (a b : ℕ) → Agree 11 a b → a % 2048 ≡ b % 2048
Agree-mod a b h = omega arith

Agree-mod_half : (a b : ℕ) → Agree 11 a b → a % 1024 ≡ b % 1024
Agree-mod_half a b h = omega (arith, Agree-mod a b h)

shifted : (p q : ℕ) → Agree 11 (u32 (p * 2 ^ 16)) (u32 (q * 2 ^ 16))
shifted p q = omega arith

flag : (u v : Bool) → Agree 11 (if u then 2 ^ 31 else 0) (if v then 2 ^ 31 else 0)
flag u v = ground arith

-- The hashes use only low bits, which the ports and the protocol do not reach: the pids of one local
-- address all stand in one bucket, whatever their port and protocol, and the owner events of one
-- protocol all stand in one bucket, whatever their port.
pub hash_ports :
    (ip p q : ℕ) (u v : Bool)
    → (pid_cache_hash (record { src_ip = ip; src_port = p; is_udp = u })
        ≡ pid_cache_hash (record { src_ip = ip; src_port = q; is_udp = v }))
      × (owner_cache_hash p u ≡ owner_cache_hash q u)
unfolding pid_cache_hash owner_cache_hash
hash_ports ip p q u v = (
  Agree-mod_half _ _
      (Agree-xor 11 _ _ _ _ (Agree-xor 11 _ _ _ _ (Agree-refl 11 ip) (shifted p q)) (flag u v)),
  Agree-mod _ _
      (Agree-xor 11 _ _ _ _ (shifted p q) (Agree-refl 11 (if u then 0x9E3779B9 else 0x85EBCA6B))),
)
