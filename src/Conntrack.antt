-- ===== src/Conntrack.antt =====
-- Windows/src/pb_internal.h, pb_conntrack.c: tracked connections, the cells that hold them, and the
-- two indexes of pointers to the cells.
pub mod Table
pub mod Chains
pub mod Counted
pub mod Linked
pub mod Sweep
pub mod Stale
pub mod Direct
pub mod Logged
pub mod Lookup
pub mod Sender
pub mod Steps
pub mod Calls
use proxy_bridge.Prelude.{
  ℕ, ◌+◌, ◌*◌, ◌%◌, bit_xor, Bool, true, false, ◌&&◌, List, [], ◌∷◌, Option, none, some, ◌==◌,
  if◌then◌else◌, Bytes, u32, take, map,
}

-- `CONNECTION_INFO` without its links, which are the order of the chains.
pub record Connection : Type 0 where
  pub src_port : ℕ
  pub is_udp : Bool
  pub src_ip : ℕ
  pub orig_dest_ip : ℕ
  pub orig_dest_port : ℕ
  pub is_tracked : Bool
  pub fin_flags : ℕ
  pub policy_generation : ℕ
  pub last_activity : ℕ
  pub proxy_config_id : ℕ
  pub is_ipv6 : Bool
  pub src_ip6 : Bytes
  pub orig_dest_ip6 : Bytes
  pub rev_bucket : ℕ
  pub in_rev : Bool

abbrev pub hash_size : ℕ
hash_size = 4096

-- The bucket of a local port in the forward table.
unfoldable pub home : ℕ → ℕ
home src_port = src_port % hash_size

unfoldable pub rev_hash_v4 : ℕ → ℕ → ℕ
rev_hash_v4 dest_ip dest_port =
    bit_xor (u32 (dest_ip * 2654435761)) (u32 (dest_port * 40503)) % hash_size

mix : ℕ → Bytes → ℕ
mix h [] = h
mix h (x ∷ xs) = mix (u32 (u32 (h * 31) + x)) xs

unfoldable pub rev_hash_v6 : Bytes → ℕ → ℕ
unfolding mix
rev_hash_v6 dest_ip6 dest_port = mix (u32 (dest_port * 40503)) (take 16 dest_ip6) % hash_size

-- The bucket of a connection in the reverse table, as `rev_insert` computes it.
unfoldable pub rev_hash : Connection → ℕ
rev_hash c =
    if c.is_ipv6
    then rev_hash_v6 c.orig_dest_ip6 c.orig_dest_port
    else rev_hash_v4 c.orig_dest_ip c.orig_dest_port

-- The globals under `lock`: what each address holds (`none` where no cell is allocated), the chains
-- of both tables as the pointers in their order, and `g_udp_generation`.
pub record Tracker : Type 0 where
  pub heap : ℕ → Option Connection
  pub forward : ℕ → List ℕ
  pub reverse : ℕ → List ℕ
  pub generation : ℕ

-- What a read of memory gives: a value, or a pointer was followed to a cell that is free.
pub data Access {ℓ} (A : Type ℓ) : Type ℓ where
  value : A → Access A
  dangling : Access A

unfoldable pub and_then {ℓ κ} : {A : Type ℓ} {B : Type κ} → Access A → (A → Access B) → Access B
and_then (value a) f = f a
and_then dangling f = dangling

-- The write `f[k] = v`.
unfoldable pub put {ℓ} : {B : Type ℓ} → (ℕ → B) → ℕ → B → ℕ → B
put f k v n = if n == k then v else f n

-- The walk along a chain to the first connection that passes the test.
unfoldable pub find_in :
    (ℕ → Option Connection) → (Connection → Bool) → List ℕ → Access (Option (ℕ × Connection))
find_in heap mine [] = value none
find_in heap mine (p ∷ ps) =
    let rest = find_in heap mine ps in
    elim (heap p) [ none ↦ dangling | some c ↦ if mine c then value (some (p, c)) else rest ]

-- The walk of `rev_unlink` to the link that holds the pointer, which it reads through the cells.
unfoldable pub unlink_in : (ℕ → Option Connection) → ℕ → List ℕ → Access (List ℕ)
unfolding and_then
unlink_in heap p [] = value []
unlink_in heap p (q ∷ qs) =
    let rest = unlink_in heap p qs in
    if q == p
    then value qs
    else elim (heap q) [ none ↦ dangling | some c ↦ and_then rest (λ chain. value (q ∷ chain)) ]

unfoldable pub rev_insert : ℕ → Connection → Tracker → Tracker
rev_insert p c t = record t {
  heap = put t.heap p (some (record c { rev_bucket = rev_hash c; in_rev = true }));
  reverse = put t.reverse (rev_hash c) (p ∷ t.reverse (rev_hash c));
}

unfoldable pub rev_unlink : ℕ → Connection → Tracker → Access Tracker
rev_unlink p c t =
    if c.in_rev
    then and_then (unlink_in t.heap p (t.reverse c.rev_bucket)) (λ chain. value (record t {
      heap = put t.heap p (some (record c { in_rev = false }));
      reverse = put t.reverse c.rev_bucket chain;
    }))
    else value t
