-- ===== src/Relay/Closing.antt =====
-- Windows/src/pb_relay.c: a relay is closed once, after the last operation of both its directions.
use proxy_bridge.Prelude.{
  ℕ, ◌+◌, ◌-◌, ◌≤◌, ◌<◌, Bool, true, false, ◌&&◌, ◌||◌, ◌≡◌, refl, sym, subst, ◌⊎◌, inl, inr, ◌++◌,
  ◌==◌, Bool-cases, arith,
}
use proxy_bridge.Conntrack.Chains.{bit}
use proxy_bridge.Relay.{RelayDir, relay_buf_put, relay_pool_keep}
use proxy_bridge.Relay.Streams.{unsent}
use proxy_bridge.Relay.Buffers.{holds, put-Balances, Equipped}
use proxy_bridge.Relay.Steps.{at_rest, Side, upload, download, Relay, dir_of, relay_release}

-- An operation of the direction is pending, or is still to be posted.
abbrev pub alive : RelayDir → Bool
alive d = d.pending || d.unposted

-- One direction at any time.
pub record DirInv (d : RelayDir) : Type 0 where
  pub stream : d.received ≡ d.sent ++ unsent d
  pub equipped : Equipped d
  pub one : (d.pending && d.unposted) ≡ false
  pub fresh : d.unposted ≡ true → d.received ≡ d.sent
  pub whole : d.shut ≡ true → d.received ≡ d.sent
  pub over : d.shut ≡ true → alive d ≡ false

-- A relay that is not freed, and `n` more references to it than there are directions alive.
pub record Holding (n : ℕ) (r : Relay) : Type 0 where
  pub here : r.freed ≡ false
  pub counted : r.refs ≡ n + (bit (alive r.up) + bit (alive r.down))
  pub unclosed : r.closes ≡ 0
  pub balance : r.pool.allocated ≡ holds r.up.buf + (holds r.down.buf + at_rest r.pool)

pub record Gone (r : Relay) : Type 0 where
  pub freed : r.freed ≡ true
  pub up_over : alive r.up ≡ false
  pub down_over : alive r.down ≡ false
  pub closed : r.closes ≡ 1
  pub balance : r.pool.allocated ≡ at_rest r.pool

pub record RelayInv (r : Relay) : Type 0 where
  pub dirs : (side : Side) → DirInv (dir_of side r)
  pub bound : r.pool.kept ≤ relay_pool_keep
  pub lives : (Holding 0 r × (0 < r.refs)) ⊎ Gone r

bit_zero : (b : Bool) → bit b ≡ 0 → b ≡ false
bit_zero true h = absurd (omega arith)
bit_zero false h = refl

-- Both buffers are given back.
both_back :
    (r : Relay)
    → Holding 1 r
    → (relay_buf_put r.down.buf (relay_buf_put r.up.buf r.pool)).allocated
      ≡ at_rest (relay_buf_put r.down.buf (relay_buf_put r.up.buf r.pool))
both_back r h =
    let p = relay_buf_put r.up.buf r.pool in
    omega (
      arith,
      h.balance,
      (put-Balances r.up.buf r.pool).balance,
      (put-Balances r.down.buf p).balance,
    )

abbrev Lives : Relay → Type 0
Lives r = (Holding 0 r × (0 < r.refs)) ⊎ Gone r

-- The last reference is given up, or one of several.
release-Lives : (r : Relay) → Holding 1 r → Lives (relay_release r)
unfolding relay_release
release-Lives r h = elim (Bool-cases (r.refs - 1 == 0)) [
  | inr more ↦ rw more (
      inl (
        record {
          here = h.here;
          counted = omega (arith, h.counted);
          unclosed = h.unclosed;
          balance = h.balance;
        },
        ground arith,
      ))
  | inl last ↦
      let none_left : bit (alive r.up) + bit (alive r.down) ≡ 0 = ground (arith, h.counted) in
      rw last (
        inr (record {
          freed = refl;
          up_over = bit_zero (alive r.up) (omega arith);
          down_over = bit_zero (alive r.down) (omega arith);
          closed = omega (arith, h.unclosed);
          balance = both_back r h;
        }))
]

release-bound :
    (r : Relay) → r.pool.kept ≤ relay_pool_keep → (relay_release r).pool.kept ≤ relay_pool_keep
unfolding relay_release
release-bound r h = elim (Bool-cases (r.refs - 1 == 0)) [
  | inr more ↦ rw more h
  | inl last ↦ rw last (
      (put-Balances r.down.buf (relay_buf_put r.up.buf r.pool)).bound
        ((put-Balances r.up.buf r.pool).bound h))
]

release-dirs : (r : Relay) (side : Side) → dir_of side (relay_release r) ≡ dir_of side r
unfolding relay_release
release-dirs r upload = elim (Bool-cases (r.refs - 1 == 0)) [
  | inl e ↦ rw e refl
  | inr e ↦ rw e refl
]
release-dirs r download = elim (Bool-cases (r.refs - 1 == 0)) [
  | inl e ↦ rw e refl
  | inr e ↦ rw e refl
]

-- A release of a relay whose directions are in order.
pub release-RelayInv :
    (r : Relay)
    → ((side : Side) → DirInv (dir_of side r))
    → r.pool.kept ≤ relay_pool_keep
    → Holding 1 r
    → RelayInv (relay_release r)
release-RelayInv r dirs bound h = record {
  dirs = λ side. subst DirInv (sym (release-dirs r side)) (dirs side);
  bound = release-bound r bound;
  lives = release-Lives r h;
}
