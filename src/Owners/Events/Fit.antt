-- ===== src/Owners/Events/Fit.antt =====
-- Windows/src/pb_process.c: which entries of the event cache can stand for a flow, and how well.
use proxy_bridge.Prelude.{
  ℕ, suc, ◌<◌, Bool, true, ◌&&◌, ◌||◌, ◌≡◌, refl, ◌⊎◌, inl, inr, ◌==◌, ==_iff, if◌then◌else◌,
  same_bool_iff, ltb, sub64, equal, equal_iff, replicate, Bytes, arith,
}
use proxy_bridge.Owners.Events.{OwnerEntry, Sought, owner_ttl, address_is_unspecified, fits, score}

-- An entry that can stand for a flow: it is of its local port and protocol and younger than two
-- minutes, and each of its ends is that of the flow or left open.
pub record Fits (now : ℕ) (q : Sought) (e : OwnerEntry) : Type 0 where
  pub port : e.local_port ≡ q.local_port
  pub protocol : e.is_udp ≡ q.is_udp
  pub age : sub64 now e.timestamp < owner_ttl
  pub local : (e.local_addr ≡ q.local_addr) ⊎ (e.local_addr ≡ replicate 16 0)
  pub remote :
      ((e.remote_port ≡ q.remote_port) × (e.remote_addr ≡ q.remote_addr))
      ⊎ ((e.remote_port ≡ 0) × (e.remote_addr ≡ replicate 16 0))

pub fits-Fits : (now : ℕ) (q : Sought) (e : OwnerEntry) → fits now q e ≡ true → Fits now q e
unfolding fits
fits-Fits now q e h = record {
  port = ground arith;
  protocol = ground (arith, same_bool_iff e.is_udp q.is_udp);
  age = ground arith;
  local =
      ground (arith, equal_iff e.local_addr q.local_addr, equal_iff e.local_addr (replicate 16 0));
  remote =
      ground
        (arith, equal_iff e.remote_addr q.remote_addr, equal_iff e.remote_addr (replicate 16 0));
}

lt_true : (a b : ℕ) → a < b → ltb a b ≡ true
lt_true a b h = ground arith

or_right : (a b : Bool) → b ≡ true → (a || b) ≡ true
or_right a b h = ground arith

end_fits :
    (port want : ℕ) (addr other : Bytes)
    → ((port ≡ want) × (addr ≡ other)) ⊎ ((port ≡ 0) × (addr ≡ replicate 16 0))
    → (port == want && equal addr other || port == 0 && address_is_unspecified addr) ≡ true
end_fits port want addr other (inl (p, a)) =
    rw ((==_iff port want).1 p, (equal_iff addr other).1 a) refl
end_fits port want addr other (inr (p, a)) =
    or_right (port == want && equal addr other) (port == 0 && address_is_unspecified addr)
      (rw ((==_iff port 0).1 p, (equal_iff addr (replicate 16 0)).1 a) refl)

local_fits :
    (addr other : Bytes)
    → (addr ≡ other) ⊎ (addr ≡ replicate 16 0)
    → (equal addr other || address_is_unspecified addr) ≡ true
local_fits addr other (inl a) = rw ((equal_iff addr other).1 a) refl
local_fits addr other (inr a) = or_right _ _ ((equal_iff addr (replicate 16 0)).1 a)

pub Fits-fits : (now : ℕ) (q : Sought) (e : OwnerEntry) → Fits now q e → fits now q e ≡ true
unfolding fits
Fits-fits now q e f =
    rw
      (
        (==_iff e.local_port q.local_port).1 f.port,
        (same_bool_iff e.is_udp q.is_udp).1 f.protocol,
        lt_true _ _ f.age,
        local_fits e.local_addr q.local_addr f.local,
        end_fits e.remote_port q.remote_port e.remote_addr q.remote_addr f.remote,
      )
      refl

-- How well an entry answers for a flow: not at all, or by one more than its score.
unfoldable pub rank : ℕ → Sought → OwnerEntry → ℕ
rank now q e = if fits now q e then suc (score q e) else 0
