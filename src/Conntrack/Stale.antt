-- ===== src/Conntrack/Stale.antt =====
-- Windows/src/pb_conntrack.c: which connections `cleanup_stale_connections` takes for idle.
use proxy_bridge.Prelude.{
  ℕ, ◌+◌, ◌-◌, ◌^◌, ◌<◌, true, ◌≡◌, ◌==◌, ltb, sub64, arith, Bool-cases, inl, inr,
}
use proxy_bridge.Conntrack.{Connection}
use proxy_bridge.Conntrack.Table.{is_stale}

sub64_ahead : (now last : ℕ) → now < last → last < 2 ^ 64 → sub64 now last ≡ 2 ^ 64 - (last - now)
sub64_ahead now last l b = omega arith

lt_true : (a b : ℕ) → a < b → ltb a b ≡ true
lt_true a b h = ground arith

-- A connection that was active after the sweep read the clock, by less than 2 ^ 63 ticks, is taken
-- for idle, whether it is closed or open: the unsigned difference wraps around.
pub is_stale_ahead :
    (now : ℕ) (c : Connection)
    → now < c.last_activity
    → c.last_activity < now + 2 ^ 63
    → c.last_activity < 2 ^ 64
    → is_stale now c ≡ true
unfolding is_stale
is_stale_ahead now c l m b =
    let e = sub64_ahead now c.last_activity l b in
    elim (Bool-cases (c.fin_flags == 3)) [
      | inl f ↦ rw (f, e) (lt_true 60000 _ (omega arith))
      | inr f ↦ rw (f, e) (lt_true 1800000 _ (omega arith))
    ]
