-- ===== src/Relay/Ends.antt =====
-- Windows/src/pb_relay.c: what a turn of a direction, and its end, do to the relay.
use proxy_bridge.Prelude.{
  ℕ, ◌+◌, ◌≤◌, ◌<◌, Bool, true, false, ◌≡◌, refl, sym, subst, ap, ◌∙◌, inl, inr, some, Option-cases,
  arith,
}
use proxy_bridge.Conntrack.Chains.{bit}
use proxy_bridge.Relay.{RelayDir, BufferPool, relay_pool_keep, Turned}
use proxy_bridge.Relay.Streams.{Flows}
use proxy_bridge.Relay.Buffers.{Balances, Swap}
use proxy_bridge.Relay.Steps.{
  Side, upload, download, Relay, dir_of, with_dir, relay_abort, shut_down, relay_dir_end, put_back,
}
use proxy_bridge.Relay.Closing.{alive, DirInv, Holding, RelayInv, release-RelayInv}

-- A direction before a turn, and what the turn makes of it.
pub record Fed (old d : RelayDir) (p : BufferPool) (t : Turned) : Type 0 where
  pub live : alive old ≡ true
  pub same_shut : d.shut ≡ old.shut
  pub in_use : d.unposted ≡ false
  pub same_buf : d.buf ≡ old.buf
  pub flows : Flows d t
  pub turned : Swap d.buf p t

-- The direction is not shut before its end.
unshut :
    (old d : RelayDir) (p : BufferPool) (t : Turned)
    → DirInv old
    → Fed old d p t
    → t.dir.shut ≡ true
    → ⊥
unshut old d p t i f h =
    let was : old.shut ≡ true = sym f.same_shut ∙ sym f.flows.shut ∙ h in cc (i.over was, f.live)

turned-DirInv :
    (old d : RelayDir) (p : BufferPool) (t : Turned) → DirInv old → Fed old d p t → DirInv t.dir
turned-DirInv old d p t i f =
    let posted : t.dir.unposted ≡ false = f.flows.unposted ∙ f.in_use in
    record {
      stream = f.flows.stream;
      equipped = f.turned.1;
      one = rw posted (ground arith);
      fresh = λ h. absurd (cc (h, posted));
      whole = λ h. absurd (unshut old d p t i f h);
      over = λ h. absurd (unshut old d p t i f h);
    }

-- A direction that has ended cleanly, and passed the end on.
shut-DirInv :
    (d : RelayDir)
    → DirInv d
    → d.received ≡ d.sent
    → alive d ≡ false
    → DirInv (record d { shut = true })
shut-DirInv d i done off = record {
  stream = i.stream;
  equipped = i.equipped;
  one = i.one;
  fresh = i.fresh;
  whole = λ h. done;
  over = λ h. off;
}

-- The references, sockets and buffers once a direction is put back after a turn.
with-Holding :
    (side : Side) (n : ℕ) (t : Turned) (r : Relay)
    → Holding 0 r
    → bit (alive (dir_of side r)) ≡ n + bit (alive t.dir)
    → Balances (dir_of side r).buf r.pool t.dir.buf t.pool
    → Holding n (with_dir side t.dir t.pool r)
with-Holding upload n t r h e b = record {
  here = h.here;
  counted = omega (arith, h.counted, e);
  unclosed = h.unclosed;
  balance = omega (arith, h.balance, b.balance);
}
with-Holding download n t r h e b = record {
  here = h.here;
  counted = omega (arith, h.counted, e);
  unclosed = h.unclosed;
  balance = omega (arith, h.balance, b.balance);
}

with-dirs :
    (side : Side) (d : RelayDir) (p : BufferPool) (r : Relay)
    → ((x : Side) → DirInv (dir_of x r))
    → DirInv d
    → (x : Side) → DirInv (dir_of x (with_dir side d p r))
with-dirs upload d p r dirs i upload = i
with-dirs upload d p r dirs i download = dirs download
with-dirs download d p r dirs i upload = dirs upload
with-dirs download d p r dirs i download = i

with-pool :
    (side : Side) (d : RelayDir) (p : BufferPool) (r : Relay) → (with_dir side d p r).pool ≡ p
with-pool upload d p r = refl
with-pool download d p r = refl

with-refs :
    (side : Side) (d : RelayDir) (p : BufferPool) (r : Relay) → (with_dir side d p r).refs ≡ r.refs
with-refs upload d p r = refl
with-refs download d p r = refl

pub abort-dirs :
    (r : Relay)
    → ((x : Side) → DirInv (dir_of x r))
    → (x : Side) → DirInv (dir_of x (relay_abort r))
unfolding relay_abort
abort-dirs r dirs upload = dirs upload
abort-dirs r dirs download = dirs download

-- The end of a direction: it is passed on, or the relay is aborted; then a reference is given up.
end-RelayInv :
    (side : Side) (clean : Bool) (d : RelayDir) (p : BufferPool) (r : Relay)
    → ((x : Side) → DirInv (dir_of x r))
    → DirInv d
    → alive d ≡ false
    → (clean ≡ true → d.received ≡ d.sent)
    → p.kept ≤ relay_pool_keep
    → Holding 1 (with_dir side d p r)
    → RelayInv (relay_dir_end side clean (with_dir side d p r))
unfolding relay_dir_end relay_abort
end-RelayInv upload false d p r dirs i off whole bound h =
    release-RelayInv (relay_abort (with_dir upload d p r))
      (abort-dirs (with_dir upload d p r) (with-dirs upload d p r dirs i)) bound
      (record { here = h.here; counted = h.counted; unclosed = h.unclosed; balance = h.balance })
end-RelayInv download false d p r dirs i off whole bound h =
    release-RelayInv (relay_abort (with_dir download d p r))
      (abort-dirs (with_dir download d p r) (with-dirs download d p r dirs i)) bound
      (record { here = h.here; counted = h.counted; unclosed = h.unclosed; balance = h.balance })
end-RelayInv upload true d p r dirs i off whole bound h =
    release-RelayInv (shut_down upload (with_dir upload d p r))
      (with-dirs upload (record d { shut = true }) p r dirs (shut-DirInv d i (whole refl) off))
      bound
      (record { here = h.here; counted = h.counted; unclosed = h.unclosed; balance = h.balance })
end-RelayInv download true d p r dirs i off whole bound h =
    release-RelayInv (shut_down download (with_dir download d p r))
      (with-dirs download (record d { shut = true }) p r dirs (shut-DirInv d i (whole refl) off))
      bound
      (record { here = h.here; counted = h.counted; unclosed = h.unclosed; balance = h.balance })

-- A turn keeps the invariant, whether it goes on or ends.
pub put_back-RelayInv :
    (side : Side) (d : RelayDir) (t : Turned) (r : Relay)
    → RelayInv r
    → Holding 0 r
    → 0 < r.refs
    → Fed (dir_of side r) d r.pool t
    → RelayInv (put_back side t r)
unfolding put_back
put_back-RelayInv side d t r i h some_left f =
    let old = dir_of side r in
    let j = turned-DirInv old d r.pool t (i.dirs side) f in
    let b : Balances old.buf r.pool t.dir.buf t.pool =
      subst (λ x. Balances x r.pool t.dir.buf t.pool) f.same_buf f.turned.0 in
    let bound = b.bound i.bound in
    let posted : t.dir.unposted ≡ false = f.flows.unposted ∙ f.in_use in
    elim (Option-cases t.ends) [
      | inl e ↦
          let on : alive t.dir ≡ true = cc (e, f.flows.alive, posted) in
          rw e (record {
            dirs = with-dirs side t.dir t.pool r i.dirs j;
            bound = rw (with-pool side t.dir t.pool r) bound;
            lives = inl (
              with-Holding side 0 t r h (ap bit f.live ∙ omega (arith, ap bit on)) b,
              rw (with-refs side t.dir t.pool r) some_left,
            );
          })
      | inr (clean, e) ↦
          let off : alive t.dir ≡ false = cc (e, f.flows.alive, posted) in
          rw e (
            end-RelayInv side clean t.dir t.pool r i.dirs j off (λ c. f.flows.clean (e ∙ ap some c))
              bound (with-Holding side 1 t r h (ap bit f.live ∙ omega (arith, ap bit off)) b))
    ]
