-- ===== src/Decision/Owner.antt =====
-- Windows/src/pb_rules.c: `resolve_process_owner_v4` and `resolve_process_owner_v6`, the bounded wait
-- for the owner of a connection.
use proxy_bridge.Prelude.{
  ℕ, zero, suc, ◌+◌, ◌≤◌, ◌<◌, true, false, not, ◌≡◌, ◌≢◌, refl, subst, inl, inr, Option, none,
  some, leb, ◌==◌, if◌then◌else◌, Bool-cases, ==_iff, arith,
}

-- What the system answers to poll `k`: the pid of a queued owner event, the pid in the system's
-- table, and the tick count after them. 0 stands for no pid.
pub record Polls : Type 0 where
  pub event : ℕ → ℕ
  pub table : ℕ → ℕ
  pub clock : ℕ → ℕ

-- The pid of one turn: the table is asked where there is no event.
unfoldable pub poll : Polls → ℕ → ℕ
poll polls k = if polls.event k == 0 then polls.table k else polls.event k

-- The loop from turn `k` on; `none` where the fuel runs out.
unfoldable pub resolve_owner : ℕ → Polls → ℕ → ℕ → Option ℕ
resolve_owner zero polls deadline k = none
resolve_owner (suc fuel) polls deadline k =
    let rest = resolve_owner fuel polls deadline (k + 1) in
    if not (poll polls k == 0)
    then some (poll polls k)
    else if leb deadline (polls.clock k)
    then some 0
    else rest

-- How a wait goes from turn `k` on: a turn gives the owner; or it is past the deadline and gives
-- none; or it gives none before the deadline, and the wait goes on.
pub data Waits (polls : Polls) (deadline : ℕ) : ℕ → ℕ → Type 0 where
  owner : {k : ℕ} → poll polls k ≢ 0 → Waits polls deadline k (poll polls k)
  expired : {k : ℕ} → poll polls k ≡ 0 → deadline ≤ polls.clock k → Waits polls deadline k 0
  waited :
      {k pid : ℕ}
      → poll polls k ≡ 0
      → polls.clock k < deadline
      → Waits polls deadline (k + 1) pid
      → Waits polls deadline k pid

abbrev Ends : Polls → ℕ → ℕ → ℕ → Type 0
Ends polls deadline k fuel =
    (pid : ℕ) × (resolve_owner fuel polls deadline k ≡ some pid) × Waits polls deadline k pid

leb_of : (a b : ℕ) → a ≤ b → leb a b ≡ true
leb_of a b h = ground arith

-- One turn without an owner.
turn_expired :
    (polls : Polls) (deadline k fuel : ℕ)
    → (poll polls k == 0) ≡ true
    → leb deadline (polls.clock k) ≡ true
    → Ends polls deadline k (suc fuel)
unfolding resolve_owner
turn_expired polls deadline k fuel e f =
    (0, rw (e, resolve_owner, f) refl, expired ((==_iff (poll polls k) 0).0 e) (ground arith))

turn_waited :
    (polls : Polls) (deadline k fuel : ℕ)
    → (poll polls k == 0) ≡ true
    → leb deadline (polls.clock k) ≡ false
    → Ends polls deadline (k + 1) fuel
    → Ends polls deadline k (suc fuel)
unfolding resolve_owner
turn_waited polls deadline k fuel e f (pid, run, w) =
    (pid, rw (e, resolve_owner, f) run, waited ((==_iff (poll polls k) 0).0 e) (ground arith) w)

turn_owner :
    (polls : Polls) (deadline k fuel : ℕ)
    → (poll polls k == 0) ≡ false
    → Ends polls deadline k (suc fuel)
unfolding resolve_owner
turn_owner polls deadline k fuel e =
    (poll polls k, rw (e, resolve_owner) refl, owner (λ z. cc ((==_iff (poll polls k) 0).1 z)))

-- The wait ends: once the clock has passed the deadline at some turn, it takes no more turns than
-- that, and its result is the first pid that a turn gives, or 0 if the deadline comes first.
pub resolve_owner-Waits :
    (polls : Polls) (deadline k left : ℕ)
    → deadline ≤ polls.clock (k + left)
    → (pid : ℕ) × (resolve_owner (suc left) polls deadline k ≡ some pid)
      × Waits polls deadline k pid
resolve_owner-Waits polls deadline k zero late = elim (Bool-cases (poll polls k == 0)) [
  | inr e ↦ turn_owner polls deadline k zero e
  | inl e ↦
      turn_expired polls deadline k zero e
        (leb_of _ _ (subst (λ n. deadline ≤ polls.clock n) (omega arith) late))
]
resolve_owner-Waits polls deadline k (suc left) late = elim (Bool-cases (poll polls k == 0)) [
  | inr e ↦ turn_owner polls deadline k (suc left) e
  | inl e ↦ elim (Bool-cases (leb deadline (polls.clock k))) [
    | inl f ↦ turn_expired polls deadline k (suc left) e f
    | inr f ↦ turn_waited polls deadline k (suc left) e f (
        resolve_owner-Waits polls deadline (k + 1) left
          (subst (λ n. deadline ≤ polls.clock n) (omega arith) late))
  ]
]
