-- ===== src/Workers/Wakes.antt =====
-- Windows/src/pb_relay.c: the counter counts, and the event comes.
use proxy_bridge.Prelude.{ℕ, ◌+◌, ◌-◌, true, ◌≡◌, refl, ap, inl, inr, ◌==◌, Bool-cases, arith}
use proxy_bridge.Workers.{
  Phase, outside, counted, reset, Workers, begin_count, begin_reset, discount, begin_check,
  end_connection_worker, set_event, request_runtime_stop, WorkerStep, counts, resets, checks,
  finishes, sets, stops, Workings, here, next,
}

-- The listener counts while it is in begin_connection_worker.
abbrev pub in_begin : Phase → ℕ
in_begin outside = 0
in_begin counted = 1
in_begin reset = 1

abbrev IsWoken : Workers → Type 0
IsWoken s =
    (s.active_connection_workers ≡ s.dispatched + in_begin s.listener)
    × (s.active_connection_workers ≡ 0 → s.setting ≡ 0 → s.done_event ≡ true)

discount-IsWoken :
    (s : Workers)
    → s.active_connection_workers ≡ s.dispatched + in_begin s.listener + 1
    → IsWoken (discount s)
unfolding discount
discount-IsWoken s h = elim (Bool-cases (s.active_connection_workers - 1 == 0)) [
  | inl e ↦ rw e (omega (arith, h), λ a b. absurd (omega (arith, b)))
  | inr e ↦ rw e (omega (arith, h), λ a b. absurd (ground (arith, a, e)))
]

check-IsWoken : (s : Workers) → s.listener ≡ reset → IsWoken s → IsWoken (begin_check s)
unfolding begin_check
check-IsWoken s l i =
    let one : in_begin s.listener ≡ 1 = ap in_begin l in
    elim (Bool-cases s.running) [
      | inl r ↦ rw r (omega (arith, i.0, one), λ a b. absurd (omega (arith, i.0, one, a)))
      | inr r ↦ rw r (discount-IsWoken (record s { listener = outside }) (omega (arith, i.0, one)))
    ]

WorkerStep-IsWoken : {r s : Workers} → WorkerStep r s → IsWoken r → IsWoken s
unfolding begin_count begin_reset end_connection_worker set_event request_runtime_stop
WorkerStep-IsWoken {r} (counts l) i =
    let none_in : in_begin r.listener ≡ 0 = ap in_begin l in
    (omega (arith, i.0, none_in), λ a b. absurd (omega (arith, a)))
WorkerStep-IsWoken {r} (resets l) i =
    let one : in_begin r.listener ≡ 1 = ap in_begin l in
    (omega (arith, i.0, one), λ a b. absurd (omega (arith, i.0, one, a)))
WorkerStep-IsWoken {r} (checks l) i = check-IsWoken r l i
WorkerStep-IsWoken {r} (finishes h) i =
    discount-IsWoken (record r { dispatched = r.dispatched - 1 }) (omega (arith, i.0, h))
WorkerStep-IsWoken {r} (sets h) i = (i.0, λ a b. refl)
WorkerStep-IsWoken {r} stops i = i

-- In whatever order the threads take their steps: the counter is the number of workers that have not
-- ended, and one more while the listener begins one. Once there are none, and each thread that
-- decremented the counter to 0 has set the event, the event is set, so Stop does not wait in vain.
pub Workings-IsWoken :
    {s : Workers}
    → Workings s
    → (s.active_connection_workers ≡ s.dispatched + in_begin s.listener)
      × (s.active_connection_workers ≡ 0 → s.setting ≡ 0 → s.done_event ≡ true)
Workings-IsWoken here = (refl, λ a b. refl)
Workings-IsWoken (next run step) = WorkerStep-IsWoken step (Workings-IsWoken run)
