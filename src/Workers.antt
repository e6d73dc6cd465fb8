-- ===== src/Workers.antt =====
-- Windows/src/pb_relay.c: the counter of connection workers and the event that Stop waits for, as
-- begin_connection_worker, called by the listener's thread, and end_connection_worker change them.
-- Each call of the system is a step of its own, so that threads may come between two of them.
pub mod Wakes
use proxy_bridge.Prelude.{ℕ, ◌+◌, ◌-◌, ◌<◌, Bool, true, false, ◌≡◌, ◌==◌, if◌then◌else◌}

-- Where the listener is in begin_connection_worker.
pub data Phase : Type 0 where
  outside counted reset : Phase

-- `active_connection_workers` and the event; `running`; the listener; how many workers have been
-- dispatched and not ended; and how many threads are between the decrement to 0 and SetEvent.
pub record Workers : Type 0 where
  pub active_connection_workers : ℕ
  pub done_event : Bool
  pub running : Bool
  pub listener : Phase
  pub dispatched : ℕ
  pub setting : ℕ

-- InterlockedIncrement, then ResetEvent.
unfoldable pub begin_count : Workers → Workers
begin_count s = record s {
  active_connection_workers = s.active_connection_workers + 1;
  listener = counted;
}

unfoldable pub begin_reset : Workers → Workers
begin_reset s = record s { done_event = false; listener = reset }

-- InterlockedDecrement: at 0, SetEvent comes next.
unfoldable pub discount : Workers → Workers
discount s =
    let n = s.active_connection_workers - 1 in
    record s {
      active_connection_workers = n;
      setting = if n == 0 then s.setting + 1 else s.setting;
    }

-- The test of `running`: a worker is dispatched, or the count is taken back.
unfoldable pub begin_check : Workers → Workers
unfolding discount
begin_check s =
    if s.running
    then record s { listener = outside; dispatched = s.dispatched + 1 }
    else discount (record s { listener = outside })

unfoldable pub end_connection_worker : Workers → Workers
unfolding discount
end_connection_worker s = discount (record s { dispatched = s.dispatched - 1 })

unfoldable pub set_event : Workers → Workers
set_event s = record s { done_event = true; setting = s.setting - 1 }

unfoldable pub request_runtime_stop : Workers → Workers
request_runtime_stop s = record s { running = false }

pub data WorkerStep (s : Workers) : Workers → Type 0 where
  counts : s.listener ≡ outside → WorkerStep s (begin_count s)
  resets : s.listener ≡ counted → WorkerStep s (begin_reset s)
  checks : s.listener ≡ reset → WorkerStep s (begin_check s)
  finishes : 0 < s.dispatched → WorkerStep s (end_connection_worker s)
  sets : 0 < s.setting → WorkerStep s (set_event s)
  stops : WorkerStep s (request_runtime_stop s)

-- The start: no worker, and the event is set.
abbrev pub no_workers : Workers
no_workers = record {
  active_connection_workers = 0;
  done_event = true;
  running = true;
  listener = outside;
  dispatched = 0;
  setting = 0;
}

pub data Workings : Workers → Type 0 where
  here : Workings no_workers
  next : {r s : Workers} → Workings r → WorkerStep r s → Workings s
