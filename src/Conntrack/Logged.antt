-- ===== src/Conntrack/Logged.antt =====
-- Windows/src/pb_conntrack.c: the list of logged connections and its running length, which tell
-- whether a connection was reported already.
use proxy_bridge.Prelude.{
  ℕ, ◌-◌, Bool, true, false, ◌&&◌, List, [], ◌∷◌, Option, none, some, ltb, ◌==◌, if◌then◌else◌,
  length, take, any,
}
use proxy_bridge.Prelude.Int.{ℤ, pos, leb_int, plus_one, minus}
use proxy_bridge.Rules.{RuleAction, proxy, direct, block}

-- `LOGGED_CONNECTION`.
pub record LoggedConnection : Type 0 where
  pub pid : ℕ
  pub dest_ip : ℕ
  pub dest_port : ℕ
  pub action : RuleAction

-- `logged_connections` and `g_logged_count`.
pub record Log : Type 0 where
  pub entries : List LoggedConnection
  pub count : ℤ

abbrev pub same_action : RuleAction → RuleAction → Bool
same_action proxy proxy = true
same_action direct direct = true
same_action block block = true
same_action _ _ = false

unfoldable pub is_logged_as : LoggedConnection → LoggedConnection → Bool
is_logged_as c logged =
    logged.pid == c.pid
    && logged.dest_ip == c.dest_ip
    && logged.dest_port == c.dest_port
    && same_action logged.action c.action

unfoldable pub is_connection_already_logged : Log → LoggedConnection → Bool
is_connection_already_logged log c = any (is_logged_as c) log.entries

-- The counter is at its bound, and the list has more than 99 entries.
abbrev pub is_full : Log → Bool
is_full log = leb_int 100 log.count && ltb 99 (length log.entries)

-- The new entry, where there is memory for it.
unfoldable pub push_logged : Bool → Log → LoggedConnection → Log
push_logged allocated log c =
    if allocated then record { entries = c ∷ log.entries; count = plus_one log.count } else log

-- `add_logged_connection` until it gives up the lock. A full list is cut after its first 99 entries, and
-- the number of those that are to be freed is the second component; where none are, the call is over.
unfoldable pub add_logged_connection : Bool → Log → LoggedConnection → Log × Option ℕ
unfolding push_logged
add_logged_connection allocated log c =
    if is_full log
    then (record log { entries = take 99 log.entries }, some (length log.entries - 99))
    else (push_logged allocated log c, none)

-- Once it has freed them and taken the lock again, on what the log is by then.
unfoldable pub add_freed : Bool → ℕ → Log → LoggedConnection → Log
unfolding push_logged
add_freed allocated freed log c =
    push_logged allocated (record log { count = minus log.count freed }) c

unfoldable pub clear_logged_connections : Log → Log
clear_logged_connections log = record { entries = []; count = pos 0 }

-- The end of `cleanup_stale_connections`, which counts the list anew and leaves the counter alone.
unfoldable pub trim_log : Log → Log
trim_log log =
    if ltb 100 (length log.entries) then record log { entries = take 100 log.entries } else log
