-- ===== src/Owners/Tables.antt =====
-- Windows/src/pb_process.c: the owner tables of the system, the buffer that they are read into, and
-- the lookups of a pid in them. GetExtendedTcpTable and GetExtendedUdpTable are a parameter.
pub mod Fetched
use proxy_bridge.Prelude.{
  ℕ, zero, suc, ◌+◌, ◌-◌, ◌*◌, ◌/◌, ◌%◌, ◌^◌, Bool, true, false, not, ◌&&◌, ◌||◌, List, [], ◌∷◌,
  Option, none, some, ltb, ◌==◌, if◌then◌else◌, Bytes, equal, replicate, u32,
}
use proxy_bridge.Owners.{LocalEnd, PidCache, get_cached_pid, cache_pid}

-- `g_pidtbl_buf`, whether it is there, and `g_pidtbl_cap`.
pub record Scratch : Type 0 where
  pub present : Bool
  pub cap : ℕ

-- The loop of `pidtbl_reserve`; `none` where the fuel runs out.
unfoldable pub grow : ℕ → ℕ → ℕ → Option ℕ
grow zero newcap need = none
grow (suc fuel) newcap need =
    let rest = grow fuel (u32 (newcap * 2)) need in
    if ltb newcap need
    then (if ltb ((2 ^ 32 - 1) / 2) newcap then some need else rest)
    else some newcap

-- The buffer after `realloc`.
abbrev pub grown : (ℕ → Bool) → Scratch → Option ℕ → Bool × Scratch
grown realloc s none = (false, s)
grown realloc s (some newcap) =
    if realloc newcap then (true, record { present = true; cap = newcap }) else (false, s)

-- The result says whether there is a buffer.
unfoldable pub pidtbl_reserve : (ℕ → Bool) → ℕ → Scratch → Bool × Scratch
unfolding grow
pidtbl_reserve realloc need s =
    if ltb s.cap need
    then grown realloc s (grow 33 (if s.cap == 0 then 16384 else s.cap) need)
    else (s.present, s)

-- What a call of the system answers: the rows, with the size that it wrote; that it needs a larger
-- buffer; or another error.
pub data Answer (Row : Type 0) : Type 0 where
  no_error : List Row → ℕ → Answer Row
  insufficient : ℕ → Answer Row
  failed : Answer Row

-- The sizing call, without a buffer, and what it leads to.
pub data Sizing (Row : Type 0) : Type 0 where
  fetched : List Row → Sizing Row
  sized : ℕ → Sizing Row
  stopped : Sizing Row

module _ {Row : Type 0} (realloc : ℕ → Bool) (owner_call : ℕ → Option ℕ → Answer Row) where
  abbrev pub with_buffer : Answer Row → Sizing Row
  with_buffer (no_error rows size) = fetched rows
  with_buffer (insufficient size) = sized size
  with_buffer failed = stopped

  abbrev pub without_buffer : Answer Row → Sizing Row
  without_buffer (no_error rows size) = sized size
  without_buffer (insufficient size) = sized size
  without_buffer failed = stopped

  -- The loop, with the attempts that are left; `k` counts the calls of the system.
  unfoldable pub attempts : ℕ → ℕ → ℕ → Scratch → Option (List Row) × Scratch
  attempts zero k size s = (none, s)
  attempts (suc left) k size s =
      let wanted = size + (size / 4 + 4096) in
      let (there, t) = pidtbl_reserve realloc wanted s in
      if ltb (2 ^ 32 - 1 - size / 4 - 4096) size
      then (none, s)
      else if there
      then elim (with_buffer (owner_call k (some wanted))) [
        | fetched rows ↦ (some rows, t)
        | sized got ↦ attempts left (k + 1) got t
        | stopped ↦ (none, t)
      ]
      else (none, t)

  -- The first call: into the buffer of the last lookup, or without one.
  unfoldable pub first_call : Bool → ℕ → Sizing Row
  first_call true cap = with_buffer (owner_call 0 (some cap))
  first_call false cap = without_buffer (owner_call 0 none)

  unfoldable pub after_first : Scratch → Sizing Row → Option (List Row) × Scratch
  unfolding attempts
  after_first s (fetched rows) = (some rows, s)
  after_first s (sized size) = attempts 4 1 size s
  after_first s stopped = (none, s)

  -- `owner_table_fetch`, on the answers of the system to its calls in their order.
  unfoldable pub owner_table_fetch : Scratch → Option (List Row) × Scratch
  unfolding first_call after_first
  owner_table_fetch s = after_first s (first_call s.present s.cap)
