-- ===== src/Owners/Lookups.antt =====
-- Windows/src/pb_process.c: the lookups of a pid in the owner tables.
pub mod Cached
use proxy_bridge.Prelude.{
  ℕ, ◌+◌, ◌-◌, ◌*◌, ◌/◌, ◌%◌, Bool, true, false, not, ◌&&◌, ◌||◌, List, [], ◌∷◌, Option, none, some,
  ◌==◌, if◌then◌else◌, Bytes, codes, equal, replicate, take,
}
use proxy_bridge.Owners.{LocalEnd, PidCache, get_cached_pid, cache_pid}

-- `ntohs` on the low 16 bits of a port field.
abbrev pub ntohs : ℕ → ℕ
ntohs raw = raw % 256 * 256 + raw / 256 % 256

-- A row of a TCP or a UDP table, as far as it is read; `Key` is an address of its family.
pub record OwnerRow (Key : Type 0) : Type 0 where
  pub local_addr : Key
  pub local_port : ℕ
  pub pid : ℕ

module _ {Key : Type 0} (same : Key → Key → Bool) where
  abbrev pub is_local : Key → ℕ → OwnerRow Key → Bool
  is_local addr port r = same r.local_addr addr && ntohs r.local_port == port

  -- The loop over a TCP table: the first row of the local end that has an owner.
  unfoldable pub tcp_owner : Key → ℕ → List (OwnerRow Key) → ℕ
  tcp_owner addr port [] = 0
  tcp_owner addr port (r ∷ rs) =
      let rest = tcp_owner addr port rs in
      if r.pid == 0 then rest else if is_local addr port r then r.pid else rest

-- A loop over a UDP table: the first row that a test takes.
unfoldable pub udp_owner : {Key : Type 0} → (OwnerRow Key → Bool) → List (OwnerRow Key) → ℕ
udp_owner taken [] = 0
udp_owner taken (r ∷ rs) = let rest = udp_owner taken rs in if taken r then r.pid else rest

abbrev pub same_v4 : ℕ → ℕ → Bool
same_v4 a b = a == b

-- The exact address first, and if that gives no pid, the unspecified one.
unfoldable pub udp_owner_v4 : ℕ → ℕ → List (OwnerRow ℕ) → ℕ
unfolding udp_owner
udp_owner_v4 src_ip src_port rows =
    let exact = udp_owner (is_local same_v4 src_ip src_port) rows in
    if exact == 0 then udp_owner (is_local same_v4 0 src_port) rows else exact

-- What both lookups over IPv4 do around the table: they answer from the cache, or cache what they
-- find. `asked` and `told` are the tick counts at the lookup in the cache and at the store.
unfoldable pub cached_or :
    Bool
    → ℕ
    → ℕ
    → LocalEnd
    → (List (OwnerRow ℕ) → ℕ)
    → Option (List (OwnerRow ℕ))
    → PidCache
    → ℕ × PidCache
cached_or allocated asked told k owner none cache = (get_cached_pid asked k cache, cache)
cached_or allocated asked told k owner (some rows) cache =
    let cached = get_cached_pid asked k cache in
    let pid = owner rows in
    if not (cached == 0)
    then (cached, cache)
    else (pid, (if pid == 0 then cache else cache_pid allocated told k pid cache))

abbrev pub tcp_end : ℕ → ℕ → LocalEnd
tcp_end src_ip src_port = record { src_ip = src_ip; src_port = src_port; is_udp = false }

abbrev pub udp_end : ℕ → ℕ → LocalEnd
udp_end src_ip src_port = record { src_ip = src_ip; src_port = src_port; is_udp = true }

-- The lookups, on the table that the fetch gives, if it gives one.
unfoldable pub get_process_id_from_connection :
    Bool → ℕ → ℕ → ℕ → ℕ → Option (List (OwnerRow ℕ)) → PidCache → ℕ × PidCache
unfolding cached_or tcp_owner
get_process_id_from_connection allocated asked told src_ip src_port =
    cached_or allocated asked told (tcp_end src_ip src_port) (tcp_owner same_v4 src_ip src_port)

unfoldable pub get_process_id_from_udp_connection :
    Bool → ℕ → ℕ → ℕ → ℕ → Option (List (OwnerRow ℕ)) → PidCache → ℕ × PidCache
unfolding cached_or udp_owner_v4
get_process_id_from_udp_connection allocated asked told src_ip src_port =
    cached_or allocated asked told (udp_end src_ip src_port) (udp_owner_v4 src_ip src_port)

abbrev pub in_table : (List (OwnerRow Bytes) → ℕ) → Option (List (OwnerRow Bytes)) → ℕ
in_table owner none = 0
in_table owner (some rows) = owner rows

unfoldable pub get_process_id_from_connection_v6 : Bytes → ℕ → Option (List (OwnerRow Bytes)) → ℕ
unfolding tcp_owner
get_process_id_from_connection_v6 src_ip6 src_port = in_table (tcp_owner equal src_ip6 src_port)

abbrev pub is_local_v6 : Bytes → ℕ → OwnerRow Bytes → Bool
is_local_v6 addr port r =
    ntohs r.local_port == port && (equal r.local_addr addr || equal r.local_addr (replicate 16 0))

unfoldable pub get_process_id_from_udp_connection_v6 :
    Bytes → ℕ → Option (List (OwnerRow Bytes)) → ℕ
unfolding udp_owner
get_process_id_from_udp_connection_v6 src_ip6 src_port =
    in_table (udp_owner (is_local_v6 src_ip6 src_port))

-- `get_process_name_from_pid` into a buffer of `name_size` bytes; `image_name` is the name that the
-- system gives for a pid, if the process can be opened and the name fits.
unfoldable pub get_process_name_from_pid : (ℕ → Option Bytes) → ℕ → ℕ → Option Bytes
get_process_name_from_pid image_name pid name_size =
    if pid == 0
    then none
    else if pid == 4
    then some (take (name_size - 1) (codes "System"))
    else image_name pid
