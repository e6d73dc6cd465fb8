-- ===== src/Proxy.antt =====
-- Windows/src/pb_proxy.c: the proxy configurations. `resolve_hostname` is a parameter: what call `k`
-- of it gives for a name, 0 where it fails.
pub mod Invariant
pub mod Calls
pub mod Found
use proxy_bridge.Prelude.{
  ℕ, zero, suc, ◌+◌, Bool, true, false, not, ◌&&◌, ◌||◌, List, [], ◌∷◌, ◌++◌, Option, none, some,
  leb, ◌==◌, if◌then◌else◌, Bytes, length, take, is_empty, u32,
}
use proxy_bridge.Rules.{ProcessRule, is_proxy}

pub data ProxyType : Type 0 where
  http socks5 : ProxyType

-- `PROXY_CONFIG`; a socket is `none` where the field is INVALID_SOCKET.
pub record ProxyConfig : Type 0 where
  pub config_id : ℕ
  pub type : ProxyType
  pub host : Bytes
  pub port : ℕ
  pub send_domain_to_proxy : Bool
  pub resolved_ip : ℕ
  pub last_udp_attempt : ℕ
  pub udp_tcp_ctrl : Option ℕ
  pub udp_send_sock : Option ℕ
  pub udp_connected : Bool

-- `g_proxy_configs` up to its count, `g_next_config_id`, `g_udp_generation`, and the sockets that
-- have been closed, the last one first.
pub record ProxyStore : Type 0 where
  pub configs : List ProxyConfig
  pub next_config_id : ℕ
  pub udp_generation : ℕ
  pub closed : List ℕ

abbrev pub max_proxy_configs : ℕ
max_proxy_configs = 16

abbrev pub find_config : ℕ → List ProxyConfig → Option ProxyConfig
find_config config_id [] = none
find_config config_id (c ∷ cs) = elim (c.config_id == config_id) [
  | true ↦ some c
  | false ↦ find_config config_id cs
]

-- The configuration in the first place, if there is one.
abbrev pub first_config : List ProxyConfig → Option ProxyConfig
first_config [] = none
first_config (c ∷ cs) = some c

unfoldable pub or_first : List ProxyConfig → Option ProxyConfig → Option ProxyConfig
or_first configs none = first_config configs
or_first configs (some c) = some c

unfoldable pub find_proxy_config : ProxyStore → ℕ → Option ProxyConfig
unfolding or_first
find_proxy_config s config_id = or_first s.configs (find_config config_id s.configs)

abbrev pub is_socks5 : ProxyType → Bool
is_socks5 http = false
is_socks5 socks5 = true

-- `any_socks5_config`.
unfoldable pub any_socks5_config : List ProxyConfig → Bool
any_socks5_config [] = false
any_socks5_config (c ∷ cs) =
    (is_socks5 c.type && not (is_empty c.host) && not (c.port == 0)) || any_socks5_config cs

-- `is_proxy_config_referenced`, on the list of rules.
unfoldable pub is_proxy_config_referenced : List ProcessRule → ℕ → Bool
is_proxy_config_referenced [] config_id = false
is_proxy_config_referenced (r ∷ rs) config_id =
    (r.enabled && is_proxy r.action && (r.proxy_config_id == config_id || r.proxy_config_id == 0))
    || is_proxy_config_referenced rs config_id

-- The arguments that the add and edit calls share; an absent text is a NULL pointer.
pub record ProxyArgs : Type 0 where
  pub type : ProxyType
  pub proxy_ip : Option Bytes
  pub proxy_port : ℕ
  pub username : Option Bytes
  pub password : Option Bytes
  pub send_domain_to_proxy : Bool

abbrev pub is_given : Option Bytes → Bool
is_given none = false
is_given (some text) = not (is_empty text)

-- The guards that need no lookup: a host and a port, and no credentials.
unfoldable pub accepted : ProxyArgs → Bool
accepted args =
    is_given args.proxy_ip
    && not (args.proxy_port == 0)
    && not (is_given args.username || is_given args.password)

-- `strncpy_s` to the field of 256 bytes.
abbrev pub copy_host : Option Bytes → Bytes
copy_host none = []
copy_host (some host) = take 255 host

abbrev pub name_of : Option Bytes → Bytes
name_of none = []
name_of (some host) = host

unfoldable pub new_config : ℕ → ℕ → ProxyArgs → ProxyConfig
new_config id resolved args = record {
  config_id = id;
  type = args.type;
  host = copy_host args.proxy_ip;
  port = args.proxy_port;
  send_domain_to_proxy = args.send_domain_to_proxy;
  resolved_ip = resolved;
  last_udp_attempt = 0;
  udp_tcp_ctrl = none;
  udp_send_sock = none;
  udp_connected = false;
}

unfoldable pub add_proxy_config : (ℕ → Bytes → ℕ) → ProxyStore → ProxyArgs → ℕ × ProxyStore
add_proxy_config resolve s args =
    if not (accepted args)
    then (0, s)
    else if resolve 0 (name_of args.proxy_ip) == 0
    then (0, s)
    else if leb max_proxy_configs (length s.configs)
    then (0, s)
    else (
      s.next_config_id,
      record s {
        configs =
            s.configs ++ new_config s.next_config_id (resolve 1 (name_of args.proxy_ip)) args ∷ [];
        next_config_id = u32 (s.next_config_id + 1);
        udp_generation = u32 (s.udp_generation + 1);
      },
    )

abbrev pub close : Option ℕ → List ℕ → List ℕ
close none closed = closed
close (some socket) closed = socket ∷ closed

-- The two sockets of a configuration, the control connection closed first.
unfoldable pub close_both : ProxyConfig → List ℕ → List ℕ
close_both c closed = close c.udp_send_sock (close c.udp_tcp_ctrl closed)

unfoldable pub edited_config : ℕ → ProxyArgs → ProxyConfig → ProxyConfig
edited_config resolved args c = record c {
  type = args.type;
  host = copy_host args.proxy_ip;
  port = args.proxy_port;
  send_domain_to_proxy = args.send_domain_to_proxy;
  resolved_ip = resolved;
  udp_tcp_ctrl = none;
  udp_send_sock = none;
  udp_connected = false;
}

-- The first configuration with the number is replaced by what `f` makes of it: a new one, or none.
unfoldable pub replace_config :
    ℕ → (ProxyConfig → List ProxyConfig) → List ProxyConfig → List ProxyConfig
replace_config config_id f [] = []
replace_config config_id f (c ∷ cs) = elim (c.config_id == config_id) [
  | true ↦ f c ++ cs
  | false ↦ c ∷ replace_config config_id f cs
]

-- The rest of an edit or a deletion, on the configuration that the loop found.
unfoldable pub replace_found :
    (ProxyConfig → List ProxyConfig) → ProxyStore → ℕ → Option ProxyConfig → Bool × ProxyStore
replace_found f s config_id none = (false, s)
replace_found f s config_id (some c) = (
  true,
  record s {
    configs = replace_config config_id f s.configs;
    udp_generation = u32 (s.udp_generation + 1);
    closed = close_both c s.closed;
  },
)

unfoldable pub edit_proxy_config : (ℕ → Bytes → ℕ) → ProxyStore → ℕ → ProxyArgs → Bool × ProxyStore
edit_proxy_config resolve s config_id args =
    if not (accepted args)
    then (false, s)
    else if resolve 0 (name_of args.proxy_ip) == 0
    then (false, s)
    else replace_found (λ c. edited_config (resolve 0 (name_of args.proxy_ip)) args c ∷ []) s
        config_id (find_config config_id s.configs)

unfoldable pub delete_proxy_config : ProxyStore → ℕ → Bool × ProxyStore
delete_proxy_config s config_id =
    replace_found (λ c. []) s config_id (find_config config_id s.configs)
