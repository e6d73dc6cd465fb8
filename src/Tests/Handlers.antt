-- ===== src/Tests/Handlers.antt =====
-- Windows/src/pb_relay.c, pb_http.c: connections to a proxy on small inputs.
use proxy_bridge.Prelude.{
  ◌==◌, ◌&&◌, ℕ, ◌+◌, true, false, ◌≡◌, refl, ◌⊎◌, [], ◌∷◌, ◌++◌, none, some, codes, arith,
}
use proxy_bridge.Conntrack.Chains.{count}
use proxy_bridge.CText.{contains, behind, before}
use proxy_bridge.CText.Number.{atoi}
use proxy_bridge.Proxy.{http, ProxyStore, find_proxy_config, or_first}
use proxy_bridge.Sockets.{Socket}
use proxy_bridge.Http.{
  digits, decimal, format_ip_address, send_once, recv_once, request, exchange, accepts_v4,
  accepts_v6, http_connect, http_connect_v6,
}
use proxy_bridge.Http.Requests.{read_authority, read_target, read_target-request}
use proxy_bridge.Handler.{
  ConnectionConfig, TransferAnswers, World, dropped, pooled, transfer_handler, socks_handshake,
  handshake, with_socket, with_proxy, connection_handler,
}
use proxy_bridge.Handler.Settled.{handed, HasAgreed, connection_handler-Sound}
use proxy_bridge.Workers.{
  Workers, begin_count, begin_reset, discount, begin_check, end_connection_worker, set_event,
  counts, resets, checks, finishes, sets, no_workers, Workings, here, next,
}
use proxy_bridge.Workers.Wakes.{in_begin, Workings-IsWoken}
use proxy_bridge.Tests.Sockets.{config}

abbrev store : ProxyStore
store = record {
  configs = record config { type = http } ∷ [];
  next_config_id = 2;
  udp_generation = 0;
  closed = [];
}

abbrev client : ConnectionConfig
client = record {
  client_socket = 40;
  orig_dest_ip = 134744072;
  orig_dest_ip6 = [];
  is_ipv6 = false;
  orig_dest_port = 443;
  proxy_config_id = 1;
}

abbrev answers : TransferAnswers
answers = record {
  taken_over = true;
  pair = true;
  registered = true;
  directions = true;
  thread = true;
}

abbrev stream : Socket
stream = record {
  accepts = λ k. 2000;
  calls = 0;
  sent = [];
  segments = (codes "HTTP/1.1 200 OK" ++ (13 ∷ 10 ∷ 13 ∷ 10 ∷ [])) ∷ [];
}

abbrev world : World
world = record {
  resolve = λ host. 0;
  inet_ntop = λ ip6. [];
  cached_domain = some (codes "dns.google");
  socket = some 41;
  connects = λ ip port. ip == 16777343 && port == 1080;
  stream = λ ip port. stream;
  transfer_config = true;
  transfer = answers;
}

connection_handler-Sound_example :
    ((x : ℕ)
      → count x (connection_handler store world client).closed
          + count x (
              handed
                (connection_handler store world client).carried
                40
                (connection_handler store world client).opened)
        ≡ count x (40 ∷ (connection_handler store world client).opened))
    × (((connection_handler store world client).carried ≡ dropped)
        ⊎ HasAgreed store world client (connection_handler store world client).stream)
connection_handler-Sound_example = connection_handler-Sound store world client

read_target-request_example :
    read_target (read_authority (request (codes "dns.google") 443))
    ≡ some (codes "dns.google", some 443)
unfolding contains
read_target-request_example =
    read_target-request (codes "dns.google") 443 refl refl refl (omega arith)

-- Runs of the model.
program : Unit {0}
unfolding digits decimal format_ip_address send_once recv_once request exchange accepts_v4
    accepts_v6 http_connect http_connect_v6 behind before atoi transfer_handler socks_handshake
    handshake with_socket with_proxy connection_handler find_proxy_config or_first begin_count
    begin_reset discount begin_check end_connection_worker set_event
program = tt

test_handled :
    ((connection_handler store world client).carried ≡ pooled)
    × ((connection_handler store world client).closed ≡ [])
unfolding program
test_handled = (refl, refl)

test_address : format_ip_address 134744072 ≡ codes "8.8.8.8"
unfolding program
test_address = refl

abbrev other : Socket
other = record stream { segments = codes "ICY 200 OK" ∷ [] }

-- The check for IPv6 accepts a reply that is not one of HTTP/1.
test_not_http :
    ((http_connect none 134744072 443 other).0 ≡ false)
    × ((http_connect_v6 (λ ip6. []) none [] 443 other).0 ≡ true)
unfolding program
test_not_http = (refl, refl)

-- A reply that is cut before its code is refused.
test_cut :
    (http_connect none 134744072 443
      (record stream { segments = codes "HTTP/1.1 " ∷ codes "200 OK" ∷ [] })).0
    ≡ false
unfolding program
test_cut = refl

-- A worker ends while the listener begins the next one: the event is set late.
abbrev late : Workers
late = set_event (
    begin_check (
      begin_reset
        (begin_count (end_connection_worker (begin_check (begin_reset (begin_count no_workers)))))))

working : Workings late
unfolding program
working =
    next
      (next
        (next
          (next
            (next (next (next (next here (counts refl)) (resets refl)) (checks refl))
              (finishes (omega arith)))
            (counts refl))
          (resets refl))
        (checks refl))
      (sets (omega arith))

Workings-IsWoken_example :
    (late.active_connection_workers ≡ late.dispatched + in_begin late.listener)
    × (late.active_connection_workers ≡ 0 → late.setting ≡ 0 → late.done_event ≡ true)
Workings-IsWoken_example = Workings-IsWoken working

-- The event is set, and a worker is at work.
test_late : (late.done_event ≡ true) × (late.dispatched ≡ 1)
unfolding program
test_late = (refl, refl)
