-- ===== src/Tests/Sockets.antt =====
-- Windows/src/pb_socks5.c, pb_util.c: the client on small inputs.
use proxy_bridge.Prelude.{true, false, ◌≡◌, refl, [], ◌∷◌, ◌++◌, none, some, Bytes, codes, arith}
use proxy_bridge.Proxy.{ProxyConfig, socks5, close_both}
use proxy_bridge.Sockets.{Socket, send_from, send_all, recv_from, recv_n}
use proxy_bridge.Socks.{
  greeting, drain, drain_domain, drain_bound, reply_after, socks5_read_connect_reply,
  socks5_negotiate_no_auth, connect_with, socks5_connect, socks5_udp_associate_with_config,
}
use proxy_bridge.Socks.Connects.{
  Destination, v4, domain, connect, request_of, behind_handshake, connect-Ends,
}
use proxy_bridge.Socks.Replies.{behind_choice, Ends}
use proxy_bridge.Socks.Requests.{read_request, read_request-request_of}
use proxy_bridge.Socks.Associate.{
  Network, Association, with_datagrams, with_relay, with_control,
  establish_udp_associate_for_config,
}

abbrev target : Destination
target = domain (codes "example.org") 443

-- The choice and the reply come in three segments, with a byte of the server behind them.
abbrev pub socket : Socket
socket = record {
  accepts = λ k. 5;
  calls = 0;
  sent = [];
  segments = (5 ∷ []) ∷ (0 ∷ 5 ∷ 0 ∷ 0 ∷ 1 ∷ 127 ∷ []) ∷ (0 ∷ 0 ∷ 1 ∷ 4 ∷ 56 ∷ 77 ∷ []) ∷ [];
}

abbrev stream : Bytes
stream = 5 ∷ 0 ∷ 5 ∷ 0 ∷ 0 ∷ 1 ∷ 127 ∷ 0 ∷ 0 ∷ 1 ∷ 4 ∷ 56 ∷ 77 ∷ []

connect-Ends_example :
    Ends
      (([] ++ greeting) ++ request_of target)
      (behind_handshake (behind_choice stream))
      (connect target socket)
connect-Ends_example =
    connect-Ends target [] stream socket (omega arith) (λ k. omega arith) (refl, omega arith, refl)

read_request-request_of_example :
    read_request (request_of target ++ (1 ∷ 2 ∷ [])) ≡ some (target, 1 ∷ 2 ∷ [])
read_request-request_of_example = read_request-request_of target (1 ∷ 2 ∷ []) (omega arith)

abbrev pub config : ProxyConfig
config = record {
  config_id = 1;
  type = socks5;
  host = codes "127.0.0.1";
  port = 1080;
  send_domain_to_proxy = true;
  resolved_ip = 16777343;
  last_udp_attempt = 0;
  udp_tcp_ctrl = none;
  udp_send_sock = none;
  udp_connected = false;
}

-- The proxy leaves the address of its relay open.
abbrev pub network : Network
network = record {
  now = 5000;
  tcp_socket = some 70;
  udp_socket = some 71;
  resolve = λ host. 16777343;
  connects = true;
  stream = record socket {
    segments = (5 ∷ 0 ∷ 5 ∷ 0 ∷ 0 ∷ 1 ∷ []) ∷ (0 ∷ 0 ∷ 0 ∷ 0 ∷ 4 ∷ 56 ∷ []) ∷ [];
  };
}

abbrev pub association : Association
association = record { config = config; relay_addr = (0, 0); opened = 9 ∷ []; closed = 9 ∷ [] }

-- Runs of the model.
program : Unit {0}
unfolding send_from send_all recv_from recv_n drain drain_domain drain_bound reply_after
    socks5_read_connect_reply socks5_negotiate_no_auth connect_with socks5_connect
    socks5_udp_associate_with_config close_both with_datagrams with_relay with_control
    establish_udp_associate_for_config
program = tt

test_connect : (connect (v4 134744072 443) socket).0 ≡ true
unfolding program
test_connect = refl

test_rest : (connect (v4 134744072 443) socket).1.segments ≡ (77 ∷ []) ∷ []
unfolding program
test_rest = refl

test_associate :
    (establish_udp_associate_for_config network association).1.relay_addr ≡ (16777343, 1080)
unfolding program
test_associate = refl

test_retry :
    (establish_udp_associate_for_config (record network { now = 900 }) association).0 ≡ false
unfolding program
test_retry = refl
