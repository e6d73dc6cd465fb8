-- ===== src/Tests/Relays.antt =====
-- Windows/src/pb_relay.c: relays on small inputs.
use proxy_bridge.Prelude.{◌≤◌, true, false, ◌||◌, ◌≡◌, refl, ◌⊎◌, List, [], ◌∷◌, ◌++◌, some, arith}
use proxy_bridge.Proxy.{close_both}
use proxy_bridge.Sockets.{send_from, send_all, recv_from, recv_n}
use proxy_bridge.Socks.{socks5_negotiate_no_auth, socks5_udp_associate_with_config}
use proxy_bridge.Socks.Associate.{
  with_datagrams, with_relay, with_control, establish_udp_associate_for_config,
}
use proxy_bridge.Socks.Associate.Balance.{Balanced, Whole}
use proxy_bridge.Relay.{
  BufferPool, relay_pool_keep, Answers, completed, relay_buf_get, relay_buf_put, relay_post_wait,
  read_into, relay_post_read, relay_post_send, after_read, after_send, turn_in, worker_turn,
}
use proxy_bridge.Relay.Streams.{unsent}
use proxy_bridge.Relay.Steps.{
  at_rest, upload, download, Relay, dir_of, relay_start, relay_abort, relay_release, relay_dir_end,
  put_back, complete, post_first, post_upload, post_download, completes, Reach, here, next,
}
use proxy_bridge.Relay.Closing.{alive}
use proxy_bridge.Relay.Runs.{Reach-Streams, Reach-Closed}
use proxy_bridge.UdpRelay.{
  decapsulate, encapsulate_v4, connect_unless, resend, from_application, from_application_v6,
  control_closed, receive_failed, Event, idle, datagram, stopped, serve, serve_all,
}
use proxy_bridge.UdpRelay.Served.{serve_all-Balanced}
use proxy_bridge.Tests.Sockets.{network, association}

abbrev pool : BufferPool
pool = record { kept = 1; allocated = 1; freed = 0 }

abbrev taken : Answers
taken = record { malloc = true; posted = true }

-- Both directions wait; bytes come in on the upload and are sent on; the upload ends cleanly.
abbrev both_posted : Relay
both_posted = post_first download taken (post_first upload taken (relay_start pool))

abbrev readable : Relay
readable = complete upload taken (completed []) both_posted

abbrev received : Relay
received = complete upload taken (completed (1 ∷ 2 ∷ 3 ∷ [])) readable

abbrev partly : Relay
partly = complete upload taken (completed (1 ∷ 2 ∷ [])) received

-- Runs of the model.
program : Unit {0}
unfolding relay_buf_get relay_buf_put relay_post_wait read_into relay_post_read relay_post_send
    after_read after_send turn_in worker_turn relay_start relay_abort relay_release relay_dir_end
    put_back complete post_first send_from send_all recv_from recv_n socks5_negotiate_no_auth
    socks5_udp_associate_with_config close_both with_datagrams with_relay with_control
    establish_udp_associate_for_config decapsulate encapsulate_v4 connect_unless resend
    from_application from_application_v6 control_closed receive_failed serve serve_all
program = tt

run : Reach (relay_start pool) partly
unfolding program
run =
    next
      (next
        (next (next (next here (post_upload taken refl)) (post_download taken refl refl))
          (completes upload taken (completed []) refl))
        (completes upload taken (completed (1 ∷ 2 ∷ 3 ∷ [])) refl))
      (completes upload taken (completed (1 ∷ 2 ∷ [])) refl)

Reach-Streams_example :
    let d = dir_of upload partly in
    (d.received ≡ d.sent ++ unsent d)
    × ((d.shut ≡ false) ⊎ ((d.received ≡ d.sent) × (alive d ≡ false)))
Reach-Streams_example = Reach-Streams pool upload (omega arith) (omega arith) run

Reach-Closed_example :
    (partly.pool.kept ≤ relay_pool_keep)
    × (((partly.freed ≡ false)
          × (partly.closes ≡ 0)
          × ((alive partly.up || alive partly.down) ≡ true))
        ⊎ ((partly.freed ≡ true)
            × (partly.closes ≡ 1)
            × ((alive partly.up || alive partly.down) ≡ false)
            × (partly.pool.allocated ≡ at_rest partly.pool)))
Reach-Closed_example = Reach-Closed pool (omega arith) (omega arith) run

abbrev events : List Event
events =
    idle network
    ∷ datagram network (record network { now = 9000; tcp_socket = some 80; udp_socket = some 81 })
        false (134744072, 53) (7 ∷ [])
    ∷ stopped
    ∷ []

serve_all-Balanced_example :
    Balanced (serve_all events association) × Whole (serve_all events association).config
serve_all-Balanced_example = serve_all-Balanced events association (λ x. omega arith) (refl, refl)

test_partly : (partly.up.sent ≡ 1 ∷ 2 ∷ []) × (partly.up.off ≡ 2)
unfolding program
test_partly = (refl, refl)

-- The end of both directions closes the sockets.
test_closed :
    (complete download taken (completed []) (
      complete download taken (completed []) (
        complete upload taken
          (completed [])
          (complete upload taken (completed []) both_posted)))).closes
    ≡ 1
unfolding program
test_closed = refl

test_served : (serve_all events association).closed ≡ 81 ∷ 80 ∷ 71 ∷ 70 ∷ 9 ∷ []
unfolding program
test_served = refl
