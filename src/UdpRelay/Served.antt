-- ===== src/UdpRelay/Served.antt =====
-- Windows/src/pb_relay.c: the sockets of a configuration over all the events of the UDP relay.
use proxy_bridge.Prelude.{
  ℕ, ◌-◌, ◌||◌, is_empty, Bool, true, false, not, if◌then◌else◌, ◌≡◌, refl, List, [], ◌∷◌, ltb,
  Bytes, length, arith,
}
use proxy_bridge.Proxy.{close, close_both}
use proxy_bridge.Socks.Associate.{Network, Association, establish_udp_associate_for_config}
use proxy_bridge.Socks.Associate.Balance.{Balanced, Whole, count-close, establish-Balanced}
use proxy_bridge.UdpRelay.{
  max_buf, dropped, Datagram, connect_unless, connect_if_down, resend, from_application,
  from_application_v6, control_closed, receive_failed, Event, idle, closed_by_proxy, datagram,
  datagram_v6, failed, stopped, serve, serve_all,
}

abbrev Sound : Association → Type 0
Sound s = Balanced s × Whole s.config

dropped-Sound : (s : Association) → Balanced s → Sound (dropped s)
unfolding close_both
dropped-Sound s b = (
  (λ x. omega (
    arith,
    b x,
    count-close x s.config.udp_send_sock (close s.config.udp_tcp_ctrl s.closed),
    count-close x s.config.udp_tcp_ctrl s.closed,
  )),
  (refl, refl),
)

again-Sound :
    (net : Network) (s : Association)
    → Sound s
    → Sound (establish_udp_associate_for_config net (dropped s)).1
again-Sound net s i =
    let d = dropped-Sound s i.0 in
    let r = establish-Balanced net (dropped s) d.0 d.1 refl in (r.0, r.1)

connect-Sound :
    (b : Bool) (net : Network) (s : Association)
    → s.config.udp_connected ≡ b
    → Sound s
    → Sound (connect_unless b net s).1
unfolding connect_unless
connect-Sound true net s e i = i
connect-Sound false net s e i = let r = establish-Balanced net s i.0 i.1 e in (r.0, r.1)

if-Sound : (b : Bool) (s t : Association) → Sound s → Sound t → Sound (if b then s else t)
if-Sound true s t i j = i
if-Sound false s t i j = j

either-Sound :
    (b : Bool) (r q : List Datagram × Association)
    → Sound r.1
    → Sound q.1
    → Sound (if b then r else q).1
either-Sound true r q i j = i
either-Sound false r q i j = j

from_application-Sound :
    (net retry : Network) (goes : Bool) (dest : ℕ × ℕ) (payload : Bytes) (s : Association)
    → Sound s
    → Sound (from_application net retry goes dest payload s).1
unfolding from_application resend
from_application-Sound net retry goes dest payload s i =
    let c = connect_if_down net s in
    let j = connect-Sound s.config.udp_connected net s refl i in
    either-Sound (is_empty payload || ltb (max_buf - 10) (length payload)) _ _ i
      (either-Sound (not c.0) _ _ j (either-Sound goes _ _ j (again-Sound retry c.1 j)))

from_application_v6-Sound :
    (net : Network) (dest : Bytes × ℕ) (payload : Bytes) (s : Association)
    → Sound s
    → Sound (from_application_v6 net dest payload s).1
unfolding from_application_v6
from_application_v6-Sound net dest payload s i =
    let c = connect_if_down net s in
    let j = connect-Sound s.config.udp_connected net s refl i in
    either-Sound (is_empty payload || ltb (max_buf - 22) (length payload)) _ _ i
      (either-Sound c.1.config.udp_connected _ _ j j)

serve-Sound : (e : Event) (s : Association) → Sound s → Sound (serve e s)
unfolding serve control_closed receive_failed
serve-Sound (idle net) s i = connect-Sound s.config.udp_connected net s refl i
serve-Sound (closed_by_proxy net) s i = if-Sound s.config.udp_connected _ _ (again-Sound net s i) i
serve-Sound (datagram net retry goes dest payload) s i =
    from_application-Sound net retry goes dest payload s i
serve-Sound (datagram_v6 net dest payload) s i = from_application_v6-Sound net dest payload s i
serve-Sound failed s i = if-Sound s.config.udp_connected _ _ (dropped-Sound s i.0) i
serve-Sound stopped s i = dropped-Sound s i.0

-- Whatever events the UDP relay serves for a configuration, and whatever fails in them: each socket
-- that was ever opened is held by the configuration or was closed, and that once; and the
-- configuration holds both sockets where it counts as connected, and else none.
pub serve_all-Balanced :
    (es : List Event) (s : Association)
    → Balanced s
    → Whole s.config
    → Balanced (serve_all es s) × Whole (serve_all es s).config
unfolding serve_all
serve_all-Balanced [] s b w = (b, w)
serve_all-Balanced (e ∷ es) s b w =
    let i = serve-Sound e s (b, w) in serve_all-Balanced es (serve e s) i.0 i.1
