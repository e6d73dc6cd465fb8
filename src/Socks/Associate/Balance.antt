-- ===== src/Socks/Associate/Balance.antt =====
-- Windows/src/pb_socks5.c: no attempt at a UDP association loses a socket.
use proxy_bridge.Prelude.{
  ℕ, ◌+◌, Bool, true, false, ◌||◌, ◌≡◌, refl, sym, ◌∙◌, inl, inr, List, ◌∷◌, Option, none, some,
  ltb, ◌==◌, is_empty, sub64, Bool-cases, arith,
}
use proxy_bridge.Conntrack.Chains.{count, bit}
use proxy_bridge.Proxy.{ProxyConfig, close, close_both, is_socks5}
use proxy_bridge.Socks.{socks5_udp_associate_with_config}
use proxy_bridge.Socks.Associate.{
  Network, Association, with_datagrams, with_relay, with_control, started,
  establish_udp_associate_for_config,
}

-- How often a socket is held.
abbrev pub held : ℕ → Option ℕ → ℕ
held x none = 0
held x (some y) = bit (y == x)

abbrev pub holds : ℕ → ProxyConfig → ℕ
holds x c = held x c.udp_tcp_ctrl + held x c.udp_send_sock

-- Each socket that was opened is held or was closed, and just once.
abbrev pub Balanced : Association → Type 0
Balanced s = (x : ℕ) → count x s.opened ≡ count x s.closed + holds x s.config

abbrev pub is_some : Option ℕ → Bool
is_some none = false
is_some (some x) = true

-- A connected configuration has both sockets, another one neither.
abbrev pub Whole : ProxyConfig → Type 0
Whole c = (is_some c.udp_tcp_ctrl ≡ c.udp_connected) × (is_some c.udp_send_sock ≡ c.udp_connected)

pub count-close :
    (x : ℕ) (o : Option ℕ) (xs : List ℕ) → count x (close o xs) ≡ count x xs + held x o
count-close x none xs = omega arith
count-close x (some y) xs = omega arith

-- What an attempt comes to.
abbrev Kept : Bool × Association → Type 0
Kept r = Balanced r.1 × Whole r.1.config × (r.0 ≡ r.1.config.udp_connected)

-- An association that holds no socket.
record IsBare (s : Association) : Type 0 where
  balanced : (x : ℕ) → count x s.opened ≡ count x s.closed
  control : s.config.udp_tcp_ctrl ≡ none
  datagrams : s.config.udp_send_sock ≡ none
  off : s.config.udp_connected ≡ false

-- A bare association stands as it is, and one that opened a control socket and closed it.
bare-Kept : (s : Association) → IsBare s → Kept (false, s)
bare-Kept s b = (
  (λ x. rw (b.control, b.datagrams) (b.balanced x ∙ omega arith)),
  (rw (b.control, b.off) refl, rw (b.datagrams, b.off) refl),
  rw b.off refl,
)

closed-Kept :
    (s : Association) (tcp : ℕ)
    → IsBare s
    → Kept (false, record s { opened = tcp ∷ s.opened; closed = tcp ∷ s.closed })
closed-Kept s tcp b =
    bare-Kept (record s { opened = tcp ∷ s.opened; closed = tcp ∷ s.closed })
      (record {
        balanced = λ x. omega (arith, b.balanced x);
        control = b.control;
        datagrams = b.datagrams;
        off = b.off;
      })

datagrams-Kept :
    (tcp : ℕ) (s : Association) (relay : ℕ × ℕ) (udp : Option ℕ)
    → IsBare s
    → Kept (with_datagrams tcp (record s { opened = tcp ∷ s.opened; relay_addr = relay }) udp)
unfolding with_datagrams
datagrams-Kept tcp s relay none b = ((λ x. omega (arith, b.balanced x)), (refl, refl), refl)
datagrams-Kept tcp s relay (some udp) b = ((λ x. omega (arith, b.balanced x)), (refl, refl), refl)

relay-Kept :
    (net : Network) (tcp ip : ℕ) (s : Association) (relay : Option (ℕ × ℕ))
    → IsBare s
    → Kept (with_relay net tcp ip (record s { opened = tcp ∷ s.opened }) relay)
unfolding with_relay
relay-Kept net tcp ip s none b = closed-Kept s tcp b
relay-Kept net tcp ip s (some (addr, port)) b = datagrams-Kept tcp s _ net.udp_socket b

control-Kept :
    (net : Network) (s : Association) (tcp : Option ℕ) → IsBare s → Kept (with_control net s tcp)
unfolding with_control
control-Kept net s none b = bare-Kept s b
control-Kept net s (some tcp) b = elim (Bool-cases (net.resolve s.config.host == 0)) [
  | inl e ↦ rw e (closed-Kept s tcp b)
  | inr e ↦ elim (Bool-cases net.connects) [
    | inr off ↦ rw (e, off) (closed-Kept s tcp b)
    | inl on ↦
        rw (e, on)
          (relay-Kept net tcp (net.resolve s.config.host) s
            (socks5_udp_associate_with_config net.stream).0 b)
  ]
]

started-IsBare :
    (now : ℕ) (s : Association)
    → Balanced s
    → s.config.udp_connected ≡ false
    → IsBare (started now s)
unfolding close_both
started-IsBare now s balanced off = record {
  balanced = λ x. omega (
    arith,
    balanced x,
    count-close x s.config.udp_send_sock (close s.config.udp_tcp_ctrl s.closed),
    count-close x s.config.udp_tcp_ctrl s.closed,
  );
  control = refl;
  datagrams = refl;
  off = off;
}

-- An attempt at a UDP association with a configuration that is not connected, whatever fails on the
-- way: each socket that was ever opened is held by the configuration or was closed, and that once.
-- The configuration counts as connected exactly if the attempt succeeds; it then holds both sockets,
-- and else none.
pub establish-Balanced :
    (net : Network) (s : Association)
    → Balanced s
    → Whole s.config
    → s.config.udp_connected ≡ false
    → let r = establish_udp_associate_for_config net s in
      Balanced r.1 × Whole r.1.config × (r.0 ≡ r.1.config.udp_connected)
unfolding establish_udp_associate_for_config
establish-Balanced net s balanced whole off =
    elim (Bool-cases (is_empty s.config.host || s.config.port == 0)) [
      | inl e ↦ rw e (balanced, whole, sym off)
      | inr e ↦ elim (Bool-cases (is_socks5 s.config.type)) [
        | inr f ↦ rw (e, f) (balanced, whole, sym off)
        | inl f ↦ elim (Bool-cases (ltb (sub64 net.now s.config.last_udp_attempt) 1000)) [
          | inl g ↦ rw (e, f, g) (balanced, whole, sym off)
          | inr g ↦
              rw (e, f, g)
                (control-Kept net (started net.now s) net.tcp_socket
                  (started-IsBare net.now s balanced off))
        ]
      ]
    ]
