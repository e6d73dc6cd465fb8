-- ===== src/Lib.antt =====
-- A model of the Windows core of Proxy Bridge (Windows/src), and what is proved of it. The program
-- intercepts packets with a driver, finds the process that owns a connection, matches it against an
-- ordered list of rules, and sends it through a SOCKS5 or HTTP proxy, lets it through, or blocks it.
--
-- Parts, and the files that model them:
--   Prelude, CText: shared notation and lemmas; C strings as lists of byte codes without the final
--     NUL, with strtok_s, _stricmp, strchr, atoi and sscanf_s as the C library documents them.
--   Pattern: the matchers of pb_rules.c for hosts, ports, processes and domains, on the loop over
--     token lists of pb_util.c (parse_token_list). inet_pton is a parameter.
--   Rules: match_rule and match_rule_v6 of pb_rules.c. `judge` is the body of the loop on one rule,
--     `walk` the loop. The answer of the DNS cache for the destination is an argument.
--   Rules/Store: the calls ProxyBridge_AddRule, EditRule, EnableRule, DisableRule, DeleteRule,
--     GetRulePosition and MoveRuleToPosition, with update_has_active_rules. `RuleStore` holds the
--     globals that they change; each holds the rules lock, so a call is one step. `malloc` says of
--     each size whether an allocation succeeds; a read through NULL is the result `null_pointer`.
--   Proxy: the configurations of pb_proxy.c. resolve_hostname is a parameter, which may give
--     another answer at each call.
--   Decision: check_process_rule and check_process_rule_v6 of pb_rules.c, which join the owner
--     lookup, the rules and the configurations; and the bounded wait of resolve_process_owner_v4
--     and _v6, on the answers of the system to each poll.
--   Conntrack: the tables of pb_conntrack.c. The heap maps an address to a cell or to nothing, the
--     chains hold addresses, and a walk that follows the address of a freed cell gives `dangling`.
--     calloc is a parameter. `add_connection` is add_connection and add_connection_v6, with the
--     address family as an argument; the other operations take it the same way. A step is what a
--     thread does while it holds the lock: cleanup_stale_connections gives it up behind each cell that
--     it frees, and Conntrack/Calls lets other operations come in between.
--     Conntrack/Direct is the cache of UDP flows that are let through, Conntrack/Logged the log.
--   Policy: how a change of the rules ends the decisions that Conntrack/Direct holds.
--   Dns: the cache of pb_dns.c, for both address families at once: the type of an address, its
--     hash and its comparison are arguments, `dns_bucket` and `dns_bucket_v6` the two hashes.
--     Dns/Names is dns_parse_name, Dns/Snoop is snoop_dns_response.
--   Owners: pb_process.c. The cache of pids, Owners/Events the cache of the owners that the driver's
--     events tell, Owners/Tables the system's tables with the buffer that they are read into, and
--     Owners/Lookups the lookups in them. The calls of the system are parameters.
--   Sockets: send_all and recv_n of pb_util.c, on a socket that takes and gives bytes in pieces.
--   Socks: the SOCKS5 client of pb_socks5.c on such a socket. Socks/Associate is
--     establish_udp_associate_for_config, with the sockets that are opened and closed.
--   Relay: the relay of a connection on the completion port, pb_relay.c. `worker_turn` is the body of
--     the loop of relay_worker; Relay/Steps has relay_start, relay_dir_end, relay_abort and
--     relay_release on the two directions, and the steps that the threads take in any order.
--   UdpRelay: udp_relay_server of pb_relay.c as it serves one SOCKS5 configuration: the events of its
--     loop that open, use and close the association, and the datagrams to and from the proxy.
--   Http: http_connect and http_connect_v6 of pb_http.c, on the same sockets.
--   Handler: connection_handler and transfer_handler of pb_relay.c, from a redirected connection through
--     the configuration and the handshake to the relay. `World` has the answers of the system.
--   Workers: begin_connection_worker and end_connection_worker of pb_relay.c, one step for each call of
--     the system, and the start of request_runtime_stop of ProxyBridge.c.
--   Tests: runs on small inputs, and each theorem at a concrete input.
--
-- Machine words are natural numbers, with the wrap-around of UINT32 and ULONGLONG written out.
-- Fuel: wildcard_match has one more than the length of the pattern, since each star that is
-- reached lies further on in it; the owner wait has a number of polls; send_all has a turn for
-- each byte, since a call of `send` takes one at least; pidtbl_reserve has 33 doublings;
-- dns_parse_name has ten pointers and a pass over the message behind each.
--
-- Not modelled: the packet processor, the threads and the rest of the life cycle (ProxyBridge.c);
-- of pb_relay.c the accept loops, the threads of the blocking fallback, the registry of relays and
-- the start and stop of the pool; log messages and socket options; the extension for macOS.
-- The sweep of cleanup_stale_connections over the cache of pids is taken as single steps that free an
-- entry, without the pointer from which it goes on.
pub mod CText
pub mod Conntrack
pub mod Decision
pub mod Dns
pub mod Handler
pub mod Http
pub mod Owners
pub mod Pattern
pub mod Policy
pub mod Prelude
pub mod Proxy
pub mod Relay
pub mod Rules
pub mod Sockets
pub mod Socks
pub mod Tests
pub mod UdpRelay
pub mod Workers
