-- ===== src/ProxyTests/Rewrites.antt =====
-- The test functions of rust/src/proxy.rs about a host that is rewritten, or passed on.
use tailcat_socks.Base.{◌≡◌, refl, Bool, true, false, ◌&&◌, List, [], ◌∷◌, none, some}
use tailcat_socks.Base.Bytes.{Bytes, codes, bytes_eq, lower}
use tailcat_socks.Net.{Io, pure, ◌>>=◌, ◌>>◌, read_exact, write_all}
use tailcat_socks.Text.Utf8.{is_utf8}
use tailcat_socks.Text.Decimal.{show_dec}
use tailcat_socks.Text.Ip.{
  parse_v4, read_ipv4_addr, read_separator, read_number, read_digits, read_given_char,
  finish_number, starts_zero,
}
use tailcat_socks.Text.Ipv6.{parse_v6, read_ipv6_addr}
use tailcat_socks.Dns.Mapping.{get, insert}
use tailcat_socks.Dns.Rewrite.{rewrite_host}
use tailcat_socks.Dns.Watch.{load, store, new}
use tailcat_socks.Proxy.{
  greet, greet_methods, answer_methods, read_request, send_connect, upstream_connect, read_reply,
  read_bound,
}
use tailcat_socks.Proxy.Address.{read_atyp_addr, connect_request, atyp_for, request_head}
use tailcat_socks.Proxy.Session.{
  bind, with_listener, serve_conn, after_greeting, after_request, forward, after_handshake,
  start_relay, run_relay, close_with,
}
use tailcat_socks.ProxyTests.Start.{start_proxy, test_map}
use tailcat_socks.Relay.{
  Event, readable, up, down, relay, run, step, by_event, by_phase, on_reading, on_writing,
  poll_read, poll_write, after_write, written, read_end, end_relay, poll_timer,
}
use tailcat_socks.ProxyTests.{
  socks_connect, ask_connect, fake_upstream, hear_target, hear_greeting, hear_request, hear_host,
  behind_target, echo_marked,
}
use tailcat_socks.ProxyTests.Joined.{
  line, exchange, heard_by, with_server, Serving, serving_with, found_by, verdict, joined_session,
  returns,
}

-- `fake_upstream` with reads that find all there is, as a peer, and what it has put on the channel.
abbrev echoes : (Bytes → Bytes) → Bytes → Bytes
echoes lossy so_far = (fake_upstream lossy (λ i. 4095) (line so_far)).1.1.sent

-- `recv_target`, which panics if nothing comes
abbrev recv_target : (Bytes → Bytes) → Bytes → Bytes → Bool
recv_target lossy want so_far = elim ((fake_upstream lossy (λ i. 4095) (line so_far)).0) [
  | none ↦ false
  | some target ↦ bytes_eq target want
]

-- A client's checks, and the target that the upstream has received by then.
abbrev told : (Bytes → Bytes) → Io Bool → Bytes → Serving → Bool
told lossy client want serve =
    verdict client (λ ok. ok) serve
    && recv_target lossy want (heard_by (joined_session client serve).upstream)

abbrev one_pair : List (Bytes × Bytes)
one_pair = (codes "www.example.com", codes "tcXYZabc123") ∷ []

-- A read of each of the relay's streams.
abbrev both_ways : List Event
both_ways = readable up 1 4095 ∷ readable down 2 4095 ∷ []

unfoldable rewrites_host_and_relays : (Bytes → Bytes) → Bool
rewrites_host_and_relays lossy = with_server one_pair (codes "127.0.0.1:1") (λ srv.
    let client : Io Bool = socks_connect (codes "www.example.com") 8081 >>= λ connected.
    write_all (codes "hello")
    >> (read_exact 10 >>= λ buf. pure (connected && bytes_eq buf (codes "ECHO:hello"))) in
    told lossy client (codes "tcXYZabc123:8081") (serving_with srv (echoes lossy) both_ways))

unfoldable rewrites_case_insensitive : (Bytes → Bytes) → Bool
rewrites_case_insensitive lossy = with_server one_pair (codes "127.0.0.1:1") (λ srv.
    told lossy (socks_connect (codes "WWW.Example.COM") 80) (codes "tcXYZabc123:80")
      (serving_with srv (echoes lossy) []))

unfoldable passes_unmatched_host_through : (Bytes → Bytes) → Bool
passes_unmatched_host_through lossy = with_server one_pair (codes "127.0.0.1:1") (λ srv.
    told lossy (socks_connect (codes "other.com") 9999) (codes "other.com:9999")
      (serving_with srv (echoes lossy) []))

-- `from_utf8_lossy` leaves these texts as they are.
abbrev unchanged : Bytes → Bytes
unchanged s = s

rewrites_case_insensitive_passes : rewrites_case_insensitive unchanged ≡ true
unfolding rewrites_case_insensitive with_server start_proxy bind with_listener test_map found_by
    serving_with exchange returns serve_conn write_all read_exact after_greeting greet greet_methods
    answer_methods after_request read_request read_atyp_addr forward after_handshake start_relay
    run_relay upstream_connect send_connect connect_request atyp_for request_head read_reply is_utf8
    parse_v4 parse_v6 read_ipv4_addr read_ipv6_addr read_separator read_number read_digits
    read_given_char finish_number starts_zero rewrite_host load store new get insert lower bytes_eq
    socks_connect ask_connect fake_upstream hear_target hear_greeting hear_request hear_host
    behind_target echo_marked show_dec close_with read_bound relay run step
rewrites_case_insensitive_passes = refl

passes_unmatched_host_through_passes : passes_unmatched_host_through unchanged ≡ true
unfolding passes_unmatched_host_through with_server start_proxy bind with_listener test_map found_by
    serving_with exchange returns serve_conn write_all read_exact after_greeting greet greet_methods
    answer_methods after_request read_request read_atyp_addr forward after_handshake start_relay
    run_relay upstream_connect send_connect connect_request atyp_for request_head read_reply is_utf8
    parse_v4 parse_v6 read_ipv4_addr read_ipv6_addr read_separator read_number read_digits
    read_given_char finish_number starts_zero rewrite_host load store new get insert lower bytes_eq
    socks_connect ask_connect fake_upstream hear_target hear_greeting hear_request hear_host
    behind_target echo_marked show_dec close_with read_bound relay run step
passes_unmatched_host_through_passes = refl

rewrites_host_and_relays_passes : rewrites_host_and_relays unchanged ≡ true
unfolding rewrites_host_and_relays with_server start_proxy bind with_listener test_map found_by
    serving_with exchange returns serve_conn write_all read_exact after_greeting greet greet_methods
    answer_methods after_request read_request read_atyp_addr forward after_handshake start_relay
    run_relay upstream_connect send_connect connect_request atyp_for request_head read_reply is_utf8
    parse_v4 parse_v6 read_ipv4_addr read_ipv6_addr read_separator read_number read_digits
    read_given_char finish_number starts_zero rewrite_host load store new get insert lower bytes_eq
    socks_connect ask_connect fake_upstream hear_target hear_greeting hear_request hear_host
    behind_target echo_marked show_dec close_with read_bound relay run step by_event by_phase
    on_reading on_writing poll_read poll_write after_write written read_end end_relay poll_timer
rewrites_host_and_relays_passes = refl
