-- ===== src/ProxyTests/CleanEnd.antt =====
-- The repeated test of rust/src/proxy.rs with an upstream that closes early.
use tailcat_socks.Base.{◌≡◌, refl, Bool, true, ◌&&◌, List, [], ◌∷◌, ◌++◌, drop, All}
use tailcat_socks.Base.Bytes.{Bytes, codes, bytes_eq, lower}
use tailcat_socks.Net.{eof, Io, pure, ◌>>=◌, ◌>>◌, write_all, read_exact, shutdown}
use tailcat_socks.Text.Utf8.{is_utf8}
use tailcat_socks.Text.Ip.{
  parse_v4, read_ipv4_addr, read_separator, read_number, read_digits, read_given_char,
  finish_number, starts_zero,
}
use tailcat_socks.Text.Ipv6.{parse_v6, read_ipv6_addr}
use tailcat_socks.Dns.Mapping.{get, insert}
use tailcat_socks.Dns.Rewrite.{rewrite_host}
use tailcat_socks.Dns.Watch.{load, store, new}
use tailcat_socks.Proxy.{
  greet, greet_methods, answer_methods, read_request, send_connect, upstream_connect, read_reply,
  read_bound,
}
use tailcat_socks.Proxy.Address.{read_atyp_addr, connect_request, atyp_for, request_head}
use tailcat_socks.Proxy.Session.{
  bind, with_listener, after_greeting, after_request, forward, after_handshake, start_relay,
  run_relay, close_with,
}
use tailcat_socks.ProxyTests.Start.{start_proxy, test_map}
use tailcat_socks.Relay.{
  Event, readable, up, down, relay_idle_timeout, relay, run, step, by_event, by_phase, on_reading,
  on_writing, poll_read, poll_write, after_write, written, read_end, end_relay, poll_timer,
}
use tailcat_socks.Proxy.Session.{Server, Dialed, serve_conn}
use tailcat_socks.ProxyTests.{socks_connect, ask_connect, hear_greeting, try_write, anyway}
use tailcat_socks.ProxyTests.Silent.{early_close_upstream, skip_rest, address_left}
use tailcat_socks.ProxyTests.Joined.{
  line, exchange, heard_by, with_server, sends, Serving, serving, found_by, verdict, joined_session,
  returns,
}

abbrev payload : Bytes
payload = codes "SAW:tcSMOKE123:9999" ++ 10 ∷ []

-- A server whose upstream ends its stream behind what it sends.
unfoldable serving_closed : Server → List Event → Serving
unfolding exchange
serving_closed srv events so_far =
    let on = λ (answers : Bytes).
      serving srv (Dialed.connected (record (line answers) { ending = eof })) events so_far in
    on (
      exchange 3 (λ answers. heard_by (on answers).upstream) (sends (early_close_upstream payload)))

-- `GET / HTTP/1.0` and an empty line, sent when the reply has come.
abbrev getting_client : Io Bool
getting_client = socks_connect (codes "www.example.com") 9999 >>= λ connected.
    write_all (codes "GET / HTTP/1.0" ++ (13 ∷ 10 ∷ 13 ∷ 10 ∷ [])) >> pure connected

-- One iteration. `read_to_end` ends well if the server has closed, and finds what was sent behind the two
-- answers.
unfoldable iteration : Server → List Event → Bool
iteration srv events =
    let ended = (joined_session getting_client (serving_closed srv events)).client in
    verdict getting_client (λ ok. ok) (serving_closed srv events)
    && ended.fin
    && bytes_eq (drop 12 ended.sent) payload

-- Every iteration with the relay's events in it.
all_end_clean : Server → List (List Event) → Bool
all_end_clean srv [] = true
all_end_clean srv (events ∷ schedules) = iteration srv events && all_end_clean srv schedules

unfoldable relay_early_closing_upstream_delivers_clean_eof : List (List Event) → Bool
unfolding all_end_clean
relay_early_closing_upstream_delivers_clean_eof schedules =
    with_server ((codes "www.example.com", codes "tcSMOKE123") ∷ []) (codes "127.0.0.1:1")
      (λ srv. all_end_clean srv schedules)

-- The upstream's payload and its end are read, and the client's request before, between, behind, or not.
data Schedule : List Event → Type 0 where
  request_first : Schedule (readable up 1 4095 ∷ readable down 2 4095 ∷ readable down 3 4095 ∷ [])
  request_between : Schedule (readable down 1 4095 ∷ readable up 2 4095 ∷ readable down 3 4095 ∷ [])
  request_left : Schedule (readable down 1 4095 ∷ readable down 2 4095 ∷ [])

-- The server of the test.
abbrev smoke_server : Server
smoke_server = record {
  dns_map = record { current = (codes "www.example.com", codes "tcSMOKE123") ∷ [] };
  upstream_addr = codes "127.0.0.1:1";
  relay_idle = relay_idle_timeout;
}

iteration_passes : (events : List Event) → Schedule events → iteration smoke_server events ≡ true
unfolding iteration exchange returns serve_conn write_all read_exact after_greeting greet
    greet_methods answer_methods after_request read_request read_atyp_addr forward after_handshake
    start_relay run_relay upstream_connect send_connect connect_request atyp_for request_head
    read_reply is_utf8 parse_v4 parse_v6 read_ipv4_addr read_ipv6_addr read_separator read_number
    read_digits read_given_char finish_number starts_zero rewrite_host load get lower bytes_eq
    socks_connect ask_connect hear_greeting early_close_upstream skip_rest address_left try_write
    anyway close_with read_bound relay run step by_event by_phase on_reading on_writing poll_read
    poll_write after_write written read_end end_relay poll_timer shutdown found_by serving_closed
iteration_passes events request_first = refl
iteration_passes events request_between = refl
iteration_passes events request_left = refl

all_end_clean_passes :
    (schedules : List (List Event))
    → All Schedule schedules
    → all_end_clean smoke_server schedules ≡ true
unfolding all_end_clean
all_end_clean_passes [] h = refl
all_end_clean_passes (events ∷ schedules) h =
    rw (iteration_passes events h.0, all_end_clean_passes schedules h.1)

-- The test passes, however many iterations it makes, with any of the three schedules in each.
relay_early_closing_upstream_delivers_clean_eof_passes :
    (schedules : List (List Event))
    → All Schedule schedules
    → relay_early_closing_upstream_delivers_clean_eof schedules ≡ true
unfolding relay_early_closing_upstream_delivers_clean_eof with_server start_proxy bind with_listener
    test_map store new insert lower
relay_early_closing_upstream_delivers_clean_eof_passes schedules h =
    all_end_clean_passes schedules h
