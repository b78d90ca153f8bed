-- ===== src/ProxyTests/SharedClock.antt =====
-- The test of rust/src/proxy.rs on the relay's clock, which traffic in either direction moves.
use tailcat_socks.Base.{
  ℕ, zero, suc, ◌+◌, ◌*◌, ◌≡◌, refl, Bool, true, false, not, ◌&&◌, List, [], ◌∷◌, ◌++◌, Option,
  ◌==◌, leb, if◌then◌else◌, length,
}
use tailcat_socks.Base.Bytes.{Bytes, codes, bytes_eq, lower}
use tailcat_socks.Base.Result.{ok, err}
use tailcat_socks.Net.{Io, Socket, pure, ◌>>=◌, ◌>>◌, write_all, read_exact, shutdown}
use tailcat_socks.Relay.{Event, readable, elapsed, writable, drained, up, down}
use tailcat_socks.Text.Utf8.{is_utf8}
use tailcat_socks.Text.Ip.{
  parse_v4, read_ipv4_addr, read_separator, read_number, read_digits, read_given_char,
  finish_number, starts_zero,
}
use tailcat_socks.Text.Ipv6.{parse_v6, read_ipv6_addr}
use tailcat_socks.Dns.Mapping.{get}
use tailcat_socks.Dns.Rewrite.{rewrite_host}
use tailcat_socks.Dns.Watch.{load, store, new}
use tailcat_socks.Proxy.{
  greet, greet_methods, answer_methods, read_request, send_connect, upstream_connect, read_reply,
  read_bound,
}
use tailcat_socks.Proxy.Address.{read_atyp_addr, connect_request, atyp_for, request_head}
use tailcat_socks.Proxy.Session.{
  serve_conn, bind, with_listener, after_greeting, after_request, forward, after_handshake,
  start_relay, run_relay, close_with,
}
use tailcat_socks.ProxyTests.{socks_connect, ask_connect, try_read, try_write, or_zeros, anyway}
use tailcat_socks.ProxyTests.Silent.{
  silent_upstream, try_accept, try_target, try_name, counted, after_accept,
}
use tailcat_socks.ProxyTests.Start.{start_proxy, start_proxy_with_idle, with_idle, test_map}
use tailcat_socks.Relay.{
  relay, run, step, by_event, by_phase, on_reading, on_writing, poll_read, poll_write, after_write,
  written, read_end, end_relay, poll_timer,
}
use tailcat_socks.ProxyTests.Joined.{
  line, exchange, heard_by, serving_with, found_by, returns, verdict, joined_session,
}

abbrev pings : ℕ
pings = 24

abbrev ping : Bytes
ping = codes "PING" ++ 10 ∷ []

-- `PINGS` writes, and no read.
write_pings : ℕ → Io (Unit {0})
write_pings zero = pure tt
write_pings (suc n) = write_all ping >> write_pings n

-- `silent_upstream` with reads that find all there is, and its counter.
abbrev answers : Bytes → Bytes
answers so_far = (silent_upstream (λ i. 4095) (line so_far)).1.sent

abbrev got : Option Socket → ℕ
got upstream = (silent_upstream (λ i. 4095) (line (heard_by upstream))).0.0

-- The time at which an event is; a peer that takes more bytes has none.
time_of : Event → ℕ
time_of (readable d now n) = now
time_of (elapsed d now) = now
time_of (writable d now) = now
time_of (drained d n) = 0

-- The events up to a time.
by_then : ℕ → List Event → List Event
unfolding time_of
by_then last [] = []
by_then last (e ∷ events) = if leb (time_of e) last then e ∷ by_then last events else []

-- The relay starts at 0, the transfer takes 24 times 50 milliseconds, and the teardown may take 550 more.
-- `pinging` is what happens to the relay in the transfer, and `quiet` what happens behind it.
unfoldable relay_idle_clock_is_shared_across_directions : List Event → List Event → Bool
unfolding write_pings by_then
relay_idle_clock_is_shared_across_directions pinging quiet =
    elim (start_proxy_with_idle {L = Unit {0}} (λ a. ok tt) [] (codes "127.0.0.1:1") 200) [
      | err e ↦ false
      | ok (ln, srv) ↦
          let client = socks_connect (codes "plain.example") 80 >>= λ connected.
          write_pings pings >> pure connected in
          let on = λ (events : List Event). serving_with srv answers events in
          let transfer = joined_session client (on pinging) in
          let all_of_it =
            joined_session client (on (pinging ++ by_then (pings * 50 + 550) quiet)) in
          verdict client (λ connected. connected) (on pinging)
          && not transfer.client.fin
          && leb (pings * 5) (got transfer.upstream)
          && all_of_it.client.fin
          && length all_of_it.client.sent == 12
    ]

-- A ping is read as it comes, and the silent side's timer fires when it can.
unfoldable one_way : ℕ → ℕ → List Event
one_way zero now = []
one_way (suc n) now = readable up now 4 ∷ elapsed down now ∷ one_way n (now + 50)

-- Silence: the timers.
unfoldable silence : ℕ → ℕ → List Event
silence zero now = []
silence (suc n) now = elapsed up now ∷ elapsed down now ∷ silence n (now + 50)

relay_idle_clock_is_shared_across_directions_passes :
    relay_idle_clock_is_shared_across_directions (one_way 24 0) (silence 12 1200) ≡ true
unfolding relay_idle_clock_is_shared_across_directions start_proxy_with_idle with_idle start_proxy
    bind with_listener test_map store new serving_with silent_upstream try_accept try_target
    try_name try_read or_zeros counted after_accept one_way silence exchange returns serve_conn
    write_all read_exact after_greeting greet greet_methods answer_methods after_request
    read_request read_atyp_addr forward after_handshake start_relay run_relay upstream_connect
    send_connect connect_request atyp_for request_head read_reply is_utf8 parse_v4 parse_v6
    read_ipv4_addr read_ipv6_addr read_separator read_number read_digits read_given_char
    finish_number starts_zero rewrite_host load get lower bytes_eq socks_connect ask_connect
    try_write anyway close_with read_bound relay run step by_event by_phase on_reading on_writing
    poll_read poll_write after_write written read_end end_relay poll_timer shutdown found_by
relay_idle_clock_is_shared_across_directions_passes = refl
