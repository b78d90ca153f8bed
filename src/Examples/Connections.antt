-- ===== src/Examples/Connections.antt =====
-- A client, an upstream and a relay between them, for rust/src/proxy.rs.
use tailcat_socks.Base.{
  ℕ, ◌≡◌, refl, ap, ◌+◌, ◌++◌, List, [], ◌∷◌, none, some, arith, length, false,
}
use tailcat_socks.Base.Bytes.{Bytes, codes}
use tailcat_socks.Error.{timed_out, unsupported_atyp}
use tailcat_socks.Dns.Watch.{load}
use tailcat_socks.Dns.Rewrite.{rewrite_host}
use tailcat_socks.Net.{Socket, eof, returned, failed}
use tailcat_socks.Relay.{
  Relay, Event, readable, elapsed, up, down, relay, start, step, run, idle_timeout,
}
use tailcat_socks.Relay.Moved.{carried}
use tailcat_socks.Relay.Carried.{relay-carried}
use tailcat_socks.Relay.Idle.{Idled, reads, relay_idle}
use tailcat_socks.Proxy.Address.{connect_request, atyp_for, domain}
use tailcat_socks.Text.Utf8.{is_utf8}
use tailcat_socks.Text.Ip.{parse_v4, read_ipv4_addr, read_separator, read_number, read_digits}
use tailcat_socks.Text.Ipv6.{parse_v6}
use tailcat_socks.Proxy.RoundTrip.{IsReadAs, read_request-connect_request}
use tailcat_socks.Proxy.Wire.{Wire, name, ipv4}
use tailcat_socks.Proxy.Handshake.{send, accepting, upstream_connect_accepted}
use tailcat_socks.Proxy.TurnedAway.{undialed, serve_conn_turned_away}
use tailcat_socks.Proxy.Session.{
  Server, World, Session, connected, unreachable, serve_conn, run_relay,
}
use tailcat_socks.Base.{map}
use tailcat_socks.Relay.Closed.{ClosedIf, relay-ClosedIf}
use tailcat_socks.Relay.Ends.{relay_ends}
use tailcat_socks.Proxy.Serve.{arrivals, serve-arrivals}
use tailcat_socks.Proxy.Session.{serve, handle, accept_failed}
use tailcat_socks.Proxy.Connect.{
  dialogue, no_route, serve_conn_connect, serve_conn_other, serve_conn_refused,
}
use tailcat_socks.Proxy.Gate.{Passed, relayed-Passed}
use tailcat_socks.Proxy.Accepted.{Agreed, upstream_connect-Agreed}
use tailcat_socks.Proxy.{socks_ok_reply, socks_fail_reply, read_request, upstream_connect}

abbrev idle_socket : Socket
idle_socket = record { inbox = []; ending = eof; sent = []; room = 100; jam = none; fin = false }

abbrev mapped : Bytes
mapped = rewrite_host (codes "a") ((codes "a", codes "tc1") ∷ [])

-- The map names one domain, `a`, for the token `tc1`.
abbrev server : Server
server = record {
  dns_map = record { current = (codes "a", codes "tc1") ∷ [] };
  upstream_addr = codes "127.0.0.1:20000";
  relay_idle = 10;
}

abbrev upstream_socket : Socket
upstream_socket = record idle_socket {
  room = 3 + length (connect_request mapped 443);
  inbox = accepting 0 1 (0 ∷ 0 ∷ 0 ∷ 0 ∷ []) 0 0 (codes "yo");
}

abbrev world : World
world = record {
  dial = λ _. connected upstream_socket;
  relay_start = 0;
  events = readable up 1 7 ∷ [];
}

abbrev offline : World
offline = record world { dial = λ _. unreachable timed_out }

abbrev domain_a : Wire 3 (1 ∷ codes "a") (codes "a")
domain_a = name 1 (codes "a") refl

abbrev zero_addr : Bytes
zero_addr = 0 ∷ 0 ∷ 0 ∷ 0 ∷ []

abbrev no_auth : Bytes
no_auth = 0 ∷ []

abbrev greeted_client : Socket
greeted_client = send (5 ∷ 0 ∷ []) (record idle_socket { inbox = codes "hi" })

abbrev asked_upstream : Socket
asked_upstream =
    send (connect_request mapped 443)
      (send (5 ∷ 1 ∷ 0 ∷ []) (record upstream_socket { inbox = codes "yo" }))

-- A client that asks for `a:443` by a command.
abbrev asking : ℕ → Socket
asking cmd = record idle_socket {
  inbox = dialogue no_auth 5 cmd 0 3 (1 ∷ codes "a") 1 187 (codes "hi");
}

serve_conn_connect_example :
    serve_conn server world (asking 1)
    ≡ run_relay server world asked_upstream (send socks_ok_reply greeted_client)
unfolding load
serve_conn_connect_example =
    serve_conn_connect server world idle_socket no_auth 5 0 1 187 (codes "hi") refl domain_a
      (omega arith) upstream_socket 0 0 0 (codes "yo") (ipv4 zero_addr refl) (omega arith) refl

serve_conn_other_example : serve_conn server world (asking 2) ≡ record {
  client = send socks_fail_reply greeted_client;
  upstream = none;
  relayed = none;
  outcome = returned tt;
}
serve_conn_other_example =
    serve_conn_other server world idle_socket no_auth 5 0 1 187 (codes "hi") refl domain_a
      (omega arith) 2 refl

serve_conn_refused_example : serve_conn server offline (asking 1) ≡ record {
  client = send socks_fail_reply greeted_client;
  upstream = none;
  relayed = none;
  outcome = returned tt;
}
serve_conn_refused_example =
    serve_conn_refused server offline idle_socket no_auth 5 0 1 187 (codes "hi") refl domain_a
      (omega arith) refl (no_route timed_out)

-- The relay of the connection above.
abbrev example_relay : Relay
example_relay = relay 10 0 world.events (send socks_ok_reply greeted_client) asked_upstream

is_relayed : (serve_conn server world (asking 1)).relayed ≡ some example_relay
unfolding load run_relay
is_relayed =
    ap (λ (s : Session). s.relayed)
      (serve_conn_connect server world idle_socket no_auth 5 0 1 187 (codes "hi") refl domain_a
        (omega arith) upstream_socket 0 0 0 (codes "yo") (ipv4 zero_addr refl) (omega arith) refl)

relayed-Passed_example : Passed server world (asking 1) example_relay
relayed-Passed_example = relayed-Passed server world (asking 1) is_relayed

relay-carried_example :
    (carried up (relay 10 0 (readable up 1 7 ∷ elapsed down 20 ∷ []) (asking 1) upstream_socket)
      ≡ upstream_socket.sent ++ (asking 1).inbox)
    × (carried down (relay 10 0 (readable up 1 7 ∷ elapsed down 20 ∷ []) (asking 1) upstream_socket)
        ≡ (asking 1).sent ++ upstream_socket.inbox)
relay-carried_example =
    relay-carried 10 0 (readable up 1 7 ∷ elapsed down 20 ∷ []) (asking 1) upstream_socket

-- A read at 1, and a timer at 20 with a window of 10 behind it.
abbrev idle_events : List Event
idle_events = readable up 1 0 ∷ elapsed down 12 ∷ elapsed down 24 ∷ []

abbrev talker : Socket
talker = record idle_socket { inbox = codes "hi" }

ends_idle : (relay 10 0 idle_events talker idle_socket).ended ≡ some idle_timeout
unfolding relay run step
ends_idle = refl

relay_idle_example : Idled 10 0 idle_events (reads 10 idle_events (start 10 0 talker idle_socket))
relay_idle_example =
    relay_idle 10 0 24 idle_events talker idle_socket (omega arith) (omega arith) (omega arith)
      ends_idle

handshake_returns : upstream_connect mapped 443 upstream_socket ≡ (returned tt, asked_upstream)
handshake_returns =
    upstream_connect_accepted mapped 443 0 0 0 (codes "yo") upstream_socket (ipv4 zero_addr refl)
      (omega arith)

upstream_connect-Agreed_example : Agreed mapped 443 upstream_socket asked_upstream
upstream_connect-Agreed_example =
    upstream_connect-Agreed mapped 443 upstream_socket handshake_returns

serve_conn_turned_away_example :
    (serve_conn server world (record idle_socket { inbox = 4 ∷ codes "hi" })
      ≡ undialed (record idle_socket { inbox = codes "hi" }))
    × ((serve_conn server world (record idle_socket { inbox = 5 ∷ 1 ∷ 2 ∷ codes "hi" })
          ≡ undialed (send (5 ∷ 0xFF ∷ []) (record idle_socket { inbox = codes "hi" })))
        × (serve_conn server world
              (record idle_socket { inbox = 5 ∷ 1 ∷ 0 ∷ 5 ∷ 1 ∷ 0 ∷ 2 ∷ codes "hi" })
            ≡ record (undialed (send (5 ∷ 0 ∷ []) (record idle_socket { inbox = codes "hi" }))) {
              outcome = failed (unsupported_atyp 2);
            }))
serve_conn_turned_away_example =
    serve_conn_turned_away server world idle_socket 4 no_auth (2 ∷ []) 5 1 0 2 (codes "hi")
      (omega arith) refl refl refl refl

is_domain : atyp_for (codes "tc1") ≡ domain
unfolding atyp_for is_utf8 parse_v4 parse_v6 read_ipv4_addr read_separator read_number read_digits
is_domain = refl

reads_back : IsReadAs (codes "tc1") (atyp_for (codes "tc1")) (codes "tc1")
reads_back = rw is_domain (omega arith, refl)

read_request-connect_request_example :
    read_request (record idle_socket { inbox = connect_request (codes "tc1") 443 ++ codes "hi" })
    ≡ (
      returned (record { cmd = 1; host = codes "tc1"; port = 443 }),
      record idle_socket { inbox = codes "hi" },
    )
read_request-connect_request_example =
    read_request-connect_request (codes "tc1") (codes "tc1") 443 (codes "hi") idle_socket
      (omega arith) reads_back

relay-ClosedIf_example :
    ClosedIf
      (relay 10 0 idle_events talker idle_socket).ended
      (relay 10 0 idle_events talker idle_socket)
relay-ClosedIf_example = relay-ClosedIf 10 0 idle_events talker idle_socket

serve-arrivals_example :
    serve server
      (arrivals ((world, asking 1) ∷ (offline, asking 1) ∷ []) ++ accept_failed timed_out ∷ [])
    ≡ (
      map
          (λ (c : World × Socket). handle server c.0 c.1)
          ((world, asking 1) ∷ (offline, asking 1) ∷ []),
      some timed_out,
    )
serve-arrivals_example =
    serve-arrivals server ((world, asking 1) ∷ (offline, asking 1) ∷ []) timed_out []

-- Nothing was read since the start at 0, and it is 12.
relay_ends_example :
    (run 10 (elapsed up 12 ∷ elapsed up 12 ∷ []) (start 10 0 talker idle_socket)).ended
    ≡ some idle_timeout
relay_ends_example =
    relay_ends 10 12 up (start 10 0 talker idle_socket) refl refl (omega arith) (omega arith)
      (omega arith)
