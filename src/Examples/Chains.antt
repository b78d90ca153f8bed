-- ===== src/Examples/Chains.antt =====
-- The server with its stand-in for the upstream, the two tasks of a run, and a file for both parsers.
use tailcat_socks.Base.{
  ℕ, ◌≡◌, refl, List, [], ◌∷◌, none, some, arith, ◌==◌, if◌then◌else◌, false, All,
}
use tailcat_socks.Base.Bytes.{Bytes, codes, split}
use tailcat_socks.Base.Result.{ok}
use tailcat_socks.Net.{Socket, eof}
use tailcat_socks.Dns.Watch.{load, present}
use tailcat_socks.Dns.Watch.Fresh.{Version}
use tailcat_socks.Dns.Parse.{parse_dns, is_newline, is_ascii_whitespace, trim_ws}
use tailcat_socks.Dns.Rewrite.{rewrite_host}
use tailcat_socks.Text.Utf8.{is_utf8}
use tailcat_socks.Text.Ip.{parse_v4, read_ipv4_addr, read_separator, read_number, read_digits}
use tailcat_socks.Text.Ipv6.{parse_v6}
use tailcat_socks.Dns.Mapping.{get}
use tailcat_socks.Relay.{readable, up, down, relay}
use tailcat_socks.Proxy.Address.{connect_request, request_head, atyp_for, domain}
use tailcat_socks.Proxy.Handshake.{send, accepting}
use tailcat_socks.Proxy.Wire.{Wire, name}
use tailcat_socks.Proxy.Sent.{Fits}
use tailcat_socks.Proxy.Session.{Server, World, Session, connected, serve_conn}
use tailcat_socks.Proxy.Connect.{dialogue}
use tailcat_socks.Proxy.{socks_ok_reply}
use tailcat_socks.FakeTailcat.{serve_echo, end_of}
use tailcat_socks.FakeTailcat.Echo.{serve_echo_accepts, asked_for, echoed}
use tailcat_socks.FakeTailcat.Chain.{heard}
use tailcat_socks.Live.{Live, Activity, polled, arrives, launch, act}
use tailcat_socks.Live.Register.{Spec, connected as came, at_version}
use tailcat_socks.GoVersion.{load_text, go_rewrite_host}
use tailcat_socks.GoVersion.Agrees.{IsPlain, parse_dns-eq-load_text}

abbrev pub quiet : Socket
quiet = record { inbox = []; ending = eof; sent = []; room = 100; jam = none; fin = false }

abbrev two_bytes : ℕ → ℕ
two_bytes i = 1

serve_echo_accepts_example :
    serve_echo two_bytes
      (record quiet { inbox = asked_for (0 ∷ []) 5 1 0 3 (1 ∷ codes "a") 1 187 (codes "ping!") })
    ≡ (end_of eof, echoed (accepting 0 1 (0 ∷ 0 ∷ 0 ∷ 0 ∷ []) 0 0 (codes "ping!")) quiet)
serve_echo_accepts_example =
    serve_echo_accepts two_bytes (0 ∷ []) 5 1 0 1 187 (codes "ping!") quiet
      (name 1 (codes "a") refl) (omega arith)

-- A file that says `tc1 a` at first, and `tc2 a` from then on.
abbrev pub history : ℕ → Version
history n = record { mtime = n; text = if n == 0 then codes "tc1 a" else codes "tc2 a" }

abbrev pub server : Server
server = record { dns_map = record { current = [] }; upstream_addr = codes "u"; relay_idle = 10 }

abbrev pub unreached : World
unreached = record { dial = λ a. connected quiet; relay_start = 0; events = [] }

-- One look of the watcher, and then one connection; the last first.
abbrev look_and_call : List Activity
look_and_call = arrives unreached quiet ∷ polled (present (some 2)) (ok (codes "tc2 a")) ∷ []

abbrev lived_through : Live
lived_through = act (codes "dns.txt") server (arrives unreached quiet) (
    act (codes "dns.txt") server (polled (present (some 2)) (ok (codes "tc2 a")))
      (launch false (at_version history server 0)))

no_breaks : All IsPlain (split is_newline (codes "tc1 a B"))
unfolding split trim_ws is_ascii_whitespace
no_breaks = (record { ascii = omega arith; no_tab = ground arith; no_break = ground arith }, tt)

parse_dns-eq-load_text_example :
    (parse_dns (codes "tc1 a B") ≡ load_text (codes "tc1 a B"))
    × (rewrite_host (codes "b") (parse_dns (codes "tc1 a B"))
        ≡ go_rewrite_host (codes "b") (load_text (codes "tc1 a B")))
parse_dns-eq-load_text_example =
    parse_dns-eq-load_text (codes "tc1 a B") (codes "b") no_breaks (omega arith)

-- The client asks for `a:443` and sends two bytes; both relay's pumps read once.
pub is_domain : atyp_for (codes "a") ≡ domain
unfolding atyp_for is_utf8 parse_v4 parse_v6 read_ipv4_addr read_separator read_number read_digits
is_domain = refl

abbrev pub target : Bytes
target = rewrite_host (codes "a") (load server.dns_map)

pub unmapped : target ≡ codes "a"
unfolding rewrite_host load get
unmapped = refl

pub target-Fits : Fits target (atyp_for target)
target-Fits = rw (unmapped, is_domain) (omega arith)

abbrev stand_in : Socket
stand_in = record quiet {
  inbox = (serve_echo two_bytes (record quiet { inbox = heard target 443 (codes "hi") })).1.sent;
}

abbrev chained : World
chained = record {
  dial = λ a. connected stand_in;
  relay_start = 0;
  events = readable up 1 7 ∷ readable down 2 7 ∷ [];
}

abbrev domain_a : Wire 3 (1 ∷ codes "a") (codes "a")
domain_a = name 1 (codes "a") refl

abbrev served : Session
served =
    serve_conn server chained
      (record quiet { inbox = dialogue (0 ∷ []) 5 1 0 3 (1 ∷ codes "a") 1 187 (codes "hi") })

-- The connection to the stand-in at the end, behind the request `q`.
abbrev last_behind : Bytes → Socket
last_behind q =
    (relay 10 0 chained.events
      (send socks_ok_reply (send (5 ∷ 0 ∷ []) (record quiet { inbox = codes "hi" })))
      (send q (send (5 ∷ 1 ∷ 0 ∷ []) (record quiet { inbox = codes "hi" })))).upstream

abbrev last_upstream : Socket
last_upstream = last_behind (connect_request target 443)

pub request_is : connect_request target 443 ≡ 5 ∷ 1 ∷ 0 ∷ 3 ∷ 1 ∷ 97 ∷ 1 ∷ 187 ∷ []
request_is = rw unmapped (unfold connect_request in rw is_domain (unfold request_head in refl))
