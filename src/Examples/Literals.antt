-- ===== src/Examples/Literals.antt =====
-- Addresses that pass through rust/src/proxy.rs: `127.0.0.1` and `2001:db8::1`.
use tailcat_socks.Base.{◌≡◌, refl, ◌++◌, false, [], ◌∷◌, none, arith}
use tailcat_socks.Base.Bytes.{Bytes, codes, bytes_eq, lower}
use tailcat_socks.Dns.Mapping.{get}
use tailcat_socks.Dns.Rewrite.{rewrite_host}
use tailcat_socks.Dns.Watch.{load}
use tailcat_socks.Net.{Socket, eof}
use tailcat_socks.Text.Ip.{show_v4}
use tailcat_socks.Text.Ipv6.{of_octets, show_v6}
use tailcat_socks.Relay.{readable, up}
use tailcat_socks.Proxy.Address.{v4_of, v6_of, connect_request, to_be_bytes}
use tailcat_socks.Proxy.Wire.{ipv4, ipv6}
use tailcat_socks.Proxy.Handshake.{send, accepting}
use tailcat_socks.Proxy.Session.{Server, World, connected, serve_conn, run_relay}
use tailcat_socks.Proxy.Connect.{dialogue}
use tailcat_socks.Proxy.Literal.{connect_request-Wire}
use tailcat_socks.Proxy.PassThrough.{serve_conn_passes}
use tailcat_socks.Proxy.{socks_ok_reply}

abbrev loopback : Bytes
loopback = 127 ∷ 0 ∷ 0 ∷ 1 ∷ []

connect_request-Wire_example :
    connect_request (show_v4 (v4_of loopback)) 443 ≡ 5 ∷ 1 ∷ 0 ∷ 1 ∷ (loopback ++ to_be_bytes 443)
connect_request-Wire_example =
    connect_request-Wire 443 (ipv4 loopback refl) (omega arith) (λ e. absurd (omega (arith, e)))

abbrev documented : Bytes
documented = 0x20 ∷ 1 ∷ 0x0D ∷ 0xB8 ∷ 0 ∷ 0 ∷ 0 ∷ 0 ∷ 0 ∷ 0 ∷ 0 ∷ 0 ∷ 0 ∷ 0 ∷ 0 ∷ 1 ∷ []

abbrev text : Bytes
text = show_v6 (v6_of documented)

abbrev server : Server
server = record {
  dns_map = record { current = (codes "a", codes "tc1") ∷ [] };
  upstream_addr = codes "127.0.0.1:20000";
  relay_idle = 10;
}

abbrev client : Socket
client = record { inbox = []; ending = eof; sent = []; room = 100; jam = none; fin = false }

abbrev upstream_socket : Socket
upstream_socket = record client { inbox = accepting 0 1 (0 ∷ 0 ∷ 0 ∷ 0 ∷ []) 0 0 (codes "yo") }

abbrev world : World
world = record {
  dial = λ _. connected upstream_socket;
  relay_start = 0;
  events = readable up 1 7 ∷ [];
}

is_text : text ≡ codes "2001:db8::1"
unfolding show_v6 of_octets
is_text = refl

is_unmapped : rewrite_host text (load server.dns_map) ≡ text
unfolding load rewrite_host get bytes_eq lower
is_unmapped = rw is_text refl

serve_conn_passes_example :
    serve_conn server world
      (record client { inbox = dialogue (0 ∷ []) 5 1 0 4 documented 1 187 (codes "hi") })
    ≡ run_relay server world
        (send
          (5 ∷ 1 ∷ 0 ∷ 4 ∷ (documented ++ (1 ∷ 187 ∷ [])))
          (send (5 ∷ 1 ∷ 0 ∷ []) (record upstream_socket { inbox = codes "yo" })))
        (send socks_ok_reply (send (5 ∷ 0 ∷ []) (record client { inbox = codes "hi" })))
serve_conn_passes_example =
    serve_conn_passes server world client client (0 ∷ []) 1 187 (codes "hi") 0 0 0 (codes "yo") refl
      (ipv6 documented refl) (omega arith) (omega arith) (omega arith) (omega arith)
      (λ e. absurd (omega (arith, e))) is_unmapped (ipv4 (0 ∷ 0 ∷ 0 ∷ 0 ∷ []) refl) (omega arith)
      refl
