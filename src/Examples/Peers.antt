-- ===== src/Examples/Peers.antt =====
-- The server with the peers of its tests: the client asks for `a:443`, which no line maps.
use tailcat_socks.Base.{ℕ, ◌≡◌, refl, ap, ◌++◌, List, [], ◌∷◌, some, arith, length, true, inl}
use tailcat_socks.Base.Bytes.{Bytes, codes}
use tailcat_socks.Text.Decimal.{show_dec}
use tailcat_socks.Dns.Rewrite.{rewrite_host}
use tailcat_socks.Dns.Watch.{load}
use tailcat_socks.Net.{Socket, returned}
use tailcat_socks.Proxy.{socks_ok_reply}
use tailcat_socks.Proxy.Address.{connect_request, atyp_for}
use tailcat_socks.Proxy.Handshake.{accepting}
use tailcat_socks.Proxy.Wire.{name, ipv4}
use tailcat_socks.Proxy.Session.{World, Session, connected, serve_conn}
use tailcat_socks.Proxy.Connect.{dialogue}
use tailcat_socks.ProxyTests.{socks_connect, fake_upstream}
use tailcat_socks.ProxyTests.Client.{asks, socks_connect-fake_upstream}
use tailcat_socks.ProxyTests.Hears.{IsHeardAs}
use tailcat_socks.ProxyTests.Silent.{early_close_upstream}
use tailcat_socks.ProxyTests.Early.{early_close-delivered}
use tailcat_socks.ProxyTests.Start.{test_map, named, start_proxy_bound, rewrite_host-start_proxy}
use tailcat_socks.Base.Result.{Result, ok}
use tailcat_socks.Error.{IoError}
use tailcat_socks.Relay.{Relay, readable, down}
use tailcat_socks.Examples.Chains.{
  quiet, server, target, is_domain, unmapped, target-Fits, request_is,
}

abbrev unchanged : Bytes → Bytes
unchanged xs = xs

abbrev one_byte : ℕ → ℕ
one_byte i = 0

abbrev world : World
world = record {
  dial = λ a. connected (record quiet { inbox = accepting 0 1 (0 ∷ 0 ∷ 0 ∷ 0 ∷ []) 0 0 [] });
  relay_start = 0;
  events = [];
}

abbrev asked : Session
asked = serve_conn server world (record quiet { inbox = asks (codes "a") 443 })

read_as : IsHeardAs target (atyp_for target) (codes "a")
read_as = rw (unmapped, is_domain) (omega arith, refl)

socks_connect-fake_upstream_example :
    (((socks_connect (codes "a") 443 (record quiet { inbox = asked.client.sent })).0
        ≡ returned true)
      × ((socks_connect (codes "a") 443 (record quiet { inbox = asked.client.sent })).1.sent
          ≡ asks (codes "a") 443))
    × ((last : Socket) × ((asked.upstream ≡ some last)
          × ((fake_upstream unchanged one_byte (record quiet { inbox = last.sent })).0
              ≡ some (codes "a" ++ b':' ∷ show_dec 443))))
socks_connect-fake_upstream_example =
    socks_connect-fake_upstream server world quiet quiet (codes "a") 443 0 0 0 [] (omega arith)
      (omega arith) refl (omega arith) (ipv4 (0 ∷ 0 ∷ 0 ∷ 0 ∷ []) refl)
      (omega (arith, ap length request_is)) refl unchanged one_byte (codes "a") quiet quiet refl
      refl refl (omega arith) read_as (omega arith)

abbrev early_world : World
early_world = record world {
  dial = λ a. connected (record quiet {
    inbox =
        (early_close_upstream (codes "SAW")
          (record quiet { inbox = 5 ∷ 1 ∷ 0 ∷ connect_request target 443 })).1.sent;
  });
  events = readable down 1 1 ∷ readable down 2 9 ∷ [];
}

abbrev early_served : Session
early_served =
    serve_conn server early_world
      (record quiet { inbox = dialogue (0 ∷ []) 5 1 0 3 (1 ∷ codes "a") 1 187 (codes "GET") })

early_close-delivered_example :
    (r : Relay) × ((early_served.relayed ≡ some r)
      × (early_served.client.sent ++ (r.down_pump.rest ++ r.upstream.inbox)
          ≡ [] ++ (5 ∷ 0 ∷ (socks_ok_reply ++ codes "SAW"))))
early_close-delivered_example =
    early_close-delivered server early_world quiet (0 ∷ []) 5 0 1 187 (codes "GET") refl
      (name 1 (codes "a") refl) (omega arith) (codes "SAW") quiet quiet target-Fits refl
      (omega arith) (omega (arith, ap length request_is)) refl

-- A listener is a number, and every address can be bound.
abbrev always : Bytes → Result IoError ℕ
always a = ok 7

abbrev two_pairs : List (Bytes × Bytes)
two_pairs = (codes "b.com", codes "tcB") ∷ (codes "A.com", codes "tcX") ∷ []

rewrite_host-start_proxy_example :
    rewrite_host (codes "a.COM") (load (test_map two_pairs))
    ≡ named (codes "a.COM") two_pairs (codes "a.COM")
rewrite_host-start_proxy_example =
    rewrite_host-start_proxy always two_pairs (codes "u") (codes "a.COM") 9
      (inl (start_proxy_bound always two_pairs (codes "u") 7 refl))
