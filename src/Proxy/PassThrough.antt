-- ===== src/Proxy/PassThrough.antt =====
-- A CONNECT through rust/src/proxy.rs for a host that the map does not name.
use tailcat_socks.Base.{
  ℕ, ◌+◌, ◌*◌, ◌/◌, ◌%◌, ◌<◌, ◌≤◌, ◌≡◌, ap, ◌∙◌, true, [], ◌∷◌, ◌++◌, arith, length, length-append,
}
use tailcat_socks.Base.Bytes.{Bytes, AllBytes}
use tailcat_socks.Dns.Rewrite.{rewrite_host}
use tailcat_socks.Dns.Watch.{load}
use tailcat_socks.Net.{Socket}
use tailcat_socks.Proxy.Address.{domain, atyp_for, has_byte, connect_request, to_be_bytes}
use tailcat_socks.Proxy.Wire.{Wire}
use tailcat_socks.Proxy.Handshake.{send, accepting}
use tailcat_socks.Proxy.Session.{Server, World, connected, serve_conn, run_relay}
use tailcat_socks.Proxy.Connect.{dialogue, serve_conn_connect}
use tailcat_socks.Proxy.Literal.{connect_request-Wire}
use tailcat_socks.Proxy.{socks_ok_reply}

to_be_bytes-two : (hi lo : ℕ) → hi < 256 → lo < 256 → to_be_bytes (hi * 256 + lo) ≡ hi ∷ lo ∷ []
to_be_bytes-two hi lo h l =
    let high : (hi * 256 + lo) / 256 ≡ hi = omega arith in
    let low : (hi * 256 + lo) % 256 ≡ lo = omega arith in rw (high, low)

-- The CONNECT of a client that offers "no authentication", takes the twelve bytes of the answers, and
-- sends, as bytes, an IPv4 address, an IPv6 address, or a name that reads as no IP address, where the map
-- leaves the host as it is and the upstream is reached, accepts and takes what it is sent: the upstream is
-- sent the client's own request, byte for byte, behind the greeting, the client the two answers, and the
-- relay starts on the two connections with every byte that came behind the handshakes.
pub serve_conn_passes :
    (srv : Server) (w : World) (client up : Socket) (methods : Bytes) (hi lo : ℕ) {atyp : ℕ}
    {bytes host : Bytes} (early : Bytes) (rsv p q : ℕ) {atyp' : ℕ} {bound text : Bytes}
    (rest : Bytes)
    → has_byte 0 methods ≡ true
    → Wire atyp bytes host
    → 12 ≤ client.room
    → AllBytes bytes
    → hi < 256
    → lo < 256
    → (atyp ≡ 3 → atyp_for host ≡ domain)
    → rewrite_host host (load srv.dns_map) ≡ host
    → Wire atyp' bound text
    → 9 + length bytes ≤ up.room
    → w.dial srv.upstream_addr
      ≡ connected (record up { inbox = accepting rsv atyp' bound p q rest })
    → serve_conn srv w (record client { inbox = dialogue methods 5 1 0 atyp bytes hi lo early })
      ≡ run_relay srv w
          (send
            (5 ∷ 1 ∷ 0 ∷ atyp ∷ (bytes ++ (hi ∷ lo ∷ [])))
            (send (5 ∷ 1 ∷ 0 ∷ []) (record up { inbox = rest })))
          (send socks_ok_reply (send (5 ∷ 0 ∷ []) (record client { inbox = early })))
serve_conn_passes srv w client up methods hi lo {atyp} {bytes} {host} early rsv p q rest offered
      wire room fits h l name unmapped wire' room' dialed =
    serve_conn_connect srv w client methods 5 0 hi lo early offered wire room up rsv p q rest wire'
      (omega (arith, ap length same, length-append bytes (hi ∷ lo ∷ []), room')) dialed
    ∙ ap
        (λ r.
          run_relay srv w (send r (send (5 ∷ 1 ∷ 0 ∷ []) (record up { inbox = rest })))
            (send socks_ok_reply (send (5 ∷ 0 ∷ []) (record client { inbox = early }))))
        same
  where
    same :
        connect_request (rewrite_host host (load srv.dns_map)) (hi * 256 + lo)
        ≡ 5 ∷ 1 ∷ 0 ∷ atyp ∷ (bytes ++ (hi ∷ lo ∷ []))
    same =
        ap (λ t. connect_request t (hi * 256 + lo)) unmapped
        ∙ connect_request-Wire (hi * 256 + lo) wire fits name
        ∙ ap (λ xs. 5 ∷ 1 ∷ 0 ∷ atyp ∷ (bytes ++ xs)) (to_be_bytes-two hi lo h l)
