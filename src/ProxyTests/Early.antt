-- ===== src/ProxyTests/Early.antt =====
-- The server of rust/src/proxy.rs towards `early_close_upstream` of its tests.
use tailcat_socks.Base.{
  ℕ, ◌+◌, ◌*◌, ◌/◌, ◌%◌, ◌≤◌, ◌≡◌, refl, ap, ◌∙◌, true, [], ◌∷◌, ◌++◌, some, length, append_assoc,
}
use tailcat_socks.Base.Bytes.{Bytes}
use tailcat_socks.Dns.Rewrite.{rewrite_host}
use tailcat_socks.Dns.Watch.{load}
use tailcat_socks.Net.{Socket}
use tailcat_socks.Relay.{Relay, relay}
use tailcat_socks.Relay.Carried.{relay-carried}
use tailcat_socks.Proxy.{socks_ok_reply}
use tailcat_socks.Proxy.Address.{atyp_for, connect_request, has_byte}
use tailcat_socks.Proxy.Wire.{Wire, ipv4}
use tailcat_socks.Proxy.Sent.{Fits, connect_request-OnWire}
use tailcat_socks.Proxy.Handshake.{send, accepting}
use tailcat_socks.Proxy.Session.{Server, World, Session, connected, serve_conn, run_relay}
use tailcat_socks.Proxy.Connect.{dialogue, serve_conn_connect}
use tailcat_socks.ProxyTests.Silent.{early_close_upstream, whole, early_close_upstream-whole}

-- What the peer sends when it hears the greeting and the request for a host and a port.
answers_payload :
    (payload host : Bytes) (port : ℕ) (peer : Socket)
    → Fits host (atyp_for host)
    → peer.sent ≡ []
    → 12 + length payload ≤ peer.room
    → (early_close_upstream payload
        (record peer { inbox = 5 ∷ 1 ∷ 0 ∷ connect_request host port })).1.sent
      ≡ accepting 0 1 (0 ∷ 0 ∷ 0 ∷ 0 ∷ []) 0 0 payload
answers_payload payload host port peer h fresh room =
    let o = connect_request-OnWire host port h in
    let shape : 5 ∷ 1 ∷ 0 ∷ connect_request host port
        ≡ whole 5 1 0 o.atyp o.bytes (port / 256) (port % 256) [] =
      ap (λ (xs : Bytes). 5 ∷ 1 ∷ 0 ∷ xs) o.is_request in
    rw (
      shape,
      early_close_upstream-whole payload 5 1 0 (port / 256) (port % 256) [] peer o.wire room,
      fresh,
    )

module _ (srv : Server) (w : World) (client : Socket) (methods : Bytes) (ver rsv hi lo : ℕ)
    {atyp : ℕ} {bytes host : Bytes} (early : Bytes) (offered : has_byte 0 methods ≡ true)
    (wire : Wire atyp bytes host) (room : 12 ≤ client.room) where
  abbrev early_target : Bytes
  early_target = rewrite_host host (load srv.dns_map)

  abbrev early_request : Bytes
  early_request = connect_request early_target (hi * 256 + lo)

  abbrev early_session : Session
  early_session =
      serve_conn srv w (record client { inbox = dialogue methods ver 1 rsv atyp bytes hi lo early })

  -- The CONNECT of a client that offers "no authentication", sends a whole address, and takes the answers, for
  -- a target that, if it goes out as a name, has fewer than 256 bytes. The upstream takes what it is sent, and is the early-closing peer of the tests: the server's connection to it brings what it sends when
  -- it hears the greeting and the request that the server sends. Then the connection is relayed, and wherever
  -- the relay stands, what the client has been sent, then what the downward pump holds, then what is still
  -- to be read from the upstream, are the two answers and the payload. So a relay that has read
  -- and written all has delivered the whole payload, though that peer never reads what the client sends.
  pub early_close-delivered :
      (payload : Bytes) (peer up : Socket)
      → Fits early_target (atyp_for early_target)
      → peer.sent ≡ []
      → 12 + length payload ≤ peer.room
      → 3 + length early_request ≤ up.room
      → w.dial srv.upstream_addr
        ≡ connected (record up {
          inbox =
              (early_close_upstream payload
                (record peer { inbox = 5 ∷ 1 ∷ 0 ∷ early_request })).1.sent;
        })
      → (r : Relay) × ((early_session.relayed ≡ some r)
          × (early_session.client.sent ++ (r.down_pump.rest ++ r.upstream.inbox)
              ≡ client.sent ++ (5 ∷ 0 ∷ (socks_ok_reply ++ payload))))
  unfolding run_relay
  early_close-delivered payload peer up fits fresh peer_room up_room dialed =
      let answered =
        answers_payload payload early_target (hi * 256 + lo) peer fits fresh peer_room in
      let session =
        serve_conn_connect srv w client methods ver rsv hi lo early offered wire room up 0 0 0
          payload (ipv4 (0 ∷ 0 ∷ 0 ∷ 0 ∷ []) refl) up_room
          (dialed ∙ ap (λ (xs : Bytes). connected (record up { inbox = xs })) answered) in
      let welcomed = send socks_ok_reply (send (5 ∷ 0 ∷ []) (record client { inbox = early })) in
      let asked = send early_request (send (5 ∷ 1 ∷ 0 ∷ []) (record up { inbox = payload })) in
      let r = relay srv.relay_idle w.relay_start w.events welcomed asked in
      let (went_up, came_down) =
        relay-carried srv.relay_idle w.relay_start w.events welcomed asked in
      (
        r,
        (
          ap (λ (t : Session). t.relayed) session,
          ap (λ (t : Session). t.client.sent ++ (r.down_pump.rest ++ r.upstream.inbox)) session
              ∙ came_down
              ∙ append_assoc (client.sent ++ (5 ∷ 0 ∷ [])) socks_ok_reply payload
              ∙ append_assoc client.sent (5 ∷ 0 ∷ []) (socks_ok_reply ++ payload),
        ),
      )
