-- ===== src/ProxyTests/Client.antt =====
-- The client in the tests of rust/src/proxy.rs, against the server of the same file.
use tailcat_socks.Base.{
  ℕ, ◌+◌, ◌*◌, ◌/◌, ◌%◌, ◌≤◌, ◌<◌, ◌≡◌, refl, sym, ap, ◌∙◌, true, some, [], ◌∷◌, ◌++◌, arith,
  length, append-nil,
}
use tailcat_socks.Base.Bytes.{Bytes}
use tailcat_socks.Dns.Rewrite.{rewrite_host}
use tailcat_socks.Dns.Watch.{load}
use tailcat_socks.Net.{Socket, returned}
use tailcat_socks.Net.Laws.{read_exact-append, write_all_fits}
use tailcat_socks.Relay.{relay, run}
use tailcat_socks.Proxy.{socks_ok_reply}
use tailcat_socks.Proxy.Address.{connect_request, atyp_for, to_be_bytes}
use tailcat_socks.Proxy.Wire.{Wire, name}
use tailcat_socks.Proxy.Handshake.{send, accepting}
use tailcat_socks.Proxy.Session.{Server, World, Session, connected, serve_conn, run_relay}
use tailcat_socks.Proxy.Connect.{dialogue, serve_conn_connect}
use tailcat_socks.ProxyTests.{ask_connect, socks_connect, fake_upstream}
use tailcat_socks.ProxyTests.Hears.{IsHeardAs, fake_upstream-connect_request}
use tailcat_socks.Text.Decimal.{show_dec}

abbrev pub named_request : Bytes → ℕ → Bytes
named_request host port = (5 ∷ 1 ∷ 0 ∷ 3 ∷ (length host % 256) ∷ host) ++ to_be_bytes port

-- A client that reads the answers of a server that accepts is content, and has sent the greeting and the
-- request.
socks_connect_content :
    (host : Bytes) (port : ℕ) (rest : Bytes) (s : Socket)
    → 3 + length (named_request host port) ≤ s.room
    → socks_connect host port (record s { inbox = 5 ∷ 0 ∷ (socks_ok_reply ++ rest) }) ≡ (
      returned true,
      send (named_request host port) (send (5 ∷ 1 ∷ 0 ∷ []) (record s { inbox = rest })),
    )
unfolding socks_connect ask_connect
socks_connect_content host port rest s room =
    let hello : Bytes = 5 ∷ 1 ∷ 0 ∷ [] in
    let greeted = send hello s in
    rw (write_all_fits hello (record s { inbox = 5 ∷ 0 ∷ (socks_ok_reply ++ rest) }) (omega arith))
      (rw (read_exact-append (5 ∷ 0 ∷ []) (socks_ok_reply ++ rest) greeted) (
        rw
          (write_all_fits (named_request host port)
            (record greeted { inbox = socks_ok_reply ++ rest }) (omega arith))
          (rw (read_exact-append socks_ok_reply rest (send (named_request host port) greeted)))))

-- All that the client sends, up to its payload.
abbrev pub asks : Bytes → ℕ → Bytes
asks host port = (5 ∷ 1 ∷ 0 ∷ []) ++ named_request host port

asks-dialogue :
    (host : Bytes) (port : ℕ)
    → asks host port
      ≡ dialogue (0 ∷ []) 5 1 0 3 ((length host % 256) ∷ host) (port / 256) (port % 256) []
asks-dialogue host port = refl

module _ (srv : Server) (w : World) (client up : Socket) (host : Bytes) (port rsv p q : ℕ)
    {atyp : ℕ} {bound bound_text : Bytes} (rest : Bytes) (short : length host < 256)
    (fits : port < 65536) (fresh : client.sent ≡ []) (room : 12 ≤ client.room)
    (wire : Wire atyp bound bound_text)
    (up_room : 3 + length (connect_request (rewrite_host host (load srv.dns_map)) port) ≤ up.room)
    (dialed : w.dial srv.upstream_addr
      ≡ connected (record up { inbox = accepting rsv atyp bound p q rest })) where
  abbrev session : Session
  session = serve_conn srv w (record client { inbox = asks host port })

  abbrev welcomed : Socket
  welcomed = send socks_ok_reply (send (5 ∷ 0 ∷ []) (record client { inbox = [] }))

  session_relays :
      session
      ≡ run_relay srv w
          (send
            (connect_request (rewrite_host host (load srv.dns_map)) port)
            (send (5 ∷ 1 ∷ 0 ∷ []) (record up { inbox = rest })))
          welcomed
  session_relays =
      let same : port / 256 * 256 + port % 256 ≡ port = omega arith in
      let target = rewrite_host host (load srv.dns_map) in
      serve_conn_connect srv w client (0 ∷ []) 5 0 (port / 256) (port % 256) [] refl
        (name (length host % 256) host (omega arith)) room up rsv p q rest wire (rw same up_room)
        dialed
      ∙ ap
          (λ (k : ℕ).
            run_relay srv w
              (send (connect_request target k) (send (5 ∷ 1 ∷ 0 ∷ []) (record up { inbox = rest })))
              welcomed)
          same

  answers_sent : w.events ≡ [] → session.client.sent ≡ 5 ∷ 0 ∷ socks_ok_reply
  unfolding run_relay relay run
  answers_sent none_yet =
      ap (λ (t : Session). t.client.sent) session_relays
      ∙ ap
          (λ ev.
            (relay srv.relay_idle w.relay_start ev welcomed (
              send (connect_request (rewrite_host host (load srv.dns_map)) port)
                (send (5 ∷ 1 ∷ 0 ∷ []) (record up { inbox = rest })))).client.sent)
          none_yet
      ∙ ap (λ (xs : Bytes). (xs ++ (5 ∷ 0 ∷ [])) ++ socks_ok_reply) fresh

  abbrev relayed : Socket
  relayed =
      send (connect_request (rewrite_host host (load srv.dns_map)) port)
        (send (5 ∷ 1 ∷ 0 ∷ []) (record up { inbox = rest }))

  request_sent :
      w.events ≡ []
      → up.sent ≡ []
      → (last : Socket) × ((session.upstream ≡ some last)
          × (last.sent ≡ 5 ∷ 1 ∷ 0 ∷ connect_request (rewrite_host host (load srv.dns_map)) port))
  unfolding run_relay relay run
  request_sent none_yet unused = (
    (relay srv.relay_idle w.relay_start w.events welcomed relayed).upstream,
    (
      ap (λ (t : Session). t.upstream) session_relays,
      ap (λ ev. (relay srv.relay_idle w.relay_start ev welcomed relayed).upstream.sent) none_yet
          ∙ ap
              (λ (xs : Bytes).
                (xs ++ (5 ∷ 1 ∷ 0 ∷ []))
                ++ connect_request (rewrite_host host (load srv.dns_map)) port)
              unused,
    ),
  )

  -- The upstream hears the host that the map gives.
  target_heard :
      (lossy : Bytes → Bytes) (sizes : ℕ → ℕ) (text : Bytes) (peer : Socket)
      → w.events ≡ []
      → up.sent ≡ []
      → IsHeardAs
          (rewrite_host host (load srv.dns_map))
          (atyp_for (rewrite_host host (load srv.dns_map)))
          text
      → 12 ≤ peer.room
      → (last : Socket) × ((session.upstream ≡ some last)
          × ((fake_upstream lossy sizes (record peer { inbox = last.sent })).0
              ≡ some (lossy text ++ b':' ∷ show_dec port)))
  target_heard lossy sizes text peer none_yet unused h peer_room =
      let (last, (is_last, sent)) = request_sent none_yet unused in
      (
        last,
        (
          is_last,
          ap (λ (xs : Bytes). (fake_upstream lossy sizes (record peer { inbox = xs })).0)
                (sent
                  ∙ sym (
                      append-nil
                        (5 ∷ 1 ∷ 0 ∷ connect_request (rewrite_host host (load srv.dns_map)) port)))
              ∙ (fake_upstream-connect_request lossy sizes (rewrite_host host (load srv.dns_map))
                  text port [] peer fits h peer_room).0,
        ),
      )

  -- The client is content with what the server sends it.
  client_content :
      (mine : Socket)
      → w.events ≡ []
      → mine.sent ≡ []
      → 3 + length (named_request host port) ≤ mine.room
      → ((socks_connect host port (record mine { inbox = session.client.sent })).0 ≡ returned true)
        × ((socks_connect host port (record mine { inbox = session.client.sent })).1.sent
            ≡ asks host port)
  client_content mine none_yet unused mine_room =
      let content =
        ap (λ (xs : Bytes). socks_connect host port (record mine { inbox = xs }))
          (answers_sent none_yet)
        ∙ socks_connect_content host port [] mine mine_room in
      (
        ap (λ (r : _ × Socket). r.0) content,
        ap (λ (r : _ × Socket). r.1.sent) content
            ∙ ap (λ (xs : Bytes). (xs ++ (5 ∷ 1 ∷ 0 ∷ [])) ++ named_request host port) unused,
      )

  -- The client asks for a name of fewer than 256 bytes and a port below 65536, the upstream is reached and
  -- accepts, and no relay event has happened yet. Then the ends of the two peers fit the server's. On what the
  -- server sends it, the client finds its connection made, and has sent what the server was given to read. On
  -- what the server has sent its upstream, the test's upstream records the port, and the host that the map
  -- gives: a name as it is, or an IPv4 address in its canonical text, if the host goes out as such.
  pub socks_connect-fake_upstream :
      (lossy : Bytes → Bytes) (sizes : ℕ → ℕ) (text : Bytes) (mine peer : Socket)
      → w.events ≡ []
      → up.sent ≡ []
      → mine.sent ≡ []
      → 3 + length (named_request host port) ≤ mine.room
      → IsHeardAs
          (rewrite_host host (load srv.dns_map))
          (atyp_for (rewrite_host host (load srv.dns_map)))
          text
      → 12 ≤ peer.room
      → (((socks_connect host port (record mine { inbox = session.client.sent })).0 ≡ returned true)
          × ((socks_connect host port (record mine { inbox = session.client.sent })).1.sent
              ≡ asks host port))
        × ((last : Socket) × ((session.upstream ≡ some last)
              × ((fake_upstream lossy sizes (record peer { inbox = last.sent })).0
                  ≡ some (lossy text ++ b':' ∷ show_dec port))))
  socks_connect-fake_upstream lossy sizes text mine peer none_yet unused fresh' mine_room h
        peer_room =
      (
        client_content mine none_yet fresh' mine_room,
        target_heard lossy sizes text peer none_yet unused h peer_room,
      )
