-- ===== src/FakeTailcat/Chain.antt =====
-- A client, the server of rust/src/proxy.rs, and the stand-in of rust/src/bin/fake-tailcat.rs as its upstream: the
-- chain that rust/tests/e2e.rs runs.
use tailcat_socks.Base.{
  ℕ, ◌+◌, ◌*◌, ◌/◌, ◌%◌, ◌≤◌, ◌≡◌, ap, ◌∙◌, true, [], ◌∷◌, ◌++◌, length, append_assoc,
}
use tailcat_socks.Base.Bytes.{Bytes}
use tailcat_socks.Dns.Rewrite.{rewrite_host}
use tailcat_socks.Dns.Watch.{load}
use tailcat_socks.Net.{Socket}
use tailcat_socks.Proxy.{socks_ok_reply}
use tailcat_socks.Proxy.Address.{atyp_for, connect_request, has_byte}
use tailcat_socks.Proxy.Wire.{Wire}
use tailcat_socks.Proxy.Sent.{Fits, connect_request-OnWire}
use tailcat_socks.Proxy.Handshake.{send, accepting}
use tailcat_socks.Proxy.Session.{Server, World, Session, serve_conn}
use tailcat_socks.Proxy.Connect.{dialogue}
use tailcat_socks.FakeTailcat.{serve_echo}
use tailcat_socks.FakeTailcat.Echo.{serve_echo_accepts}

-- What the stand-in is sent: the greeting, the request, and `forwarded` bytes.
abbrev pub heard : Bytes → ℕ → Bytes → Bytes
heard host port forwarded = (5 ∷ 1 ∷ 0 ∷ connect_request host port) ++ forwarded

-- It answers with its acceptance and those bytes.
pub heard-answered :
    (sizes : ℕ → ℕ) (host : Bytes) (port : ℕ) (forwarded : Bytes) (fake : Socket)
    → Fits host (atyp_for host)
    → fake.sent ≡ []
    → 12 + length forwarded ≤ fake.room
    → (serve_echo sizes (record fake { inbox = heard host port forwarded })).1.sent
      ≡ accepting 0 1 (0 ∷ 0 ∷ 0 ∷ 0 ∷ []) 0 0 forwarded
heard-answered sizes host port forwarded fake h fresh room =
    let o = connect_request-OnWire host port h in
    let shape : heard host port forwarded
        ≡ 5 ∷ 1 ∷ 0 ∷ 5 ∷ 1 ∷ 0 ∷ o.atyp ∷ (o.bytes ++ ((port / 256) ∷ (port % 256) ∷ forwarded)) =
      ap (λ (xs : Bytes). 5 ∷ 1 ∷ 0 ∷ (xs ++ forwarded)) o.is_request
      ∙ ap (λ (xs : Bytes). 5 ∷ 1 ∷ 0 ∷ 5 ∷ 1 ∷ 0 ∷ o.atyp ∷ xs)
          (append_assoc o.bytes ((port / 256) ∷ (port % 256) ∷ []) forwarded) in
    rw (
      shape,
      serve_echo_accepts sizes (0 ∷ []) 5 1 0 (port / 256) (port % 256) forwarded fake o.wire room,
      fresh,
    )

module _ (srv : Server) (w : World) (client : Socket) (methods : Bytes) (ver rsv hi lo : ℕ)
    {atyp : ℕ} {bytes host : Bytes} (early : Bytes) (offered : has_byte 0 methods ≡ true)
    (wire : Wire atyp bytes host) (room : 12 ≤ client.room) where
  abbrev chain_target : Bytes
  chain_target = rewrite_host host (load srv.dns_map)

  abbrev chain_port : ℕ
  chain_port = hi * 256 + lo

  -- The session of the server, with the upstream connection that the dial gives.
  abbrev chain_session : Session
  chain_session =
      serve_conn srv w (record client { inbox = dialogue methods ver 1 rsv atyp bytes hi lo early })

  abbrev relayed_client : Socket
  relayed_client = send socks_ok_reply (send (5 ∷ 0 ∷ []) (record client { inbox = early }))

  abbrev relayed_upstream : Socket → Bytes → Socket
  relayed_upstream upstream forwarded =
      send (connect_request chain_target chain_port)
        (send (5 ∷ 1 ∷ 0 ∷ []) (record upstream { inbox = forwarded }))
