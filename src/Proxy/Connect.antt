-- ===== src/Proxy/Connect.antt =====
-- One connection of rust/src/proxy.rs as a whole: what the client and the upstream are sent.
use tailcat_socks.Base.{
  ℕ, ◌+◌, ◌*◌, ◌≤◌, ◌≡◌, refl, ◌∙◌, true, false, [], ◌∷◌, ◌++◌, Option, none, some, arith, length,
  ◌==◌,
}
use tailcat_socks.Base.Bytes.{Bytes}
use tailcat_socks.Error.{IoError, SocksError}
use tailcat_socks.Dns.Rewrite.{rewrite_host}
use tailcat_socks.Dns.Watch.{load}
use tailcat_socks.Net.{Socket, returned, failed, pending}
use tailcat_socks.Net.Laws.{write_all_fits}
use tailcat_socks.Proxy.Address.{has_byte, connect_request}
use tailcat_socks.Proxy.Wire.{Wire}
use tailcat_socks.Proxy.Handshake.{
  send, greet_accepts, read_request-Wire, accepting, upstream_connect_accepted,
}
use tailcat_socks.Proxy.Session.{
  Server, World, Dialed, connected, unreachable, unanswered, serve_conn, after_greeting,
  after_request, forward, after_handshake, start_relay, run_relay, close_with,
}
use tailcat_socks.Proxy.{socks_ok_reply, socks_fail_reply, upstream_connect}

-- What a client sends: a greeting with its methods, a request, and `early` bytes behind it.
abbrev pub dialogue : Bytes → ℕ → ℕ → ℕ → ℕ → Bytes → ℕ → ℕ → Bytes → Bytes
dialogue methods ver cmd rsv atyp bytes hi lo early =
    5 ∷ length methods ∷ (methods ++ (ver ∷ cmd ∷ rsv ∷ atyp ∷ (bytes ++ (hi ∷ lo ∷ early))))

-- A dial that gives no upstream connection on which the handshake returns.
pub data Refuses (target : Bytes) (port : ℕ) : Dialed → Option Socket → Type 0 where
  no_route : (e : IoError) → Refuses target port (unreachable e) none
  no_answer : Refuses target port unanswered none
  refused :
      (up : Socket) {up' : Socket} {e : SocksError}
      → upstream_connect target port up ≡ (failed e, up')
      → Refuses target port (connected up) (some up')
  timed_out :
      (up : Socket) {up' : Socket}
      → upstream_connect target port up ≡ (pending, up')
      → Refuses target port (connected up) (some up')

forward-Refuses :
    (srv : Server) (w : World) (target : Bytes) (port : ℕ) (c : Socket) {d : Dialed}
    {up : Option Socket}
    → Refuses target port d up
    → forward srv w target port c d ≡ close_with socks_fail_reply up c
unfolding forward after_handshake
forward-Refuses srv w target port c (no_route e) = refl
forward-Refuses srv w target port c no_answer = refl
forward-Refuses srv w target port c (refused up e) = rw e
forward-Refuses srv w target port c (timed_out up e) = rw e

module _ (srv : Server) (w : World) (client : Socket) (methods : Bytes) (ver rsv hi lo : ℕ)
    {atyp : ℕ} {bytes host : Bytes} (early : Bytes) (offered : has_byte 0 methods ≡ true)
    (wire : Wire atyp bytes host) (room : 12 ≤ client.room) where
  -- The client behind its request, greeted.
  abbrev greeted : Socket
  greeted = send (5 ∷ 0 ∷ []) (record client { inbox = early })

  abbrev target : Bytes
  target = rewrite_host host (load srv.dns_map)

  serve_conn_request :
      (cmd : ℕ)
      → serve_conn srv w
          (record client { inbox = dialogue methods ver cmd rsv atyp bytes hi lo early })
        ≡ after_request srv w
            (returned (record { cmd = cmd; host = host; port = hi * 256 + lo }), greeted)
  unfolding serve_conn
  serve_conn_request cmd =
      rw
        (greet_accepts (length methods) methods
          (ver ∷ cmd ∷ rsv ∷ atyp ∷ (bytes ++ (hi ∷ lo ∷ early))) client refl (omega arith) offered)
        (unfold after_greeting in
          rw (read_request-Wire ver cmd rsv hi lo early (send (5 ∷ 0 ∷ []) client) wire))

  -- The CONNECT of a client that offers "no authentication", sends a whole address, and takes the twelve
  -- bytes of the answers, with an upstream that is reached, accepts, and takes the greeting and the request:
  -- the client is sent the greeting's answer and the success reply, the upstream is sent its greeting and
  -- the request for the host that the map gives and for the client's port, and the relay starts on the two
  -- connections with every byte that came behind the handshakes.
  pub serve_conn_connect :
      (up : Socket) (rsv' p q : ℕ) {atyp' : ℕ} {bound text : Bytes} (rest : Bytes)
      → Wire atyp' bound text
      → 3 + length (connect_request target (hi * 256 + lo)) ≤ up.room
      → w.dial srv.upstream_addr
        ≡ connected (record up { inbox = accepting rsv' atyp' bound p q rest })
      → serve_conn srv w
          (record client { inbox = dialogue methods ver 1 rsv atyp bytes hi lo early })
        ≡ run_relay srv w
            (send
              (connect_request target (hi * 256 + lo))
              (send (5 ∷ 1 ∷ 0 ∷ []) (record up { inbox = rest })))
            (send socks_ok_reply greeted)
  serve_conn_connect up rsv' p q rest wire' room' dialed =
      serve_conn_request 1
      ∙ unfold after_request forward in
        rw dialed (
          rw (upstream_connect_accepted target (hi * 256 + lo) rsv' p q rest up wire' room') (
            unfold after_handshake in
            rw (write_all_fits socks_ok_reply greeted (omega arith)) (unfold start_relay in refl)))

  close_with_fail :
      (up : Option Socket)
      → close_with socks_fail_reply up greeted ≡ record {
        client = send socks_fail_reply greeted;
        upstream = up;
        relayed = none;
        outcome = returned tt;
      }
  unfolding close_with
  close_with_fail up = rw (write_all_fits socks_fail_reply greeted (omega arith))

  -- A client that offers "no authentication", sends a request with a whole address, and takes the twelve
  -- bytes of the answers, gets the failure reply for any command but CONNECT, and the upstream is never
  -- dialed.
  pub serve_conn_other :
      (cmd : ℕ)
      → (cmd == 1) ≡ false
      → serve_conn srv w
          (record client { inbox = dialogue methods ver cmd rsv atyp bytes hi lo early })
        ≡ record {
          client = send socks_fail_reply greeted;
          upstream = none;
          relayed = none;
          outcome = returned tt;
        }
  serve_conn_other cmd h =
      serve_conn_request cmd ∙ unfold after_request in rw h (close_with_fail none)

  -- The CONNECT of a client that offers "no authentication", sends a whole address, and takes the twelve
  -- bytes of the answers: if the dial fails, finds no answer, or reaches an upstream whose handshake fails
  -- or does not end in time, the client gets the failure reply, and nothing is relayed.
  pub serve_conn_refused :
      {d : Dialed} {up : Option Socket}
      → w.dial srv.upstream_addr ≡ d
      → Refuses target (hi * 256 + lo) d up
      → serve_conn srv w
          (record client { inbox = dialogue methods ver 1 rsv atyp bytes hi lo early })
        ≡ record {
          client = send socks_fail_reply greeted;
          upstream = up;
          relayed = none;
          outcome = returned tt;
        }
  serve_conn_refused {d} {up} dialed r =
      serve_conn_request 1
      ∙ unfold after_request in
        rw dialed (forward-Refuses srv w target (hi * 256 + lo) greeted r ∙ close_with_fail up)
