-- ===== src/Proxy/Gate.antt =====
-- No connection of rust/src/proxy.rs is relayed, and no success is replied, before the upstream accepted.
use tailcat_socks.Base.{
  ℕ, ◌≡◌, refl, sym, ap, ◌∙◌, Bool, true, false, [], ◌∷◌, ◌++◌, Option, none, some, arith,
  Bool-cases, inl, inr, append_assoc, ◌==◌, length,
}
use tailcat_socks.Base.Bytes.{Bytes}
use tailcat_socks.Dns.Rewrite.{rewrite_host}
use tailcat_socks.Dns.Watch.{load}
use tailcat_socks.Net.{Socket, Outcome, returned, failed, pending, write_all}
use tailcat_socks.Net.Inversion.{write_all-eq-returned}
use tailcat_socks.Relay.{Relay, relay}
use tailcat_socks.Proxy.Accepted.{Agreed, upstream_connect-Agreed, greet_returned}
use tailcat_socks.Proxy.Quiet.{read_request-IsQuiet}
use tailcat_socks.Proxy.Address.{has_byte}
use tailcat_socks.Proxy.Heard.{greet-Offered, read_request_heard}
use tailcat_socks.Proxy.Session.{
  Server, World, Dialed, connected, unreachable, unanswered, serve_conn, after_greeting,
  after_request, forward, after_handshake, start_relay, run_relay, close_with,
}
use tailcat_socks.Proxy.{socks_ok_reply, Request, greet, read_request, upstream_connect}

-- The way of a connection to its relay: the client's greeting and then its request were read; the client's bytes start
-- with version 5, methods with "no authentication" among them, and a request whose command is CONNECT. The
-- upstream was dialed, and agreed to the greeting and to the request for the rewritten host; the client was sent
-- the greeting's answer and the success reply; then the relay ran on these two connections.
pub record Passed (srv : Server) (w : World) (client : Socket) (r : Relay) : Type 0 where
  pub request : Request
  pub greeted : Socket
  pub asked : Socket
  pub c : Socket
  pub up : Socket
  pub up' : Socket
  pub greeting_read : greet client ≡ (returned true, greeted)
  pub request_read : read_request greeted ≡ (returned request, asked)
  pub is_connect : request.cmd ≡ 1
  pub methods : Bytes
  pub version : ℕ
  pub more : Bytes
  pub offers : has_byte 0 methods ≡ true
  pub heard : client.inbox ≡ 5 ∷ length methods ∷ (methods ++ version ∷ 1 ∷ more)
  pub dialed : w.dial srv.upstream_addr ≡ connected up
  pub agreed : Agreed (rewrite_host request.host (load srv.dns_map)) request.port up up'
  pub success_sent : write_all socks_ok_reply asked ≡ (returned tt, c)
  pub replied : c.sent ≡ client.sent ++ (5 ∷ 0 ∷ socks_ok_reply)
  pub ran : r ≡ relay srv.relay_idle w.relay_start w.events c up'

none-ne-some : {r : Relay} → ◌≡◌ {A = Option Relay} none (some r) → ⊥
none-ne-some e = cc

module _ (srv : Server) (w : World) {r : Relay} where
  start_relay_relayed :
      (up : Socket) (p : Outcome (Unit {0}) × Socket)
      → (start_relay srv w up p).relayed ≡ some r
      → (c : Socket) × (p ≡ (returned tt, c))
        × (r ≡ relay srv.relay_idle w.relay_start w.events c up)
  unfolding start_relay run_relay
  start_relay_relayed up (returned _, c) h = (c, refl, some_eq h)
    where
      some_eq : {a b : Relay} → some a ≡ some b → b ≡ a
      some_eq e = cc
  start_relay_relayed up (failed e, c) h = absurd (none-ne-some h)
  start_relay_relayed up (pending, c) h = absurd (none-ne-some h)

  after_handshake_relayed :
      (c : Socket) (p : Outcome (Unit {0}) × Socket)
      → (after_handshake srv w c p).relayed ≡ some r
      → (up' : Socket) × (p ≡ (returned tt, up'))
        × ((start_relay srv w up' (write_all socks_ok_reply c)).relayed ≡ some r)
  unfolding after_handshake close_with
  after_handshake_relayed c (returned _, up) h = (up, refl, h)
  after_handshake_relayed c (failed e, up) h = absurd (none-ne-some h)
  after_handshake_relayed c (pending, up) h = absurd (none-ne-some h)

  forward_relayed :
      (target : Bytes) (port : ℕ) (c : Socket) (d : Dialed)
      → (forward srv w target port c d).relayed ≡ some r
      → (up : Socket) × (d ≡ connected up)
        × ((after_handshake srv w c (upstream_connect target port up)).relayed ≡ some r)
  unfolding forward close_with
  forward_relayed target port c (connected up) h = (up, refl, h)
  forward_relayed target port c (unreachable e) h = absurd (none-ne-some h)
  forward_relayed target port c unanswered h = absurd (none-ne-some h)

  after_request_relayed :
      (p : Outcome Request × Socket)
      → (after_request srv w p).relayed ≡ some r
      → (q : Request) × (c : Socket) × (p ≡ (returned q, c))
        × (q.cmd ≡ 1)
        × ((forward srv w
              (rewrite_host q.host (load srv.dns_map))
              q.port
              c
              (w.dial srv.upstream_addr)).relayed
            ≡ some r)
  unfolding after_request close_with
  after_request_relayed (returned q, c) h = elim (Bool-cases (q.cmd == 1)) [
    | inl connect ↦ (q, c, refl, ground arith, rw connect at h)
    | inr other ↦ absurd (none-ne-some (rw other at h))
  ]
  after_request_relayed (failed e, c) h = absurd (none-ne-some h)
  after_request_relayed (pending, c) h = absurd (none-ne-some h)

  after_greeting_relayed :
      (p : Outcome Bool × Socket)
      → (after_greeting srv w p).relayed ≡ some r
      → (c : Socket) × (p ≡ (returned true, c))
        × ((after_request srv w (read_request c)).relayed ≡ some r)
  unfolding after_greeting
  after_greeting_relayed (returned true, c) h = (c, refl, h)
  after_greeting_relayed (returned false, c) h = absurd (none-ne-some h)
  after_greeting_relayed (failed e, c) h = absurd (none-ne-some h)
  after_greeting_relayed (pending, c) h = absurd (none-ne-some h)

-- Whatever the client sent and whatever the upstream did: if a connection is relayed, then the client's bytes start with a
-- greeting of version 5 that offers "no authentication" and a request whose command is CONNECT. The upstream
-- was dialed, agreed to the greeting and to the request for that request's host, rewritten, and its port, and
-- was sent exactly these; the client was sent exactly the greeting's answer and the success reply; and the
-- relay ran on these two connections.
pub relayed-Passed :
    (srv : Server) (w : World) (client : Socket) {r : Relay}
    → (serve_conn srv w client).relayed ≡ some r
    → Passed srv w client r
unfolding serve_conn
relayed-Passed srv w client h =
    let (c1, greeted, h1) = after_greeting_relayed srv w (greet client) h in
    let (q, c2, asked, is_connect, h2) = after_request_relayed srv w (read_request c1) h1 in
    let target = rewrite_host q.host (load srv.dns_map) in
    let (up, dialed, h3) = forward_relayed srv w target q.port c2 (w.dial srv.upstream_addr) h2 in
    let (up', shaken, h4) =
      after_handshake_relayed srv w c2 (upstream_connect target q.port up) h3 in
    let (c3, replied, ran) = start_relay_relayed srv w up' (write_all socks_ok_reply c2) h4 in
    let offered = greet-Offered client greeted in
    let (version, more, request_heard) = read_request_heard c1 asked in
    record {
      request = q;
      greeted = c1;
      asked = c2;
      c = c3;
      up = up;
      up' = up';
      greeting_read = greeted;
      request_read = asked;
      is_connect = is_connect;
      methods = offered.methods;
      version = version;
      more = more;
      offers = offered.offers;
      heard =
          offered.heard
          ∙ ap (λ xs. 5 ∷ length offered.methods ∷ (offered.methods ++ xs))
              (request_heard ∙ ap (λ n. version ∷ n ∷ more) is_connect);
      dialed = dialed;
      agreed = upstream_connect-Agreed target q.port up shaken;
      success_sent = replied;
      replied =
          (write_all-eq-returned socks_ok_reply c2 replied).added
          ∙ ap (λ xs. xs ++ socks_ok_reply)
              (sym (ap (λ (p : Outcome Request × Socket). p.1.sent) asked)
                ∙ read_request-IsQuiet c1
                ∙ greet_returned client greeted)
          ∙ append_assoc client.sent (5 ∷ 0 ∷ []) socks_ok_reply;
      ran = ran;
    }
