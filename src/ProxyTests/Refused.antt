-- ===== src/ProxyTests/Refused.antt =====
-- `refuse_upstream` and `capture_upstream` of the tests of rust/src/proxy.rs, as peers of `upstream_connect`.
use tailcat_socks.Base.{
  ℕ, ◌+◌, ◌*◌, ◌-◌, ◌≤◌, ◌≡◌, refl, sym, ap, ◌∙◌, true, [], ◌∷◌, ◌++◌, none, some, arith, length,
  length-drop, take, drop, append-nil,
}
use tailcat_socks.Base.Bytes.{Bytes}
use tailcat_socks.Error.{upstream_refused}
use tailcat_socks.Dns.Rewrite.{rewrite_host}
use tailcat_socks.Dns.Watch.{load}
use tailcat_socks.Net.{Socket, Ending, eof, silent, broken, returned, failed, read_exact}
use tailcat_socks.Net.Laws.{read_exact-append, write_all_fits}
use tailcat_socks.Proxy.{socks_fail_reply, upstream_connect, send_connect, read_reply}
use tailcat_socks.Proxy.Address.{connect_request, has_byte}
use tailcat_socks.Proxy.Wire.{Wire, read_exact_len}
use tailcat_socks.Proxy.Handshake.{send}
use tailcat_socks.Proxy.Session.{Server, World, connected, serve_conn}
use tailcat_socks.Proxy.Connect.{dialogue, refused, serve_conn_refused}
use tailcat_socks.ProxyTests.{
  try_read, or_zeros, try_write, anyway, capture_upstream, refuse_upstream,
}

-- A read of no more than there is.
read_exact-take :
    (n : ℕ) (xs : Bytes) (s : Socket)
    → n ≤ length xs
    → read_exact n (record s { inbox = xs })
      ≡ (returned (take n xs), record s { inbox = drop n xs })
unfolding read_exact
read_exact-take n xs s h = ground arith

try_read-take :
    (n : ℕ) (xs : Bytes) (s : Socket)
    → n ≤ length xs
    → try_read n (record s { inbox = xs }) ≡ (returned (take n xs), record s { inbox = drop n xs })
unfolding try_read or_zeros
try_read-take n xs s h = rw (read_exact-take n xs s h)

pub try_read_len :
    (n : ℕ) (xs ys : Bytes) (s : Socket)
    → length xs ≡ n
    → try_read n (record s { inbox = xs ++ ys }) ≡ (returned xs, record s { inbox = ys })
unfolding try_read or_zeros
try_read_len n xs ys s e = rw (read_exact_len n xs ys s e)

pub try_write_fits :
    (bytes : Bytes) (s : Socket)
    → length bytes ≤ s.room
    → try_write bytes s ≡ (returned tt, send bytes s)
unfolding try_write anyway
try_write_fits bytes s h = rw (write_all_fits bytes s h)

-- The peer answers the greeting and refuses a request of ten bytes at least, of which it reads ten.
refuse_upstream_lem :
    (request : Bytes) (s : Socket)
    → 10 ≤ length request
    → 12 ≤ s.room
    → refuse_upstream (record s { inbox = 5 ∷ 1 ∷ 0 ∷ request }) ≡ (
      returned tt,
      send socks_fail_reply (send (5 ∷ 0 ∷ []) (record s { inbox = drop 6 (drop 4 request) })),
    )
unfolding refuse_upstream
refuse_upstream_lem request s long room =
    let greeted = send (5 ∷ 0 ∷ []) s in
    let left : length (drop 4 request) ≡ length request - 4 = length-drop 4 request in
    rw (try_read-take 2 (5 ∷ 1 ∷ 0 ∷ request) s (omega arith)) (
      rw (try_read-take 1 (0 ∷ request) s (omega arith)) (
        rw (try_write_fits (5 ∷ 0 ∷ []) (record s { inbox = request }) (omega arith)) (
          rw (try_read-take 4 request greeted (omega arith)) (
            rw (try_read-take 6 (drop 4 request) greeted (omega arith)) (
              try_write_fits socks_fail_reply (record greeted { inbox = drop 6 (drop 4 request) })
                (omega arith))))))

upstream_connect_refused :
    (host : Bytes) (port : ℕ) (s : Socket)
    → 3 + length (connect_request host port) ≤ s.room
    → upstream_connect host port (record s { inbox = 5 ∷ 0 ∷ socks_fail_reply }) ≡ (
      failed upstream_refused,
      send
          (connect_request host port)
          (send (5 ∷ 1 ∷ 0 ∷ []) (record s { inbox = drop 4 socks_fail_reply })),
    )
unfolding upstream_connect send_connect read_reply
upstream_connect_refused host port s room =
    let hello : Bytes = 5 ∷ 1 ∷ 0 ∷ [] in
    let greeted = send hello s in
    rw (write_all_fits hello (record s { inbox = 5 ∷ 0 ∷ socks_fail_reply }) (omega arith)) (
      rw (read_exact-append (5 ∷ 0 ∷ []) socks_fail_reply greeted) (
        rw
          (write_all_fits (connect_request host port) (record greeted { inbox = socks_fail_reply })
            (omega arith))
          (rw (
            read_exact-append (take 4 socks_fail_reply) (drop 4 socks_fail_reply)
              (send (connect_request host port) greeted)))))

module _ (srv : Server) (w : World) (client : Socket) (methods : Bytes) (ver rsv hi lo : ℕ)
    {atyp : ℕ} {bytes host : Bytes} (early : Bytes) (offered : has_byte 0 methods ≡ true)
    (wire : Wire atyp bytes host) (room : 12 ≤ client.room) where
  abbrev request : Bytes
  request = connect_request (rewrite_host host (load srv.dns_map)) (hi * 256 + lo)

  -- The CONNECT of a client that offers "no authentication", sends a whole address, and takes the answers. The
  -- upstream is the test's refusing one: the server's connection to it brings what it sends when it hears the
  -- greeting and the request, of ten bytes or more, that the server sends on that connection. Then the
  -- client gets the failure reply, and nothing is relayed.
  pub serve_conn-refuse_upstream :
      (peer up : Socket)
      → 10 ≤ length request
      → peer.sent ≡ []
      → 12 ≤ peer.room
      → up.sent ≡ []
      → 3 + length request ≤ up.room
      → w.dial srv.upstream_addr
        ≡ connected (record up {
          inbox = (refuse_upstream (record peer { inbox = 5 ∷ 1 ∷ 0 ∷ request })).1.sent;
        })
      → (last : Socket) × ((last.sent ≡ 5 ∷ 1 ∷ 0 ∷ request)
          × (serve_conn srv w
                (record client { inbox = dialogue methods ver 1 rsv atyp bytes hi lo early })
              ≡ record {
                client =
                    send socks_fail_reply (send (5 ∷ 0 ∷ []) (record client { inbox = early }));
                upstream = some last;
                relayed = none;
                outcome = returned tt;
              }))
  serve_conn-refuse_upstream peer up long fresh peer_room unused up_room dialed =
      let answered : (refuse_upstream (record peer { inbox = 5 ∷ 1 ∷ 0 ∷ request })).1.sent
          ≡ 5 ∷ 0 ∷ socks_fail_reply =
        ap (λ (r : _ × Socket). r.1.sent) (refuse_upstream_lem request peer long peer_room)
        ∙ ap (λ (xs : Bytes). (xs ++ (5 ∷ 0 ∷ [])) ++ socks_fail_reply) fresh in
      (
        send request (send (5 ∷ 1 ∷ 0 ∷ []) (record up { inbox = drop 4 socks_fail_reply })),
        (
          ap (λ (xs : Bytes). (xs ++ (5 ∷ 1 ∷ 0 ∷ [])) ++ request) unused,
          serve_conn_refused srv w client methods ver rsv hi lo early offered wire room
              (dialed ∙ ap (λ (xs : Bytes). connected (record up { inbox = xs })) answered)
              (refused _ (
                upstream_connect_refused (rewrite_host host (load srv.dns_map)) (hi * 256 + lo) up
                  up_room)),
        ),
      )

read_reply_nothing :
    (e : Ending) (s : Socket) → (read_reply (record s { inbox = []; ending = e })).1.sent ≡ s.sent
unfolding read_reply read_exact
read_reply_nothing eof s = refl
read_reply_nothing silent s = refl
read_reply_nothing (broken e) s = refl

greeted_only :
    (host : Bytes) (port : ℕ) (up : Socket)
    → up.sent ≡ []
    → 3 + length (connect_request host port) ≤ up.room
    → (upstream_connect host port (record up { inbox = 5 ∷ 0 ∷ [] })).1.sent
      ≡ 5 ∷ 1 ∷ 0 ∷ connect_request host port
unfolding upstream_connect send_connect
greeted_only host port up unused room =
    let hello : Bytes = 5 ∷ 1 ∷ 0 ∷ [] in
    rw
      (
        write_all_fits hello (record up { inbox = 5 ∷ 0 ∷ [] }) (omega arith),
        read_exact-append (5 ∷ 0 ∷ []) [] (send hello up),
      )
      (rw
        (write_all_fits (connect_request host port) (record (send hello up) { inbox = [] })
          (omega arith))
        (read_reply_nothing up.ending (send (connect_request host port) (send hello up))
          ∙ ap (λ (xs : Bytes). (xs ++ hello) ++ connect_request host port) unused))

-- An upstream connection that brings only the greeting's answer: the capturing peer, told the number of bytes
-- that come, hands over the greeting and the request that the server sends, whole, and has sent that answer.
capture_upstream-upstream_connect :
    (host : Bytes) (port : ℕ) (peer up : Socket)
    → up.sent ≡ []
    → 3 + length (connect_request host port) ≤ up.room
    → 2 ≤ peer.room
    → capture_upstream (3 + length (connect_request host port)) (record peer {
      inbox = (upstream_connect host port (record up { inbox = 5 ∷ 0 ∷ [] })).1.sent;
    })
      ≡ (
        returned (5 ∷ 1 ∷ 0 ∷ connect_request host port),
        send (5 ∷ 0 ∷ []) (record peer { inbox = [] }),
      )
capture_upstream-upstream_connect host port peer up unused up_room room =
    let heard : Bytes = 5 ∷ 1 ∷ 0 ∷ connect_request host port in
    rw (greeted_only host port up unused up_room) (
      unfold capture_upstream in
      rw (try_write_fits (5 ∷ 0 ∷ []) (record peer { inbox = heard }) room) (
        ap
          (λ (xs : Bytes).
            read_exact (3 + length (connect_request host port))
              (record (send (5 ∷ 0 ∷ []) peer) { inbox = xs }))
          (sym (append-nil heard))
        ∙ read_exact_len (3 + length (connect_request host port)) heard [] (send (5 ∷ 0 ∷ []) peer)
            (omega arith)))
