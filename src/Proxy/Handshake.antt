-- ===== src/Proxy/Handshake.antt =====
-- The two handshakes of rust/src/proxy.rs on connections whose peers do their part.
use tailcat_socks.Base.{
  ℕ, ◌+◌, ◌-◌, ◌*◌, ◌≤◌, ◌≡◌, ◌∙◌, true, false, [], ◌∷◌, ◌++◌, arith, length, ◌==◌,
}
use tailcat_socks.Base.Bytes.{Bytes}
use tailcat_socks.Net.{Socket, returned}
use tailcat_socks.Net.Laws.{read_exact-append, write_all_fits}
use tailcat_socks.Proxy.Address.{has_byte, connect_request}
use tailcat_socks.Proxy.Wire.{Wire, read_exact_len, read_atyp_addr-Wire}
use tailcat_socks.Proxy.{
  answer_methods, greet_methods, greet, read_request, read_bound, read_reply, send_connect,
  upstream_connect,
}

-- `bytes` behind what has been sent already.
abbrev pub send : Bytes → Socket → Socket
send bytes s = record s { sent = s.sent ++ bytes; room = s.room - length bytes }

module _ (n : ℕ) (methods rest : Bytes) (s : Socket) (counted : length methods ≡ n)
    (room : 2 ≤ s.room) where
  greet_methods_read :
      greet_methods (record s { inbox = n ∷ (methods ++ rest) })
      ≡ answer_methods methods (record s { inbox = rest })
  unfolding greet_methods
  greet_methods_read =
      rw (read_exact-append (n ∷ []) (methods ++ rest) s)
        (rw (read_exact_len n methods rest s counted))

  -- A client that offers "no authentication" is greeted, and nothing behind its methods is read.
  pub greet_accepts :
      has_byte 0 methods ≡ true
      → greet (record s { inbox = 5 ∷ n ∷ (methods ++ rest) })
        ≡ (returned true, send (5 ∷ 0 ∷ []) (record s { inbox = rest }))
  greet_accepts offered =
      unfold greet in
      rw (read_exact-append (5 ∷ []) (n ∷ (methods ++ rest)) s) (
        greet_methods_read
        ∙ unfold answer_methods in
          rw (offered, write_all_fits (5 ∷ 0 ∷ []) (record s { inbox = rest }) room))

  -- A client of version 5 that does not offer "no authentication", and that takes two bytes, is answered
  -- with 0xFF; the connection goes no further, and nothing behind its methods is read.
  pub greet_refuses :
      has_byte 0 methods ≡ false
      → greet (record s { inbox = 5 ∷ n ∷ (methods ++ rest) })
        ≡ (returned false, send (5 ∷ 0xFF ∷ []) (record s { inbox = rest }))
  greet_refuses offered =
      unfold greet in
      rw (read_exact-append (5 ∷ []) (n ∷ (methods ++ rest)) s) (
        greet_methods_read
        ∙ unfold answer_methods in
          rw (offered, write_all_fits (5 ∷ 0xFF ∷ []) (record s { inbox = rest }) room))

-- A client of another version is left without an answer.
pub greet_other :
    (v : ℕ) (rest : Bytes) (s : Socket)
    → (v == 5) ≡ false
    → greet (record s { inbox = v ∷ rest }) ≡ (returned false, record s { inbox = rest })
unfolding greet
greet_other v rest s h = rw (read_exact-append (v ∷ []) rest s) (rw h)

-- A request is read to its last byte and no further.
pub read_request-Wire :
    (ver cmd rsv hi lo : ℕ) {atyp : ℕ} {bytes host : Bytes} (rest : Bytes) (s : Socket)
    → Wire atyp bytes host
    → read_request (record s { inbox = ver ∷ cmd ∷ rsv ∷ atyp ∷ (bytes ++ (hi ∷ lo ∷ rest)) }) ≡ (
      returned (record { cmd = cmd; host = host; port = hi * 256 + lo }),
      record s { inbox = rest },
    )
unfolding read_request
read_request-Wire ver cmd rsv hi lo {atyp} {bytes} {host} rest s w =
    rw (read_exact-append (ver ∷ cmd ∷ rsv ∷ atyp ∷ []) (bytes ++ (hi ∷ lo ∷ rest)) s)
      (rw (read_atyp_addr-Wire (hi ∷ lo ∷ rest) s w) (rw (read_exact-append (hi ∷ lo ∷ []) rest s)))

-- An upstream's success reply, with whatever bound address.
abbrev pub accepting : ℕ → ℕ → Bytes → ℕ → ℕ → Bytes → Bytes
accepting rsv atyp bound p q rest = 5 ∷ 0 ∷ 5 ∷ 0 ∷ rsv ∷ atyp ∷ (bound ++ (p ∷ q ∷ rest))

read_reply-Wire :
    (rsv p q : ℕ) {atyp : ℕ} {bound text : Bytes} (rest : Bytes) (s : Socket)
    → Wire atyp bound text
    → read_reply (record s { inbox = 5 ∷ 0 ∷ rsv ∷ atyp ∷ (bound ++ (p ∷ q ∷ rest)) })
      ≡ (returned tt, record s { inbox = rest })
unfolding read_reply read_bound
read_reply-Wire rsv p q {atyp} {bound} rest s w =
    rw (read_exact-append (5 ∷ 0 ∷ rsv ∷ atyp ∷ []) (bound ++ (p ∷ q ∷ rest)) s)
      (rw (read_atyp_addr-Wire (p ∷ q ∷ rest) s w) (rw (read_exact-append (p ∷ q ∷ []) rest s)))

-- An upstream that accepts is sent the greeting and the request, and its answers are read to the last byte
-- and no further.
pub upstream_connect_accepted :
    (host : Bytes) (port rsv p q : ℕ) {atyp : ℕ} {bound text : Bytes} (rest : Bytes) (s : Socket)
    → Wire atyp bound text
    → 3 + length (connect_request host port) ≤ s.room
    → upstream_connect host port (record s { inbox = accepting rsv atyp bound p q rest }) ≡ (
      returned tt,
      send (connect_request host port) (send (5 ∷ 1 ∷ 0 ∷ []) (record s { inbox = rest })),
    )
unfolding upstream_connect send_connect
upstream_connect_accepted host port rsv p q {atyp} {bound} rest s w room =
    let greeted = send (5 ∷ 1 ∷ 0 ∷ []) s in
    let reply = 5 ∷ 0 ∷ rsv ∷ atyp ∷ (bound ++ (p ∷ q ∷ rest)) in
    rw
      (write_all_fits (5 ∷ 1 ∷ 0 ∷ []) (record s { inbox = accepting rsv atyp bound p q rest })
        (omega arith))
      (rw (read_exact-append (5 ∷ 0 ∷ []) reply greeted) (
        rw
          (write_all_fits (connect_request host port) (record greeted { inbox = reply })
            (omega arith))
          (read_reply-Wire rsv p q rest (send (connect_request host port) greeted) w)))
