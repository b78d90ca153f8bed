-- ===== src/Proxy/TurnedAway.antt =====
-- Openings that rust/src/proxy.rs does not serve.
use tailcat_socks.Base.{
  ℕ, ◌≤◌, ◌≡◌, refl, ap, ◌∙◌, true, false, ◌||◌, [], ◌∷◌, ◌++◌, none, arith, ◌==◌, length,
}
use tailcat_socks.Base.Bytes.{Bytes}
use tailcat_socks.Error.{unsupported_atyp}
use tailcat_socks.Net.{Socket, returned, failed}
use tailcat_socks.Net.Laws.{read_exact-append}
use tailcat_socks.Proxy.Address.{has_byte, read_atyp_addr}
use tailcat_socks.Proxy.Handshake.{send, greet_accepts, greet_refuses, greet_other}
use tailcat_socks.Proxy.Session.{Server, World, Session, serve_conn, after_greeting, after_request}
use tailcat_socks.Proxy.{read_request}

read_request_unsupported :
    (ver cmd rsv atyp : ℕ) (rest : Bytes) (s : Socket)
    → (atyp == 1 || atyp == 3 || atyp == 4) ≡ false
    → read_request (record s { inbox = ver ∷ cmd ∷ rsv ∷ atyp ∷ rest })
      ≡ (failed (unsupported_atyp atyp), record s { inbox = rest })
unfolding read_request
read_request_unsupported ver cmd rsv atyp rest s h =
    rw (read_exact-append (ver ∷ cmd ∷ rsv ∷ atyp ∷ []) rest s) (rw unsupported)
  where
    unsupported :
        read_atyp_addr atyp (record s { inbox = rest })
        ≡ (failed (unsupported_atyp atyp), record s { inbox = rest })
    unsupported = unfold read_atyp_addr in ground (arith, h)

-- A session that ends before the upstream is dialed.
abbrev pub undialed : Socket → Session
undialed c = record { client = c; upstream = none; relayed = none; outcome = returned tt }

-- Three openings of a client that takes two bytes. With another version than 5, nothing is sent. Without
-- "no authentication" among the methods, the refusal of all methods is sent. With a request for an address
-- of a type that is not 1, 3 or 4, the greeting is answered, and the connection ends with the error that
-- names the type, and with no reply. In all three the upstream is not dialed, and nothing behind what
-- decided it is read.
pub serve_conn_turned_away :
    (srv : Server) (w : World) (client : Socket) (v : ℕ) (methods others : Bytes)
    (ver cmd rsv atyp : ℕ) (rest : Bytes)
    → 2 ≤ client.room
    → (v == 5) ≡ false
    → has_byte 0 others ≡ false
    → has_byte 0 methods ≡ true
    → (atyp == 1 || atyp == 3 || atyp == 4) ≡ false
    → (serve_conn srv w (record client { inbox = v ∷ rest })
        ≡ undialed (record client { inbox = rest }))
      × ((serve_conn srv w (record client { inbox = 5 ∷ length others ∷ (others ++ rest) })
            ≡ undialed (send (5 ∷ 0xFF ∷ []) (record client { inbox = rest })))
          × (serve_conn srv w (record client {
            inbox = 5 ∷ length methods ∷ (methods ++ (ver ∷ cmd ∷ rsv ∷ atyp ∷ rest));
          })
              ≡ record (undialed (send (5 ∷ 0 ∷ []) (record client { inbox = rest }))) {
                outcome = failed (unsupported_atyp atyp);
              }))
unfolding serve_conn
serve_conn_turned_away srv w client v methods others ver cmd rsv atyp rest room other_version
      not_offered offered unknown =
    (
      ap (after_greeting srv w) (greet_other v rest client other_version)
          ∙ unfold after_greeting in refl,
      (
        ap (after_greeting srv w)
              (greet_refuses (length others) others rest client refl room not_offered)
            ∙ unfold after_greeting in refl,
        ap (after_greeting srv w) (
              greet_accepts (length methods) methods (ver ∷ cmd ∷ rsv ∷ atyp ∷ rest) client refl
                room offered)
            ∙ unfold after_greeting after_request in
              ap (after_request srv w)
                (read_request_unsupported ver cmd rsv atyp rest (send (5 ∷ 0 ∷ []) client) unknown),
      ),
    )
