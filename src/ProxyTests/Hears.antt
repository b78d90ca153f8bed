-- ===== src/ProxyTests/Hears.antt =====
-- What `fake_upstream` of the tests of rust/src/proxy.rs records and sends.
use tailcat_socks.Base.{
  ℕ, zero, suc, ◌+◌, ◌*◌, ◌-◌, ◌/◌, ◌%◌, ◌≤◌, ◌<◌, ◌≡◌, refl, sym, ap, ◌∙◌, min, List, [], ◌∷◌,
  ◌++◌, Option, some, arith, length, length-take, length-drop, take, drop, take-append-drop,
  append_assoc, append-nil,
}
use tailcat_socks.Base.Bytes.{Bytes, codes}
use tailcat_socks.Text.Decimal.{show_dec}
use tailcat_socks.Text.Ip.{v4_octets, show_v4}
use tailcat_socks.Net.{Socket, Outcome, returned}
use tailcat_socks.Net.Laws.{read_exact-append, write_all_fits}
use tailcat_socks.Proxy.{socks_ok_reply}
use tailcat_socks.Proxy.Address.{
  Atyp, v4, v6, domain, atyp_for, request_head, connect_request, to_be_bytes,
}
use tailcat_socks.Proxy.Wire.{read_exact_len}
use tailcat_socks.Proxy.Handshake.{send}
use tailcat_socks.ProxyTests.{
  hear_greeting, hear_host, hear_request, hear_target, echo_marked, behind_target, fake_upstream,
}

-- What the test's upstream makes of a host that goes out as an atyp; it reads no IPv6 address.
abbrev pub IsHeardAs : Bytes → Atyp → Bytes → Type 0
IsHeardAs host domain text = (length host < 256) × (text ≡ host)
IsHeardAs host (v4 ip) text = text ≡ show_v4 ip
IsHeardAs host (v6 ip) text = ⊥

-- `ECHO:` in front of every piece.
unfoldable pub marked : List Bytes → Bytes
marked [] = []
marked (xs ∷ pieces) = (codes "ECHO:" ++ xs) ++ marked pieces

-- The pieces, none of them empty, are `xs` in order.
unfoldable pub Pieces : Bytes → List Bytes → Type 0
Pieces xs [] = xs ≡ []
Pieces xs (now ∷ later) =
    (1 ≤ length now) × ((rest : Bytes) × ((now ++ rest ≡ xs) × Pieces rest later))

behind : (a b c xs : Bytes) → xs ≡ (a ++ b) ++ c → xs ≡ a ++ (b ++ c)
behind a b c xs e = e ∙ append_assoc a b c

-- Whatever the sizes of the reads, every piece goes back behind its mark.
echo_marked_all :
    (fuel : ℕ) (sizes : ℕ → ℕ) (i : ℕ) (xs : Bytes) (s : Socket)
    → length xs < fuel
    → 6 * length xs ≤ s.room
    → (pieces : List Bytes) × (Pieces xs pieces
        × ((echo_marked fuel sizes i (record s { inbox = xs })).1.sent ≡ s.sent ++ marked pieces))
unfolding echo_marked marked Pieces
echo_marked_all zero sizes i xs s h room = absurd (omega arith)
echo_marked_all (suc fuel) sizes i [] s h room = ([], (refl, sym (append-nil s.sent)))
echo_marked_all (suc fuel) sizes i (x ∷ xs) s h room =
    let n = min (suc (sizes i)) (min 4096 (length (x ∷ xs))) in
    let now = take n (x ∷ xs) in
    let later = drop n (x ∷ xs) in
    let out = codes "ECHO:" ++ now in
    let some_taken : (length now ≡ n) × (1 ≤ n) =
      (omega (arith, length-take n (x ∷ xs)), omega arith) in
    let left : length later ≡ length (x ∷ xs) - n = length-drop n (x ∷ xs) in
    let (pieces, (cut, sent)) =
      echo_marked_all fuel sizes (i + 1) later (send out s) (omega arith) (omega arith) in
    (
      now ∷ pieces,
      (
        (omega arith, (later, (take-append-drop n (x ∷ xs), cut))),
        rw (write_all_fits out (record s { inbox = later }) (omega arith))
            (behind s.sent out (marked pieces) _ sent),
      ),
    )

pub hear_greeting_lem :
    (methods rest : Bytes) (s : Socket)
    → 2 ≤ s.room
    → hear_greeting (record s { inbox = 5 ∷ length methods ∷ (methods ++ rest) })
      ≡ (returned tt, send (5 ∷ 0 ∷ []) (record s { inbox = rest }))
unfolding hear_greeting
hear_greeting_lem methods rest s room =
    rw (read_exact-append (5 ∷ length methods ∷ []) (methods ++ rest) s) (
      rw (read_exact-append methods rest s)
        (write_all_fits (5 ∷ 0 ∷ []) (record s { inbox = rest }) room))

abbrev pub told_as : (Bytes → Bytes) → Bytes → ℕ → Bytes
told_as lossy text port = lossy text ++ b':' ∷ show_dec port

hear_port :
    (lossy : Bytes → Bytes) (ver cmd rsv atyp hi lo : ℕ) (bytes host rest : Bytes) (s : Socket)
    → hear_host atyp (record s { inbox = bytes ++ (hi ∷ lo ∷ rest) })
      ≡ (returned host, record s { inbox = hi ∷ lo ∷ rest })
    → hear_request lossy (record s { inbox = ver ∷ cmd ∷ rsv ∷ atyp ∷ (bytes ++ (hi ∷ lo ∷ rest)) })
      ≡ (returned (told_as lossy host (hi * 256 + lo)), record s { inbox = rest })
unfolding hear_request
hear_port lossy ver cmd rsv atyp hi lo bytes host rest s e =
    rw (read_exact-append (ver ∷ cmd ∷ rsv ∷ atyp ∷ []) (bytes ++ (hi ∷ lo ∷ rest)) s)
      (rw e (rw (read_exact-append (hi ∷ lo ∷ []) rest s)))

hear_split :
    (lossy : Bytes → Bytes) (port atyp : ℕ) (bytes host rest : Bytes) (s : Socket)
    → port < 65536
    → hear_host atyp (record s { inbox = bytes ++ ((port / 256) ∷ (port % 256) ∷ rest) })
      ≡ (returned host, record s { inbox = (port / 256) ∷ (port % 256) ∷ rest })
    → hear_request lossy
        (record s { inbox = 5 ∷ 1 ∷ 0 ∷ atyp ∷ (bytes ++ ((port / 256) ∷ (port % 256) ∷ rest)) })
      ≡ (returned (told_as lossy host port), record s { inbox = rest })
hear_split lossy port atyp bytes host rest s fits e =
    let same : port / 256 * 256 + port % 256 ≡ port = omega arith in
    rw (hear_port lossy 5 1 0 atyp (port / 256) (port % 256) bytes host rest s e, same)

hear_request-connect_request :
    (lossy : Bytes → Bytes) (host text : Bytes) (port : ℕ) (rest : Bytes) (s : Socket)
    → port < 65536
    → IsHeardAs host (atyp_for host) text
    → hear_request lossy (record s { inbox = connect_request host port ++ rest })
      ≡ (returned (told_as lossy text port), record s { inbox = rest })
hear_request-connect_request lossy host text port rest s fits h =
    unfold connect_request in go (atyp_for host) h
  where
    end : Bytes
    end = (port / 256) ∷ (port % 256) ∷ rest

    go :
        (a : Atyp)
        → IsHeardAs host a text
        → hear_request lossy
            (record s { inbox = (request_head host a ++ to_be_bytes port) ++ rest })
          ≡ (returned (told_as lossy text port), record s { inbox = rest })
    go domain k =
        let l = length host % 256 in
        let small : length host ≡ l = omega (arith, k.0) in
        unfold request_head in
        rw (append_assoc host (to_be_bytes port) rest, k.1)
          (hear_split lossy port 3 (l ∷ host) host rest s fits (
            unfold hear_host in
            rw (read_exact-append (l ∷ []) (host ++ end) s) (read_exact_len l host end s small)))
    go (v4 ip) k =
        unfold request_head in
        rw k (
          hear_split lossy port 1 (v4_octets ip) (show_v4 ip) rest s fits
            (unfold hear_host in rw (read_exact-append (v4_octets ip) end s)))
    go (v6 ip) k = absurd k

-- A greeting, the request for a domain of fewer than 256 bytes or for an IPv4 address, a port below 65536, and
-- a payload: the test's upstream records the domain or the address and the port, accepts, and sends the
-- payload back in non-empty pieces that follow in order, each behind `ECHO:`, whatever the sizes of the reads,
-- provided the peer takes that much.
pub fake_upstream-connect_request :
    (lossy : Bytes → Bytes) (sizes : ℕ → ℕ) (host text : Bytes) (port : ℕ) (payload : Bytes)
    (s : Socket)
    → port < 65536
    → IsHeardAs host (atyp_for host) text
    → 12 + 6 * length payload ≤ s.room
    → ((fake_upstream lossy sizes
          (record s { inbox = (5 ∷ 1 ∷ 0 ∷ connect_request host port) ++ payload })).0
        ≡ some (lossy text ++ b':' ∷ show_dec port))
      × ((pieces : List Bytes) × (Pieces payload pieces
            × ((fake_upstream lossy sizes (record s {
              inbox = (5 ∷ 1 ∷ 0 ∷ connect_request host port) ++ payload;
            })).1.1.sent
                ≡ s.sent ++ (5 ∷ 0 ∷ (socks_ok_reply ++ marked pieces)))))
fake_upstream-connect_request lossy sizes host text port payload s fits h room =
    let welcomed = send socks_ok_reply (send (5 ∷ 0 ∷ []) s) in
    let (pieces, (cut, sent)) =
      echo_marked_all (length payload + 1) sizes 0 payload welcomed (omega arith) (omega arith) in
    let ran = upstream_ran in
    (
      ap (λ (r : Option Bytes × (Outcome (Unit {0}) × Socket)). r.0) ran,
      (
        pieces,
        (
          cut,
          ap (λ (r : Option Bytes × (Outcome (Unit {0}) × Socket)). r.1.1.sent) ran
              ∙ sent
              ∙ append_assoc (s.sent ++ (5 ∷ 0 ∷ [])) socks_ok_reply (marked pieces)
              ∙ append_assoc s.sent (5 ∷ 0 ∷ []) (socks_ok_reply ++ marked pieces),
        ),
      ),
    )
  where
    upstream_ran :
        fake_upstream lossy sizes
          (record s { inbox = (5 ∷ 1 ∷ 0 ∷ connect_request host port) ++ payload })
        ≡ (
          some (told_as lossy text port),
          echo_marked
              (length payload + 1)
              sizes
              0
              (record (send socks_ok_reply (send (5 ∷ 0 ∷ []) s)) { inbox = payload }),
        )
    upstream_ran =
        unfold fake_upstream hear_target in
        rw (hear_greeting_lem (0 ∷ []) (connect_request host port ++ payload) s (omega arith)) (
          rw
            (hear_request-connect_request lossy host text port payload (send (5 ∷ 0 ∷ []) s) fits h)
            (unfold behind_target in
              rw (
                write_all_fits socks_ok_reply (record (send (5 ∷ 0 ∷ []) s) { inbox = payload })
                  (omega arith))))
