-- ===== src/ProxyTests/Cases.antt =====
-- Test functions of rust/src/proxy.rs, each on one connection of the server.
use tailcat_socks.Base.{
  ℕ, ◌+◌, ◌≡◌, refl, Bool, true, false, ◌&&◌, [], ◌∷◌, ◌++◌, none, some, ◌==◌, length, take, drop,
}
use tailcat_socks.Base.Bytes.{Bytes, codes, bytes_eq}
use tailcat_socks.Error.{IoError}
use tailcat_socks.Net.{Io, ◌>>=◌, ◌>>◌, read_exact, write_all}
use tailcat_socks.Text.Utf8.{is_utf8}
use tailcat_socks.Text.Decimal.{show_dec}
use tailcat_socks.Text.Ip.{
  show_v4, parse_v4, read_ipv4_addr, read_separator, read_number, read_digits, read_given_char,
  finish_number, starts_zero,
}
use tailcat_socks.Dns.Mapping.{get}
use tailcat_socks.Dns.Rewrite.{rewrite_host}
use tailcat_socks.Dns.Watch.{load, store}
use tailcat_socks.Text.Ipv6.{of_octets, v6_octets, show_v6, read_ipv6_addr, parse_v6}
use tailcat_socks.Proxy.{
  socks_fail_reply, upstream_connect, greet, greet_methods, answer_methods, read_request,
  send_connect, read_reply,
}
use tailcat_socks.Proxy.Address.{
  at, to_be_bytes, read_atyp_addr, read_v6, atyp_for, request_head, connect_request,
}
use tailcat_socks.Proxy.Session.{Dialed, unreachable, serve_conn}
use tailcat_socks.Proxy.Session.{
  bind, with_listener, after_greeting, after_request, close_with, forward, after_handshake,
}
use tailcat_socks.ProxyTests.Start.{start_proxy, test_map}
use tailcat_socks.ProxyTests.{
  capture_upstream, refuse_upstream, try_read, try_write, or_zeros, anyway,
}
use tailcat_socks.ProxyTests.Joined.{
  exchange, heard_by, found, with_server, sends, serving, serving_with, found_by, verdict,
  joined_session, returns,
}

abbrev greeting : Bytes
greeting = 0x05 ∷ 0x01 ∷ 0x00 ∷ []

-- A client that is greeted, sends a request and reads ten bytes.
asks_for : Bytes → Io Bytes
asks_for request = do write_all greeting; rep ← read_exact 2; write_all request; read_exact 10

-- Whatever the upstream is, it hears nothing.
unfoldable rejects_bind : Dialed → Bool
unfolding asks_for
rejects_bind up = with_server [] (codes "127.0.0.1:1") (λ srv.
    let client = asks_for (0x05 ∷ 0x02 ∷ 0x00 ∷ 0x01 ∷ 127 ∷ 0 ∷ 0 ∷ 1 ∷ 0x1F ∷ 0x90 ∷ []) in
    let fails = λ (head : Bytes). at 1 head == 0x01 in
    verdict client fails (serving srv up [])
    && length (heard_by (joined_session client (serving srv up [])).upstream) == 0)

unfoldable no_acceptable_method : Dialed → Bool
no_acceptable_method up = with_server [] (codes "127.0.0.1:1") (λ srv.
    let client : Io Bytes = write_all (0x05 ∷ 0x01 ∷ 0xFF ∷ []) >> read_exact 2 in
    verdict client (bytes_eq (0x05 ∷ 0xFF ∷ [])) (serving srv up []))

unfoldable upstream_dial_failure_replies_fail : IoError → Bool
unfolding asks_for
upstream_dial_failure_replies_fail e = with_server [] (codes "127.0.0.1:1") (λ srv.
    let client = asks_for (0x05 ∷ 0x01 ∷ 0x00 ∷ 0x03 ∷ 3 ∷ (codes "abc" ++ 0x00 ∷ 0x50 ∷ [])) in
    verdict client (bytes_eq socks_fail_reply) (serving srv (unreachable e) []))

unfoldable upstream_refusal_replies_fail : Bool
unfolding asks_for
upstream_refusal_replies_fail = with_server [] (codes "127.0.0.1:1") (λ srv.
    let client = asks_for (0x05 ∷ 0x01 ∷ 0x00 ∷ 0x01 ∷ 127 ∷ 0 ∷ 0 ∷ 1 ∷ 0x00 ∷ 0x50 ∷ []) in
    verdict client (bytes_eq socks_fail_reply) (serving_with srv (sends refuse_upstream) []))

-- What `capture_upstream` hands over.
abbrev captures : ℕ → (Bytes → Bool) → Bytes → Bool
captures total test heard = found (capture_upstream total) test heard

unfoldable upstream_connect_uses_domain_atyp : Bool
upstream_connect_uses_domain_atyp =
    let token = codes "tcXYZabc123" in
    let total = 3 + 4 + 1 + length token + 2 in
    let asker = sends (upstream_connect token 443) in
    let answers = exchange 3 asker (sends (capture_upstream total)) in
    let want = 0x05 ∷ 0x01 ∷ 0x00 ∷ 0x03 ∷ length token ∷ (token ++ to_be_bytes 443) in
    captures total
      (λ got. bytes_eq (take 3 got) (0x05 ∷ 0x01 ∷ 0x00 ∷ []) && bytes_eq (drop 3 got) want)
      (asker answers)

-- The client leaves behind its request.
unfoldable forwards_ipv6_as_atyp4 : Bool
forwards_ipv6_as_atyp4 = with_server [] (codes "127.0.0.1:1") (λ srv.
    elim (parse_v6 (codes "2001:db8::1")) [
      | none ↦ false
      | some ip ↦
          let octets = v6_octets ip.segments in
          let total = 3 + 4 + 16 + 2 in
          let client : Io (Unit {0}) =
            write_all greeting
            >> (read_exact 2 >>= λ rep.
                write_all (0x05 ∷ 0x01 ∷ 0x00 ∷ 0x04 ∷ (octets ++ to_be_bytes 443))) in
          let served =
            joined_session client (serving_with srv (sends (capture_upstream total)) []) in
          captures total
            (λ got.
              at 6 got == 0x04
              && bytes_eq (take 16 (drop 7 got)) octets
              && bytes_eq (take 2 (drop 23 got)) (0x01 ∷ 0xBB ∷ []))
            (heard_by served.upstream)
    ])

rejects_bind_passes : (up : Dialed) → rejects_bind up ≡ true
unfolding rejects_bind with_server start_proxy bind with_listener found_by returns serve_conn
    write_all read_exact after_greeting greet greet_methods answer_methods after_request
    read_request read_atyp_addr close_with
rejects_bind_passes up = refl

no_acceptable_method_passes : (up : Dialed) → no_acceptable_method up ≡ true
unfolding no_acceptable_method with_server start_proxy bind with_listener found_by returns
    serve_conn write_all read_exact after_greeting greet greet_methods answer_methods bytes_eq
no_acceptable_method_passes up = refl

upstream_dial_failure_replies_fail_passes :
    (e : IoError) → upstream_dial_failure_replies_fail e ≡ true
unfolding upstream_dial_failure_replies_fail with_server start_proxy bind with_listener found_by
    returns serve_conn write_all read_exact after_greeting greet greet_methods answer_methods
    after_request read_request read_atyp_addr close_with forward bytes_eq
upstream_dial_failure_replies_fail_passes e = refl

upstream_refusal_replies_fail_passes : upstream_refusal_replies_fail ≡ true
unfolding upstream_refusal_replies_fail with_server start_proxy bind with_listener found_by returns
    serve_conn write_all read_exact after_greeting greet greet_methods answer_methods after_request
    read_request read_atyp_addr close_with forward bytes_eq serving_with exchange after_handshake
    upstream_connect connect_request atyp_for request_head is_utf8 parse_v4 parse_v6 rewrite_host
    load store get test_map show_v4 show_dec read_ipv4_addr read_separator read_number read_digits
    read_given_char finish_number starts_zero send_connect read_reply try_read try_write or_zeros
    anyway refuse_upstream
upstream_refusal_replies_fail_passes = refl

upstream_connect_uses_domain_atyp_passes : upstream_connect_uses_domain_atyp ≡ true
unfolding upstream_connect_uses_domain_atyp upstream_connect exchange capture_upstream send_connect
    connect_request atyp_for request_head is_utf8 parse_v4 parse_v6 read_ipv4_addr read_separator
    read_number read_digits read_given_char finish_number starts_zero bytes_eq read_exact write_all
    returns try_write anyway read_ipv6_addr read_reply
upstream_connect_uses_domain_atyp_passes = refl

forwards_ipv6_as_atyp4_passes : forwards_ipv6_as_atyp4 ≡ true
unfolding forwards_ipv6_as_atyp4 with_server start_proxy bind with_listener found_by returns
    serve_conn write_all read_exact after_greeting greet greet_methods answer_methods after_request
    read_request read_atyp_addr forward bytes_eq serving_with exchange after_handshake
    upstream_connect connect_request atyp_for request_head is_utf8 parse_v4 parse_v6 rewrite_host
    load store get test_map show_v4 show_dec read_ipv4_addr read_separator read_number read_digits
    read_given_char finish_number starts_zero send_connect read_reply capture_upstream try_write
    anyway v6_octets of_octets read_v6 show_v6 read_ipv6_addr close_with
forwards_ipv6_as_atyp4_passes = refl
