-- ===== src/Proxy/RoundTrip.antt =====
-- The request that rust/src/proxy.rs sends upstream, against the reader of requests in the same file.
use tailcat_socks.Base.{
  ℕ, ◌+◌, ◌*◌, ◌/◌, ◌%◌, ◌<◌, ◌≡◌, refl, sym, ap, ◌∙◌, ◌∷◌, ◌++◌, arith, length, append_assoc,
}
use tailcat_socks.Base.Bytes.{Bytes}
use tailcat_socks.Net.{Socket, returned}
use tailcat_socks.Text.Ip.{v4_octets, show_v4}
use tailcat_socks.Text.Ipv6.{v6_octets, show_v6}
use tailcat_socks.Text.Ipv6.Octets.{of_octets-v6_octets}
use tailcat_socks.Proxy.Sent.{length-sixteen, atyp_for-eight}
use tailcat_socks.Proxy.Address.{
  Atyp, domain, v4, v6, atyp_for, request_head, connect_request, to_be_bytes,
}
use tailcat_socks.Proxy.Wire.{Wire, name, ipv4, ipv6}
use tailcat_socks.Proxy.Handshake.{read_request-Wire}
use tailcat_socks.Proxy.{read_request}

-- What the reader makes of a request for a host that goes out as `a`.
abbrev pub IsReadAs : Bytes → Atyp → Bytes → Type 0
IsReadAs host domain text = (length host < 256) × (text ≡ host)
IsReadAs host (v4 ip) text = text ≡ show_v4 ip
IsReadAs host (v6 ip) text = text ≡ show_v6 ip

wire_read :
    (port : ℕ) (rest : Bytes) (s : Socket) {atyp : ℕ} {bytes text : Bytes}
    → port < 65536
    → Wire atyp bytes text
    → read_request
        (record s { inbox = 5 ∷ 1 ∷ 0 ∷ atyp ∷ (bytes ++ ((port / 256) ∷ (port % 256) ∷ rest)) })
      ≡ (returned (record { cmd = 1; host = text; port = port }), record s { inbox = rest })
wire_read port rest s fits w =
    let same : port / 256 * 256 + port % 256 ≡ port = omega arith in
    rw (read_request-Wire 5 1 0 (port / 256) (port % 256) rest s w, same)

-- The request for a host and a port below 65536, where a host that reads as no IP address has fewer than
-- 256 bytes, is read back with the CONNECT command, the domain, or the IPv4 or IPv6 address in its
-- canonical text, and the port, and to its last byte.
pub read_request-connect_request :
    (host text : Bytes) (port : ℕ) (rest : Bytes) (s : Socket)
    → port < 65536
    → IsReadAs host (atyp_for host) text
    → read_request (record s { inbox = connect_request host port ++ rest })
      ≡ (returned (record { cmd = 1; host = text; port = port }), record s { inbox = rest })
read_request-connect_request host text port rest s fits h =
    unfold connect_request in go (atyp_for host) refl h
  where
    go :
        (a : Atyp)
        → atyp_for host ≡ a
        → IsReadAs host a text
        → read_request (record s { inbox = (request_head host a ++ to_be_bytes port) ++ rest })
          ≡ (returned (record { cmd = 1; host = text; port = port }), record s { inbox = rest })
    go domain e k =
        unfold request_head in
        rw (append_assoc host (to_be_bytes port) rest, k.1)
          (wire_read port rest s fits (name (length host % 256) host (omega (arith, k.0))))
    go (v4 ip) e k =
        unfold request_head in rw k (wire_read port rest s fits (ipv4 (v4_octets ip) refl))
    go (v6 ip) e k =
        unfold request_head in
        rw
          (
            append_assoc (v6_octets ip.segments) (to_be_bytes port) rest,
            k
                ∙ ap (λ gs. show_v6 (record { segments = gs }))
                    (sym (of_octets-v6_octets ip.segments)),
          )
          (wire_read port rest s fits
            (ipv6 (v6_octets ip.segments) (length-sixteen ip.segments (atyp_for-eight host ip e))))
