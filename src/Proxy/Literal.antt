-- ===== src/Proxy/Literal.antt =====
-- Addresses on their way through rust/src/proxy.rs: from the client's request to the upstream's.
use tailcat_socks.Base.{ℕ, ◌%◌, ◌≡◌, refl, ap, [], ◌∷◌, ◌++◌, arith, length}
use tailcat_socks.Base.Bytes.{Bytes, AllBytes}
use tailcat_socks.Text.Ascii.{is_utf8-IsAscii, show_v4-IsAscii, show_v6-IsAscii, parse_v4-show_v6}
use tailcat_socks.Text.Ip.{Ipv4Addr, v4_octets, show_v4}
use tailcat_socks.Text.Ip.RoundTrip.{IsIpv4, parse_v4-show_v4}
use tailcat_socks.Text.Ipv6.{Ipv6Addr, show_v6}
use tailcat_socks.Text.Ipv6.RoundTrip.{IsIpv6, parse_v6-show_v6}
use tailcat_socks.Text.Ipv6.Octets.{v6_octets-of_octets, length-of_octets, of_octets-AllGroups}
use tailcat_socks.Proxy.Address.{
  domain, v4, v6, v4_of, v6_of, atyp_for, request_head, connect_request, to_be_bytes,
}
use tailcat_socks.Proxy.Wire.{Wire, name, ipv4, ipv6}

atyp_for-show_v4 : (ip : Ipv4Addr) → IsIpv4 ip → atyp_for (show_v4 ip) ≡ v4 ip
unfolding atyp_for
atyp_for-show_v4 ip h =
    rw (is_utf8-IsAscii (show_v4 ip) (show_v4-IsAscii ip), parse_v4-show_v4 ip h)

atyp_for-show_v6 : (ip : Ipv6Addr) → IsIpv6 ip → atyp_for (show_v6 ip) ≡ v6 ip
unfolding atyp_for
atyp_for-show_v6 ip h = rw (
  is_utf8-IsAscii (show_v6 ip) (show_v6-IsAscii ip h),
  parse_v4-show_v6 ip h,
  parse_v6-show_v6 ip h,
)

v4_of-four : (b : Bytes) → length b ≡ 4 → AllBytes b → IsIpv4 (v4_of b) × (v4_octets (v4_of b) ≡ b)
v4_of-four [] e h = absurd (omega (arith, e))
v4_of-four (a ∷ []) e h = absurd (omega (arith, e))
v4_of-four (a ∷ b ∷ []) e h = absurd (omega (arith, e))
v4_of-four (a ∷ b ∷ c ∷ []) e h = absurd (omega (arith, e))
v4_of-four (a ∷ b ∷ c ∷ d ∷ []) e h =
    (record { a = h.0; b = h.1.0; c = h.1.1.0; d = h.1.1.1.0 }, refl)
v4_of-four (a ∷ b ∷ c ∷ d ∷ x ∷ bs) e h = absurd (omega (arith, e))

pub v6_of-IsIpv6 : (b : Bytes) → length b ≡ 16 → AllBytes b → IsIpv6 (v6_of b)
v6_of-IsIpv6 b e h = record { eight = length-of_octets b 8 e; small = of_octets-AllGroups b h }

-- The request starts with the bytes that stood for the address.
request_head-Wire :
    {atyp : ℕ} {bytes host : Bytes}
    → Wire atyp bytes host
    → AllBytes bytes
    → (atyp ≡ 3 → atyp_for host ≡ domain)
    → request_head host (atyp_for host) ≡ 5 ∷ 1 ∷ 0 ∷ atyp ∷ bytes
request_head-Wire (ipv4 b e) h k =
    let (fits, same) = v4_of-four b e h in
    rw (atyp_for-show_v4 (v4_of b) fits) (unfold request_head in ap (λ bs. 5 ∷ 1 ∷ 0 ∷ 1 ∷ bs) same)
request_head-Wire (name l host e) h k =
    let whole : length host % 256 ≡ l = omega (arith, e, h.0) in
    rw (k refl) (unfold request_head in rw whole)
request_head-Wire (ipv6 b e) h k =
    rw (atyp_for-show_v6 (v6_of b) (v6_of-IsIpv6 b e h))
      (unfold request_head in ap (λ bs. 5 ∷ 1 ∷ 0 ∷ 4 ∷ bs) (v6_octets-of_octets b 8 e h))

-- A host that the reader made of the bytes, each below 256, of an IPv4 address, of an IPv6 address, or of a
-- name that reads as no IP address, goes out again as the same bytes of the same type, behind the head of a
-- CONNECT and in front of the port.
pub connect_request-Wire :
    {atyp : ℕ} {bytes host : Bytes} (port : ℕ)
    → Wire atyp bytes host
    → AllBytes bytes
    → (atyp ≡ 3 → atyp_for host ≡ domain)
    → connect_request host port ≡ 5 ∷ 1 ∷ 0 ∷ atyp ∷ (bytes ++ to_be_bytes port)
unfolding connect_request
connect_request-Wire port wire h k = ap (λ xs. xs ++ to_be_bytes port) (request_head-Wire wire h k)
