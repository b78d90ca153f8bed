-- ===== src/Proxy/Address.antt =====
-- Addresses on the wire: `read_atyp_addr`, `atyp_for` and the CONNECT request of rust/src/proxy.rs.
use tailcat_socks.Base.{
  ℕ, zero, suc, ◌+◌, ◌*◌, ◌/◌, ◌%◌, Bool, false, ◌||◌, [], ◌∷◌, ◌++◌, Option, none, some, ◌==◌,
  if◌then◌else◌, length,
}
use tailcat_socks.Base.Bytes.{Bytes}
use tailcat_socks.Error.{unsupported_atyp}
use tailcat_socks.Net.{Io, pure, fail, ◌>>=◌, read_exact}
use tailcat_socks.Text.Utf8.{is_utf8}
use tailcat_socks.Text.Ip.{Ipv4Addr, v4_octets, show_v4, parse_v4}
use tailcat_socks.Text.Ipv6.{Ipv6Addr, of_octets, v6_octets, show_v6, parse_v6}

-- `b[i]`, for an index in range.
abbrev pub at : ℕ → Bytes → ℕ
at i [] = 0
at zero (c ∷ s) = c
at (suc i) (c ∷ s) = at i s

-- `contains`
abbrev pub has_byte : ℕ → Bytes → Bool
has_byte x [] = false
has_byte x (c ∷ s) = c == x || has_byte x s

-- `u16::from_be_bytes` and `to_be_bytes`
abbrev pub be_u16 : Bytes → ℕ
be_u16 pb = at 0 pb * 256 + at 1 pb

abbrev pub to_be_bytes : ℕ → Bytes
to_be_bytes port = (port / 256) ∷ (port % 256) ∷ []

-- `Ipv4Addr::new`
abbrev pub v4_of : Bytes → Ipv4Addr
v4_of b = record { a = at 0 b; b = at 1 b; c = at 2 b; d = at 3 b }

abbrev pub v6_of : Bytes → Ipv6Addr
v6_of b = record { segments = of_octets b }

unfoldable pub read_v4 : Io Bytes
read_v4 = do b ← read_exact 4; pure (show_v4 (v4_of b))

unfoldable pub read_domain : Io Bytes
read_domain = do l ← read_exact 1; read_exact (at 0 l)

unfoldable pub read_v6 : Io Bytes
read_v6 = do b ← read_exact 16; pure (show_v6 (v6_of b))

unfoldable pub read_atyp_addr : ℕ → Io Bytes
unfolding read_v4 read_domain read_v6
read_atyp_addr atyp =
    if atyp == 0x01
    then read_v4
    else if atyp == 0x03
    then read_domain
    else if atyp == 0x04
    then read_v6
    else fail (unsupported_atyp atyp)

pub data Atyp : Type 0 where
  v4 : Ipv4Addr → Atyp
  v6 : Ipv6Addr → Atyp
  domain : Atyp

-- An address in text, if the text is UTF-8.
unfoldable pub ip_for : Option Ipv4Addr → Option Ipv6Addr → Atyp
ip_for (some ip4) ip6 = v4 ip4
ip_for none (some ip6) = v6 ip6
ip_for none none = domain

unfoldable pub atyp_for : Bytes → Atyp
unfolding ip_for
atyp_for host = if is_utf8 host then ip_for (parse_v4 host) (parse_v6 host) else domain

-- The request up to the port; the length of a domain is cut to a byte.
unfoldable pub request_head : Bytes → Atyp → Bytes
request_head host (v4 ip) = 0x05 ∷ 0x01 ∷ 0x00 ∷ 0x01 ∷ v4_octets ip
request_head host (v6 ip) = 0x05 ∷ 0x01 ∷ 0x00 ∷ 0x04 ∷ v6_octets ip.segments
request_head host domain = 0x05 ∷ 0x01 ∷ 0x00 ∷ 0x03 ∷ (length host % 256) ∷ host

unfoldable pub connect_request : Bytes → ℕ → Bytes
connect_request host port = request_head host (atyp_for host) ++ to_be_bytes port
