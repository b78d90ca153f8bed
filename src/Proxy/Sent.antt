-- ===== src/Proxy/Sent.antt =====
-- The request that rust/src/proxy.rs sends upstream, as an address on the wire.
use tailcat_socks.Base.{ℕ, ◌<◌, ◌%◌, ◌≡◌, refl, ◌∷◌, ◌++◌, List, Option, none, some, arith, length}
use tailcat_socks.Base.Bytes.{Bytes}
use tailcat_socks.Text.Ip.{Ipv4Addr, v4_octets, parse_v4}
use tailcat_socks.Text.Ipv6.{Ipv6Addr, v6_octets, parse_v6}
use tailcat_socks.Text.Ipv6.Octets.{length-v6_octets}
use tailcat_socks.Text.Ipv6.Eight.{parse_v6-IsIpv6}
use tailcat_socks.Proxy.Address.{
  Atyp, domain, v4, v6, ip_for, atyp_for, request_head, connect_request, to_be_bytes,
}
use tailcat_socks.Proxy.Wire.{Wire, name, ipv4, ipv6}

-- An address that goes out as an IPv6 address has its eight groups.
pub atyp_for-eight : (host : Bytes) (ip : Ipv6Addr) → atyp_for host ≡ v6 ip → length ip.segments ≡ 8
unfolding atyp_for
atyp_for-eight host ip e =
    (parse_v6-IsIpv6 host ip (parsed (parse_v4 host) (parse_v6 host) is_ip)).eight
  where
    is_ip : ip_for (parse_v4 host) (parse_v6 host) ≡ v6 ip
    is_ip = ground (arith, e)

    parsed : (a : Option Ipv4Addr) (b : Option Ipv6Addr) → ip_for a b ≡ v6 ip → b ≡ some ip
    parsed (some a) b k = absurd (ground (arith, k))
    parsed none (some b) k = ground (arith, k)
    parsed none none k = absurd (ground (arith, k))

pub length-sixteen : (gs : List ℕ) → length gs ≡ 8 → length (v6_octets gs) ≡ 16
length-sixteen gs e = omega (arith, length-v6_octets gs, e)

-- The length of a name fits its byte.
abbrev pub Fits : Bytes → Atyp → Type 0
Fits host domain = length host < 256
Fits host (v4 ip) = Unit
Fits host (v6 ip) = Unit

pub record OnWire (host : Bytes) (port : ℕ) : Type 0 where
  pub atyp : ℕ
  pub bytes : Bytes
  pub text : Bytes
  pub wire : Wire atyp bytes text
  pub is_request : connect_request host port ≡ 5 ∷ 1 ∷ 0 ∷ atyp ∷ (bytes ++ to_be_bytes port)

-- What goes out is a CONNECT with a whole address.
pub connect_request-OnWire :
    (host : Bytes) (port : ℕ) → Fits host (atyp_for host) → OnWire host port
connect_request-OnWire host port h = go (atyp_for host) refl h
  where
    go : (a : Atyp) → atyp_for host ≡ a → Fits host a → OnWire host port
    go domain e k = record {
      atyp = 3;
      bytes = (length host % 256) ∷ host;
      text = host;
      wire = name (length host % 256) host (omega (arith, k));
      is_request = unfold connect_request in rw e (unfold request_head in refl);
    }
    go (v4 ip) e k = record {
      atyp = 1;
      bytes = v4_octets ip;
      text = _;
      wire = ipv4 (v4_octets ip) refl;
      is_request = unfold connect_request in rw e (unfold request_head in refl);
    }
    go (v6 ip) e k = record {
      atyp = 4;
      bytes = v6_octets ip.segments;
      text = _;
      wire = ipv6 (v6_octets ip.segments) (length-sixteen ip.segments (atyp_for-eight host ip e));
      is_request = unfold connect_request in rw e (unfold request_head in refl);
    }
