-- ===== src/Dns/Rewrite.antt =====
-- `rewrite_host` of rust/src/dnsmap.rs.
use tailcat_socks.Base.{get_or}
use tailcat_socks.Base.Bytes.{Bytes, to_ascii_lowercase}
use tailcat_socks.Dns.Mapping.{Mapping, get}

-- The token of a host that is mapped, in any case, and any other host unchanged.
unfoldable pub rewrite_host : Bytes → Mapping → Bytes
rewrite_host host m = get_or (get (to_ascii_lowercase host) m) host
