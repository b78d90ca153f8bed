-- ===== src/Proxy.antt =====
-- The SOCKS5 front proxy of rust/src/proxy.rs: the server's side of the handshake, the client's side
-- towards the upstream, and one connection from its greeting to the relay.
pub mod Address
pub mod Session
pub mod Wire
pub mod Handshake
pub mod Connect
pub mod Quiet
pub mod Accepted
pub mod Heard
pub mod Gate
pub mod RoundTrip
pub mod Serve
pub mod Literal
pub mod PassThrough
pub mod TurnedAway
pub mod Sent
use tailcat_socks.Base.{
  ℕ, ◌+◌, ◌*◌, ◌/◌, ◌%◌, Bool, true, false, ◌&&◌, ◌||◌, not, List, [], ◌∷◌, ◌++◌, Option, none,
  some, ◌==◌, if◌then◌else◌, length,
}
use tailcat_socks.Base.Bytes.{Bytes}
use tailcat_socks.Error.{IoError, SocksError, upstream_refused, unsupported_atyp, io}
use tailcat_socks.Dns.Rewrite.{rewrite_host}
use tailcat_socks.Dns.Watch.{DnsMap, load}
use tailcat_socks.Net.{
  Socket, Io, Outcome, returned, failed, pending, pure, fail, ◌>>=◌, ◌>>◌, read_exact, write_all,
}
use tailcat_socks.Relay.{Relay, Event, PumpEnd, relay}
use tailcat_socks.Proxy.Address.{at, has_byte, be_u16, read_atyp_addr, connect_request}

abbrev pub socks_ok_reply : Bytes
socks_ok_reply = 0x05 ∷ 0x00 ∷ 0x00 ∷ 0x01 ∷ 0 ∷ 0 ∷ 0 ∷ 0 ∷ 0 ∷ 0 ∷ []

abbrev pub socks_fail_reply : Bytes
socks_fail_reply = 0x05 ∷ 0x01 ∷ 0x00 ∷ 0x01 ∷ 0 ∷ 0 ∷ 0 ∷ 0 ∷ 0 ∷ 0 ∷ []

-- The answer to the methods; whether the connection goes on.
unfoldable pub answer_methods : Bytes → Io Bool
answer_methods methods =
    if not (has_byte 0x00 methods)
    then write_all (0x05 ∷ 0xFF ∷ []) >> pure false
    else write_all (0x05 ∷ 0x00 ∷ []) >> pure true

unfoldable pub greet_methods : Io Bool
greet_methods = do nm ← read_exact 1; methods ← read_exact (at 0 nm); answer_methods methods

unfoldable pub greet : Io Bool
greet = do v ← read_exact 1; if not (at 0 v == 0x05) then pure false else greet_methods

pub record Request : Type 0 where
  pub cmd : ℕ
  pub host : Bytes
  pub port : ℕ

unfoldable pub read_request : Io Request
read_request = do
  req ← read_exact 4
  host ← read_atyp_addr (at 3 req)
  pb ← read_exact 2
  pure (record { cmd = at 1 req; host = host; port = be_u16 pb })

-- The bound address in the upstream's reply, which is read and forgotten.
unfoldable pub read_bound : ℕ → Io (Unit {0})
read_bound atyp = do bound ← read_atyp_addr atyp; bnd ← read_exact 2; pure tt

-- The reply of the upstream to the CONNECT.
unfoldable pub read_reply : Io (Unit {0})
read_reply = do
  rep ← read_exact 4
  if not (at 0 rep == 0x05) || not (at 1 rep == 0x00)
      then fail upstream_refused
      else read_bound (at 3 rep)

-- Behind the upstream's answer to the greeting.
unfoldable pub send_connect : Bytes → ℕ → Io (Unit {0})
send_connect host port = do write_all (connect_request host port); read_reply

unfoldable pub upstream_connect : Bytes → ℕ → Io (Unit {0})
upstream_connect host port = do
  write_all (0x05 ∷ 0x01 ∷ 0x00 ∷ [])
  greet ← read_exact 2
  if not (at 0 greet == 0x05 && at 1 greet == 0x00)
      then fail upstream_refused
      else send_connect host port
