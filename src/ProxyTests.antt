-- ===== src/ProxyTests.antt =====
-- The peers in the tests of rust/src/proxy.rs: the client, and the upstreams that stand in for `tailcat socks`. How many
-- bytes a read finds is an argument, as are `String::from_utf8_lossy` and the listener's other connections.
pub mod Client
pub mod Hears
pub mod Refused
pub mod Start
pub mod Silent
pub mod Early
pub mod Joined
pub mod Cases
pub mod Rewrites
pub mod CleanEnd
pub mod SharedClock
use tailcat_socks.Base.{
  ℕ, zero, suc, ◌+◌, ◌%◌, min, Bool, true, false, not, ◌&&◌, List, [], ◌∷◌, ◌++◌, Option, none,
  some, ◌==◌, if◌then◌else◌, length, take, drop, replicate,
}
use tailcat_socks.Base.Bytes.{Bytes, codes}
use tailcat_socks.Text.Decimal.{show_dec}
use tailcat_socks.Text.Ip.{show_v4}
use tailcat_socks.Net.{
  Socket, Ending, eof, silent, broken, Outcome, returned, failed, pending, Io, pure, ◌>>=◌, ◌>>◌,
  bind_outcome, read_exact, write_all,
}
use tailcat_socks.Proxy.{socks_ok_reply, socks_fail_reply}
use tailcat_socks.Proxy.Address.{at, be_u16, to_be_bytes, v4_of}

-- `socks_connect`, once it is connected: `false` is an assertion that fails, and an error is an `unwrap` that
-- panics.
unfoldable pub ask_connect : Bytes → ℕ → Io Bool
ask_connect host port = do
  write_all ((0x05 ∷ 0x01 ∷ 0x00 ∷ 0x03 ∷ (length host % 256) ∷ host) ++ to_be_bytes port)
  head ← read_exact 10
  pure (at 1 head == 0x00)

unfoldable pub socks_connect : Bytes → ℕ → Io Bool
socks_connect host port = do
  write_all (0x05 ∷ 0x01 ∷ 0x00 ∷ [])
  rep ← read_exact 2
  if at 0 rep == 0x05 && at 1 rep == 0x00 then ask_connect host port else pure false

-- The greeting, as `fake_upstream` answers it.
unfoldable pub hear_greeting : Io (Unit {0})
hear_greeting = do hdr ← read_exact 2; methods ← read_exact (at 1 hdr); write_all (0x05 ∷ 0x00 ∷ [])

-- The target's host in the text that `fake_upstream` records.
unfoldable pub hear_host : ℕ → Io Bytes
hear_host atyp =
    if atyp == 0x03
    then (do l ← read_exact 1; read_exact (at 0 l))
    else if atyp == 0x01
    then (do b ← read_exact 4; pure (show_v4 (v4_of b)))
    else pure (b'?' ∷ [])

unfoldable pub hear_request : (Bytes → Bytes) → Io Bytes
hear_request lossy = do
  req ← read_exact 4
  host ← hear_host (at 3 req)
  pb ← read_exact 2
  pure (lossy host ++ b':' ∷ show_dec (be_u16 pb))

unfoldable pub hear_target : (Bytes → Bytes) → Io Bytes
hear_target lossy = do hear_greeting; hear_request lossy

-- The echo: `ECHO:` in front of what a read found.
unfoldable pub echo_marked : ℕ → (ℕ → ℕ) → ℕ → Io (Unit {0})
echo_marked zero sizes i s = (pending, s)
echo_marked (suc fuel) sizes i s =
    let n = min (suc (sizes i)) (min 4096 (length s.inbox)) in
    let next = λ (sent : Unit {0}). echo_marked fuel sizes (i + 1) in
    elim s.inbox [
      | [] ↦ (elim s.ending [ eof ↦ returned tt | silent ↦ pending | broken e ↦ returned tt ], s)
      | c ∷ rest ↦
          (write_all (codes "ECHO:" ++ take n s.inbox) >>= next)
            (record s { inbox = drop n s.inbox })
    ]

-- A connection of `fake_upstream`: what it put on the channel, and how it went on.
unfoldable pub behind_target :
    (ℕ → ℕ) → Outcome Bytes × Socket → Option Bytes × (Outcome (Unit {0}) × Socket)
behind_target sizes (returned target, s) = (
  some target,
  (write_all socks_ok_reply >>= λ sent. λ (t : Socket). echo_marked (length t.inbox + 1) sizes 0 t)
      s,
)
behind_target sizes (failed e, s) = (none, (returned tt, s))
behind_target sizes (pending, s) = (none, (pending, s))

unfoldable pub fake_upstream :
    (Bytes → Bytes) → (ℕ → ℕ) → Socket → Option Bytes × (Outcome (Unit {0}) × Socket)
fake_upstream lossy sizes s = behind_target sizes (hear_target lossy s)

-- `let _ = conn.read_exact(…)` over a buffer of `n` zeros: a read that fails leaves in it what came.
unfoldable pub or_zeros : Bytes → Outcome Bytes × Socket → Outcome Bytes × Socket
or_zeros buf (returned xs, s) = (returned xs, s)
or_zeros buf (failed e, s) = (returned buf, s)
or_zeros buf (pending, s) = (pending, s)

unfoldable pub try_read : ℕ → Io Bytes
try_read n s = or_zeros (take n (s.inbox ++ replicate n 0)) (read_exact n s)

-- `let _ = conn.write_all(…)`
unfoldable pub anyway : Outcome (Unit {0}) × Socket → Outcome (Unit {0}) × Socket
anyway (returned done, s) = (returned done, s)
anyway (failed e, s) = (returned tt, s)
anyway (pending, s) = (pending, s)

unfoldable pub try_write : Bytes → Io (Unit {0})
try_write bytes s = anyway (write_all bytes s)

-- `capture_upstream`: an answer to the greeting before it is read, and then `total` bytes.
unfoldable pub capture_upstream : ℕ → Io Bytes
capture_upstream total = do try_write (0x05 ∷ 0x00 ∷ []); read_exact total

-- `refuse_upstream`: the request is taken to be for an IPv4 address.
unfoldable pub refuse_upstream : Io (Unit {0})
refuse_upstream = do
  hdr ← try_read 2
  methods ← try_read (at 1 hdr)
  try_write (0x05 ∷ 0x00 ∷ [])
  req ← try_read 4
  rest ← try_read 6
  try_write socks_fail_reply
