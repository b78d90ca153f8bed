-- ===== src/Config.antt =====
-- rust/src/config.rs: the command line's values, addresses as text, and the probe for a free port.
pub mod Address
pub mod Ports
use tailcat_socks.Base.{
  ℕ, zero, suc, ◌+◌, ◌*◌, ◌%◌, ◌^◌, Bool, true, false, ◌||◌, List, [], ◌∷◌, ◌++◌, Option, none,
  some, get_or, ◌==◌, if◌then◌else◌, take, drop,
}
use tailcat_socks.Base.Bytes.{Bytes, codes, rposition}
use tailcat_socks.Base.Result.{Result, ok, err, ◌>>=◌, map_err}
use tailcat_socks.Error.{ConfigError, ParseIntError}
use tailcat_socks.Text.Decimal.{show_dec, parse_u16}

-- The flags, as `clap` hands them over.
pub record Config : Type 0 where
  pub listen : Bytes
  pub dns_file : Bytes
  pub upstream : Bytes
  pub tailcat_bin : Bytes
  pub no_autolaunch : Bool
  pub no_watch : Bool

-- What the flags are where the command line does not name them.
abbrev pub default_config : Config
default_config = record {
  listen = codes "127.0.0.1:1080";
  dns_file = codes "dns.txt";
  upstream = codes "127.0.0.1:0";
  tailcat_bin = codes "tailcat";
  no_autolaunch = false;
  no_watch = false;
}

abbrev pub is_colon : ℕ → Bool
is_colon c = c == b':'

-- The text before the last colon and the text behind it; all of it is the port if there is none.
unfoldable pub split_last : Bytes → Bytes × Bytes
split_last s = elim (rposition is_colon s) [ some i ↦ (take i s, drop (i + 1) s) | none ↦ ([], s) ]

unfoldable pub port_of : Bytes → Bytes → Result ConfigError ℕ
port_of s [] = ok 0
port_of s (c ∷ port) = map_err (λ e. record { addr = s; source = e }) (parse_u16 (c ∷ port))

abbrev pub loopback : Bytes
loopback = codes "127.0.0.1"

unfoldable pub host_of : Bytes → Bytes
host_of [] = loopback
host_of (c ∷ host) = c ∷ host

unfoldable pub parse_addr : Bytes → Result ConfigError (Bytes × ℕ)
parse_addr s =
    let (host, port_str) = split_last s in port_of s port_str >>= λ port. ok (host_of host, port)

-- `trim_start_matches('[')`
unfoldable pub trim_start_matches : ℕ → Bytes → Bytes
trim_start_matches x [] = []
trim_start_matches x (c ∷ s) = if c == x then trim_start_matches x s else c ∷ s

-- `trim_end_matches(']')`
unfoldable pub trim_last : ℕ → ℕ → Bytes → Bytes
trim_last x c [] = if c == x then [] else c ∷ []
trim_last x c (d ∷ s) = c ∷ d ∷ s

unfoldable pub trim_end_matches : ℕ → Bytes → Bytes
unfolding trim_last
trim_end_matches x [] = []
trim_end_matches x (c ∷ s) = trim_last x c (trim_end_matches x s)

-- `contains(c)`
unfoldable pub has : ℕ → Bytes → Bool
has x [] = false
has x (c ∷ s) = c == x || has x s

-- A host without brackets.
unfoldable pub strip : Bytes → Bytes
strip host = trim_end_matches b']' (trim_start_matches b'[' host)

abbrev pub bracketed : Bytes → Bytes
bracketed h = b'[' ∷ (h ++ b']' ∷ [])

unfoldable pub join_host_port : Bytes → ℕ → Bytes
join_host_port host port =
    let h = strip host in
    if has b':' h then bracketed h ++ b':' ∷ show_dec port else h ++ b':' ∷ show_dec port

-- What a draw of random bits finds: the eight bytes read from `/dev/urandom`, if it can be read, and
-- the nanoseconds since the epoch, if the clock is past it.
pub record Entropy : Type 0 where
  pub urandom : Option Bytes
  pub since_epoch : Option ℕ

-- `u64::from_le_bytes`
from_le_bytes : Bytes → ℕ
from_le_bytes [] = 0
from_le_bytes (b ∷ bs) = b + 256 * from_le_bytes bs

clock_bits : Option ℕ → ℕ
clock_bits nanos = elim nanos [ some n ↦ n % 2 ^ 64 | none ↦ 0x9E37_79B9_7F4A_7C15 ]

unfoldable pub random_u64 : Entropy → ℕ
unfolding from_le_bytes clock_bits
random_u64 e = elim e.urandom [ some b ↦ from_le_bytes b | none ↦ clock_bits e.since_epoch ]

-- The outside of the probe: the entropy of a round, and whether an address can be bound then.
pub record Probe : Type 0 where
  pub entropy : ℕ → Entropy
  pub can_bind : ℕ → Bytes → Bool
  pub os_port : Option ℕ

-- `20000 + (random_u64() % 41000) as u16`
unfoldable pub candidate : ℕ → ℕ
candidate r = (20000 + r % 41000 % 2 ^ 16) % 2 ^ 16

-- The rounds that are left, from round `i` on. Behind them the system gives a port, or the call
-- panics (`none`).
unfoldable pub probe_from : ℕ → ℕ → Probe → Bytes → Option ℕ
probe_from zero i out host = out.os_port
probe_from (suc left) i out host =
    let p = candidate (random_u64 (out.entropy i)) in
    let later = probe_from left (i + 1) out host in
    if out.can_bind i (join_host_port host p) then some p else later

unfoldable pub free_high_port : Probe → Bytes → Option ℕ
free_high_port = probe_from 20 0
