-- ===== src/Logging.antt =====
-- rust/src/logging.rs, and the texts that the program logs: the `Display` of rust/src/error.rs, and the formats of
-- rust/src/main.rs and rust/src/dnsmap.rs. Standard error is a connection that is only written to.
pub mod Lines
pub mod Addresses
pub mod Flags
pub mod Serving
use tailcat_socks.Base.{ℕ, List, [], ◌∷◌, ◌++◌}
use tailcat_socks.Base.Bytes.{Bytes, codes}
use tailcat_socks.Text.Decimal.{show_dec}
use tailcat_socks.Error.{
  IoError, ParseIntError, ConfigError, DnsFileError, read, SocksError, upstream_refused,
  unsupported_atyp, io,
}
use tailcat_socks.Net.{
  Socket, Io, Outcome, returned, failed, pending, pure, ◌>>=◌, ◌>>◌, bind_outcome, write_all,
}
use tailcat_socks.Main.{
  Line, cannot_load, bad_listen, bad_upstream, cannot_listen, launch_failed, not_ready, launched,
  listening, mapped, upstream, server_error,
}
use tailcat_socks.Dns.Watch.{Notice, initial_load_failed, reload_failed, reloaded}

-- A write that fails is let go.
unfoldable unheeded : Outcome (Unit {0}) × Socket → Outcome (Unit {0}) × Socket
unheeded (returned done, s) = (returned done, s)
unheeded (failed e, s) = (returned tt, s)
unheeded (pending, s) = (pending, s)

abbrev pub log_prefix : Bytes
log_prefix = codes "[tailcat-socks] "

unfoldable pub log_line : Bytes → Io (Unit {0})
unfolding unheeded
log_line msg s = unheeded (write_all ((log_prefix ++ msg) ++ 0x0A ∷ []) s)

-- The lines of a run, one after the other.
unfoldable pub log_all : List Bytes → Io (Unit {0})
log_all [] = pure tt
log_all (msg ∷ msgs) = log_line msg >> log_all msgs

-- What the standard library writes for an error of its own, and for a string in quotes (`{:?}`).
pub record Texts : Type 0 where
  pub io_text : IoError → Bytes
  pub int_text : ParseIntError → Bytes
  pub debug : Bytes → Bytes

-- `format!` of its pieces.
unfoldable pub joined : List Bytes → Bytes
joined [] = []
joined (piece ∷ pieces) = piece ++ joined pieces

unfoldable pub config_error_text : Texts → ConfigError → Bytes
config_error_text t e =
    joined (codes "bad addr " ∷ t.debug e.addr ∷ codes ": " ∷ t.int_text e.source ∷ [])

unfoldable pub dns_error_text : Texts → DnsFileError → Bytes
dns_error_text t (read path e) =
    joined (codes "cannot load " ∷ path ∷ codes ": " ∷ t.io_text e ∷ [])

unfoldable pub socks_error_text : Texts → SocksError → Bytes
socks_error_text t upstream_refused = codes "upstream refused the CONNECT"
socks_error_text t (unsupported_atyp n) = joined (codes "unsupported ATYP " ∷ show_dec n ∷ [])
socks_error_text t (io e) = t.io_text e

-- The formats of `run`: those of a server that has started stand together, each of the others where its step fails.
unfoldable pub line_text : Texts → Line → Bytes
line_text t (cannot_load e) = dns_error_text t e
line_text t (bad_listen e) = joined (codes "bad --listen: " ∷ config_error_text t e ∷ [])
line_text t (bad_upstream e) = joined (codes "bad --upstream: " ∷ config_error_text t e ∷ [])
line_text t (cannot_listen listen e) =
    joined (codes "cannot listen on " ∷ listen ∷ codes ": " ∷ t.io_text e ∷ [])
line_text t (launch_failed bin e) =
    joined (codes "failed to launch " ∷ bin ∷ codes ": " ∷ t.io_text e ∷ [])
line_text t (not_ready up_addr) =
    joined (codes "upstream " ∷ up_addr ∷ codes " not ready; aborting" ∷ [])
line_text t (launched bin up_addr) =
    joined (codes "auto-launched " ∷ bin ∷ codes " socks on " ∷ up_addr ∷ [])
line_text t (listening actual) = joined (codes "listening socks5h://" ∷ actual ∷ [])
line_text t (mapped domains tokens) =
    joined
      (show_dec domains ∷ codes " domain(s) mapped -> " ∷ show_dec tokens ∷ codes " token(s)" ∷ [])
line_text t (upstream up_addr) = joined (codes "upstream " ∷ up_addr ∷ [])
line_text t (server_error e) = joined (codes "server error: " ∷ t.io_text e ∷ [])

-- The formats of `watch`: the one of a reload, and those of the two loads that can fail.
unfoldable pub notice_text : Texts → Bytes → Notice → Bytes
notice_text t path (initial_load_failed e) =
    joined (codes "initial load failed: " ∷ dns_error_text t e ∷ [])
notice_text t path (reload_failed e) =
    joined (codes "reload failed (" ∷ dns_error_text t e ∷ codes "); keeping previous map" ∷ [])
notice_text t path (reloaded domains tokens) = joined (
    codes "reloaded "
    ∷ path
    ∷ codes ": "
    ∷ show_dec domains
    ∷ codes " domain(s) -> "
    ∷ show_dec tokens
    ∷ codes " token(s)"
    ∷ [])
