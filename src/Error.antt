-- ===== src/Error.antt =====
-- rust/src/error.rs: the error types of the parts.
use tailcat_socks.Base.{ℕ}
use tailcat_socks.Base.Bytes.{Bytes}

-- `std::io::Error`, by the kinds that the program meets or makes, and any other as a number.
pub data IoError : Type 0 where
  unexpected_eof timed_out : IoError
  other : ℕ → IoError

-- `std::num::IntErrorKind`, as far as a `u16` is parsed from decimal digits.
pub data ParseIntError : Type 0 where
  empty invalid_digit pos_overflow : ParseIntError

pub record ConfigError : Type 0 where
  pub addr : Bytes
  pub source : ParseIntError

pub data DnsFileError : Type 0 where
  read : Bytes → IoError → DnsFileError

pub data SocksError : Type 0 where
  upstream_refused : SocksError
  unsupported_atyp : ℕ → SocksError
  io : IoError → SocksError
