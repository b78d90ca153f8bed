-- ===== src/Dns/Watch.antt =====
-- `load_dns_file`, `DnsMap` and `watch` of rust/src/dnsmap.rs. What the file system answers at each
-- look is an argument, and so is the order of the ticks and the cancellation.
pub mod Fresh
pub mod Failures
use tailcat_socks.Base.{
  ℕ, ◌≡◌, List, [], ◌∷◌, ◌++◌, Option, none, some, get_or, ◌==◌, if◌then◌else◌, Bool, true, false,
  length,
}
use tailcat_socks.Base.Bytes.{Bytes}
use tailcat_socks.Base.Result.{Result, ok, err, ◌>>=◌, map_err}
use tailcat_socks.Error.{IoError, DnsFileError, read}
use tailcat_socks.Dns.Mapping.{Mapping, token_set, len}
use tailcat_socks.Dns.Parse.{parse_dns}

-- `fs::read`
abbrev pub ReadResult : Type 0
ReadResult = Result IoError Bytes

unfoldable pub load_dns_file : Bytes → ReadResult → Result DnsFileError Mapping
load_dns_file path contents = map_err (read path) contents >>= λ text. ok (parse_dns text)

-- The one cell that all clones of a `DnsMap` share.
pub record DnsMap : Type 0 where
  pub current : Mapping

unfoldable pub new : DnsMap
new = record { current = [] }

unfoldable pub load : DnsMap → Mapping
load cell = cell.current

unfoldable pub store : Mapping → DnsMap → DnsMap
store m cell = record cell { current = m }

-- `fs::metadata`: no answer, or a file whose `modified()` is a time or an error.
pub data Stat : Type 0 where
  absent : Stat
  present : Option ℕ → Stat

-- The lines that the watcher logs.
pub data Notice : Type 0 where
  initial_load_failed : DnsFileError → Notice
  reload_failed : DnsFileError → Notice
  reloaded : ℕ → ℕ → Notice

pub record Watcher : Type 0 where
  pub last_mod : Option ℕ
  pub cell : DnsMap
  pub log : List Notice

-- `SystemTime::UNIX_EPOCH`
abbrev pub unix_epoch : ℕ
unix_epoch = 0

initial_mod : Stat → Option ℕ
initial_mod absent = none
initial_mod (present modified) = some (get_or modified unix_epoch)

-- The first load, after the look at the file's time.
first_load : Option ℕ → Result DnsFileError Mapping → DnsMap → Watcher
first_load last_mod (ok first) cell = record {
  last_mod = last_mod;
  cell = store first cell;
  log = [];
}
first_load last_mod (err e) cell = record {
  last_mod = none;
  cell = cell;
  log = initial_load_failed e ∷ [];
}

unfoldable pub start : Bytes → Stat → ReadResult → DnsMap → Watcher
unfolding initial_mod first_load load_dns_file
start path stat contents cell = first_load (initial_mod stat) (load_dns_file path contents) cell

-- `last_mod.is_some_and(|lm| lm == mtime)`
is_unchanged : Option ℕ → ℕ → Bool
is_unchanged none mtime = false
is_unchanged (some lm) mtime = lm == mtime

reload : ℕ → Result DnsFileError Mapping → Watcher → Watcher
reload mtime (err e) w = record w { log = w.log ++ reload_failed e ∷ [] }
reload mtime (ok new_map) w = record {
  last_mod = some mtime;
  cell = store new_map w.cell;
  log = w.log ++ reloaded (len new_map) (length (token_set new_map)) ∷ [];
}

-- One round of the loop, behind the ticker.
unfoldable pub tick : Bytes → Stat → ReadResult → Watcher → Watcher
unfolding is_unchanged reload load_dns_file
tick path absent contents w = w
tick path (present none) contents w = w
tick path (present (some mtime)) contents w =
    if is_unchanged w.last_mod mtime then w else reload mtime (load_dns_file path contents) w

-- What `select!` sees next.
pub data Wake : Type 0 where
  cancelled : Wake
  ticked : Stat → ReadResult → Wake

unfoldable pub watch_loop : Bytes → List Wake → Watcher → Watcher
watch_loop path [] w = w
watch_loop path (cancelled ∷ wakes) w = w
watch_loop path (ticked stat contents ∷ wakes) w = watch_loop path wakes (tick path stat contents w)

unfoldable pub watch : Bytes → DnsMap → Stat → ReadResult → List Wake → Watcher
watch path cell stat contents wakes = watch_loop path wakes (start path stat contents cell)
