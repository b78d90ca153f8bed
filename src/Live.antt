-- ===== src/Live.antt =====
-- The two tasks that `run` of rust/src/main.rs starts, `watch` and `serve`, on the one `DnsMap` that they share. An
-- activity is what one of them does next; any order of activities is a run.
pub mod News
pub mod Register
pub mod Spec
pub mod Run
use tailcat_socks.Base.{Bool, true, false, List, [], ◌∷◌, none, if◌then◌else◌}
use tailcat_socks.Base.Bytes.{Bytes}
use tailcat_socks.Net.{Socket}
use tailcat_socks.Dns.Watch.{ReadResult, DnsMap, Stat, Watcher, start, tick}
use tailcat_socks.Proxy.Session.{Server, World, Session, handle}

-- The watcher's task: not spawned under `--no-watch`, spawned, or in its loop.
pub data Task : Type 0 where
  off spawned looping : Task

-- The sessions, the last one first.
pub record Live : Type 0 where
  pub task : Task
  pub watcher : Watcher
  pub served : List Session

-- A poll of the watcher's task, with what the file system answers; or a connection that reaches the
-- look at the map.
pub data Activity : Type 0 where
  polled : Stat → ReadResult → Activity
  arrives : World → Socket → Activity

-- `serve` and `watch` are spawned, with clones of the map.
unfoldable pub launch : Bool → Server → Live
launch no_watch srv = record {
  task = if no_watch then off else spawned;
  watcher = record { last_mod = none; cell = srv.dns_map; log = [] };
  served = [];
}

-- The first poll runs `watch` up to its loop, any other is a round of the loop.
unfoldable pub poll : Bytes → Stat → ReadResult → Task → Live → Live
poll path stat contents off l = l
poll path stat contents spawned l = record l {
  task = looping;
  watcher = start path stat contents l.watcher.cell;
}
poll path stat contents looping l = record l { watcher = tick path stat contents l.watcher }

-- The map of the server is the cell that the watcher stores to.
abbrev pub sharing : Server → DnsMap → Server
sharing srv cell = record srv { dns_map = cell }

unfoldable pub act : Bytes → Server → Activity → Live → Live
unfolding poll
act path srv (polled stat contents) l = poll path stat contents l.task l
act path srv (arrives w conn) l = record l {
  served = handle (sharing srv l.watcher.cell) w conn ∷ l.served;
}
