-- ===== src/Live/Spec.antt =====
-- What the two tasks of rust/src/main.rs promise together, and that they keep it.
use tailcat_socks.Base.{ℕ, ◌≡◌, Bool, true, false, List, Option, none}
use tailcat_socks.Base.Bytes.{Bytes}
use tailcat_socks.Dns.Parse.{parse_dns}
use tailcat_socks.Dns.Watch.{Watcher}
use tailcat_socks.Dns.Watch.Fresh.{Version}
use tailcat_socks.Proxy.Session.{Server, Session}
use tailcat_socks.Live.{Task, off, spawned, looping, Live, Activity}
use tailcat_socks.Live.News.{has_looked, last_read}
use tailcat_socks.Live.Register.{Spec}

module _ (file : ℕ → Version) (srv : Server) where
  -- Where the watcher's task is, by the looks so far, and the time that it has on record.
  data Stage (no_watch : Bool) (acts : List Activity) (last_mod : Option ℕ) : Task → Type 0 where
    is_off : no_watch ≡ true → Stage no_watch acts last_mod off
    is_spawned :
        no_watch ≡ false
        → has_looked acts ≡ false
        → last_read acts ≡ none
        → Stage no_watch acts last_mod spawned
    is_looping :
        no_watch ≡ false
        → has_looked acts ≡ true
        → last_read acts ≡ last_mod
        → Stage no_watch acts last_mod looping

  -- The version whose map is in the cell.
  record Holds (no_watch : Bool) (now : ℕ) (acts : List Activity) (task : Task) (w : Watcher)
      (ss : List Session) : Type 0 where
    version : ℕ
    map_is : w.cell ≡ record { current = parse_dns (file version).text }
    stage : Stage no_watch acts w.last_mod task
    spec : Spec file srv no_watch now version acts ss
