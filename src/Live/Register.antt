-- ===== src/Live/Register.antt =====
-- What the two tasks of rust/src/main.rs promise together: the abstract side, and the runs that are compared with it.
use tailcat_socks.Base.{ℕ, ◌≤◌, ◌≡◌, Bool, false, List, [], ◌∷◌}
use tailcat_socks.Base.Bytes.{Bytes}
use tailcat_socks.Base.Result.{ok, err}
use tailcat_socks.Error.{IoError}
use tailcat_socks.Dns.Parse.{parse_dns}
use tailcat_socks.Dns.Watch.{ReadResult, Stat}
use tailcat_socks.Dns.Watch.Fresh.{Version}
use tailcat_socks.Net.{Socket}
use tailcat_socks.Proxy.Session.{Server, World, Session, handle}
use tailcat_socks.Live.{Live, Activity, polled, arrives, launch, sharing, act}
use tailcat_socks.Live.News.{Quiet}

module _ (file : ℕ → Version) (srv : Server) where
  -- The server with the map of one version of the file, as a whole.
  abbrev pub at_version : ℕ → Server
  at_version v = sharing srv (record { current = parse_dns (file v).text })

  -- The specification knows no cell and no watcher: after the activities so far, the last one first, one version of
  -- the file is in force. A look leaves it in force if it brings no news; any other look puts the version that
  -- it read in force, which is never an earlier one. A connection is served by the version in force when it comes.
  pub data Spec (no_watch : Bool) : ℕ → ℕ → List Activity → List Session → Type 0 where
    boot : (now v : ℕ) → v ≤ now → Spec no_watch now v [] []
    keep :
        {now v : ℕ} {acts : List Activity} {ss : List Session} (now' : ℕ) {stat : Stat}
        {contents : ReadResult}
        → now ≤ now'
        → Quiet no_watch acts stat contents
        → Spec no_watch now v acts ss
        → Spec no_watch now' v (polled stat contents ∷ acts) ss
    reload :
        {now v : ℕ} {acts : List Activity} {ss : List Session} (now' u : ℕ) (stat : Stat)
        → no_watch ≡ false
        → now ≤ u
        → u ≤ now'
        → Spec no_watch now v acts ss
        → Spec no_watch now' u (polled stat (ok (file u).text) ∷ acts) ss
    reply :
        {now v : ℕ} {acts : List Activity} {ss : List Session} (w : World) (conn : Socket)
        → Spec no_watch now v acts ss
        → Spec no_watch now v (arrives w conn ∷ acts) (handle (at_version v) w conn ∷ ss)

  -- A look at the file between version `n` and version `m`, with any answer about its time: the read fails, or
  -- gives the text of a version of that while.
  pub data Look (n m : ℕ) : ReadResult → Type 0 where
    unread : (e : IoError) → n ≤ m → Look n m (err e)
    read : (j : ℕ) → n ≤ j → j ≤ m → Look n m (ok (file j).text)

  -- A run of the two tasks on a file with a history, with its activities, the last one first: the map that `run`
  -- loaded is that of a version, and every look at the file sees the versions of its time.
  pub data Lived (path : Bytes) (no_watch : Bool) : ℕ → List Activity → Live → Type 0 where
    launched : (now v : ℕ) → v ≤ now → Lived path no_watch now [] (launch no_watch (at_version v))
    looked :
        {n : ℕ} {acts : List Activity} {l : Live} (m : ℕ) (stat : Stat) {contents : ReadResult}
        → Look n m contents
        → Lived path no_watch n acts l
        → Lived path no_watch m
            (polled stat contents ∷ acts)
            (act path srv (polled stat contents) l)
    connected :
        {n : ℕ} {acts : List Activity} {l : Live} (w : World) (conn : Socket)
        → Lived path no_watch n acts l
        → Lived path no_watch n (arrives w conn ∷ acts) (act path srv (arrives w conn) l)
