-- ===== src/Live/Run.antt =====
-- From `run` of rust/src/main.rs to the two tasks that it leaves at work.
use tailcat_socks.Base.{ℕ, List, [], ◌∷◌}
use tailcat_socks.Base.Bytes.{Bytes}
use tailcat_socks.Base.Result.{Result}
use tailcat_socks.Config.{Config}
use tailcat_socks.Dns.Mapping.{Mapping}
use tailcat_socks.Dns.Watch.{ReadResult, Stat}
use tailcat_socks.Dns.Watch.Fresh.{Version}
use tailcat_socks.Net.{Socket}
use tailcat_socks.Proxy.Session.{Server, World}
use tailcat_socks.Live.{Live, Activity, polled, arrives, act}
use tailcat_socks.Live.Register.{Spec, Look}

-- One activity after the other.
unfoldable pub play : Bytes → Server → List Activity → Live → Live
play path srv [] l = l
play path srv (a ∷ acts) l = play path srv acts (act path srv a l)

-- Activities from one version of the file to another, where every look sees the versions of its time.
pub data Happens (file : ℕ → Version) (srv : Server) : ℕ → List Activity → ℕ → Type 0 where
  over : (n : ℕ) → Happens file srv n [] n
  looks :
      {n m k : ℕ} (stat : Stat) {contents : ReadResult} {acts : List Activity}
      → Look file srv n m contents
      → Happens file srv m acts k
      → Happens file srv n (polled stat contents ∷ acts) k
  comes :
      {n k : ℕ} (w : World) (conn : Socket) {acts : List Activity}
      → Happens file srv n acts k
      → Happens file srv n (arrives w conn ∷ acts) k

-- What was done before, the last activity first, and then these.
pub past : List Activity → List Activity → List Activity
past [] before = before
past (a ∷ acts) before = past acts (a ∷ before)
