-- ===== src/Main/Life.antt =====
-- How every run of the program ends.
use tailcat_socks.Base.{
  ℕ, ◌≡◌, refl, Bool, true, false, Option, none, some, Bool-cases, inl, inr, get_or, List, [], ◌⊎◌,
}
use tailcat_socks.Base.Bytes.{Bytes}
use tailcat_socks.Base.Result.{Result, ok, err}
use tailcat_socks.Error.{IoError, ConfigError, DnsFileError}
use tailcat_socks.Config.{Config, join_host_port}
use tailcat_socks.Dns.Mapping.{Mapping}
use tailcat_socks.Proxy.Session.{Server}
use tailcat_socks.Tailcat.{Child}
use tailcat_socks.Tailcat.Ready.{terminate-exited}
use tailcat_socks.Main.{
  Outside, Line, Exit, code, panicked, Run, reap, serve_until, after_wait, after_spawn, after_bind,
  after_port, after_upstream, after_listen, after_load, run,
}

-- The child, if there is one, is gone.
abbrev pub IsReaped : Option Child → Type 0
IsReaped none = Unit
IsReaped (some c) = c.exited ≡ true

-- The exit code is 0 if the server was started, and 1 or a panic otherwise.
abbrev pub IsAnswerFor : Option Server → Exit → Type 0
IsAnswerFor (some srv) e = e ≡ code 0
IsAnswerFor none e = (e ≡ code 1) ⊎ (e ≡ panicked)

abbrev Ended : Run → Type 0
Ended r = IsReaped r.child × IsAnswerFor r.serving r.exit

reap-IsReaped : (c : Option Child) → IsReaped (reap c).0
unfolding reap
reap-IsReaped none = tt
reap-IsReaped (some c) = terminate-exited c

serve_until-Ended :
    (cfg : Config) (out : Outside) (first : Mapping) (actual up_addr : Bytes) (srv : Server)
    (child : Option Child) (before : List Line)
    → Ended (serve_until cfg out first actual up_addr srv child before)
unfolding serve_until
serve_until-Ended cfg out first actual up_addr srv child before = (reap-IsReaped _, refl)

after_wait-Ended :
    (cfg : Config) (out : Outside) (first : Mapping) (actual up_addr : Bytes) (srv : Server)
    (child : Child) (b : Bool)
    → Ended (after_wait cfg out first actual up_addr srv child b)
unfolding after_wait
after_wait-Ended cfg out first actual up_addr srv child true =
    serve_until-Ended cfg out first actual up_addr srv (some child) _
after_wait-Ended cfg out first actual up_addr srv child false =
    (reap-IsReaped (some child), inl refl)

after_spawn-Ended :
    (cfg : Config) (out : Outside) (first : Mapping) (actual up_addr : Bytes) (srv : Server)
    (r : Result IoError Child)
    → Ended (after_spawn cfg out first actual up_addr srv r)
unfolding after_spawn
after_spawn-Ended cfg out first actual up_addr srv (err e) = (tt, inl refl)
after_spawn-Ended cfg out first actual up_addr srv (ok child) =
    after_wait-Ended cfg out first actual up_addr srv child _

after_bind-Ended :
    (cfg : Config) (out : Outside) (first : Mapping) (listen up_host : Bytes) (up_port : ℕ)
    (r : Result IoError (Option Bytes × Server))
    → Ended (after_bind cfg out first listen up_host up_port r)
after_bind-Ended cfg out first listen up_host up_port (err e) = unfold after_bind in (tt, inl refl)
after_bind-Ended cfg out first listen up_host up_port (ok (a, srv)) =
    elim (Bool-cases cfg.no_autolaunch) [
      | inl h ↦
          unfold after_bind in
          simp h (
            serve_until-Ended cfg out first (get_or a listen) (join_host_port up_host up_port) srv
              none [])
      | inr h ↦
          unfold after_bind in
          simp h (
            after_spawn-Ended cfg out first (get_or a listen) (join_host_port up_host up_port) srv
              _)
    ]

after_port-Ended :
    (cfg : Config) (out : Outside) (first : Mapping) (listen up_host : Bytes) (r : Option ℕ)
    → Ended (after_port cfg out first listen up_host r)
unfolding after_port
after_port-Ended cfg out first listen up_host none = (tt, inr refl)
after_port-Ended cfg out first listen up_host (some p) =
    after_bind-Ended cfg out first listen up_host p _

after_upstream-Ended :
    (cfg : Config) (out : Outside) (first : Mapping) (listen : Bytes)
    (r : Result ConfigError (Bytes × ℕ))
    → Ended (after_upstream cfg out first listen r)
unfolding after_upstream
after_upstream-Ended cfg out first listen (err e) = (tt, inl refl)
after_upstream-Ended cfg out first listen (ok (h, p)) = after_port-Ended cfg out first listen h _

after_listen-Ended :
    (cfg : Config) (out : Outside) (first : Mapping) (r : Result ConfigError (Bytes × ℕ))
    → Ended (after_listen cfg out first r)
unfolding after_listen
after_listen-Ended cfg out first (err e) = (tt, inl refl)
after_listen-Ended cfg out first (ok (h, p)) = after_upstream-Ended cfg out first _ _

after_load-Ended :
    (cfg : Config) (out : Outside) (r : Result DnsFileError Mapping) → Ended (after_load cfg out r)
unfolding after_load
after_load-Ended cfg out (err e) = (tt, inl refl)
after_load-Ended cfg out (ok first) = after_listen-Ended cfg out first _

-- However a run ends, its child process, if it launched one, is gone at the end, and the exit code is 0
-- exactly when the server was started; otherwise the code is 1, or the run panicked.
pub run-reaps :
    (cfg : Config) (out : Outside)
    → IsReaped (run cfg out).child × IsAnswerFor (run cfg out).serving (run cfg out).exit
unfolding run
run-reaps cfg out = after_load-Ended cfg out _
