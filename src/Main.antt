-- ===== src/Main.antt =====
-- `run` of rust/src/main.rs: from the flags to the exit code. What the outside answers at each call is
-- an argument; the tasks that `run` starts are modelled in Proxy/Session and Dns/Watch.
pub mod Life
pub mod Started
pub mod Lines
use tailcat_socks.Base.{
  ℕ, Bool, true, false, List, [], ◌∷◌, ◌++◌, Option, none, some, get_or, ◌==◌, if◌then◌else◌,
  length, not,
}
use tailcat_socks.Base.Bytes.{Bytes}
use tailcat_socks.Base.Result.{Result, ok, err}
use tailcat_socks.Error.{IoError, ConfigError, DnsFileError}
use tailcat_socks.Config.{Config, Probe, parse_addr, join_host_port, free_high_port}
use tailcat_socks.Dns.Mapping.{Mapping, token_set, len}
use tailcat_socks.Dns.Watch.{ReadResult, load_dns_file, new, store}
use tailcat_socks.Proxy.Session.{Server, bind}
use tailcat_socks.Tailcat.{Child, Attempt, Signal, spawn_socks, wait_ready, terminate}

-- What ends the `select!`: a signal, or the accept loop, which returns an error or nothing.
pub data Stop : Type 0 where
  on_sigterm on_sigint : Stop
  serve_ended : Result IoError (Unit {0}) → Stop

-- The outside of the program. The listener is known by the address that it is really bound to, if the
-- system tells it. `later` is what became of the child by the time of the stop.
pub record Outside : Type 0 where
  pub dns_text : ReadResult
  pub probe : Probe
  pub tcp_bind : Bytes → Result IoError (Option Bytes)
  pub spawn : Bytes → List Bytes → Result IoError Child
  pub attempts : Bytes → ℕ → Attempt
  pub clock : ℕ
  pub later : Child → Child
  pub stop : Stop

-- The lines that `run` logs.
pub data Line : Type 0 where
  cannot_load : DnsFileError → Line
  bad_listen bad_upstream : ConfigError → Line
  cannot_listen : Bytes → IoError → Line
  launch_failed : Bytes → IoError → Line
  not_ready : Bytes → Line
  launched : Bytes → Bytes → Line
  listening : Bytes → Line
  mapped : ℕ → ℕ → Line
  upstream : Bytes → Line
  server_error : IoError → Line

pub data Exit : Type 0 where
  code : ℕ → Exit
  panicked : Exit

-- What a run left behind: the server and the watcher's path if they were started, the child as it was at
-- the end and the signals that it was sent, the log, and the exit.
pub record Run : Type 0 where
  pub serving : Option Server
  pub watching : Option Bytes
  pub child : Option Child
  pub signals : List Signal
  pub log : List Line
  pub exit : Exit

-- `log_line(…); return 1;` before there is a child.
abbrev give_up : Line → Run
give_up line = record {
  serving = none;
  watching = none;
  child = none;
  signals = [];
  log = line ∷ [];
  exit = code 1;
}

-- `if let Some(c) = child.as_mut() { terminate(c).await; }`
unfoldable pub reap : Option Child → Option Child × List Signal
reap none = (none, [])
reap (some c) = (some (terminate c).0, (terminate c).1)

unfoldable pub stop_lines : Stop → List Line
stop_lines on_sigterm = []
stop_lines on_sigint = []
stop_lines (serve_ended (ok _)) = []
stop_lines (serve_ended (err e)) = server_error e ∷ []

later_child : Outside → Option Child → Option Child
later_child out none = none
later_child out (some c) = some (out.later c)

-- From the start of the watcher and the server to the end.
unfoldable pub serve_until :
    Config → Outside → Mapping → Bytes → Bytes → Server → Option Child → List Line → Run
unfolding stop_lines later_child
serve_until cfg out first actual up_addr srv child before = record {
  serving = some srv;
  watching = if cfg.no_watch then none else some cfg.dns_file;
  child = (reap (later_child out child)).0;
  signals = (reap (later_child out child)).1;
  log =
      before
      ++ listening actual
        ∷ mapped (len first) (length (token_set first))
        ∷ upstream up_addr
        ∷ stop_lines out.stop;
  exit = code 0;
}

-- `!wait_ready(…)`: the child is ended, and the program too.
unfoldable pub after_wait : Config → Outside → Mapping → Bytes → Bytes → Server → Child → Bool → Run
after_wait cfg out first actual up_addr srv child true =
    serve_until cfg out first actual up_addr srv (some child)
      (launched cfg.tailcat_bin up_addr ∷ [])
after_wait cfg out first actual up_addr srv child false = record {
  serving = none;
  watching = none;
  child = (reap (some child)).0;
  signals = (reap (some child)).1;
  log = not_ready up_addr ∷ [];
  exit = code 1;
}

abbrev pub ready_timeout : ℕ
ready_timeout = 15000

-- `wait_ready` always has an answer (Tailcat/Ready), so that the default is never taken.
abbrev pub came_up_in_time : Outside → Bytes → Bool
came_up_in_time out up_addr =
    get_or (wait_ready out.clock ready_timeout (out.attempts up_addr)) false

unfoldable pub after_spawn :
    Config → Outside → Mapping → Bytes → Bytes → Server → Result IoError Child → Run
after_spawn cfg out first actual up_addr srv (err e) = give_up (launch_failed cfg.tailcat_bin e)
after_spawn cfg out first actual up_addr srv (ok child) =
    after_wait cfg out first actual up_addr srv child (came_up_in_time out up_addr)

unfoldable pub after_bind :
    Config → Outside → Mapping → Bytes → Bytes → ℕ → Result IoError (Option Bytes × Server) → Run
after_bind cfg out first listen up_host up_port (err e) = give_up (cannot_listen listen e)
after_bind cfg out first listen up_host up_port (ok (local_addr, srv)) =
    let actual = get_or local_addr listen in
    let up_addr = join_host_port up_host up_port in
    if not cfg.no_autolaunch
    then after_spawn cfg out first actual up_addr srv
        (spawn_socks out.spawn cfg.tailcat_bin up_host up_port)
    else serve_until cfg out first actual up_addr srv none []

-- A probe that finds no port at all panics.
unfoldable pub after_port : Config → Outside → Mapping → Bytes → Bytes → Option ℕ → Run
after_port cfg out first listen up_host none = record {
  serving = none;
  watching = none;
  child = none;
  signals = [];
  log = [];
  exit = panicked;
}
after_port cfg out first listen up_host (some up_port) =
    after_bind cfg out first listen up_host up_port
      (bind out.tcp_bind (store first new) (join_host_port up_host up_port) listen)

-- An explicit port wins.
unfoldable pub upstream_port : Outside → Bytes → ℕ → Option ℕ
upstream_port out up_host port = if port == 0 then free_high_port out.probe up_host else some port

unfoldable pub after_upstream :
    Config → Outside → Mapping → Bytes → Result ConfigError (Bytes × ℕ) → Run
after_upstream cfg out first listen (err e) = give_up (bad_upstream e)
after_upstream cfg out first listen (ok (up_host, port)) =
    after_port cfg out first listen up_host (upstream_port out up_host port)

unfoldable pub after_listen : Config → Outside → Mapping → Result ConfigError (Bytes × ℕ) → Run
after_listen cfg out first (err e) = give_up (bad_listen e)
after_listen cfg out first (ok (host, port)) =
    after_upstream cfg out first (join_host_port host port) (parse_addr cfg.upstream)

unfoldable pub after_load : Config → Outside → Result DnsFileError Mapping → Run
after_load cfg out (err e) = give_up (cannot_load e)
after_load cfg out (ok first) = after_listen cfg out first (parse_addr cfg.listen)

unfoldable pub run : Config → Outside → Run
run cfg out = after_load cfg out (load_dns_file cfg.dns_file out.dns_text)
