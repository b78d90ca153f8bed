-- ===== src/Main/Lines.antt =====
-- The lines that a run of rust/src/main.rs that serves has logged.
use tailcat_socks.Base.{
  ℕ, ◌≡◌, ap, subst, ◌∙◌, false, Bool-cases, inl, inr, List, [], ◌∷◌, ◌++◌, Option, some, get_or,
  length, if◌then◌else◌,
}
use tailcat_socks.Base.Bytes.{Bytes}
use tailcat_socks.Base.Result.{Result, ok, err}
use tailcat_socks.Error.{IoError}
use tailcat_socks.Config.{Config, join_host_port}
use tailcat_socks.Dns.Mapping.{Mapping, token_set, len}
use tailcat_socks.Dns.Watch.{new, store}
use tailcat_socks.Relay.{relay_idle_timeout}
use tailcat_socks.Proxy.Session.{Server, bind, with_listener}
use tailcat_socks.Tailcat.{Child, spawn_socks}
use tailcat_socks.Main.{
  Outside, came_up_in_time, Line, launched, listening, mapped, upstream, stop_lines, serve_until,
  after_wait, after_spawn, after_bind, after_port, after_upstream, after_listen, after_load, Run,
  run,
}
use tailcat_socks.Main.Started.{IsStarted}

abbrev pub launch_lines : Config → Bytes → List Line
launch_lines cfg up_addr = if cfg.no_autolaunch then [] else launched cfg.tailcat_bin up_addr ∷ []

abbrev pub serving_lines : Config → Outside → Mapping → Bytes → Bytes → List Line
serving_lines cfg out first actual up_addr =
    launch_lines cfg up_addr
    ++ listening actual
      ∷ mapped (len first) (length (token_set first))
      ∷ upstream up_addr
      ∷ stop_lines out.stop

pub run-eq-after_bind :
    (cfg : Config) (out : Outside) (s : Server) (st : IsStarted cfg out s)
    → run cfg out
      ≡ after_bind cfg out st.first
          (join_host_port st.listen_host st.listen_port)
          st.up_host
          st.up_port
          (ok (
            st.local_addr,
            record {
              dns_map = store st.first new;
              upstream_addr = join_host_port st.up_host st.up_port;
              relay_idle = relay_idle_timeout;
            },
          ))
unfolding run after_load after_listen after_upstream after_port bind with_listener
run-eq-after_bind cfg out s st =
    simp (st.loaded, st.listen_read, st.upstream_read, st.port_found, st.bound)

after_spawn_log :
    (cfg : Config) (out : Outside) (first : Mapping) (actual up_addr : Bytes) (srv : Server)
    (r : Result IoError Child) {s : Server}
    → cfg.no_autolaunch ≡ false
    → (after_spawn cfg out first actual up_addr srv r).serving ≡ some s
    → (after_spawn cfg out first actual up_addr srv r).log
      ≡ serving_lines cfg out first actual up_addr
after_spawn_log cfg out first actual up_addr srv (err e) on h = unfold after_spawn in cc
after_spawn_log cfg out first actual up_addr srv (ok child) on h =
    elim (Bool-cases (came_up_in_time out up_addr)) [
      | inl up ↦ unfold after_spawn after_wait serve_until in simp (up, on)
      | inr down ↦ unfold after_spawn after_wait in let k = simp down at h in cc
    ]

pub after_bind_log :
    (cfg : Config) (out : Outside) (first : Mapping) (listen up_host : Bytes) (up_port : ℕ)
    (bound : Option Bytes) (srv : Server) {s : Server}
    → (after_bind cfg out first listen up_host up_port (ok (bound, srv))).serving ≡ some s
    → (after_bind cfg out first listen up_host up_port (ok (bound, srv))).log
      ≡ serving_lines cfg out first (get_or bound listen) (join_host_port up_host up_port)
after_bind_log cfg out first listen up_host up_port bound srv {s} h =
    elim (Bool-cases cfg.no_autolaunch) [
      | inl off ↦ unfold after_bind serve_until in simp off
      | inr on ↦
          let up_addr = join_host_port up_host up_port in
          let spawned_child = spawn_socks out.spawn cfg.tailcat_bin up_host up_port in
          let goes_on : after_bind cfg out first listen up_host up_port (ok (bound, srv))
              ≡ after_spawn cfg out first (get_or bound listen) up_addr srv spawned_child =
            unfold after_bind in simp on in
          ap (λ (r : Run). r.log) goes_on
          ∙ after_spawn_log cfg out first (get_or bound listen) up_addr srv spawned_child on
              (subst (λ (r : Run). r.serving ≡ some s) goes_on h)
    ]
