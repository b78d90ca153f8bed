-- ===== src/Main/Started.antt =====
-- What holds of the server that `run` of rust/src/main.rs starts.
use tailcat_socks.Base.{ℕ, ◌≡◌, refl, true, false, Option, none, some, Bool-cases, inl, inr, get_or}
use tailcat_socks.Base.Bytes.{Bytes}
use tailcat_socks.Base.Result.{Result, ok, err, Result-cases}
use tailcat_socks.Error.{IoError}
use tailcat_socks.Config.{Config, parse_addr, join_host_port}
use tailcat_socks.Dns.Mapping.{Mapping}
use tailcat_socks.Dns.Watch.{load_dns_file, DnsMap, new, load, store}
use tailcat_socks.Proxy.Session.{Server, with_listener, bind}
use tailcat_socks.Tailcat.{Child, spawn_socks}
use tailcat_socks.Main.{
  Outside, serve_until, after_wait, came_up_in_time, after_spawn, after_bind, after_port,
  upstream_port, after_upstream, after_listen, after_load, run,
}

-- What stands before the server is started: the file was loaded, both addresses were read, a port was found
-- and the listener bound; and, if the program launches the upstream itself, the upstream answered in time.
pub record IsStarted (cfg : Config) (out : Outside) (srv : Server) : Type 0 where
  pub first : Mapping
  pub listen_host : Bytes
  pub up_host : Bytes
  pub listen_port : ℕ
  pub port : ℕ
  pub up_port : ℕ
  pub local_addr : Option Bytes
  pub loaded : load_dns_file cfg.dns_file out.dns_text ≡ ok first
  pub maps : load srv.dns_map ≡ first
  pub listen_read : parse_addr cfg.listen ≡ ok (listen_host, listen_port)
  pub upstream_read : parse_addr cfg.upstream ≡ ok (up_host, port)
  pub port_found : upstream_port out up_host port ≡ some up_port
  pub dials : srv.upstream_addr ≡ join_host_port up_host up_port
  pub bound : out.tcp_bind (join_host_port listen_host listen_port) ≡ ok local_addr
  pub ready :
      cfg.no_autolaunch ≡ false → came_up_in_time out (join_host_port up_host up_port) ≡ true

after_spawn-serving :
    (cfg : Config) (out : Outside) (first : Mapping) (actual up_addr : Bytes) (srv : Server)
    (r : Result IoError Child) {s : Server}
    → (after_spawn cfg out first actual up_addr srv r).serving ≡ some s
    → (srv ≡ s) × (came_up_in_time out up_addr ≡ true)
after_spawn-serving cfg out first actual up_addr srv (err e) h = unfold after_spawn in cc
after_spawn-serving cfg out first actual up_addr srv (ok child) h =
    elim (Bool-cases (came_up_in_time out up_addr)) [
      | inl up ↦ unfold after_spawn after_wait serve_until in let k = simp up at h in (cc, up)
      | inr down ↦ unfold after_spawn after_wait in let k = simp down at h in cc
    ]

after_bind-serving :
    (cfg : Config) (out : Outside) (first : Mapping) (listen up_host : Bytes) (up_port : ℕ)
    (r : Result IoError (Option Bytes × Server)) {s : Server}
    → (after_bind cfg out first listen up_host up_port r).serving ≡ some s
    → (a : Option Bytes) × (r ≡ ok (a, s))
      × (cfg.no_autolaunch ≡ false → came_up_in_time out (join_host_port up_host up_port) ≡ true)
after_bind-serving cfg out first listen up_host up_port (err e) h = unfold after_bind in cc
after_bind-serving cfg out first listen up_host up_port (ok (a, srv)) {s} h =
    elim (Bool-cases cfg.no_autolaunch) [
      | inl off ↦ unfold after_bind serve_until in let k = simp off at h in (a, cc, λ on. cc)
      | inr on ↦
          unfold after_bind in
          let k = simp on at h in
          let (same, up) =
            after_spawn-serving cfg out first (get_or a listen) (join_host_port up_host up_port) srv
              (spawn_socks out.spawn cfg.tailcat_bin up_host up_port) k in
          (a, cc, λ _. up)
    ]

bind-eq-ok :
    {L : Type 0} (tcp_bind : Bytes → Result IoError L) (cell : DnsMap) (up_addr listen : Bytes)
    {l : L} {s : Server}
    → bind tcp_bind cell up_addr listen ≡ ok (l, s)
    → (tcp_bind listen ≡ ok l) × (s.dns_map ≡ cell) × (s.upstream_addr ≡ up_addr)
bind-eq-ok tcp_bind cell up_addr listen h = elim (Result-cases (tcp_bind listen)) [
  | inl (l, e) ↦ unfold bind with_listener in let k = simp e at h in (cc, cc, cc)
  | inr (x, e) ↦ unfold bind with_listener in let k = simp e at h in cc
]

-- The upstream's port is the one that was given, or the one that the probe found where 0 was given.
after_port-serving :
    (cfg : Config) (out : Outside) (first : Mapping) (listen up_host : Bytes) (p : Option ℕ)
    {s : Server}
    → (after_port cfg out first listen up_host p).serving ≡ some s
    → (q : ℕ) × (a : Option Bytes) × (p ≡ some q)
      × (load s.dns_map ≡ first)
      × (s.upstream_addr ≡ join_host_port up_host q)
      × (out.tcp_bind listen ≡ ok a)
      × (cfg.no_autolaunch ≡ false → came_up_in_time out (join_host_port up_host q) ≡ true)
after_port-serving cfg out first listen up_host none h = unfold after_port in cc
after_port-serving cfg out first listen up_host (some q) {s} h =
    let (a, e, up) =
      after_bind-serving cfg out first listen up_host q
        (bind out.tcp_bind (store first new) (join_host_port up_host q) listen) {s = s}
        (unfold after_port in h) in
    let (bound, cell, dials) =
      bind-eq-ok out.tcp_bind (store first new) (join_host_port up_host q) listen e in
    (q, a, refl, unfold load store new in rw cell refl, dials, bound, up)

-- A server is started only with the file's mapping, on an address that could be bound, with the upstream
-- address that `--upstream` and the probe give; and, unless the launch is off, only behind a successful wait
-- for the upstream.
pub run-IsStarted :
    (cfg : Config) (out : Outside) (s : Server)
    → (run cfg out).serving ≡ some s
    → IsStarted cfg out s
run-IsStarted cfg out s h = elim (Result-cases (load_dns_file cfg.dns_file out.dns_text)) [
  | inr (x, e) ↦ unfold run after_load in let k = simp e at h in cc
  | inl (first, e) ↦ elim (Result-cases (parse_addr cfg.listen)) [
    | inr (x, f) ↦ unfold run after_load after_listen in let k = simp (e, f) at h in cc
    | inl ((lh, lp), f) ↦ elim (Result-cases (parse_addr cfg.upstream)) [
      | inr (x, g) ↦
          unfold run after_load after_listen after_upstream in let k = simp (e, f, g) at h in cc
      | inl ((uh, up), g) ↦
          let k =
            after_port-serving cfg out first (join_host_port lh lp) uh (upstream_port out uh up)
              {s = s}
              (unfold run after_load after_listen after_upstream in (simp (e, f, g) at h)) in
          record {
            first = first;
            listen_host = lh;
            up_host = uh;
            listen_port = lp;
            port = up;
            up_port = k.0;
            local_addr = k.1;
            loaded = e;
            maps = k.3;
            listen_read = f;
            upstream_read = g;
            port_found = k.2;
            dials = k.4;
            bound = k.5;
            ready = k.6;
          }
    ]
  ]
]
