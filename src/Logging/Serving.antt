-- ===== src/Logging/Serving.antt =====
-- What a run of rust/src/main.rs that serves has itself logged to standard error. The lines of its child and of its
-- watcher, which may stand between, are not among these.
use tailcat_socks.Base.{
  ℕ, ◌≤◌, ◌≡◌, refl, sym, ap, subst, ◌∙◌, Bool-cases, inl, inr, List, [], ◌∷◌, ◌++◌, Option, some,
  get_or, map, length, append-nil, if◌then◌else◌,
}
use tailcat_socks.Base.Bytes.{Bytes, codes, split}
use tailcat_socks.Base.Result.{ok, err}
use tailcat_socks.Text.Decimal.{show_dec}
use tailcat_socks.Net.{Socket}
use tailcat_socks.Config.{Config, parse_addr, join_host_port}
use tailcat_socks.Dns.Mapping.{token_set, len}
use tailcat_socks.Dns.Parse.{is_newline}
use tailcat_socks.Dns.Watch.{load}
use tailcat_socks.Proxy.Session.{Server}
use tailcat_socks.Main.{
  Outside, Line, launched, listening, mapped, upstream, Stop, on_sigterm, on_sigint, serve_ended,
  stop_lines, Run, run,
}
use tailcat_socks.Main.Started.{IsStarted, run-IsStarted}
use tailcat_socks.Logging.{log_prefix, log_all, Texts, line_text, joined}
use tailcat_socks.Logging.Lines.{AreOneLine, framed}
use tailcat_socks.Logging.Flags.{PlainFlags, run-log_all}
use tailcat_socks.Main.Lines.{serving_lines, run-eq-after_bind, after_bind_log}

farewell : Texts → Stop → List Bytes
farewell t on_sigterm = []
farewell t on_sigint = []
farewell t (serve_ended (ok done)) = []
farewell t (serve_ended (err e)) = (codes "server error: " ++ t.io_text e) ∷ []

-- What a run says of the server that it starts: the upstream that it launched if it did, the address it listens on,
-- how many domains and tokens the server's map has, the upstream that the server dials, and the error that
-- ended the server if one did.
unfoldable pub announcement : Config → Outside → Texts → Server → Bytes → List Bytes
unfolding farewell
announcement cfg out t srv actual =
    (if cfg.no_autolaunch
      then []
      else (codes "auto-launched "
          ++ (cfg.tailcat_bin ++ (codes " socks on " ++ srv.upstream_addr)))
        ∷ [])
    ++ (codes "listening socks5h://" ++ actual)
      ∷ (show_dec (len (load srv.dns_map))
          ++ (codes " domain(s) mapped -> "
              ++ (show_dec (length (token_set (load srv.dns_map))) ++ codes " token(s)")))
      ∷ (codes "upstream " ++ srv.upstream_addr)
      ∷ farewell t out.stop

stop_texts : (t : Texts) (stop : Stop) → map (line_text t) (stop_lines stop) ≡ farewell t stop
unfolding stop_lines farewell line_text joined
stop_texts t on_sigterm = refl
stop_texts t on_sigint = refl
stop_texts t (serve_ended (ok done)) = refl
stop_texts t (serve_ended (err e)) = simp append-nil

module _ (t : Texts) where
  text_listening : (at : Bytes) → line_text t (listening at) ≡ codes "listening socks5h://" ++ at
  unfolding line_text joined
  text_listening at = ap (λ xs. codes "listening socks5h://" ++ xs) (append-nil at)

  text_upstream : (at : Bytes) → line_text t (upstream at) ≡ codes "upstream " ++ at
  unfolding line_text joined
  text_upstream at = ap (λ xs. codes "upstream " ++ xs) (append-nil at)

  text_launched :
      (bin at : Bytes)
      → line_text t (launched bin at)
        ≡ codes "auto-launched " ++ (bin ++ (codes " socks on " ++ at))
  unfolding line_text joined
  text_launched bin at =
      ap (λ xs. codes "auto-launched " ++ (bin ++ (codes " socks on " ++ xs))) (append-nil at)

  text_mapped :
      (n k : ℕ)
      → line_text t (mapped n k)
        ≡ show_dec n ++ (codes " domain(s) mapped -> " ++ (show_dec k ++ codes " token(s)"))
  unfolding line_text joined
  text_mapped n k =
      ap (λ xs. show_dec n ++ (codes " domain(s) mapped -> " ++ (show_dec k ++ xs)))
        (append-nil (codes " token(s)"))

serving_texts :
    (cfg : Config) (out : Outside) (t : Texts) (srv : Server) (actual : Bytes)
    → map (line_text t) (serving_lines cfg out (load srv.dns_map) actual srv.upstream_addr)
      ≡ announcement cfg out t srv actual
unfolding announcement
serving_texts cfg out t srv actual = elim (Bool-cases cfg.no_autolaunch) [
  | inl off ↦
      rw
        (
          off,
          text_listening t actual,
          text_mapped t (len (load srv.dns_map)) (length (token_set (load srv.dns_map))),
          text_upstream t srv.upstream_addr,
          stop_texts t out.stop,
        )
        refl
  | inr on ↦
      rw
        (
          on,
          text_launched t cfg.tailcat_bin srv.upstream_addr,
          text_listening t actual,
          text_mapped t (len (load srv.dns_map)) (length (token_set (load srv.dns_map))),
          text_upstream t srv.upstream_addr,
          stop_texts t out.stop,
        )
        refl
]

run-texts :
    (cfg : Config) (out : Outside) (t : Texts) (srv : Server)
    → (run cfg out).serving ≡ some srv
    → (st : IsStarted cfg out srv)
    → map (line_text t) (run cfg out).log
      ≡ announcement cfg out t srv
          (get_or st.local_addr (join_host_port st.listen_host st.listen_port))
run-texts cfg out t srv h st =
    let listen = join_host_port st.listen_host st.listen_port in
    let actual = get_or st.local_addr listen in
    let e = run-eq-after_bind cfg out srv st in
    let lines =
      ap (λ (r : Run). r.log) e
      ∙ after_bind_log cfg out st.first listen st.up_host st.up_port st.local_addr _
          (subst (λ (r : Run). r.serving ≡ some srv) e h)
      ∙ ap (λ m. serving_lines cfg out m actual (join_host_port st.up_host st.up_port))
          (sym st.maps)
      ∙ ap (serving_lines cfg out (load srv.dns_map) actual) (sym st.dials) in
    ap (map (line_text t)) lines ∙ serving_texts cfg out t srv actual

prefixed :
    (t : Texts) (lines : List Line)
    → map (λ line. log_prefix ++ line_text t line) lines
      ≡ map (λ text. log_prefix ++ text) (map (line_text t) lines)
prefixed t [] = refl
prefixed t (line ∷ lines) = ap (λ more. (log_prefix ++ line_text t line) ∷ more) (prefixed t lines)

-- A run that starts a server, on a standard error that is empty and has room, where the flags, the bound address and the
-- standard library's texts have no line break. What `run` itself logs there, cut at its line breaks, is the
-- announcement behind the prefix: the upstream it launched unless that is off, the address that the listener
-- was really bound to or else the one that was asked for, how many domains and tokens the map of that server
-- has, the address that this server dials, and the error that ended it if one did.
pub run-announcement :
    (cfg : Config) (out : Outside) (t : Texts) (s : Socket) (srv : Server)
    → PlainFlags cfg out
    → AreOneLine t
    → length (framed (map (line_text t) (run cfg out).log)) ≤ s.room
    → s.sent ≡ []
    → (run cfg out).serving ≡ some srv
    → (host : Bytes) × (port : ℕ) × (bound : Option Bytes) × (parse_addr cfg.listen
        ≡ ok (host, port))
      × (out.tcp_bind (join_host_port host port) ≡ ok bound)
      × (split is_newline (log_all (map (line_text t) (run cfg out).log) s).1.sent
          ≡ map
              (λ text. log_prefix ++ text)
              (announcement cfg out t srv (get_or bound (join_host_port host port)))
            ++ [] ∷ [])
run-announcement cfg out t s srv plain texts room fresh h =
    let st = run-IsStarted cfg out srv h in
    let listen = join_host_port st.listen_host st.listen_port in
    (
      st.listen_host,
      st.listen_port,
      st.local_addr,
      st.listen_read,
      st.bound,
      (run-log_all cfg out t s plain texts room fresh).1
          ∙ ap (λ lines. lines ++ [] ∷ [])
              (prefixed t (run cfg out).log
                ∙ ap (map (λ text. log_prefix ++ text)) (run-texts cfg out t srv h st)),
    )
