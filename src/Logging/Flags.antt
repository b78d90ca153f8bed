-- ===== src/Logging/Flags.antt =====
-- The log of `run` of rust/src/main.rs, from the flags to the lines on standard error.
use tailcat_socks.Base.{
  ℕ, ◌≤◌, ◌≡◌, refl, Bool, true, false, Bool-cases, inl, inr, List, [], ◌∷◌, ◌++◌, Option, none,
  some, get_or, map, length, All, All-append,
}
use tailcat_socks.Base.Bytes.{Bytes, split}
use tailcat_socks.Base.Result.{Result, ok, err}
use tailcat_socks.Error.{IoError, ConfigError}
use tailcat_socks.Net.{Socket, returned}
use tailcat_socks.Config.{Config, parse_addr, join_host_port}
use tailcat_socks.Dns.Mapping.{Mapping}
use tailcat_socks.Dns.Parse.{is_newline, parse_dns}
use tailcat_socks.Dns.Watch.{load_dns_file, new, store}
use tailcat_socks.Proxy.Session.{Server, bind, with_listener}
use tailcat_socks.Tailcat.{Child}
use tailcat_socks.Main.{
  Outside, Line, Stop, on_sigterm, on_sigint, serve_ended, stop_lines, serve_until, after_wait,
  after_spawn, after_bind, after_port, after_upstream, after_listen, after_load, run,
}
use tailcat_socks.Logging.{log_prefix, log_all, Texts, line_text}
use tailcat_socks.Logging.Lines.{IsOneLine, AreOneLine, IsPlainLine, framed, log_all-split}
use tailcat_socks.Logging.Addresses.{IsPlainAddr, join_host_port-IsOneLine, parse_addr-IsPlainAddr}

-- Flags without a line break, and a listener whose address has none.
pub record PlainFlags (cfg : Config) (out : Outside) : Type 0 where
  pub listen_line : IsOneLine cfg.listen
  pub dns_file_line : IsOneLine cfg.dns_file
  pub upstream_line : IsOneLine cfg.upstream
  pub tailcat_bin_line : IsOneLine cfg.tailcat_bin
  pub bound_line : (at bound : Bytes) → out.tcp_bind at ≡ ok (some bound) → IsOneLine bound

module _ (cfg : Config) (out : Outside) (plain : PlainFlags cfg out) (first : Mapping) where
  stop_lines-plain : (stop : Stop) → All IsPlainLine (stop_lines stop)
  unfolding stop_lines IsPlainLine
  stop_lines-plain on_sigterm = tt
  stop_lines-plain on_sigint = tt
  stop_lines-plain (serve_ended (ok e)) = tt
  stop_lines-plain (serve_ended (err e)) = (tt, tt)

  serve_until-plain :
      (actual up_addr : Bytes) (srv : Server) (child : Option Child) (before : List Line)
      → IsOneLine actual
      → IsOneLine up_addr
      → All IsPlainLine before
      → All IsPlainLine (serve_until cfg out first actual up_addr srv child before).log
  unfolding serve_until IsPlainLine
  serve_until-plain actual up_addr srv child before a u b =
      All-append _ before _ b (a, (tt, (u, stop_lines-plain out.stop)))

  after_wait-plain :
      (actual up_addr : Bytes) (srv : Server) (child : Child) (b : Bool)
      → IsOneLine actual
      → IsOneLine up_addr
      → All IsPlainLine (after_wait cfg out first actual up_addr srv child b).log
  unfolding after_wait IsPlainLine
  after_wait-plain actual up_addr srv child true a u =
      serve_until-plain actual up_addr srv (some child) _ a u ((plain.tailcat_bin_line, u), tt)
  after_wait-plain actual up_addr srv child false a u = (u, tt)

  after_spawn-plain :
      (actual up_addr : Bytes) (srv : Server) (r : Result IoError Child)
      → IsOneLine actual
      → IsOneLine up_addr
      → All IsPlainLine (after_spawn cfg out first actual up_addr srv r).log
  unfolding after_spawn IsPlainLine
  after_spawn-plain actual up_addr srv (err e) a u = (plain.tailcat_bin_line, tt)
  after_spawn-plain actual up_addr srv (ok child) a u =
      after_wait-plain actual up_addr srv child _ a u

  after_bind-plain :
      (listen up_host : Bytes) (up_port : ℕ) (r : Result IoError (Option Bytes))
      → IsOneLine listen
      → IsOneLine up_host
      → ((bound : Bytes) → r ≡ ok (some bound) → IsOneLine bound)
      → All IsPlainLine
          (after_bind cfg out first listen up_host up_port
            (with_listener (store first new) (join_host_port up_host up_port) r)).log
  unfolding with_listener
  after_bind-plain listen up_host up_port (err e) l u b = unfold after_bind IsPlainLine in (l, tt)
  after_bind-plain listen up_host up_port (ok a) l u b =
      let bound : IsOneLine (get_or a listen) = bound_or a b in
      let joined = join_host_port-IsOneLine up_host up_port u in
      elim (Bool-cases cfg.no_autolaunch) [
        | inl h ↦ unfold after_bind in simp h (serve_until-plain _ _ _ none [] bound joined tt)
        | inr h ↦ unfold after_bind in simp h (after_spawn-plain _ _ _ _ bound joined)
      ]
    where
      bound_or :
          (a : Option Bytes)
          → ((bound : Bytes)
              → Path (Result IoError (Option Bytes)) (ok a) (ok (some bound))
              → IsOneLine bound)
          → IsOneLine (get_or a listen)
      bound_or none b = l
      bound_or (some x) b = b x refl

  after_port-plain :
      (listen up_host : Bytes) (r : Option ℕ)
      → IsOneLine listen
      → IsOneLine up_host
      → All IsPlainLine (after_port cfg out first listen up_host r).log
  unfolding after_port bind
  after_port-plain listen up_host none l u = tt
  after_port-plain listen up_host (some p) l u =
      after_bind-plain listen up_host p (out.tcp_bind listen) l u (plain.bound_line listen)

  after_upstream-plain :
      (listen : Bytes) (r : Result ConfigError (Bytes × ℕ))
      → IsOneLine listen
      → IsPlainAddr r
      → All IsPlainLine (after_upstream cfg out first listen r).log
  unfolding after_upstream IsPlainLine
  after_upstream-plain listen (err e) l u = (tt, tt)
  after_upstream-plain listen (ok (host, port)) l u = after_port-plain listen host _ l u

  after_listen-plain :
      (r : Result ConfigError (Bytes × ℕ))
      → IsPlainAddr r
      → All IsPlainLine (after_listen cfg out first r).log
  unfolding after_listen IsPlainLine
  after_listen-plain (err e) l = (tt, tt)
  after_listen-plain (ok (host, port)) l =
      after_upstream-plain (join_host_port host port) (parse_addr cfg.upstream)
        (join_host_port-IsOneLine host port l)
        (parse_addr-IsPlainAddr cfg.upstream plain.upstream_line)

-- Every line that a run logs has its texts from flags without a line break.
run-plain : (cfg : Config) (out : Outside) → PlainFlags cfg out → All IsPlainLine (run cfg out).log
unfolding run load_dns_file after_load IsPlainLine
run-plain cfg out plain = go out.dns_text
  where
    go :
        (r : Result IoError Bytes)
        → All IsPlainLine (after_load cfg out (load_dns_file cfg.dns_file r)).log
    go (err e) = (plain.dns_file_line, tt)
    go (ok text) =
        after_listen-plain cfg out plain (parse_dns text) (parse_addr cfg.listen)
          (parse_addr-IsPlainAddr cfg.listen plain.listen_line)

-- A run whose flags have no line break, as the bound address and the standard library's texts have none, with
-- a standard error that has room for its log. Every line is written without a wait or an error, and what `run`
-- has written, cut at its line breaks, is one line for each that it logged, in order, behind the prefix.
pub run-log_all :
    (cfg : Config) (out : Outside) (t : Texts) (s : Socket)
    → PlainFlags cfg out
    → AreOneLine t
    → length (framed (map (line_text t) (run cfg out).log)) ≤ s.room
    → s.sent ≡ []
    → ((log_all (map (line_text t) (run cfg out).log) s).0 ≡ returned tt)
      × (split is_newline (log_all (map (line_text t) (run cfg out).log) s).1.sent
          ≡ map (λ line. log_prefix ++ line_text t line) (run cfg out).log ++ [] ∷ [])
run-log_all cfg out t s plain h room fresh =
    log_all-split t (run cfg out).log s h (run-plain cfg out plain) room fresh
