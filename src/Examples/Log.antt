-- ===== src/Examples/Log.antt =====
-- The log of a run that serves.
use tailcat_socks.Base.{
  ℕ, ◌≡◌, ◌≤◌, refl, [], ◌∷◌, ◌++◌, none, false, true, arith, leb, length, map, Option, get_or,
}
use tailcat_socks.Base.Result.{ok}
use tailcat_socks.Base.Bytes.{Bytes, codes, split, rposition}
use tailcat_socks.Text.Decimal.{show_dec, parse_u16}
use tailcat_socks.Config.{
  parse_addr, port_of, split_last, host_of, join_host_port, strip, trim_start_matches,
  trim_end_matches, has,
}
use tailcat_socks.Net.{Socket, eof}
use tailcat_socks.Dns.Parse.{
  is_newline, parse_dns, add_lines, add_line, trim_ws, is_ascii_whitespace, add_fields, fields_of,
  non_empty, insert_all,
}
use tailcat_socks.Dns.Mapping.{token_set, insert}
use tailcat_socks.Dns.Watch.{load_dns_file, store}
use tailcat_socks.Proxy.Session.{bind, with_listener}
use tailcat_socks.Main.{
  run, after_load, after_listen, after_upstream, after_port, upstream_port, after_bind, serve_until,
  stop_lines,
}
use tailcat_socks.Logging.{log_prefix, log_all, Texts, line_text, joined}
use tailcat_socks.Logging.Lines.{AreOneLine, framed}
use tailcat_socks.Logging.Flags.{PlainFlags}
use tailcat_socks.Logging.Serving.{announcement, run-announcement}
use tailcat_socks.Examples.Processes.{outside, manual, manual_server, serves}

abbrev texts : Texts
texts = record { io_text = λ e. codes "io"; int_text = λ e. codes "int"; debug = λ s. codes "text" }

texts_line : AreOneLine texts
texts_line = record {
  io_line = λ e. (refl, (refl, tt));
  int_line = λ e. (refl, (refl, (refl, tt)));
  debug_line = λ s. (refl, (refl, (refl, (refl, tt))));
}

flags_line : PlainFlags manual outside
flags_line = record {
  listen_line = (refl, tt);
  dns_file_line = (refl, (refl, (refl, (refl, (refl, (refl, (refl, tt)))))));
  upstream_line = (refl, tt);
  tailcat_bin_line = (refl, (refl, (refl, (refl, (refl, (refl, (refl, tt)))))));
  bound_line = λ at bound e. absurd cc;
}

abbrev stderr : Socket
stderr = record { inbox = []; ending = eof; sent = []; room = 1000; jam = none; fin = false }

fits : (n k : ℕ) → leb n k ≡ true → n ≤ k
fits n k h = ground (arith, h)

small : leb (length (framed (map (line_text texts) (run manual outside).log))) 1000 ≡ true
unfolding run after_load after_listen after_upstream load_dns_file parse_addr port_of split_last
    rposition parse_u16 after_port upstream_port after_bind bind with_listener serve_until store
    host_of join_host_port strip trim_start_matches trim_end_matches has show_dec line_text joined
    framed stop_lines parse_dns token_set add_lines split add_line trim_ws is_ascii_whitespace
    add_fields fields_of non_empty insert_all insert
small = refl

run-announcement_example :
    (host : Bytes) × (port : ℕ) × (bound : Option Bytes) × (parse_addr manual.listen
      ≡ ok (host, port))
    × (outside.tcp_bind (join_host_port host port) ≡ ok bound)
    × (split is_newline (log_all (map (line_text texts) (run manual outside).log) stderr).1.sent
        ≡ map
            (λ text. log_prefix ++ text)
            (announcement manual outside texts manual_server
              (get_or bound (join_host_port host port)))
          ++ [] ∷ [])
run-announcement_example =
    run-announcement manual outside texts stderr manual_server flags_line texts_line
      (fits _ 1000 small) refl serves
