-- ===== src/Examples/Processes.antt =====
-- Addresses and ports, the child process, and whole runs of the program.
use tailcat_socks.Base.{ℕ, ◌≡◌, ◌≢◌, refl, ◌+◌, leb, [], ◌∷◌, none, some, arith, true, false}
use tailcat_socks.Base.Bytes.{Bytes, codes, rposition}
use tailcat_socks.Base.Result.{ok}
use tailcat_socks.Config.{
  Config, default_config, Probe, parse_addr, join_host_port, free_high_port, strip,
  trim_start_matches, trim_end_matches, port_of, split_last, host_of,
}
use tailcat_socks.Config.Address.{IsAnswer, parse_addr-join_host_port, parse_addr-IsAnswer}
use tailcat_socks.Config.Ports.{IsFree, free_high_port-IsFree}
use tailcat_socks.Tailcat.{Child, Attempt, wait_ready}
use tailcat_socks.Base.{◌++◌, true, false}
use tailcat_socks.Config.{has}
use tailcat_socks.Tailcat.{child_listen}
use tailcat_socks.Tailcat.Listen.{child_listen-join_host_port}
use tailcat_socks.Tailcat.Ready.{Polled, wait_ready-Polled}
use tailcat_socks.Main.{
  Outside, on_sigterm, run, after_load, after_listen, after_upstream, after_port, upstream_port,
  after_bind, serve_until,
}
use tailcat_socks.Main.Life.{IsReaped, IsAnswerFor, run-reaps}
use tailcat_socks.Main.Started.{IsStarted, run-IsStarted}
use tailcat_socks.Proxy.Session.{Server, bind, with_listener}
use tailcat_socks.Dns.Watch.{load_dns_file, store}
use tailcat_socks.Text.Decimal.{parse_u16}
use tailcat_socks.Dns.Parse.{parse_dns}
use tailcat_socks.Relay.{relay_idle_timeout}

host_left : strip (codes "h") ≢ []
unfolding strip trim_start_matches trim_end_matches
host_left e = cc

parse_addr-join_host_port_example :
    (h' : Bytes) × (parse_addr (join_host_port (codes "h") 80) ≡ ok (h', 80))
    × ((q : ℕ) → join_host_port h' q ≡ join_host_port (codes "h") q)
parse_addr-join_host_port_example = parse_addr-join_host_port (codes "h") 80 (omega arith) host_left

parse_addr-IsAnswer_example : IsAnswer (codes ":80") (parse_addr (codes ":80"))
parse_addr-IsAnswer_example = parse_addr-IsAnswer (codes ":80")

-- Everything can be bound from the third round on.
abbrev probe : Probe
probe = record {
  entropy = λ i. record { urandom = none; since_epoch = some i };
  can_bind = λ i a. leb 2 i;
  os_port = some 32768;
}

free_high_port-IsFree_example : IsFree probe (codes "h") 0 20 (free_high_port probe (codes "h"))
free_high_port-IsFree_example = free_high_port-IsFree probe (codes "h")

-- The upstream is up from the third connect on.
abbrev connects : ℕ → Attempt
connects i = record { takes = 1; accepts = leb 2 i }

wait_ready-Polled_example : Polled 0 100 (100 + 15000) connects (wait_ready 100 15000 connects)
wait_ready-Polled_example = wait_ready-Polled 100 15000 connects

abbrev stubborn : Child
stubborn = record { exited = false; on_term = none }

abbrev pub outside : Outside
outside = record {
  dns_text = ok (codes "tc1 a");
  probe = probe;
  tcp_bind = λ a. ok none;
  spawn = λ bin args. ok stubborn;
  attempts = λ a. connects;
  clock = 100;
  later = λ c. c;
  stop = on_sigterm;
}

run-reaps_example :
    IsReaped (run default_config outside).child
    × IsAnswerFor (run default_config outside).serving (run default_config outside).exit
run-reaps_example = run-reaps default_config outside

-- Both ports are given, and the upstream is there already.
abbrev pub manual : Config
manual = record default_config { listen = codes "1"; upstream = codes "2"; no_autolaunch = true }

abbrev pub manual_server : Server
manual_server = record {
  dns_map = record { current = parse_dns (codes "tc1 a") };
  upstream_addr = join_host_port (codes "127.0.0.1") 2;
  relay_idle = relay_idle_timeout;
}

pub serves : (run manual outside).serving ≡ some manual_server
unfolding run after_load after_listen after_upstream load_dns_file parse_addr port_of split_last
    rposition parse_u16 after_port upstream_port after_bind bind with_listener serve_until store
    host_of
serves = refl

run-IsStarted_example : IsStarted manual outside manual_server
run-IsStarted_example = run-IsStarted manual outside manual_server serves

child_listen-join_host_port_example :
    (has b':' (strip (codes "h")) ≡ false
      → child_listen (strip (codes "h")) 80 ≡ join_host_port (strip (codes "h")) 80)
    × (has b':' (strip (codes "h")) ≡ true
        → child_listen (b'[' ∷ (strip (codes "h") ++ b']' ∷ [])) 80
          ≡ join_host_port (b'[' ∷ (strip (codes "h") ++ b']' ∷ [])) 80)
    × (has b':' (strip (codes "h")) ≡ true
        → child_listen (strip (codes "h")) 80 ≢ join_host_port (strip (codes "h")) 80)
child_listen-join_host_port_example = child_listen-join_host_port (codes "h") 80 host_left
