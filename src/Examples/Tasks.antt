-- ===== src/Examples/Tasks.antt =====
-- The tasks behind a run: the watcher looks at the file, and a client comes.
use tailcat_socks.Base.{List, [], ◌∷◌, some}
use tailcat_socks.Base.Bytes.{codes}
use tailcat_socks.Base.Result.{ok}
use tailcat_socks.Dns.Watch.{present}
use tailcat_socks.Live.{Live, Activity, polled, arrives, launch}
use tailcat_socks.Live.Run.{play}
use tailcat_socks.Examples.Processes.{manual, manual_server}
use tailcat_socks.Examples.Chains.{quiet, unreached}

abbrev acts : List Activity
acts = polled (present (some 2)) (ok (codes "tc2 a")) ∷ arrives unreached quiet ∷ []

abbrev played : Live
played = play manual.dns_file manual_server acts (launch manual.no_watch manual_server)
