-- ===== src/Examples/Files.antt =====
-- Small files for rust/src/dnsmap.rs, and a watcher on them.
use tailcat_socks.Base.{ℕ, ◌≡◌, refl, ◌++◌, List, [], ◌∷◌, some, get_or, or_else, arith, All}
use tailcat_socks.Base.Bytes.{Bytes, codes, to_ascii_lowercase}
use tailcat_socks.Base.Result.{ok, err}
use tailcat_socks.Error.{other}
use tailcat_socks.Dns.Mapping.{Mapping, get}
use tailcat_socks.Dns.Mapping.Laws.{IsMap}
use tailcat_socks.Dns.Parse.{is_ascii_whitespace, parse_dns, trim_ws}
use tailcat_socks.Dns.Parse.Trim.{Trimmed, trim_ws-Trimmed}
use tailcat_socks.Dns.Parse.Lookup.{IsNoise, comment, get-parse_dns-append, get-parse_dns-IsNoise}
use tailcat_socks.Dns.Parse.Render.{Row, IsRow, render, resolve, rewrite_host-render}
use tailcat_socks.Dns.Parse.Keys.{IsEntry, parse_dns-IsMap}
use tailcat_socks.Dns.Rewrite.{rewrite_host}
use tailcat_socks.Dns.Watch.{DnsMap, load, absent, present, Watcher, start, tick, ticked, watch}
use tailcat_socks.Dns.Watch.Fresh.{Version, seen, Runs, started, watch_settles}
use tailcat_socks.Dns.Watch.Failures.{watch_retries}

abbrev rows : List Row
rows =
    record { token = codes "tc1"; domains = codes "a" ∷ codes "B" ∷ [] }
    ∷ record { token = codes "tc2"; domains = codes "b" ∷ [] }
    ∷ []

rows-IsRow : All IsRow rows
unfolding is_ascii_whitespace
rows-IsRow = ground arith

rewrite_host-render_example :
    rewrite_host (codes "A") (parse_dns (render rows))
    ≡ get_or (resolve (to_ascii_lowercase (codes "A")) rows) (codes "A")
rewrite_host-render_example = rewrite_host-render rows (codes "A") rows-IsRow

get-parse_dns-append_example :
    get (codes "a") (parse_dns (codes "tc1 a" ++ 10 ∷ codes "tc2 a"))
    ≡ or_else
        (get (codes "a") (parse_dns (codes "tc2 a")))
        (get (codes "a") (parse_dns (codes "tc1 a")))
get-parse_dns-append_example = get-parse_dns-append (codes "tc1 a") (codes "tc2 a") (codes "a")

comment_line : IsNoise (codes "# x")
unfolding is_ascii_whitespace trim_ws
comment_line = comment {text = codes " x"} refl

get-parse_dns-IsNoise_example :
    get (codes "a") (parse_dns (codes "tc1 a" ++ 10 ∷ (codes "# x" ++ 10 ∷ codes "tc2 b")))
    ≡ get (codes "a") (parse_dns (codes "tc1 a" ++ 10 ∷ codes "tc2 b"))
get-parse_dns-IsNoise_example =
    get-parse_dns-IsNoise (codes "tc1 a") (codes "# x") (codes "tc2 b") (codes "a")
      (refl, (refl, (refl, tt))) comment_line

parse_dns-IsMap_example :
    IsMap (parse_dns (codes "tc1 a A")) × All IsEntry (parse_dns (codes "tc1 a A"))
parse_dns-IsMap_example = parse_dns-IsMap (codes "tc1 a A")

trim_ws-Trimmed_example : Trimmed (codes "  tc1 a ") (trim_ws (codes "  tc1 a "))
trim_ws-Trimmed_example = trim_ws-Trimmed (codes "  tc1 a ")

abbrev mapping : Mapping
mapping = (codes "a", codes "tc1") ∷ (codes "b", codes "tc1") ∷ []

-- A file that is written again in every second.
abbrev history : ℕ → Version
history n = record { mtime = n; text = codes "tc1 a" }

abbrev path : Bytes
path = codes "dns.txt"

abbrev cell : DnsMap
cell = record { current = [] }

abbrev first_watcher : Watcher
first_watcher = start path (present (some 0)) (ok (codes "tc1 a")) cell

history_watched : Runs history path 1 first_watcher
history_watched = started cell (seen 0 1 (omega arith) (omega arith) (omega arith))

watch_settles_example :
    load (tick path (present (some 2)) (ok (codes "tc1 a")) first_watcher).cell
    ≡ parse_dns (codes "tc1 a")
watch_settles_example =
    watch_settles history path 1 2 first_watcher (λ i j e. e) history_watched (omega arith)

watch_retries_example :
    ((watch path cell absent (err (other 2)) (ticked absent (err (other 2)) ∷ [])).cell ≡ cell)
    × (load
          (watch path cell absent (err (other 2)) (
            ticked absent (err (other 2))
            ∷ ticked (present (some 3)) (ok (codes "tc1 a"))
            ∷ [])).cell
        ≡ parse_dns (codes "tc1 a"))
watch_retries_example =
    watch_retries path (codes "tc1 a") cell absent (other 2) (ticked absent (err (other 2)) ∷ []) 3
      (tt, tt)
