-- ===== src/ConfigTests.antt =====
-- The test functions of rust/src/config.rs: each assertion as a test of its own, joined in order.
use tailcat_socks.Base.{
  ℕ, ◌≡◌, ◌<◌, refl, Bool, true, false, ◌&&◌, Option, none, some, arith, leb, ◌==◌,
}
use tailcat_socks.Base.Bytes.{Bytes, codes, bytes_eq, rposition}
use tailcat_socks.Base.Result.{Result, ok, err}
use tailcat_socks.Error.{ConfigError}
use tailcat_socks.Text.Decimal.{show_dec, parse_u16}
use tailcat_socks.Config.Ports.{drawn, IsFree, probed, given, free_high_port-IsFree}
use tailcat_socks.Config.{
  split_last, port_of, host_of, parse_addr, trim_start_matches, trim_end_matches, has, strip,
  join_host_port, Probe, free_high_port,
}

-- The two assertions on one case, behind `unwrap_or_else(panic)`.
parses_to : Bytes → Bytes → ℕ → Bool
parses_to input want_host want_port = elim (parse_addr input) [
  | ok (host, port) ↦ bytes_eq host want_host && port == want_port
  | err e ↦ false
]

is_err : Result ConfigError (Bytes × ℕ) → Bool
is_err (ok a) = false
is_err (err e) = true

unfoldable parse_addr_matches_go_semantics : Bool
unfolding parses_to
parse_addr_matches_go_semantics =
    parses_to (codes "127.0.0.1:1080") (codes "127.0.0.1") 1080
    && parses_to (codes ":8080") (codes "127.0.0.1") 8080
    && parses_to (codes "127.0.0.1:0") (codes "127.0.0.1") 0
    && parses_to (codes "example.com:9999") (codes "example.com") 9999
    && parses_to (codes "[::1]:1080") (codes "[::1]") 1080
    && parses_to (codes "1080") (codes "127.0.0.1") 1080
    && parses_to (codes "host:") (codes "host") 0

unfoldable parse_addr_rejects_bad_ports : Bool
unfolding is_err
parse_addr_rejects_bad_ports =
    is_err (parse_addr (codes "127.0.0.1")) && is_err (parse_addr (codes "host:abc"))

unfoldable join_host_port_brackets_ipv6 : Bool
join_host_port_brackets_ipv6 =
    bytes_eq (join_host_port (codes "[::1]") 1080) (codes "[::1]:1080")
    && bytes_eq (join_host_port (codes "::1") 1080) (codes "[::1]:1080")
    && bytes_eq (join_host_port (codes "127.0.0.1") 1080) (codes "127.0.0.1:1080")
    && bytes_eq (join_host_port (codes "localhost") 0) (codes "localhost:0")

-- `(20000..=60999).contains(&p)`, of the port that was found if the call did not panic
in_high_range : Option ℕ → Bool
in_high_range none = false
in_high_range (some p) = leb 20000 p && leb p 60999

-- What the bind at the end finds decides nothing.
unfoldable free_high_port_returns_bindable_high_port : Probe → Bool
unfolding in_high_range
free_high_port_returns_bindable_high_port out =
    in_high_range (free_high_port out (codes "127.0.0.1"))

parse_addr_matches_go_semantics_passes : parse_addr_matches_go_semantics ≡ true
unfolding parse_addr_matches_go_semantics parse_addr port_of split_last rposition parse_u16 bytes_eq
    host_of
parse_addr_matches_go_semantics_passes = refl

parse_addr_rejects_bad_ports_passes : parse_addr_rejects_bad_ports ≡ true
unfolding parse_addr_rejects_bad_ports parse_addr port_of split_last rposition parse_u16
parse_addr_rejects_bad_ports_passes = refl

join_host_port_brackets_ipv6_passes : join_host_port_brackets_ipv6 ≡ true
unfolding join_host_port_brackets_ipv6 join_host_port bytes_eq has strip trim_end_matches
    trim_start_matches show_dec
join_host_port_brackets_ipv6_passes = refl

IsFree-drawn :
    (out : Probe) (host : Bytes) (k : ℕ) (r : Option ℕ)
    → k < 20
    → out.can_bind k (join_host_port host (drawn out k)) ≡ true
    → IsFree out host 0 20 r
    → in_high_range r ≡ true
unfolding in_high_range
IsFree-drawn out host k r h bound (probed i from to before here e b) = rw e (ground (arith, b))
IsFree-drawn out host k r h bound (given refused e) =
    absurd (ground (arith, refused k (omega arith) h, bound))

-- The fourth test passes if one of the twenty draws can be bound.
free_high_port_returns_bindable_high_port_passes :
    (out : Probe) (k : ℕ)
    → k < 20
    → out.can_bind k (join_host_port (codes "127.0.0.1") (drawn out k)) ≡ true
    → free_high_port_returns_bindable_high_port out ≡ true
unfolding free_high_port_returns_bindable_high_port
free_high_port_returns_bindable_high_port_passes out k h bound =
    IsFree-drawn out (codes "127.0.0.1") k _ h bound (free_high_port-IsFree out (codes "127.0.0.1"))
