-- ===== src/ProxyTests/Start.antt =====
-- `start_proxy` and `start_proxy_with_idle` of the tests of rust/src/proxy.rs: a server with a map that is
-- written out. Its address and its task are left out.
use tailcat_socks.Base.{
  ℕ, ◌≡◌, refl, sym, ap, ◌∙◌, List, [], ◌∷◌, get_or, if◌then◌else◌, Bool-cases, inl, inr, ◌⊎◌,
}
use tailcat_socks.Base.Bytes.{Bytes, codes, bytes_eq, to_ascii_lowercase}
use tailcat_socks.Base.Result.{Result, ok, err}
use tailcat_socks.Error.{IoError}
use tailcat_socks.Dns.Mapping.{Mapping, get, insert}
use tailcat_socks.Dns.Mapping.Laws.{get-insert}
use tailcat_socks.Dns.Rewrite.{rewrite_host}
use tailcat_socks.Dns.Watch.{DnsMap, new, load, store}
use tailcat_socks.Relay.{relay_idle_timeout}
use tailcat_socks.Proxy.Session.{Server, bind, with_listener}

-- `collect::<HashMap<_, _>>()`
collect : Mapping → List (Bytes × Bytes) → Mapping
collect m [] = m
collect m ((d, t) ∷ pairs) = collect (insert d t m) pairs

lowered : List (Bytes × Bytes) → List (Bytes × Bytes)
lowered [] = []
lowered ((d, t) ∷ mapping) = (to_ascii_lowercase d, t) ∷ lowered mapping

unfoldable pub test_map : List (Bytes × Bytes) → DnsMap
unfolding collect lowered
test_map mapping = store (collect [] (lowered mapping)) new

unfoldable pub start_proxy :
    {L : Type 0}
    → (Bytes → Result IoError L)
    → List (Bytes × Bytes)
    → Bytes
    → Result IoError (L × Server)
start_proxy tcp_bind mapping upstream =
    bind tcp_bind (test_map mapping) upstream (codes "127.0.0.1:0")

unfoldable pub with_idle :
    {L : Type 0} → ℕ → Result IoError (L × Server) → Result IoError (L × Server)
with_idle idle (ok (ln, srv)) = ok (ln, record srv { relay_idle = idle })
with_idle idle (err e) = err e

unfoldable pub start_proxy_with_idle :
    {L : Type 0}
    → (Bytes → Result IoError L)
    → List (Bytes × Bytes)
    → Bytes
    → ℕ
    → Result IoError (L × Server)
start_proxy_with_idle tcp_bind mapping upstream idle =
    with_idle idle (start_proxy tcp_bind mapping upstream)

-- The token of the last pair whose domain is the host in whatever case, or else `otherwise`.
pub named : Bytes → List (Bytes × Bytes) → Bytes → Bytes
named host [] otherwise = otherwise
named host ((d, t) ∷ mapping) otherwise =
    named host mapping
      (if bytes_eq (to_ascii_lowercase d) (to_ascii_lowercase host) then t else otherwise)

get-collect :
    (host otherwise : Bytes) (mapping : List (Bytes × Bytes)) (m : Mapping)
    → get_or (get (to_ascii_lowercase host) (collect m (lowered mapping))) otherwise
      ≡ named host mapping (get_or (get (to_ascii_lowercase host) m) otherwise)
unfolding collect lowered named
get-collect host otherwise [] m = refl
get-collect host otherwise ((d, t) ∷ mapping) m =
    get-collect host otherwise mapping (insert (to_ascii_lowercase d) t m)
    ∙ ap (named host mapping) (one (to_ascii_lowercase d))
  where
    one :
        (k : Bytes)
        → get_or (get (to_ascii_lowercase host) (insert k t m)) otherwise ≡ (
            if bytes_eq k (to_ascii_lowercase host)
            then t
            else get_or (get (to_ascii_lowercase host) m) otherwise)
    one k =
        rw (get-insert k (to_ascii_lowercase host) t m)
          (elim (Bool-cases (bytes_eq k (to_ascii_lowercase host))) [
            | inl same ↦ rw same
            | inr other ↦ rw other
          ])

abbrev Bound : Type 0 → Type 0
Bound L = Result IoError (L × Server)

ok_eq : {L : Type 0} {a b : L × Server} → Path (Bound L) (ok a) (ok b) → a ≡ b
ok_eq e = cc

kept :
    {L : Type 0} (m : DnsMap) (upstream : Bytes) (idle : ℕ) (r : Result IoError L) {ln : L}
    {srv : Server}
    → (with_listener m upstream r ≡ ok (ln, srv))
      ⊎ (with_idle idle (with_listener m upstream r) ≡ ok (ln, srv))
    → srv.dns_map ≡ m
unfolding with_listener with_idle
kept m upstream idle (ok l) (inl e) = ap (λ (p : _ × Server). p.1.dns_map) (sym (ok_eq e))
kept m upstream idle (ok l) (inr e) = ap (λ (p : _ × Server). p.1.dns_map) (sym (ok_eq e))
kept m upstream idle (err x) (inl e) = cc
kept m upstream idle (err x) (inr e) = cc

-- Where the listener is bound, there is a server.
pub start_proxy_bound :
    {L : Type 0} (tcp_bind : Bytes → Result IoError L) (mapping : List (Bytes × Bytes))
    (upstream : Bytes) (ln : L)
    → tcp_bind (codes "127.0.0.1:0") ≡ ok ln
    → start_proxy tcp_bind mapping upstream
      ≡ ok (
        ln,
        record {
          dns_map = test_map mapping;
          upstream_addr = upstream;
          relay_idle = relay_idle_timeout;
        },
      )
unfolding start_proxy bind with_listener
start_proxy_bound tcp_bind mapping upstream ln e = rw e

-- A test's server sends a host on as the token of the last pair that names it, in whatever case, and any other
-- host as it is, with or without an idle time of the test's own.
pub rewrite_host-start_proxy :
    {L : Type 0} (tcp_bind : Bytes → Result IoError L) (mapping : List (Bytes × Bytes))
    (upstream host : Bytes) (idle : ℕ) {ln : L} {srv : Server}
    → (start_proxy tcp_bind mapping upstream ≡ ok (ln, srv))
      ⊎ (start_proxy_with_idle tcp_bind mapping upstream idle ≡ ok (ln, srv))
    → rewrite_host host (load srv.dns_map) ≡ named host mapping host
unfolding start_proxy start_proxy_with_idle bind get
rewrite_host-start_proxy tcp_bind mapping upstream host idle h =
    ap (λ m. rewrite_host host (load m))
      (kept (test_map mapping) upstream idle (tcp_bind (codes "127.0.0.1:0")) h)
    ∙ unfold rewrite_host load test_map store new in get-collect host host mapping []
