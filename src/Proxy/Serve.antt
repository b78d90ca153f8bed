-- ===== src/Proxy/Serve.antt =====
-- The accept loop of rust/src/proxy.rs.
use tailcat_socks.Base.{◌≡◌, refl, ap, List, [], ◌∷◌, ◌++◌, Option, some, map}
use tailcat_socks.Error.{IoError}
use tailcat_socks.Net.{Socket}
use tailcat_socks.Proxy.Session.{
  Server, World, Session, handle, Accept, accepted, accept_failed, serve,
}

-- The connections, each in its world, as the listener gives them.
abbrev pub arrivals : List (World × Socket) → List Accept
arrivals = map (λ c. accepted c.0 c.1)

-- Every connection that arrives before the listener's first error is handled, in the order of arrival and
-- however the others end; the loop returns that error, and accepts nothing behind it.
pub serve-arrivals :
    (srv : Server) (conns : List (World × Socket)) (e : IoError) (more : List Accept)
    → serve srv (arrivals conns ++ accept_failed e ∷ more)
      ≡ (map (λ c. handle srv c.0 c.1) conns, some e)
unfolding serve
serve-arrivals srv [] e more = refl
serve-arrivals srv (c ∷ conns) e more =
    ap (λ (r : List Session × Option IoError). (handle srv c.0 c.1 ∷ r.0, r.1))
      (serve-arrivals srv conns e more)
