-- ===== src/Tailcat/Listen.antt =====
-- The address that `spawn_socks` of rust/src/tailcat.rs gives the child, against the one that the server dials.
use tailcat_socks.Base.{ℕ, ◌≡◌, ◌≢◌, refl, ◌∙◌, true, false, [], ◌∷◌, ◌++◌, arith}
use tailcat_socks.Base.Bytes.{Bytes}
use tailcat_socks.Text.Decimal.{show_dec}
use tailcat_socks.Config.{has, strip, join_host_port}
use tailcat_socks.Config.Address.{strip-bracketed, strip-StartsOther, strip_idem, StartsOther}
use tailcat_socks.Tailcat.{child_listen}

differs : (h s t : Bytes) → h ≢ [] → StartsOther b'[' h → h ++ s ≢ b'[' ∷ t
differs [] s t ne o e = ne refl
differs (c ∷ h) s t ne o e = ground arith

-- Write `h` for a host without its brackets, and let it not be empty. The child is told to listen at the
-- address that the server probes and dials if `h` holds no colon, and if the host that is passed on has
-- brackets around an `h` with a colon; and at another text if it is such an `h` without brackets. Nothing is
-- said of brackets around an `h` with no colon.
pub child_listen-join_host_port :
    (host : Bytes) (port : ℕ)
    → strip host ≢ []
    → (has b':' (strip host) ≡ false
        → child_listen (strip host) port ≡ join_host_port (strip host) port)
      × (has b':' (strip host) ≡ true
          → child_listen (b'[' ∷ (strip host ++ b']' ∷ [])) port
            ≡ join_host_port (b'[' ∷ (strip host ++ b']' ∷ [])) port)
      × (has b':' (strip host) ≡ true
          → child_listen (strip host) port ≢ join_host_port (strip host) port)
unfolding join_host_port
child_listen-join_host_port host port ne = (
  λ plain. rw (strip_idem host, plain),
  λ colon. rw (strip-bracketed host ne, colon),
  λ colon e.
      differs (strip host) (b':' ∷ show_dec port)
        ((strip host ++ b']' ∷ []) ++ b':' ∷ show_dec port) ne (strip-StartsOther host)
        (e ∙ rw (strip_idem host, colon)),
)
