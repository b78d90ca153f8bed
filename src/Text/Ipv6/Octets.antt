-- ===== src/Text/Ipv6/Octets.antt =====
-- The sixteen bytes of an IPv6 address and its eight groups.
use tailcat_socks.Base.{ℕ, ◌+◌, ◌-◌, ◌*◌, ◌/◌, ◌%◌, ◌≡◌, refl, List, [], ◌∷◌, arith, length}
use tailcat_socks.Base.Bytes.{Bytes, AllBytes}
use tailcat_socks.Text.Ipv6.{of_octets, v6_octets}
use tailcat_socks.Text.Ipv6.Reading.{AllGroups}

pub of_octets-v6_octets : (gs : List ℕ) → of_octets (v6_octets gs) ≡ gs
unfolding of_octets v6_octets
of_octets-v6_octets [] = refl
of_octets-v6_octets (g ∷ gs) =
    let same : g / 256 * 256 + g % 256 ≡ g = omega arith in rw (same, of_octets-v6_octets gs)

pub length-v6_octets : (gs : List ℕ) → length (v6_octets gs) ≡ 2 * length gs
unfolding v6_octets
length-v6_octets [] = omega arith
length-v6_octets (g ∷ gs) = omega (arith, length-v6_octets gs)

pub v6_octets-of_octets :
    (b : Bytes) (n : ℕ) → length b ≡ 2 * n → AllBytes b → v6_octets (of_octets b) ≡ b
unfolding of_octets v6_octets
v6_octets-of_octets [] n e h = refl
v6_octets-of_octets (hi ∷ []) n e h = absurd (omega (arith, e))
v6_octets-of_octets (hi ∷ lo ∷ b) n e h =
    let high : (hi * 256 + lo) / 256 ≡ hi = omega (arith, h.0, h.1.0) in
    let low : (hi * 256 + lo) % 256 ≡ lo = omega (arith, h.1.0) in
    rw (high, low, v6_octets-of_octets b (n - 1) (omega (arith, e)) h.1.1)

pub length-of_octets : (b : Bytes) (n : ℕ) → length b ≡ 2 * n → length (of_octets b) ≡ n
unfolding of_octets
length-of_octets [] n e = omega (arith, e)
length-of_octets (hi ∷ []) n e = absurd (omega (arith, e))
length-of_octets (hi ∷ lo ∷ b) n e = omega (arith, length-of_octets b (n - 1) (omega (arith, e)), e)

pub of_octets-AllGroups : (b : Bytes) → AllBytes b → AllGroups (of_octets b)
unfolding of_octets
of_octets-AllGroups [] h = tt
of_octets-AllGroups (hi ∷ []) h = tt
of_octets-AllGroups (hi ∷ lo ∷ b) h = (omega (arith, h.0, h.1.0), of_octets-AllGroups b h.1.1)

pub v6_octets-AllBytes : (gs : List ℕ) → AllGroups gs → AllBytes (v6_octets gs)
unfolding v6_octets
v6_octets-AllBytes [] h = tt
v6_octets-AllBytes (g ∷ gs) h = (omega (arith, h.0), (omega arith, v6_octets-AllBytes gs h.1))
