-- ===== src/Text/Ascii.antt =====
-- The texts of numbers and of addresses are ASCII.
use tailcat_socks.Base.{
  ℕ, ◌≡◌, refl, true, Bool-cases, inl, inr, ltb, [], ◌∷◌, none, arith, All, All-append, length,
}
use tailcat_socks.Base.Bytes.{Bytes}
use tailcat_socks.Text.Decimal.{show_dec, IsDigits, show_dec-IsDigits}
use tailcat_socks.Text.Utf8.{is_utf8, is_ascii}
use tailcat_socks.Text.Ip.{
  Ipv4Addr, show_v4, parse_v4, read_ipv4_addr, read_separator, read_number, read_digits,
  finish_number, starts_zero,
}
use tailcat_socks.Text.Ipv6.{Ipv6Addr, show_v6}
use tailcat_socks.Text.Ipv6.Plain.{AllPlain, read_ipv4_addr-AllPlain, fmt_groups-AllPlain}
use tailcat_socks.Text.Ipv6.RoundTrip.{IsIpv6, show_v6_cases}

abbrev pub IsAscii : Bytes → Type 0
IsAscii = All (λ c. is_ascii c ≡ true)

pub is_utf8-IsAscii : (s : Bytes) → IsAscii s → is_utf8 s ≡ true
unfolding is_utf8
is_utf8-IsAscii [] h = refl
is_utf8-IsAscii (c ∷ []) h = h.0
is_utf8-IsAscii (c ∷ d ∷ []) h = rw (h.0, is_utf8-IsAscii (d ∷ []) h.1)
is_utf8-IsAscii (c ∷ d ∷ e ∷ []) h = rw (h.0, is_utf8-IsAscii (d ∷ e ∷ []) h.1)
is_utf8-IsAscii (c ∷ d ∷ e ∷ f ∷ s) h = rw (is_utf8, h.0) (is_utf8-IsAscii (d ∷ e ∷ f ∷ s) h.1)

digits-IsAscii : (s : Bytes) → IsDigits s → IsAscii s
digits-IsAscii [] h = tt
digits-IsAscii (c ∷ s) h = (ground (arith, h.0), digits-IsAscii s h.1)

show_dec-IsAscii : (n : ℕ) → IsAscii (show_dec n)
show_dec-IsAscii n = digits-IsAscii (show_dec n) (show_dec-IsDigits n)

pub show_v4-IsAscii : (ip : Ipv4Addr) → IsAscii (show_v4 ip)
unfolding show_v4
show_v4-IsAscii ip = All-append _ (show_dec ip.a) _ (show_dec-IsAscii ip.a) (
  refl,
  All-append _ (show_dec ip.b) _ (show_dec-IsAscii ip.b)
      (refl, All-append _ (show_dec ip.c) _ (show_dec-IsAscii ip.c) (refl, show_dec-IsAscii ip.d)),
)

plain-IsAscii : (s : Bytes) → AllPlain s → IsAscii s
plain-IsAscii [] h = tt
plain-IsAscii (c ∷ s) h = (h.0.0, plain-IsAscii s h.1)

pub show_v6-IsAscii : (ip : Ipv6Addr) → IsIpv6 ip → IsAscii (show_v6 ip)
show_v6-IsAscii ip h = elim (show_v6_cases ip h) [
  | inl e ↦ rw e (plain-IsAscii _ (fmt_groups-AllPlain ip.segments _))
  | inr (ip4, (m, e)) ↦
      rw e (refl, (refl, (refl, (refl, (refl, (refl, (refl, show_v4-IsAscii ip4)))))))
]

no_v4_behind_colon : (s : Bytes) → read_ipv4_addr (b':' ∷ s) ≡ none
unfolding read_ipv4_addr read_separator read_number read_digits finish_number starts_zero
no_v4_behind_colon s = refl

-- The text of an IPv6 address is not one of an IPv4 address.
pub parse_v4-show_v6 : (ip : Ipv6Addr) → IsIpv6 ip → parse_v4 (show_v6 ip) ≡ none
unfolding parse_v4
parse_v4-show_v6 ip h = elim (Bool-cases (ltb 15 (length (show_v6 ip)))) [
  | inl long ↦ rw long
  | inr short ↦ rw (short, nothing)
]
  where
    nothing : read_ipv4_addr (show_v6 ip) ≡ none
    nothing = elim (show_v6_cases ip h) [
      | inl e ↦ rw e (read_ipv4_addr-AllPlain _ (fmt_groups-AllPlain ip.segments _))
      | inr (ip4, (m, e)) ↦ rw e (no_v4_behind_colon _)
    ]
