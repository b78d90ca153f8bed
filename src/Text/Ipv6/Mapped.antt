-- ===== src/Text/Ipv6/Mapped.antt =====
-- IPv4-mapped IPv6 addresses, whose text ends in an IPv4 address.
use tailcat_socks.Base.{
  ℕ, ◌+◌, ◌*◌, ◌/◌, ◌%◌, ◌<◌, ◌≡◌, refl, ap, ◌∙◌, Bool, ◌&&◌, List, [], ◌∷◌, ◌++◌, some, arith,
  ◌==◌, length,
}
use tailcat_socks.Base.Bytes.{Bytes, codes}
use tailcat_socks.Text.Ip.{
  Ipv4Addr, read_given_char, read_separator, read_ipv4_addr, read_number, read_digits,
  finish_number, starts_zero,
}
use tailcat_socks.Text.Ip.RoundTrip.{IsIpv4}
use tailcat_socks.Text.Ipv6.{
  to_ipv4_mapped, read_groups, read_tail, read_behind_head, read_ipv6_addr, v4_groups,
}
use tailcat_socks.Text.Ipv6.Reading.{AllGroups, only_groups, behind_group}

-- `::ffff:0:0/96` with the address behind it.
abbrev pub mapped : Ipv4Addr → List ℕ
mapped ip = 0 ∷ 0 ∷ 0 ∷ 0 ∷ 0 ∷ 0xFFFF ∷ (ip.a * 256 + ip.b) ∷ (ip.c * 256 + ip.d) ∷ []

pub record IsMapped (gs : List ℕ) (ip : Ipv4Addr) : Type 0 where
  pub whole : gs ≡ mapped ip
  pub fits : IsIpv4 ip

abbrev test : ℕ → ℕ → ℕ → ℕ → ℕ → ℕ → Bool
test g0 g1 g2 g3 g4 g5 = g0 == 0 && g1 == 0 && g2 == 0 && g3 == 0 && g4 == 0 && g5 == 0xFFFF

pub to_ipv4_mapped-IsMapped :
    (gs : List ℕ) (ip : Ipv4Addr)
    → length gs ≡ 8
    → AllGroups gs
    → to_ipv4_mapped gs ≡ some ip
    → IsMapped gs ip
unfolding to_ipv4_mapped
to_ipv4_mapped-IsMapped [] ip e h k = absurd (omega (arith, e))
to_ipv4_mapped-IsMapped (g0 ∷ []) ip e h k = absurd (omega (arith, e))
to_ipv4_mapped-IsMapped (g0 ∷ g1 ∷ []) ip e h k = absurd (omega (arith, e))
to_ipv4_mapped-IsMapped (g0 ∷ g1 ∷ g2 ∷ []) ip e h k = absurd (omega (arith, e))
to_ipv4_mapped-IsMapped (g0 ∷ g1 ∷ g2 ∷ g3 ∷ []) ip e h k = absurd (omega (arith, e))
to_ipv4_mapped-IsMapped (g0 ∷ g1 ∷ g2 ∷ g3 ∷ g4 ∷ []) ip e h k = absurd (omega (arith, e))
to_ipv4_mapped-IsMapped (g0 ∷ g1 ∷ g2 ∷ g3 ∷ g4 ∷ g5 ∷ []) ip e h k = absurd (omega (arith, e))
to_ipv4_mapped-IsMapped (g0 ∷ g1 ∷ g2 ∷ g3 ∷ g4 ∷ g5 ∷ g6 ∷ []) ip e h k = absurd (omega (arith, e))
to_ipv4_mapped-IsMapped (g0 ∷ g1 ∷ g2 ∷ g3 ∷ g4 ∷ g5 ∷ g6 ∷ g7 ∷ []) ip e h k =
    let a : ip.a ≡ g6 / 256 = ground (arith, k) in
    let b : ip.b ≡ g6 % 256 = ground (arith, k) in
    let c : ip.c ≡ g7 / 256 = ground (arith, k) in
    let d : ip.d ≡ g7 % 256 = ground (arith, k) in
    let high : g6 ≡ ip.a * 256 + ip.b = omega (arith, a, b) in
    let low : g7 ≡ ip.c * 256 + ip.d = omega (arith, c, d) in
    let small6 : g6 < 65536 = h.1.1.1.1.1.1.0 in
    let small7 : g7 < 65536 = h.1.1.1.1.1.1.1.0 in
    record {
      whole = ground (arith, k, high, low);
      fits = record {
        a = omega (arith, a, small6);
        b = omega (arith, b);
        c = omega (arith, c, small7);
        d = omega (arith, d);
      };
    }
to_ipv4_mapped-IsMapped (g0 ∷ g1 ∷ g2 ∷ g3 ∷ g4 ∷ g5 ∷ g6 ∷ g7 ∷ g8 ∷ gs) ip e h k =
    absurd (omega (arith, e))

-- The start of the text of an IPv4-mapped address.
module _ (t : Bytes) where
  no_head : read_groups 8 0 (codes "::ffff:" ++ t) ≡ only_groups [] (codes "::ffff:" ++ t)
  unfolding read_groups read_separator read_ipv4_addr read_number read_digits finish_number
      starts_zero read_given_char
  no_head = refl

  ffff_group :
      read_groups 7 0 (codes "ffff:" ++ t) ≡ behind_group 0xFFFF (read_groups 6 1 (b':' ∷ t))
  unfolding read_groups read_separator read_ipv4_addr read_number read_digits finish_number
      starts_zero read_given_char
  ffff_group = refl

  v4_end :
      (ip : Ipv4Addr)
      → read_ipv4_addr t ≡ some (ip, [])
      → read_groups 6 1 (b':' ∷ t) ≡ v4_groups ip []
  unfolding read_groups read_separator read_given_char
  v4_end ip e = ground (arith, e)

  behind_colons :
      read_behind_head (only_groups [] (codes "::ffff:" ++ t)) ≡ read_tail [] (codes "ffff:" ++ t)
  unfolding read_behind_head read_given_char
  behind_colons = refl

  pub read_mapped :
      (ip : Ipv4Addr)
      → read_ipv4_addr t ≡ some (ip, [])
      → read_ipv6_addr (codes "::ffff:" ++ t) ≡ some (record { segments = mapped ip }, [])
  unfolding read_ipv6_addr v4_groups
  read_mapped ip e = ap read_behind_head no_head ∙ behind_colons ∙ tail
    where
      tail : read_tail [] (codes "ffff:" ++ t) ≡ some (record { segments = mapped ip }, [])
      tail = unfold read_tail in rw (ffff_group ∙ ap (behind_group 0xFFFF) (v4_end ip e)) refl
