-- ===== src/Text/Ipv6/RoundTrip.antt =====
-- The text of an IPv6 address is parsed back to the address.
use tailcat_socks.Base.{
  ℕ, zero, suc, ◌+◌, ◌-◌, ◌<◌, ◌≤◌, ◌≡◌, refl, sym, ap, subst, ◌∙◌, ◌⊎◌, inl, inr, false,
  Bool-cases, List, [], ◌++◌, append_assoc, append-nil, Option-cases, some, arith, ltb, ◌==◌,
  All-front, All-back, length, length-append, take, drop, take-append, drop-append, replicate,
}
use tailcat_socks.Base.Bytes.{Bytes, codes}
use tailcat_socks.Text.Ip.{Ipv4Addr, show_v4, read_given_char, all_read}
use tailcat_socks.Text.Ip.RoundTrip.{read_ipv4_addr-show_v4}
use tailcat_socks.Text.Ipv6.{
  Ipv6Addr, fmt_subslice, fmt_groups, Span, longest_zeroes, no_span, to_ipv4_mapped, show_v6,
  show_groups, read_groups, read_tail, read_behind_head, read_ipv6_addr, parse_v6,
}
use tailcat_socks.Text.Ipv6.Plain.{fmt_subslice-IsPlain}
use tailcat_socks.Text.Ipv6.Reading.{AllGroups, only_groups, read_groups-group_text}
use tailcat_socks.Text.Ipv6.Mapped.{IsMapped, to_ipv4_mapped-IsMapped, read_mapped}
use tailcat_socks.Text.Ipv6.Zeroes.{IsRun, longest_zeroes-IsRun}

-- Eight groups of sixteen bits.
pub record IsIpv6 (ip : Ipv6Addr) : Type 0 where
  pub eight : length ip.segments ≡ 8
  pub small : AllGroups ip.segments

pub length-zeroes : (n : ℕ) → length {A = ℕ} (replicate n 0) ≡ n
length-zeroes zero = refl
length-zeroes (suc n) = omega (arith, length-zeroes n)

-- A text of groups is read to its end.
read_whole :
    (gs : List ℕ) (left : ℕ)
    → AllGroups gs
    → length gs ≤ left
    → read_groups left 0 (fmt_subslice gs) ≡ only_groups gs []
read_whole gs left h room =
    ap (read_groups left 0) (sym (append-nil (fmt_subslice gs)))
    ∙ read_groups-group_text gs left 0 [] h room tt tt

read_full :
    (gs : List ℕ)
    → length gs ≡ 8
    → AllGroups gs
    → read_ipv6_addr (fmt_subslice gs) ≡ some (record { segments = gs }, [])
unfolding read_ipv6_addr
read_full gs e h = ap read_behind_head (read_whole gs 8 h (omega (arith, e))) ∙ full
  where
    full : read_behind_head (only_groups gs []) ≡ some (record { segments = gs }, [])
    full = unfold read_behind_head in ground (arith, e)

module _ (head : List ℕ) (n : ℕ) (tail : List ℕ) (long : 1 < n)
    (whole : length head + n + length tail ≡ 8) where
  read_tail-fmt_subslice :
      AllGroups tail
      → read_tail head (fmt_subslice tail)
        ≡ some (record { segments = head ++ (replicate n 0 ++ tail) }, [])
  unfolding read_tail
  read_tail-fmt_subslice h =
      let left : 8 - length head - length tail ≡ n = omega (arith, whole) in
      rw (read_whole tail (7 - length head) h (omega (arith, whole, long)), left)

  read_short :
      AllGroups head
      → AllGroups tail
      → read_ipv6_addr (fmt_subslice head ++ (codes "::" ++ fmt_subslice tail))
        ≡ some (record { segments = head ++ (replicate n 0 ++ tail) }, [])
  unfolding read_ipv6_addr read_given_char
  read_short h k = ap read_behind_head front ∙ behind ∙ read_tail-fmt_subslice k
    where
      rest : Bytes
      rest = codes "::" ++ fmt_subslice tail

      front : read_groups 8 0 (fmt_subslice head ++ rest) ≡ only_groups head rest
      front =
          read_groups-group_text head 8 0 rest h (omega (arith, whole))
            ((refl, refl), ((refl, refl), fmt_subslice-IsPlain tail)) (refl, refl)

      behind : read_behind_head (only_groups head rest) ≡ read_tail head (fmt_subslice tail)
      behind =
          let short : (length head == 8) ≡ false = ground (arith, whole, long) in
          unfold read_behind_head in rw short refl

module _ (gs : List ℕ) (span : Span) (run : IsRun gs span) (long : 1 < span.len) where
  started : length run.front ≡ span.start
  started = ground (arith, run.starts, long)

  take_front : take span.start gs ≡ run.front
  take_front =
      subst (λ n. take n gs ≡ run.front) started
        (ap (take (length run.front)) run.cut
          ∙ take-append run.front (replicate span.len 0 ++ run.back))

  drop_run : drop (span.start + span.len) gs ≡ run.back
  drop_run =
      ap (λ n. drop n gs) (sym sizes)
      ∙ ap (drop (length before)) (run.cut ∙ sym (append_assoc run.front zeroes run.back))
      ∙ drop-append before run.back
    where
      zeroes : List ℕ
      zeroes = replicate span.len 0

      before : List ℕ
      before = run.front ++ zeroes

      sizes : length before ≡ span.start + span.len
      sizes = omega (arith, started, length-append run.front zeroes, length-zeroes span.len)

-- The text is read back, whether a run of zeroes is left out or not.
read-fmt_groups :
    (gs : List ℕ) (span : Span)
    → length gs ≡ 8
    → AllGroups gs
    → IsRun gs span
    → read_ipv6_addr (fmt_groups gs span) ≡ some (record { segments = gs }, [])
unfolding fmt_groups
read-fmt_groups gs span eight small run = elim (Bool-cases (ltb 1 span.len)) [
  | inr short ↦ rw short (read_full gs eight small)
  | inl long ↦
      let longer : 1 < span.len = ground (arith, long) in
      rw (long, take_front gs span run longer, drop_run gs span run longer)
        (read_short run.front span.len run.back longer sizes all_front all_back
          ∙ ap (λ xs. some (record { segments = xs }, [])) (sym run.cut))
]
  where
    zeroes : List ℕ
    zeroes = replicate span.len 0

    all : AllGroups (run.front ++ (zeroes ++ run.back))
    all = subst AllGroups run.cut small

    all_front : AllGroups run.front
    all_front = All-front _ run.front (zeroes ++ run.back) all

    all_back : AllGroups run.back
    all_back = All-back _ zeroes run.back (All-back _ run.front (zeroes ++ run.back) all)

    sizes : length run.front + span.len + length run.back ≡ 8
    sizes = omega (
      arith,
      ap length run.cut,
      eight,
      length-append run.front (zeroes ++ run.back),
      length-append zeroes run.back,
      length-zeroes span.len,
    )

-- What the text is: that of the groups, or of the IPv4 address in them.
pub show_v6_cases :
    (ip : Ipv6Addr)
    → IsIpv6 ip
    → (show_v6 ip ≡ fmt_groups ip.segments (longest_zeroes 0 ip.segments no_span no_span))
      ⊎ ((ip4 : Ipv4Addr) × (IsMapped ip.segments ip4
            × (show_v6 ip ≡ codes "::ffff:" ++ show_v4 ip4)))
unfolding show_v6 show_groups
show_v6_cases ip h = elim (Option-cases (to_ipv4_mapped ip.segments)) [
  | inl plain ↦ inl (ap (show_groups ip.segments) plain)
  | inr (ip4, e) ↦ inr (
    ip4,
    (to_ipv4_mapped-IsMapped ip.segments ip4 h.eight h.small e, ap (show_groups ip.segments) e),
  )
]

read_ipv6_addr-show_v6 : (ip : Ipv6Addr) → IsIpv6 ip → read_ipv6_addr (show_v6 ip) ≡ some (ip, [])
read_ipv6_addr-show_v6 ip h = elim (show_v6_cases ip h) [
  | inl plain ↦
      rw plain (read-fmt_groups ip.segments _ h.eight h.small (longest_zeroes-IsRun ip.segments))
  | inr (ip4, (m, e)) ↦ rw e (
      read_mapped (show_v4 ip4) ip4 (read_ipv4_addr-show_v4 ip4 m.fits)
      ∙ ap (λ gs. some (record { segments = gs }, [])) (sym m.whole))
]

-- An address is parsed back from its text.
pub parse_v6-show_v6 : (ip : Ipv6Addr) → IsIpv6 ip → parse_v6 (show_v6 ip) ≡ some ip
unfolding parse_v6
parse_v6-show_v6 ip h = ap all_read (read_ipv6_addr-show_v6 ip h)
