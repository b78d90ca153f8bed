-- ===== src/Text/Ipv6/Eight.antt =====
-- What the parser of IPv6 addresses returns has eight groups of sixteen bits.
use tailcat_socks.Base.{
  ℕ, zero, suc, ◌+◌, ◌-◌, ◌<◌, ◌≤◌, ◌≡◌, Bool-cases, inl, inr, List, [], ◌∷◌, Option, Option-cases,
  none, some, arith, ◌==◌, length, length-append, All-append, replicate, ◌++◌, ltb, true, false,
}
use tailcat_socks.Base.Bytes.{Bytes}
use tailcat_socks.Text.Ip.{Ipv4Addr, Parse, read_ipv4_addr, read_number}
use tailcat_socks.Text.Ip.RoundTrip.{IsIpv4}
use tailcat_socks.Text.Ip.Bounds.{
  Read, read_number-Read, read_separator-Read, read_ipv4_addr-Read, all_read-Read,
}
use tailcat_socks.Text.Ipv6.Reading.{AllGroups}
use tailcat_socks.Text.Ipv6.{
  Ipv6Addr, Groups, try_v4, v4_groups, read_hex_group, read_groups, read_tail, read_double_colon,
  read_behind_head, read_ipv6_addr, parse_v6,
}
use tailcat_socks.Text.Ipv6.RoundTrip.{IsIpv6, length-zeroes}

abbrev IsGroup : ℕ → Type 0
IsGroup g = g < 65536

-- One step of `read_groups`, on what its two attempts gave.
abbrev groups_of : ℕ → ℕ → Bytes → Parse Ipv4Addr → Parse ℕ → Groups
groups_of left i s v h = elim v [
  | some (ip, t) ↦ v4_groups ip t
  | none ↦ elim h [
    | none ↦ record { groups = []; ends_v4 = false; rest = s }
    | some (g, t) ↦
        let more = read_groups left (i + 1) t in
        record { groups = g ∷ more.groups; ends_v4 = more.ends_v4; rest = more.rest }
  ]
]

-- No more groups are read than there is room for.
length-read_groups : (left i : ℕ) (s : Bytes) → length (read_groups left i s).groups ≤ left
unfolding read_groups
length-read_groups zero i s = omega arith
length-read_groups (suc left) i s = elim (Option-cases (read_hex_group i s)) [
  | inl e ↦ ground (arith, e)
  | inr ((g, t), e) ↦ ground (arith, e, length-read_groups left (i + 1) t)
]

try_v4-Read : (left i : ℕ) (s : Bytes) → Read IsIpv4 (try_v4 left i s)
unfolding try_v4
try_v4-Read left i s = elim (Bool-cases (ltb 1 left)) [
  | inl room ↦ rw room (read_separator-Read IsIpv4 b':' i read_ipv4_addr s read_ipv4_addr-Read)
  | inr full ↦ rw full tt
]

read_hex_group-Read : (i : ℕ) (s : Bytes) → Read IsGroup (read_hex_group i s)
read_hex_group-Read i s =
    read_separator-Read IsGroup b':' i (read_number 16 4 65536 true) s
      (read_number-Read 16 4 65536 true)

read_groups-AllGroups : (left i : ℕ) (s : Bytes) → AllGroups (read_groups left i s).groups
unfolding read_groups v4_groups try_v4
read_groups-AllGroups zero i s = tt
read_groups-AllGroups (suc left) i s =
    go (try_v4 (suc left) i s) (read_hex_group i s) (try_v4-Read (suc left) i s)
      (read_hex_group-Read i s) (λ t. read_groups-AllGroups left (i + 1) t)
  where
    go :
        (v : Parse Ipv4Addr) (h : Parse ℕ)
        → Read IsIpv4 v
        → Read IsGroup h
        → ((t : Bytes) → AllGroups (read_groups left (i + 1) t).groups)
        → AllGroups (groups_of left i s v h).groups
    go (some (ip, t)) h fits small more =
        (omega (arith, fits.a, fits.b), (omega (arith, fits.c, fits.d), tt))
    go none none fits small more = tt
    go none (some (g, t)) fits small more = (small, more t)

zeroes-AllGroups : (n : ℕ) → AllGroups (replicate n 0)
zeroes-AllGroups zero = tt
zeroes-AllGroups (suc n) = (omega arith, zeroes-AllGroups n)

tail-Read :
    (head : List ℕ) (s : Bytes) → length head < 8 → AllGroups head → Read IsIpv6 (read_tail head s)
unfolding read_tail
tail-Read head s h small =
    let tail = read_groups (7 - length head) 0 s in
    let n = 8 - length head - length tail.groups in
    record {
      eight = omega (
        arith,
        h,
        length-append head (replicate n 0 ++ tail.groups),
        length-append (replicate n 0) tail.groups,
        length-zeroes n,
        length-read_groups (7 - length head) 0 s,
      );
      small = All-append _ head _ small (
          All-append _ (replicate n 0) _ (zeroes-AllGroups n)
            (read_groups-AllGroups (7 - length head) 0 s));
    }

behind-Read :
    (head : Groups)
    → length head.groups ≤ 8
    → AllGroups head.groups
    → Read IsIpv6 (read_behind_head head)
unfolding read_behind_head
behind-Read head h small = elim (Bool-cases (length head.groups == 8)) [
  | inl full ↦ rw full (record { eight = ground (arith, full); small = small })
  | inr short ↦ elim (Bool-cases head.ends_v4) [
    | inl v4 ↦ rw (short, v4) tt
    | inr more ↦ rw (short, more) (behind (read_double_colon head.rest) (ground (arith, short, h)))
  ]
]
  where
    behind :
        (r : Option Bytes)
        → length head.groups < 8
        → Read IsIpv6 (elim r [ none ↦ none | some t ↦ read_tail head.groups t ])
    behind none k = tt
    behind (some t) k = tail-Read head.groups t k small

pub parse_v6-IsIpv6 : (s : Bytes) (ip : Ipv6Addr) → parse_v6 s ≡ some ip → IsIpv6 ip
unfolding parse_v6 read_ipv6_addr
parse_v6-IsIpv6 s ip e =
    all_read-Read IsIpv6 (read_ipv6_addr s) ip
      (behind-Read (read_groups 8 0 s) (length-read_groups 8 0 s) (read_groups-AllGroups 8 0 s)) e
