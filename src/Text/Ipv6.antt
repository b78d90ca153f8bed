-- ===== src/Text/Ipv6.antt =====
-- `Ipv6Addr` of `std`: eight groups of sixteen bits, their text after RFC 5952, and the parser.
pub mod Hex
pub mod Zeroes
pub mod Plain
pub mod Reading
pub mod Mapped
pub mod RoundTrip
pub mod Octets
pub mod Eight
use tailcat_socks.Base.{
  ℕ, zero, suc, ◌+◌, ◌-◌, ◌*◌, ◌/◌, ◌%◌, Bool, true, false, ◌&&◌, List, [], ◌∷◌, ◌++◌, Option, none,
  some, ltb, ◌==◌, if◌then◌else◌, length, take, drop, replicate,
}
use tailcat_socks.Base.Bytes.{Bytes, codes}
use tailcat_socks.Text.Ip.{
  Ipv4Addr, show_v4, Parse, read_number, read_given_char, read_separator, read_ipv4_addr, all_read,
}

pub record Ipv6Addr : Type 0 where
  pub segments : List ℕ

-- `Ipv6Addr::from([u8; 16])`
unfoldable pub of_octets : Bytes → List ℕ
of_octets [] = []
of_octets (hi ∷ []) = []
of_octets (hi ∷ lo ∷ bs) = (hi * 256 + lo) ∷ of_octets bs

-- `octets()`
unfoldable pub v6_octets : List ℕ → Bytes
v6_octets [] = []
v6_octets (g ∷ gs) = (g / 256) ∷ (g % 256) ∷ v6_octets gs

hex_digit : ℕ → ℕ
hex_digit d = if ltb d 10 then b'0' + d else b'a' + (d - 10)

-- `{:x}` of a group, which has four digits at most.
pub show_hex : ℕ → ℕ → Bytes
unfolding hex_digit
show_hex zero n = []
show_hex (suc fuel) n =
    let front = show_hex fuel (n / 16) in
    if ltb n 16 then hex_digit n ∷ [] else front ++ hex_digit (n % 16) ∷ []

pub record Span : Type 0 where
  pub start : ℕ
  pub len : ℕ

-- The loop that finds the first of the longest runs of zero groups.
pub longest_zeroes : ℕ → List ℕ → Span → Span → Span
longest_zeroes i [] longest current = longest
longest_zeroes i (g ∷ gs) longest current =
    let start = if current.len == 0 then i else current.start in
    let grown : Span = record { start = start; len = current.len + 1 } in
    let next = if g == 0 then grown else record { start = 0; len = 0 } in
    longest_zeroes (i + 1) gs (if g == 0 && ltb longest.len grown.len then grown else longest) next

-- `fmt_subslice`
pub colon_tail : List ℕ → Bytes
colon_tail [] = []
colon_tail (g ∷ gs) = b':' ∷ (show_hex 4 g ++ colon_tail gs)

pub fmt_subslice : List ℕ → Bytes
unfolding show_hex colon_tail
fmt_subslice [] = []
fmt_subslice (g ∷ gs) = show_hex 4 g ++ colon_tail gs

pub fmt_groups : List ℕ → Span → Bytes
unfolding fmt_subslice
fmt_groups gs zeroes =
    if ltb 1 zeroes.len
    then fmt_subslice (take zeroes.start gs)
      ++ (codes "::" ++ fmt_subslice (drop (zeroes.start + zeroes.len) gs))
    else fmt_subslice gs

abbrev no_span : Span
no_span = record { start = 0; len = 0 }

-- `to_ipv4_mapped`: the last two groups, if the six before them are those of `::ffff:0:0/96`.
pub to_ipv4_mapped : List ℕ → Option Ipv4Addr
to_ipv4_mapped (g0 ∷ g1 ∷ g2 ∷ g3 ∷ g4 ∷ g5 ∷ g6 ∷ g7 ∷ []) =
    if g0 == 0 && g1 == 0 && g2 == 0 && g3 == 0 && g4 == 0 && g5 == 0xFFFF
    then some (record { a = g6 / 256; b = g6 % 256; c = g7 / 256; d = g7 % 256 })
    else none
to_ipv4_mapped _ = none

pub show_groups : List ℕ → Option Ipv4Addr → Bytes
unfolding fmt_groups longest_zeroes
show_groups gs (some ip4) = codes "::ffff:" ++ show_v4 ip4
show_groups gs none = fmt_groups gs (longest_zeroes 0 gs no_span no_span)

unfoldable pub show_v6 : Ipv6Addr → Bytes
unfolding to_ipv4_mapped show_groups
show_v6 ip = show_groups ip.segments (to_ipv4_mapped ip.segments)

abbrev read_hex_group : ℕ → Bytes → Parse ℕ
read_hex_group i = read_separator b':' i (read_number 16 4 65536 true)

-- What `read_groups` fills in: the groups, whether the last two are an IPv4 address, and the rest.
pub record Groups : Type 0 where
  pub groups : List ℕ
  pub ends_v4 : Bool
  pub rest : Bytes

pub v4_groups : Ipv4Addr → Bytes → Groups
v4_groups ip s = record {
  groups = (ip.a * 256 + ip.b) ∷ (ip.c * 256 + ip.d) ∷ [];
  ends_v4 = true;
  rest = s;
}

-- An embedded IPv4 address, where two groups are left for it.
try_v4 : ℕ → ℕ → Bytes → Parse Ipv4Addr
try_v4 left i s = if ltb 1 left then read_separator b':' i read_ipv4_addr s else none

pub read_groups : ℕ → ℕ → Bytes → Groups
unfolding v4_groups try_v4
read_groups zero i s = record { groups = []; ends_v4 = false; rest = s }
read_groups (suc left) i s = elim (try_v4 (suc left) i s) [
  | some (ip, t) ↦ v4_groups ip t
  | none ↦ elim (read_hex_group i s) [
    | none ↦ record { groups = []; ends_v4 = false; rest = s }
    | some (g, t) ↦
        let more = read_groups left (i + 1) t in
        record { groups = g ∷ more.groups; ends_v4 = more.ends_v4; rest = more.rest }
  ]
]

-- The groups behind `::`, with the zeroes that it stands for in front.
read_tail : List ℕ → Bytes → Parse Ipv6Addr
unfolding read_groups
read_tail head s =
    let tail = read_groups (7 - length head) 0 s in
    let zeroes = replicate (8 - length head - length tail.groups) 0 in
    some (record { segments = head ++ (zeroes ++ tail.groups) }, tail.rest)

read_double_colon : Bytes → Option Bytes
read_double_colon s = elim (read_given_char b':' s) [
  | none ↦ none
  | some t ↦ read_given_char b':' t
]

read_behind_head : Groups → Parse Ipv6Addr
unfolding read_double_colon read_tail
read_behind_head head =
    if length head.groups == 8
    then some (record { segments = head.groups }, head.rest)
    else if head.ends_v4
    then none
    else elim (read_double_colon head.rest) [ none ↦ none | some t ↦ read_tail head.groups t ]

unfoldable pub read_ipv6_addr : Bytes → Parse Ipv6Addr
unfolding read_groups read_behind_head
read_ipv6_addr s = read_behind_head (read_groups 8 0 s)

-- `str::parse::<Ipv6Addr>`
unfoldable pub parse_v6 : Bytes → Option Ipv6Addr
unfolding read_ipv6_addr
parse_v6 s = all_read (read_ipv6_addr s)
