-- ===== src/Text/Ip.antt =====
-- `Ipv4Addr` and `Ipv6Addr` of `std`: their text, and the parser behind `str::parse`.
pub mod RoundTrip
pub mod Bounds
use tailcat_socks.Base.{
  ℕ, zero, suc, ◌+◌, ◌-◌, ◌*◌, ◌/◌, ◌%◌, Bool, true, false, not, ◌&&◌, ◌||◌, List, [], ◌∷◌, ◌++◌,
  Option, none, some, ltb, leb, ◌==◌, if◌then◌else◌, length, take, drop,
}
use tailcat_socks.Base.Bytes.{Bytes, codes}
use tailcat_socks.Text.Decimal.{show_dec, is_digit}

pub record Ipv4Addr : Type 0 where
  pub a : ℕ
  pub b : ℕ
  pub c : ℕ
  pub d : ℕ

-- `octets()`
abbrev pub v4_octets : Ipv4Addr → Bytes
v4_octets ip = ip.a ∷ ip.b ∷ ip.c ∷ ip.d ∷ []

unfoldable pub show_v4 : Ipv4Addr → Bytes
show_v4 ip =
    show_dec ip.a ++ (b'.' ∷ (show_dec ip.b ++ (b'.' ∷ (show_dec ip.c ++ (b'.' ∷ show_dec ip.d)))))

-- `char::to_digit`
abbrev pub to_digit : ℕ → ℕ → Option ℕ
to_digit radix c =
    if is_digit c
    then some (c - b'0')
    else if radix == 16 && leb b'a' c && leb c b'f'
    then some (c - b'a' + 10)
    else if radix == 16 && leb b'A' c && leb c b'F'
    then some (c - b'A' + 10)
    else none

-- What a parser returns: a value and the text that is left.
abbrev pub Parse : Type 0 → Type 0
Parse A = Option (A × Bytes)

-- The loop over the digits of a number, with the count and the value so far; more than `max` digits
-- are refused.
unfoldable pub read_digits : ℕ → ℕ → ℕ → ℕ → Bytes → Parse (ℕ × ℕ)
read_digits radix max count value [] = some ((count, value), [])
read_digits radix max count value (c ∷ s) = elim (to_digit radix c) [
  | none ↦ some ((count, value), c ∷ s)
  | some d ↦
      if ltb max (count + 1) then none else read_digits radix max (count + 1) (value * radix + d) s
]

unfoldable pub starts_zero : Bytes → Bool
starts_zero [] = false
starts_zero (c ∷ s) = c == b'0'

-- `read_number`: the number fits below `limit`, and a zero in front may be refused.
unfoldable pub finish_number : ℕ → Bool → Bool → Parse (ℕ × ℕ) → Parse ℕ
finish_number limit allow_zero_prefix leading none = none
finish_number limit allow_zero_prefix leading (some ((count, value), rest)) =
    if leb limit value
    then none
    else if count == 0
    then none
    else if not allow_zero_prefix && leading && ltb 1 count
    then none
    else some (value, rest)

unfoldable pub read_number : ℕ → ℕ → ℕ → Bool → Bytes → Parse ℕ
unfolding finish_number starts_zero
read_number radix max limit allow_zero_prefix s =
    finish_number limit allow_zero_prefix (starts_zero s) (read_digits radix max 0 0 s)

-- `read_given_char`
unfoldable pub read_given_char : ℕ → Bytes → Option Bytes
read_given_char x [] = none
read_given_char x (c ∷ s) = if c == x then some s else none

-- `read_separator`
unfoldable pub read_separator : {A : Type 0} → ℕ → ℕ → (Bytes → Parse A) → Bytes → Parse A
unfolding read_given_char
read_separator sep zero inner s = inner s
read_separator sep (suc i) inner s = elim (read_given_char sep s) [ none ↦ none | some t ↦ inner t ]

abbrev read_octet : ℕ → Bytes → Parse ℕ
read_octet i = read_separator b'.' i (read_number 10 3 256 false)

infixl 5 ◌>>=◌
abbrev pub ◌>>=◌ : {A B : Type 0} → Parse A → (A × Bytes → Parse B) → Parse B
none >>= f = none
some a >>= f = f a

unfoldable pub read_ipv4_addr : Bytes → Parse Ipv4Addr
read_ipv4_addr s = do
  x ← read_octet 0 s
  y ← read_octet 1 x.1
  z ← read_octet 2 y.1
  w ← read_octet 3 z.1
  some (record { a = x.0; b = y.0; c = z.0; d = w.0 }, w.1)

-- `parse_with`: nothing may be left.
abbrev pub all_read : {A : Type 0} → Parse A → Option A
all_read none = none
all_read (some (x, [])) = some x
all_read (some (x, c ∷ s)) = none

-- `str::parse::<Ipv4Addr>`
unfoldable pub parse_v4 : Bytes → Option Ipv4Addr
parse_v4 s = if ltb 15 (length s) then none else all_read (read_ipv4_addr s)
