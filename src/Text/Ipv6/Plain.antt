-- ===== src/Text/Ipv6/Plain.antt =====
-- The text of the groups of an IPv6 address has no dot, and no IPv4 address is read from such a text.
use tailcat_socks.Base.{
  ℕ, zero, suc, ◌+◌, ◌*◌, ◌/◌, ◌%◌, ◌<◌, ◌≡◌, refl, ◌∙◌, inl, inr, Bool, true, false, Bool-cases,
  List, [], ◌∷◌, Option, Option-cases, none, some, arith, ltb, ◌==◌, leb, not, ◌&&◌, subst,
  if◌then◌else◌, All, All-append, take, drop,
}
use tailcat_socks.Base.Bytes.{Bytes}
use tailcat_socks.Text.Utf8.{is_ascii}
use tailcat_socks.Text.Ip.{
  Parse, to_digit, read_digits, finish_number, read_number, read_given_char, read_separator,
  read_ipv4_addr,
}
use tailcat_socks.Text.Ipv6.{hex_digit, show_hex, colon_tail, fmt_subslice, fmt_groups, Span}

-- A character of ASCII that is not a dot.
abbrev pub IsPlain : ℕ → Type 0
IsPlain c = (is_ascii c ≡ true) × ((c == b'.') ≡ false)

abbrev pub AllPlain : Bytes → Type 0
AllPlain = All IsPlain

hex_digit-IsPlain : (d : ℕ) → d < 16 → IsPlain (hex_digit d)
unfolding hex_digit
hex_digit-IsPlain d h = (ground arith, ground arith)

show_hex-IsPlain : (f n : ℕ) → AllPlain (show_hex f n)
unfolding show_hex
show_hex-IsPlain zero n = tt
show_hex-IsPlain (suc f) n = elim (Bool-cases (ltb n 16)) [
  | inl one ↦ rw one (hex_digit-IsPlain n (ground (arith, one)), tt)
  | inr more ↦ rw more (
      All-append _ (show_hex f (n / 16)) _ (show_hex-IsPlain f (n / 16))
        (hex_digit-IsPlain (n % 16) (omega arith), tt))
]

pub colon_tail-IsPlain : (gs : List ℕ) → AllPlain (colon_tail gs)
unfolding colon_tail
colon_tail-IsPlain [] = tt
colon_tail-IsPlain (g ∷ gs) =
    ((refl, refl), All-append _ (show_hex 4 g) _ (show_hex-IsPlain 4 g) (colon_tail-IsPlain gs))

pub fmt_subslice-IsPlain : (gs : List ℕ) → AllPlain (fmt_subslice gs)
unfolding fmt_subslice
fmt_subslice-IsPlain [] = tt
fmt_subslice-IsPlain (g ∷ gs) =
    All-append _ (show_hex 4 g) _ (show_hex-IsPlain 4 g) (colon_tail-IsPlain gs)

pub fmt_groups-AllPlain : (gs : List ℕ) (span : Span) → AllPlain (fmt_groups gs span)
unfolding fmt_groups
fmt_groups-AllPlain gs span = elim (Bool-cases (ltb 1 span.len)) [
  | inr short ↦ rw short (fmt_subslice-IsPlain gs)
  | inl long ↦ rw long (
      All-append _ (fmt_subslice (take span.start gs)) _ (fmt_subslice-IsPlain (take span.start gs))
        ((refl, refl), ((refl, refl), fmt_subslice-IsPlain (drop (span.start + span.len) gs))))
]

-- Nothing but plain characters is left.
abbrev Left : {A : Type 0} → Parse A → Type 0
Left none = Unit
Left (some (x, s)) = AllPlain s

read_digits-Left :
    (radix max count value : ℕ) (s : Bytes)
    → AllPlain s
    → Left (read_digits radix max count value s)
unfolding read_digits
read_digits-Left radix max count value [] h = tt
read_digits-Left radix max count value (c ∷ s) h =
    go (to_digit radix c) (ltb max (count + 1))
      (λ v. read_digits-Left radix max (count + 1) v s h.1)
  where
    go :
        (d : Option ℕ) (full : Bool)
        → ((v : ℕ) → Left {A = ℕ × ℕ} (read_digits radix max (count + 1) v s))
        → Left {A = ℕ × ℕ} (elim d [
          | none ↦ some ((count, value), c ∷ s)
          | some d ↦ if full then none else read_digits radix max (count + 1) (value * radix + d) s
        ])
    go none full more = h
    go (some d) true more = tt
    go (some d) false more = more (value * radix + d)

finish_number-Left :
    (limit : ℕ) (allow_zero_prefix leading : Bool) (r : Parse (ℕ × ℕ))
    → Left r
    → Left (finish_number limit allow_zero_prefix leading r)
unfolding finish_number
finish_number-Left limit allow leading none h = tt
finish_number-Left limit allow leading (some ((count, value), s)) h =
    elim (Bool-cases (leb limit value)) [
      | inl large ↦ rw large tt
      | inr fits ↦ elim (Bool-cases (count == 0)) [
        | inl nothing ↦ rw (fits, nothing) tt
        | inr some_digits ↦ elim (Bool-cases (not allow && leading && ltb 1 count)) [
          | inl zero_first ↦ rw (fits, some_digits, zero_first) tt
          | inr good ↦ rw (fits, some_digits, good) h
        ]
      ]
    ]

octet-Left : (s : Bytes) → AllPlain s → Left (read_number 10 3 256 false s)
unfolding read_number
octet-Left s h = finish_number-Left 256 false _ _ (read_digits-Left 10 3 0 0 s h)

no_dot : (s : Bytes) → AllPlain s → read_given_char b'.' s ≡ none
unfolding read_given_char
no_dot [] h = refl
no_dot (c ∷ s) h = rw (h.0.1) refl

module _ {A : Type 0} (inner : Bytes → Parse A) (s : Bytes) where
  first_part : read_separator b'.' 0 inner s ≡ inner s
  unfolding read_separator
  first_part = refl

  no_next_part : (i : ℕ) → AllPlain s → read_separator b'.' (suc i) inner s ≡ none
  unfolding read_separator
  no_next_part i h = rw (read_separator, no_dot s h)

-- The address has dots, so there is none in a plain text.
pub read_ipv4_addr-AllPlain : (s : Bytes) → AllPlain s → read_ipv4_addr s ≡ none
unfolding read_ipv4_addr
read_ipv4_addr-AllPlain s h =
    let octet = read_number 10 3 256 false in
    elim (Option-cases (octet s)) [
      | inl nothing ↦ rw (first_part octet s ∙ nothing)
      | inr ((x, t), e) ↦
          rw (first_part octet s ∙ e, no_next_part octet t 0 (subst Left e (octet-Left s h)))
    ]
