-- ===== src/Text/Ip/RoundTrip.antt =====
-- The text of an IPv4 address is parsed back to the address.
use tailcat_socks.Base.{
  ℕ, suc, ◌+◌, ◌-◌, ◌*◌, ◌/◌, ◌%◌, ◌≤◌, ◌<◌, ◌≡◌, refl, ap, ◌⊎◌, inl, inr, ◌∙◌, Bool, false, [],
  ◌∷◌, ◌++◌, append-nil, none, some, arith, ltb, length, length-append,
}
use native.Mathlib.Decide.{dec_lt}
use tailcat_socks.Base.Bytes.{Bytes}
use tailcat_socks.Text.Decimal.{show_dec, digits_small, digits_large}
use tailcat_socks.Text.Ip.{
  Ipv4Addr, show_v4, to_digit, read_digits, finish_number, starts_zero, read_number, read_separator,
  read_ipv4_addr, parse_v4, all_read,
}

-- No digit stands in front of `s`.
abbrev pub StopsAt : ℕ → Bytes → Type 0
StopsAt radix [] = Unit
StopsAt radix (c ∷ s) = to_digit radix c ≡ none

show_one : (n : ℕ) → n < 10 → show_dec n ≡ (b'0' + n) ∷ []
unfolding show_dec
show_one n h = digits_small 19 n h

show_two : (n : ℕ) → 10 ≤ n → n < 100 → show_dec n ≡ (b'0' + n / 10) ∷ (b'0' + n % 10) ∷ []
unfolding show_dec
show_two n h k = digits_large 19 n h ∙ rw (digits_small 18 (n / 10) (omega arith))

show_three :
    (n : ℕ)
    → 100 ≤ n
    → n < 1000
    → show_dec n ≡ (b'0' + n / 10 / 10) ∷ (b'0' + n / 10 % 10) ∷ (b'0' + n % 10) ∷ []
unfolding show_dec
show_three n h k =
    digits_large 19 n (omega arith)
    ∙ rw (digits_large 18 (n / 10) (omega arith), digits_small 17 (n / 10 / 10) (omega arith))

to_digit_dec : (d : ℕ) → d < 10 → to_digit 10 (b'0' + d) ≡ some d
to_digit_dec d h = let same : b'0' + d - b'0' ≡ d = omega arith in ground arith

read_digits_step :
    (max count value d : ℕ) (s : Bytes)
    → d < 10
    → count + 1 ≤ max
    → read_digits 10 max count value ((b'0' + d) ∷ s)
      ≡ read_digits 10 max (count + 1) (value * 10 + d) s
read_digits_step max count value d s h k =
    let fits : ltb max (count + 1) ≡ false = ground arith in
    unfold read_digits in rw (to_digit_dec d h, read_digits) (rw fits)

read_digits_stop :
    (max count value : ℕ) (s : Bytes)
    → StopsAt 10 s
    → read_digits 10 max count value s ≡ some ((count, value), s)
unfolding read_digits
read_digits_stop max count value [] h = refl
read_digits_stop max count value (c ∷ s) h = rw (h, read_digits)

-- An octet that has been read to its end is accepted.
finish_octet :
    (n count : ℕ) (leading : Bool) (s : Bytes)
    → n < 256
    → 0 < count
    → (leading ≡ false) ⊎ (count ≡ 1)
    → finish_number 256 false leading (some ((count, n), s)) ≡ some (n, s)
unfolding finish_number
finish_octet n count leading s h k l = ground arith

module _ (s : Bytes) (stop : StopsAt 10 s) where
  digits_end :
      (count value n : ℕ) → value ≡ n → read_digits 10 3 count value s ≡ some ((count, n), s)
  digits_end count value n e =
      read_digits_stop 3 count value s stop ∙ ap (λ v. some ((count, v), s)) e

  read_one : (n : ℕ) → n < 10 → read_number 10 3 256 false (show_dec n ++ s) ≡ some (n, s)
  unfolding read_number
  read_one n h = rw (show_one n h) (
      ap (finish_number 256 false (starts_zero ((b'0' + n) ∷ s)))
        (read_digits_step 3 0 0 n s h (omega arith) ∙ digits_end 1 (0 * 10 + n) n (omega arith))
      ∙ finish_octet n 1 _ s (omega arith) (omega arith) (inr refl))

  read_two : (n : ℕ) → 10 ≤ n → n < 100 → read_number 10 3 256 false (show_dec n ++ s) ≡ some (n, s)
  unfolding read_number
  read_two n h k = rw (show_two n h k) (
      ap (finish_number 256 false (starts_zero ((b'0' + n / 10) ∷ (b'0' + n % 10) ∷ s))) (
        read_digits_step 3 0 0 (n / 10) ((b'0' + n % 10) ∷ s) (omega arith) (omega arith)
        ∙ read_digits_step 3 1 (0 * 10 + n / 10) (n % 10) s (omega arith) (omega arith)
        ∙ digits_end 2 _ n (omega arith))
      ∙ finish_octet n 2 _ s (omega arith) (omega arith) (inl (ground arith)))

  read_three :
      (n : ℕ) → 100 ≤ n → n < 256 → read_number 10 3 256 false (show_dec n ++ s) ≡ some (n, s)
  unfolding read_number
  read_three n h k = rw (show_three n h (omega arith)) (
      ap
        (finish_number 256 false
          (starts_zero ((b'0' + n / 10 / 10) ∷ (b'0' + n / 10 % 10) ∷ (b'0' + n % 10) ∷ s)))
        (read_digits_step 3 0 0 (n / 10 / 10) ((b'0' + n / 10 % 10) ∷ (b'0' + n % 10) ∷ s)
            (omega arith) (omega arith)
          ∙ read_digits_step 3 1 (0 * 10 + n / 10 / 10) (n / 10 % 10) ((b'0' + n % 10) ∷ s)
              (omega arith) (omega arith)
          ∙ read_digits_step 3 2 ((0 * 10 + n / 10 / 10) * 10 + n / 10 % 10) (n % 10) s
              (omega arith) (omega arith)
          ∙ digits_end 3 _ n (omega arith))
      ∙ finish_octet n 3 _ s (omega arith) (omega arith) (inl (ground arith)))

  -- An octet is read back, whatever stands behind it, unless that starts with a digit.
  read_number-show_dec :
      (n : ℕ) → n < 256 → read_number 10 3 256 false (show_dec n ++ s) ≡ some (n, s)
  read_number-show_dec n h = elim (dec_lt n 10) [
    | yes one ↦ read_one n one
    | no more ↦ elim (dec_lt n 100) [
      | yes two ↦ read_two n (omega arith) two
      | no three ↦ read_three n (omega arith) h
    ]
  ]

-- The octets fit a byte.
pub record IsIpv4 (ip : Ipv4Addr) : Type 0 where
  pub a : ip.a < 256
  pub b : ip.b < 256
  pub c : ip.c < 256
  pub d : ip.d < 256

length-show_octet : (n : ℕ) → n < 256 → length (show_dec n) ≤ 3
length-show_octet n h = elim (dec_lt n 10) [
  | yes one ↦ rw (show_one n one) (omega arith)
  | no more ↦ elim (dec_lt n 100) [
    | yes two ↦ rw (show_two n (omega arith) two) (omega arith)
    | no three ↦ rw (show_three n (omega arith) (omega arith)) (omega arith)
  ]
]

length-show_v4 : (ip : Ipv4Addr) → IsIpv4 ip → length (show_v4 ip) ≤ 15
unfolding show_v4
length-show_v4 ip h = omega (
  arith,
  length-show_octet ip.a h.a,
  length-show_octet ip.b h.b,
  length-show_octet ip.c h.c,
  length-show_octet ip.d h.d,
  length-append {0},
)

octet_behind_dot :
    (i n : ℕ) (s : Bytes)
    → n < 256
    → StopsAt 10 s
    → read_separator b'.' (suc i) (read_number 10 3 256 false) (b'.' ∷ (show_dec n ++ s))
      ≡ some (n, s)
octet_behind_dot i n s h stop = unfold read_separator in read_number-show_dec s stop n h

first_octet :
    (n : ℕ) (s : Bytes)
    → n < 256
    → StopsAt 10 s
    → read_separator b'.' 0 (read_number 10 3 256 false) (show_dec n ++ s) ≡ some (n, s)
first_octet n s h stop = unfold read_separator in read_number-show_dec s stop n h

read_ipv4_addr-show_octets :
    (ip : Ipv4Addr) (s : Bytes)
    → IsIpv4 ip
    → StopsAt 10 s
    → read_ipv4_addr (
        show_dec ip.a
        ++ (b'.' ∷ (show_dec ip.b ++ (b'.' ∷ (show_dec ip.c ++ (b'.' ∷ (show_dec ip.d ++ s)))))))
      ≡ some (ip, s)
unfolding read_ipv4_addr
read_ipv4_addr-show_octets ip s h stop = rw (
  first_octet ip.a _ h.a refl,
  octet_behind_dot 0 ip.b _ h.b refl,
  octet_behind_dot 1 ip.c _ h.c refl,
  octet_behind_dot 2 ip.d s h.d stop,
)

pub read_ipv4_addr-show_v4 :
    (ip : Ipv4Addr) → IsIpv4 ip → read_ipv4_addr (show_v4 ip) ≡ some (ip, [])
read_ipv4_addr-show_v4 ip h = whole ∙ read_ipv4_addr-show_octets ip [] h tt
  where
    whole :
        read_ipv4_addr (show_v4 ip)
        ≡ read_ipv4_addr (
            show_dec ip.a
            ++ (b'.'
                ∷ (show_dec ip.b ++ (b'.' ∷ (show_dec ip.c ++ (b'.' ∷ (show_dec ip.d ++ [])))))))
    whole = unfold show_v4 in rw append-nil

-- An address of four bytes is parsed back from its text.
pub parse_v4-show_v4 : (ip : Ipv4Addr) → IsIpv4 ip → parse_v4 (show_v4 ip) ≡ some ip
parse_v4-show_v4 ip h =
    let short : ltb 15 (length (show_v4 ip)) ≡ false = ground (arith, length-show_v4 ip h) in
    unfold parse_v4 in rw short (ap all_read (read_ipv4_addr-show_v4 ip h))
