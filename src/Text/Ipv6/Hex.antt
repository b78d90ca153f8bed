-- ===== src/Text/Ipv6/Hex.antt =====
-- A group of an IPv6 address as hexadecimal text, and the reader of numbers on it.
use tailcat_socks.Base.{
  ℕ, suc, ◌+◌, ◌*◌, ◌/◌, ◌%◌, ◌≤◌, ◌<◌, ◌≡◌, refl, ap, ◌∙◌, Bool, true, false, [], ◌∷◌, ◌++◌,
  append_assoc, some, arith, ltb,
}
use native.Mathlib.Decide.{dec_lt}
use tailcat_socks.Base.Bytes.{Bytes}
use tailcat_socks.Text.Ip.{to_digit, read_digits, finish_number, starts_zero, read_number}
use tailcat_socks.Text.Ip.RoundTrip.{StopsAt}
use tailcat_socks.Text.Ipv6.{hex_digit, show_hex}

hex_small : (f n : ℕ) → n < 16 → show_hex (suc f) n ≡ hex_digit n ∷ []
unfolding show_hex
hex_small f n h = ground arith

hex_large : (f n : ℕ) → 16 ≤ n → show_hex (suc f) n ≡ show_hex f (n / 16) ++ hex_digit (n % 16) ∷ []
unfolding show_hex
hex_large f n h = ground arith

to_digit-hex_digit : (d : ℕ) → d < 16 → to_digit 16 (hex_digit d) ≡ some d
unfolding hex_digit
to_digit-hex_digit d h = ground arith

read_hex_digit :
    (count value d : ℕ) (s : Bytes)
    → d < 16
    → count < 4
    → read_digits 16 4 count value (hex_digit d ∷ s)
      ≡ read_digits 16 4 (count + 1) (value * 16 + d) s
read_hex_digit count value d s h k =
    let fits : ltb 4 (count + 1) ≡ false = ground arith in
    unfold read_digits in rw (to_digit-hex_digit d h, read_digits) (rw fits)

read_hex_stop :
    (count value : ℕ) (s : Bytes)
    → StopsAt 16 s
    → read_digits 16 4 count value s ≡ some ((count, value), s)
unfolding read_digits
read_hex_stop count value [] h = refl
read_hex_stop count value (c ∷ s) h = rw (h, read_digits)

-- The digits of a number below 16 to the power of 1, 2, 3 or 4 are read one by one.
one_digit :
    (n f count value : ℕ) (s : Bytes)
    → n < 16
    → count < 4
    → read_digits 16 4 count value (show_hex (suc f) n ++ s)
      ≡ read_digits 16 4 (count + 1) (value * 16 + n) s
one_digit n f count value s h k = rw (hex_small f n h) (read_hex_digit count value n s h k)

-- Behind the digits of the front, one digit more.
next_digit :
    (n f count value k v : ℕ) (s : Bytes)
    → 16 ≤ n
    → k < 4
    → read_digits 16 4 count value (show_hex f (n / 16) ++ (hex_digit (n % 16) ∷ s))
      ≡ read_digits 16 4 k v (hex_digit (n % 16) ∷ s)
    → read_digits 16 4 count value (show_hex (suc f) n ++ s)
      ≡ read_digits 16 4 (k + 1) (v * 16 + n % 16) s
next_digit n f count value k v s h c front =
    rw (hex_large f n h, append_assoc (show_hex f (n / 16)) (hex_digit (n % 16) ∷ []) s)
      (front ∙ read_hex_digit k v (n % 16) s (omega arith) c)

two_digits :
    (n f : ℕ) (s : Bytes)
    → 16 ≤ n
    → n < 256
    → read_digits 16 4 0 0 (show_hex (suc (suc f)) n ++ s) ≡ read_digits 16 4 2 n s
two_digits n f s h k =
    next_digit n (suc f) 0 0 1 (0 * 16 + n / 16) s h (omega arith)
      (one_digit (n / 16) f 0 0 (hex_digit (n % 16) ∷ s) (omega arith) (omega arith))
    ∙ ap (λ v. read_digits 16 4 2 v s) (omega arith)

three_digits :
    (n f : ℕ) (s : Bytes)
    → 256 ≤ n
    → n < 4096
    → read_digits 16 4 0 0 (show_hex (suc (suc (suc f))) n ++ s) ≡ read_digits 16 4 3 n s
three_digits n f s h k =
    next_digit n (suc (suc f)) 0 0 2 (n / 16) s (omega arith) (omega arith)
      (two_digits (n / 16) f (hex_digit (n % 16) ∷ s) (omega arith) (omega arith))
    ∙ ap (λ v. read_digits 16 4 3 v s) (omega arith)

four_digits :
    (n : ℕ) (s : Bytes)
    → 4096 ≤ n
    → n < 65536
    → read_digits 16 4 0 0 (show_hex 4 n ++ s) ≡ read_digits 16 4 4 n s
four_digits n s h k =
    next_digit n 3 0 0 3 (n / 16) s (omega arith) (omega arith)
      (three_digits (n / 16) 0 (hex_digit (n % 16) ∷ s) (omega arith) (omega arith))
    ∙ ap (λ v. read_digits 16 4 4 v s) (omega arith)

finish_hex :
    (n count : ℕ) (leading : Bool) (s : Bytes)
    → n < 65536
    → 0 < count
    → finish_number 65536 true leading (some ((count, n), s)) ≡ some (n, s)
unfolding finish_number
finish_hex n count leading s h k = ground arith

-- A group is read back, whatever stands behind it, unless that starts with a digit.
pub read_number-show_hex :
    (n : ℕ) (s : Bytes)
    → n < 65536
    → StopsAt 16 s
    → read_number 16 4 65536 true (show_hex 4 n ++ s) ≡ some (n, s)
unfolding read_number
read_number-show_hex n s h stop =
    let (count, (some_digits, read)) = all_digits in
    ap (finish_number 65536 true (starts_zero (show_hex 4 n ++ s)))
      (read ∙ read_hex_stop count n s stop)
    ∙ finish_hex n count (starts_zero (show_hex 4 n ++ s)) s h some_digits
  where
    all_digits :
        (count : ℕ) × ((0 < count)
          × (read_digits 16 4 0 0 (show_hex 4 n ++ s) ≡ read_digits 16 4 count n s))
    all_digits = elim (dec_lt n 16) [
      | yes a ↦ (
        1,
        (
          omega arith,
          one_digit n 3 0 0 s a (omega arith) ∙ ap (λ v. read_digits 16 4 1 v s) (omega arith),
        ),
      )
      | no a ↦ elim (dec_lt n 256) [
        | yes b ↦ (2, (omega arith, two_digits n 2 s (omega arith) b))
        | no b ↦ elim (dec_lt n 4096) [
          | yes c ↦ (3, (omega arith, three_digits n 1 s (omega arith) c))
          | no c ↦ (4, (omega arith, four_digits n s (omega arith) h))
        ]
      ]
    ]
