-- ===== src/Text/Decimal.antt =====
-- `to_string` of an unsigned number, and `str::parse::<u16>`.
use mathlib.Core.List.{concat-ne-nil, cons-ne-nil}
use native.Mathlib.Decide.{dec_lt}
use native.Mathlib.Nat.{pow-suc}
use tailcat_socks.Base.{
  ℕ, zero, suc, ◌+◌, ◌-◌, ◌*◌, ◌/◌, ◌%◌, ◌^◌, ◌≤◌, ◌<◌, ◌≡◌, ◌≢◌, refl, sym, ap, ◌∙◌, Bool, true,
  false, ◌&&◌, [], ◌∷◌, ◌++◌, append_assoc, append-nil, arith, ltb, leb, ◌==◌, if◌then◌else◌, All,
  All-append,
}
use tailcat_socks.Base.Bytes.{Bytes}
use tailcat_socks.Base.Result.{Result, ok, err}
use tailcat_socks.Error.{ParseIntError, empty, invalid_digit, pos_overflow}

-- The decimal digits, most significant first.
unfoldable pub digits : ℕ → ℕ → Bytes
digits zero n = []
digits (suc fuel) n =
    let front = digits fuel (n / 10) in
    if ltb n 10 then (b'0' + n) ∷ [] else front ++ (b'0' + n % 10) ∷ []

-- Twenty digits hold every `u64`.
unfoldable pub show_dec : ℕ → Bytes
unfolding digits
show_dec = digits 20

abbrev pub is_digit : ℕ → Bool
is_digit c = leb b'0' c && leb c b'9'

abbrev pub u16_max : ℕ
u16_max = 65535

-- The loop of `u16::from_str_radix`, with its checked multiplication and addition.
scan : Bytes → ℕ → Result ParseIntError ℕ
scan [] n = ok n
scan (c ∷ s) n =
    let rest = scan s (n * 10 + (c - b'0')) in
    if is_digit c
    then (if ltb u16_max (n * 10)
        then err pos_overflow
        else if ltb u16_max (n * 10 + (c - b'0'))
        then err pos_overflow
        else rest)
    else err invalid_digit

-- A plus sign is skipped, unless it stands alone.
unfoldable pub parse_u16 : Bytes → Result ParseIntError ℕ
unfolding scan
parse_u16 [] = err empty
parse_u16 (c ∷ []) = scan (c ∷ []) 0
parse_u16 (c ∷ d ∷ s) = if c == b'+' then scan (d ∷ s) 0 else scan (c ∷ d ∷ s) 0

abbrev pub IsDigits : Bytes → Type 0
IsDigits = All (λ c. is_digit c ≡ true)

digit-IsDigit : (n : ℕ) → n < 10 → is_digit (b'0' + n) ≡ true
digit-IsDigit n h = ground arith

-- The two cases of a digit text.
pub digits_small : (f n : ℕ) → n < 10 → digits (suc f) n ≡ (b'0' + n) ∷ []
unfolding digits
digits_small f n h = ground arith

pub digits_large : (f n : ℕ) → 10 ≤ n → digits (suc f) n ≡ digits f (n / 10) ++ (b'0' + n % 10) ∷ []
unfolding digits
digits_large f n h = ground arith

digits-IsDigits : (f n : ℕ) → IsDigits (digits f n)
digits-IsDigits zero n = unfold digits in tt
digits-IsDigits (suc f) n = elim (dec_lt n 10) [
  | yes h ↦ rw (digits_small f n h) (digit-IsDigit n h, tt)
  | no h ↦ rw (digits_large f n (omega arith)) (
      All-append _ (digits f (n / 10)) ((b'0' + n % 10) ∷ []) (digits-IsDigits f (n / 10))
        (digit-IsDigit (n % 10) (omega arith), tt))
]

pub show_dec-IsDigits : (n : ℕ) → IsDigits (show_dec n)
unfolding show_dec
show_dec-IsDigits n = digits-IsDigits 20 n

digits-ne-nil : (f n : ℕ) → digits (suc f) n ≢ []
digits-ne-nil f n = elim (dec_lt n 10) [
  | yes h ↦ rw (digits_small f n h) (cons-ne-nil _ _)
  | no h ↦ rw (digits_large f n (omega arith)) (concat-ne-nil (b'0' + n % 10) (digits f (n / 10)))
]

pub show_dec-ne-nil : (n : ℕ) → show_dec n ≢ []
unfolding show_dec
show_dec-ne-nil n = digits-ne-nil 19 n

scan_digit :
    (d a : ℕ) (rest : Bytes)
    → d < 10
    → a * 10 + d ≤ u16_max
    → scan ((b'0' + d) ∷ rest) a ≡ scan rest (a * 10 + d)
unfolding scan
scan_digit d a rest h k =
    let same : b'0' + d - b'0' ≡ d = omega arith in
    ground (arith, ap (λ e. scan rest (a * 10 + e)) same)

scan-digits :
    (f n : ℕ) (rest : Bytes)
    → n < 10 ^ suc f
    → n ≤ u16_max
    → scan (digits (suc f) n ++ rest) 0 ≡ scan rest n
scan-digits zero n rest h k =
    let small : n < 10 = omega arith in
    rw (digits_small 0 n small)
      (scan_digit n 0 rest small (omega arith) ∙ ap (scan rest) (omega arith))
scan-digits (suc f) n rest h k = elim (dec_lt n 10) [
  | yes small ↦
      rw (digits_small (suc f) n small)
        (scan_digit n 0 rest small (omega arith) ∙ ap (scan rest) (omega arith))
  | no large ↦
      rw (digits_large (suc f) n (omega arith), append_assoc)
        (scan-digits f (n / 10) ((b'0' + n % 10) ∷ rest) (omega (arith, pow-suc 10 (suc f)))
            (omega arith)
          ∙ scan_digit (n % 10) (n / 10) rest (omega arith) (omega arith)
          ∙ ap (scan rest) (omega arith))
]

parse_u16-scan : (s : Bytes) → IsDigits s → s ≢ [] → parse_u16 s ≡ scan s 0
parse_u16-scan [] h ne = absurd (ne refl)
parse_u16-scan (c ∷ []) h ne = unfold parse_u16 in refl
parse_u16-scan (c ∷ d ∷ s) h ne =
    let not_plus : (c == b'+') ≡ false = ground arith in unfold parse_u16 in rw not_plus

-- Every port is read back from its decimal text.
pub parse_u16-show_dec : (n : ℕ) → n ≤ u16_max → parse_u16 (show_dec n) ≡ ok n
parse_u16-show_dec n h =
    parse_u16-scan (show_dec n) (show_dec-IsDigits n) (show_dec-ne-nil n)
    ∙ ap (λ s. scan s 0) (sym (append-nil (show_dec n)))
    ∙ unfold show_dec scan in scan-digits 19 n [] (omega arith) h

scan-le : (s : Bytes) (n : ℕ) {r : ℕ} → n ≤ u16_max → scan s n ≡ ok r → r ≤ u16_max
unfolding scan
scan-le [] n h e = ground arith
scan-le (c ∷ s) n {r} h e = ground (arith, scan-le s (n * 10 + (c - b'0')) {r = r})

-- A number that is read fits a `u16`.
pub parse_u16-le : (s : Bytes) {n : ℕ} → parse_u16 s ≡ ok n → n ≤ u16_max
parse_u16-le [] e = unfold parse_u16 in cc
parse_u16-le (c ∷ []) e = unfold parse_u16 in scan-le (c ∷ []) 0 (omega arith) e
parse_u16-le (c ∷ d ∷ s) {n} e =
    unfold parse_u16 in ground (arith, scan-le (c ∷ d ∷ s) 0 {r = n}, scan-le (d ∷ s) 0 {r = n})
