-- ===== src/Text/Ip/Bounds.antt =====
-- What the readers of numbers and of IPv4 addresses return is in range.
use tailcat_socks.Base.{
  ℕ, zero, suc, ◌<◌, ◌≡◌, subst, Bool, false, not, ◌&&◌, Bool-cases, inl, inr, [], ◌∷◌, Option,
  none, some, arith, ltb, leb, ◌==◌, length,
}
use tailcat_socks.Base.Bytes.{Bytes}
use tailcat_socks.Text.Ip.{
  Ipv4Addr, Parse, read_digits, starts_zero, finish_number, read_number, read_given_char,
  read_separator, ◌>>=◌, read_ipv4_addr, all_read, parse_v4,
}
use tailcat_socks.Text.Ip.RoundTrip.{IsIpv4}

-- What was read, if anything, is so.
abbrev pub Read : {A : Type 0} → (A → Type 0) → Parse A → Type 0
Read P none = Unit
Read P (some (a, s)) = P a

abbrev FitsByte : ℕ → Type 0
FitsByte n = n < 256

finish_number-Read :
    (limit : ℕ) (allow leading : Bool) (r : Parse (ℕ × ℕ))
    → Read (λ n. n < limit) (finish_number limit allow leading r)
unfolding finish_number
finish_number-Read limit allow leading none = tt
finish_number-Read limit allow leading (some ((count, value), s)) =
    elim (Bool-cases (leb limit value)) [
      | inl large ↦ rw large tt
      | inr small ↦ elim (Bool-cases (count == 0)) [
        | inl nothing ↦ rw (small, nothing) tt
        | inr some_digits ↦ elim (Bool-cases (not allow && leading && ltb 1 count)) [
          | inl zero_first ↦ rw (small, some_digits, zero_first) tt
          | inr good ↦ rw (small, some_digits, good) (ground (arith, small))
        ]
      ]
    ]

pub read_number-Read :
    (radix max limit : ℕ) (allow : Bool) (s : Bytes)
    → Read (λ n. n < limit) (read_number radix max limit allow s)
unfolding read_number
read_number-Read radix max limit allow s =
    finish_number-Read limit allow (starts_zero s) (read_digits radix max 0 0 s)

pub read_separator-Read :
    {A : Type 0} (P : A → Type 0) (sep i : ℕ) (inner : Bytes → Parse A) (s : Bytes)
    → ((t : Bytes) → Read P (inner t))
    → Read P (read_separator sep i inner s)
unfolding read_separator
read_separator-Read P sep zero inner s h = h s
read_separator-Read P sep (suc i) inner s h = go (read_given_char sep s)
  where
    go : (r : Option Bytes) → Read P (elim r [ none ↦ none | some t ↦ inner t ])
    go none = tt
    go (some t) = h t

bind-Read :
    {A B : Type 0} (P : A → Type 0) (Q : B → Type 0) (r : Parse A) (f : A × Bytes → Parse B)
    → Read P r
    → ((x : A × Bytes) → P x.0 → Read Q (f x))
    → Read Q (r >>= f)
bind-Read P Q none f h k = tt
bind-Read P Q (some x) f h k = k x h

octet-Read :
    (i : ℕ) (s : Bytes) → Read FitsByte (read_separator b'.' i (read_number 10 3 256 false) s)
octet-Read i s =
    read_separator-Read FitsByte b'.' i (read_number 10 3 256 false) s
      (read_number-Read 10 3 256 false)

pub read_ipv4_addr-Read : (s : Bytes) → Read IsIpv4 (read_ipv4_addr s)
unfolding read_ipv4_addr
read_ipv4_addr-Read s = bind-Read FitsByte IsIpv4 _ _ (octet-Read 0 s) (λ x hx.
    bind-Read FitsByte IsIpv4 _ _ (octet-Read 1 x.1) (λ y hy.
      bind-Read FitsByte IsIpv4 _ _ (octet-Read 2 y.1) (λ z hz.
        bind-Read FitsByte IsIpv4 _ _ (octet-Read 3 z.1)
          (λ w hw. record { a = hx; b = hy; c = hz; d = hw }))))

pub all_read-Read :
    {A : Type 0} (P : A → Type 0) (r : Parse A) (a : A) → Read P r → all_read r ≡ some a → P a
all_read-Read P none a h e = absurd (ground (arith, e))
all_read-Read P (some (x, [])) a h e = let same : x ≡ a = cc in subst P same h
all_read-Read P (some (x, c ∷ s)) a h e = absurd (ground (arith, e))

pub parse_v4-IsIpv4 : (s : Bytes) (ip : Ipv4Addr) → parse_v4 s ≡ some ip → IsIpv4 ip
unfolding parse_v4
parse_v4-IsIpv4 s ip e = elim (Bool-cases (ltb 15 (length s))) [
  | inl long ↦ absurd (ground (arith, e, long))
  | inr short ↦
      all_read-Read IsIpv4 (read_ipv4_addr s) ip (read_ipv4_addr-Read s) (ground (arith, e, short))
]
