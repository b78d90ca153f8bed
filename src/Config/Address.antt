-- ===== src/Config/Address.antt =====
-- `parse_addr` and `join_host_port` of rust/src/config.rs against each other, and what they accept.
use mathlib.Core.List.{cons-ne-nil}
use tailcat_socks.Base.{
  ℕ, suc, ◌+◌, ◌≤◌, ◌≡◌, ◌≢◌, refl, ap, ◌∙◌, true, false, [], ◌∷◌, ◌++◌, arith, ◌==◌, drop, length,
  take-append, All, Bool-cases, inl, inr,
}
use tailcat_socks.Base.Bytes.{Bytes, rposition-append}
use tailcat_socks.Base.Result.{Result, ok, err, ◌>>=◌, map_err}
use tailcat_socks.Error.{ConfigError, ParseIntError}
use tailcat_socks.Text.Decimal.{
  show_dec, parse_u16, is_digit, u16_max, parse_u16-show_dec, parse_u16-le, show_dec-IsDigits,
  show_dec-ne-nil,
}
use tailcat_socks.Config.{
  is_colon, split_last, port_of, host_of, parse_addr, trim_start_matches, trim_end_matches,
  trim_last, has, strip, bracketed, join_host_port,
}

drop_past : (xs ds : Bytes) (x : ℕ) → drop (length xs + 1) (xs ++ x ∷ ds) ≡ ds
drop_past xs ds x =
    let past : length xs + 1 ≡ suc (length xs) = omega arith in rw past (drop_suc xs)
  where
    drop_suc : (xs : Bytes) → drop (suc (length xs)) (xs ++ x ∷ ds) ≡ ds
    drop_suc [] = refl
    drop_suc (y ∷ ys) = drop_suc ys

split_last-append :
    (xs ds : Bytes) → All (λ c. is_colon c ≡ false) ds → split_last (xs ++ b':' ∷ ds) ≡ (xs, ds)
split_last-append xs ds h =
    unfold split_last in
    rw (
      rposition-append is_colon xs ds b':' refl h,
      split_last,
      take-append xs (b':' ∷ ds),
      drop_past xs ds b':',
    )

not-colon-show_dec : (s : Bytes) → All (λ c. is_digit c ≡ true) s → All (λ c. is_colon c ≡ false) s
not-colon-show_dec [] h = tt
not-colon-show_dec (c ∷ s) h = (ground arith, not-colon-show_dec s h.1)

port_of-show_dec : (s : Bytes) (p : ℕ) → p ≤ u16_max → port_of s (show_dec p) ≡ ok p
port_of-show_dec s p h = go (show_dec p) (show_dec-ne-nil p) (parse_u16-show_dec p h)
  where
    go : (ds : Bytes) → ds ≢ [] → parse_u16 ds ≡ ok p → port_of s ds ≡ ok p
    go [] ne e = absurd (ne refl)
    go (d ∷ ds) ne e = unfold port_of in rw e

host_of-ne-nil : (h : Bytes) → h ≢ [] → host_of h ≡ h
host_of-ne-nil [] ne = absurd (ne refl)
host_of-ne-nil (c ∷ h) ne = unfold host_of in refl

-- A text that ends in a colon and a port is split there.
parse_addr_port :
    (host : Bytes) (p : ℕ)
    → host ≢ []
    → p ≤ u16_max
    → parse_addr (host ++ b':' ∷ show_dec p) ≡ ok (host, p)
unfolding parse_addr
parse_addr_port host p ne h = rw (
  split_last-append host (show_dec p) (not-colon-show_dec (show_dec p) (show_dec-IsDigits p)),
  port_of-show_dec (host ++ b':' ∷ show_dec p) p h,
  host_of-ne-nil host ne,
)

-- `s` does not start with `x`.
abbrev pub StartsOther : ℕ → Bytes → Type 0
StartsOther x [] = Unit
StartsOther x (c ∷ s) = (c == x) ≡ false

trim_start-StartsOther : (x : ℕ) (s : Bytes) → StartsOther x (trim_start_matches x s)
unfolding trim_start_matches
trim_start-StartsOther x [] = tt
trim_start-StartsOther x (c ∷ s) = elim (Bool-cases (c == x)) [
  | inl same ↦ rw same (trim_start-StartsOther x s)
  | inr other ↦ rw other other
]

trim_start_id : (x : ℕ) (s : Bytes) → StartsOther x s → trim_start_matches x s ≡ s
unfolding trim_start_matches
trim_start_id x [] h = refl
trim_start_id x (c ∷ s) h = rw h

trim_last-StartsOther : (x y c : ℕ) (s : Bytes) → (c == x) ≡ false → StartsOther x (trim_last y c s)
unfolding trim_last
trim_last-StartsOther x y c [] h = elim (Bool-cases (c == y)) [
  | inl same ↦ rw same tt
  | inr other ↦ rw other h
]
trim_last-StartsOther x y c (d ∷ s) h = h

trim_end-StartsOther :
    (x y : ℕ) (s : Bytes) → StartsOther x s → StartsOther x (trim_end_matches y s)
trim_end-StartsOther x y [] h = unfold trim_end_matches in tt
trim_end-StartsOther x y (c ∷ s) h =
    unfold trim_end_matches in trim_last-StartsOther x y c (trim_end_matches y s) h

trim_last_idem :
    (x c : ℕ) (s : Bytes)
    → trim_end_matches x s ≡ s
    → trim_end_matches x (trim_last x c s) ≡ trim_last x c s
unfolding trim_end_matches
trim_last_idem x c [] h = elim (Bool-cases (c == x)) [
  | inl same ↦ rw same
  | inr other ↦ rw (other, other)
]
trim_last_idem x c (d ∷ s) h = ap (trim_last x c) h

trim_end_idem :
    (x : ℕ) (s : Bytes) → trim_end_matches x (trim_end_matches x s) ≡ trim_end_matches x s
unfolding trim_end_matches
trim_end_idem x [] = refl
trim_end_idem x (c ∷ s) = trim_last_idem x c (trim_end_matches x s) (trim_end_idem x s)

trim_end-concat : (x : ℕ) (s : Bytes) → trim_end_matches x (s ++ x ∷ []) ≡ trim_end_matches x s
unfolding trim_end_matches
trim_end-concat x [] = ground arith
trim_end-concat x (c ∷ s) = ap (trim_last x c) (trim_end-concat x s)

pub strip-StartsOther : (h : Bytes) → StartsOther b'[' (strip h)
strip-StartsOther h =
    unfold strip in trim_end-StartsOther b'[' b']' _ (trim_start-StartsOther b'[' h)

pub strip_idem : (h : Bytes) → strip (strip h) ≡ strip h
unfolding strip
strip_idem h =
    ap (trim_end_matches b']') (trim_start_id b'[' (strip h) (strip-StartsOther h))
    ∙ trim_end_idem b']' (trim_start_matches b'[' h)

strip_open :
    (s : Bytes) → s ≢ [] → StartsOther b'[' s → strip (bracketed s) ≡ trim_end_matches b']' s
strip_open [] ne h = absurd (ne refl)
strip_open (c ∷ s) ne h = unfold strip trim_start_matches in rw h (trim_end-concat b']' (c ∷ s))

pub strip-bracketed : (h : Bytes) → strip h ≢ [] → strip (bracketed (strip h)) ≡ strip h
strip-bracketed h ne =
    strip_open (strip h) ne (strip-StartsOther h)
    ∙ unfold strip in trim_end_idem b']' (trim_start_matches b'[' h)

-- Two hosts that agree without their brackets are joined alike.
join_host_port-strip :
    (h k : Bytes) (q : ℕ) → strip h ≡ strip k → join_host_port h q ≡ join_host_port k q
unfolding join_host_port
join_host_port-strip h k q e = rw e

join_plain :
    (h : Bytes) (q : ℕ)
    → has b':' (strip h) ≡ false
    → join_host_port h q ≡ strip h ++ b':' ∷ show_dec q
unfolding join_host_port
join_plain h q e = rw e

join_bracketed :
    (h : Bytes) (q : ℕ)
    → has b':' (strip h) ≡ true
    → join_host_port h q ≡ bracketed (strip h) ++ b':' ∷ show_dec q
unfolding join_host_port
join_bracketed h q e = rw e

-- A host that is not empty without its brackets and a port of at most 65535, once joined, are parsed
-- back to the port and a host that every later join writes as it writes the first one.
pub parse_addr-join_host_port :
    (h : Bytes) (p : ℕ)
    → p ≤ u16_max
    → strip h ≢ []
    → (h' : Bytes) × (parse_addr (join_host_port h p) ≡ ok (h', p))
      × ((q : ℕ) → join_host_port h' q ≡ join_host_port h q)
parse_addr-join_host_port h p fits ne = elim (Bool-cases (has b':' (strip h))) [
  | inl colon ↦ (
    bracketed (strip h),
    rw (join_bracketed h p colon) (parse_addr_port (bracketed (strip h)) p (cons-ne-nil _ _) fits),
    λ q. join_host_port-strip (bracketed (strip h)) h q (strip-bracketed h ne),
  )
  | inr plain ↦ (
    strip h,
    rw (join_plain h p plain) (parse_addr_port (strip h) p ne fits),
    λ q. join_host_port-strip (strip h) h q (strip_idem h),
  )
]

-- A result has a host, and its port fits a `u16`; an error names the text.
abbrev pub IsAnswer : Bytes → Result ConfigError (Bytes × ℕ) → Type 0
IsAnswer s (ok a) = (a.0 ≢ []) × (a.1 ≤ u16_max)
IsAnswer s (err e) = e.addr ≡ s

host_of_some : (h : Bytes) → host_of h ≢ []
unfolding host_of
host_of_some [] = cons-ne-nil _ _
host_of_some (c ∷ h) = cons-ne-nil _ _

-- Whatever the text, `parse_addr` answers with a host that is not empty and a port in range, or with an
-- error that names the text.
pub parse_addr-IsAnswer : (s : Bytes) → IsAnswer s (parse_addr s)
unfolding parse_addr
parse_addr-IsAnswer s = go (split_last s).0 (split_last s).1
  where
    parsed :
        (host : Bytes) (r : Result ParseIntError ℕ)
        → ((n : ℕ) → r ≡ ok n → n ≤ u16_max)
        → IsAnswer s
            (map_err (λ e. record { addr = s; source = e }) r >>= λ port. ok (host_of host, port))
    parsed host (ok n) h = (host_of_some host, h n refl)
    parsed host (err e) h = refl

    go : (host port : Bytes) → IsAnswer s (port_of s port >>= λ port. ok (host_of host, port))
    go host [] = unfold port_of in (host_of_some host, omega arith)
    go host (c ∷ port) =
        unfold port_of in parsed host (parse_u16 (c ∷ port)) (λ n e. parse_u16-le (c ∷ port) e)
