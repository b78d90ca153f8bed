-- ===== src/Logging/Addresses.antt =====
-- The addresses of rust/src/config.rs as the log shows them.
use tailcat_socks.Base.{
  ℕ, zero, suc, ◌+◌, refl, Bool-cases, inl, inr, [], ◌∷◌, Option, none, some, take, drop,
  All-append, ◌==◌,
}
use tailcat_socks.Base.Bytes.{Bytes, rposition}
use tailcat_socks.Base.Result.{Result, ok, err, ◌>>=◌}
use tailcat_socks.Error.{ConfigError}
use tailcat_socks.Config.{
  is_colon, bracketed, split_last, port_of, host_of, parse_addr, trim_start_matches,
  trim_end_matches, trim_last, has, strip, join_host_port,
}
use tailcat_socks.Logging.Lines.{IsOneLine, show_dec-IsOneLine}

take-IsOneLine : (n : ℕ) (s : Bytes) → IsOneLine s → IsOneLine (take n s)
take-IsOneLine zero s h = tt
take-IsOneLine (suc n) [] h = tt
take-IsOneLine (suc n) (c ∷ s) h = (h.0, take-IsOneLine n s h.1)

trim_start_matches-IsOneLine :
    (x : ℕ) (s : Bytes) → IsOneLine s → IsOneLine (trim_start_matches x s)
unfolding trim_start_matches
trim_start_matches-IsOneLine x [] h = tt
trim_start_matches-IsOneLine x (c ∷ s) h = elim (Bool-cases (c == x)) [
  | inl e ↦ rw e (trim_start_matches-IsOneLine x s h.1)
  | inr e ↦ rw e h
]

trim_last-IsOneLine : (x c : ℕ) (s : Bytes) → IsOneLine (c ∷ s) → IsOneLine (trim_last x c s)
unfolding trim_last
trim_last-IsOneLine x c [] h = elim (Bool-cases (c == x)) [ inl e ↦ rw e tt | inr e ↦ rw e h ]
trim_last-IsOneLine x c (d ∷ s) h = h

trim_end_matches-IsOneLine : (x : ℕ) (s : Bytes) → IsOneLine s → IsOneLine (trim_end_matches x s)
unfolding trim_end_matches
trim_end_matches-IsOneLine x [] h = tt
trim_end_matches-IsOneLine x (c ∷ s) h =
    trim_last-IsOneLine x c (trim_end_matches x s) (h.0, trim_end_matches-IsOneLine x s h.1)

-- An address that is joined again has no line break, if its host has none.
pub join_host_port-IsOneLine :
    (host : Bytes) (port : ℕ) → IsOneLine host → IsOneLine (join_host_port host port)
unfolding join_host_port strip
join_host_port-IsOneLine host port h =
    let bare =
      trim_end_matches-IsOneLine b']' (trim_start_matches b'[' host)
        (trim_start_matches-IsOneLine b'[' host h) in
    elim (Bool-cases (has b':' (strip host))) [
      | inl e ↦ rw e (
          All-append _ (bracketed (strip host)) _
            (refl, All-append _ (strip host) _ bare (refl, tt)) (refl, show_dec-IsOneLine port))
      | inr e ↦ rw e (All-append _ (strip host) _ bare (refl, show_dec-IsOneLine port))
    ]

host_of-IsOneLine : (host : Bytes) → IsOneLine host → IsOneLine (host_of host)
unfolding host_of
host_of-IsOneLine [] h = (refl, (refl, (refl, (refl, (refl, (refl, (refl, (refl, (refl, tt)))))))))
host_of-IsOneLine (c ∷ host) h = h

-- The host that an address is parsed into.
abbrev pub IsPlainAddr : Result ConfigError (Bytes × ℕ) → Type 0
IsPlainAddr (ok (host, port)) = IsOneLine host
IsPlainAddr (err e) = Unit

first_part-IsOneLine : (s : Bytes) → IsOneLine s → IsOneLine (split_last s).0
first_part-IsOneLine s h = unfold split_last in go (rposition is_colon s)
  where
    go :
        (r : Option ℕ)
        → IsOneLine
            (elim r as (λ x. Bytes × Bytes) [
              | some i ↦ (take i s, drop (i + 1) s)
              | none ↦ ([], s)
            ]).0
    go none = tt
    go (some i) = take-IsOneLine i s h

pub parse_addr-IsPlainAddr : (s : Bytes) → IsOneLine s → IsPlainAddr (parse_addr s)
unfolding parse_addr
parse_addr-IsPlainAddr s h = go (port_of s (split_last s).1)
  where
    go :
        (r : Result ConfigError ℕ) → IsPlainAddr (r >>= λ port. ok (host_of (split_last s).0, port))
    go (ok port) = host_of-IsOneLine _ (first_part-IsOneLine s h)
    go (err e) = tt
