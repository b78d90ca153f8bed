-- ===== src/Dns/Parse/Render.antt =====
-- A writer for dns.txt, independent of the reader in rust/src/dnsmap.rs, and the round trip.
use tailcat_socks.Base.{
  ℕ, ◌≡◌, refl, ap, ◌∙◌, false, List, [], ◌∷◌, ◌++◌, Option, none, some, or_else, get_or,
  append-nil, arith, ◌==◌, if◌then◌else◌, map, All, All-append,
}
use tailcat_socks.Base.Bytes.{Bytes, split, split-append, split_whole, to_ascii_lowercase}
use tailcat_socks.Dns.Mapping.{get, contains}
use tailcat_socks.Dns.Rewrite.{rewrite_host}
use tailcat_socks.Dns.Parse.Trim.{EndsDark, trim_ws_id}
use tailcat_socks.Dns.Parse.Lookup.{get-parse_dns-append, get-insert_all, parse_dns_line}
use tailcat_socks.Dns.Parse.{
  is_ascii_whitespace, is_newline, is_blank, non_empty, fields_of, add_fields, add_line, add_lines,
  trim_ws, parse_dns,
}

pub record Row : Type 0 where
  pub token : Bytes
  pub domains : List Bytes

-- Every domain behind a space.
abbrev spaced : List Bytes → Bytes
spaced [] = []
spaced (d ∷ ds) = b' ' ∷ (d ++ spaced ds)

abbrev pub render_row : Row → Bytes
render_row r = r.token ++ spaced r.domains

-- One line for each row.
abbrev pub render : List Row → Bytes
render [] = []
render (r ∷ rs) = render_row r ++ 10 ∷ render rs

abbrev IsDark : Bytes → Type 0
IsDark = All (λ c. is_ascii_whitespace c ≡ false)

-- A field: some bytes, none of them white space.
abbrev pub IsWord : Bytes → Type 0
IsWord [] = ⊥
IsWord (c ∷ w) = IsDark (c ∷ w)

-- A token is a field that does not start a comment.
abbrev pub IsToken : Bytes → Type 0
IsToken [] = ⊥
IsToken (c ∷ w) = IsDark (c ∷ w) × ((c == b'#') ≡ false)

abbrev pub IsRow : Row → Type 0
IsRow r = IsToken r.token × All IsWord r.domains

-- The token of the last row that names the domain, in any case.
abbrev pub resolve : Bytes → List Row → Option Bytes
resolve d [] = none
resolve d (r ∷ rs) =
    or_else (resolve d rs)
      (if contains d (map to_ascii_lowercase r.domains) then some r.token else none)

dark-not-newline : (c : ℕ) → is_ascii_whitespace c ≡ false → is_newline c ≡ false
unfolding is_ascii_whitespace
dark-not-newline c h = ground arith

dark-not-blank : (c : ℕ) → is_ascii_whitespace c ≡ false → is_blank c ≡ false
unfolding is_ascii_whitespace
dark-not-blank c h = ground arith

All-imp : (P Q : ℕ → Type 0) → ((c : ℕ) → P c → Q c) → (s : Bytes) → All P s → All Q s
All-imp P Q f [] h = tt
All-imp P Q f (c ∷ s) h = (f c h.0, All-imp P Q f s h.1)

IsWord-IsDark : (w : Bytes) → IsWord w → IsDark w
IsWord-IsDark [] h = absurd h
IsWord-IsDark (c ∷ w) h = h

EndsDark-IsDark : (w : Bytes) → IsDark w → EndsDark w
EndsDark-IsDark [] h = tt
EndsDark-IsDark (c ∷ []) h = h.0
EndsDark-IsDark (c ∷ d ∷ w) h = EndsDark-IsDark (d ∷ w) h.1

EndsDark-append : (xs : Bytes) (y : ℕ) (ys : Bytes) → EndsDark (y ∷ ys) → EndsDark (xs ++ y ∷ ys)
EndsDark-append [] y ys h = h
EndsDark-append (x ∷ []) y ys h = h
EndsDark-append (x ∷ z ∷ xs) y ys h = EndsDark-append (z ∷ xs) y ys h

EndsDark-spaced :
    (w : Bytes) (ds : List Bytes) → IsDark w → All IsWord ds → EndsDark (w ++ spaced ds)
EndsDark-spaced w [] hw hd = rw append-nil (EndsDark-IsDark w hw)
EndsDark-spaced w ([] ∷ ds) hw hd = absurd hd.0
EndsDark-spaced w ((c ∷ d) ∷ ds) hw hd =
    EndsDark-append w b' ' ((c ∷ d) ++ spaced ds) (EndsDark-spaced (c ∷ d) ds hd.0 hd.1)

not-newline-spaced : (ds : List Bytes) → All IsWord ds → All (λ c. is_newline c ≡ false) (spaced ds)
not-newline-spaced [] h = tt
not-newline-spaced (d ∷ ds) h = (
  refl,
  All-append _ d (spaced ds) (All-imp _ _ dark-not-newline d (IsWord-IsDark d h.0))
      (not-newline-spaced ds h.1),
)

split-spaced :
    (w : Bytes) (ds : List Bytes)
    → IsDark w
    → All IsWord ds
    → split is_blank (w ++ spaced ds) ≡ w ∷ ds
split-spaced w [] hw hd = rw append-nil (split_whole is_blank w (All-imp _ _ dark-not-blank w hw))
split-spaced w (d ∷ ds) hw hd =
    split-append is_blank w (d ++ spaced ds) b' ' refl
    ∙ rw (split_whole is_blank w (All-imp _ _ dark-not-blank w hw))
        (ap (◌∷◌ w) (split-spaced d ds (IsWord-IsDark d hd.0) hd.1))

non_empty_words : (ds : List Bytes) → All IsWord ds → non_empty ds ≡ ds
unfolding non_empty
non_empty_words [] h = refl
non_empty_words ([] ∷ ds) h = absurd h.0
non_empty_words ((c ∷ d) ∷ ds) h = ap (◌∷◌ (c ∷ d)) (non_empty_words ds h.1)

-- The fields of a row that was written.
fields_of-render_row :
    (c : ℕ) (w : Bytes) (ds : List Bytes)
    → IsDark (c ∷ w)
    → All IsWord ds
    → fields_of (c ∷ (w ++ spaced ds)) ≡ (c ∷ w) ∷ ds
unfolding fields_of
fields_of-render_row c w ds hw hd =
    rw (split-spaced (c ∷ w) ds hw hd) (non_empty_words ((c ∷ w) ∷ ds) (hw, hd))

get-parse_dns_row :
    (d token : Bytes) (ds : List Bytes)
    → IsToken token
    → All IsWord ds
    → get d (parse_dns (token ++ spaced ds))
      ≡ (if contains d (map to_ascii_lowercase ds) then some token else none)
get-parse_dns_row d [] ds ht hd = absurd ht
get-parse_dns_row d (c ∷ w) ds ht hd =
    let line = c ∷ (w ++ spaced ds) in
    let one_line =
      All-append _ (c ∷ w) (spaced ds) (All-imp _ _ dark-not-newline (c ∷ w) ht.0)
        (not-newline-spaced ds hd) in
    rw (parse_dns_line line one_line, trim_ws_id line ht.0.0 (EndsDark-spaced (c ∷ w) ds ht.0 hd))
      (unfold add_line add_fields in
        rw (ht.1, fields_of-render_row c w ds ht.0 hd)
          (get-insert_all (c ∷ w) ds [] d ∙ unfold get in refl))

-- What is written is read back: a domain has the token of the last row that names it.
pub get-parse_dns-render :
    (rows : List Row) (d : Bytes)
    → All IsRow rows
    → get d (parse_dns (render rows)) ≡ resolve d rows
get-parse_dns-render [] d h = unfold parse_dns add_lines add_line trim_ws split get in refl
get-parse_dns-render (r ∷ rs) d h = rw (
  get-parse_dns-append (render_row r) (render rs) d,
  get-parse_dns_row d r.token r.domains h.0.0 h.0.1,
  get-parse_dns-render rs d h.1,
)

-- A file is written from rows whose tokens and domains are non-empty and hold no white space, with no
-- token that starts with `#`. With the map read from it, a host is sent on as the token of the last row
-- that names it in any case, and as it came if no row does.
pub rewrite_host-render :
    (rows : List Row) (host : Bytes)
    → All IsRow rows
    → rewrite_host host (parse_dns (render rows))
      ≡ get_or (resolve (to_ascii_lowercase host) rows) host
unfolding rewrite_host
rewrite_host-render rows host h = rw (get-parse_dns-render rows (to_ascii_lowercase host) h)
