-- ===== src/Dns/Parse/Lookup.antt =====
-- What a lookup finds in the map that `parse_dns` of rust/src/dnsmap.rs reads: the last line wins,
-- and blank lines and comments count for nothing.
use tailcat_socks.Base.{
  ◌≡◌, refl, sym, ap, ◌∙◌, false, List, [], ◌∷◌, ◌++◌, Option, none, some, or_else, arith,
  if◌then◌else◌, map, All,
}
use tailcat_socks.Base.Bytes.{Bytes, split, split-append, split_whole, to_ascii_lowercase}
use tailcat_socks.Dns.Mapping.{Mapping, get, insert, contains}
use tailcat_socks.Dns.Mapping.Laws.{get-insert}
use tailcat_socks.Dns.Parse.{
  is_newline, fields_of, insert_all, add_fields, add_line, add_lines, trim_ws, parse_dns,
}

or_else_assoc {ℓ} :
    {A : Type ℓ} (a b c : Option A) → or_else (or_else a b) c ≡ or_else a (or_else b c)
or_else_assoc none b c = refl
or_else_assoc (some x) b c = refl

-- What a line's fields bind, whatever the map was before.
pub get-insert_all :
    (token : Bytes) (ds : List Bytes) (m : Mapping) (d : Bytes)
    → get d (insert_all token ds m)
      ≡ (if contains d (map to_ascii_lowercase ds) then some token else get d m)
unfolding insert_all contains
get-insert_all token [] m d = refl
get-insert_all token (e ∷ ds) m d =
    get-insert_all token ds (insert (to_ascii_lowercase e) token m) d
    ∙ ground (arith, get-insert (to_ascii_lowercase e) d token m)

get-insert_all_or :
    (token : Bytes) (ds : List Bytes) (m : Mapping) (d : Bytes)
    → get d (insert_all token ds m) ≡ or_else (get d (insert_all token ds [])) (get d m)
get-insert_all_or token ds m d =
    ground (arith, get-insert_all token ds m d, get-insert_all token ds [] d, get-nil d)
  where
    get-nil : (d : Bytes) → get d [] ≡ none
    get-nil d = unfold get in refl

get-add_fields :
    (fs : List Bytes) (m : Mapping) (d : Bytes)
    → get d (add_fields fs m) ≡ or_else (get d (add_fields fs [])) (get d m)
get-add_fields [] m d = unfold add_fields get in refl
get-add_fields (token ∷ ds) m d = unfold add_fields in get-insert_all_or token ds m d

get-add_line :
    (line : Bytes) (m : Mapping) (d : Bytes)
    → get d (add_line line m) ≡ or_else (get d (add_line line [])) (get d m)
get-add_line [] m d = unfold add_line get in refl
get-add_line (c ∷ line) m d =
    unfold add_line get in ground (arith, get-add_fields (fields_of (c ∷ line)) m d)

get-add_lines :
    (lines : List Bytes) (m : Mapping) (d : Bytes)
    → get d (add_lines lines m) ≡ or_else (get d (add_lines lines [])) (get d m)
unfolding add_lines get
get-add_lines [] m d = refl
get-add_lines (raw ∷ lines) m d =
    let line = trim_ws raw in
    get-add_lines lines (add_line line m) d
    ∙ ap (or_else (get d (add_lines lines []))) (get-add_line line m d)
    ∙ sym (or_else_assoc (get d (add_lines lines [])) _ _)
    ∙ ap (λ o. or_else o (get d m)) (sym (get-add_lines lines (add_line line []) d))

add_lines-append :
    (xs ys : List Bytes) (m : Mapping) → add_lines (xs ++ ys) m ≡ add_lines ys (add_lines xs m)
unfolding add_lines
add_lines-append [] ys m = refl
add_lines-append (x ∷ xs) ys m = add_lines-append xs ys (add_line (trim_ws x) m)

-- A file is read part by part: a domain has the token that the later part gives it, and that of the
-- earlier part if the later one does not name it.
pub get-parse_dns-append :
    (a b d : Bytes)
    → get d (parse_dns (a ++ 10 ∷ b)) ≡ or_else (get d (parse_dns b)) (get d (parse_dns a))
unfolding parse_dns
get-parse_dns-append a b d =
    rw (split-append is_newline a b 10 refl, add_lines-append)
      (get-add_lines (split is_newline b) (add_lines (split is_newline a) []) d)

-- The map of one line.
pub parse_dns_line :
    (line : Bytes)
    → All (λ c. is_newline c ≡ false) line
    → parse_dns line ≡ add_line (trim_ws line) []
unfolding parse_dns add_lines
parse_dns_line line h = rw (split_whole is_newline line h)

-- A line that is blank, or whose first byte behind white space is `#`.
pub data IsNoise (line : Bytes) : Type 0 where
  blank : trim_ws line ≡ [] → IsNoise line
  comment : {text : Bytes} → trim_ws line ≡ b'#' ∷ text → IsNoise line

parse_dns-IsNoise :
    (line : Bytes) → All (λ c. is_newline c ≡ false) line → IsNoise line → parse_dns line ≡ []
unfolding add_line
parse_dns-IsNoise line h (blank e) = parse_dns_line line h ∙ rw e
parse_dns-IsNoise line h (comment e) = parse_dns_line line h ∙ rw e

-- A comment or a blank line, with no line feed in it, between two parts of a file changes no lookup.
pub get-parse_dns-IsNoise :
    (a line b d : Bytes)
    → All (λ c. is_newline c ≡ false) line
    → IsNoise line
    → get d (parse_dns (a ++ 10 ∷ (line ++ 10 ∷ b))) ≡ get d (parse_dns (a ++ 10 ∷ b))
get-parse_dns-IsNoise a line b d h noise =
    let none_added : get d (parse_dns line) ≡ none =
      rw (parse_dns-IsNoise line h noise) (unfold get in refl) in
    get-parse_dns-append a (line ++ 10 ∷ b) d
    ∙ ap (λ o. or_else o (get d (parse_dns a)))
        (get-parse_dns-append line b d ∙ rw none_added (or_else-none _))
    ∙ sym (get-parse_dns-append a b d)
  where
    or_else-none : (o : Option Bytes) → or_else o none ≡ o
    or_else-none none = refl
    or_else-none (some x) = refl
