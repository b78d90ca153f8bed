-- ===== src/Dns/Parse/Keys.antt =====
-- What every entry of a map read by `parse_dns` of rust/src/dnsmap.rs looks like.
use mathlib.Core.List.{cons-ne-nil}
use tailcat_socks.Base.{ℕ, ◌≡◌, ◌≢◌, false, List, [], ◌∷◌, ◌==◌, Bool-cases, All, inl, inr}
use tailcat_socks.Base.Bytes.{Bytes, split, cons_head, to_ascii_lowercase, to_ascii_lowercase_idem}
use tailcat_socks.Dns.Mapping.{Mapping, insert}
use tailcat_socks.Dns.Mapping.Laws.{IsMap, insert-IsMap, insert-All}
use tailcat_socks.Dns.Parse.{
  is_blank, non_empty, fields_of, insert_all, add_fields, add_line, add_lines, trim_ws, parse_dns,
  is_newline,
}

-- A field of a line: not empty, and with no space and no tab.
abbrev pub IsField : Bytes → Type 0
IsField f = (f ≢ []) × All (λ c. is_blank c ≡ false) f

-- The domain is in lower case and not empty, and the token is a field.
abbrev pub IsEntry : Bytes × Bytes → Type 0
IsEntry e = (to_ascii_lowercase e.0 ≡ e.0) × (e.0 ≢ []) × IsField e.1

abbrev IsGood : Mapping → Type 0
IsGood m = IsMap m × All IsEntry m

cons_head-free :
    (c : ℕ) (parts : List Bytes)
    → is_blank c ≡ false
    → All (All (λ c. is_blank c ≡ false)) parts
    → All (All (λ c. is_blank c ≡ false)) (cons_head c parts)
cons_head-free c [] h k = ((h, tt), tt)
cons_head-free c (p ∷ ps) h k = ((h, k.0), k.1)

split-free : (s : Bytes) → All (All (λ c. is_blank c ≡ false)) (split is_blank s)
unfolding split
split-free [] = (tt, tt)
split-free (c ∷ s) = elim (Bool-cases (is_blank c)) [
  | inl cut ↦ rw cut (tt, split-free s)
  | inr kept ↦ rw kept (cons_head-free c (split is_blank s) kept (split-free s))
]

non_empty-IsField :
    (parts : List Bytes) → All (All (λ c. is_blank c ≡ false)) parts → All IsField (non_empty parts)
unfolding non_empty
non_empty-IsField [] h = tt
non_empty-IsField ([] ∷ ps) h = non_empty-IsField ps h.1
non_empty-IsField ((c ∷ f) ∷ ps) h = ((cons-ne-nil c f, h.0), non_empty-IsField ps h.1)

lower-ne-nil : (d : Bytes) → d ≢ [] → to_ascii_lowercase d ≢ []
lower-ne-nil [] h = h
lower-ne-nil (c ∷ d) h = cons-ne-nil _ _

insert_all-IsGood :
    (token : Bytes) (ds : List Bytes) (m : Mapping)
    → IsField token
    → All IsField ds
    → IsGood m
    → IsGood (insert_all token ds m)
unfolding insert_all
insert_all-IsGood token [] m ht hd g = g
insert_all-IsGood token (d ∷ ds) m ht hd g =
    let key = to_ascii_lowercase d in
    insert_all-IsGood token ds (insert key token m) ht hd.1 (
      insert-IsMap key token m g.0,
      insert-All IsEntry key token m (to_ascii_lowercase_idem d, lower-ne-nil d hd.0.0, ht) g.1,
    )

add_fields-IsGood :
    (fs : List Bytes) (m : Mapping) → All IsField fs → IsGood m → IsGood (add_fields fs m)
unfolding add_fields
add_fields-IsGood [] m h g = g
add_fields-IsGood (t ∷ ds) m h g = insert_all-IsGood t ds m h.0 h.1 g

add_line-IsGood : (line : Bytes) (m : Mapping) → IsGood m → IsGood (add_line line m)
unfolding add_line
add_line-IsGood [] m g = g
add_line-IsGood (c ∷ line) m g = elim (Bool-cases (c == b'#')) [
  | inl hash ↦ rw hash g
  | inr other ↦ rw other (
      add_fields-IsGood (fields_of (c ∷ line)) m
        (unfold fields_of in non_empty-IsField (split is_blank (c ∷ line)) (split-free (c ∷ line)))
        g)
]

add_lines-IsGood : (lines : List Bytes) (m : Mapping) → IsGood m → IsGood (add_lines lines m)
unfolding add_lines
add_lines-IsGood [] m g = g
add_lines-IsGood (raw ∷ lines) m g =
    add_lines-IsGood lines (add_line (trim_ws raw) m) (add_line-IsGood (trim_ws raw) m g)

-- Whatever the file holds, its map has one entry for a key, each key is a non-empty domain in lower
-- case, and each token is non-empty with no space and no tab.
pub parse_dns-IsMap : (text : Bytes) → IsMap (parse_dns text) × All IsEntry (parse_dns text)
unfolding parse_dns
parse_dns-IsMap text = add_lines-IsGood (split is_newline text) [] (tt, tt)
