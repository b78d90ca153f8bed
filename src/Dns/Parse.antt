-- ===== src/Dns/Parse.antt =====
-- `trim_ws`, `parse_dns` and `load_dns_file` of rust/src/dnsmap.rs: the text of dns.txt, line by line.
pub mod Trim
pub mod Lookup
pub mod Render
pub mod Keys
use tailcat_socks.Base.{
  ℕ, zero, suc, ◌+◌, ◌-◌, Bool, true, false, not, ◌||◌, List, [], ◌∷◌, Option, none, some, ◌==◌,
  if◌then◌else◌, take, drop,
}
use tailcat_socks.Base.Bytes.{Bytes, to_ascii_lowercase, position, rposition, split}
use tailcat_socks.Dns.Mapping.{Mapping, insert}

-- `u8::is_ascii_whitespace`: space, tab, line feed, form feed and carriage return.
unfoldable pub is_ascii_whitespace : ℕ → Bool
is_ascii_whitespace c = c == b' ' || c == 9 || c == 10 || c == 12 || c == 13

abbrev pub not_ws : ℕ → Bool
not_ws c = not (is_ascii_whitespace c)

-- `&b[start..=end]`
abbrev pub slice : ℕ → ℕ → Bytes → Bytes
slice start end b = take (end + 1 - start) (drop start b)

unfoldable pub trim_ws : Bytes → Bytes
unfolding position rposition
trim_ws b = elim (position not_ws b) [
  | none ↦ []
  | some start ↦ elim (rposition not_ws b) [ none ↦ [] | some end ↦ slice start end b ]
]

abbrev pub is_newline : ℕ → Bool
is_newline c = c == 10

-- The byte that parts two fields of a line.
abbrev pub is_blank : ℕ → Bool
is_blank c = c == b' ' || c == 9

-- `.filter(|f| !f.is_empty())`
unfoldable pub non_empty : List Bytes → List Bytes
non_empty [] = []
non_empty ([] ∷ parts) = non_empty parts
non_empty ((c ∷ f) ∷ parts) = (c ∷ f) ∷ non_empty parts

-- `line.split(blank).filter(non-empty)`
unfoldable pub fields_of : Bytes → List Bytes
fields_of line = non_empty (split is_blank line)

-- `for d in fields { mapping.insert(d.to_ascii_lowercase(), token.to_vec()); }`
unfoldable pub insert_all : Bytes → List Bytes → Mapping → Mapping
insert_all token [] m = m
insert_all token (d ∷ ds) m = insert_all token ds (insert (to_ascii_lowercase d) token m)

-- The fields of a line that is no comment: the first is the token.
unfoldable pub add_fields : List Bytes → Mapping → Mapping
add_fields [] m = m
add_fields (token ∷ fields) m = insert_all token fields m

-- A line that has been trimmed.
unfoldable pub add_line : Bytes → Mapping → Mapping
add_line [] m = m
add_line (c ∷ line) m = if c == b'#' then m else add_fields (fields_of (c ∷ line)) m

-- The loop over the lines.
unfoldable pub add_lines : List Bytes → Mapping → Mapping
add_lines [] m = m
add_lines (raw ∷ lines) m = add_lines lines (add_line (trim_ws raw) m)

unfoldable pub parse_dns : Bytes → Mapping
parse_dns text = add_lines (split is_newline text) []
