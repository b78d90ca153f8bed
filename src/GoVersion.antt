-- ===== src/GoVersion.antt =====
-- `LoadDNSFile` and `RewriteHost` of go/dnsmap.go, which the comments of rust/src/dnsmap.rs name as what they mirror.
-- The functions of Go's `strings` are written as documented, on ASCII text.
pub mod Agrees
use tailcat_socks.Base.{
  ℕ, Bool, true, false, ◌&&◌, ◌||◌, List, [], ◌∷◌, ◌++◌, Option, none, some, leb, ◌==◌,
  if◌then◌else◌, get_or,
}
use tailcat_socks.Base.Bytes.{Bytes, split, to_ascii_lowercase}
use tailcat_socks.Dns.Mapping.{Mapping, get, insert}

-- `unicode.IsSpace` below 128: the space, and tab to carriage return with the vertical tab.
unfoldable pub is_space : ℕ → Bool
is_space c = c == b' ' || leb 9 c && leb c 13

-- `strings.TrimSpace`
unfoldable pub trim_left : Bytes → Bytes
trim_left [] = []
trim_left (c ∷ s) = if is_space c then trim_left s else c ∷ s

keep : ℕ → Bytes → Bytes
keep c [] = if is_space c then [] else c ∷ []
keep c (d ∷ r) = c ∷ d ∷ r

unfoldable pub trim_right : Bytes → Bytes
unfolding keep
trim_right [] = []
trim_right (c ∷ s) = keep c (trim_right s)

unfoldable pub trim_space : Bytes → Bytes
trim_space s = trim_right (trim_left s)

-- `strings.Fields`: `word` is what has been read of the field at hand.
finish : Bytes → List Bytes → List Bytes
finish [] fields = fields
finish (c ∷ word) fields = (c ∷ word) ∷ fields

unfoldable pub fields_from : Bytes → Bytes → List Bytes
unfolding finish
fields_from word [] = finish word []
fields_from word (c ∷ s) =
    let cut = finish word (fields_from [] s) in
    let grown = fields_from (word ++ c ∷ []) s in if is_space c then cut else grown

unfoldable pub fields : Bytes → List Bytes
fields s = fields_from [] s

-- `for _, d := range domains { mapping[strings.ToLower(d)] = token }`
unfoldable pub store_all : Bytes → List Bytes → Mapping → Mapping
store_all token [] m = m
store_all token (d ∷ domains) m = store_all token domains (insert (to_ascii_lowercase d) token m)

-- `fields[0], fields[1:]`. A line that is not blank has a field.
unfoldable pub store_fields : List Bytes → Mapping → Mapping
store_fields [] m = m
store_fields (token ∷ domains) m = store_all token domains m

unfoldable pub load_line : Bytes → Mapping → Mapping
load_line [] m = m
load_line (c ∷ line) m = if c == b'#' then m else store_fields (fields (c ∷ line)) m

unfoldable pub load_lines : List Bytes → Mapping → Mapping
load_lines [] m = m
load_lines (raw ∷ lines) m = load_lines lines (load_line (trim_space raw) m)

-- `LoadDNSFile`, on the text of the file.
unfoldable pub load_text : Bytes → Mapping
load_text text = load_lines (split (λ c. c == 10) text) []

unfoldable pub go_rewrite_host : Bytes → Mapping → Bytes
go_rewrite_host host m = elim (get (to_ascii_lowercase host) m) [ some token ↦ token | none ↦ host ]
