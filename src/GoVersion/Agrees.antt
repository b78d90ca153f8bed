-- ===== src/GoVersion/Agrees.antt =====
-- Where the parser of rust/src/dnsmap.rs and that of go/dnsmap.go agree.
use tailcat_socks.Base.{
  ℕ, zero, suc, ◌<◌, ◌≡◌, ◌≢◌, refl, sym, ap, ◌∙◌, true, false, List, [], ◌∷◌, ◌++◌, leb, ◌&&◌,
  ◌==◌, arith, Bool-cases, inl, inr, All, take, drop, take-append-drop, append-nil, append_assoc,
}
use tailcat_socks.Base.Bytes.{Bytes, split, split-ne-nil, cons_head, to_ascii_lowercase}
use tailcat_socks.Dns.Mapping.{Mapping, insert}
use tailcat_socks.Dns.Parse.{
  is_ascii_whitespace, is_blank, is_newline, non_empty, fields_of, insert_all, add_fields, add_line,
  add_lines, trim_ws, parse_dns,
}
use tailcat_socks.Dns.Parse.Trim.{AllSpace, EndsDark, rposition-CutAt, trim_ws_space, trim_ws_dark}
use tailcat_socks.Dns.Rewrite.{rewrite_host}
use tailcat_socks.GoVersion.{
  is_space, trim_left, trim_right, trim_space, fields_from, fields, store_all, store_fields,
  load_line, load_lines, load_text, go_rewrite_host, keep, finish,
}

-- The byte is no vertical tab.
abbrev NoTab : Bytes → Type 0
NoTab = All (λ c. (c == 11) ≡ false)

space-is_space : (c : ℕ) → is_ascii_whitespace c ≡ true → is_space c ≡ true
unfolding is_ascii_whitespace is_space
space-is_space c h = ground arith

dark-is_space : (c : ℕ) → (c == 11) ≡ false → is_ascii_whitespace c ≡ false → is_space c ≡ false
unfolding is_ascii_whitespace is_space
dark-is_space c h k = ground arith

trim_right-AllSpace : (b : Bytes) → AllSpace b → trim_right b ≡ []
unfolding trim_right
trim_right-AllSpace [] h = refl
trim_right-AllSpace (c ∷ s) h = rw (trim_right-AllSpace s h.1, space-is_space c h.0)

-- White space behind a text that ends without is cut off.
trim_right-append : (a b : Bytes) → NoTab a → EndsDark a → AllSpace b → trim_right (a ++ b) ≡ a
unfolding trim_right
trim_right-append [] b n h k = trim_right-AllSpace b k
trim_right-append (c ∷ []) b n h k = rw (trim_right-AllSpace b k, dark-is_space c n.0 h)
trim_right-append (c ∷ d ∷ r) b n h k = ap (keep c) (trim_right-append (d ∷ r) b n.1 h k)

take-All : (P : ℕ → Type 0) (n : ℕ) (s : Bytes) → All P s → All P (take n s)
take-All P zero s h = tt
take-All P (suc n) [] h = tt
take-All P (suc n) (c ∷ s) h = (h.0, take-All P n s h.1)

trim_dark :
    (c : ℕ) (s : Bytes)
    → NoTab (c ∷ s)
    → is_ascii_whitespace c ≡ false
    → trim_right (c ∷ s) ≡ trim_ws (c ∷ s)
trim_dark c s n dark =
    let (j, e, cut) = trim_ws_dark c s dark in
    let at = rposition-CutAt (c ∷ s) j e in
    ap trim_right (sym (take-append-drop (suc j) (c ∷ s)))
    ∙ trim_right-append (take (suc j) (c ∷ s)) (drop (suc j) (c ∷ s)) (take-All _ (suc j) (c ∷ s) n)
        at.kept at.cut
    ∙ sym cut

-- Both cut the same white space off, where there is no vertical tab.
trim_space-eq-trim_ws : (s : Bytes) → NoTab s → trim_space s ≡ trim_ws s
trim_space-eq-trim_ws [] n = unfold trim_space trim_left trim_right trim_ws in refl
trim_space-eq-trim_ws (c ∷ s) n = elim (Bool-cases (is_ascii_whitespace c)) [
  | inl space ↦ drop_first (trim_space-eq-trim_ws s n.1) space
  | inr dark ↦ unfold trim_space trim_left in rw (dark-is_space c n.0 dark) (trim_dark c s n dark)
]
  where
    drop_first :
        trim_space s ≡ trim_ws s
        → is_ascii_whitespace c ≡ true
        → trim_space (c ∷ s) ≡ trim_ws (c ∷ s)
    drop_first ih space =
        rw (trim_ws_space c s space, ← ih)
          (unfold trim_space trim_left in rw (space-is_space c space))

-- A field that was begun, in front of the parts of what follows.
abbrev prefix_head : Bytes → List Bytes → List Bytes
prefix_head word [] = []
prefix_head word (part ∷ parts) = (word ++ part) ∷ parts

prefix_head-nil : (parts : List Bytes) → prefix_head [] parts ≡ parts
prefix_head-nil [] = refl
prefix_head-nil (part ∷ parts) = refl

prefix_head-cons_head :
    (word : Bytes) (c : ℕ) (parts : List Bytes)
    → parts ≢ []
    → prefix_head (word ++ c ∷ []) parts ≡ prefix_head word (cons_head c parts)
prefix_head-cons_head word c [] ne = absurd (ne refl)
prefix_head-cons_head word c (part ∷ parts) ne =
    ap (λ xs. xs ∷ parts) (append_assoc word (c ∷ []) part)

finish-non_empty :
    (word : Bytes) (parts : List Bytes) → finish word (non_empty parts) ≡ non_empty (word ∷ parts)
unfolding finish non_empty
finish-non_empty [] parts = refl
finish-non_empty (c ∷ word) parts = refl

-- The fields are the parts between white space, without the empty ones.
fields_from-eq-split :
    (word s : Bytes) → fields_from word s ≡ non_empty (prefix_head word (split is_space s))
unfolding fields_from split non_empty
fields_from-eq-split word [] =
    finish-non_empty word [] ∙ ap (λ xs. non_empty (xs ∷ [])) (sym (append-nil word))
fields_from-eq-split word (c ∷ s) = elim (Bool-cases (is_space c)) [
  | inl cut ↦ rw cut (
      ap (finish word)
        (fields_from-eq-split [] s ∙ ap non_empty (prefix_head-nil (split is_space s)))
      ∙ finish-non_empty word (split is_space s)
      ∙ ap (λ xs. non_empty (xs ∷ split is_space s)) (sym (append-nil word)))
  | inr kept ↦ rw kept (
      fields_from-eq-split (word ++ c ∷ []) s
      ∙ ap non_empty (prefix_head-cons_head word c (split is_space s) (split-ne-nil is_space s)))
]

-- No byte from line feed to carriage return.
abbrev NoBreak : Bytes → Type 0
NoBreak = All (λ c. (leb 10 c && leb c 13) ≡ false)

blank-is_space : (c : ℕ) → (leb 10 c && leb c 13) ≡ false → is_space c ≡ is_blank c
unfolding is_space
blank-is_space c h = ground arith

split-agrees : (s : Bytes) → NoBreak s → split is_space s ≡ split is_blank s
unfolding split
split-agrees [] h = refl
split-agrees (c ∷ s) h = rw (blank-is_space c h.0, split-agrees s h.1)

fields-eq-fields_of : (s : Bytes) → NoBreak s → fields s ≡ fields_of s
unfolding fields fields_of
fields-eq-fields_of s h =
    fields_from-eq-split [] s ∙ ap non_empty (prefix_head-nil (split is_space s) ∙ split-agrees s h)

store_all-eq-insert_all :
    (token : Bytes) (ds : List Bytes) (m : Mapping) → store_all token ds m ≡ insert_all token ds m
unfolding store_all insert_all
store_all-eq-insert_all token [] m = refl
store_all-eq-insert_all token (d ∷ ds) m =
    store_all-eq-insert_all token ds (insert (to_ascii_lowercase d) token m)

store_fields-eq-add_fields : (fs : List Bytes) (m : Mapping) → store_fields fs m ≡ add_fields fs m
unfolding store_fields add_fields
store_fields-eq-add_fields [] m = refl
store_fields-eq-add_fields (token ∷ ds) m = store_all-eq-insert_all token ds m

load_line-eq-add_line :
    (line : Bytes) (m : Mapping) → NoBreak line → load_line line m ≡ add_line line m
unfolding load_line add_line
load_line-eq-add_line [] m h = refl
load_line-eq-add_line (c ∷ line) m h =
    rw (fields-eq-fields_of (c ∷ line) h, store_fields-eq-add_fields (fields_of (c ∷ line)) m)

-- A line of ASCII with no vertical tab, and, once its ends are trimmed, with no byte from line feed to
-- carriage return.
pub record IsPlain (raw : Bytes) : Type 0 where
  pub ascii : All (λ c. c < 128) raw
  pub no_tab : All (λ c. (c == 11) ≡ false) raw
  pub no_break : All (λ c. (leb 10 c && leb c 13) ≡ false) (trim_ws raw)

load_lines-eq-add_lines :
    (lines : List Bytes) (m : Mapping) → All IsPlain lines → load_lines lines m ≡ add_lines lines m
unfolding load_lines add_lines
load_lines-eq-add_lines [] m h = refl
load_lines-eq-add_lines (raw ∷ lines) m h =
    rw (trim_space-eq-trim_ws raw h.0.no_tab, load_line-eq-add_line (trim_ws raw) m h.0.no_break)
      (load_lines-eq-add_lines lines (add_line (trim_ws raw) m) h.1)

rewrite_host-eq-go : (host : Bytes) (m : Mapping) → rewrite_host host m ≡ go_rewrite_host host m
unfolding rewrite_host go_rewrite_host
rewrite_host-eq-go host m = ground arith

-- On a file whose lines are ASCII, with no vertical tab, and with no form feed, carriage return or line feed
-- left in a trimmed line, the Rust version reads the map that the Go version reads, and sends every ASCII host
-- on as the Go version does.
pub parse_dns-eq-load_text :
    (text host : Bytes)
    → All IsPlain (split is_newline text)
    → All (λ c. c < 128) host
    → (parse_dns text ≡ load_text text)
      × (rewrite_host host (parse_dns text) ≡ go_rewrite_host host (load_text text))
parse_dns-eq-load_text text host h k =
    (same, rewrite_host-eq-go host (parse_dns text) ∙ ap (go_rewrite_host host) same)
  where
    same : parse_dns text ≡ load_text text
    same = unfold parse_dns load_text in sym (load_lines-eq-add_lines (split is_newline text) [] h)
