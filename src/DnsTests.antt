-- ===== src/DnsTests.antt =====
-- The test functions of rust/src/dnsmap.rs: each assertion as a test of its own, joined in order.
pub mod Rounds
pub mod Watching
use tailcat_socks.Base.{
  ℕ, ◌≡◌, ◌≢◌, ◌++◌, refl, Bool, true, false, ◌&&◌, ◌||◌, length, not, List, [], ◌∷◌, Option, none,
  some, arith, ◌==◌, replicate, suc, zero,
}
use tailcat_socks.Base.Bytes.{Bytes, codes, bytes_eq, lower, split, position, rposition}
use tailcat_socks.Base.Result.{Result, ok, err}
use tailcat_socks.Error.{IoError, DnsFileError}
use tailcat_socks.Dns.Mapping.{Mapping, get, insert, contains, token_set, len}
use tailcat_socks.Dns.Parse.{
  parse_dns, add_lines, add_line, trim_ws, is_ascii_whitespace, add_fields, fields_of, non_empty,
  insert_all,
}
use tailcat_socks.Dns.Rewrite.{rewrite_host}
use tailcat_socks.Dns.Watch.{
  load_dns_file, DnsMap, new, load, Stat, present, Wake, ticked, Watcher, watch,
}
use tailcat_socks.Logging.{Texts, joined, dns_error_text}

-- `collect()` of pairs into a map, in order.
from_pairs : Mapping → List (Bytes × Bytes) → Mapping
from_pairs m [] = m
from_pairs m ((d, t) ∷ entries) = from_pairs (insert d t m) entries

mapping_from : List (Bytes × Bytes) → Mapping
unfolding from_pairs
mapping_from entries = from_pairs [] entries

-- `assert_eq!(m.get(d), Some(tok))`
pub maps : Mapping → Bytes → Bytes → Bool
maps m d tok = elim (get d m) [ none ↦ false | some t ↦ bytes_eq t tok ]

pub contains_key : Mapping → Bytes → Bool
contains_key m d = elim (get d m) [ none ↦ false | some t ↦ true ]

abbrev pub line_feed : Bytes
line_feed = 10 ∷ []

unfoldable parse_basic : Bool
unfolding maps contains_key
parse_basic =
    let m = parse_dns (
      joined (
        line_feed
        ∷ codes "# comment line"
        ∷ line_feed
        ∷ codes "tcXYZabc123   www.example.com  api.example.com"
        ∷ line_feed
        ∷ codes "tcDEF456ghi   foo.com"
        ∷ line_feed
        ∷ line_feed
        ∷ codes "tcGGG         bar.com"
        ∷ (9 ∷ codes "baz.com")
        ∷ line_feed
        ∷ [])) in
    maps m (codes "www.example.com") (codes "tcXYZabc123")
    && maps m (codes "api.example.com") (codes "tcXYZabc123")
    && maps m (codes "foo.com") (codes "tcDEF456ghi")
    && maps m (codes "bar.com") (codes "tcGGG")
    && maps m (codes "baz.com") (codes "tcGGG")
    && not (contains_key m (codes "tcxyzabc123"))

unfoldable parse_crlf_and_whitespace : Bool
unfolding maps
parse_crlf_and_whitespace =
    let m = parse_dns (
      joined (
        codes "tcA dup.com"
        ∷ (13 ∷ line_feed)
        ∷ codes "tcB"
        ∷ (9 ∷ codes "second.org")
        ∷ (13 ∷ line_feed)
        ∷ [])) in
    maps m (codes "dup.com") (codes "tcA") && maps m (codes "second.org") (codes "tcB")

unfoldable token_only_line_contributes_nothing : Bool
token_only_line_contributes_nothing = len (parse_dns (codes "tcONLYONE" ++ line_feed)) == 0

unfoldable later_line_wins : Bool
unfolding maps
later_line_wins =
    maps
      (parse_dns (joined (codes "tcA dup.com" ∷ line_feed ∷ codes "tcB dup.com" ∷ line_feed ∷ [])))
      (codes "dup.com") (codes "tcB")

-- `starts_with` and `contains` of `str`
starts_with : Bytes → Bytes → Bool
starts_with [] s = true
starts_with (c ∷ part) [] = false
starts_with (c ∷ part) (d ∷ s) = c == d && starts_with part s

contains_text : Bytes → Bytes → Bool
unfolding starts_with
contains_text part [] = starts_with part []
contains_text part (c ∷ s) = starts_with part (c ∷ s) || contains_text part s

-- What the file system says of the missing file is an argument.
unfoldable load_dns_file_reports_read_errors : Texts → IoError → Bool
unfolding contains_text
load_dns_file_reports_read_errors t missing =
    elim (load_dns_file (codes "/nonexistent/nope.txt") (err missing)) [
      | ok m ↦ false
      | err e ↦ contains_text (codes "cannot load") (dns_error_text t e)
    ]

unfoldable rewrite_host_case_rules : Bool
unfolding mapping_from
rewrite_host_case_rules =
    let m = mapping_from ((codes "www.example.com", codes "tcXYZ") ∷ []) in
    bytes_eq (rewrite_host (codes "www.example.com") m) (codes "tcXYZ")
    && bytes_eq (rewrite_host (codes "WWW.Example.COM") m) (codes "tcXYZ")
    && bytes_eq (rewrite_host (codes "other.com") m) (codes "other.com")

unfoldable rewrite_keeps_raw_bytes_and_token_case : Bool
unfolding mapping_from
rewrite_keeps_raw_bytes_and_token_case =
    let m = mapping_from ((codes "www.example.com", codes "tcMiXeD123") ∷ []) in
    let raw : Bytes = 0xFF ∷ b'a' ∷ 0xFE ∷ [] in
    bytes_eq (rewrite_host (codes "www.EXAMPLE.com") m) (codes "tcMiXeD123")
    && bytes_eq (rewrite_host raw m) raw

unfoldable token_set_counts_distinct : Bool
unfolding mapping_from
token_set_counts_distinct =
    let m = mapping_from (
      (codes "a.com", codes "tc1")
      ∷ (codes "b.com", codes "tc1")
      ∷ (codes "c.com", codes "tc2")
      ∷ []) in
    length (token_set m) == 2

parse_basic_passes : parse_basic ≡ true
unfolding parse_basic parse_dns get add_lines split joined add_line trim_ws is_ascii_whitespace
    add_fields fields_of non_empty insert_all insert bytes_eq lower
parse_basic_passes = refl

parse_crlf_and_whitespace_passes : parse_crlf_and_whitespace ≡ true
unfolding parse_crlf_and_whitespace parse_dns get add_lines split joined add_line trim_ws
    is_ascii_whitespace add_fields fields_of non_empty insert_all insert bytes_eq lower
parse_crlf_and_whitespace_passes = refl

token_only_line_contributes_nothing_passes : token_only_line_contributes_nothing ≡ true
unfolding token_only_line_contributes_nothing parse_dns add_lines split add_line trim_ws
    is_ascii_whitespace add_fields fields_of non_empty insert_all
token_only_line_contributes_nothing_passes = refl

later_line_wins_passes : later_line_wins ≡ true
unfolding later_line_wins parse_dns get add_lines split joined add_line trim_ws is_ascii_whitespace
    add_fields fields_of non_empty insert_all insert bytes_eq lower
later_line_wins_passes = refl

load_dns_file_reports_read_errors_passes :
    (t : Texts) (missing : IoError) → load_dns_file_reports_read_errors t missing ≡ true
unfolding load_dns_file_reports_read_errors load_dns_file dns_error_text joined
load_dns_file_reports_read_errors_passes t missing = refl

rewrite_host_case_rules_passes : rewrite_host_case_rules ≡ true
unfolding rewrite_host_case_rules rewrite_host get bytes_eq insert lower
rewrite_host_case_rules_passes = refl

rewrite_keeps_raw_bytes_and_token_case_passes : rewrite_keeps_raw_bytes_and_token_case ≡ true
unfolding rewrite_keeps_raw_bytes_and_token_case rewrite_host get bytes_eq insert lower
rewrite_keeps_raw_bytes_and_token_case_passes = refl

token_set_counts_distinct_passes : token_set_counts_distinct ≡ true
unfolding token_set_counts_distinct token_set insert bytes_eq
token_set_counts_distinct_passes = refl
