-- ===== src/DnsTests/Watching.antt =====
-- The tests of the watcher of rust/src/dnsmap.rs. Where a test waits, the watcher's rounds are counted by
-- an argument, and the file is found either as it was before a write or as it is behind it.
use tailcat_socks.Base.{
  ℕ, suc, ◌≡◌, refl, ap, ◌∙◌, Bool, true, false, ◌&&◌, not, [], ◌++◌, arith, ◌==◌,
}
use tailcat_socks.Base.Bytes.{Bytes, codes, bytes_eq, lower, split}
use tailcat_socks.Base.Result.{ok, err}
use tailcat_socks.Error.{IoError}
use tailcat_socks.Dns.Mapping.{get, insert, len}
use tailcat_socks.Dns.Parse.{
  parse_dns, add_lines, add_line, trim_ws, is_ascii_whitespace, add_fields, fields_of, non_empty,
  insert_all,
}
use tailcat_socks.Dns.Watch.{new, load, absent, Watcher, start, watch_loop, watch}
use tailcat_socks.DnsTests.{maps, contains_key, line_feed}
use tailcat_socks.DnsTests.Rounds.{
  rounds, path, at_time, shown, watch_loop-append, rounds-AllTicked, rounds_fresh, rounds_failing,
  start_lem, shown_early, behind_early, absent_still,
}

unfoldable watch_reloads_on_mtime_change : ℕ → ℕ → ℕ → ℕ → Bool
unfolding contains_key
watch_reloads_on_mtime_change t0 t1 before after =
    let first = ok (codes "tcA alpha.com" ++ line_feed) in
    let second = ok (codes "tcB beta.com" ++ line_feed) in
    let early = rounds before (at_time t0) first in
    let late = shown (at_time t0) first (early ++ rounds after (at_time t1) second) in
    contains_key (shown (at_time t0) first early) (codes "alpha.com")
    && contains_key late (codes "beta.com")
    && not (contains_key late (codes "alpha.com"))

unfoldable watch_keeps_previous_map_on_read_error : ℕ → ℕ → IoError → ℕ → ℕ → Bool
unfolding maps contains_key
watch_keeps_previous_map_on_read_error t0 t1 e before after =
    let first = ok (codes "tcA keep.com" ++ line_feed) in
    let early = rounds before (at_time t0) first in
    contains_key (shown (at_time t0) first early) (codes "keep.com")
    && maps (shown (at_time t0) first (early ++ rounds after (at_time t1) (err e)))
        (codes "keep.com") (codes "tcA")

unfoldable watch_retries_failed_initial_load : ℕ → IoError → ℕ → ℕ → Bool
unfolding contains_key
watch_retries_failed_initial_load t missing before after =
    let early = rounds before absent (err missing) in
    len (shown absent (err missing) early) == 0
    && contains_key
        (shown absent (err missing)
          (early ++ rounds after (at_time t) (ok (codes "tcLate late.com" ++ line_feed))))
        (codes "late.com")

-- The test of the reload passes if the write moves the file's time and a round follows it.
watch_reloads_on_mtime_change_passes :
    (t0 t1 before after : ℕ)
    → (t0 == t1) ≡ false
    → watch_reloads_on_mtime_change t0 t1 before (suc after) ≡ true
unfolding watch_reloads_on_mtime_change
watch_reloads_on_mtime_change_passes t0 t1 before after moved =
    rw (shown_early before t0 first, late) verdict
  where
    first : Bytes
    first = codes "tcA alpha.com" ++ line_feed

    second : Bytes
    second = codes "tcB beta.com" ++ line_feed

    late :
        shown
          (at_time t0)
          (ok first)
          (rounds before (at_time t0) (ok first) ++ rounds (suc after) (at_time t1) (ok second))
        ≡ parse_dns second
    late =
        ap (λ (v : Watcher). load v.cell) (behind_early before t0 first _)
        ∙ rounds_fresh after t1 second _ (λ lm e. ground (arith, e, (start_lem t0 first).1, moved))

    verdict :
        (contains_key (parse_dns first) (codes "alpha.com")
          && contains_key (parse_dns second) (codes "beta.com")
          && not (contains_key (parse_dns second) (codes "alpha.com")))
        ≡ true
    verdict =
        unfold contains_key parse_dns get add_lines split add_line trim_ws is_ascii_whitespace
          add_fields fields_of non_empty insert_all insert bytes_eq lower in
        refl

watch_keeps_previous_map_on_read_error_passes :
    (t0 t1 : ℕ) (e : IoError) (before after : ℕ)
    → watch_keeps_previous_map_on_read_error t0 t1 e before after ≡ true
unfolding watch_keeps_previous_map_on_read_error
watch_keeps_previous_map_on_read_error_passes t0 t1 e before after =
    rw (shown_early before t0 first, late) verdict
  where
    first : Bytes
    first = codes "tcA keep.com" ++ line_feed

    late :
        shown
          (at_time t0)
          (ok first)
          (rounds before (at_time t0) (ok first) ++ rounds after (at_time t1) (err e))
        ≡ parse_dns first
    late =
        ap (λ (v : Watcher). load v.cell) (behind_early before t0 first _)
        ∙ ap load (rounds_failing after t1 e _)
        ∙ (start_lem t0 first).0

    verdict :
        (contains_key (parse_dns first) (codes "keep.com")
          && maps (parse_dns first) (codes "keep.com") (codes "tcA"))
        ≡ true
    verdict =
        unfold contains_key maps parse_dns get add_lines split add_line trim_ws is_ascii_whitespace
          add_fields fields_of non_empty insert_all insert bytes_eq lower in
        refl

-- The test of the late file passes if a round follows the write.
watch_retries_failed_initial_load_passes :
    (t : ℕ) (missing : IoError) (before after : ℕ)
    → watch_retries_failed_initial_load t missing before (suc after) ≡ true
unfolding watch_retries_failed_initial_load
watch_retries_failed_initial_load_passes t missing before after = rw (none_yet, late) verdict
  where
    text : Bytes
    text = codes "tcLate late.com" ++ line_feed

    failed : Watcher
    failed = start path absent (err missing) new

    none_yet : shown absent (err missing) (rounds before absent (err missing)) ≡ []
    none_yet =
        unfold watch in
        ap (λ (v : Watcher). load v.cell) (absent_still before missing failed)
        ∙ unfold start load new in refl

    late :
        shown absent
          (err missing)
          (rounds before absent (err missing) ++ rounds (suc after) (at_time t) (ok text))
        ≡ parse_dns text
    late =
        unfold watch in
        ap (λ (v : Watcher). load v.cell)
          (watch_loop-append (rounds before absent (err missing)) _ failed
              (rounds-AllTicked before absent (err missing))
            ∙ ap (watch_loop path _) (absent_still before missing failed))
        ∙ rounds_fresh after t text failed (unfold start in λ lm e. absurd (ground (arith, e)))

    verdict : ((len [] == 0) && contains_key (parse_dns text) (codes "late.com")) ≡ true
    verdict =
        unfold contains_key parse_dns get add_lines split add_line trim_ws is_ascii_whitespace
          add_fields fields_of non_empty insert_all insert bytes_eq lower in
        refl
