-- ===== src/Live/News.antt =====
-- Which looks of `watch` of rust/src/dnsmap.rs bring news of the file, by the looks before alone.
use tailcat_socks.Base.{ℕ, ◌≡◌, Bool, true, false, List, [], ◌∷◌, Option, some, none, if◌then◌else◌}
use tailcat_socks.Base.Result.{ok, err}
use tailcat_socks.Error.{IoError}
use tailcat_socks.Dns.Watch.{ReadResult, Stat, absent, present, unix_epoch}
use tailcat_socks.Live.{Activity, polled, arrives}

-- Activities are listed with the last one first.
unfoldable pub has_looked : List Activity → Bool
has_looked [] = false
has_looked (polled stat contents ∷ before) = true
has_looked (arrives w conn ∷ before) = has_looked before

-- The time that the last look with a time and a text showed. A first look that finds the file but not its time
-- counts as one at the epoch.
unfoldable pub last_read : List Activity → Option ℕ
unfolding has_looked
last_read [] = none
last_read (arrives w conn ∷ before) = last_read before
last_read (polled stat (err e) ∷ before) = last_read before
last_read (polled absent (ok text) ∷ before) = last_read before
last_read (polled (present none) (ok text) ∷ before) =
    if has_looked before then last_read before else some unix_epoch
last_read (polled (present (some t)) (ok text) ∷ before) = some t

-- A look that brings no news: there is no watcher, the read fails, a look that is not the first has no time, or the
-- time is that of the last look that read the file.
pub data Quiet (no_watch : Bool) (before : List Activity) : Stat → ReadResult → Type 0 where
  unwatched :
      (stat : Stat) (contents : ReadResult) → no_watch ≡ true → Quiet no_watch before stat contents
  failed : (stat : Stat) (e : IoError) → Quiet no_watch before stat (err e)
  gone : (contents : ReadResult) → has_looked before ≡ true → Quiet no_watch before absent contents
  timeless :
      (contents : ReadResult)
      → has_looked before ≡ true
      → Quiet no_watch before (present none) contents
  unchanged :
      (t : ℕ) (contents : ReadResult)
      → last_read before ≡ some t
      → Quiet no_watch before (present (some t)) contents
