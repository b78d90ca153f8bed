-- ===== src/Dns/Watch/Failures.antt =====
-- What `watch` of rust/src/dnsmap.rs does when the file cannot be looked at or read.
use tailcat_socks.Base.{ℕ, ◌≡◌, refl, ◌∙◌, List, [], ◌∷◌, ◌++◌, none, some, All, inl, inr, ap}
use tailcat_socks.Base.Bytes.{Bytes}
use tailcat_socks.Base.Result.{ok, err}
use tailcat_socks.Error.{IoError}
use tailcat_socks.Dns.Watch.{
  DnsMap, Stat, absent, present, Watcher, tick, Wake, cancelled, ticked, watch_loop, watch, start,
  ReadResult, load,
}
use tailcat_socks.Dns.Parse.{parse_dns}
use tailcat_socks.Dns.Watch.Fresh.{tick_unread, tick_seen}

-- The round finds no file, no time, or no text.
abbrev pub Fails : Wake → Type 0
Fails cancelled = ⊥
Fails (ticked absent contents) = Unit
Fails (ticked (present none) contents) = Unit
Fails (ticked (present (some t)) (ok text)) = ⊥
Fails (ticked (present (some t)) (err e)) = Unit

tick-Fails :
    (path : Bytes) (stat : Stat) (contents : ReadResult) (w : Watcher)
    → Fails (ticked stat contents)
    → ((tick path stat contents w).last_mod ≡ w.last_mod)
      × ((tick path stat contents w).cell ≡ w.cell)
tick-Fails path absent contents w h = unfold tick in (refl, refl)
tick-Fails path (present none) contents w h = unfold tick in (refl, refl)
tick-Fails path (present (some t)) (ok text) w h = absurd h
tick-Fails path (present (some t)) (err e) w h = tick_unread path (present (some t)) e w

watch_loop-Fails :
    (path : Bytes) (wakes : List Wake) (w : Watcher)
    → All Fails wakes
    → ((watch_loop path wakes w).last_mod ≡ w.last_mod) × ((watch_loop path wakes w).cell ≡ w.cell)
unfolding watch_loop
watch_loop-Fails path [] w h = (refl, refl)
watch_loop-Fails path (cancelled ∷ wakes) w h = absurd h.0
watch_loop-Fails path (ticked stat contents ∷ wakes) w h =
    let (kept_time, kept_map) = watch_loop-Fails path wakes (tick path stat contents w) h.1 in
    let (same_time, same_map) = tick-Fails path stat contents w h.0 in
    (kept_time ∙ same_time, kept_map ∙ same_map)

watch_loop-append :
    (path : Bytes) (xs ys : List Wake) (w : Watcher)
    → All Fails xs
    → watch_loop path (xs ++ ys) w ≡ watch_loop path ys (watch_loop path xs w)
unfolding watch_loop
watch_loop-append path [] ys w h = refl
watch_loop-append path (cancelled ∷ xs) ys w h = absurd h.0
watch_loop-append path (ticked stat contents ∷ xs) ys w h =
    watch_loop-append path xs ys (tick path stat contents w) h.1

tick-none :
    (path text : Bytes) (t : ℕ) (w : Watcher)
    → w.last_mod ≡ none
    → load (tick path (present (some t)) (ok text) w).cell ≡ parse_dns text
tick-none path text t w h = elim (tick_seen path text t w) [
  | inl (e, same) ↦ cc
  | inr (e, read) ↦ read
]

start_failed :
    (path : Bytes) (cell : DnsMap) (stat : Stat) (e : IoError)
    → ((start path stat (err e) cell).last_mod ≡ none)
      × ((start path stat (err e) cell).cell ≡ cell)
unfolding start
start_failed path cell stat e = (refl, refl)

-- After a first load that failed, whatever time was seen, and any number of failing rounds, the map
-- is the one that was there before, and the next round that can look and read loads the file, whatever
-- its time is.
pub watch_retries :
    (path text : Bytes) (cell : DnsMap) (stat : Stat) (e : IoError) (wakes : List Wake) (t : ℕ)
    → All Fails wakes
    → ((watch path cell stat (err e) wakes).cell ≡ cell)
      × (load
            (watch path cell stat (err e) (wakes ++ ticked (present (some t)) (ok text) ∷ [])).cell
          ≡ parse_dns text)
unfolding watch
watch_retries path text cell stat e wakes t h =
    let w = start path stat (err e) cell in
    let (no_time, same_map) = start_failed path cell stat e in
    let (kept_time, kept_map) = watch_loop-Fails path wakes w h in
    (
      kept_map ∙ same_map,
      ap (λ v. load v.cell) (watch_loop-append path wakes _ w h)
          ∙ unfold watch_loop in
            tick-none path text t (watch_loop path wakes w) (kept_time ∙ no_time),
    )
