-- ===== src/DnsTests/Rounds.antt =====
-- The rounds of `watch` of rust/src/dnsmap.rs that find a file unchanged, written anew, or unreadable.
use tailcat_socks.Base.{
  ℕ, zero, suc, ◌≡◌, refl, ap, inl, inr, Option-cases, ◌∙◌, false, List, [], ◌∷◌, ◌++◌, some, arith,
  ◌==◌, replicate,
}
use tailcat_socks.Base.Bytes.{Bytes, codes}
use tailcat_socks.Base.Result.{ok, err}
use tailcat_socks.Error.{IoError}
use tailcat_socks.Dns.Mapping.{Mapping}
use tailcat_socks.Dns.Parse.{parse_dns}
use tailcat_socks.Dns.Watch.{
  ReadResult, new, load, store, Stat, absent, present, Wake, cancelled, ticked, Watcher, start,
  tick, watch_loop, watch,
}

-- No round is the cancellation.
abbrev pub AllTicked : List Wake → Type 0
AllTicked [] = Unit
AllTicked (cancelled ∷ wakes) = ⊥
AllTicked (ticked stat contents ∷ wakes) = AllTicked wakes

-- `n` rounds that find the same file.
abbrev pub rounds : ℕ → Stat → ReadResult → List Wake
rounds n stat contents = replicate n (ticked stat contents)

abbrev pub path : Bytes
path = codes "dns.txt"

abbrev pub at_time : ℕ → Stat
at_time t = present (some t)

-- The map that the test's clone of the cell shows.
abbrev pub shown : Stat → ReadResult → List Wake → Mapping
shown stat contents wakes = load (watch path new stat contents wakes).cell

pub watch_loop-append :
    (xs ys : List Wake) (w : Watcher)
    → AllTicked xs
    → watch_loop path (xs ++ ys) w ≡ watch_loop path ys (watch_loop path xs w)
unfolding watch_loop
watch_loop-append [] ys w h = refl
watch_loop-append (cancelled ∷ xs) ys w h = absurd h
watch_loop-append (ticked stat contents ∷ xs) ys w h =
    watch_loop-append xs ys (tick path stat contents w) h

pub rounds-AllTicked :
    (n : ℕ) (stat : Stat) (contents : ReadResult) → AllTicked (rounds n stat contents)
rounds-AllTicked zero stat contents = tt
rounds-AllTicked (suc n) stat contents = rounds-AllTicked n stat contents

-- Rounds that change nothing.
rounds_still :
    (n : ℕ) (stat : Stat) (contents : ReadResult) (w : Watcher)
    → tick path stat contents w ≡ w
    → watch_loop path (rounds n stat contents) w ≡ w
unfolding watch_loop
rounds_still zero stat contents w e = refl
rounds_still (suc n) stat contents w e =
    ap (watch_loop path (rounds n stat contents)) e ∙ rounds_still n stat contents w e

known_still :
    (t : ℕ) (contents : ReadResult) (w : Watcher)
    → w.last_mod ≡ some t
    → tick path (at_time t) contents w ≡ w
unfolding tick
known_still t contents w e = ground (arith, e)

-- A round that finds a time that is not the last one, and the rounds behind it.
tick_fresh :
    (t : ℕ) (s : Bytes) (w : Watcher)
    → ((lm : ℕ) → w.last_mod ≡ some lm → (lm == t) ≡ false)
    → (load (tick path (at_time t) (ok s) w).cell ≡ parse_dns s)
      × ((tick path (at_time t) (ok s) w).last_mod ≡ some t)
unfolding tick load store
tick_fresh t s w h = elim (Option-cases w.last_mod) [
  | inl e ↦ (ground (arith, e), ground (arith, e))
  | inr (lm, e) ↦ (ground (arith, e, h lm e), ground (arith, e, h lm e))
]

pub rounds_fresh :
    (n t : ℕ) (s : Bytes) (w : Watcher)
    → ((lm : ℕ) → w.last_mod ≡ some lm → (lm == t) ≡ false)
    → load (watch_loop path (rounds (suc n) (at_time t) (ok s)) w).cell ≡ parse_dns s
unfolding watch_loop
rounds_fresh n t s w h =
    let (shows, known) = tick_fresh t s w h in
    ap (λ (v : Watcher). load v.cell)
      (rounds_still n (at_time t) (ok s) _ (known_still t (ok s) _ known))
    ∙ shows

-- Rounds that cannot read the file keep the map.
pub rounds_failing :
    (n t : ℕ) (e : IoError) (w : Watcher)
    → (watch_loop path (rounds n (at_time t) (err e)) w).cell ≡ w.cell
unfolding watch_loop
rounds_failing zero t e w = refl
rounds_failing (suc n) t e w = rounds_failing n t e (tick path (at_time t) (err e) w) ∙ keeps
  where
    keeps : (tick path (at_time t) (err e) w).cell ≡ w.cell
    keeps = unfold tick in ground arith

pub start_lem :
    (t : ℕ) (s : Bytes)
    → (load (start path (at_time t) (ok s) new).cell ≡ parse_dns s)
      × ((start path (at_time t) (ok s) new).last_mod ≡ some t)
unfolding start load store
start_lem t s = (refl, refl)

early_still :
    (n t : ℕ) (s : Bytes)
    → watch path new (at_time t) (ok s) (rounds n (at_time t) (ok s))
      ≡ start path (at_time t) (ok s) new
unfolding watch
early_still n t s = rounds_still n (at_time t) (ok s) _ (known_still t (ok s) _ (start_lem t s).1)

pub shown_early :
    (n t : ℕ) (s : Bytes) → shown (at_time t) (ok s) (rounds n (at_time t) (ok s)) ≡ parse_dns s
shown_early n t s = ap (λ (v : Watcher). load v.cell) (early_still n t s) ∙ (start_lem t s).0

-- The rounds behind those that find the first file start from what its load left.
pub behind_early :
    (n t : ℕ) (s : Bytes) (later : List Wake)
    → watch path new (at_time t) (ok s) (rounds n (at_time t) (ok s) ++ later)
      ≡ watch_loop path later (start path (at_time t) (ok s) new)
unfolding watch
behind_early n t s later =
    watch_loop-append (rounds n (at_time t) (ok s)) later _ (rounds-AllTicked n (at_time t) (ok s))
    ∙ ap (watch_loop path later) (early_still n t s)

pub absent_still :
    (n : ℕ) (e : IoError) (w : Watcher) → watch_loop path (rounds n absent (err e)) w ≡ w
absent_still n e w = rounds_still n absent (err e) w (unfold tick in refl)
