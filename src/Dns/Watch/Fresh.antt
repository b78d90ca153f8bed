-- ===== src/Dns/Watch/Fresh.antt =====
-- The map that `watch` of rust/src/dnsmap.rs keeps, against a history of the file's versions.
use tailcat_socks.Base.{ℕ, ◌≤◌, ◌≡◌, refl, ◌⊎◌, inl, inr, none, some, arith, Bool-cases, ap, ◌∙◌}
use tailcat_socks.Base.Bytes.{Bytes}
use tailcat_socks.Base.Result.{ok, err}
use tailcat_socks.Error.{IoError}
use tailcat_socks.Dns.Parse.{parse_dns}
use tailcat_socks.Dns.Watch.{
  ReadResult, DnsMap, load, store, Stat, absent, present, Watcher, start, tick, is_unchanged,
}

pub record Version : Type 0 where
  pub mtime : ℕ
  pub text : Bytes

-- No two versions of the file have one modification time.
abbrev pub HasDistinctTimes : (ℕ → Version) → Type 0
HasDistinctTimes file = (i j : ℕ) → (file i).mtime ≡ (file j).mtime → i ≡ j

-- A look at the file between version `n` and version `m`: first its time and then its text, each of
-- which may fail. The text may be of a later version than the time.
pub data Sight (file : ℕ → Version) (n m : ℕ) : Stat → ReadResult → Type 0 where
  gone : (contents : ReadResult) → n ≤ m → Sight file n m absent contents
  unread :
      (i : ℕ) (e : IoError) → n ≤ i → i ≤ m → Sight file n m (present (some (file i).mtime)) (err e)
  seen :
      (i j : ℕ)
      → n ≤ i
      → i ≤ j
      → j ≤ m
      → Sight file n m (present (some (file i).mtime)) (ok (file j).text)

-- A watcher on the file, by the time of version `n`.
pub data Runs (file : ℕ → Version) (path : Bytes) : ℕ → Watcher → Type 0 where
  started :
      {m : ℕ} {stat : Stat} {contents : ReadResult} (cell : DnsMap)
      → Sight file 0 m stat contents
      → Runs file path m (start path stat contents cell)
  later :
      {n m : ℕ} {w : Watcher} {stat : Stat} {contents : ReadResult}
      → Runs file path n w
      → Sight file n m stat contents
      → Runs file path m (tick path stat contents w)

-- The time on record is that of the version that was read, or of an earlier one.
data IsFresh (file : ℕ → Version) (now : ℕ) (w : Watcher) : Type 0 where
  unknown : w.last_mod ≡ none → IsFresh file now w
  known :
      (i j : ℕ)
      → i ≤ j
      → j ≤ now
      → w.last_mod ≡ some (file i).mtime
      → load w.cell ≡ parse_dns (file j).text
      → IsFresh file now w

IsFresh-le :
    (file : ℕ → Version) (n m : ℕ) (w : Watcher) → n ≤ m → IsFresh file n w → IsFresh file m w
IsFresh-le file n m w h (unknown e) = unknown e
IsFresh-le file n m w h (known i j p q e f) = known i j p (omega arith) e f

start-IsFresh :
    (file : ℕ → Version) (path : Bytes) (m : ℕ) {stat : Stat} {contents : ReadResult}
    (cell : DnsMap)
    → Sight file 0 m stat contents
    → IsFresh file m (start path stat contents cell)
unfolding start load store
start-IsFresh file path m cell (gone (ok text) h) = unknown refl
start-IsFresh file path m cell (gone (err e) h) = unknown refl
start-IsFresh file path m cell (unread i e p q) = unknown refl
start-IsFresh file path m cell (seen i j p q r) = known i j q r refl refl

-- A round that reads nothing leaves the time on record and the map as they are.
IsFresh-same :
    (file : ℕ → Version) (n m : ℕ) (w w' : Watcher)
    → n ≤ m
    → w'.last_mod ≡ w.last_mod
    → w'.cell ≡ w.cell
    → IsFresh file n w
    → IsFresh file m w'
IsFresh-same file n m w w' h e c (unknown u) = unknown (e ∙ u)
IsFresh-same file n m w w' h e c (known i j p q u v) =
    known i j p (omega arith) (e ∙ u) (ap load c ∙ v)

pub tick_unread :
    (path : Bytes) (stat : Stat) (e : IoError) (w : Watcher)
    → ((tick path stat (err e) w).last_mod ≡ w.last_mod)
      × ((tick path stat (err e) w).cell ≡ w.cell)
unfolding tick
tick_unread path absent e w = (refl, refl)
tick_unread path (present none) e w = (refl, refl)
tick_unread path (present (some t)) e w = ground arith

pub tick_seen :
    (path text : Bytes) (t : ℕ) (w : Watcher)
    → ((w.last_mod ≡ some t) × (tick path (present (some t)) (ok text) w ≡ w))
      ⊎ (((tick path (present (some t)) (ok text) w).last_mod ≡ some t)
          × (load (tick path (present (some t)) (ok text) w).cell ≡ parse_dns text))
unfolding tick load store
tick_seen path text t w = elim (Bool-cases (is_unchanged w.last_mod t)) [
  | inl same ↦ inl (unfold is_unchanged in ground arith, rw same)
  | inr changed ↦ inr (rw changed, rw changed)
]

tick-IsFresh :
    (file : ℕ → Version) (path : Bytes) (n m : ℕ) {stat : Stat} {contents : ReadResult}
    (w : Watcher)
    → Sight file n m stat contents
    → IsFresh file n w
    → IsFresh file m (tick path stat contents w)
tick-IsFresh file path n m w (gone contents h) f = unfold tick in IsFresh-le file n m w h f
tick-IsFresh file path n m w (unread i e p q) f =
    let (kept_time, kept_map) = tick_unread path (present (some (file i).mtime)) e w in
    IsFresh-same file n m w _ (omega arith) kept_time kept_map f
tick-IsFresh file path n m w (seen i j p q r) f =
    elim (tick_seen path (file j).text (file i).mtime w) [
      | inl (e, same) ↦ rw same (IsFresh-le file n m w (omega arith) f)
      | inr (e, read) ↦ known i j q r e read
    ]

Runs-IsFresh :
    (file : ℕ → Version) (path : Bytes) {n : ℕ} {w : Watcher}
    → Runs file path n w
    → IsFresh file n w
Runs-IsFresh file path (started {m} cell s) = start-IsFresh file path m cell s
Runs-IsFresh file path (later {n} {m} {w} r s) =
    tick-IsFresh file path n m w s (Runs-IsFresh file path r)

settled :
    (file : ℕ → Version) (path : Bytes) (n v : ℕ) (w : Watcher)
    → HasDistinctTimes file
    → n ≤ v
    → IsFresh file n w
    → load (tick path (present (some (file v).mtime)) (ok (file v).text) w).cell
      ≡ parse_dns (file v).text
settled file path n v w distinct h f = elim (tick_seen path (file v).text (file v).mtime w) [
  | inr (e, read) ↦ read
  | inl (e, same) ↦ rw same (recorded f e)
]
  where
    recorded :
        IsFresh file n w → w.last_mod ≡ some (file v).mtime → load w.cell ≡ parse_dns (file v).text
    recorded (unknown u) e = cc
    recorded (known i j p q u read) e =
        let same_time : (file i).mtime ≡ (file v).mtime = cc in
        let same_version : i ≡ v = distinct i v same_time in
        let last_version : j ≡ v = omega arith in
        read ∙ ap (λ k. parse_dns (file k).text) last_version

-- No update is swallowed. Whatever the watcher saw before, with looks that did not find or read the file and
-- with texts of later versions than their times, one round on a file that has come to rest at version `v`,
-- and that can be read, leaves the map of that version, provided no two versions have one modification time.
pub watch_settles :
    (file : ℕ → Version) (path : Bytes) (n v : ℕ) (w : Watcher)
    → HasDistinctTimes file
    → Runs file path n w
    → n ≤ v
    → load (tick path (present (some (file v).mtime)) (ok (file v).text) w).cell
      ≡ parse_dns (file v).text
watch_settles file path n v w distinct r h =
    settled file path n v w distinct h (Runs-IsFresh file path r)
