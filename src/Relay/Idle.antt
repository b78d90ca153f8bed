-- ===== src/Relay/Idle.antt =====
-- The relay of rust/src/proxy.rs is ended as idle only after a whole window without a read.
use tailcat_socks.Base.{
  ℕ, ◌+◌, ◌^◌, ◌≤◌, ◌<◌, ◌≡◌, refl, sym, ap, subst, ◌∙◌, List, [], ◌∷◌, ◌++◌, Option, none, some,
  arith, All, Option-cases, inl, inr,
}
use tailcat_socks.Base.Bytes.{Bytes}
use tailcat_socks.Net.{Socket}
use tailcat_socks.Relay.Calm.{IsTimed, Timed-armed}
use tailcat_socks.Relay.Happens.{
  read_in, read_time, Happens, calm, reads_at, idles_at, step-Happens,
}
use tailcat_socks.Relay.{
  Relay, PumpEnd, idle_timeout, Side, Event, readable, elapsed, writable, drained, by_event, step,
  Phase, reading, writing, pump, source, unless_ended, run, start, relay,
}

-- The times at which reads returned bytes, up to the end of the relay.
abbrev listed : Option ℕ → List ℕ → List ℕ
listed none later = later
listed (some t) later = t ∷ later

abbrev while_open : Option PumpEnd → List ℕ → List ℕ
while_open none times = times
while_open (some why) times = []

abbrev pub reads : ℕ → List Event → Relay → List ℕ
reads idle [] r = []
reads idle (e ∷ events) r =
    while_open r.ended (listed (read_time e r) (reads idle events (step idle e r)))

-- The clock does not go back, and stays below `bound`. An event with no time of its own has the last.
abbrev pub stamp : Event → ℕ → ℕ
stamp (readable d now n) last = now
stamp (elapsed d now) last = now
stamp (writable d now) last = now
stamp (drained d n) last = last

abbrev pub Ordered : ℕ → ℕ → List Event → Type 0
Ordered last bound [] = Unit
Ordered last bound (e ∷ events) =
    (last ≤ stamp e last) × (stamp e last ≤ bound) × Ordered (stamp e last) bound events

-- A timer fired at `now`, with every read, and the start, a window or more behind it.
pub record Idled (idle began : ℕ) (events : List Event) (times : List ℕ) : Type 0 where
  pub before : List Event
  pub after : List Event
  pub side : Side
  pub now : ℕ
  pub splits : events ≡ before ++ elapsed side now ∷ after
  pub since_start : began + idle ≤ now
  pub since_reads : All (λ t. t + idle ≤ now) times

pub step_ended :
    (idle : ℕ) (e : Event) (r : Relay) (why : PumpEnd) → r.ended ≡ some why → step idle e r ≡ r
unfolding step unless_ended
step_ended idle e r why h = ap (λ o. unless_ended o r (by_event idle e r)) h

run_ended :
    (idle : ℕ) (events : List Event) (r : Relay) (why : PumpEnd)
    → r.ended ≡ some why
    → run idle events r ≡ r
unfolding run
run_ended idle [] r why h = refl
run_ended idle (e ∷ events) r why h =
    ap (run idle events) (step_ended idle e r why h) ∙ run_ended idle events r why h

reads_ended :
    (idle : ℕ) (events : List Event) (r : Relay) (why : PumpEnd)
    → r.ended ≡ some why
    → reads idle events r ≡ []
reads_ended idle [] r why h = refl
reads_ended idle (e ∷ events) r why h =
    ap (λ o. while_open o (listed (read_time e r) (reads idle events (step idle e r)))) h

reads_cons :
    (idle : ℕ) (e : Event) (events : List Event) (r : Relay) (o : Option ℕ)
    → r.ended ≡ none
    → read_time e r ≡ o
    → reads idle (e ∷ events) r ≡ listed o (reads idle events (step idle e r))
reads_cons idle e events r o going h =
    ap (λ x. while_open x (listed (read_time e r) (reads idle events (step idle e r)))) going
    ∙ ap (λ x. listed x (reads idle events (step idle e r))) h

read_in_time : (p : Phase) (now t : ℕ) (inbox : Bytes) → read_in p now inbox ≡ some t → now ≡ t
read_in_time writing now t inbox h = cc
read_in_time (reading deadline fires) now t [] h = cc
read_in_time (reading deadline fires) now t (c ∷ s) h = cc

read_stamp : (e : Event) (r : Relay) (last t : ℕ) → read_time e r ≡ some t → stamp e last ≡ t
read_stamp (readable d now n) r last t h = read_in_time (pump d r).phase now t (source d r).inbox h
read_stamp (elapsed d now) r last t h = cc
read_stamp (writable d now) r last t h = cc
read_stamp (drained d n) r last t h = cc

-- One event more in front, with its read.
Idled-cons :
    (idle began began' : ℕ) (e : Event) (events : List Event) (times times' : List ℕ)
    → began ≤ began'
    → ((now : ℕ)
        → began' + idle ≤ now
        → All (λ t. t + idle ≤ now) times
        → All (λ t. t + idle ≤ now) times')
    → Idled idle began' events times
    → Idled idle began (e ∷ events) times'
Idled-cons idle began began' e events times times' le more i = record {
  before = e ∷ i.before;
  after = i.after;
  side = i.side;
  now = i.now;
  splits = ap (◌∷◌ e) i.splits;
  since_start = omega (arith, i.since_start);
  since_reads = more i.now i.since_start i.since_reads;
}

module _ (idle bound : ℕ) (room : bound + idle < 2 ^ 64) where
  -- The claim for the events that are left.
  abbrev Claim : List Event → Type 0
  Claim events =
      (r : Relay) (last : ℕ)
      → Ordered last bound events
      → r.clock ≤ last
      → last ≤ bound
      → IsTimed r
      → r.ended ≡ none
      → (run idle events r).ended ≡ some idle_timeout
      → Idled idle r.clock events (reads idle events r)

  claim_cons :
      (e : Event) (events : List Event) (r : Relay) (last : ℕ)
      → Claim events
      → (last ≤ stamp e last) × (stamp e last ≤ bound) × Ordered (stamp e last) bound events
      → r.clock ≤ last
      → last ≤ bound
      → IsTimed r
      → r.ended ≡ none
      → (run idle events (step idle e r)).ended ≡ some idle_timeout
      → Happens idle e r (step idle e r)
      → Idled idle r.clock (e ∷ events) (reads idle (e ∷ events) r)
  claim_cons e events r last ih o le lb t going h (idles_at d now is at_end due) =
      let later = reads_ended idle events (step idle e r) idle_timeout at_end in
      let times = reads_cons idle e events r none going (ap (λ x. read_time x r) is) ∙ later in
      record {
        before = [];
        after = events;
        side = d;
        now = now;
        splits = ap (λ x. x ∷ events) is;
        since_start = omega arith;
        since_reads = subst (All (λ t. t + idle ≤ now)) (sym times) tt;
      }
  claim_cons e events r last ih o le lb t going h (calm no_read c) =
      let r' = step idle e r in
      elim (Option-cases r'.ended) [
        | inl open_still ↦
            Idled-cons idle r.clock r'.clock e events (reads idle events r') _
              (omega (arith, c.same_clock))
              (λ now since all.
                subst (All (λ t. t + idle ≤ now))
                  (sym (reads_cons idle e events r none going no_read)) all)
              (ih r' (stamp e last) o.2 (omega (arith, c.same_clock)) o.1 (c.stays_timed t)
                open_still h)
        | inr (why, closed) ↦ absurd (
            c.not_idled going
              (sym (ap (λ (x : Relay). x.ended) (run_ended idle events r' why closed)) ∙ h))
      ]
  claim_cons e events r last ih o le lb t going h (reads_at now read c) =
      let r' = step idle e r in
      let at_now = read_stamp e r last now read in
      elim (Option-cases r'.ended) [
        | inl open_still ↦
            Idled-cons idle r.clock r'.clock e events (reads idle events r') _
              (omega (arith, c.same_clock))
              (λ later since all.
                subst (All (λ t. t + idle ≤ later))
                  (sym (reads_cons idle e events r (some now) going read))
                  (omega (arith, c.same_clock), all))
              (ih r' (stamp e last) o.2 (omega (arith, c.same_clock)) o.1
                (c.stays_timed (record { timed_up = t.timed_up; timed_down = t.timed_down }))
                open_still h)
        | inr (why, closed) ↦ absurd (
            c.not_idled going
              (sym (ap (λ (x : Relay). x.ended) (run_ended idle events r' why closed)) ∙ h))
      ]

  claim : (events : List Event) → Claim events
  claim [] r last o le lb t going h = absurd (ends (sym going ∙ unfold run in h))
    where
      ends : ◌≡◌ {A = Option PumpEnd} none (some idle_timeout) → ⊥
      ends e = cc
  claim (e ∷ events) r last o le lb t going h =
      claim_cons e events r last (claim events) o le lb t going (unfold run in h)
        (step-Happens idle e r t going)

-- If the relay ends as idle, a timer fired in some event, and the start of the relay and every read that
-- returned bytes lie a whole window or more before the time of that event, provided the clock does not go
-- back and the sums fit 64 bits.
pub relay_idle :
    (idle now bound : ℕ) (events : List Event) (client upstream : Socket)
    → bound + idle < 2 ^ 64
    → now ≤ bound
    → Ordered now bound events
    → (relay idle now events client upstream).ended ≡ some idle_timeout
    → Idled idle now events (reads idle events (start idle now client upstream))
relay_idle idle now bound events client upstream room fits o h =
    claim idle bound room events (start idle now client upstream) now o (omega arith) fits
      (record { timed_up = Timed-armed now idle now; timed_down = Timed-armed now idle now }) refl
      (unfold relay in h)
