-- ===== src/Relay/Happens.antt =====
-- What one event does to the relay of rust/src/proxy.rs: nothing of note, a read, or the end as idle.
use tailcat_socks.Base.{
  ℕ, suc, ◌≤◌, ◌≡◌, refl, sym, subst, [], ◌∷◌, Option, none, some, arith, leb, ltb, min, length,
  take, drop, Bool-cases, inl, inr,
}
use tailcat_socks.Base.Bytes.{Bytes}
use tailcat_socks.Net.{Socket}
use tailcat_socks.Relay.Calm.{
  Timed, IsTimed, Calm, Calm-refl, Calm-trans, Calm-pump, Calm-sink, Calm-poll_write, Calm-read_end,
  Timed-armed, not-idle-none,
}
use tailcat_socks.Relay.{
  Relay, Phase, reading, writing, idle_timeout, Side, up, down, Event, readable, elapsed, writable,
  drained, source, pump, set_source, armed, deadline_of, end_relay, poll_read, poll_timer,
  on_reading, on_writing, by_phase, by_event, drain, step, unless_ended, buffer_size,
}

-- The time at which a read returns bytes: a pump that waits for one is polled and finds some.
abbrev pub read_in : Phase → ℕ → Bytes → Option ℕ
read_in (reading deadline fires) now (c ∷ s) = some now
read_in (reading deadline fires) now [] = none
read_in writing now inbox = none

abbrev pub read_time : Event → Relay → Option ℕ
read_time (readable d now n) r = read_in (pump d r).phase now (source d r).inbox
read_time (elapsed d now) r = none
read_time (writable d now) r = none
read_time (drained d n) r = none

-- What one event does to a relay that has not ended.
pub data Happens (idle : ℕ) (e : Event) (r r' : Relay) : Type 0 where
  calm : read_time e r ≡ none → Calm r r' → Happens idle e r r'
  reads_at :
      (now : ℕ)
      → read_time e r ≡ some now
      → Calm (record r { clock = now }) r'
      → Happens idle e r r'
  idles_at :
      (d : Side) (now : ℕ)
      → e ≡ elapsed d now
      → r'.ended ≡ some idle_timeout
      → deadline_of r.clock idle ≤ now
      → Happens idle e r r'

source_timed :
    (d : Side) (s : Socket) (r : Relay) (now : ℕ)
    → Calm (record r { clock = now }) (record (set_source d s r) { clock = now })
source_timed up s r now = record {
  same_clock = refl;
  stays_timed = λ t. record { timed_up = t.timed_up; timed_down = t.timed_down };
  not_idled = not-idle-none;
}
source_timed down s r now = record {
  same_clock = refl;
  stays_timed = λ t. record { timed_up = t.timed_up; timed_down = t.timed_down };
  not_idled = not-idle-none;
}

source_ended :
    (d : Side) (s : Socket) (r : Relay) (now : ℕ)
    → (record (set_source d s r) { clock = now }).ended ≡ r.ended
source_ended up s r now = refl
source_ended down s r now = refl

poll_read-Calm :
    (idle now : ℕ) (d : Side) (n c : ℕ) (s : Bytes) (r : Relay)
    → Calm (record r { clock = now }) (poll_read idle now d n (c ∷ s) r)
unfolding poll_read
poll_read-Calm idle now d n c s r =
    let k = min (suc n) (min buffer_size (length (c ∷ s))) in
    let sock = source d r in
    let r' = record (set_source d (record sock { inbox = drop k (c ∷ s) }) r) { clock = now } in
    Calm-trans (record r { clock = now }) r' _ (source_ended d _ r now)
      (source_timed d (record sock { inbox = drop k (c ∷ s) }) r now)
      (Calm-poll_write idle now d (take k (c ∷ s)) r')

-- A timer that fires in time ends the relay, or the other pump has moved the clock.
poll_timer-Happens :
    (idle now : ℕ) (d : Side) (deadline : ℕ) (r : Relay)
    → deadline ≤ now
    → Happens idle (elapsed d now) r (poll_timer idle now d deadline r)
poll_timer-Happens idle now d deadline r h =
    elim (Bool-cases (ltb deadline (deadline_of r.clock idle))) [
      | inl moved ↦ calm refl (
          unfold poll_timer in
          rw moved (Calm-pump d (armed r.clock idle now) r (Timed-armed r.clock idle now)))
      | inr same ↦
          idles_at d now refl (unfold poll_timer in rw same (unfold end_relay in refl))
            (ground arith)
    ]

timed : (d : Side) (r : Relay) → IsTimed r → Timed (pump d r).phase
timed up r t = t.timed_up
timed down r t = t.timed_down

-- The pump that is polled waits for a read.
readable-Happens :
    (idle : ℕ) (d : Side) (now n : ℕ) (r : Relay) (p : Phase) (inbox : Bytes)
    → (pump d r).phase ≡ p
    → (source d r).inbox ≡ inbox
    → Happens idle (readable d now n) r (by_phase idle (readable d now n) p r)
unfolding by_phase on_reading on_writing
readable-Happens idle d now n r writing inbox e f = calm (rw e) (Calm-refl r)
readable-Happens idle d now n r (reading deadline fires) [] e f =
    calm (rw (e, f)) (unfold poll_read in rw f (Calm-read_end (source d r).ending r))
readable-Happens idle d now n r (reading deadline fires) (c ∷ s) e f =
    reads_at now (rw (e, f)) (rw f (poll_read-Calm idle now d n c s r))

elapsed-Happens :
    (idle : ℕ) (d : Side) (now : ℕ) (r : Relay) (p : Phase)
    → Timed p
    → Happens idle (elapsed d now) r (by_phase idle (elapsed d now) p r)
elapsed-Happens idle d now r writing t = calm refl (unfold by_phase on_writing in Calm-refl r)
elapsed-Happens idle d now r (reading deadline fires) t = elim (Bool-cases (leb fires now)) [
  | inl due ↦
      unfold by_phase on_reading in rw due (poll_timer-Happens idle now d deadline r (ground arith))
  | inr early ↦ unfold by_phase on_reading in rw early (calm refl (Calm-refl r))
]

writable-Calm :
    (idle : ℕ) (d : Side) (now : ℕ) (r : Relay) (p : Phase)
    → Calm r (by_phase idle (writable d now) p r)
unfolding by_phase on_reading on_writing
writable-Calm idle d now r writing = Calm-poll_write idle now d (pump d r).rest r
writable-Calm idle d now r (reading deadline fires) = Calm-refl r

by_event-Happens :
    (idle : ℕ) (e : Event) (r : Relay) → IsTimed r → Happens idle e r (by_event idle e r)
by_event-Happens idle (readable d now n) r t =
    unfold by_event in readable-Happens idle d now n r (pump d r).phase (source d r).inbox refl refl
by_event-Happens idle (elapsed d now) r t =
    unfold by_event in elapsed-Happens idle d now r (pump d r).phase (timed d r t)
by_event-Happens idle (writable d now) r t =
    calm refl (unfold by_event in writable-Calm idle d now r (pump d r).phase)
by_event-Happens idle (drained d n) r t = calm refl (unfold by_event drain in Calm-sink d _ r)

pub step-Happens :
    (idle : ℕ) (e : Event) (r : Relay)
    → IsTimed r
    → r.ended ≡ none
    → Happens idle e r (step idle e r)
unfolding step unless_ended
step-Happens idle e r t going =
    subst (λ o. Happens idle e r (unless_ended o r (by_event idle e r))) (sym going)
      (by_event-Happens idle e r t)
