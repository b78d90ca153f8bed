-- ===== src/Relay/Closed.antt =====
-- How the relay of rust/src/proxy.rs leaves its two connections.
use tailcat_socks.Base.{
  ℕ, ◌≡◌, refl, inl, inr, true, List, [], ◌∷◌, Option, none, some, ltb, leb, min, suc, take, drop,
  length, Bool-cases,
}
use tailcat_socks.Base.Bytes.{Bytes}
use tailcat_socks.Error.{IoError}
use tailcat_socks.Net.{Socket, Ending, eof, silent, broken, shutdown}
use tailcat_socks.Relay.{
  Relay, Pump, Phase, reading, writing, PumpEnd, at_eof, idle_timeout, io_failed, armed, Side, up,
  down, Event, readable, elapsed, writable, drained, source, sink, set_source, set_sink, set_pump,
  deadline_of, unless_ended, end_relay, written, after_write, poll_write, read_end, poll_read,
  poll_timer, on_reading, on_writing, by_phase, by_event, drain, step, run, start, relay,
  buffer_size,
}

-- An end comes with a FIN on both sides.
abbrev pub ClosedIf : Option PumpEnd → Relay → Type 0
ClosedIf none r = Unit
ClosedIf (some why) r = (r.client.fin ≡ true) × (r.upstream.fin ≡ true)

abbrev Closed : Relay → Type 0
Closed r = ClosedIf r.ended r

Closed-open : (r : Relay) → r.ended ≡ none → Closed r
Closed-open r h = rw h tt

end_relay-Closed : (why : PumpEnd) (r : Relay) → Closed (end_relay why r)
unfolding end_relay shutdown
end_relay-Closed why r = (refl, refl)

after_write-Closed :
    (idle now : ℕ) (d : Side) (r : Relay) (jam : Option IoError) (rest : Bytes)
    → r.ended ≡ none
    → Closed (after_write idle now d r jam rest)
unfolding after_write
after_write-Closed idle now up r jam [] h = Closed-open _ h
after_write-Closed idle now down r jam [] h = Closed-open _ h
after_write-Closed idle now up r none (c ∷ rest) h = Closed-open _ h
after_write-Closed idle now down r none (c ∷ rest) h = Closed-open _ h
after_write-Closed idle now d r (some e) (c ∷ rest) h =
    end_relay-Closed (io_failed e) (set_pump d (record { phase = writing; rest = c ∷ rest }) r)

poll_write-Closed :
    (idle now : ℕ) (d : Side) (bytes : Bytes) (r : Relay)
    → r.ended ≡ none
    → Closed (poll_write idle now d bytes r)
unfolding poll_write
poll_write-Closed idle now up bytes r h =
    after_write-Closed idle now up (set_sink up (written bytes (sink up r)) r) _ _ h
poll_write-Closed idle now down bytes r h =
    after_write-Closed idle now down (set_sink down (written bytes (sink down r)) r) _ _ h

read_end-Closed : (e : Ending) (r : Relay) → r.ended ≡ none → Closed (read_end e r)
unfolding read_end
read_end-Closed eof r h = end_relay-Closed at_eof r
read_end-Closed silent r h = Closed-open r h
read_end-Closed (broken e) r h = end_relay-Closed (io_failed e) r

poll_read-Closed :
    (idle now : ℕ) (d : Side) (n : ℕ) (inbox : Bytes) (r : Relay)
    → r.ended ≡ none
    → Closed (poll_read idle now d n inbox r)
unfolding poll_read
poll_read-Closed idle now d n [] r h = read_end-Closed _ r h
poll_read-Closed idle now up n (c ∷ inbox) r h =
    let k = min (suc n) (min buffer_size (length (c ∷ inbox))) in
    poll_write-Closed idle now up (take k (c ∷ inbox))
      (record (set_source up (record (source up r) { inbox = drop k (c ∷ inbox) }) r) {
        clock = now;
      })
      h
poll_read-Closed idle now down n (c ∷ inbox) r h =
    let k = min (suc n) (min buffer_size (length (c ∷ inbox))) in
    poll_write-Closed idle now down (take k (c ∷ inbox))
      (record (set_source down (record (source down r) { inbox = drop k (c ∷ inbox) }) r) {
        clock = now;
      })
      h

set_pump-Closed : (d : Side) (p : Pump) (r : Relay) → r.ended ≡ none → Closed (set_pump d p r)
set_pump-Closed up p r h = Closed-open _ h
set_pump-Closed down p r h = Closed-open _ h

poll_timer-Closed :
    (idle now : ℕ) (d : Side) (deadline : ℕ) (r : Relay)
    → r.ended ≡ none
    → Closed (poll_timer idle now d deadline r)
poll_timer-Closed idle now d deadline r h =
    elim (Bool-cases (ltb deadline (deadline_of r.clock idle))) [
      | inl moved ↦ unfold poll_timer in simp moved (set_pump-Closed d (armed r.clock idle now) r h)
      | inr still ↦ unfold poll_timer in simp still (end_relay-Closed idle_timeout r)
    ]

on_reading-Closed :
    (idle : ℕ) (e : Event) (deadline fires : ℕ) (r : Relay)
    → r.ended ≡ none
    → Closed (on_reading idle e deadline fires r)
unfolding on_reading
on_reading-Closed idle (readable d now n) deadline fires r h = poll_read-Closed idle now d n _ r h
on_reading-Closed idle (elapsed d now) deadline fires r h = elim (Bool-cases (leb fires now)) [
  | inl due ↦ simp due (poll_timer-Closed idle now d deadline r h)
  | inr early ↦ simp early (Closed-open r h)
]
on_reading-Closed idle (writable d now) deadline fires r h = Closed-open r h
on_reading-Closed idle (drained d n) deadline fires r h = Closed-open r h

on_writing-Closed :
    (idle : ℕ) (e : Event) (r : Relay) → r.ended ≡ none → Closed (on_writing idle e r)
unfolding on_writing
on_writing-Closed idle (writable d now) r h = poll_write-Closed idle now d _ r h
on_writing-Closed idle (readable d now n) r h = Closed-open r h
on_writing-Closed idle (elapsed d now) r h = Closed-open r h
on_writing-Closed idle (drained d n) r h = Closed-open r h

by_phase-Closed :
    (idle : ℕ) (e : Event) (p : Phase) (r : Relay) → r.ended ≡ none → Closed (by_phase idle e p r)
unfolding by_phase
by_phase-Closed idle e (reading deadline fires) r h = on_reading-Closed idle e deadline fires r h
by_phase-Closed idle e writing r h = on_writing-Closed idle e r h

by_event-Closed : (idle : ℕ) (e : Event) (r : Relay) → r.ended ≡ none → Closed (by_event idle e r)
unfolding by_event drain
by_event-Closed idle (drained up n) r h = Closed-open _ h
by_event-Closed idle (drained down n) r h = Closed-open _ h
by_event-Closed idle (readable d now n) r h = by_phase-Closed idle (readable d now n) _ r h
by_event-Closed idle (elapsed d now) r h = by_phase-Closed idle (elapsed d now) _ r h
by_event-Closed idle (writable d now) r h = by_phase-Closed idle (writable d now) _ r h

step-Closed : (idle : ℕ) (e : Event) (r : Relay) → Closed r → Closed (step idle e r)
unfolding step
step-Closed idle e r h = go r.ended refl
  where
    go : (o : Option PumpEnd) → r.ended ≡ o → Closed (unless_ended o r (by_event idle e r))
    go none k = unfold unless_ended in by_event-Closed idle e r k
    go (some why) k = unfold unless_ended in h

run-Closed : (idle : ℕ) (events : List Event) (r : Relay) → Closed r → Closed (run idle events r)
unfolding run
run-Closed idle [] r h = h
run-Closed idle (e ∷ events) r h = run-Closed idle events (step idle e r) (step-Closed idle e r h)

-- A relay that has ended, for whatever reason, has a FIN queued on both of its connections.
pub relay-ClosedIf :
    (idle now : ℕ) (events : List Event) (client upstream : Socket)
    → ClosedIf (relay idle now events client upstream).ended (relay idle now events client upstream)
unfolding relay
relay-ClosedIf idle now events client upstream =
    run-Closed idle events (start idle now client upstream) tt
