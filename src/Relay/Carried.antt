-- ===== src/Relay/Carried.antt =====
-- The relay of rust/src/proxy.rs carries every byte, once and in order.
use tailcat_socks.Base.{
  ℕ, ◌≡◌, refl, List, [], ◌∷◌, ◌++◌, Option, none, some, leb, Bool-cases, inl, inr,
}
use tailcat_socks.Base.Bytes.{Bytes}
use tailcat_socks.Net.{Socket}
use tailcat_socks.Relay.{
  Relay, Phase, reading, writing, PumpEnd, Side, up, down, Event, readable, elapsed, writable,
  drained, pump, side_of, unless_ended, on_reading, on_writing, by_phase, by_event, step, run,
  start, relay,
}
use tailcat_socks.Relay.Moved.{
  carried, RestFits, Keeps, poll_write-Keeps, poll_read_up, poll_read_down, poll_timer-Keeps,
}

on_reading-Keeps :
    (idle : ℕ) (e : Event) (deadline fires : ℕ) (r : Relay) {a b : Bytes}
    → (pump (side_of e) r).rest ≡ []
    → Keeps a b r
    → Keeps a b (on_reading idle e deadline fires r)
unfolding on_reading
on_reading-Keeps idle (readable up now n) deadline fires r h k =
    poll_read_up idle now n r.client.inbox r refl h k
on_reading-Keeps idle (readable down now n) deadline fires r h k =
    poll_read_down idle now n r.upstream.inbox r refl h k
on_reading-Keeps idle (elapsed d now) deadline fires r h k = elim (Bool-cases (leb fires now)) [
  | inl due ↦ rw due (poll_timer-Keeps idle now d deadline r h k)
  | inr early ↦ rw early k
]
on_reading-Keeps idle (writable d now) deadline fires r h k = k
on_reading-Keeps idle (drained d n) deadline fires r h k = k

on_writing-Keeps :
    (idle : ℕ) (e : Event) (r : Relay) {a b : Bytes}
    → (pump (side_of e) r).phase ≡ writing
    → Keeps a b r
    → Keeps a b (on_writing idle e r)
unfolding on_writing
on_writing-Keeps idle (writable up now) r h k =
    poll_write-Keeps idle now up r.up_pump.rest r (record {
      carried_up = k.carried_up;
      carried_down = k.carried_down;
      fits_up = tt;
      fits_down = k.fits_down;
    })
on_writing-Keeps idle (writable down now) r h k =
    poll_write-Keeps idle now down r.down_pump.rest r (record {
      carried_up = k.carried_up;
      carried_down = k.carried_down;
      fits_up = k.fits_up;
      fits_down = tt;
    })
on_writing-Keeps idle (readable d now n) r h k = k
on_writing-Keeps idle (elapsed d now) r h k = k
on_writing-Keeps idle (drained d n) r h k = k

by_phase-Keeps :
    (idle : ℕ) (e : Event) (p : Phase) (r : Relay) {a b : Bytes}
    → (pump (side_of e) r).phase ≡ p
    → RestFits p (pump (side_of e) r).rest
    → Keeps a b r
    → Keeps a b (by_phase idle e p r)
unfolding by_phase
by_phase-Keeps idle e (reading deadline fires) r h f k =
    on_reading-Keeps idle e deadline fires r f k
by_phase-Keeps idle e writing r h f k = on_writing-Keeps idle e r h k

fits :
    (d : Side) (r : Relay) {a b : Bytes} → Keeps a b r → RestFits (pump d r).phase (pump d r).rest
fits up r k = k.fits_up
fits down r k = k.fits_down

by_event-Keeps :
    (idle : ℕ) (e : Event) (r : Relay) {a b : Bytes} → Keeps a b r → Keeps a b (by_event idle e r)
unfolding by_event
by_event-Keeps idle (drained up n) r k = record {
  carried_up = k.carried_up;
  carried_down = k.carried_down;
  fits_up = k.fits_up;
  fits_down = k.fits_down;
}
by_event-Keeps idle (drained down n) r k = record {
  carried_up = k.carried_up;
  carried_down = k.carried_down;
  fits_up = k.fits_up;
  fits_down = k.fits_down;
}
by_event-Keeps idle (readable d now n) r k =
    by_phase-Keeps idle (readable d now n) (pump d r).phase r refl (fits d r k) k
by_event-Keeps idle (elapsed d now) r k =
    by_phase-Keeps idle (elapsed d now) (pump d r).phase r refl (fits d r k) k
by_event-Keeps idle (writable d now) r k =
    by_phase-Keeps idle (writable d now) (pump d r).phase r refl (fits d r k) k

unless_ended-Keeps :
    (o : Option PumpEnd) (r r' : Relay) {a b : Bytes}
    → Keeps a b r
    → Keeps a b r'
    → Keeps a b (unless_ended o r r')
unfolding unless_ended
unless_ended-Keeps none r r' k k' = k'
unless_ended-Keeps (some why) r r' k k' = k

run-Keeps :
    (idle : ℕ) (events : List Event) (r : Relay) {a b : Bytes}
    → Keeps a b r
    → Keeps a b (run idle events r)
unfolding run step
run-Keeps idle [] r k = k
run-Keeps idle (e ∷ events) r k =
    run-Keeps idle events (step idle e r)
      (unless_ended-Keeps r.ended r (by_event idle e r) k (by_event-Keeps idle e r k))

-- Whatever happens to a relay, and whenever it ends: in each direction, what the receiver was sent, what
-- was read and waits to be written, and what the sender's stream still holds are together, in this order,
-- what the receiver had been sent and the sender's stream at the start. Among the three nothing is lost, doubled
-- or moved; what waits when the relay ends is counted still, though the end drops it.
pub relay-carried :
    (idle now : ℕ) (events : List Event) (client upstream : Socket)
    → (carried up (relay idle now events client upstream) ≡ upstream.sent ++ client.inbox)
      × (carried down (relay idle now events client upstream) ≡ client.sent ++ upstream.inbox)
unfolding relay
relay-carried idle now events client upstream =
    let k =
      run-Keeps idle events (start idle now client upstream)
        (record { carried_up = refl; carried_down = refl; fits_up = refl; fits_down = refl }) in
    (k.carried_up, k.carried_down)
