-- ===== src/Relay.antt =====
-- `pump` and `relay` of rust/src/proxy.rs: two pumps over two connections, with one idle clock. Time is in
-- milliseconds; an event says which pump is polled, when, and what it finds.
pub mod Moved
pub mod Carried
pub mod Calm
pub mod Happens
pub mod Idle
pub mod Closed
pub mod Ends
use tailcat_socks.Base.{
  ℕ, zero, suc, ◌+◌, ◌-◌, ◌%◌, ◌^◌, min, Bool, true, false, List, [], ◌∷◌, ◌++◌, Option, none, some,
  ltb, leb, if◌then◌else◌, length, take, drop,
}
use tailcat_socks.Base.Bytes.{Bytes}
use tailcat_socks.Error.{IoError}
use tailcat_socks.Net.{Socket, Ending, eof, silent, broken, shutdown}

-- `RELAY_IDLE_TIMEOUT`, in milliseconds.
abbrev pub relay_idle_timeout : ℕ
relay_idle_timeout = 300_000

-- The length of a pump's buffer.
abbrev pub buffer_size : ℕ
buffer_size = 65536

-- How a pump ends: with `Ok(())` at the end of the stream, with an error of a read or a write, or with the
-- error "relay idle timeout".
pub data PumpEnd : Type 0 where
  at_eof idle_timeout : PumpEnd
  io_failed : IoError → PumpEnd

-- A pump waits in `timeout(wait, read)`, whose timer fires no earlier than `fires`, or in `write_all`.
pub data Phase : Type 0 where
  reading : ℕ → ℕ → Phase
  writing : Phase

-- `rest` is what has been read and not been written.
pub record Pump : Type 0 where
  pub phase : Phase
  pub rest : Bytes

pub data Side : Type 0 where
  up down : Side

-- `up` copies from the client to the upstream, `down` the other way. `clock` is the shared `AtomicU64`.
pub record Relay : Type 0 where
  pub client : Socket
  pub upstream : Socket
  pub clock : ℕ
  pub up_pump : Pump
  pub down_pump : Pump
  pub ended : Option PumpEnd

-- At a time, a pump finds at most so many bytes (and one more) readable; finds that its timer fired; or
-- goes on with its write. A peer may also take more bytes.
pub data Event : Type 0 where
  readable : Side → ℕ → ℕ → Event
  elapsed : Side → ℕ → Event
  writable : Side → ℕ → Event
  drained : Side → ℕ → Event

-- `clock.load() + idle_ms`, in a `u64`.
abbrev pub deadline_of : ℕ → ℕ → ℕ
deadline_of clock idle = (clock + idle) % 2 ^ 64

-- The head of the loop: the deadline, and the time at which its timer may fire, from
-- `deadline.saturating_sub(now_ms())`.
abbrev pub armed : ℕ → ℕ → ℕ → Pump
armed clock idle now =
    let deadline = deadline_of clock idle in
    record { phase = reading deadline (now + (deadline - now)); rest = [] }

abbrev pub source : Side → Relay → Socket
source up r = r.client
source down r = r.upstream

abbrev pub sink : Side → Relay → Socket
sink up r = r.upstream
sink down r = r.client

abbrev pub pump : Side → Relay → Pump
pump up r = r.up_pump
pump down r = r.down_pump

abbrev pub set_source : Side → Socket → Relay → Relay
set_source up s r = record r { client = s }
set_source down s r = record r { upstream = s }

abbrev pub set_sink : Side → Socket → Relay → Relay
set_sink up s r = record r { upstream = s }
set_sink down s r = record r { client = s }

abbrev pub set_pump : Side → Pump → Relay → Relay
set_pump up p r = record r { up_pump = p }
set_pump down p r = record r { down_pump = p }

-- `select!`: the first pump that ends drops the other, and both ends get a FIN.
unfoldable pub end_relay : PumpEnd → Relay → Relay
unfolding shutdown
end_relay why r = record r {
  client = shutdown r.client;
  upstream = shutdown r.upstream;
  ended = some why;
}

-- What `write_all` does when it is polled: as much as fits is written.
unfoldable pub written : Bytes → Socket → Socket
written bytes s =
    let n = min (length bytes) s.room in
    record s { sent = s.sent ++ take n bytes; room = s.room - n }

-- A write that is not done ends the pump if the peer is gone, and waits otherwise.
unfoldable pub after_write : ℕ → ℕ → Side → Relay → Option IoError → Bytes → Relay
unfolding end_relay
after_write idle now d r jam [] = set_pump d (armed r.clock idle now) r
after_write idle now d r none (c ∷ rest) =
    set_pump d (record { phase = writing; rest = c ∷ rest }) r
after_write idle now d r (some e) (c ∷ rest) =
    end_relay (io_failed e) (set_pump d (record { phase = writing; rest = c ∷ rest }) r)

unfoldable pub poll_write : ℕ → ℕ → Side → Bytes → Relay → Relay
unfolding written after_write
poll_write idle now d bytes r =
    let s = sink d r in
    let n = min (length bytes) s.room in
    after_write idle now d (set_sink d (written bytes s) r) s.jam (drop n bytes)

-- `read(&mut buf)` at a stream with nothing left.
unfoldable pub read_end : Ending → Relay → Relay
unfolding end_relay
read_end eof r = end_relay at_eof r
read_end silent r = r
read_end (broken e) r = end_relay (io_failed e) r

-- A read returns: the clock is set, and what was read is written.
unfoldable pub poll_read : ℕ → ℕ → Side → ℕ → Bytes → Relay → Relay
unfolding poll_write read_end
poll_read idle now d n [] r = read_end (source d r).ending r
poll_read idle now d n (c ∷ inbox) r =
    let k = min (suc n) (min buffer_size (length (c ∷ inbox))) in
    let s = source d r in
    poll_write idle now d (take k (c ∷ inbox))
      (record (set_source d (record s { inbox = drop k (c ∷ inbox) }) r) { clock = now })

-- The timer fired: the loop goes on if the other pump moved the clock, and ends if not.
unfoldable pub poll_timer : ℕ → ℕ → Side → ℕ → Relay → Relay
unfolding end_relay
poll_timer idle now d deadline r =
    if ltb deadline (deadline_of r.clock idle)
    then set_pump d (armed r.clock idle now) r
    else end_relay idle_timeout r

-- A timer does not fire before its time.
unfoldable pub on_reading : ℕ → Event → ℕ → ℕ → Relay → Relay
unfolding poll_read poll_timer
on_reading idle (readable d now n) deadline fires r = poll_read idle now d n (source d r).inbox r
on_reading idle (elapsed d now) deadline fires r =
    if leb fires now then poll_timer idle now d deadline r else r
on_reading idle (writable d now) deadline fires r = r
on_reading idle (drained d n) deadline fires r = r

unfoldable pub on_writing : ℕ → Event → Relay → Relay
unfolding poll_write
on_writing idle (writable d now) r = poll_write idle now d (pump d r).rest r
on_writing idle _ r = r

abbrev pub side_of : Event → Side
side_of (readable d now n) = d
side_of (elapsed d now) = d
side_of (writable d now) = d
side_of (drained d n) = d

-- The peer that a pump writes to takes `n` bytes more.
unfoldable pub drain : Side → ℕ → Relay → Relay
drain d n r = let s = sink d r in set_sink d (record s { room = s.room + n }) r

unfoldable pub by_phase : ℕ → Event → Phase → Relay → Relay
unfolding on_reading on_writing
by_phase idle event (reading deadline fires) r = on_reading idle event deadline fires r
by_phase idle event writing r = on_writing idle event r

unfoldable pub by_event : ℕ → Event → Relay → Relay
unfolding by_phase drain
by_event idle (drained d n) r = drain d n r
by_event idle (readable d now n) r = by_phase idle (readable d now n) (pump d r).phase r
by_event idle (elapsed d now) r = by_phase idle (elapsed d now) (pump d r).phase r
by_event idle (writable d now) r = by_phase idle (writable d now) (pump d r).phase r

-- Nothing happens behind the end.
unless_ended : Option PumpEnd → Relay → Relay → Relay
unless_ended none before after = after
unless_ended (some why) before after = before

unfoldable pub step : ℕ → Event → Relay → Relay
unfolding by_event unless_ended
step idle event r = unless_ended r.ended r (by_event idle event r)

unfoldable pub run : ℕ → List Event → Relay → Relay
run idle [] r = r
run idle (e ∷ events) r = run idle events (step idle e r)

-- Both pumps are armed when the relay starts.
abbrev pub start : ℕ → ℕ → Socket → Socket → Relay
start idle now client upstream = record {
  client = client;
  upstream = upstream;
  clock = now;
  up_pump = armed now idle now;
  down_pump = armed now idle now;
  ended = none;
}

unfoldable pub relay : ℕ → ℕ → List Event → Socket → Socket → Relay
relay idle now events client upstream = run idle events (start idle now client upstream)
