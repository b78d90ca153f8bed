-- ===== src/Relay/Calm.antt =====
-- The parts of a step of the relay of rust/src/proxy.rs that neither read nor end it as idle.
use tailcat_socks.Base.{
  ℕ, ◌≤◌, ◌≡◌, ◌≢◌, refl, ◌∙◌, [], ◌∷◌, Option, none, some, arith, min, length, drop,
}
use tailcat_socks.Base.Bytes.{Bytes}
use tailcat_socks.Error.{IoError}
use tailcat_socks.Net.{Socket, Ending, eof, silent, broken}
use tailcat_socks.Relay.{
  Relay, Pump, Phase, reading, writing, PumpEnd, io_failed, at_eof, idle_timeout, Side, up, down,
  sink, set_sink, set_pump, armed, end_relay, written, after_write, poll_write, read_end,
}

-- No timer may fire before the deadline that it stands for.
abbrev pub Timed : Phase → Type 0
Timed (reading deadline fires) = deadline ≤ fires
Timed writing = Unit

pub record IsTimed (r : Relay) : Type 0 where
  pub timed_up : Timed r.up_pump.phase
  pub timed_down : Timed r.down_pump.phase

-- A part of a step that is no read and does not end the relay as idle.
pub record Calm (r r' : Relay) : Type 0 where
  pub same_clock : r'.clock ≡ r.clock
  pub stays_timed : IsTimed r → IsTimed r'
  pub not_idled : r.ended ≡ none → r'.ended ≢ some idle_timeout

pub not-idle-none : {o : Option PumpEnd} → o ≡ none → o ≢ some idle_timeout
not-idle-none e h = cc

pub Calm-refl : (r : Relay) → Calm r r
Calm-refl r = record { same_clock = refl; stays_timed = λ t. t; not_idled = not-idle-none }

-- The end for a reason other than idleness.
Calm-end : (why : PumpEnd) (r : Relay) → why ≢ idle_timeout → Calm r (end_relay why r)
unfolding end_relay
Calm-end why r other = record {
  same_clock = refl;
  stays_timed = λ t. record { timed_up = t.timed_up; timed_down = t.timed_down };
  not_idled = λ e h. other (some_eq h);
}
  where
    some_eq : {a b : PumpEnd} → some a ≡ some b → a ≡ b
    some_eq h = cc

pub Calm-pump : (d : Side) (p : Pump) (r : Relay) → Timed p.phase → Calm r (set_pump d p r)
Calm-pump up p r h = record {
  same_clock = refl;
  stays_timed = λ t. record { timed_up = h; timed_down = t.timed_down };
  not_idled = not-idle-none;
}
Calm-pump down p r h = record {
  same_clock = refl;
  stays_timed = λ t. record { timed_up = t.timed_up; timed_down = h };
  not_idled = not-idle-none;
}

pub Calm-sink : (d : Side) (s : Socket) (r : Relay) → Calm r (set_sink d s r)
Calm-sink up s r = record {
  same_clock = refl;
  stays_timed = λ t. record { timed_up = t.timed_up; timed_down = t.timed_down };
  not_idled = not-idle-none;
}
Calm-sink down s r = record {
  same_clock = refl;
  stays_timed = λ t. record { timed_up = t.timed_up; timed_down = t.timed_down };
  not_idled = not-idle-none;
}

pub Timed-armed : (clock idle now : ℕ) → Timed (armed clock idle now).phase
Timed-armed clock idle now = omega arith

ended_same : (d : Side) (p : Pump) (r : Relay) → (set_pump d p r).ended ≡ r.ended
ended_same up p r = refl
ended_same down p r = refl

pub Calm-trans : (r r' r'' : Relay) → r'.ended ≡ r.ended → Calm r r' → Calm r' r'' → Calm r r''
Calm-trans r r' r'' e p q = record {
  same_clock = q.same_clock ∙ p.same_clock;
  stays_timed = λ t. q.stays_timed (p.stays_timed t);
  not_idled = λ h. q.not_idled (e ∙ h);
}

failed-not-idle : (e : IoError) → io_failed e ≢ idle_timeout
failed-not-idle e h = cc

Calm-after_write :
    (idle now : ℕ) (d : Side) (r : Relay) (jam : Option IoError) (rest : Bytes)
    → Calm r (after_write idle now d r jam rest)
unfolding after_write
Calm-after_write idle now d r jam [] = Calm-pump d _ r (Timed-armed r.clock idle now)
Calm-after_write idle now d r none (c ∷ rest) = Calm-pump d _ r tt
Calm-after_write idle now d r (some e) (c ∷ rest) =
    let p : Pump = record { phase = writing; rest = c ∷ rest } in
    Calm-trans r (set_pump d p r) _ (ended_same d p r) (Calm-pump d p r tt)
      (Calm-end (io_failed e) (set_pump d p r) (failed-not-idle e))

sink_same : (d : Side) (s : Socket) (r : Relay) → (set_sink d s r).ended ≡ r.ended
sink_same up s r = refl
sink_same down s r = refl

pub Calm-poll_write :
    (idle now : ℕ) (d : Side) (bytes : Bytes) (r : Relay) → Calm r (poll_write idle now d bytes r)
unfolding poll_write
Calm-poll_write idle now d bytes r =
    let r' = set_sink d (written bytes (sink d r)) r in
    Calm-trans r r' _ (sink_same d (written bytes (sink d r)) r)
      (Calm-sink d (written bytes (sink d r)) r)
      (Calm-after_write idle now d r' (sink d r).jam
        (drop (min (length bytes) (sink d r).room) bytes))

pub Calm-read_end : (e : Ending) (r : Relay) → Calm r (read_end e r)
unfolding read_end
Calm-read_end eof r = Calm-end at_eof r eof-not-idle
  where
    eof-not-idle : at_eof ≢ idle_timeout
    eof-not-idle h = cc
Calm-read_end silent r = Calm-refl r
Calm-read_end (broken e) r = Calm-end (io_failed e) r (failed-not-idle e)
