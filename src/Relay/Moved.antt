-- ===== src/Relay/Moved.antt =====
-- One poll of a pump of rust/src/proxy.rs: the bytes that it moves stay in order.
use tailcat_socks.Base.{
  ℕ, suc, ◌≡◌, refl, sym, ap, ◌∙◌, [], ◌∷◌, ◌++◌, Option, none, some, ltb, length, take, drop,
  take-append-drop, append_assoc, min, Bool-cases, inl, inr,
}
use tailcat_socks.Base.Bytes.{Bytes}
use tailcat_socks.Error.{IoError}
use tailcat_socks.Net.{Ending, eof, silent, broken}
use tailcat_socks.Relay.{
  Relay, Phase, reading, writing, PumpEnd, io_failed, at_eof, idle_timeout, Side, up, down, source,
  sink, pump, set_sink, set_pump, deadline_of, armed, end_relay, written, after_write, poll_write,
  read_end, poll_read, poll_timer, buffer_size,
}

-- What has been written on one side, what has been read and is not yet written, and what has not been read.
abbrev pub carried : Side → Relay → Bytes
carried d r = (sink d r).sent ++ ((pump d r).rest ++ (source d r).inbox)

-- A pump that waits for a read has written all it read.
abbrev pub RestFits : Phase → Bytes → Type 0
RestFits (reading deadline fires) rest = rest ≡ []
RestFits writing rest = Unit

pub record Keeps (a b : Bytes) (r : Relay) : Type 0 where
  pub carried_up : carried up r ≡ a
  pub carried_down : carried down r ≡ b
  pub fits_up : RestFits r.up_pump.phase r.up_pump.rest
  pub fits_down : RestFits r.down_pump.phase r.down_pump.rest

-- A write that was polled leaves what is not written yet with its pump.
after_write-Keeps :
    (idle now : ℕ) (d : Side) (r : Relay) (jam : Option IoError) (rest : Bytes) {a b : Bytes}
    → Keeps a b (set_pump d (record { phase = writing; rest = rest }) r)
    → Keeps a b (after_write idle now d r jam rest)
unfolding after_write
after_write-Keeps idle now up r jam [] k = record {
  carried_up = k.carried_up;
  carried_down = k.carried_down;
  fits_up = refl;
  fits_down = k.fits_down;
}
after_write-Keeps idle now down r jam [] k = record {
  carried_up = k.carried_up;
  carried_down = k.carried_down;
  fits_up = k.fits_up;
  fits_down = refl;
}
after_write-Keeps idle now up r none (c ∷ rest) k = k
after_write-Keeps idle now down r none (c ∷ rest) k = k
after_write-Keeps idle now up r (some e) (c ∷ rest) k = record {
  carried_up = k.carried_up;
  carried_down = k.carried_down;
  fits_up = tt;
  fits_down = k.fits_down;
}
after_write-Keeps idle now down r (some e) (c ∷ rest) k = record {
  carried_up = k.carried_up;
  carried_down = k.carried_down;
  fits_up = k.fits_up;
  fits_down = tt;
}

regroup :
    (sent bytes inbox : Bytes) (n : ℕ)
    → (sent ++ take n bytes) ++ (drop n bytes ++ inbox) ≡ sent ++ (bytes ++ inbox)
regroup sent bytes inbox n =
    append_assoc sent (take n bytes) (drop n bytes ++ inbox)
    ∙ ap (λ xs. sent ++ xs)
        (sym (append_assoc (take n bytes) (drop n bytes) inbox)
          ∙ ap (λ xs. xs ++ inbox) (take-append-drop n bytes))

pub poll_write-Keeps :
    (idle now : ℕ) (d : Side) (bytes : Bytes) (r : Relay) {a b : Bytes}
    → Keeps a b (set_pump d (record { phase = writing; rest = bytes }) r)
    → Keeps a b (poll_write idle now d bytes r)
unfolding poll_write
poll_write-Keeps idle now up bytes r k =
    let n = min (length bytes) r.upstream.room in
    after_write-Keeps idle now up (set_sink up (written bytes r.upstream) r) r.upstream.jam
      (drop n bytes)
      (record {
        carried_up = regroup r.upstream.sent bytes r.client.inbox n ∙ k.carried_up;
        carried_down = k.carried_down;
        fits_up = tt;
        fits_down = k.fits_down;
      })
poll_write-Keeps idle now down bytes r k =
    let n = min (length bytes) r.client.room in
    after_write-Keeps idle now down (set_sink down (written bytes r.client) r) r.client.jam
      (drop n bytes)
      (record {
        carried_up = k.carried_up;
        carried_down = regroup r.client.sent bytes r.upstream.inbox n ∙ k.carried_down;
        fits_up = k.fits_up;
        fits_down = tt;
      })

end_relay-Keeps :
    (why : PumpEnd) (r : Relay) {a b : Bytes} → Keeps a b r → Keeps a b (end_relay why r)
unfolding end_relay
end_relay-Keeps why r k = record {
  carried_up = k.carried_up;
  carried_down = k.carried_down;
  fits_up = k.fits_up;
  fits_down = k.fits_down;
}

read_end-Keeps : (e : Ending) (r : Relay) {a b : Bytes} → Keeps a b r → Keeps a b (read_end e r)
unfolding read_end
read_end-Keeps eof r k = end_relay-Keeps at_eof r k
read_end-Keeps silent r k = k
read_end-Keeps (broken e) r k = end_relay-Keeps (io_failed e) r k

pub poll_read_up :
    (idle now n : ℕ) (inbox : Bytes) (r : Relay) {a b : Bytes}
    → r.client.inbox ≡ inbox
    → r.up_pump.rest ≡ []
    → Keeps a b r
    → Keeps a b (poll_read idle now up n inbox r)
unfolding poll_read
poll_read_up idle now n [] r e none_left k = read_end-Keeps r.client.ending r k
poll_read_up idle now n (c ∷ s) r e none_left k =
    let m = min (suc n) (min buffer_size (length (c ∷ s))) in
    poll_write-Keeps idle now up (take m (c ∷ s))
      (record r { client = record r.client { inbox = drop m (c ∷ s) }; clock = now })
      (record {
        carried_up =
            ap (λ xs. r.upstream.sent ++ xs)
              (take-append-drop m (c ∷ s) ∙ sym e ∙ ap (λ xs. xs ++ r.client.inbox) (sym none_left))
            ∙ k.carried_up;
        carried_down = k.carried_down;
        fits_up = tt;
        fits_down = k.fits_down;
      })

pub poll_read_down :
    (idle now n : ℕ) (inbox : Bytes) (r : Relay) {a b : Bytes}
    → r.upstream.inbox ≡ inbox
    → r.down_pump.rest ≡ []
    → Keeps a b r
    → Keeps a b (poll_read idle now down n inbox r)
unfolding poll_read
poll_read_down idle now n [] r e none_left k = read_end-Keeps r.upstream.ending r k
poll_read_down idle now n (c ∷ s) r e none_left k =
    let m = min (suc n) (min buffer_size (length (c ∷ s))) in
    poll_write-Keeps idle now down (take m (c ∷ s))
      (record r { upstream = record r.upstream { inbox = drop m (c ∷ s) }; clock = now })
      (record {
        carried_up = k.carried_up;
        carried_down =
            ap (λ xs. r.client.sent ++ xs)
              (take-append-drop m (c ∷ s)
                ∙ sym e
                ∙ ap (λ xs. xs ++ r.upstream.inbox) (sym none_left))
            ∙ k.carried_down;
        fits_up = k.fits_up;
        fits_down = tt;
      })

armed-Keeps :
    (idle now : ℕ) (d : Side) (r : Relay) {a b : Bytes}
    → (pump d r).rest ≡ []
    → Keeps a b r
    → Keeps a b (set_pump d (armed r.clock idle now) r)
armed-Keeps idle now up r e k = record {
  carried_up = ap (λ xs. r.upstream.sent ++ (xs ++ r.client.inbox)) (sym e) ∙ k.carried_up;
  carried_down = k.carried_down;
  fits_up = refl;
  fits_down = k.fits_down;
}
armed-Keeps idle now down r e k = record {
  carried_up = k.carried_up;
  carried_down = ap (λ xs. r.client.sent ++ (xs ++ r.upstream.inbox)) (sym e) ∙ k.carried_down;
  fits_up = k.fits_up;
  fits_down = refl;
}

pub poll_timer-Keeps :
    (idle now : ℕ) (d : Side) (deadline : ℕ) (r : Relay) {a b : Bytes}
    → (pump d r).rest ≡ []
    → Keeps a b r
    → Keeps a b (poll_timer idle now d deadline r)
unfolding poll_timer
poll_timer-Keeps idle now d deadline r e k =
    elim (Bool-cases (ltb deadline (deadline_of r.clock idle))) [
      | inl moved ↦ rw moved (armed-Keeps idle now d r e k)
      | inr same ↦ rw same (end_relay-Keeps idle_timeout r k)
    ]
