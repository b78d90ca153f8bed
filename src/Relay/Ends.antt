-- ===== src/Relay/Ends.antt =====
-- A quiet relay of rust/src/proxy.rs does end.
use tailcat_socks.Base.{
  ℕ, ◌+◌, ◌^◌, ◌≤◌, ◌<◌, ◌≡◌, refl, ap, ◌∙◌, true, false, inl, inr, [], ◌∷◌, none, some, ltb, leb,
  Bool-cases, if◌then◌else◌, arith,
}
use tailcat_socks.Relay.Idle.{step_ended}
use tailcat_socks.Relay.{
  Relay, reading, idle_timeout, Side, up, down, elapsed, pump, set_pump, armed, deadline_of,
  unless_ended, end_relay, poll_timer, on_reading, by_phase, by_event, step, run,
}

-- A timer that is due is looked at.
step_elapsed :
    (idle t : ℕ) (d : Side) (r : Relay) {deadline fires : ℕ}
    → r.ended ≡ none
    → (pump d r).phase ≡ reading deadline fires
    → fires ≤ t
    → step idle (elapsed d t) r ≡ poll_timer idle t d deadline r
step_elapsed idle t d r {deadline} {fires} going waits due =
    let now_due : leb fires t ≡ true = ground arith in
    unfold step by_event in
    ap (λ o. unless_ended o r (by_phase idle (elapsed d t) (pump d r).phase r)) going
    ∙ unfold unless_ended in
      ap (λ p. by_phase idle (elapsed d t) p r) waits
      ∙ unfold by_phase on_reading in
        ap (λ b. if b then poll_timer idle t d deadline r else r) now_due

-- A timer that is looked at ends the relay, if the clock did not move.
poll_timer_still :
    (idle t : ℕ) (d : Side) (deadline : ℕ) (r : Relay)
    → deadline_of r.clock idle ≤ deadline
    → (poll_timer idle t d deadline r).ended ≡ some idle_timeout
poll_timer_still idle t d deadline r h =
    let still : ltb deadline (deadline_of r.clock idle) ≡ false = ground arith in
    unfold poll_timer end_relay in
    ap (λ b. (if b then set_pump d (armed r.clock idle t) r else end_relay idle_timeout r).ended)
      still

-- Armed anew by a due timer, a pump ends the relay when its timer is looked at again.
rearmed_ends :
    (idle t : ℕ) (d : Side) (r : Relay)
    → r.ended ≡ none
    → deadline_of r.clock idle ≤ t
    → (step idle (elapsed d t) (set_pump d (armed r.clock idle t) r)).ended ≡ some idle_timeout
rearmed_ends idle t up r going past =
    ap (λ (x : Relay). x.ended)
      (step_elapsed idle t up (set_pump up (armed r.clock idle t) r) going refl
        (omega (arith, past)))
    ∙ poll_timer_still idle t up (deadline_of r.clock idle) (set_pump up (armed r.clock idle t) r)
        (omega arith)
rearmed_ends idle t down r going past =
    ap (λ (x : Relay). x.ended)
      (step_elapsed idle t down (set_pump down (armed r.clock idle t) r) going refl
        (omega (arith, past)))
    ∙ poll_timer_still idle t down (deadline_of r.clock idle)
        (set_pump down (armed r.clock idle t) r) (omega arith)

poll_timer_moved :
    (idle t : ℕ) (d : Side) (deadline : ℕ) (r : Relay)
    → ltb deadline (deadline_of r.clock idle) ≡ true
    → poll_timer idle t d deadline r ≡ set_pump d (armed r.clock idle t) r
unfolding poll_timer
poll_timer_moved idle t d deadline r moved =
    ap (λ b. if b then set_pump d (armed r.clock idle t) r else end_relay idle_timeout r) moved

poll_timer_ends :
    (idle t : ℕ) (d : Side) (deadline : ℕ) (r : Relay)
    → r.ended ≡ none
    → deadline_of r.clock idle ≤ t
    → (step idle (elapsed d t) (poll_timer idle t d deadline r)).ended ≡ some idle_timeout
poll_timer_ends idle t d deadline r going past =
    elim (Bool-cases (ltb deadline (deadline_of r.clock idle))) [
      | inl moved ↦
          ap (λ (x : Relay). (step idle (elapsed d t) x).ended)
            (poll_timer_moved idle t d deadline r moved)
          ∙ rearmed_ends idle t d r going past
      | inr still ↦
          let over = poll_timer_still idle t d deadline r (ground arith) in
          ap (λ (x : Relay). x.ended)
            (step_ended idle (elapsed d t) (poll_timer idle t d deadline r) idle_timeout over)
          ∙ over
    ]

-- A pump waits for a read, its timer is due, and a whole window has passed since the last read in either
-- direction: then two looks at that timer end the relay as idle.
pub relay_ends :
    (idle t : ℕ) (d : Side) (r : Relay) {deadline fires : ℕ}
    → r.ended ≡ none
    → (pump d r).phase ≡ reading deadline fires
    → fires ≤ t
    → r.clock + idle ≤ t
    → t < 2 ^ 64
    → (run idle (elapsed d t ∷ elapsed d t ∷ []) r).ended ≡ some idle_timeout
relay_ends idle t d r {deadline} {fires} going waits due quiet fits =
    unfold run in
    ap (λ (x : Relay). (step idle (elapsed d t) x).ended) (step_elapsed idle t d r going waits due)
    ∙ poll_timer_ends idle t d deadline r going (omega arith)
