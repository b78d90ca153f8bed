-- ===== src/Tailcat/Ready.antt =====
-- What `wait_ready` and `terminate` of rust/src/tailcat.rs do.
use tailcat_socks.Base.{
  ℕ, zero, suc, ◌+◌, ◌-◌, ◌≤◌, ◌<◌, ◌≡◌, subst, Bool, true, false, Option, some, ltb, arith,
  Bool-cases, inl, inr,
}
use tailcat_socks.Tailcat.{Child, Attempt, is_ready, spent, poll_from, wait_ready, terminate}

-- The time at which round `k` begins, counted from a round at time `now`.
abbrev pub began : ℕ → ℕ → (ℕ → Attempt) → ℕ → ℕ
began i now attempts zero = now
began i now attempts (suc k) = began (i + 1) (now + spent (attempts i)) attempts k

-- None of the first `k` rounds from `i` on found the upstream ready.
abbrev pub NoneReady : ℕ → (ℕ → Attempt) → ℕ → Type 0
NoneReady i attempts zero = Unit
NoneReady i attempts (suc k) = (is_ready (attempts i) ≡ false) × NoneReady (i + 1) attempts k

-- The loop came to an end behind `k` rounds in vain: by a round that began in time and found the upstream
-- ready, or because the time was up.
pub data Polled (i now deadline : ℕ) (attempts : ℕ → Attempt) : Option Bool → Type 0 where
  came_up :
      (k : ℕ)
      → NoneReady i attempts k
      → began i now attempts k < deadline
      → is_ready (attempts (i + k)) ≡ true
      → Polled i now deadline attempts (some true)
  timed_out :
      (k : ℕ)
      → NoneReady i attempts k
      → deadline ≤ began i now attempts k
      → Polled i now deadline attempts (some false)

Polled-later :
    (i now deadline : ℕ) (attempts : ℕ → Attempt) {r : Option Bool}
    → is_ready (attempts i) ≡ false
    → Polled (i + 1) (now + spent (attempts i)) deadline attempts r
    → Polled i now deadline attempts r
Polled-later i now deadline attempts h (came_up k before time found) =
    came_up (suc k) (h, before) time (subst (λ n. is_ready (attempts n) ≡ true) (omega arith) found)
Polled-later i now deadline attempts h (timed_out k before time) =
    timed_out (suc k) (h, before) time

poll_from-Polled :
    (fuel i now deadline : ℕ) (attempts : ℕ → Attempt)
    → deadline - now < fuel
    → Polled i now deadline attempts (poll_from fuel i now deadline attempts)
poll_from-Polled zero i now deadline attempts h = absurd (omega arith)
poll_from-Polled (suc fuel) i now deadline attempts h = elim (Bool-cases (ltb now deadline)) [
  | inl early ↦ elim (Bool-cases (is_ready (attempts i))) [
    | inl found ↦
        unfold poll_from in
        rw (early, found)
          (came_up 0 tt (ground arith)
            (subst (λ n. is_ready (attempts n) ≡ true) (omega arith) found))
    | inr missing ↦
        rest early missing (
          poll_from-Polled fuel (i + 1) (now + spent (attempts i)) deadline attempts (ground arith))
  ]
  | inr late ↦ unfold poll_from in rw late (timed_out 0 tt (ground arith))
]
  where
    rest :
        ltb now deadline ≡ true
        → is_ready (attempts i) ≡ false
        → Polled
            (i + 1)
            (now + spent (attempts i))
            deadline
            attempts
            (poll_from fuel (i + 1) (now + spent (attempts i)) deadline attempts)
        → Polled i now deadline attempts (poll_from (suc fuel) i now deadline attempts)
    rest early missing p =
        unfold poll_from in rw (early, missing) (Polled-later i now deadline attempts missing p)

-- The wait always comes to an end: with `true` in the first round that finds the upstream ready, if that
-- round begins before the deadline, and with `false` once the deadline has passed.
pub wait_ready-Polled :
    (start timeout : ℕ) (attempts : ℕ → Attempt)
    → Polled 0 start (start + timeout) attempts (wait_ready start timeout attempts)
unfolding wait_ready
wait_ready-Polled start timeout attempts =
    poll_from-Polled (timeout + 1) 0 start (start + timeout) attempts (omega arith)

-- Behind `terminate` the child is gone.
pub terminate-exited : (child : Child) → (terminate child).0.exited ≡ true
unfolding terminate
terminate-exited child = ground arith
