-- ===== src/Tailcat.antt =====
-- rust/src/tailcat.rs: the child process `tailcat socks`, from its launch to its end. How long a connect
-- takes and how the child answers a signal are arguments. Time is in milliseconds.
pub mod Ready
pub mod Listen
use tailcat_socks.Base.{
  ℕ, zero, suc, ◌+◌, ◌-◌, min, Bool, true, false, ◌&&◌, List, [], ◌∷◌, ◌++◌, Option, none, some,
  ltb, leb, if◌then◌else◌,
}
use tailcat_socks.Base.Bytes.{Bytes, codes}
use tailcat_socks.Base.Result.{Result}
use tailcat_socks.Error.{IoError}
use tailcat_socks.Text.Decimal.{show_dec}

-- `exited`: the process is gone and has been waited for. `on_term`: the time that it takes to end when it
-- is told to, if it does.
pub record Child : Type 0 where
  pub exited : Bool
  pub on_term : Option ℕ

-- `format!("{host}:{port}")`
abbrev pub child_listen : Bytes → ℕ → Bytes
child_listen host port = host ++ b':' ∷ show_dec port

unfoldable pub child_args : Bytes → ℕ → List Bytes
child_args host port = codes "socks" ∷ (codes "--listen=" ++ child_listen host port) ∷ []

unfoldable pub spawn_socks :
    (Bytes → List Bytes → Result IoError Child) → Bytes → Bytes → ℕ → Result IoError Child
spawn_socks spawn bin_path host port = spawn bin_path (child_args host port)

-- One connect: how long it takes, and whether it is accepted then.
pub record Attempt : Type 0 where
  pub takes : ℕ
  pub accepts : Bool

abbrev pub connect_timeout : ℕ
connect_timeout = 1000

abbrev pub poll_pause : ℕ
poll_pause = 200

-- `timeout(1s, connect).await.is_ok_and(|r| r.is_ok())`
unfoldable pub is_ready : Attempt → Bool
is_ready a = leb a.takes connect_timeout && a.accepts

-- The time of a round: the connect, cut off at its limit, and the pause.
abbrev pub spent : Attempt → ℕ
spent a = min a.takes connect_timeout + poll_pause

-- The loop from round `i` on, at time `now`; `none` is fuel that ran out.
unfoldable pub poll_from : ℕ → ℕ → ℕ → ℕ → (ℕ → Attempt) → Option Bool
poll_from zero i now deadline attempts = none
poll_from (suc fuel) i now deadline attempts =
    let later = poll_from fuel (i + 1) (now + spent (attempts i)) deadline attempts in
    if ltb now deadline then (if is_ready (attempts i) then some true else later) else some false

-- Every round takes time, so that there are no more rounds than milliseconds.
unfoldable pub wait_ready : ℕ → ℕ → (ℕ → Attempt) → Option Bool
wait_ready start timeout attempts = poll_from (timeout + 1) 0 start (start + timeout) attempts

pub data Signal : Type 0 where
  sigterm sigkill : Signal

abbrev pub term_timeout : ℕ
term_timeout = 5000

quits_in_time : Option ℕ → Bool
quits_in_time none = false
quits_in_time (some t) = leb t term_timeout

-- The child and the signals that it was sent. A killed process ends.
unfoldable pub terminate : Child → Child × List Signal
unfolding quits_in_time
terminate child =
    if child.exited
    then (child, [])
    else if quits_in_time child.on_term
    then (record child { exited = true }, sigterm ∷ [])
    else (record child { exited = true }, sigterm ∷ sigkill ∷ [])
