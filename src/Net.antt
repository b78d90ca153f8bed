-- ===== src/Net.antt =====
-- A TCP connection as the program sees it through `tokio`, and the operations that it awaits. `tokio` is
-- not part of the repository: what it documents of `read_exact`, `write_all` and `shutdown` is written
-- here over a connection that says in advance what its peer will do.
pub mod Laws
pub mod Inversion
use tailcat_socks.Base.{
  ℕ, ◌+◌, ◌-◌, Bool, true, false, List, [], ◌∷◌, ◌++◌, Option, none, some, leb, if◌then◌else◌,
  length, take, drop,
}
use tailcat_socks.Base.Bytes.{Bytes}
use tailcat_socks.Error.{IoError, unexpected_eof, SocksError, io}

-- What a reader meets behind the last byte that arrives: the end of the stream, an error, or nothing
-- at all.
pub data Ending : Type 0 where
  eof silent : Ending
  broken : IoError → Ending

-- `inbox` is what the peer will send, `sent` what has been written to it, `room` how many bytes more it
-- takes. Past those a write fails, or waits for ever (`none`). `fin`: the write half is shut down.
pub record Socket : Type 0 where
  pub inbox : Bytes
  pub ending : Ending
  pub sent : Bytes
  pub room : ℕ
  pub jam : Option IoError
  pub fin : Bool

-- An awaited operation returns, fails, or is still pending when nothing more will happen.
pub data Outcome {ℓ} (A : Type ℓ) : Type ℓ where
  returned : A → Outcome A
  failed : SocksError → Outcome A
  pending : Outcome A

abbrev pub Io : Type 0 → Type 0
Io A = Socket → Outcome A × Socket

abbrev pub pure : {A : Type 0} → A → Io A
pure a s = (returned a, s)

abbrev pub fail : {A : Type 0} → SocksError → Io A
fail e s = (failed e, s)

abbrev pub bind_outcome : {A B : Type 0} → Outcome A → (A → Io B) → Io B
bind_outcome (returned a) f s = f a s
bind_outcome (failed e) f s = (failed e, s)
bind_outcome pending f s = (pending, s)

-- `?` behind an `await`.
infixl 5 ◌>>=◌
abbrev pub ◌>>=◌ : {A B : Type 0} → Io A → (A → Io B) → Io B
◌>>=◌ m f s = bind_outcome (m s).0 f (m s).1

-- An `await` whose result is of no use.
infixl 5 ◌>>◌
abbrev pub ◌>>◌ : {B : Type 0} → Io (Unit {0}) → Io B → Io B
first >> then_that = first >>= λ done. then_that

abbrev pub at_end : {A : Type 0} → Ending → Outcome A
at_end eof = failed (io unexpected_eof)
at_end silent = pending
at_end (broken e) = failed (io e)

abbrev pub at_jam : {A : Type 0} → Option IoError → Outcome A
at_jam none = pending
at_jam (some e) = failed (io e)

-- `read_exact` into a buffer of `n` bytes.
unfoldable pub read_exact : ℕ → Io Bytes
read_exact n s =
    if leb n (length s.inbox)
    then (returned (take n s.inbox), record s { inbox = drop n s.inbox })
    else (at_end s.ending, record s { inbox = [] })

-- `write_all`
unfoldable pub write_all : Bytes → Io (Unit {0})
write_all bytes s =
    if leb (length bytes) s.room
    then (returned tt, record s { sent = s.sent ++ bytes; room = s.room - length bytes })
    else (at_jam s.jam, record s { sent = s.sent ++ take s.room bytes; room = 0 })

-- `shutdown`: a FIN is queued.
unfoldable pub shutdown : Socket → Socket
shutdown s = record s { fin = true }
