-- ===== src/FakeTailcat.antt =====
-- rust/src/bin/fake-tailcat.rs: the stand-in for `tailcat socks` that accepts any CONNECT and sends back
-- what it is sent.
pub mod Listen
pub mod Echo
pub mod Chain
use tailcat_socks.Base.{
  ℕ, zero, suc, ◌+◌, min, Bool, true, false, not, List, [], ◌∷◌, ◌++◌, Option, none, some, get_or,
  ◌==◌, if◌then◌else◌, length, take, drop,
}
use tailcat_socks.Base.Bytes.{Bytes, codes, bytes_eq}
use tailcat_socks.Net.{
  Socket, Ending, eof, silent, broken, Outcome, returned, failed, pending, Io, pure, ◌>>=◌, ◌>>◌,
  bind_outcome, read_exact, write_all,
}
use tailcat_socks.Proxy.Address.{at}

-- `skip_while(|a| a == "socks")`
unfoldable pub skip_socks : List Bytes → List Bytes
skip_socks [] = []
skip_socks (a ∷ args) = if bytes_eq a (codes "socks") then skip_socks args else a ∷ args

-- `strip_prefix`
unfoldable pub strip_prefix : Bytes → Bytes → Option Bytes
strip_prefix [] s = some s
strip_prefix (p ∷ ps) [] = none
strip_prefix (p ∷ ps) (c ∷ s) = let rest = strip_prefix ps s in if c == p then rest else none

-- The loop over the arguments, with the address so far.
unfoldable pub listen_from : Bytes → List Bytes → Bytes
listen_from listen [] = listen
listen_from listen (a ∷ []) =
    if bytes_eq a (codes "--listen")
    then listen
    else get_or (strip_prefix (codes "--listen=") a) listen
listen_from listen (a ∷ b ∷ args) =
    let named = listen_from b args in
    let joined = listen_from (get_or (strip_prefix (codes "--listen=") a) listen) (b ∷ args) in
    if bytes_eq a (codes "--listen") then named else joined

-- The address to listen at, from the arguments behind the program's name.
unfoldable pub listen_of : List Bytes → Bytes
listen_of args = listen_from (codes "127.0.0.1:0") (skip_socks args)

unfoldable pub answer_greeting : Io Bool
answer_greeting = do
  v ← read_exact 1
  if not (at 0 v == 0x05) then pure false else (do
    nm ← read_exact 1
    methods ← read_exact (at 0 nm)
    write_all (0x05 ∷ 0x00 ∷ [])
    pure true)

-- The length of the address, which for a name is read first.
unfoldable pub skip_for : ℕ → Io ℕ
skip_for atyp =
    if atyp == 0x03
    then (do l ← read_exact 1; pure (at 0 l))
    else if atyp == 0x01
    then pure 4
    else if atyp == 0x04
    then pure 16
    else pure 0

-- The address and the port, which are read and forgotten.
unfoldable pub skip_address : ℕ → Io Bytes
skip_address atyp = do skip ← skip_for atyp; read_exact (skip + 2)

unfoldable pub answer_request : Io (Unit {0})
answer_request = do
  req ← read_exact 4
  rest ← skip_address (at 3 req)
  write_all (0x05 ∷ 0x00 ∷ 0x00 ∷ 0x01 ∷ 0 ∷ 0 ∷ 0 ∷ 0 ∷ 0 ∷ 0 ∷ [])

-- The length of the echo's buffer.
abbrev pub echo_buffer : ℕ
echo_buffer = 4096

-- `read` at a stream with nothing left: the end and an error both end the task.
abbrev pub end_of : Ending → Outcome (Unit {0})
end_of eof = returned tt
end_of silent = pending
end_of (broken e) = returned tt

abbrev pub is_empty : Bytes → Bool
is_empty [] = true
is_empty (c ∷ s) = false

-- The echo, from read `i` on. Read `i` finds at most `1 + sizes i` bytes. Every read takes a byte or
-- more, so that the length of the stream is fuel enough.
unfoldable pub echo_from : ℕ → (ℕ → ℕ) → ℕ → Io (Unit {0})
echo_from zero sizes i s = (end_of s.ending, s)
echo_from (suc fuel) sizes i s =
    let n = min (suc (sizes i)) (min echo_buffer (length s.inbox)) in
    let next = λ (sent : Unit {0}). echo_from fuel sizes (i + 1) in
    if is_empty s.inbox
    then (end_of s.ending, s)
    else (write_all (take n s.inbox) >>= next) (record s { inbox = drop n s.inbox })

unfoldable pub echo : (ℕ → ℕ) → Io (Unit {0})
echo sizes s = echo_from (length s.inbox) sizes 0 s

unfoldable pub dialogue_then_echo : (ℕ → ℕ) → Io (Unit {0})
dialogue_then_echo sizes = do
  go_on ← answer_greeting
  if go_on then (answer_request >> echo sizes) else pure tt

-- Every error ends the task without a word.
unfoldable pub quietly : Outcome (Unit {0}) → Outcome (Unit {0})
quietly (returned done) = returned tt
quietly (failed e) = returned tt
quietly pending = pending

-- `serve`
unfoldable pub serve_echo : (ℕ → ℕ) → Io (Unit {0})
serve_echo sizes s = (quietly (dialogue_then_echo sizes s).0, (dialogue_then_echo sizes s).1)

-- What the listener gives: connections, with the sizes of their reads, and perhaps an error.
pub data Arrival : Type 0 where
  conn : (ℕ → ℕ) → Socket → Arrival
  accept_error : Arrival

-- The accept loop: a task for each connection, until the listener's first error.
unfoldable pub serve_arrivals : List Arrival → List (Outcome (Unit {0}) × Socket)
serve_arrivals [] = []
serve_arrivals (accept_error ∷ more) = []
serve_arrivals (conn sizes s ∷ more) = serve_echo sizes s ∷ serve_arrivals more

-- The arguments stand behind the program's name. A listener that cannot be bound, or has no address, panics.
unfoldable pub async_main :
    (Bytes → Option Bytes) → List Bytes → List Arrival → Option (List (Outcome (Unit {0}) × Socket))
async_main bound_at args arrivals = elim (bound_at (listen_of (drop 1 args))) [
  | none ↦ none
  | some addr ↦ some (serve_arrivals arrivals)
]
