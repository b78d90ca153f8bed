-- ===== src/ProxyTests/Joined.antt =====
-- The peers of a test of rust/src/proxy.rs joined: what one sends is what the other finds. A peer that waits
-- for more than it finds is run again on what the other has sent by then.
use tailcat_socks.Base.{ℕ, zero, suc, Bool, false, List, [], Option, none, some}
use tailcat_socks.Base.Bytes.{Bytes}
use tailcat_socks.Base.Result.{ok, err}
use tailcat_socks.Net.{Socket, silent, Outcome, returned, failed, pending, Io}
use tailcat_socks.Relay.{Event}
use tailcat_socks.Proxy.Session.{Server, Session, Dialed, serve_conn}
use tailcat_socks.ProxyTests.Start.{start_proxy}

-- A connection on which this has come so far.
abbrev pub line : Bytes → Socket
line so_far = record {
  inbox = so_far;
  ending = silent;
  sent = [];
  room = 4096;
  jam = none;
  fin = false;
}

-- What the second peer has sent after `n` exchanges.
unfoldable pub exchange : ℕ → (Bytes → Bytes) → (Bytes → Bytes) → Bytes
exchange zero ask answer = []
exchange (suc n) ask answer = answer (ask (exchange n ask answer))

abbrev pub heard_by : Option Socket → Bytes
heard_by none = []
heard_by (some s) = s.sent

-- A test on a server that was started, with the listener bound.
unfoldable pub with_server : List (Bytes × Bytes) → Bytes → (Server → Bool) → Bool
with_server mapping upstream test =
    elim (start_proxy {L = Unit {0}} (λ a. ok tt) mapping upstream) [
      | err e ↦ false
      | ok (ln, srv) ↦ test srv
    ]

-- The bytes that a peer sends on those that have come.
abbrev pub sends : {A : Type 0} → Io A → Bytes → Bytes
sends peer so_far = (peer (line so_far)).1.sent

-- A connection of the server, from the client's bytes.
abbrev pub Serving : Type 0
Serving = Bytes → Session

-- With a dial that finds this.
abbrev pub serving : Server → Dialed → List Event → Serving
serving srv dialed events so_far =
    serve_conn srv (record { dial = λ a. dialed; relay_start = 0; events = events }) (line so_far)

-- With an upstream that is joined to it.
unfoldable pub serving_with : Server → (Bytes → Bytes) → List Event → Serving
unfolding exchange
serving_with srv upstream events so_far =
    let on = λ (answers : Bytes). serving srv (Dialed.connected (line answers)) events so_far in
    on (exchange 3 (λ answers. heard_by (on answers).upstream) upstream)

-- What a client has found when it is joined to a server, and the server's side of it.
unfoldable pub found_by : {A : Type 0} → Io A → Serving → Bytes
unfolding exchange
found_by client serve = exchange 4 (sends client) (λ so_far. (serve so_far).client.sent)

-- Whether what a peer returns on these bytes passes a test; an error is an `unwrap` that panics.
unfoldable pub returns : {A : Type 0} → (A → Bool) → Outcome A → Bool
returns test (returned a) = test a
returns test (failed e) = false
returns test pending = false

abbrev pub found : {A : Type 0} → Io A → (A → Bool) → Bytes → Bool
found peer test so_far = returns test (peer (line so_far)).0

-- The same for a client that is joined to a server, and the server's side of it.
abbrev pub verdict : {A : Type 0} → Io A → (A → Bool) → Serving → Bool
verdict client test serve = found client test (found_by client serve)

abbrev pub joined_session : {A : Type 0} → Io A → Serving → Session
joined_session client serve = serve (sends client (found_by client serve))
