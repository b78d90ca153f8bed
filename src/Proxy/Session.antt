-- ===== src/Proxy/Session.antt =====
-- `Server` of rust/src/proxy.rs: one connection from its greeting to the relay, and the accept loop.
use tailcat_socks.Base.{
  ℕ, Bool, true, false, not, List, [], ◌∷◌, Option, none, some, ◌==◌, if◌then◌else◌,
}
use tailcat_socks.Base.Bytes.{Bytes}
use tailcat_socks.Base.Result.{Result, ok, err}
use tailcat_socks.Error.{IoError}
use tailcat_socks.Dns.Rewrite.{rewrite_host}
use tailcat_socks.Dns.Watch.{DnsMap, load}
use tailcat_socks.Net.{Socket, Outcome, returned, failed, pending, write_all}
use tailcat_socks.Relay.{Relay, Event, PumpEnd, relay, relay_idle_timeout}
use tailcat_socks.Proxy.{
  socks_ok_reply, socks_fail_reply, greet, Request, read_request, upstream_connect,
}

pub record Server : Type 0 where
  pub dns_map : DnsMap
  pub upstream_addr : Bytes
  pub relay_idle : ℕ

-- `Server::bind`: the listener is bound, or the error is passed on.
unfoldable pub with_listener :
    {L : Type 0} → DnsMap → Bytes → Result IoError L → Result IoError (L × Server)
with_listener dns_map upstream_addr (err e) = err e
with_listener dns_map upstream_addr (ok ln) = ok (
  ln,
  record { dns_map = dns_map; upstream_addr = upstream_addr; relay_idle = relay_idle_timeout },
)

unfoldable pub bind :
    {L : Type 0} → (Bytes → Result IoError L) → DnsMap → Bytes → Bytes → Result IoError (L × Server)
bind tcp_bind dns_map upstream_addr listen = with_listener dns_map upstream_addr (tcp_bind listen)

-- `TcpStream::connect`: a connection, an error, or no answer.
pub data Dialed : Type 0 where
  connected : Socket → Dialed
  unreachable : IoError → Dialed
  unanswered : Dialed

-- The outside of a connection: what a dial finds, where a connection's bytes are those that come within the
-- fifteen seconds of the dial; the time at which the relay starts; and the relay's events.
pub record World : Type 0 where
  pub dial : Bytes → Dialed
  pub relay_start : ℕ
  pub events : List Event

-- How a connection was served: what the client was sent, the upstream connection if there is one, the
-- relay if it was reached, and how the task ended.
pub record Session : Type 0 where
  pub client : Socket
  pub upstream : Option Socket
  pub relayed : Option Relay
  pub outcome : Outcome (Unit {0})

-- `write_all(reply)?` and `return Ok(())`.
unfoldable pub close_with : Bytes → Option Socket → Socket → Session
close_with reply up c = record {
  client = (write_all reply c).1;
  upstream = up;
  relayed = none;
  outcome = (write_all reply c).0;
}

unfoldable pub outcome_of : Option PumpEnd → Outcome (Unit {0})
outcome_of none = pending
outcome_of (some why) = returned tt

unfoldable pub run_relay : Server → World → Socket → Socket → Session
unfolding outcome_of
run_relay srv w up c =
    let r = relay srv.relay_idle w.relay_start w.events c up in
    record {
      client = r.client;
      upstream = some r.upstream;
      relayed = some r;
      outcome = outcome_of r.ended;
    }

unfoldable pub start_relay : Server → World → Socket → Outcome (Unit {0}) × Socket → Session
start_relay srv w up (returned _, c) = run_relay srv w up c
start_relay srv w up (failed e, c) = record {
  client = c;
  upstream = some up;
  relayed = none;
  outcome = failed e;
}
start_relay srv w up (pending, c) = record {
  client = c;
  upstream = some up;
  relayed = none;
  outcome = pending;
}

-- `timeout(…, upstream_fut)`: a handshake that is pending runs into the time limit.
unfoldable pub after_handshake : Server → World → Socket → Outcome (Unit {0}) × Socket → Session
after_handshake srv w c (returned _, up) = start_relay srv w up (write_all socks_ok_reply c)
after_handshake srv w c (failed e, up) = close_with socks_fail_reply (some up) c
after_handshake srv w c (pending, up) = close_with socks_fail_reply (some up) c

unfoldable pub forward : Server → World → Bytes → ℕ → Socket → Dialed → Session
forward srv w target port c (connected up) =
    after_handshake srv w c (upstream_connect target port up)
forward srv w target port c (unreachable e) = close_with socks_fail_reply none c
forward srv w target port c unanswered = close_with socks_fail_reply none c

unfoldable pub after_request : Server → World → Outcome Request × Socket → Session
after_request srv w (returned q, c) =
    if not (q.cmd == 0x01)
    then close_with socks_fail_reply none c
    else forward srv w (rewrite_host q.host (load srv.dns_map)) q.port c (w.dial srv.upstream_addr)
after_request srv w (failed e, c) = record {
  client = c;
  upstream = none;
  relayed = none;
  outcome = failed e;
}
after_request srv w (pending, c) = record {
  client = c;
  upstream = none;
  relayed = none;
  outcome = pending;
}

unfoldable pub after_greeting : Server → World → Outcome Bool × Socket → Session
after_greeting srv w (returned true, c) = after_request srv w (read_request c)
after_greeting srv w (returned false, c) = record {
  client = c;
  upstream = none;
  relayed = none;
  outcome = returned tt;
}
after_greeting srv w (failed e, c) = record {
  client = c;
  upstream = none;
  relayed = none;
  outcome = failed e;
}
after_greeting srv w (pending, c) = record {
  client = c;
  upstream = none;
  relayed = none;
  outcome = pending;
}

unfoldable pub serve_conn : Server → World → Socket → Session
serve_conn srv w client = after_greeting srv w (greet client)

-- The task of a connection drops the result.
dropped : Outcome (Unit {0}) → Outcome (Unit {0})
dropped (failed e) = returned tt
dropped (returned _) = returned tt
dropped pending = pending

unfoldable pub handle : Server → World → Socket → Session
unfolding dropped
handle srv w client = let s = serve_conn srv w client in record s { outcome = dropped s.outcome }

-- What the listener gives: connections, each with its world, and perhaps an error.
pub data Accept : Type 0 where
  accepted : World → Socket → Accept
  accept_failed : IoError → Accept

-- The accept loop: the sessions that it spawned, and the error that ended it.
unfoldable pub serve : Server → List Accept → List Session × Option IoError
serve srv [] = ([], none)
serve srv (accept_failed e ∷ more) = ([], some e)
serve srv (accepted w conn ∷ more) =
    let (sessions, ended) = serve srv more in (handle srv w conn ∷ sessions, ended)
