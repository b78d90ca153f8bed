-- ===== src/Lib.antt =====
-- tailcat-socks: a SOCKS5 front proxy that sends mapped domains on as tokens, through one upstream
-- `tailcat socks`. This development models its Rust implementation, rust/src.
--
-- A client connects and asks by SOCKS5 for a host and a port. The server looks the host up in the domain map,
-- dials the upstream, asks it by SOCKS5 for the token (or for the host, if it is not mapped), and relays
-- bytes both ways until a side ends or nothing has come from either for five minutes. A watcher reloads
-- the map when dns.txt changes. `run` puts these together, and launches and ends the upstream's process.
--
-- Base: numbers, lists, byte strings and results, shared by all.
-- Error: rust/src/error.rs. Text.*: decimal numbers, UTF-8 and IP addresses as text, as the documentation of
--   Rust's standard library has them; below Text/Ip and Text/Ipv6 are their round trips and bounds.
-- Net: a TCP connection and tokio's `read_exact`, `write_all` and `shutdown`, as tokio documents them: a
--   connection says in advance what its peer sends, how its stream ends and how many bytes it takes.
-- Dns.*: rust/src/dnsmap.rs. `parse_dns` is Dns/Parse, `rewrite_host` is Dns/Rewrite, `DnsMap` and `watch` are
--   Dns/Watch, where a round of the loop is `tick` and the file system's answers are its arguments. A
--   `HashMap` is an association list (Dns/Mapping).
-- Config.*: rust/src/config.rs. Tailcat.*: rust/src/tailcat.rs. Main.*: `run` of rust/src/main.rs, one function
--   for what follows each step that can fail; its outside is the record `Outside`.
-- Proxy.*: rust/src/proxy.rs up to the relay. `serve_conn` is in Proxy/Session, one function for what
--   follows each `await`; the handshakes are in Proxy, the addresses and the request in Proxy/Address.
-- Relay.*: `pump` and `relay` of rust/src/proxy.rs, as a function of a list of events: a pump finds bytes,
--   its timer has fired, its write goes on, or a peer takes more. `step` is one poll of one pump.
-- Logging.*: rust/src/logging.rs, the `Display` of rust/src/error.rs, and the texts of the log lines of
--   main.rs and dnsmap.rs; the standard library's own texts are the record `Texts`.
-- Live.*: lines 105 to 118 of rust/src/main.rs: the watcher and the server as tasks on one `DnsMap`, which
--   `act` runs in any order. Live/Register is the abstract side: one register that holds a version of the file and
--   is driven by the same looks and connections; Live/News says which looks may leave it as it is.
-- FakeTailcat.*: rust/src/bin/fake-tailcat.rs, the stand-in for the upstream: `async_main` and its `serve`,
--   which is `serve_echo` here. How many bytes a read finds is an argument.
-- ProxyTests.*: the helpers of the tests of rust/src/proxy.rs: the client `socks_connect` and the upstreams
--   that record, refuse, capture, count or close early, on one connection. A `let _ =` in front of a read
--   or a write is `try_read` or `try_write`. ProxyTests/Cases, Rewrites, CleanEnd and SharedClock are the
--   test functions as Booleans; ProxyTests/Joined lets each peer find what the other has sent, in a fixed
--   number of exchanges, and the relay's events are written out.
-- ConfigTests and DnsTests.*: the test functions of rust/src/config.rs and rust/src/dnsmap.rs as Booleans.
--   In those of the watcher (DnsTests/Watching) a wait is a number of rounds, which is an argument.
-- GoVersion.*: LoadDNSFile and RewriteHost of go/dnsmap.go on ASCII text, which dnsmap.rs says it mirrors.
-- Examples.*: the code on small inputs.
--
-- Bounds: ports are `u16` and the relay's clock is `u64`, with the wrap written out. Times are in milliseconds.
-- The loop of `wait_ready` runs on fuel, one more than its timeout in milliseconds: each round pauses for
-- 200, so that the fuel is never used up. The loops that echo or count what a stream brings run on fuel, one
-- more than its bytes or as many: each read takes a byte at least.
-- The text of a number has at most 20 digits, those of a `u64`.
--
-- Not modelled: the parsing of flags (clap), the runtime and its threads, panics other than that of the port
-- probe, the accept loops of the tests' peers, the integration tests, and the Go and Python versions but for
-- the two Go functions above. In Main, `run` ends without a look at what its tasks do; Live/Run goes on from
-- there.
pub mod Base
pub mod Error
pub mod Text
pub mod Net
pub mod Relay
pub mod Proxy
pub mod Tailcat
pub mod Main
pub mod Config
pub mod ConfigTests
pub mod DnsTests
pub mod Dns
pub mod FakeTailcat
pub mod Live
pub mod Logging
pub mod GoVersion
pub mod ProxyTests
pub mod Examples
