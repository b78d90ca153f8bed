-- ===== src/ProxyTests/Silent.antt =====
-- `silent_upstream` and `early_close_upstream` of the tests of rust/src/proxy.rs: peers that never answer what is
-- relayed to them.
use tailcat_socks.Base.{
  ℕ, zero, suc, ◌+◌, ◌-◌, ◌%◌, ◌^◌, ◌≤◌, ◌<◌, ◌≡◌, refl, sym, ap, ◌∙◌, min, [], ◌∷◌, ◌++◌, arith,
  ◌==◌, if◌then◌else◌, length, length-append, length-drop, drop, append_assoc,
}
use tailcat_socks.Base.Bytes.{Bytes}
use tailcat_socks.Net.{
  Socket, eof, silent, broken, Outcome, returned, pending, Io, pure, ◌>>=◌, ◌>>◌, read_exact,
}
use tailcat_socks.Net.Laws.{read_exact-append}
use tailcat_socks.Proxy.{socks_ok_reply}
use tailcat_socks.Proxy.Address.{at}
use tailcat_socks.Proxy.Wire.{Wire, name, ipv4, ipv6, read_exact_len}
use tailcat_socks.Proxy.Handshake.{send}
use tailcat_socks.ProxyTests.{hear_greeting, try_read, try_write}
use tailcat_socks.ProxyTests.Hears.{hear_greeting_lem}
use tailcat_socks.ProxyTests.Refused.{try_read_len, try_write_fits}

-- The target's address, which is read and forgotten.
unfoldable pub try_name : Io Bytes
try_name = do l ← try_read 1; try_read (at 0 l)

unfoldable pub try_target : ℕ → Io Bytes
unfolding try_name
try_target atyp =
    if atyp == 0x03
    then try_name
    else if atyp == 0x01
    then try_read 4
    else if atyp == 0x04
    then try_read 16
    else pure []

-- The handshake, whatever fails.
unfoldable pub try_accept : Io (Unit {0})
try_accept = do
  hdr ← try_read 2
  methods ← try_read (at 1 hdr)
  try_write (0x05 ∷ 0x00 ∷ [])
  req ← try_read 4
  target ← try_target (at 3 req)
  pb ← try_read 2
  try_write socks_ok_reply

-- The counter behind the reads of a stream, an `AtomicU64`, and how the loop ends.
unfoldable pub counted : ℕ → (ℕ → ℕ) → ℕ → ℕ → Socket → ℕ × Outcome (Unit {0})
counted zero sizes i got s = (got, pending)
counted (suc fuel) sizes i got s =
    let n = min (suc (sizes i)) (min 4096 (length s.inbox)) in
    let later =
      counted fuel sizes (i + 1) ((got + n) % 2 ^ 64) (record s { inbox = drop n s.inbox }) in
    elim s.inbox [
      | [] ↦ (got, elim s.ending [ eof ↦ returned tt | silent ↦ pending | broken e ↦ returned tt ])
      | c ∷ rest ↦ later
    ]

-- The counter, how the task ends, and the connection behind the handshake.
unfoldable pub after_accept :
    (ℕ → ℕ) → Outcome (Unit {0}) × Socket → (ℕ × Outcome (Unit {0})) × Socket
after_accept sizes (returned done, s) = (counted (length s.inbox + 1) sizes 0 0 s, s)
after_accept sizes (o, s) = ((0, o), s)

unfoldable pub silent_upstream : (ℕ → ℕ) → Socket → (ℕ × Outcome (Unit {0})) × Socket
silent_upstream sizes s = after_accept sizes (try_accept s)

-- How many bytes of the address are left to read.
unfoldable pub address_left : ℕ → Io ℕ
address_left atyp =
    if atyp == 0x03
    then (do l ← read_exact 1; pure (at 0 l))
    else if atyp == 0x01
    then pure 4
    else if atyp == 0x04
    then pure 16
    else pure 0

unfoldable pub skip_rest : ℕ → Io Bytes
skip_rest atyp = do skip ← address_left atyp; read_exact (skip + 2)

unfoldable pub early_close_upstream : Bytes → Io (Unit {0})
early_close_upstream payload = do
  hear_greeting
  req ← read_exact 4
  rest ← skip_rest (at 3 req)
  try_write socks_ok_reply
  try_write payload

-- What a peer is sent by a client that asks for a target and goes on with `behind`.
abbrev pub whole : ℕ → ℕ → ℕ → ℕ → Bytes → ℕ → ℕ → Bytes → Bytes
whole ver cmd rsv atyp bytes hi lo behind =
    5 ∷ 1 ∷ 0 ∷ ver ∷ cmd ∷ rsv ∷ atyp ∷ (bytes ++ (hi ∷ lo ∷ behind))

try_target-Wire :
    {atyp : ℕ} {bytes text : Bytes} (rest : Bytes) (s : Socket)
    → Wire atyp bytes text
    → (xs : Bytes) × (try_target atyp (record s { inbox = bytes ++ rest })
        ≡ (returned xs, record s { inbox = rest }))
unfolding try_target try_name
try_target-Wire rest s (ipv4 b e) = (b, try_read_len 4 b rest s e)
try_target-Wire rest s (ipv6 b e) = (b, try_read_len 16 b rest s e)
try_target-Wire rest s (name l host e) =
    (host, rw (try_read_len 1 (l ∷ []) (host ++ rest) s refl) (try_read_len l host rest s (sym e)))

try_accept-Wire :
    (ver cmd rsv hi lo : ℕ) {atyp : ℕ} {bytes text : Bytes} (behind : Bytes) (s : Socket)
    → Wire atyp bytes text
    → 12 ≤ s.room
    → try_accept (record s { inbox = whole ver cmd rsv atyp bytes hi lo behind })
      ≡ (returned tt, send socks_ok_reply (send (5 ∷ 0 ∷ []) (record s { inbox = behind })))
unfolding try_accept
try_accept-Wire ver cmd rsv hi lo {atyp} {bytes} behind s w room =
    let end = hi ∷ lo ∷ behind in
    let greeted = send (5 ∷ 0 ∷ []) s in
    let request = ver ∷ cmd ∷ rsv ∷ atyp ∷ (bytes ++ end) in
    let (xs, target_read) = try_target-Wire end greeted w in
    rw (try_read_len 2 (5 ∷ 1 ∷ []) (0 ∷ request) s refl) (
      rw (try_read_len 1 (0 ∷ []) request s refl) (
        rw (try_write_fits (5 ∷ 0 ∷ []) (record s { inbox = request }) (omega arith)) (
          rw (try_read_len 4 (ver ∷ cmd ∷ rsv ∷ atyp ∷ []) (bytes ++ end) greeted refl) (
            rw target_read (
              rw (try_read_len 2 (hi ∷ lo ∷ []) behind greeted refl) (
                try_write_fits socks_ok_reply (record greeted { inbox = behind })
                  (omega arith)))))))

-- Whatever the sizes of the reads, every byte is counted once.
counted_all :
    (fuel : ℕ) (sizes : ℕ → ℕ) (i got : ℕ) (xs : Bytes) (s : Socket)
    → length xs < fuel
    → got < 2 ^ 64
    → (counted fuel sizes i got (record s { inbox = xs })).0 ≡ (got + length xs) % 2 ^ 64
unfolding counted
counted_all zero sizes i got xs s h fits = absurd (omega arith)
counted_all (suc fuel) sizes i got [] s h fits = omega arith
counted_all (suc fuel) sizes i got (x ∷ xs) s h fits =
    let n = min (suc (sizes i)) (min 4096 (length (x ∷ xs))) in
    let left : length (drop n (x ∷ xs)) ≡ length (x ∷ xs) - n = length-drop n (x ∷ xs) in
    let taken : (1 ≤ n) × (n ≤ length (x ∷ xs)) = (omega arith, omega arith) in
    counted_all fuel sizes (i + 1) ((got + n) % 2 ^ 64) (drop n (x ∷ xs)) s (omega arith)
      (omega arith)
    ∙ omega arith

-- A greeting, a request with a whole address, and a payload, to a peer that can write twelve bytes: the silent peer
-- accepts, sends nothing more, and counts the payload's bytes, modulo 2⁶⁴, whatever the sizes of its reads.
silent_upstream-whole :
    (sizes : ℕ → ℕ) (ver cmd rsv hi lo : ℕ) {atyp : ℕ} {bytes text : Bytes} (payload : Bytes)
    (s : Socket)
    → Wire atyp bytes text
    → 12 ≤ s.room
    → ((silent_upstream sizes (record s { inbox = whole ver cmd rsv atyp bytes hi lo payload })).0.0
        ≡ length payload % 2 ^ 64)
      × ((silent_upstream sizes
            (record s { inbox = whole ver cmd rsv atyp bytes hi lo payload })).1.sent
          ≡ s.sent ++ (5 ∷ 0 ∷ socks_ok_reply))
unfolding silent_upstream after_accept
silent_upstream-whole sizes ver cmd rsv hi lo payload s w room =
    rw (try_accept-Wire ver cmd rsv hi lo payload s w room) (
      counted_all (length payload + 1) sizes 0 0 payload (send socks_ok_reply (send (5 ∷ 0 ∷ []) s))
            (omega arith) (omega arith)
          ∙ omega arith,
      append_assoc s.sent (5 ∷ 0 ∷ []) socks_ok_reply,
    )

rest_read :
    (n : ℕ) (addr behind : Bytes) (hi lo : ℕ) (s : Socket)
    → length addr ≡ n
    → read_exact (n + 2) (record s { inbox = addr ++ (hi ∷ lo ∷ behind) })
      ≡ (returned (addr ++ (hi ∷ lo ∷ [])), record s { inbox = behind })
rest_read n addr behind hi lo s e =
    ap (λ (xs : Bytes). read_exact (n + 2) (record s { inbox = xs }))
      (sym (append_assoc addr (hi ∷ lo ∷ []) behind))
    ∙ read_exact_len (n + 2) (addr ++ (hi ∷ lo ∷ [])) behind s
        (omega (arith, length-append addr (hi ∷ lo ∷ [])))

rest_skipped :
    (hi lo : ℕ) {atyp : ℕ} {bytes text : Bytes} (behind : Bytes) (s : Socket)
    → Wire atyp bytes text
    → (xs : Bytes) × (skip_rest atyp (record s { inbox = bytes ++ (hi ∷ lo ∷ behind) })
        ≡ (returned xs, record s { inbox = behind }))
unfolding skip_rest address_left
rest_skipped hi lo behind s (ipv4 b e) = (_, rest_read 4 b behind hi lo s e)
rest_skipped hi lo behind s (ipv6 b e) = (_, rest_read 16 b behind hi lo s e)
rest_skipped hi lo behind s (name l host e) = (
  host ++ (hi ∷ lo ∷ []),
  rw (read_exact-append (l ∷ []) (host ++ (hi ∷ lo ∷ behind)) s)
      (rest_read l host behind hi lo s (sym e)),
)

-- A greeting, a request with a whole address, and whatever stands behind it, to a peer that can write its answers and
-- its payload: the early-closing peer reads to the last byte of the request and no further, and sends its
-- acceptance and the payload.
pub early_close_upstream-whole :
    (payload : Bytes) (ver cmd rsv hi lo : ℕ) {atyp : ℕ} {bytes text : Bytes} (behind : Bytes)
    (s : Socket)
    → Wire atyp bytes text
    → 12 + length payload ≤ s.room
    → early_close_upstream payload (record s { inbox = whole ver cmd rsv atyp bytes hi lo behind })
      ≡ (
        returned tt,
        send payload (send socks_ok_reply (send (5 ∷ 0 ∷ []) (record s { inbox = behind }))),
      )
unfolding early_close_upstream
early_close_upstream-whole payload ver cmd rsv hi lo {atyp} {bytes} behind s w room =
    let end = hi ∷ lo ∷ behind in
    let greeted = send (5 ∷ 0 ∷ []) s in
    let (xs, skipped) = rest_skipped hi lo behind greeted w in
    rw (hear_greeting_lem (0 ∷ []) (ver ∷ cmd ∷ rsv ∷ atyp ∷ (bytes ++ end)) s (omega arith)) (
      rw (read_exact-append (ver ∷ cmd ∷ rsv ∷ atyp ∷ []) (bytes ++ end) greeted) (
        rw skipped (
          rw (try_write_fits socks_ok_reply (record greeted { inbox = behind }) (omega arith)) (
            try_write_fits payload (send socks_ok_reply (record greeted { inbox = behind }))
              (omega arith)))))
