-- ===== src/FakeTailcat/Echo.antt =====
-- What rust/src/bin/fake-tailcat.rs sends.
use tailcat_socks.Base.{
  ℕ, zero, suc, ◌+◌, ◌-◌, ◌≤◌, ◌≡◌, refl, sym, ap, ◌∙◌, min, true, [], ◌∷◌, ◌++◌, arith, length,
  length-append, length-take, length-drop, take, drop, take-append-drop, append-nil, append_assoc,
}
use tailcat_socks.Base.Bytes.{Bytes}
use tailcat_socks.Net.{Socket, Ending, eof, silent, broken, returned, read_exact}
use tailcat_socks.Net.Laws.{read_exact-append, write_all_fits}
use tailcat_socks.Proxy.Wire.{Wire, name, ipv4, ipv6, read_exact_len}
use tailcat_socks.Proxy.Handshake.{send, accepting}
use tailcat_socks.FakeTailcat.{
  answer_greeting, skip_for, skip_address, answer_request, echo_buffer, end_of, echo_from, echo,
  dialogue_then_echo, quietly, serve_echo,
}

-- Everything that was to come has been sent back.
abbrev pub echoed : Bytes → Socket → Socket
echoed xs s = record (send xs s) { inbox = [] }

rejoin : (n : ℕ) (xs sent : Bytes) → (sent ++ take n xs) ++ drop n xs ≡ sent ++ xs
rejoin n xs sent =
    append_assoc sent (take n xs) (drop n xs) ∙ ap (λ ys. sent ++ ys) (take-append-drop n xs)

echoed_nil : (s : Socket) → record s { inbox = [] } ≡ echoed [] s
echoed_nil s = cc (append-nil s.sent, room_kept)
  where
    room_kept : s.room - 0 ≡ s.room
    room_kept = omega arith

echoed-send :
    (n : ℕ) (xs : Bytes) (s : Socket) → echoed (drop n xs) (send (take n xs) s) ≡ echoed xs s
echoed-send n xs s = cc (rejoin n xs s.sent, room_left)
  where
    room_left : s.room - length (take n xs) - length (drop n xs) ≡ s.room - length xs
    room_left = omega (arith, length-take n xs, length-drop n xs)

-- Whatever the sizes of the reads, all is sent back.
echo_from_all :
    (fuel : ℕ) (sizes : ℕ → ℕ) (i : ℕ) (xs : Bytes) (s : Socket)
    → length xs ≤ fuel
    → length xs ≤ s.room
    → echo_from fuel sizes i (record s { inbox = xs }) ≡ (end_of s.ending, echoed xs s)
unfolding echo_from
echo_from_all zero sizes i [] s h room = ap (λ t. (end_of s.ending, t)) (echoed_nil s)
echo_from_all zero sizes i (x ∷ xs) s h room = absurd (omega arith)
echo_from_all (suc fuel) sizes i [] s h room = ap (λ t. (end_of s.ending, t)) (echoed_nil s)
echo_from_all (suc fuel) sizes i (x ∷ xs) s h room =
    let n = min (suc (sizes i)) (min echo_buffer (length (x ∷ xs))) in
    let now = take n (x ∷ xs) in
    let later = drop n (x ∷ xs) in
    let some_taken : (length now ≡ n) × (1 ≤ n) =
      (omega (arith, length-take n (x ∷ xs)), omega arith) in
    let left : length later ≡ length (x ∷ xs) - n = length-drop n (x ∷ xs) in
    rw (write_all_fits now (record s { inbox = later }) (omega arith)) (
      echo_from_all fuel sizes (i + 1) later (send now s) (omega arith) (omega arith)
      ∙ ap (λ t. (end_of s.ending, t)) (echoed-send n (x ∷ xs) s))

-- The rest of a request: the address, and the two bytes of the port.
read_rest :
    (n : ℕ) (addr rest : Bytes) (p q : ℕ) (s : Socket)
    → length addr ≡ n
    → read_exact (n + 2) (record s { inbox = addr ++ (p ∷ q ∷ rest) })
      ≡ (returned (addr ++ (p ∷ q ∷ [])), record s { inbox = rest })
read_rest n addr rest p q s e = rw (← append_assoc addr (p ∷ q ∷ []) rest) (
    read_exact_len (n + 2) (addr ++ (p ∷ q ∷ [])) rest s
      (omega (arith, length-append addr (p ∷ q ∷ []))))

skip_address-Wire :
    (p q : ℕ) {atyp : ℕ} {bytes text : Bytes} (rest : Bytes) (s : Socket)
    → Wire atyp bytes text
    → (xs : Bytes) × (skip_address atyp (record s { inbox = bytes ++ (p ∷ q ∷ rest) })
        ≡ (returned xs, record s { inbox = rest }))
unfolding skip_address skip_for
skip_address-Wire p q rest s (ipv4 b e) = (_, read_rest 4 b rest p q s e)
skip_address-Wire p q rest s (ipv6 b e) = (_, read_rest 16 b rest p q s e)
skip_address-Wire p q rest s (name l host e) = (
  host ++ (p ∷ q ∷ []),
  rw (read_exact-append (l ∷ []) (host ++ (p ∷ q ∷ rest)) s) (read_rest l host rest p q s (sym e)),
)

abbrev ok_reply : Bytes
ok_reply = 5 ∷ 0 ∷ 0 ∷ 1 ∷ 0 ∷ 0 ∷ 0 ∷ 0 ∷ 0 ∷ 0 ∷ []

-- The request is read to the last byte of its port, and answered.
answer_request-Wire :
    (ver cmd rsv p q : ℕ) {atyp : ℕ} {bytes text : Bytes} (rest : Bytes) (s : Socket)
    → Wire atyp bytes text
    → 10 ≤ s.room
    → answer_request (record s { inbox = ver ∷ cmd ∷ rsv ∷ atyp ∷ (bytes ++ (p ∷ q ∷ rest)) })
      ≡ (returned tt, send ok_reply (record s { inbox = rest }))
unfolding answer_request
answer_request-Wire ver cmd rsv p q {atyp} {bytes} rest s w room =
    let tail = p ∷ q ∷ rest in
    let (xs, read) = skip_address-Wire p q rest s w in
    rw (read_exact-append (ver ∷ cmd ∷ rsv ∷ atyp ∷ []) (bytes ++ tail) s)
      (rw read (rw (write_all_fits ok_reply (record s { inbox = rest }) room)))

-- What the stand-in hears from a client that asks for whatever target and then sends `payload`.
abbrev pub asked_for : Bytes → ℕ → ℕ → ℕ → ℕ → Bytes → ℕ → ℕ → Bytes → Bytes
asked_for methods ver cmd rsv atyp bytes p q payload =
    5 ∷ length methods ∷ (methods ++ (ver ∷ cmd ∷ rsv ∷ atyp ∷ (bytes ++ (p ∷ q ∷ payload))))

answer_greeting_lem :
    (methods rest : Bytes) (s : Socket)
    → 2 ≤ s.room
    → answer_greeting (record s { inbox = 5 ∷ length methods ∷ (methods ++ rest) })
      ≡ (returned true, send (5 ∷ 0 ∷ []) (record s { inbox = rest }))
unfolding answer_greeting
answer_greeting_lem methods rest s room =
    rw (read_exact-append (5 ∷ []) (length methods ∷ (methods ++ rest)) s) (
      rw (read_exact-append (length methods ∷ []) (methods ++ rest) s) (
        rw (read_exact-append methods rest s)
          (rw (write_all_fits (5 ∷ 0 ∷ []) (record s { inbox = rest }) room))))

echo_all :
    (sizes : ℕ → ℕ) (xs : Bytes) (s : Socket)
    → length xs ≤ s.room
    → echo sizes (record s { inbox = xs }) ≡ (end_of s.ending, echoed xs s)
unfolding echo
echo_all sizes xs s room = echo_from_all (length xs) sizes 0 xs s (omega arith) room

send-send : (a b : Bytes) (s : Socket) → send b (send a s) ≡ send (a ++ b) s
send-send a b s = cc (append_assoc s.sent a b, room_left)
  where
    room_left : s.room - length a - length b ≡ s.room - length (a ++ b)
    room_left = omega (arith, length-append a b)

sent_whole :
    (payload : Bytes) (s : Socket)
    → echoed payload (send ok_reply (send (5 ∷ 0 ∷ []) s))
      ≡ echoed (accepting 0 1 (0 ∷ 0 ∷ 0 ∷ 0 ∷ []) 0 0 payload) s
sent_whole payload s =
    ap (λ (t : Socket). record t { inbox = [] })
      (ap (send payload) (send-send (5 ∷ 0 ∷ []) ok_reply s)
        ∙ send-send (5 ∷ 0 ∷ ok_reply) payload s)

quietly-end_of : (e : Ending) → quietly (end_of e) ≡ end_of e
unfolding quietly
quietly-end_of eof = refl
quietly-end_of silent = refl
quietly-end_of (broken e) = refl

-- Whatever target a client asks for, by a greeting, a request with a whole address, and a payload: the stand-in
-- accepts it, and sends the payload back byte for byte, in whatever pieces it is read, provided the
-- client takes that many bytes. The task is over when the client's stream is, or breaks.
pub serve_echo_accepts :
    (sizes : ℕ → ℕ) (methods : Bytes) (ver cmd rsv p q : ℕ) {atyp : ℕ} {bytes text : Bytes}
    (payload : Bytes) (s : Socket)
    → Wire atyp bytes text
    → 12 + length payload ≤ s.room
    → serve_echo sizes (record s { inbox = asked_for methods ver cmd rsv atyp bytes p q payload })
      ≡ (end_of s.ending, echoed (accepting 0 1 (0 ∷ 0 ∷ 0 ∷ 0 ∷ []) 0 0 payload) s)
unfolding serve_echo dialogue_then_echo
serve_echo_accepts sizes methods ver cmd rsv p q {atyp} {bytes} payload s w room =
    let request = ver ∷ cmd ∷ rsv ∷ atyp ∷ (bytes ++ (p ∷ q ∷ payload)) in
    let greeted = send (5 ∷ 0 ∷ []) s in
    rw (answer_greeting_lem methods request s (omega arith)) (
      rw (answer_request-Wire ver cmd rsv p q payload greeted w (omega arith)) (
        rw (echo_all sizes payload (send ok_reply greeted) (omega arith))
          (rw (quietly-end_of s.ending, sent_whole payload s))))
