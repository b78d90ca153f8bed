-- ===== src/Proxy/Accepted.antt =====
-- What must have happened before a connection of rust/src/proxy.rs is relayed.
use tailcat_socks.Base.{
  ℕ, ◌≡◌, refl, sym, ap, ◌∙◌, Bool, true, false, not, ◌&&◌, ◌||◌, [], ◌∷◌, ◌++◌, arith,
  if◌then◌else◌, length, Bool-cases, inl, inr, append_assoc, ◌==◌,
}
use tailcat_socks.Base.Bytes.{Bytes}
use tailcat_socks.Error.{SocksError, upstream_refused}
use tailcat_socks.Net.{
  Socket, Outcome, returned, Io, ◌>>=◌, ◌>>◌, pure, fail, read_exact, write_all,
}
use tailcat_socks.Net.Inversion.{
  failed-ne-returned, >>=-eq-returned, read_exact-eq-returned, write_all-eq-returned,
}
use tailcat_socks.Proxy.Address.{at, has_byte, connect_request}
use tailcat_socks.Proxy.Quiet.{read_reply-IsQuiet}
use tailcat_socks.Proxy.{
  greet, greet_methods, answer_methods, read_bound, read_reply, send_connect, upstream_connect,
}

two_bytes :
    (xs : Bytes) (a b : ℕ) → length xs ≡ 2 → (at 0 xs == a && at 1 xs == b) ≡ true → xs ≡ a ∷ b ∷ []
two_bytes [] a b n h = absurd (omega arith)
two_bytes (x ∷ []) a b n h = absurd (omega arith)
two_bytes (x ∷ y ∷ []) a b n h = ground arith
two_bytes (x ∷ y ∷ z ∷ xs) a b n h = absurd (omega arith)

four_bytes :
    (xs : Bytes) (a b : ℕ)
    → length xs ≡ 4
    → (at 0 xs == a && at 1 xs == b) ≡ true
    → (c : ℕ) × (d : ℕ) × (xs ≡ a ∷ b ∷ c ∷ d ∷ [])
four_bytes [] a b n h = absurd (omega arith)
four_bytes (x ∷ []) a b n h = absurd (omega arith)
four_bytes (x ∷ y ∷ []) a b n h = absurd (omega arith)
four_bytes (x ∷ y ∷ z ∷ []) a b n h = absurd (omega arith)
four_bytes (x ∷ y ∷ z ∷ w ∷ []) a b n h = (z, w, ground arith)
four_bytes (x ∷ y ∷ z ∷ w ∷ v ∷ xs) a b n h = absurd (omega arith)

outcome_eq :
    {A : Type 0} {o o' : Outcome A} {s s' : Socket}
    → ◌≡◌ {A = Outcome A × Socket} (o, s) (o', s')
    → o ≡ o'
outcome_eq {A} e = ap (λ (p : Outcome A × Socket). p.0) e

-- What returns has passed its guard.
guard_passed :
    {A : Type 0} (b : Bool) (e : SocksError) (m : Io A) (s : Socket) {a : A} {s' : Socket}
    → (if b then fail e else m) s ≡ (returned a, s')
    → (b ≡ false) × (m s ≡ (returned a, s'))
guard_passed true e m s h = absurd (failed-ne-returned (outcome_eq h))
guard_passed false e m s h = (refl, h)

-- A reply that is accepted starts with version 5 and code 0.
read_reply_returned :
    (s : Socket) {s' : Socket}
    → read_reply s ≡ (returned tt, s')
    → (more : Bytes) × (s.inbox ≡ 5 ∷ 0 ∷ more)
unfolding read_reply
read_reply_returned s h =
    let refuses : Bytes → Bool = λ rep. not (at 0 rep == 5) || not (at 1 rep == 0) in
    let judge : Bytes → Io (Unit {0}) =
      λ rep. if refuses rep then fail upstream_refused else read_bound (at 3 rep) in
    let (rep, s1, e, k) = >>=-eq-returned (read_exact 4) judge s h in
    let took = read_exact-eq-returned 4 s e in
    let passed = guard_passed (refuses rep) upstream_refused (read_bound (at 3 rep)) s1 k in
    let (c, d, rep_is) =
      four_bytes rep 5 0 took.count (accepts (at 0 rep == 5) (at 1 rep == 0) passed.0) in
    (c ∷ d ∷ s1.inbox, took.front ∙ ap (λ xs. xs ++ s1.inbox) rep_is)
  where
    accepts : (p q : Bool) → (not p || not q) ≡ false → (p && q) ≡ true
    accepts p q h = ground arith

-- The upstream agreed twice, and was sent the greeting and the request.
pub record Agreed (host : Bytes) (port : ℕ) (s s' : Socket) : Type 0 where
  pub more : Bytes
  pub agreed : s.inbox ≡ 5 ∷ 0 ∷ 5 ∷ 0 ∷ more
  pub asked : s'.sent ≡ s.sent ++ (5 ∷ 1 ∷ 0 ∷ connect_request host port)

send_connect_returned :
    (host : Bytes) (port : ℕ) (s : Socket) {s' : Socket}
    → send_connect host port s ≡ (returned tt, s')
    → ((more : Bytes) × (s.inbox ≡ 5 ∷ 0 ∷ more)) × (s'.sent ≡ s.sent ++ connect_request host port)
unfolding send_connect
send_connect_returned host port s h =
    let (_, s1, e, k) =
      >>=-eq-returned (write_all (connect_request host port)) (λ _. read_reply) s h in
    let wrote = write_all-eq-returned (connect_request host port) s e in
    let (more, reply) = read_reply_returned s1 k in
    (
      (more, sym wrote.kept ∙ reply),
      sym (ap (λ (p : Outcome (Unit {0}) × Socket). p.1.sent) k)
          ∙ read_reply-IsQuiet s1
          ∙ wrote.added,
    )

-- A handshake that returns has heard the upstream agree to the greeting and to the request, and has sent it
-- exactly these two.
pub upstream_connect-Agreed :
    (host : Bytes) (port : ℕ) (s : Socket) {s' : Socket}
    → upstream_connect host port s ≡ (returned tt, s')
    → Agreed host port s s'
unfolding upstream_connect
upstream_connect-Agreed host port s h =
    let accepts : Bytes → Bool = λ g. at 0 g == 5 && at 1 g == 0 in
    let judge : Bytes → Io (Unit {0}) =
      λ g. if not (accepts g) then fail upstream_refused else send_connect host port in
    let hello : Bytes = 5 ∷ 1 ∷ 0 ∷ [] in
    let (_, s1, e1, k1) = >>=-eq-returned (write_all hello) (λ _. read_exact 2 >>= judge) s h in
    let (g, s2, e2, k2) = >>=-eq-returned (read_exact 2) judge s1 k1 in
    let wrote = write_all-eq-returned hello s e1 in
    let took = read_exact-eq-returned 2 s1 e2 in
    let passed = guard_passed (not (accepts g)) upstream_refused (send_connect host port) s2 k2 in
    let greeting = two_bytes g 5 0 took.count (not_false (accepts g) passed.0) in
    let ((more, reply), asked) = send_connect_returned host port s2 passed.1 in
    record {
      more = more;
      agreed =
          sym wrote.kept
          ∙ took.front
          ∙ ap (λ xs. xs ++ s2.inbox) greeting
          ∙ ap (λ xs. 5 ∷ 0 ∷ xs) reply;
      asked =
          asked
          ∙ ap (λ xs. xs ++ connect_request host port) (took.sent ∙ wrote.added)
          ∙ append_assoc s.sent hello (connect_request host port);
    }
  where
    not_false : (b : Bool) → not b ≡ false → b ≡ true
    not_false b h = ground arith

not_both : ◌≡◌ {A = Outcome Bool} (returned false) (returned true) → ⊥
not_both p = cc

answer_methods_returned :
    (methods : Bytes) (s : Socket) {s' : Socket}
    → answer_methods methods s ≡ (returned true, s')
    → s'.sent ≡ s.sent ++ (5 ∷ 0 ∷ [])
unfolding answer_methods
answer_methods_returned methods s {s'} h = elim (Bool-cases (has_byte 0 methods)) [
  | inl offered ↦ accepted (rw offered at h)
  | inr missing ↦ absurd (refused (rw missing at h))
]
  where
    accepted :
        (write_all (5 ∷ 0 ∷ []) >> pure true) s ≡ (returned true, s')
        → s'.sent ≡ s.sent ++ (5 ∷ 0 ∷ [])
    accepted k =
        let (_, s1, e, p) = >>=-eq-returned (write_all (5 ∷ 0 ∷ [])) (λ _. pure true) s k in
        sym (ap (λ (p : Outcome Bool × Socket). p.1.sent) p)
        ∙ (write_all-eq-returned (5 ∷ 0 ∷ []) s e).added

    refused : (write_all (5 ∷ 0xFF ∷ []) >> pure false) s ≡ (returned true, s') → ⊥
    refused k =
        let (_, s1, e, p) = >>=-eq-returned (write_all (5 ∷ 0xFF ∷ [])) (λ _. pure false) s k in
        not_both (outcome_eq p)

-- A greeting that lets a connection go on has been answered with "no authentication".
pub greet_returned :
    (s : Socket) {s' : Socket} → greet s ≡ (returned true, s') → s'.sent ≡ s.sent ++ (5 ∷ 0 ∷ [])
unfolding greet greet_methods
greet_returned s h =
    let version : Bytes → Io Bool = λ v. if not (at 0 v == 5) then pure false else greet_methods in
    let (v, s1, e1, k1) = >>=-eq-returned (read_exact 1) version s h in
    let methods_of : Bytes → Io Bool = λ nm. read_exact (at 0 nm) >>= answer_methods in
    let (nm, s2, e2, k2) =
      >>=-eq-returned (read_exact 1) methods_of s1 (goes_on (not (at 0 v == 5)) s1 k1) in
    let (methods, s3, e3, k3) = >>=-eq-returned (read_exact (at 0 nm)) answer_methods s2 k2 in
    answer_methods_returned methods s3 k3
    ∙ ap (λ xs. xs ++ (5 ∷ 0 ∷ []))
        ((read_exact-eq-returned (at 0 nm) s2 e3).sent
          ∙ (read_exact-eq-returned 1 s1 e2).sent
          ∙ (read_exact-eq-returned 1 s e1).sent)
  where
    goes_on :
        (b : Bool) (s1 : Socket) {s' : Socket}
        → (if b then pure false else greet_methods) s1 ≡ (returned true, s')
        → greet_methods s1 ≡ (returned true, s')
    goes_on true s1 k = absurd (not_both (outcome_eq k))
    goes_on false s1 k = k
