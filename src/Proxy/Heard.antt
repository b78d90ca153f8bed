-- ===== src/Proxy/Heard.antt =====
-- The bytes behind a greeting and a request that `serve_conn` of rust/src/proxy.rs has read.
use tailcat_socks.Base.{
  ℕ, ◌≡◌, refl, sym, ap, ◌∙◌, Bool, true, false, not, [], ◌∷◌, ◌++◌, arith, if◌then◌else◌, length,
  Bool-cases, inl, inr, ◌==◌,
}
use tailcat_socks.Base.Bytes.{Bytes}
use tailcat_socks.Net.{Socket, Outcome, returned, Io, ◌>>=◌, ◌>>◌, pure, read_exact, write_all}
use tailcat_socks.Net.Inversion.{>>=-eq-returned, read_exact-eq-returned, write_all-eq-returned}
use tailcat_socks.Proxy.Address.{at, has_byte, be_u16, read_atyp_addr}
use tailcat_socks.Proxy.{greet, greet_methods, answer_methods, Request, read_request}

not_both : ◌≡◌ {A = Outcome Bool} (returned false) (returned true) → ⊥
not_both p = cc

outcome_eq :
    {A : Type 0} {o o' : Outcome A} {s s' : Socket}
    → ◌≡◌ {A = Outcome A × Socket} (o, s) (o', s')
    → o ≡ o'
outcome_eq {A} e = ap (λ (p : Outcome A × Socket). p.0) e

socket_eq :
    {A : Type 0} {o o' : Outcome A} {s s' : Socket}
    → ◌≡◌ {A = Outcome A × Socket} (o, s) (o', s')
    → s ≡ s'
socket_eq {A} e = ap (λ (p : Outcome A × Socket). p.1) e

one_byte : (xs : Bytes) → length xs ≡ 1 → xs ≡ at 0 xs ∷ []
one_byte [] n = absurd (omega arith)
one_byte (x ∷ []) n = ground arith
one_byte (x ∷ y ∷ xs) n = absurd (omega arith)

-- The methods that the client offers, with "no authentication" among them.
pub record Offered (s s' : Socket) : Type 0 where
  pub methods : Bytes
  pub offers : has_byte 0 methods ≡ true
  pub heard : s.inbox ≡ 5 ∷ length methods ∷ (methods ++ s'.inbox)

answer_methods_heard :
    (methods : Bytes) (s : Socket) {s' : Socket}
    → answer_methods methods s ≡ (returned true, s')
    → (has_byte 0 methods ≡ true) × (s.inbox ≡ s'.inbox)
unfolding answer_methods
answer_methods_heard methods s {s'} h = elim (Bool-cases (has_byte 0 methods)) [
  | inl offered ↦ (offered, accepted (rw offered at h))
  | inr missing ↦ absurd (refused (rw missing at h))
]
  where
    accepted : (write_all (5 ∷ 0 ∷ []) >> pure true) s ≡ (returned true, s') → s.inbox ≡ s'.inbox
    accepted k =
        let (_, s1, e, p) = >>=-eq-returned (write_all (5 ∷ 0 ∷ [])) (λ _. pure true) s k in
        sym (write_all-eq-returned (5 ∷ 0 ∷ []) s e).kept
        ∙ ap (λ (t : Socket). t.inbox) (socket_eq p)

    refused : (write_all (5 ∷ 0xFF ∷ []) >> pure false) s ≡ (returned true, s') → ⊥
    refused k =
        let (_, s1, e, p) = >>=-eq-returned (write_all (5 ∷ 0xFF ∷ [])) (λ _. pure false) s k in
        not_both (outcome_eq p)

-- A greeting that lets a connection go on is of version 5 and offers "no authentication".
pub greet-Offered : (s : Socket) {s' : Socket} → greet s ≡ (returned true, s') → Offered s s'
unfolding greet greet_methods
greet-Offered s h =
    let version : Bytes → Io Bool = λ v. if not (at 0 v == 5) then pure false else greet_methods in
    let (v, s1, e1, k1) = >>=-eq-returned (read_exact 1) version s h in
    let (is_five, k) = goes_on (at 0 v == 5) s1 k1 in
    let methods_of : Bytes → Io Bool = λ nm. read_exact (at 0 nm) >>= answer_methods in
    let (nm, s2, e2, k2) = >>=-eq-returned (read_exact 1) methods_of s1 k in
    let (methods, s3, e3, k3) = >>=-eq-returned (read_exact (at 0 nm)) answer_methods s2 k2 in
    let first = read_exact-eq-returned 1 s e1 in
    let second = read_exact-eq-returned 1 s1 e2 in
    let third = read_exact-eq-returned (at 0 nm) s2 e3 in
    let (offers, kept) = answer_methods_heard methods s3 k3 in
    record {
      methods = methods;
      offers = offers;
      heard =
          first.front
          ∙ ap (λ xs. xs ++ s1.inbox) (one_byte v first.count)
          ∙ ap (λ x. x ∷ s1.inbox) (five (at 0 v) is_five)
          ∙ ap (λ xs. 5 ∷ xs)
              (second.front
                ∙ ap (λ xs. xs ++ s2.inbox) (one_byte nm second.count)
                ∙ ap (λ x. x ∷ s2.inbox) (sym third.count)
                ∙ ap (λ xs. length methods ∷ xs) (third.front ∙ ap (λ xs. methods ++ xs) kept));
    }
  where
    goes_on :
        (b : Bool) (s1 : Socket) {s' : Socket}
        → (if not b then pure false else greet_methods) s1 ≡ (returned true, s')
        → (b ≡ true) × (greet_methods s1 ≡ (returned true, s'))
    goes_on false s1 k = absurd (not_both (outcome_eq k))
    goes_on true s1 k = (refl, k)

    five : (n : ℕ) → (n == 5) ≡ true → n ≡ 5
    five n h = ground arith

four_bytes :
    (xs : Bytes) → length xs ≡ 4 → (a : ℕ) × (c : ℕ) × (d : ℕ) × (xs ≡ a ∷ at 1 xs ∷ c ∷ d ∷ [])
four_bytes [] n = absurd (omega arith)
four_bytes (x ∷ []) n = absurd (omega arith)
four_bytes (x ∷ y ∷ []) n = absurd (omega arith)
four_bytes (x ∷ y ∷ z ∷ []) n = absurd (omega arith)
four_bytes (x ∷ y ∷ z ∷ w ∷ []) n = (x, z, w, ground arith)
four_bytes (x ∷ y ∷ z ∷ w ∷ v ∷ xs) n = absurd (omega arith)

cmd_eq : {q q' : Request} → ◌≡◌ {A = Outcome Request} (returned q) (returned q') → q.cmd ≡ q'.cmd
cmd_eq {q} e = ap (cmd_of q.cmd) e
  where
    cmd_of : ℕ → Outcome Request → ℕ
    cmd_of n (returned q) = q.cmd
    cmd_of n o = n

-- The command of a request that was read is the second byte that was heard.
pub read_request_heard :
    (s : Socket) {q : Request} {s' : Socket}
    → read_request s ≡ (returned q, s')
    → (version : ℕ) × (more : Bytes) × (s.inbox ≡ version ∷ q.cmd ∷ more)
unfolding read_request
read_request_heard s h =
    let last : Bytes → Bytes → Bytes → Io Request =
      λ req host pb. pure (record { cmd = at 1 req; host = host; port = be_u16 pb }) in
    let port_of : Bytes → Bytes → Io Request = λ req host. read_exact 2 >>= last req host in
    let (req, s1, e1, k1) =
      >>=-eq-returned (read_exact 4) (λ req. read_atyp_addr (at 3 req) >>= port_of req) s h in
    let (host, s2, e2, k2) = >>=-eq-returned (read_atyp_addr (at 3 req)) (port_of req) s1 k1 in
    let (pb, s3, e3, k3) = >>=-eq-returned (read_exact 2) (last req host) s2 k2 in
    let took = read_exact-eq-returned 4 s e1 in
    let (a, c, d, req_is) = four_bytes req took.count in
    (
      a,
      c ∷ d ∷ s1.inbox,
      took.front
          ∙ ap (λ xs. xs ++ s1.inbox) req_is
          ∙ ap (λ n. a ∷ n ∷ c ∷ d ∷ s1.inbox) (cmd_eq (outcome_eq k3)),
    )
