-- ===== src/Net/Inversion.antt =====
-- What a read, a write or a chain of them that returned has done to the connection.
use tailcat_socks.Base.{
  ℕ, ◌≡◌, refl, sym, ap, subst, [], ◌++◌, Option, none, some, arith, leb, length, length-take, take,
  take-append-drop, Bool-cases, inl, inr,
}
use tailcat_socks.Base.Bytes.{Bytes}
use tailcat_socks.Error.{IoError, SocksError}
use tailcat_socks.Net.{
  Socket, Outcome, returned, failed, pending, Io, ◌>>=◌, bind_outcome, read_exact, write_all,
  Ending, eof, silent, broken, at_end, at_jam,
}

pub failed-ne-returned :
    {A : Type 0} {x : SocksError} {a : A} → ◌≡◌ {A = Outcome A} (failed x) (returned a) → ⊥
failed-ne-returned e = cc

pending-ne-returned : {A : Type 0} {a : A} → ◌≡◌ {A = Outcome A} pending (returned a) → ⊥
pending-ne-returned e = cc

pub >>=-eq-returned :
    {A B : Type 0} (m : Io A) (f : A → Io B) (s : Socket) {b : B} {s'' : Socket}
    → (m >>= f) s ≡ (returned b, s'')
    → (a : A) × (s' : Socket) × (m s ≡ (returned a, s')) × (f a s' ≡ (returned b, s''))
>>=-eq-returned {A} {B} m f s {b} {s''} h = go (m s).0 (m s).1 refl h
  where
    go :
        (o : Outcome A) (s' : Socket)
        → m s ≡ (o, s')
        → bind_outcome o f s' ≡ (returned b, s'')
        → (a : A) × (s' : Socket) × (m s ≡ (returned a, s')) × (f a s' ≡ (returned b, s''))
    go (returned a) s' e k = (a, s', e, k)
    go (failed x) s' e k = absurd (failed-ne-returned (ap (λ (p : Outcome B × Socket). p.0) k))
    go pending s' e k = absurd (pending-ne-returned (ap (λ (p : Outcome B × Socket). p.0) k))

-- The peer was sent nothing, and `n` bytes were taken from the front.
pub record Took (n : ℕ) (xs : Bytes) (s s' : Socket) : Type 0 where
  pub front : s.inbox ≡ xs ++ s'.inbox
  pub count : length xs ≡ n
  pub sent : s'.sent ≡ s.sent

abbrev TookIf : ℕ → Socket → Outcome Bytes × Socket → Type 0
TookIf n s (returned xs, s') = Took n xs s s'
TookIf n s (failed e, s') = Unit
TookIf n s (pending, s') = Unit

TookIf-at_end : (n : ℕ) (s s' : Socket) (e : Ending) → TookIf n s (at_end e, s')
TookIf-at_end n s s' eof = tt
TookIf-at_end n s s' silent = tt
TookIf-at_end n s s' (broken e) = tt

read_exact-TookIf : (n : ℕ) (s : Socket) → TookIf n s (read_exact n s)
unfolding read_exact
read_exact-TookIf n s = elim (Bool-cases (leb n (length s.inbox))) [
  | inl fits ↦ rw fits (record {
    front = sym (take-append-drop n s.inbox);
    count = ground (arith, length-take n s.inbox);
    sent = refl;
  })
  | inr short ↦ rw short (TookIf-at_end n s (record s { inbox = [] }) s.ending)
]

pub read_exact-eq-returned :
    (n : ℕ) (s : Socket) {xs : Bytes} {s' : Socket}
    → read_exact n s ≡ (returned xs, s')
    → Took n xs s s'
read_exact-eq-returned n s h = subst (TookIf n s) h (read_exact-TookIf n s)

-- Nothing was read, and the peer was sent the bytes.
pub record Wrote (bytes : Bytes) (s s' : Socket) : Type 0 where
  pub kept : s'.inbox ≡ s.inbox
  pub added : s'.sent ≡ s.sent ++ bytes

abbrev WroteIf : Bytes → Socket → Outcome (Unit {0}) × Socket → Type 0
WroteIf bytes s (returned _, s') = Wrote bytes s s'
WroteIf bytes s (failed e, s') = Unit
WroteIf bytes s (pending, s') = Unit

WroteIf-at_jam :
    (bytes : Bytes) (s s' : Socket) (e : Option IoError) → WroteIf bytes s (at_jam e, s')
WroteIf-at_jam bytes s s' none = tt
WroteIf-at_jam bytes s s' (some e) = tt

write_all-WroteIf : (bytes : Bytes) (s : Socket) → WroteIf bytes s (write_all bytes s)
unfolding write_all
write_all-WroteIf bytes s = elim (Bool-cases (leb (length bytes) s.room)) [
  | inl fits ↦ rw fits (record { kept = refl; added = refl })
  | inr full ↦
      rw full
        (WroteIf-at_jam bytes s (record s { sent = s.sent ++ take s.room bytes; room = 0 }) s.jam)
]

pub write_all-eq-returned :
    (bytes : Bytes) (s : Socket) {s' : Socket}
    → write_all bytes s ≡ (returned tt, s')
    → Wrote bytes s s'
write_all-eq-returned bytes s h = subst (WroteIf bytes s) h (write_all-WroteIf bytes s)
