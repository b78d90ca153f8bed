-- ===== src/Proxy/Quiet.antt =====
-- The parts of the handshakes of rust/src/proxy.rs that only read.
use tailcat_socks.Base.{ℕ, ◌≡◌, refl, ◌∙◌, Bool, true, false, not, ◌||◌, arith, if◌then◌else◌, ◌==◌}
use tailcat_socks.Base.Bytes.{Bytes}
use tailcat_socks.Error.{upstream_refused}
use tailcat_socks.Net.{
  Socket, Outcome, returned, failed, pending, Io, ◌>>=◌, bind_outcome, pure, fail, read_exact,
}
use tailcat_socks.Proxy.Address.{at, read_atyp_addr, be_u16, v4_of, v6_of}
use tailcat_socks.Text.Ip.{show_v4}
use tailcat_socks.Text.Ipv6.{show_v6}
use tailcat_socks.Proxy.{Request, read_request, read_bound, read_reply}

-- Whatever comes of it, the peer is sent nothing.
abbrev pub IsQuiet : {A : Type 0} → Io A → Type 0
IsQuiet m = (s : Socket) → (m s).1.sent ≡ s.sent

bind-IsQuiet :
    {A B : Type 0} (m : Io A) (f : A → Io B)
    → IsQuiet m
    → ((a : A) → IsQuiet (f a))
    → IsQuiet (m >>= f)
bind-IsQuiet {A} {B} m f hm hf s = go (m s).0 (m s).1 ∙ hm s
  where
    go : (o : Outcome A) (s' : Socket) → (bind_outcome o f s').1.sent ≡ s'.sent
    go (returned a) s' = hf a s'
    go (failed e) s' = refl
    go pending s' = refl

read_exact-IsQuiet : (n : ℕ) → IsQuiet (read_exact n)
unfolding read_exact
read_exact-IsQuiet n s = ground arith

-- A read and what is made of its bytes.
read_exact-then-IsQuiet :
    {A : Type 0} (n : ℕ) (f : Bytes → A) → IsQuiet (read_exact n >>= λ b. pure (f b))
read_exact-then-IsQuiet {A} n f =
    bind-IsQuiet (read_exact n) (λ b. pure {A = A} (f b)) (read_exact-IsQuiet n) (λ b s. refl)

pub read_atyp_addr-IsQuiet : (atyp : ℕ) → IsQuiet (read_atyp_addr atyp)
unfolding read_atyp_addr
read_atyp_addr-IsQuiet atyp s = ground (
  arith,
  read_exact-then-IsQuiet 4 (λ b. show_v4 (v4_of b)) s,
  bind-IsQuiet (read_exact 1) (λ l. read_exact (at 0 l)) (read_exact-IsQuiet 1)
      (λ l. read_exact-IsQuiet (at 0 l)) s,
  read_exact-then-IsQuiet 16 (λ b. show_v6 (v6_of b)) s,
)

pub read_request-IsQuiet : IsQuiet read_request
unfolding read_request
read_request-IsQuiet =
    bind-IsQuiet (read_exact 4)
      (λ req. read_atyp_addr (at 3 req) >>= λ host. read_exact 2 >>= λ pb. pure (made req host pb))
      (read_exact-IsQuiet 4)
      (λ req.
        bind-IsQuiet (read_atyp_addr (at 3 req))
          (λ host. read_exact 2 >>= λ pb. pure (made req host pb))
          (read_atyp_addr-IsQuiet (at 3 req)) (λ host. read_exact-then-IsQuiet 2 (made req host)))
  where
    made : Bytes → Bytes → Bytes → Request
    made req host pb = record { cmd = at 1 req; host = host; port = be_u16 pb }

read_bound-IsQuiet : (atyp : ℕ) → IsQuiet (read_bound atyp)
unfolding read_bound
read_bound-IsQuiet atyp =
    bind-IsQuiet (read_atyp_addr atyp) (λ bound. read_exact 2 >>= λ bnd. pure tt)
      (read_atyp_addr-IsQuiet atyp) (λ bound. read_exact-then-IsQuiet 2 (λ bnd. tt))

pub read_reply-IsQuiet : IsQuiet read_reply
unfolding read_reply
read_reply-IsQuiet =
    bind-IsQuiet (read_exact 4)
      (λ rep.
        if not (at 0 rep == 5) || not (at 1 rep == 0)
        then fail upstream_refused
        else read_bound (at 3 rep))
      (read_exact-IsQuiet 4) (λ rep. judged (not (at 0 rep == 5) || not (at 1 rep == 0)) (at 3 rep))
  where
    judged : (b : Bool) (atyp : ℕ) → IsQuiet (if b then fail upstream_refused else read_bound atyp)
    judged true atyp s = refl
    judged false atyp s = read_bound-IsQuiet atyp s
