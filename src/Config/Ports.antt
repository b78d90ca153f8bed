-- ===== src/Config/Ports.antt =====
-- What `free_high_port` of rust/src/config.rs returns.
use native.Mathlib.Decide.{dec_lt}
use tailcat_socks.Base.{
  ℕ, zero, suc, ◌+◌, ◌≤◌, ◌<◌, ◌≡◌, refl, subst, inl, inr, true, false, Option, some, arith,
  Bool-cases,
}
use tailcat_socks.Base.Bytes.{Bytes}
use tailcat_socks.Config.{Probe, random_u64, candidate, join_host_port, probe_from, free_high_port}

-- No draw leaves the range, and the sum does not wrap.
candidate_bounds : (r : ℕ) → (20000 ≤ candidate r) × (candidate r ≤ 60999)
unfolding candidate
candidate_bounds r = (omega arith, omega arith)

-- The candidate of round `i`.
abbrev pub drawn : Probe → ℕ → ℕ
drawn out i = candidate (random_u64 (out.entropy i))

-- Between the rounds `i` and `j` every candidate was refused.
abbrev pub AllRefused : Probe → Bytes → ℕ → ℕ → Type 0
AllRefused out host i j =
    (k : ℕ) → i ≤ k → k < j → out.can_bind k (join_host_port host (drawn out k)) ≡ false

-- The port was bound in a round, behind none but refused ones, and lies in the high range; or all
-- rounds were refused and the system chose.
pub data IsFree (out : Probe) (host : Bytes) (i j : ℕ) (r : Option ℕ) : Type 0 where
  probed :
      (k : ℕ)
      → i ≤ k
      → k < j
      → AllRefused out host i k
      → out.can_bind k (join_host_port host (drawn out k)) ≡ true
      → r ≡ some (drawn out k)
      → (20000 ≤ drawn out k) × (drawn out k ≤ 60999)
      → IsFree out host i j r
  given : AllRefused out host i j → r ≡ out.os_port → IsFree out host i j r

refused_cons :
    (out : Probe) (host : Bytes) (i j : ℕ)
    → out.can_bind i (join_host_port host (drawn out i)) ≡ false
    → AllRefused out host (i + 1) j
    → AllRefused out host i j
refused_cons out host i j h rest k p q = elim (dec_lt i k) [
  | yes lt ↦ rest k (omega arith) q
  | no ge ↦
      let same : i ≡ k = omega arith in
      subst (λ n. out.can_bind n (join_host_port host (drawn out n)) ≡ false) same h
]

IsFree-later :
    (out : Probe) (host : Bytes) (i j : ℕ) (r : Option ℕ)
    → out.can_bind i (join_host_port host (drawn out i)) ≡ false
    → IsFree out host (i + 1) j r
    → IsFree out host i j r
IsFree-later out host i j r h (probed k p q before bound e b) =
    probed k (omega arith) q (refused_cons out host i k h before) bound e b
IsFree-later out host i j r h (given before e) = given (refused_cons out host i j h before) e

probe_from-IsFree :
    (left i j : ℕ) (out : Probe) (host : Bytes)
    → i + left ≡ j
    → IsFree out host i j (probe_from left i out host)
probe_from-IsFree zero i j out host e =
    given (λ k p q. absurd (omega arith)) (unfold probe_from in refl)
probe_from-IsFree (suc left) i j out host e =
    elim (Bool-cases (out.can_bind i (join_host_port host (drawn out i)))) [
      | inl bound ↦
          probed i (omega arith) (omega arith) (λ k p q. absurd (omega arith)) bound
            (unfold probe_from in rw bound) (candidate_bounds (random_u64 (out.entropy i)))
      | inr refused ↦ IsFree-later out host i j _ refused (
          subst (IsFree out host (i + 1) j) (step refused)
            (probe_from-IsFree left (i + 1) j out host (omega arith)))
    ]
  where
    step :
        out.can_bind i (join_host_port host (drawn out i)) ≡ false
        → probe_from left (i + 1) out host ≡ probe_from (suc left) i out host
    step refused = unfold probe_from in rw refused

-- The probe returns the candidate of the first of its twenty rounds that could be bound, which lies
-- between 20000 and 60999, or, if none could, what the system gives.
pub free_high_port-IsFree :
    (out : Probe) (host : Bytes) → IsFree out host 0 20 (free_high_port out host)
unfolding free_high_port
free_high_port-IsFree out host = probe_from-IsFree 20 0 20 out host refl
