-- ===== src/Base/Result.antt =====
-- Rust's `Result`, `map_err`, and the early return of `?`.
use mathlib.Core.Path.{◌≡◌, refl}
use mathlib.Core.Logic.{◌⊎◌, inl, inr}

pub data Result {ℓ κ} (E : Type ℓ) (A : Type κ) : Type (ℓ ⊔ κ) where
  err : E → Result E A
  ok : A → Result E A

abbrev pub map_err {ℓ κ ρ} :
    {E : Type ℓ} {F : Type κ} {A : Type ρ} → (E → F) → Result E A → Result F A
map_err convert (err why) = err (convert why)
map_err convert (ok value) = ok value

infixl 5 ◌>>=◌
abbrev pub ◌>>=◌ {ℓ κ ρ} :
    {E : Type ℓ} {A : Type κ} {B : Type ρ} → Result E A → (A → Result E B) → Result E B
err why >>= next = err why
ok value >>= next = next value

pub Result-cases {ℓ κ} :
    {E : Type ℓ} {A : Type κ} (r : Result E A) → ((a : A) × (r ≡ ok a)) ⊎ ((e : E) × (r ≡ err e))
Result-cases (err e) = inr (e, refl)
Result-cases (ok a) = inl (a, refl)
