-- ===== src/Base/Bytes.antt =====
-- Byte strings (`Vec<u8>`, `&[u8]`, and the UTF-8 bytes of a `String`): lists of numbers below 256.
-- Equality, ASCII case, the searches and the cuts that the program makes with `std`.
use Prim.Native.Char.{code}
use Prim.Native.String.{String}
use Prim.Native.Nat.{ℕ, suc, ◌+◌, ◌<◌}
use mathlib.Core.Path.{◌≡◌, refl, ap, ◌∙◌}
use mathlib.Core.Logic.{◌↔◌, ◌≢◌, inl, inr}
use mathlib.Core.Bool.{Bool, true, false, ◌&&◌}
use mathlib.Core.Option.{Option, none, some}
use mathlib.Core.List.{List, [], ◌∷◌, ◌++◌, map}
use native.Mathlib.Omega.{arith}
use tailcat_socks.Base.Tests.{◌==◌, leb, if◌then◌else◌, Bool-cases}
use tailcat_socks.Base.Lists.{All, length}

abbrev pub Bytes : Type 0
Bytes = List ℕ

-- The code points of a literal: its bytes, as every literal here is ASCII.
abbrev pub codes : String → Bytes
codes String.[] = []
codes (String.◌∷◌ c s) = code c ∷ codes s

abbrev pub IsByte : ℕ → Type 0
IsByte c = c < 256

abbrev pub AllBytes : Bytes → Type 0
AllBytes = All IsByte

-- `==` on slices.
unfoldable pub bytes_eq : Bytes → Bytes → Bool
bytes_eq [] [] = true
bytes_eq [] (y ∷ ys) = false
bytes_eq (x ∷ xs) [] = false
bytes_eq (x ∷ xs) (y ∷ ys) = x == y && bytes_eq xs ys

pub bytes_eq_iff : (a b : Bytes) → (bytes_eq a b ≡ true) ↔ (a ≡ b)
unfolding bytes_eq
bytes_eq_iff [] [] = ground arith
bytes_eq_iff [] (y ∷ ys) = ground arith
bytes_eq_iff (x ∷ xs) [] = ground arith
bytes_eq_iff (x ∷ xs) (y ∷ ys) = ground (arith, bytes_eq_iff xs ys)

pub bytes_eq_refl : (a : Bytes) → bytes_eq a a ≡ true
bytes_eq_refl a = (bytes_eq_iff a a).1 refl

pub bytes_eq-ne : (a b : Bytes) → bytes_eq a b ≡ false → a ≢ b
bytes_eq-ne a b h e = ground (arith, bytes_eq_iff a b)

-- `u8::to_ascii_lowercase`
unfoldable pub lower : ℕ → ℕ
lower c = if leb b'A' c && leb c b'Z' then c + 32 else c

pub lower_idem : (c : ℕ) → lower (lower c) ≡ lower c
unfolding lower
lower_idem c = ground arith

-- `<[u8]>::to_ascii_lowercase`
abbrev pub to_ascii_lowercase : Bytes → Bytes
to_ascii_lowercase = map lower

pub to_ascii_lowercase_idem :
    (s : Bytes) → to_ascii_lowercase (to_ascii_lowercase s) ≡ to_ascii_lowercase s
to_ascii_lowercase_idem [] = refl
to_ascii_lowercase_idem (c ∷ s) = cc (lower_idem c, to_ascii_lowercase_idem s)

-- `slice.iter().position(p)`
unfoldable pub position : (ℕ → Bool) → Bytes → Option ℕ
position p [] = none
position p (c ∷ s) =
    if p c then some 0 else elim (position p s) [ none ↦ none | some i ↦ some (suc i) ]

-- `slice.iter().rposition(p)`
unfoldable pub rposition : (ℕ → Bool) → Bytes → Option ℕ
rposition p [] = none
rposition p (c ∷ s) = elim (rposition p s) [
  | some i ↦ some (suc i)
  | none ↦ if p c then some 0 else none
]

-- `slice.split(p)`: one part more than there are separators.
abbrev pub cons_head : ℕ → List Bytes → List Bytes
cons_head c [] = (c ∷ []) ∷ []
cons_head c (part ∷ parts) = (c ∷ part) ∷ parts

unfoldable pub split : (ℕ → Bool) → Bytes → List Bytes
split p [] = [] ∷ []
split p (c ∷ s) = let rest = split p s in if p c then [] ∷ rest else cons_head c rest

-- A list of parts is never empty.
pub split-ne-nil : (p : ℕ → Bool) (s : Bytes) → split p s ≢ []
unfolding split
split-ne-nil p [] h = cc
split-ne-nil p (c ∷ s) h = ground (arith, split-ne-nil p s)

cons_head-append :
    (c : ℕ) (xs ys : List Bytes) → xs ≢ [] → cons_head c (xs ++ ys) ≡ cons_head c xs ++ ys
cons_head-append c [] ys h = absurd (h refl)
cons_head-append c (x ∷ xs) ys h = refl

-- The parts on the two sides of a separator.
pub split-append :
    (p : ℕ → Bool) (a b : Bytes) (x : ℕ)
    → p x ≡ true
    → split p (a ++ x ∷ b) ≡ split p a ++ split p b
unfolding split
split-append p [] b x h = rw h
split-append p (c ∷ a) b x h = elim (Bool-cases (p c)) [
  | inl cut ↦ rw cut (ap (◌∷◌ []) (split-append p a b x h))
  | inr kept ↦ rw kept (
      ap (cons_head c) (split-append p a b x h)
      ∙ cons_head-append c (split p a) (split p b) (split-ne-nil p a))
]

-- A text with no separator is one part.
pub split_whole : (p : ℕ → Bool) (a : Bytes) → All (λ c. p c ≡ false) a → split p a ≡ a ∷ []
unfolding split
split_whole p [] h = refl
split_whole p (c ∷ a) h = rw (h.0, split_whole p a h.1)

pub rposition-none : (p : ℕ → Bool) (ds : Bytes) → All (λ c. p c ≡ false) ds → rposition p ds ≡ none
unfolding rposition
rposition-none p [] h = refl
rposition-none p (c ∷ ds) h = rw (rposition-none p ds h.1, h.0)

-- The last separator is found behind any text, if the rest has none.
pub rposition-append :
    (p : ℕ → Bool) (xs ds : Bytes) (x : ℕ)
    → p x ≡ true
    → All (λ c. p c ≡ false) ds
    → rposition p (xs ++ x ∷ ds) ≡ some (length xs)
rposition-append p [] ds x h k = unfold rposition in rw (rposition-none p ds k, h)
rposition-append p (c ∷ xs) ds x h k = behind (rposition-append p xs ds x h k)
  where
    behind :
        rposition p (xs ++ x ∷ ds) ≡ some (length xs)
        → rposition p (c ∷ (xs ++ x ∷ ds)) ≡ some (suc (length xs))
    behind e = unfold rposition in rw (e, rposition)
