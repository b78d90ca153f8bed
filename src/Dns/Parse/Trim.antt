-- ===== src/Dns/Parse/Trim.antt =====
-- What `trim_ws` of rust/src/dnsmap.rs cuts off and what it keeps.
use tailcat_socks.Base.{
  ℕ, suc, ◌+◌, ◌-◌, ◌≡◌, refl, sym, ap, subst, ◌∙◌, inl, inr, true, false, [], ◌∷◌, ◌++◌, none,
  some, arith, take, drop, All, Bool-cases, Option-cases, take-append-drop, append-nil,
}
use mathlib.Core.List.{cons-ne-nil}
use mathlib.Core.Path.{◌≡⟨◌⟩◌, ◌∎}
use tailcat_socks.Base.Bytes.{Bytes, rposition}
use tailcat_socks.Dns.Parse.{is_ascii_whitespace, not_ws, slice, trim_ws}

abbrev pub AllSpace : Bytes → Type 0
AllSpace = All (λ c. is_ascii_whitespace c ≡ true)

-- The first byte is no white space, if there is one.
abbrev pub StartsDark : Bytes → Type 0
StartsDark [] = Unit
StartsDark (c ∷ s) = is_ascii_whitespace c ≡ false

-- The last byte is no white space, if there is one.
abbrev pub EndsDark : Bytes → Type 0
EndsDark [] = Unit
EndsDark (c ∷ s) = elim s [ [] ↦ is_ascii_whitespace c ≡ false | d ∷ r ↦ EndsDark s ]

-- `rposition` finds the last dark byte, and none only in white space.
rposition-AllSpace : (b : Bytes) → rposition not_ws b ≡ none → AllSpace b
unfolding rposition
rposition-AllSpace [] h = tt
rposition-AllSpace (c ∷ s) h = ground (arith, rposition-AllSpace s)

AllSpace-rposition : (b : Bytes) → AllSpace b → rposition not_ws b ≡ none
unfolding rposition
AllSpace-rposition [] h = refl
AllSpace-rposition (c ∷ s) h = rw (AllSpace-rposition s h.1, h.0)

-- The cut behind the last dark byte.
pub record CutAt (j : ℕ) (b : Bytes) : Type 0 where
  pub kept : EndsDark (take (suc j) b)
  pub cut : AllSpace (drop (suc j) b)

CutAt-last : (c : ℕ) (s : Bytes) → AllSpace s → is_ascii_whitespace c ≡ false → CutAt 0 (c ∷ s)
CutAt-last c s h dark = record { kept = dark; cut = h }

CutAt-suc : (i c d : ℕ) (r : Bytes) → CutAt i (d ∷ r) → CutAt (suc i) (c ∷ d ∷ r)
CutAt-suc i c d r h = record { kept = h.kept; cut = h.cut }

rposition_at_last :
    (c : ℕ) (s : Bytes) (j : ℕ)
    → rposition not_ws s ≡ none
    → rposition not_ws (c ∷ s) ≡ some j
    → (0 ≡ j) × (is_ascii_whitespace c ≡ false)
unfolding rposition
rposition_at_last c s j e h = ground arith

rposition_behind :
    (c : ℕ) (s : Bytes) (i j : ℕ)
    → rposition not_ws s ≡ some i
    → rposition not_ws (c ∷ s) ≡ some j
    → suc i ≡ j
unfolding rposition
rposition_behind c s i j e h = ground arith

pub rposition-CutAt : (b : Bytes) (j : ℕ) → rposition not_ws b ≡ some j → CutAt j b
rposition-CutAt [] j h = unfold rposition in cc
rposition-CutAt (c ∷ []) j h =
    let (zero_j, dark) = rposition_at_last c [] j (unfold rposition in refl) h in
    subst (λ k. CutAt k (c ∷ [])) zero_j (CutAt-last c [] tt dark)
rposition-CutAt (c ∷ d ∷ r) j h = elim (Option-cases (rposition not_ws (d ∷ r))) [
  | inl e ↦
      let (zero_j, dark) = rposition_at_last c (d ∷ r) j e h in
      subst (λ k. CutAt k (c ∷ d ∷ r)) zero_j
        (CutAt-last c (d ∷ r) (rposition-AllSpace (d ∷ r) e) dark)
  | inr (i, e) ↦
      subst (λ k. CutAt k (c ∷ d ∷ r)) (rposition_behind c (d ∷ r) i j e h)
        (CutAt-suc i c d r (rposition-CutAt (d ∷ r) i e))
]

pub trim_ws_space : (c : ℕ) (s : Bytes) → is_ascii_whitespace c ≡ true → trim_ws (c ∷ s) ≡ trim_ws s
unfolding trim_ws
trim_ws_space c s h = ground arith

pub trim_ws_dark :
    (c : ℕ) (s : Bytes)
    → is_ascii_whitespace c ≡ false
    → (j : ℕ) × (rposition not_ws (c ∷ s) ≡ some j) × (trim_ws (c ∷ s) ≡ take (suc j) (c ∷ s))
unfolding trim_ws
trim_ws_dark c s h = elim (Option-cases (rposition not_ws s)) [
  | inl e ↦ (0, ground arith, ground arith)
  | inr (i, e) ↦
      let size : suc i + 1 - 0 ≡ suc (suc i) = omega arith in
      let cut : trim_ws (c ∷ s) ≡ slice 0 (suc i) (c ∷ s) = ground arith in
      (suc i, ground arith, cut ∙ ap (λ k. take k (c ∷ s)) size)
]

-- `b` is `left`, then `kept`, then `right`, with white space alone on the sides, and `kept` neither
-- starts nor ends with white space.
pub record Trimmed (b kept : Bytes) : Type 0 where
  pub left : Bytes
  pub right : Bytes
  pub splits : b ≡ left ++ (kept ++ right)
  pub left_space : AllSpace left
  pub right_space : AllSpace right
  pub starts : StartsDark kept
  pub ends : EndsDark kept

-- `trim_ws` cuts white space off on both sides, all of it, and nothing else.
pub trim_ws-Trimmed : (b : Bytes) → Trimmed b (trim_ws b)
trim_ws-Trimmed [] =
    unfold trim_ws in
    record {
      left = [];
      right = [];
      splits = refl;
      left_space = tt;
      right_space = tt;
      starts = tt;
      ends = tt;
    }
trim_ws-Trimmed (c ∷ s) = elim (Bool-cases (is_ascii_whitespace c)) [
  | inl space ↦
      let t = trim_ws-Trimmed s in
      rw (trim_ws_space c s space) (record {
        left = c ∷ t.left;
        right = t.right;
        splits = ap (◌∷◌ c) t.splits;
        left_space = (space, t.left_space);
        right_space = t.right_space;
        starts = t.starts;
        ends = t.ends;
      })
  | inr dark ↦
      let (j, e, cut) = trim_ws_dark c s dark in
      rw cut (record {
        left = [];
        right = drop (suc j) (c ∷ s);
        splits = sym (take-append-drop (suc j) (c ∷ s));
        left_space = tt;
        right_space = (rposition-CutAt (c ∷ s) j e).cut;
        starts = dark;
        ends = (rposition-CutAt (c ∷ s) j e).kept;
      })
]

EndsDark-tail : (c : ℕ) (s : Bytes) → EndsDark (c ∷ s) → EndsDark s
EndsDark-tail c [] h = tt
EndsDark-tail c (d ∷ r) h = h

EndsDark-suffix : (k r : Bytes) → EndsDark (k ++ r) → EndsDark r
EndsDark-suffix [] r h = h
EndsDark-suffix (c ∷ k) r h = EndsDark-suffix k r (EndsDark-tail c (k ++ r) h)

EndsDark-AllSpace : (s : Bytes) → EndsDark s → AllSpace s → s ≡ []
EndsDark-AllSpace [] h a = refl
EndsDark-AllSpace (c ∷ []) h a = ground arith
EndsDark-AllSpace (c ∷ d ∷ r) h a = absurd (cons-ne-nil d r (EndsDark-AllSpace (d ∷ r) h a.1))

-- A text with no white space at its ends is left alone.
pub trim_ws_id : (b : Bytes) → StartsDark b → EndsDark b → trim_ws b ≡ b
trim_ws_id [] s e = unfold trim_ws in refl
trim_ws_id (c ∷ r) s e =
    let (j, found, kept) = trim_ws_dark c r s in
    let whole = take-append-drop (suc j) (c ∷ r) in
    let none_cut =
      EndsDark-AllSpace (drop (suc j) (c ∷ r))
        (EndsDark-suffix (take (suc j) (c ∷ r)) (drop (suc j) (c ∷ r)) (rw whole e))
        (rposition-CutAt (c ∷ r) j found).cut in
    trim_ws (c ∷ r)
    ≡⟨ kept ⟩ take (suc j) (c ∷ r)
    ≡⟨ sym (append-nil _) ⟩ take (suc j) (c ∷ r) ++ []
    ≡⟨ rw none_cut at whole ⟩ c ∷ r ∎
