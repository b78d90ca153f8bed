-- ===== src/Text/Ipv6/Reading.antt =====
-- The reader of the groups of an IPv6 address, on the text of groups.
use tailcat_socks.Base.{
  ℕ, zero, suc, ◌+◌, ◌<◌, ◌≤◌, ◌≡◌, refl, ap, subst, ◌∙◌, inl, inr, false, Bool-cases, List, [],
  ◌∷◌, ◌++◌, append_assoc, none, some, arith, ltb, ◌==◌, if◌then◌else◌, All, All-append, length,
}
use tailcat_socks.Base.Bytes.{Bytes}
use tailcat_socks.Text.Ip.{
  read_digits, finish_number, read_number, read_given_char, read_separator, read_ipv4_addr,
}
use tailcat_socks.Text.Ip.RoundTrip.{StopsAt}
use tailcat_socks.Text.Ipv6.{
  show_hex, colon_tail, fmt_subslice, read_hex_group, Groups, read_groups,
}
use tailcat_socks.Text.Ipv6.Hex.{read_number-show_hex}
use tailcat_socks.Text.Ipv6.Plain.{
  AllPlain, colon_tail-IsPlain, fmt_subslice-IsPlain, read_ipv4_addr-AllPlain,
}

-- Nothing, or two colons.
abbrev pub Ends : Bytes → Type 0
Ends [] = Unit
Ends (c ∷ []) = ⊥
Ends (c ∷ d ∷ s) = (c ≡ b':') × (d ≡ b':')

abbrev pub AllGroups : List ℕ → Type 0
AllGroups = All (λ g. g < 65536)

-- The text of the groups, of which the first is the group `i` of its part.
abbrev pub group_text : ℕ → List ℕ → Bytes
group_text zero gs = fmt_subslice gs
group_text (suc i) gs = colon_tail gs

abbrev pub only_groups : List ℕ → Bytes → Groups
only_groups gs s = record { groups = gs; ends_v4 = false; rest = s }

colon_tail-next : (i : ℕ) (gs : List ℕ) → group_text (i + 1) gs ≡ colon_tail gs
colon_tail-next i gs = let e : i + 1 ≡ suc i = omega arith in rw e refl

group_text-AllPlain : (i : ℕ) (gs : List ℕ) → AllPlain (group_text i gs)
group_text-AllPlain zero gs = fmt_subslice-IsPlain gs
group_text-AllPlain (suc i) gs = colon_tail-IsPlain gs

no_v4_here : (i : ℕ) (s : Bytes) → AllPlain s → read_separator b':' i read_ipv4_addr s ≡ none
unfolding read_separator read_given_char
no_v4_here zero s h = read_ipv4_addr-AllPlain s h
no_v4_here (suc i) [] h = refl
no_v4_here (suc i) (c ∷ s) h = elim (Bool-cases (c == b':')) [
  | inl colon ↦ rw (read_separator, colon) (read_ipv4_addr-AllPlain s h.1)
  | inr other ↦ rw (read_separator, other)
]

no_v4 :
    (left i : ℕ) (s : Bytes)
    → AllPlain s
    → (if ltb 1 left then read_separator b':' i read_ipv4_addr s else none) ≡ none
no_v4 left i s h = elim (Bool-cases (ltb 1 left)) [
  | inl room ↦ rw room (no_v4_here i s h)
  | inr full ↦ rw full
]

read_stop :
    (left i : ℕ) (s : Bytes)
    → AllPlain s
    → read_hex_group i s ≡ none
    → read_groups (suc left) i s ≡ only_groups [] s
unfolding read_groups
read_stop left i s h e = ground (arith, no_v4_here i s h, e)

abbrev pub behind_group : ℕ → Groups → Groups
behind_group g more = record { groups = g ∷ more.groups; ends_v4 = more.ends_v4; rest = more.rest }

read_more :
    (left i g : ℕ) (s t : Bytes)
    → AllPlain s
    → read_hex_group i s ≡ some (g, t)
    → read_groups (suc left) i s ≡ behind_group g (read_groups left (i + 1) t)
unfolding read_groups
read_more left i g s t h e = ground (arith, no_v4_here i s h, e)

no_group : (i : ℕ) (s : Bytes) → Ends s → read_hex_group i s ≡ none
unfolding read_separator read_given_char read_number read_digits finish_number
no_group zero [] h = refl
no_group (suc i) [] h = refl
no_group i (c ∷ []) h = absurd h
no_group zero (c ∷ d ∷ s) h = rw (h.0) refl
no_group (suc i) (c ∷ d ∷ s) h = rw (h.0, h.1) refl

stops : (gs : List ℕ) (s : Bytes) → Ends s → StopsAt 16 (colon_tail gs ++ s)
unfolding colon_tail
stops [] [] h = tt
stops [] (c ∷ []) h = absurd h
stops [] (c ∷ d ∷ s) h = rw (h.0) refl
stops (g ∷ gs) s h = refl

next_group :
    (i g : ℕ) (gs : List ℕ) (s : Bytes)
    → g < 65536
    → Ends s
    → read_hex_group i (group_text i (g ∷ gs) ++ s) ≡ some (g, colon_tail gs ++ s)
unfolding read_separator read_given_char fmt_subslice colon_tail
next_group zero g gs s h e =
    rw (append_assoc (show_hex 4 g) (colon_tail gs) s)
      (read_number-show_hex g (colon_tail gs ++ s) h (stops gs s e))
next_group (suc i) g gs s h e =
    rw (append_assoc (show_hex 4 g) (colon_tail gs) s)
      (read_number-show_hex g (colon_tail gs ++ s) h (stops gs s e))

no_text : (i : ℕ) (s : Bytes) → group_text i [] ++ s ≡ s
unfolding fmt_subslice colon_tail
no_text zero s = refl
no_text (suc i) s = refl

-- The groups are read up to the end of their text, where there is room for them.
pub read_groups-group_text :
    (gs : List ℕ) (left i : ℕ) (s : Bytes)
    → AllGroups gs
    → length gs ≤ left
    → AllPlain s
    → Ends s
    → read_groups left i (group_text i gs ++ s) ≡ only_groups gs s
unfolding read_groups
read_groups-group_text [] zero i s h room plain e = ap (only_groups []) (no_text i s)
read_groups-group_text [] (suc left) i s h room plain e =
    rw (no_text i s) (read_stop left i s plain (no_group i s e))
read_groups-group_text (g ∷ gs) zero i s h room plain e = absurd (omega (arith, room))
read_groups-group_text (g ∷ gs) (suc left) i s h room plain e =
    let rest = read_groups-group_text gs left (i + 1) s h.1 (omega arith) plain e in
    let next : read_groups left (i + 1) (colon_tail gs ++ s) ≡ only_groups gs s =
      subst (λ t. read_groups left (i + 1) (t ++ s) ≡ only_groups gs s) (colon_tail-next i gs)
        rest in
    read_more left i g (group_text i (g ∷ gs) ++ s) (colon_tail gs ++ s)
      (All-append _ (group_text i (g ∷ gs)) s (group_text-AllPlain i (g ∷ gs)) plain)
      (next_group i g gs s h.0 e)
    ∙ ap (behind_group g) next
