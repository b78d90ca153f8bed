-- ===== src/Text/Utf8.antt =====
-- `std::str::from_utf8`, as a test: well-formed UTF-8, with no surrogates, no overlong forms and nothing
-- past U+10FFFF.
use tailcat_socks.Base.{Bool, true, false, ◌&&◌, ◌||◌, ℕ, [], ◌∷◌, ltb, leb, ◌==◌}
use tailcat_socks.Base.Bytes.{Bytes}

abbrev within : ℕ → ℕ → ℕ → Bool
within lo hi c = leb lo c && leb c hi

abbrev is_tail : ℕ → Bool
is_tail = within 0x80 0xBF

-- The first byte and the second of a sequence of three.
abbrev starts_three : ℕ → ℕ → Bool
starts_three c d =
    c == 0xE0 && within 0xA0 0xBF d
    || within 0xE1 0xEC c && is_tail d
    || c == 0xED && within 0x80 0x9F d
    || within 0xEE 0xEF c && is_tail d

-- The first byte and the second of a sequence of four.
abbrev starts_four : ℕ → ℕ → Bool
starts_four c d =
    c == 0xF0 && within 0x90 0xBF d
    || within 0xF1 0xF3 c && is_tail d
    || c == 0xF4 && within 0x80 0x8F d

-- A byte that is a character alone.
abbrev pub is_ascii : ℕ → Bool
is_ascii c = ltb c 0x80

unfoldable pub is_utf8 : Bytes → Bool
is_utf8 [] = true
is_utf8 (c ∷ []) = is_ascii c
is_utf8 (c ∷ d ∷ []) = is_ascii c && is_utf8 (d ∷ []) || within 0xC2 0xDF c && is_tail d
is_utf8 (c ∷ d ∷ e ∷ []) =
    is_ascii c && is_utf8 (d ∷ e ∷ [])
    || within 0xC2 0xDF c && is_tail d && is_utf8 (e ∷ [])
    || starts_three c d && is_tail e
is_utf8 (c ∷ d ∷ e ∷ f ∷ s) = elim (is_ascii c) [
  | true ↦ is_utf8 (d ∷ e ∷ f ∷ s)
  | false ↦ elim (within 0xC2 0xDF c && is_tail d) [
    | true ↦ is_utf8 (e ∷ f ∷ s)
    | false ↦ elim (starts_three c d && is_tail e) [
      | true ↦ is_utf8 (f ∷ s)
      | false ↦ starts_four c d && is_tail e && is_tail f && is_utf8 s
    ]
  ]
]
