-- ===== src/Text/Ipv6/Zeroes.antt =====
-- The run of zero groups that the text of an IPv6 address leaves out.
use tailcat_socks.Base.{
  ℕ, zero, suc, ◌+◌, ◌≡◌, refl, sym, ap, ◌∙◌, ◌⊎◌, inl, inr, Bool-cases, List, [], ◌∷◌, ◌++◌,
  append-nil, append_assoc, arith, ltb, ◌==◌, if◌then◌else◌, length, length-append, replicate,
}
use tailcat_socks.Text.Ipv6.{Span, longest_zeroes, no_span}

-- The span is a run of zeroes of `full`, or empty.
pub record IsRun (full : List ℕ) (span : Span) : Type 0 where
  pub front : List ℕ
  pub back : List ℕ
  pub cut : full ≡ front ++ (replicate span.len 0 ++ back)
  pub starts : (span.len ≡ 0) ⊎ (length front ≡ span.start)

-- What the loop knows of the run that ends where it stands.
record EndsIn (before : List ℕ) (current : Span) : Type 0 where
  front : List ℕ
  cut : before ≡ front ++ replicate current.len 0
  starts : (current.len ≡ 0) ⊎ (length front ≡ current.start)

abbrev one_zero : List ℕ
one_zero = 0 ∷ []

snoc_zero : (n : ℕ) → replicate n 0 ++ one_zero ≡ replicate (n + 1) 0
snoc_zero zero = refl
snoc_zero (suc n) = let e : suc n + 1 ≡ suc (n + 1) = omega arith in rw e (ap (◌∷◌ 0) (snoc_zero n))

-- The span behind one more zero.
abbrev grown : ℕ → Span → Span
grown i current = record {
  start = if current.len == 0 then i else current.start;
  len = current.len + 1;
}

grown-EndsIn :
    (before : List ℕ) (i : ℕ) (current : Span)
    → length before ≡ i
    → EndsIn before current
    → EndsIn (before ++ 0 ∷ []) (grown i current)
grown-EndsIn before i current h e = record {
  front = e.front;
  cut =
      ap (λ xs. xs ++ 0 ∷ []) e.cut
      ∙ append_assoc e.front (replicate current.len 0) (0 ∷ [])
      ∙ ap (λ xs. e.front ++ xs) (snoc_zero current.len);
  starts = inr started;
}
  where
    whole : current.len ≡ 0 → before ≡ e.front
    whole none_yet = e.cut ∙ ap (λ n. e.front ++ replicate n 0) none_yet ∙ append-nil e.front

    started : length e.front ≡ (if current.len == 0 then i else current.start)
    started = elim (Bool-cases (current.len == 0)) [
      | inl first ↦ rw first (omega (arith, ap length (whole (ground (arith, first))), h))
      | inr later ↦ rw later (ground (arith, e.starts, later))
    ]

-- A run that ends where the loop stands is a run of the whole.
EndsIn-IsRun : (before gs : List ℕ) (span : Span) → EndsIn before span → IsRun (before ++ gs) span
EndsIn-IsRun before gs span e = record {
  front = e.front;
  back = gs;
  cut = ap (λ xs. xs ++ gs) e.cut ∙ append_assoc e.front (replicate span.len 0) gs;
  starts = e.starts;
}

loop-IsRun :
    (gs before full : List ℕ) (i : ℕ) (longest current : Span)
    → full ≡ before ++ gs
    → length before ≡ i
    → IsRun full longest
    → EndsIn before current
    → IsRun full (longest_zeroes i gs longest current)
unfolding longest_zeroes
loop-IsRun [] before full i longest current e h best here = best
loop-IsRun (g ∷ gs) before full i longest current e h best here =
    let full' : full ≡ (before ++ g ∷ []) ++ gs = e ∙ sym (append_assoc before (g ∷ []) gs) in
    let h' : length (before ++ g ∷ []) ≡ i + 1 = omega (arith, length-append before (g ∷ []), h) in
    elim (Bool-cases (g == 0)) [
      | inr more ↦ rw more (
          loop-IsRun gs (before ++ g ∷ []) full (i + 1) longest (record { start = 0; len = 0 })
            full' h' best
            (record {
              front = before ++ g ∷ [];
              cut = sym (append-nil (before ++ g ∷ []));
              starts = inl refl;
            }))
      | inl zero_group ↦
          let is_zero : g ≡ 0 = ground (arith, zero_group) in
          let here' : EndsIn (before ++ g ∷ []) (grown i current) =
            rw is_zero (grown-EndsIn before i current h here) in
          elim (Bool-cases (ltb longest.len (current.len + 1))) [
            | inl longer ↦
                rw (zero_group, longer)
                  (loop-IsRun gs (before ++ g ∷ []) full (i + 1) (grown i current) (grown i current)
                    full' h' (rw full' (EndsIn-IsRun (before ++ g ∷ []) gs (grown i current) here'))
                    here')
            | inr shorter ↦
                rw (zero_group, shorter)
                  (loop-IsRun gs (before ++ g ∷ []) full (i + 1) longest (grown i current) full' h'
                    best here')
          ]
    ]

pub longest_zeroes-IsRun : (gs : List ℕ) → IsRun gs (longest_zeroes 0 gs no_span no_span)
longest_zeroes-IsRun gs =
    loop-IsRun gs [] gs 0 no_span no_span refl refl
      (record { front = []; back = gs; cut = refl; starts = inl refl })
      (record { front = []; cut = refl; starts = inl refl })
