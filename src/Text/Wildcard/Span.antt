-- ===== src/Text/Wildcard/Span.antt =====
-- What `WildcardSpan` finds.
use quick_logger.Prelude.{
  ℕ, suc, ◌≤◌, ◌≡◌, ◌⊎◌, ◌∙◌, refl, sym, inl, inr, true, false, [], ◌∷◌, Option, none, some,
  some_inj, arith, ◌==◌, Bool-cases, Option-cases, Bytes, length, ltb,
}
use quick_logger.Text.Wildcard.{
  match_rest, better, span_from, wildcard_span, IsSubsequence, later, match_rest-sub,
  sub-match_rest, here-equal, sub_behind, sub_past,
}

module _ (l : ℕ) (ls : Bytes) where
  span_from-past :
      (best : Option ℕ) (c : ℕ) (cs : Bytes)
      → (c == l) ≡ false
      → span_from false best l ls (c ∷ cs) ≡ span_from false best l ls cs
  unfolding span_from
  span_from-past best c cs h = cc

  span_from-stops :
      (best : Option ℕ) (c : ℕ) (cs : Bytes)
      → (c == l) ≡ true
      → match_rest ls cs ≡ none
      → span_from false best l ls (c ∷ cs) ≡ best
  unfolding span_from
  span_from-stops best c cs h e = cc

  span_from-finds :
      (best : Option ℕ) (c : ℕ) (cs : Bytes) (n : ℕ)
      → (c == l) ≡ true
      → match_rest ls cs ≡ some n
      → span_from false best l ls (c ∷ cs) ≡ span_from false (some (better best (suc n))) l ls cs
  unfolding span_from
  span_from-finds best c cs n h e = cc

  abbrev IsSome : Option ℕ → Type 0
  IsSome o = (n : ℕ) × (o ≡ some n)

  -- A span found is kept or bettered.
  span_from-some : (cs : Bytes) (b : ℕ) → IsSome (span_from false (some b) l ls cs)
  span_from-some [] b = (b, unfold span_from in refl)
  span_from-some (c ∷ cs) b = elim (Bool-cases (c == l)) [
    | inr past ↦ let (n, e) = span_from-some cs b in (n, span_from-past (some b) c cs past ∙ e)
    | inl meets ↦ elim (Option-cases (match_rest ls cs)) [
      | inl none_fits ↦ (b, span_from-stops (some b) c cs meets none_fits)
      | inr (n, fits) ↦
          let (m, e) = span_from-some cs (better (some b) (suc n)) in
          (m, span_from-finds (some b) c cs n meets fits ∙ e)
    ]
  ]

  span_from_complete :
      (cs : Bytes) → IsSubsequence (l ∷ ls) cs → IsSome (span_from false none l ls cs)
  span_from_complete [] s = elim s [ ]
  span_from_complete (c ∷ cs) s = elim (Bool-cases (c == l)) [
    | inr past ↦
        let (n, e) = span_from_complete cs (sub_past l c ls cs past s) in
        (n, span_from-past none c cs past ∙ e)
    | inl meets ↦
        let (n, fits) = sub-match_rest ls cs (sub_behind l c ls cs meets s) in
        let (m, e) = span_from-some cs (suc n) in (m, span_from-finds none c cs n meets fits ∙ e)
  ]

  -- The letters stand in the text, which is as long as the span, and they fit in it.
  abbrev IsSpan : Bytes → ℕ → Type 0
  IsSpan cs n = IsSubsequence (l ∷ ls) cs × (suc (length ls) ≤ n) × (n ≤ length cs)

  IsSpan-later : (c : ℕ) (cs : Bytes) (n : ℕ) → IsSpan cs n → IsSpan (c ∷ cs) n
  IsSpan-later c cs n (s, low, high) = (later c (l ∷ ls) cs s, low, omega (arith, high))

  abbrev better_of : Option ℕ → ℕ → Option ℕ
  better_of best n = some (better best n)

  better-cases : (best : Option ℕ) (n : ℕ) → (some (better best n) ≡ best) ⊎ (better best n ≡ n)
  better-cases none n = inr refl
  better-cases (some b) n = elim (Bool-cases (ltb n b)) [
    | inl less ↦ inr (rw less)
    | inr more ↦ inl (rw more)
  ]

  span_from_sound :
      (cs : Bytes) (best : Option ℕ) (n : ℕ)
      → span_from false best l ls cs ≡ some n
      → (best ≡ some n) ⊎ IsSpan cs n
  span_from_sound [] best n e = inl (unfold span_from in e)
  span_from_sound (c ∷ cs) best n e = elim (Bool-cases (c == l)) [
    | inr past ↦ elim (span_from_sound cs best n (sym (span_from-past best c cs past) ∙ e)) [
      | inl kept ↦ inl kept
      | inr span ↦ inr (IsSpan-later c cs n span)
    ]
    | inl meets ↦ elim (Option-cases (match_rest ls cs)) [
      | inl none_fits ↦ inl (sym (span_from-stops best c cs meets none_fits) ∙ e)
      | inr (m, fits) ↦
          elim (span_from_sound cs (some (better best (suc m))) n
            (sym (span_from-finds best c cs m meets fits) ∙ e)) [
              | inl kept ↦ elim (better-cases best (suc m)) [
                | inl old ↦ inl (sym old ∙ kept)
                | inr new ↦
                    let (s, low, high) = match_rest-sub ls cs m fits in
                    let n_is : suc m ≡ n = sym new ∙ some_inj kept in
                    inr (
                      here-equal l c ls cs meets s,
                      omega (arith, n_is, low),
                      omega (arith, n_is, high),
                    )
              ]
              | inr span ↦ inr (IsSpan-later c cs n span)
            ]
    ]
  ]

-- Not anchored, and for at least one letter, WildcardSpan finds a span if the letters stand in the
-- call sign in their order; and if it finds one they do, and the span is at least as long as the
-- letters and at most as long as the call sign.
pub wildcard_span-IsSubsequence :
    (l : ℕ) (ls callsign : Bytes)
    → (IsSubsequence (l ∷ ls) callsign → (n : ℕ) × (wildcard_span (l ∷ ls) callsign false ≡ some n))
      × ((n : ℕ)
          → wildcard_span (l ∷ ls) callsign false ≡ some n
          → IsSubsequence (l ∷ ls) callsign × (length (l ∷ ls) ≤ n) × (n ≤ length callsign))
unfolding wildcard_span
wildcard_span-IsSubsequence l ls callsign = (
  span_from_complete l ls callsign,
  λ n e. elim (span_from_sound l ls callsign none n e) [
    | inl nothing ↦ absurd cc
    | inr span ↦ span
  ],
)
