-- ===== src/Text/Wildcard.antt =====
-- src/text_utils.cpp, `WildcardSpan`: the letters of a wildcard inside a callsign, in order.
pub mod Span
use mathlib.Core.Path.{subst}
use quick_logger.Prelude.{
  ℕ, zero, suc, ◌+◌, ◌≤◌, ◌<◌, ◌≡◌, ◌≢◌, ◌↔◌, ◌⊎◌, ◌∙◌, refl, sym, ap, inl, inr, Bool, true, false,
  not, List, [], ◌∷◌, ◌++◌, Option, none, some, some_inj, arith, ◌==◌, ==_iff, ==_refl,
  if◌then◌else◌, Bool-cases, Option-cases, Bytes, length, ltb,
}

abbrev one_more : Option ℕ → Option ℕ
one_more none = none
one_more (some n) = some (suc n)

-- The inner loop: the bytes passed until the last letter is met, each letter at its first place
-- after the one before.
unfoldable pub match_rest : Bytes → Bytes → Option ℕ
match_rest [] text = some 0
match_rest (l ∷ ls) [] = none
match_rest (l ∷ ls) (c ∷ cs) =
    one_more (elim (c == l) [ true ↦ match_rest ls cs | false ↦ match_rest (l ∷ ls) cs ])

-- `best < 0 || span < best ? span : best`, where `none` is -1.
abbrev pub better : Option ℕ → ℕ → ℕ
better none span = span
better (some best) span = if ltb span best then span else best

-- The outer loop at a place of the callsign, with `if (anchored && start > 0) break` before the next; `none`
-- is -1.
unfoldable pub span_from : Bool → Option ℕ → ℕ → Bytes → Bytes → Option ℕ
span_from anchored best l ls [] = best
span_from anchored best l ls (c ∷ cs) = elim (c == l) [
  | false ↦ elim anchored [ true ↦ best | false ↦ span_from false best l ls cs ]
  | true ↦ elim (match_rest ls cs) [
    | none ↦ best
    | some n ↦ elim anchored [
      | true ↦ some (better best (suc n))
      | false ↦ span_from false (some (better best (suc n))) l ls cs
    ]
  ]
]

unfoldable pub wildcard_span : Bytes → Bytes → Bool → Option ℕ
wildcard_span [] callsign anchored = none
wildcard_span (l ∷ ls) callsign anchored = span_from anchored none l ls callsign

-- The letters stand in the text, in their order.
pub data IsSubsequence : Bytes → Bytes → Type 0 where
  done : (text : Bytes) → IsSubsequence [] text
  here : (l : ℕ) (ls cs : Bytes) → IsSubsequence ls cs → IsSubsequence (l ∷ ls) (l ∷ cs)
  later : (c : ℕ) (ls cs : Bytes) → IsSubsequence ls cs → IsSubsequence ls (c ∷ cs)

sub_of : (l : ℕ) (ls text : Bytes) → IsSubsequence (l ∷ ls) text → IsSubsequence ls text
sub_of l ls [] s = elim s [ ]
sub_of l ls (c ∷ cs) (here l' ls' cs' s) = later l' ls' cs' s
sub_of l ls (c ∷ cs) (later c' ls' cs' s) = later c ls cs (sub_of l ls cs s)

match_rest-meets :
    (l c : ℕ) (ls cs : Bytes)
    → (c == l) ≡ true
    → match_rest (l ∷ ls) (c ∷ cs) ≡ one_more (match_rest ls cs)
unfolding match_rest
match_rest-meets l c ls cs h = cc

match_rest-passes :
    (l c : ℕ) (ls cs : Bytes)
    → (c == l) ≡ false
    → match_rest (l ∷ ls) (c ∷ cs) ≡ one_more (match_rest (l ∷ ls) cs)
unfolding match_rest
match_rest-passes l c ls cs h = cc

one_more-some : (o : Option ℕ) (n : ℕ) → one_more o ≡ some n → (m : ℕ) × (o ≡ some m) × (n ≡ suc m)
one_more-some none n e = cc
one_more-some (some m) n e = (m, refl, sym (some_inj e))

pub here-equal :
    (l c : ℕ) (ls cs : Bytes)
    → (c == l) ≡ true
    → IsSubsequence ls cs
    → IsSubsequence (l ∷ ls) (c ∷ cs)
here-equal l c ls cs h s =
    subst (λ k. IsSubsequence (l ∷ ls) (k ∷ cs)) (sym ((==_iff c l).0 h)) (here l ls cs s)

pub match_rest-sub :
    (ls cs : Bytes) (n : ℕ)
    → match_rest ls cs ≡ some n
    → IsSubsequence ls cs × (length ls ≤ n) × (n ≤ length cs)
match_rest-sub [] cs n e =
    let zero_is : 0 ≡ n = some_inj (unfold match_rest in e) in
    (done cs, omega (arith, zero_is), omega (arith, zero_is))
match_rest-sub (l ∷ ls) [] n e = absurd (unfold match_rest in cc)
match_rest-sub (l ∷ ls) (c ∷ cs) n e = elim (Bool-cases (c == l)) [
  | inl meets ↦
      let (m, e', n_is) =
        one_more-some (match_rest ls cs) n (sym (match_rest-meets l c ls cs meets) ∙ e) in
      let (s, low, high) = match_rest-sub ls cs m e' in
      (here-equal l c ls cs meets s, omega (arith, n_is, low), omega (arith, n_is, high))
  | inr passes ↦
      let (m, e', n_is) =
        one_more-some (match_rest (l ∷ ls) cs) n (sym (match_rest-passes l c ls cs passes) ∙ e) in
      let (s, low, high) = match_rest-sub (l ∷ ls) cs m e' in
      (later c (l ∷ ls) cs s, omega (arith, n_is, low), omega (arith, n_is, high))
]

-- Whether the first letter is met or not, the others stand behind it.
pub sub_behind :
    (l c : ℕ) (ls cs : Bytes)
    → (c == l) ≡ true
    → IsSubsequence (l ∷ ls) (c ∷ cs)
    → IsSubsequence ls cs
sub_behind l c ls cs h (here l' ls' cs' s) = s
sub_behind l c ls cs h (later c' ls' cs' s) = sub_of l ls cs s

pub sub_past :
    (l c : ℕ) (ls cs : Bytes)
    → (c == l) ≡ false
    → IsSubsequence (l ∷ ls) (c ∷ cs)
    → IsSubsequence (l ∷ ls) cs
sub_past l c ls cs h (here l' ls' cs' s) = absurd (ground (arith, ==_refl l, h))
sub_past l c ls cs h (later c' ls' cs' s) = s

pub sub-match_rest : (ls cs : Bytes) → IsSubsequence ls cs → (n : ℕ) × (match_rest ls cs ≡ some n)
sub-match_rest [] cs s = (0, unfold match_rest in refl)
sub-match_rest (l ∷ ls) [] s = elim s [ ]
sub-match_rest (l ∷ ls) (c ∷ cs) s = elim (Bool-cases (c == l)) [
  | inl meets ↦
      let (n, e) = sub-match_rest ls cs (sub_behind l c ls cs meets s) in
      (suc n, match_rest-meets l c ls cs meets ∙ ap one_more e)
  | inr passes ↦
      let (n, e) = sub-match_rest (l ∷ ls) cs (sub_past l c ls cs passes s) in
      (suc n, match_rest-passes l c ls cs passes ∙ ap one_more e)
]
