-- ===== src/Frequency/Offset/Hint.antt =====
-- The advice of `OffsetProblem` for an offset typed in kHz.
use quick_logger.Prelude.{
  ℕ, ◌+◌, ◌*◌, ◌/◌, ◌%◌, ◌^◌, ◌≤◌, ◌<◌, ◌≡◌, ◌∙◌, refl, ap, Bool, true, false, ◌&&◌, [], ◌∷◌, some,
  and-true, arith, ◌==◌, ==_iff, leb, leb→le, Bytes, is_digit, is_empty, length, take_while-append,
  trim_back, drop, All, all_below, all_below_sound,
}
use quick_logger.Prelude.Decimal.{
  to_string, value_from, value_from-to_string, to_string-All, length-to_string, to_string-ne-nil,
}
use quick_logger.Frequency.{all_digits, not_point, fraction_from, mhz, mhz_of, parse_mhz}
use quick_logger.Frequency.Offset.{khz_fraction, with_fraction, khz_as_mhz}

-- The decimals for each of the thousand values, by evaluation.
abbrev fraction_of : ℕ → Bytes
fraction_of m = trim_back (λ c. c == b'0') (drop 1 (to_string (1000 + m)))

abbrev fraction_well : ℕ → Bool
fraction_well m =
    all_digits (fraction_of m)
    && leb (length (fraction_of m)) 6
    && fraction_from mhz 0 (fraction_of m) == m * 1000

fraction_table : all_below 1000 fraction_well ≡ true
unfolding all_below all_digits fraction_from to_string trim_back
fraction_table = refl

fraction_facts :
    (m : ℕ)
    → m < 1000
    → (all_digits (fraction_of m) ≡ true)
      × (length (fraction_of m) ≤ 6)
      × (fraction_from mhz 0 (fraction_of m) ≡ m * 1000)
fraction_facts m h =
    let row = all_below_sound 1000 fraction_well m fraction_table h in
    let outer = and-true (all_digits (fraction_of m) && leb (length (fraction_of m)) 6) _ row in
    let inner = and-true (all_digits (fraction_of m)) (leb (length (fraction_of m)) 6) outer.0 in
    (inner.0, leb→le _ _ inner.1, (==_iff _ _).0 outer.1)

All-all_digits : (cs : Bytes) → All (λ c. is_digit c ≡ true) cs → all_digits cs ≡ true
unfolding all_digits
All-all_digits [] h = refl
All-all_digits (c ∷ cs) h = rw (h.0, All-all_digits cs h.1)

digits-not_point : (cs : Bytes) → All (λ c. is_digit c ≡ true) cs → All (λ c. not_point c ≡ true) cs
digits-not_point [] h = tt
digits-not_point (c ∷ cs) h = (ground arith, digits-not_point cs h.1)

-- A text of digits, with or without a point and decimals, is read as its two parts.
parse_mhz-with_fraction :
    (whole fraction : Bytes)
    → All (λ c. is_digit c ≡ true) whole
    → parse_mhz (with_fraction whole fraction) ≡ mhz_of whole fraction
unfolding parse_mhz with_fraction
parse_mhz-with_fraction whole [] h =
    let split = take_while-append not_point whole [] (digits-not_point whole h) refl in
    rw (split.0, split.1)
parse_mhz-with_fraction whole (c ∷ cs) h =
    let split = take_while-append not_point whole (b'.' ∷ c ∷ cs) (digits-not_point whole h) refl in
    rw (split.0, split.1)

mhz_of-some :
    (whole fraction : Bytes)
    → is_empty whole ≡ false
    → length whole ≤ 7
    → length fraction ≤ 6
    → all_digits whole ≡ true
    → all_digits fraction ≡ true
    → mhz_of whole fraction ≡ some (value_from 0 whole * mhz + fraction_from mhz 0 fraction)
unfolding mhz_of
mhz_of-some whole fraction full fits fraction_fits digits fraction_digits = ground arith

mhz_of-khz :
    (k : ℕ) → k < 10 ^ 7 → mhz_of (to_string (k / 1000)) (fraction_of (k % 1000)) ≡ some (k * 1000)
mhz_of-khz k h =
    let facts = fraction_facts (k % 1000) (omega arith) in
    mhz_of-some (to_string (k / 1000)) (fraction_of (k % 1000)) (to_string-ne-nil (k / 1000))
      (omega (arith, length-to_string 3 (k / 1000) (omega arith))) facts.1
      (All-all_digits (to_string (k / 1000)) (to_string-All (k / 1000))) facts.0
    ∙ ap some (omega (arith, value_from-to_string (k / 1000), facts.2))

-- The text that OffsetProblem advises to type for a number of kHz below ten million is read as
-- that many kHz.
pub parse_mhz-khz_as_mhz : (k : ℕ) → k < 10 ^ 7 → parse_mhz (khz_as_mhz k) ≡ some (k * 1000)
unfolding khz_as_mhz khz_fraction
parse_mhz-khz_as_mhz k h =
    parse_mhz-with_fraction (to_string (k / 1000)) (khz_fraction k) (to_string-All (k / 1000))
    ∙ mhz_of-khz k h
