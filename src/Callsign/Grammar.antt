-- ===== src/Callsign/Grammar.antt =====
-- The call signs that `IsValidCallsign` accepts, as a grammar.
use mathlib.Core.Path.{subst}
use mathlib.Core.Bool.{false≢true}
use quick_logger.Prelude.{
  ◌≡◌, ◌↔◌, ◌∙◌, refl, ap, inl, inr, Bool, true, false, not, ◌&&◌, ◌||◌, List, [], ◌∷◌, ◌++◌,
  and-true, arith, ◌==◌, leb, get_or, length, is_empty, is_digit, is_upper, Bool-cases,
  Option-cases, Bytes, split_on, split_on_free, push_char, join_on, join_on-split_on,
}
use quick_logger.Callsign.{
  split_callsign, is_base_callsign, is_location_prefix, location_parts, is_trailing_indicator,
  valid_pieces, is_valid_callsign, all_upper,
}
use quick_logger.Callsign.Shape.{split_callsign_iff}
use quick_logger.Callsign.Base.{NoSlash, IsShape-NoSlash, is_base_callsign-NoSlash}

-- [prefix/]call[/indicator].
pub data IsCall : Bytes → Type 0 where
  alone : (call : Bytes) → is_base_callsign call ≡ true → IsCall call
  with_indicator :
      (call indicator : Bytes)
      → is_base_callsign call ≡ true
      → is_trailing_indicator indicator ≡ true
      → IsCall (call ++ b'/' ∷ indicator)
  with_prefix :
      (prefix call : Bytes)
      → is_location_prefix prefix ≡ true
      → is_base_callsign call ≡ true
      → IsCall (prefix ++ b'/' ∷ call)
  with_both :
      (prefix call indicator : Bytes)
      → is_location_prefix prefix ≡ true
      → is_base_callsign call ≡ true
      → is_trailing_indicator indicator ≡ true
      → IsCall (prefix ++ b'/' ∷ (call ++ b'/' ∷ indicator))

is_location_prefix-NoSlash : (text : Bytes) → is_location_prefix text ≡ true → NoSlash text
unfolding is_location_prefix location_parts
is_location_prefix-NoSlash text h = elim (Option-cases (split_callsign text)) [
  | inl e ↦ absurd (false≢true (rw e at h))
  | inr (parts, e) ↦ IsShape-NoSlash text parts ((split_callsign_iff text parts).0 e)
]

all_upper-NoSlash : (text : Bytes) → all_upper text ≡ true → NoSlash text
unfolding all_upper
all_upper-NoSlash [] h = tt
all_upper-NoSlash (c ∷ cs) h =
    let both = and-true (is_upper c) (all_upper cs) h in
    (ground (arith, both.0), all_upper-NoSlash cs both.1)

one_digit-NoSlash :
    (text : Bytes) → (length text == 1 && is_digit (get_or text 0 0)) ≡ true → NoSlash text
one_digit-NoSlash [] h = tt
one_digit-NoSlash (c ∷ []) h = (ground arith, tt)
one_digit-NoSlash (c ∷ d ∷ cs) h = absurd (ground arith)

is_trailing_indicator-NoSlash : (text : Bytes) → is_trailing_indicator text ≡ true → NoSlash text
unfolding is_trailing_indicator
is_trailing_indicator-NoSlash text h =
    elim (Bool-cases (length text == 1 && is_digit (get_or text 0 0))) [
      | inl digit ↦ one_digit-NoSlash text digit
      | inr more ↦
          elim (Bool-cases (not (is_empty text) && leb (length text) 3 && all_upper text)) [
            | inl letters ↦
                all_upper-NoSlash text
                  (and-true (not (is_empty text) && leb (length text) 3) (all_upper text) letters).1
            | inr other ↦ is_location_prefix-NoSlash text (rw (more, other) at h)
          ]
    ]

-- The piece before the first slash.
split_on-first :
    (piece rest : Bytes)
    → NoSlash piece
    → split_on b'/' (piece ++ b'/' ∷ rest) ≡ piece ∷ split_on b'/' rest
unfolding split_on push_char
split_on-first [] rest h = refl
split_on-first (c ∷ piece) rest h = rw (h.0, split_on-first piece rest h.1)

two_pieces : (a b : Bytes) → NoSlash a → NoSlash b → split_on b'/' (a ++ b'/' ∷ b) ≡ a ∷ b ∷ []
two_pieces a b ha hb = split_on-first a b ha ∙ ap (λ t. a ∷ t) (split_on_free b'/' b hb)

valid_pieces-IsCall :
    (pieces : List Bytes) → valid_pieces pieces ≡ true → IsCall (join_on b'/' pieces)
unfolding valid_pieces join_on
valid_pieces-IsCall [] h = absurd (false≢true h)
valid_pieces-IsCall (a ∷ []) h = alone a h
valid_pieces-IsCall (a ∷ b ∷ []) h =
    elim (Bool-cases (is_base_callsign a && is_trailing_indicator b)) [
      | inl first ↦
          let both = and-true (is_base_callsign a) (is_trailing_indicator b) first in
          with_indicator a b both.0 both.1
      | inr other ↦
          let both = and-true (is_location_prefix a) (is_base_callsign b) (rw other at h) in
          with_prefix a b both.0 both.1
    ]
valid_pieces-IsCall (a ∷ b ∷ c ∷ []) h =
    let outer = and-true (is_location_prefix a && is_base_callsign b) (is_trailing_indicator c) h in
    let both = and-true (is_location_prefix a) (is_base_callsign b) outer.0 in
    with_both a b c both.0 both.1 outer.1
valid_pieces-IsCall (a ∷ b ∷ c ∷ d ∷ rest) h = absurd (false≢true h)

IsCall-valid_pieces : (text : Bytes) → IsCall text → valid_pieces (split_on b'/' text) ≡ true
unfolding valid_pieces
IsCall-valid_pieces text (alone call h) =
    rw (split_on_free b'/' call (is_base_callsign-NoSlash call h)) h
IsCall-valid_pieces text (with_indicator call indicator h i) = rw (
  two_pieces call indicator (is_base_callsign-NoSlash call h)
      (is_trailing_indicator-NoSlash indicator i),
  h,
  i,
)
IsCall-valid_pieces text (with_prefix prefix call p h) =
    rw
      (
        two_pieces prefix call (is_location_prefix-NoSlash prefix p)
            (is_base_callsign-NoSlash call h),
        p,
        h,
      )
      (or_true (is_base_callsign prefix && is_trailing_indicator call))
  where
    or_true : (a : Bool) → (a || true) ≡ true
    or_true true = refl
    or_true false = refl
IsCall-valid_pieces text (with_both prefix call indicator p h i) = rw (
  split_on-first prefix (call ++ b'/' ∷ indicator) (is_location_prefix-NoSlash prefix p),
  two_pieces call indicator (is_base_callsign-NoSlash call h)
      (is_trailing_indicator-NoSlash indicator i),
  p,
  h,
  i,
)

-- IsValidCallsign accepts exactly the texts that are a call sign, or one with a location prefix
-- and a slash before it, a slash and a trailing indicator behind it, or both.
pub is_valid_callsign-IsCall :
    (callsign : Bytes) → (is_valid_callsign callsign ≡ true) ↔ IsCall callsign
unfolding is_valid_callsign
is_valid_callsign-IsCall callsign = (
  λ h.
      subst IsCall (join_on-split_on b'/' callsign)
        (valid_pieces-IsCall (split_on b'/' callsign) h),
  IsCall-valid_pieces callsign,
)
