-- ===== src/Callsign/Base.antt =====
-- The base of a valid call sign.
use mathlib.Core.Path.{subst}
use mathlib.Core.Bool.{false≢true}
use quick_logger.Prelude.{
  ◌≡◌, sym, inl, inr, true, false, ◌&&◌, List, [], ◌∷◌, ◌++◌, some, and-true, arith, ◌==◌,
  Option-cases, Bytes, All, All-append, split_on, split_on_free, join_on, join_on-split_on,
}
use quick_logger.Callsign.{
  CallsignParts, split_callsign, base_parts, is_base_callsign, is_location_prefix,
  is_trailing_indicator, valid_pieces, is_valid_callsign, join_middle, base_of, base_callsign,
}
use quick_logger.Callsign.Shape.{IsLetters, IsDigits, IsShape, split_callsign_iff}

abbrev pub NoSlash : Bytes → Type 0
NoSlash = All (λ c. (c == b'/') ≡ false)

pub letters-NoSlash : (cs : Bytes) → IsLetters cs → NoSlash cs
letters-NoSlash [] h = tt
letters-NoSlash (c ∷ cs) h = (ground arith, letters-NoSlash cs h.1)

pub digits-NoSlash : (cs : Bytes) → IsDigits cs → NoSlash cs
digits-NoSlash [] h = tt
digits-NoSlash (c ∷ cs) h = (ground arith, digits-NoSlash cs h.1)

pub IsShape-NoSlash : (text : Bytes) (parts : CallsignParts) → IsShape text parts → NoSlash text
IsShape-NoSlash text parts h = subst NoSlash (sym h.joined) (
    All-append _ parts.letters (parts.digits ++ parts.suffix)
      (letters-NoSlash parts.letters h.letters_class)
      (All-append _ parts.digits parts.suffix (digits-NoSlash parts.digits h.digits_class)
        (letters-NoSlash parts.suffix h.suffix_class)))

pub is_base_callsign-parts :
    (text : Bytes)
    → is_base_callsign text ≡ true
    → (parts : CallsignParts) × IsShape text parts × (base_parts (some parts) ≡ true)
unfolding is_base_callsign base_parts
is_base_callsign-parts text h = elim (Option-cases (split_callsign text)) [
  | inl e ↦ absurd (ground (arith, rw e at h))
  | inr (parts, e) ↦ (parts, (split_callsign_iff text parts).0 e, rw e at h)
]

pub is_base_callsign-NoSlash : (text : Bytes) → is_base_callsign text ≡ true → NoSlash text
is_base_callsign-NoSlash text h =
    let (parts, shape, ok) = is_base_callsign-parts text h in IsShape-NoSlash text parts shape

-- Without a slash a text is its own base.
base_callsign_free : (text : Bytes) → NoSlash text → base_callsign text ≡ text
unfolding base_callsign
base_callsign_free text h = rw (split_on_free b'/' text h)

base_of_valid :
    (callsign : Bytes) (pieces : List Bytes)
    → join_on b'/' pieces ≡ callsign
    → valid_pieces pieces ≡ true
    → is_base_callsign (base_of callsign pieces) ≡ true
unfolding valid_pieces base_of join_middle join_on
base_of_valid callsign [] j h = cc
base_of_valid callsign (a ∷ []) j h = subst (λ t. is_base_callsign t ≡ true) j h
base_of_valid callsign (a ∷ b ∷ []) j h = ground arith
base_of_valid callsign (a ∷ b ∷ c ∷ []) j h =
    let both = and-true (is_location_prefix a && is_base_callsign b) (is_trailing_indicator c) h in
    (and-true (is_location_prefix a) (is_base_callsign b) both.0).1
base_of_valid callsign (a ∷ b ∷ c ∷ d ∷ rest) j h = absurd (false≢true h)

-- The base of a valid call sign is a call sign with no prefix or indicator, is valid, and is its
-- own base.
pub base_callsign_valid :
    (callsign : Bytes)
    → is_valid_callsign callsign ≡ true
    → let base = base_callsign callsign in
      (is_base_callsign base ≡ true) × (is_valid_callsign base ≡ true) × (base_callsign base ≡ base)
unfolding is_valid_callsign
base_callsign_valid callsign h =
    let base : is_base_callsign (base_callsign callsign) ≡ true =
      unfold base_callsign in
      base_of_valid callsign (split_on b'/' callsign) (join_on-split_on b'/' callsign) h in
    let plain = is_base_callsign-NoSlash (base_callsign callsign) base in
    (
      base,
      rw (split_on_free b'/' (base_callsign callsign) plain) base,
      base_callsign_free (base_callsign callsign) plain,
    )
