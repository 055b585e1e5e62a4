-- ===== src/Callsign/Services.antt =====
-- GMRS and amateur call signs beside each other.
use quick_logger.Prelude.{
  ℕ, ◌≤◌, ◌≡◌, refl, ap, inl, inr, true, false, List, [], ◌∷◌, none, some, and-true, arith,
  Bool-cases, is_upper, is_digit, Bytes, equal, equal_iff, All, All-append, length, get_or,
  split_on_free, take_while, drop_while, take_while-All, take_while-drop_while,
}
use mathlib.Core.Path.{subst}
use quick_logger.Callsign.{
  CallsignParts, parts_of, split_callsign, is_us_prefix, is_us_callsign, prefix_in,
  canadian_prefixes, is_canadian_prefix, is_canadian_callsign, base_parts, is_base_callsign,
  valid_pieces, is_valid_callsign, all_digits, is_valid_gmrs_callsign,
}
use quick_logger.Callsign.Shape.{IsDigits}
use quick_logger.Callsign.Base.{NoSlash, letters-NoSlash, digits-NoSlash}

is_us_prefix_long : (letters : Bytes) → 3 ≤ length letters → is_us_prefix letters ≡ false
unfolding is_us_prefix
is_us_prefix_long [] h = absurd (omega arith)
is_us_prefix_long (a ∷ []) h = absurd (omega arith)
is_us_prefix_long (a ∷ b ∷ []) h = absurd (omega arith)
is_us_prefix_long (a ∷ b ∷ c ∷ cs) h = refl

equal-length : (a b : Bytes) → equal a b ≡ true → length a ≡ length b
equal-length a b h = ap length ((equal_iff a b).0 h)

prefix_in_long :
    (table : List (Bytes × Bytes)) (letters : Bytes) (digit : ℕ)
    → All (λ (e : Bytes × Bytes). length e.0 ≡ 2) table
    → 3 ≤ length letters
    → prefix_in table letters digit ≡ false
unfolding prefix_in
prefix_in_long [] letters digit h l = refl
prefix_in_long ((p, ds) ∷ rest) letters digit h l = elim (Bool-cases (equal letters p)) [
  | inl same ↦ absurd (omega (arith, equal-length letters p same, h.0))
  | inr other ↦ rw other (prefix_in_long rest letters digit h.1 l)
]

is_canadian_prefix_long :
    (letters : Bytes) (digit : ℕ) → 3 ≤ length letters → is_canadian_prefix letters digit ≡ false
unfolding is_canadian_prefix
is_canadian_prefix_long letters digit l =
    prefix_in_long canadian_prefixes letters digit (omega arith) l

-- No amateur prefix has three letters.
long_parts : (parts : CallsignParts) → 3 ≤ length parts.letters → base_parts (some parts) ≡ false
unfolding base_parts is_us_callsign is_canadian_callsign
long_parts parts l = ground (
  arith,
  is_us_prefix_long parts.letters l,
  is_canadian_prefix_long parts.letters (get_or parts.digits 0 0) l,
)

long_letters :
    (text : Bytes) → 3 ≤ length (take_while is_upper text) → is_base_callsign text ≡ false
unfolding is_base_callsign split_callsign parts_of
long_letters text l = ground (arith, long_parts (parts_of text) l, base_parts_none)
  where
    base_parts_none : base_parts none ≡ false
    base_parts_none = unfold base_parts in refl

all_digits-IsDigits : (cs : Bytes) → all_digits cs ≡ true → IsDigits cs
unfolding all_digits
all_digits-IsDigits [] h = tt
all_digits-IsDigits (c ∷ cs) h =
    let both = and-true (is_digit c) (all_digits cs) h in (both.0, all_digits-IsDigits cs both.1)

gmrs_tests :
    (callsign : Bytes)
    → is_valid_gmrs_callsign callsign ≡ true
    → (3 ≤ length (take_while is_upper callsign))
      × (all_digits (drop_while is_upper callsign) ≡ true)
unfolding is_valid_gmrs_callsign
gmrs_tests callsign h = ground arith

gmrs-NoSlash : (callsign : Bytes) → is_valid_gmrs_callsign callsign ≡ true → NoSlash callsign
gmrs-NoSlash callsign h = subst NoSlash (take_while-drop_while is_upper callsign) (
    All-append _ (take_while is_upper callsign) (drop_while is_upper callsign)
      (letters-NoSlash _ (take_while-All is_upper callsign))
      (digits-NoSlash _ (all_digits-IsDigits _ (gmrs_tests callsign h).1)))

-- A valid GMRS call sign is not a valid amateur one.
pub is_valid_gmrs_callsign-amateur :
    (callsign : Bytes) → is_valid_gmrs_callsign callsign ≡ true → is_valid_callsign callsign ≡ false
unfolding is_valid_callsign valid_pieces
is_valid_gmrs_callsign-amateur callsign h =
    rw (split_on_free b'/' callsign (gmrs-NoSlash callsign h))
      (long_letters callsign (gmrs_tests callsign h).0)
