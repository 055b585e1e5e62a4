-- ===== src/Callsign.antt =====
-- src/callsign_rules.cpp: which US, Canadian and GMRS call signs are valid.
pub mod Shape
pub mod Base
pub mod Grammar
pub mod Services
use quick_logger.Prelude.{
  ℕ, ◌+◌, ◌≤◌, Bool, true, false, not, ◌&&◌, ◌||◌, List, [], ◌∷◌, ◌++◌, Option, none, some, ◌==◌,
  if◌then◌else◌, ltb, leb, within, is_upper, is_digit, Bytes, codes, equal, is_empty, length,
  get_or, split_on, take_while, drop_while,
}

pub record CallsignParts : Type 0 where
  pub letters : Bytes
  pub digits : Bytes
  pub suffix : Bytes

-- The three loops of `SplitCallsign`.
unfoldable pub parts_of : Bytes → CallsignParts
unfolding take_while drop_while
parts_of text =
    let after = drop_while is_upper text in
    record {
      letters = take_while is_upper text;
      digits = take_while is_digit after;
      suffix = take_while is_upper (drop_while is_digit after);
    }

-- What the loops leave unread.
unfoldable pub unread : Bytes → Bytes
unfolding drop_while
unread text = drop_while is_upper (drop_while is_digit (drop_while is_upper text))

-- `none` is `return false`.
unfoldable pub split_callsign : Bytes → Option CallsignParts
unfolding parts_of unread
split_callsign text =
    if is_empty (unread text)
      && not (is_empty (parts_of text).letters)
      && not (is_empty (parts_of text).digits)
    then some (parts_of text)
    else none

abbrev is_knw : ℕ → Bool
is_knw c = c == b'K' || c == b'N' || c == b'W'

unfoldable pub is_us_prefix : Bytes → Bool
is_us_prefix [] = false
is_us_prefix (a ∷ []) = is_knw a
is_us_prefix (a ∷ b ∷ []) = if a == b'A' then within b'A' b'L' b else is_knw a
is_us_prefix (a ∷ b ∷ c ∷ cs) = false

unfoldable pub is_us_callsign : CallsignParts → Bool
is_us_callsign parts =
    if not (length parts.digits == 1) || not (is_us_prefix parts.letters)
    then false
    else (let suffix_length = length parts.suffix in
        if suffix_length == 1
        then length parts.letters == 2 || not (get_or parts.suffix 0 0 == b'X')
        else suffix_length == 2 || suffix_length == 3)

-- `kCanadianPrefixes`: a prefix and the district digits that it is used with.
abbrev pub canadian_prefixes : List (Bytes × Bytes)
canadian_prefixes =
    (codes "VE", codes "0123456789")
    ∷ (codes "VA", codes "1234567")
    ∷ (codes "VO", codes "12")
    ∷ (codes "VY", codes "0129")
    ∷ (codes "CY", codes "0129")
    ∷ (codes "CG", codes "123456789")
    ∷ (codes "CK", codes "123456789")
    ∷ (codes "VX", codes "123456789")
    ∷ (codes "XM", codes "123456789")
    ∷ (codes "VC", codes "123456789")
    ∷ (codes "CH", codes "12")
    ∷ (codes "XJ", codes "12")
    ∷ (codes "XN", codes "12")
    ∷ (codes "VD", codes "12")
    ∷ (codes "CI", codes "012")
    ∷ (codes "CZ", codes "012")
    ∷ (codes "XK", codes "012")
    ∷ (codes "XO", codes "012")
    ∷ (codes "VF", codes "012")
    ∷ []

unfoldable pub has_byte : Bytes → ℕ → Bool
has_byte [] c = false
has_byte (d ∷ ds) c = d == c || has_byte ds c

-- The first prefix that matches decides.
unfoldable pub prefix_in : List (Bytes × Bytes) → Bytes → ℕ → Bool
unfolding equal has_byte
prefix_in [] letters digit = false
prefix_in ((prefix, districts) ∷ rest) letters digit =
    let later = prefix_in rest letters digit in
    if equal letters prefix then has_byte districts digit else later

unfoldable pub is_canadian_prefix : Bytes → ℕ → Bool
unfolding prefix_in
is_canadian_prefix = prefix_in canadian_prefixes

unfoldable pub is_canadian_callsign : CallsignParts → Bool
is_canadian_callsign parts =
    if ltb 4 (length parts.digits)
      || not (is_canadian_prefix parts.letters (get_or parts.digits 0 0))
    then false
    else not (is_empty parts.suffix) && leb (length parts.suffix) 5

unfoldable pub base_parts : Option CallsignParts → Bool
base_parts none = false
base_parts (some parts) = is_us_callsign parts || is_canadian_callsign parts

unfoldable pub is_base_callsign : Bytes → Bool
is_base_callsign text = base_parts (split_callsign text)

unfoldable pub location_parts : Option CallsignParts → Bool
location_parts none = false
location_parts (some parts) =
    if not (length parts.digits == 1) || not (is_empty parts.suffix)
    then false
    else is_us_prefix parts.letters || is_canadian_prefix parts.letters (get_or parts.digits 0 0)

unfoldable pub is_location_prefix : Bytes → Bool
unfolding location_parts split_callsign
is_location_prefix text = location_parts (split_callsign text)

unfoldable pub all_upper : Bytes → Bool
all_upper [] = true
all_upper (c ∷ cs) = is_upper c && all_upper cs

unfoldable pub is_trailing_indicator : Bytes → Bool
unfolding all_upper is_location_prefix
is_trailing_indicator text =
    if length text == 1 && is_digit (get_or text 0 0)
    then true
    else if not (is_empty text) && leb (length text) 3 && all_upper text
    then true
    else is_location_prefix text

-- The pieces between slashes; the loop gives up at a fourth.
unfoldable pub valid_pieces : List Bytes → Bool
valid_pieces [] = false
valid_pieces (a ∷ []) = is_base_callsign a
valid_pieces (a ∷ b ∷ []) =
    (is_base_callsign a && is_trailing_indicator b) || (is_location_prefix a && is_base_callsign b)
valid_pieces (a ∷ b ∷ c ∷ []) =
    is_location_prefix a && is_base_callsign b && is_trailing_indicator c
valid_pieces (a ∷ b ∷ c ∷ d ∷ rest) = false

unfoldable pub is_valid_callsign : Bytes → Bool
unfolding valid_pieces split_on
is_valid_callsign callsign = valid_pieces (split_on b'/' callsign)

-- The text between the first and the last slash: `piece`, and all that follows but the last piece.
unfoldable pub join_middle : Bytes → List Bytes → Bytes
join_middle piece [] = []
join_middle piece (last ∷ []) = piece
join_middle piece (next ∷ more ∷ rest) = piece ++ b'/' ∷ join_middle next (more ∷ rest)

unfoldable pub base_of : Bytes → List Bytes → Bytes
unfolding join_middle
base_of callsign [] = callsign
base_of callsign (a ∷ []) = callsign
base_of callsign (before ∷ after ∷ []) =
    if is_base_callsign before && is_trailing_indicator after
    then before
    else if is_location_prefix before && is_base_callsign after
    then after
    else callsign
base_of callsign (a ∷ b ∷ c ∷ rest) = join_middle b (c ∷ rest)

unfoldable pub base_callsign : Bytes → Bytes
unfolding base_of split_on
base_callsign callsign = base_of callsign (split_on b'/' callsign)

unfoldable pub all_digits : Bytes → Bool
all_digits [] = true
all_digits (c ∷ cs) = is_digit c && all_digits cs

unfoldable pub is_valid_gmrs_callsign : Bytes → Bool
unfolding take_while drop_while all_digits
is_valid_gmrs_callsign callsign =
    let letters = length (take_while is_upper callsign) in
    if not (length callsign == 7)
      || (not (get_or callsign 0 0 == b'K') && not (get_or callsign 0 0 == b'W'))
    then false
    else if not (letters == 3) && not (letters == 4)
    then false
    else all_digits (drop_while is_upper callsign)
