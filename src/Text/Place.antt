-- ===== src/Text/Place.antt =====
-- src/text_utils.cpp: accents folded and letters raised in the name of a place.
use mathlib.Core.Path.{subst}
use quick_logger.Prelude.{
  ℕ, ◌-◌, ◌≡◌, ◌⊎◌, sym, inl, inr, Bool, true, false, not, ◌&&◌, ◌||◌, [], ◌∷◌, arith, ◌==◌,
  if◌then◌else◌, Bool-cases, Bytes, is_lower, is_upper, to_upper, All, leb, within,
}

-- The cases of `UnaccentedLatin1Letter` on the byte with its case folded; 0 is no letter.
unfoldable pub letter_of : ℕ → ℕ
letter_of upper =
    if within 0x80 0x85 upper
    then b'A'
    else if upper == 0x87
    then b'C'
    else if within 0x88 0x8B upper
    then b'E'
    else if within 0x8C 0x8F upper
    then b'I'
    else if upper == 0x91
    then b'N'
    else if within 0x92 0x96 upper || upper == 0x98
    then b'O'
    else if within 0x99 0x9C upper
    then b'U'
    else if upper == 0x9D
    then b'Y'
    else 0

unfoldable pub unaccented_latin1_letter : ℕ → ℕ
unaccented_latin1_letter second_byte =
    letter_of (if leb 0xA0 second_byte then second_byte - 0x20 else second_byte)

-- Points are left out.
unfoldable pub after_plain : ℕ → Bytes → Bytes
after_plain c rest = if c == b'.' then rest else to_upper c ∷ rest

-- Behind a byte 0xC3 stands an accented letter, or that byte is as any other.
unfoldable pub is_accented : ℕ → ℕ → Bool
is_accented c d = c == 0xC3 && not (unaccented_latin1_letter d == 0)

unfoldable pub normalize_place_name : Bytes → Bytes
normalize_place_name [] = []
normalize_place_name (c ∷ []) = after_plain c []
normalize_place_name (c ∷ d ∷ cs) = elim (is_accented c d) [
  | true ↦ unaccented_latin1_letter d ∷ normalize_place_name cs
  | false ↦ after_plain c (normalize_place_name (d ∷ cs))
]

abbrev pub IsFolded : ℕ → Type 0
IsFolded c = (is_lower c ≡ false) × ((c == b'.') ≡ false)

abbrev AreFolded : Bytes → Type 0
AreFolded cs = All IsFolded cs

to_upper-IsFolded : (c : ℕ) → (c == b'.') ≡ false → IsFolded (to_upper c)
unfolding to_upper
to_upper-IsFolded c h = (ground arith, ground arith)

letter_of-IsFolded : (upper : ℕ) → (letter_of upper ≡ 0) ⊎ (is_upper (letter_of upper) ≡ true)
unfolding letter_of
letter_of-IsFolded upper = ground arith

after_plain-AreFolded : (c : ℕ) (rest : Bytes) → AreFolded rest → AreFolded (after_plain c rest)
unfolding after_plain
after_plain-AreFolded c rest h = elim (Bool-cases (c == b'.')) [
  | inl point ↦ rw point h
  | inr other ↦ rw other (to_upper-IsFolded c other, h)
]

letter-IsFolded : (c : ℕ) → is_upper c ≡ true → IsFolded c
letter-IsFolded c h = (ground arith, ground arith)

accented-IsFolded : (c d : ℕ) → is_accented c d ≡ true → IsFolded (unaccented_latin1_letter d)
unfolding is_accented unaccented_latin1_letter
accented-IsFolded c d h = elim (letter_of-IsFolded (if leb 0xA0 d then d - 0x20 else d)) [
  | inl zero_letter ↦ absurd (ground (arith, zero_letter))
  | inr letter ↦ letter-IsFolded _ letter
]

normalize_place_name-accented :
    (c d : ℕ) (cs : Bytes)
    → is_accented c d ≡ true
    → normalize_place_name (c ∷ d ∷ cs) ≡ unaccented_latin1_letter d ∷ normalize_place_name cs
unfolding normalize_place_name
normalize_place_name-accented c d cs h = cc

normalize_place_name-plain :
    (c d : ℕ) (cs : Bytes)
    → is_accented c d ≡ false
    → normalize_place_name (c ∷ d ∷ cs) ≡ after_plain c (normalize_place_name (d ∷ cs))
unfolding normalize_place_name
normalize_place_name-plain c d cs h = cc

-- A normalized place name has no small ASCII letter and no point.
pub normalize_place_name-IsFolded : (value : Bytes) → All IsFolded (normalize_place_name value)
normalize_place_name-IsFolded [] = unfold normalize_place_name in tt
normalize_place_name-IsFolded (c ∷ []) =
    unfold normalize_place_name in after_plain-AreFolded c [] tt
normalize_place_name-IsFolded (c ∷ d ∷ cs) = elim (Bool-cases (is_accented c d)) [
  | inl accented ↦
      subst AreFolded (sym (normalize_place_name-accented c d cs accented))
        (accented-IsFolded c d accented, normalize_place_name-IsFolded cs)
  | inr plain ↦ subst AreFolded (sym (normalize_place_name-plain c d cs plain)) (
      after_plain-AreFolded c (normalize_place_name (d ∷ cs))
        (normalize_place_name-IsFolded (d ∷ cs)))
]
