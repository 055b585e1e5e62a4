-- ===== src/Text/Postal.antt =====
-- src/text_utils.cpp: ZIP codes and Canadian postal codes.
use quick_logger.Prelude.{
  ℕ, zero, suc, ◌≡◌, ◌∙◌, refl, sym, ap, inl, inr, Bool, true, false, not, ◌&&◌, ◌||◌, [], ◌∷◌,
  ◌++◌, map, arith, ◌==◌, if◌then◌else◌, Bool-cases, Bytes, codes, is_digit, is_alpha, to_upper,
  length, take, drop, All,
}
use quick_logger.Frequency.{all_digits}
use quick_logger.Text.{to_upper_ascii}

unfoldable pub is_five_digit_zip : Bytes → Bool
is_five_digit_zip value = length value == 5 && all_digits value

unfoldable pub without_spaces : Bytes → Bytes
without_spaces [] = []
without_spaces (c ∷ cs) = if not (c == b' ') then c ∷ without_spaces cs else without_spaces cs

-- The loop over `code[i]`: a letter where `i` is even, a digit where it is odd.
unfoldable pub alternates : Bool → Bytes → Bool
alternates even [] = true
alternates true (c ∷ cs) = is_alpha c && alternates false cs
alternates false (c ∷ cs) = is_digit c && alternates true cs

unfoldable pub is_code : Bytes → Bool
is_code code =
    if not (length code == 3) && not (length code == 6) then false else alternates true code

unfoldable pub is_canadian_postal_code : Bytes → Bool
is_canadian_postal_code value = is_code (without_spaces value)

unfoldable pub is_zip_or_postal_code : Bytes → Bool
is_zip_or_postal_code value = is_five_digit_zip value || is_canadian_postal_code value

unfoldable pub with_space : Bytes → Bytes
with_space code = if length code == 6 then take 3 code ++ (codes " " ++ drop 3 code) else code

unfoldable pub normalize_zip_or_postal_code : Bytes → Bytes
normalize_zip_or_postal_code value =
    if not (is_canadian_postal_code value)
    then value
    else with_space (to_upper_ascii (without_spaces value))

alternates-to_upper :
    (even : Bool) (cs : Bytes) → alternates even (map to_upper cs) ≡ alternates even cs
unfolding alternates
alternates-to_upper even [] = refl
alternates-to_upper true (c ∷ cs) =
    let same : is_alpha (to_upper c) ≡ is_alpha c = unfold to_upper in ground arith in
    rw (same, alternates-to_upper false cs)
alternates-to_upper false (c ∷ cs) =
    let same : is_digit (to_upper c) ≡ is_digit c = unfold to_upper in ground arith in
    rw (same, alternates-to_upper true cs)

length-to_upper : (cs : Bytes) → length (map to_upper cs) ≡ length cs
length-to_upper [] = refl
length-to_upper (c ∷ cs) = ap suc (length-to_upper cs)

is_code-to_upper_ascii : (cs : Bytes) → is_code (to_upper_ascii cs) ≡ is_code cs
unfolding is_code to_upper_ascii
is_code-to_upper_ascii cs = rw (length-to_upper cs, alternates-to_upper true cs)

map-to_upper_idem : (cs : Bytes) → map to_upper (map to_upper cs) ≡ map to_upper cs
map-to_upper_idem [] = refl
map-to_upper_idem (c ∷ cs) =
    let same : to_upper (to_upper c) ≡ to_upper c = unfold to_upper in ground arith in
    rw (same, map-to_upper_idem cs)

abbrev NoSpace : Bytes → Type 0
NoSpace cs = All (λ c. (c == b' ') ≡ false) cs

without_spaces-NoSpace : (cs : Bytes) → NoSpace (without_spaces cs)
unfolding without_spaces
without_spaces-NoSpace [] = tt
without_spaces-NoSpace (c ∷ cs) = elim (Bool-cases (c == b' ')) [
  | inl space ↦ rw space (without_spaces-NoSpace cs)
  | inr other ↦ rw other (other, without_spaces-NoSpace cs)
]

to_upper-NoSpace : (cs : Bytes) → NoSpace cs → NoSpace (map to_upper cs)
to_upper-NoSpace [] h = tt
to_upper-NoSpace (c ∷ cs) h = (unfold to_upper in ground arith, to_upper-NoSpace cs h.1)

without_spaces_id : (cs : Bytes) → NoSpace cs → without_spaces cs ≡ cs
unfolding without_spaces
without_spaces_id [] h = refl
without_spaces_id (c ∷ cs) h = rw (h.0, without_spaces_id cs h.1)

without_spaces-insert :
    (n : ℕ) (cs : Bytes) → NoSpace cs → without_spaces (take n cs ++ (b' ' ∷ drop n cs)) ≡ cs
unfolding without_spaces
without_spaces-insert zero cs h = without_spaces_id cs h
without_spaces-insert (suc n) [] h = refl
without_spaces-insert (suc n) (c ∷ cs) h = rw (h.0, without_spaces-insert n cs h.1)

without_spaces-with_space : (code : Bytes) → NoSpace code → without_spaces (with_space code) ≡ code
unfolding with_space
without_spaces-with_space code h = elim (Bool-cases (length code == 6)) [
  | inl six ↦ rw six (without_spaces-insert 3 code h)
  | inr three ↦ rw three (without_spaces_id code h)
]

-- The code of a value: the capital letters and digits of it.
code_of : Bytes → Bytes
code_of value = to_upper_ascii (without_spaces value)

code_of-NoSpace : (value : Bytes) → NoSpace (code_of value)
unfolding code_of to_upper_ascii
code_of-NoSpace value = to_upper-NoSpace (without_spaces value) (without_spaces-NoSpace value)

normalize-postal :
    (value : Bytes)
    → is_canadian_postal_code value ≡ true
    → normalize_zip_or_postal_code value ≡ with_space (code_of value)
unfolding normalize_zip_or_postal_code code_of
normalize-postal value h = rw h

normalize-other :
    (value : Bytes)
    → is_canadian_postal_code value ≡ false
    → normalize_zip_or_postal_code value ≡ value
unfolding normalize_zip_or_postal_code
normalize-other value h = rw h

with_space-postal :
    (value : Bytes)
    → is_canadian_postal_code (with_space (code_of value)) ≡ is_canadian_postal_code value
unfolding is_canadian_postal_code code_of
with_space-postal value =
    ap is_code (without_spaces-with_space (code_of value) (code_of-NoSpace value))
    ∙ is_code-to_upper_ascii (without_spaces value)

code_of-with_space : (value : Bytes) → code_of (with_space (code_of value)) ≡ code_of value
unfolding code_of to_upper_ascii
code_of-with_space value =
    ap (map to_upper) (without_spaces-with_space (code_of value) (code_of-NoSpace value))
    ∙ map-to_upper_idem (without_spaces value)

-- A text is a Canadian postal code after normalizing exactly if it was before.
pub is_canadian_postal_code-normalize :
    (value : Bytes)
    → is_canadian_postal_code (normalize_zip_or_postal_code value) ≡ is_canadian_postal_code value
is_canadian_postal_code-normalize value = elim (Bool-cases (is_canadian_postal_code value)) [
  | inl postal ↦
      ap is_canadian_postal_code (normalize-postal value postal) ∙ with_space-postal value
  | inr other ↦ ap is_canadian_postal_code (normalize-other value other)
]

-- Normalizing a ZIP or postal code twice gives what normalizing it once gives.
pub normalize_zip_or_postal_code_idem :
    (value : Bytes)
    → normalize_zip_or_postal_code (normalize_zip_or_postal_code value)
      ≡ normalize_zip_or_postal_code value
normalize_zip_or_postal_code_idem value = elim (Bool-cases (is_canadian_postal_code value)) [
  | inl postal ↦
      normalize-postal (normalize_zip_or_postal_code value)
        (is_canadian_postal_code-normalize value ∙ postal)
      ∙ ap with_space (ap code_of (normalize-postal value postal) ∙ code_of-with_space value)
      ∙ sym (normalize-postal value postal)
  | inr other ↦ ap normalize_zip_or_postal_code (normalize-other value other)
]
