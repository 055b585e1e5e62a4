-- ===== src/Text/ZipCode.antt =====
-- src/text_utils.cpp, `ExtractZipCode`: the code inside a longer text.
use quick_logger.Prelude.{
  ℕ, zero, suc, ◌≤◌, ◌≡◌, ◌⊎◌, ◌∙◌, refl, inl, inr, Bool, true, false, not, ◌&&◌, ◌||◌, [], ◌∷◌,
  ◌++◌, arith, ◌==◌, if◌then◌else◌, Bool-cases, leb, ltb, Bytes, is_digit, is_alpha, is_empty,
  length, take, drop, get_or, All, All-append, and-true,
}
use quick_logger.Frequency.{all_digits}
use quick_logger.Text.Postal.{
  is_five_digit_zip, without_spaces, is_code, is_canadian_postal_code, is_zip_or_postal_code,
  normalize_zip_or_postal_code, normalize_zip_or_postal_code_idem,
  is_canadian_postal_code-normalize,
}

-- At the end of a run of digits: the new `zip`.
unfoldable pub close_run : Bytes → Bytes → Bytes
close_run run zip = if length run == 5 || length run == 9 then take 5 run else zip

-- The two loops over the text; `run` is the run of digits that the inner one is in, and blank in
-- the outer one.
unfoldable pub last_zip : Bytes → Bytes → Bytes → Bytes
last_zip run zip [] = close_run run zip
last_zip run zip (c ∷ cs) =
    if is_digit c then last_zip (run ++ c ∷ []) zip cs else last_zip [] (close_run run zip) cs

-- `length` at a place of the text.
unfoldable pub code_length : Bytes → ℕ
code_length text = if leb 7 (length text) && get_or text 3 0 == b' ' then 7 else 6

-- Is the byte there, and a letter?
abbrev pub first_is_letter : Bytes → Bool
first_is_letter [] = false
first_is_letter (c ∷ cs) = is_alpha c

-- Does a code of `n` bytes stand here, with no letter before it (`before` is that byte) or behind it?
unfoldable pub code_stands : Bytes → ℕ → Bytes → Bool
code_stands before n text =
    leb n (length text)
    && is_canadian_postal_code (take n text)
    && length (without_spaces (take n text)) == 6
    && not (first_is_letter before)
    && not (first_is_letter (drop n text))

-- The loop for a postal code; `before` is blank at the start of the text.
unfoldable pub first_code : Bytes → Bytes → Bytes
first_code before [] = []
first_code before (c ∷ cs) =
    let later = first_code (c ∷ []) cs in
    if ltb (length (c ∷ cs)) 6
    then []
    else if code_stands before (code_length (c ∷ cs)) (c ∷ cs)
    then normalize_zip_or_postal_code (take (code_length (c ∷ cs)) (c ∷ cs))
    else later

unfoldable pub extract_zip_code : Bytes → Bytes
extract_zip_code text =
    if not (is_empty (last_zip [] [] text)) then last_zip [] [] text else first_code [] text

abbrev AreDigits : Bytes → Type 0
AreDigits cs = All (λ c. is_digit c ≡ true) cs

all_digits-take : (n : ℕ) (cs : Bytes) → AreDigits cs → all_digits (take n cs) ≡ true
unfolding all_digits
all_digits-take zero cs h = refl
all_digits-take (suc n) [] h = refl
all_digits-take (suc n) (c ∷ cs) h = rw (h.0, all_digits-take n cs h.1)

length-take : (n : ℕ) (cs : Bytes) → n ≤ length cs → length (take n cs) ≡ n
length-take zero cs h = refl
length-take (suc n) [] h = absurd (omega arith)
length-take (suc n) (c ∷ cs) h = omega (arith, length-take n cs (omega arith))

-- A result so far.
abbrev IsZip : Bytes → Type 0
IsZip zip = (zip ≡ []) ⊎ (is_five_digit_zip zip ≡ true)

close_run-IsZip : (run zip : Bytes) → AreDigits run → IsZip zip → IsZip (close_run run zip)
unfolding close_run
close_run-IsZip run zip digits h = elim (Bool-cases (length run == 5 || length run == 9)) [
  | inl whole ↦ rw whole (
      inr (
        unfold is_five_digit_zip in
        rw (length-take 5 run (ground arith), all_digits-take 5 run digits)))
  | inr other ↦ rw other h
]

last_zip-IsZip : (run zip text : Bytes) → AreDigits run → IsZip zip → IsZip (last_zip run zip text)
unfolding last_zip
last_zip-IsZip run zip [] digits h = close_run-IsZip run zip digits h
last_zip-IsZip run zip (c ∷ cs) digits h = elim (Bool-cases (is_digit c)) [
  | inl digit ↦
      rw digit
        (last_zip-IsZip (run ++ c ∷ []) zip cs (All-append _ run (c ∷ []) digits (digit, tt)) h)
  | inr other ↦
      rw other (last_zip-IsZip [] (close_run run zip) cs tt (close_run-IsZip run zip digits h))
]

-- What the search returns: nothing, or a code in its normal form.
abbrev pub IsNormal : Bytes → Type 0
IsNormal code =
    (code ≡ []) ⊎ ((is_zip_or_postal_code code ≡ true) × (normalize_zip_or_postal_code code ≡ code))

or_true : (a b : Bool) → b ≡ true → (a || b) ≡ true
or_true true b h = refl
or_true false b h = h

code_stands-postal :
    (before text : Bytes) (n : ℕ)
    → code_stands before n text ≡ true
    → is_canadian_postal_code (take n text) ≡ true
unfolding code_stands
code_stands-postal before text n h = ground arith

normalized-IsNormal :
    (code : Bytes)
    → is_canadian_postal_code code ≡ true
    → IsNormal (normalize_zip_or_postal_code code)
unfolding is_zip_or_postal_code
normalized-IsNormal code h = inr (
  or_true _ _ (is_canadian_postal_code-normalize code ∙ h),
  normalize_zip_or_postal_code_idem code,
)

first_code-IsNormal : (before text : Bytes) → IsNormal (first_code before text)
unfolding first_code
first_code-IsNormal before [] = inl refl
first_code-IsNormal before (c ∷ cs) = elim (Bool-cases (ltb (length (c ∷ cs)) 6)) [
  | inl short ↦ rw short (inl refl)
  | inr long ↦ elim (Bool-cases (code_stands before (code_length (c ∷ cs)) (c ∷ cs))) [
    | inl stands ↦
        rw (long, stands)
          (normalized-IsNormal _ (code_stands-postal before (c ∷ cs) (code_length (c ∷ cs)) stands))
    | inr other ↦ rw (long, other) (first_code-IsNormal (c ∷ []) cs)
  ]
]

without_spaces-digits : (cs : Bytes) → all_digits cs ≡ true → without_spaces cs ≡ cs
unfolding without_spaces all_digits
without_spaces-digits [] h = refl
without_spaces-digits (c ∷ cs) h =
    let both = and-true (is_digit c) (all_digits cs) h in
    let other : (c == b' ') ≡ false = ground (arith, both.0) in
    rw (other, without_spaces-digits cs both.1)

zip-not_postal : (zip : Bytes) → is_five_digit_zip zip ≡ true → is_canadian_postal_code zip ≡ false
unfolding is_canadian_postal_code is_five_digit_zip
zip-not_postal zip h =
    let both = and-true (length zip == 5) (all_digits zip) h in
    rw (without_spaces-digits zip both.1) (unfold is_code in ground arith)

zip-IsNormal : (zip : Bytes) → is_five_digit_zip zip ≡ true → IsNormal zip
unfolding is_zip_or_postal_code normalize_zip_or_postal_code
zip-IsNormal zip h = inr (rw h refl, rw (zip-not_postal zip h))

-- What is extracted from a text is blank, or is a ZIP or postal code that normalizing leaves as it
-- is.
pub extract_zip_code-IsNormal : (text : Bytes) → IsNormal (extract_zip_code text)
unfolding extract_zip_code
extract_zip_code-IsNormal text = elim (Bool-cases (is_empty (last_zip [] [] text))) [
  | inl blank ↦ rw blank (first_code-IsNormal [] text)
  | inr found ↦ rw found (elim (last_zip-IsZip [] [] text tt (inl refl)) [
    | inl none_found ↦ inl none_found
    | inr zip ↦ zip-IsNormal _ zip
  ])
]
