-- ===== src/Zmodem/FileInfo/Numbers.antt =====
-- The numbers of a file's information, written and read back.
use quick_logger.Prelude.{
  ℕ, zero, suc, ◌+◌, ◌-◌, ◌*◌, ◌/◌, ◌%◌, ◌^◌, ◌≤◌, ◌<◌, Bool, true, false, [], ◌∷◌, ◌++◌, some, ◌≡◌,
  refl, ◌∙◌, inl, inr, ◌==◌, ltb, arith, Bytes, is_digit, is_space, is_empty, All, All-append,
  Bool-cases,
}
use quick_logger.Prelude.Decimal.{value_from, to_string, to_string-All}
use quick_logger.Zmodem.FileInfo.{
  octal_digits, skip_blanks, is_digit_of, digits_value, unsigned_at, unsigned_of, scan_unsigned,
}

abbrev pub IsDigits : ℕ → Bytes → Type 0
IsDigits base ds = All (λ c. is_digit_of base c ≡ true) ds

-- `value = value * base + (c - '0')` for each byte.
unfoldable pub value_in : ℕ → ℕ → Bytes → ℕ
value_in base acc [] = acc
value_in base acc (c ∷ cs) = value_in base (acc * base + (c - 48)) cs

pub value_in-ten : (acc : ℕ) (ds : Bytes) → value_in 10 acc ds ≡ value_from acc ds
unfolding value_in value_from
value_in-ten acc [] = refl
value_in-ten acc (c ∷ cs) = value_in-ten (acc * 10 + (c - 48)) cs

value_in-append :
    (base acc : ℕ) (xs ys : Bytes)
    → value_in base acc (xs ++ ys) ≡ value_in base (value_in base acc xs) ys
unfolding value_in
value_in-append base acc [] ys = refl
value_in-append base acc (x ∷ xs) ys = value_in-append base (acc * base + (x - 48)) xs ys

pub value_in-octal_digits : (f n : ℕ) → n < f → value_in 8 0 (octal_digits f n) ≡ n
unfolding octal_digits
value_in-octal_digits zero n h = absurd (omega arith)
value_in-octal_digits (suc f) n h = elim (Bool-cases (ltb n 8)) [
  | inl one ↦ rw one (unfold value_in in omega arith)
  | inr more ↦ rw more (
      value_in-append 8 0 (octal_digits f (n / 8)) ((48 + n % 8) ∷ [])
      ∙ rw (value_in-octal_digits f (n / 8) (ground arith)) (unfold value_in in omega arith))
]

pub octal_digits-IsDigits : (f n : ℕ) → IsDigits 8 (octal_digits f n)
unfolding octal_digits
octal_digits-IsDigits zero n = tt
octal_digits-IsDigits (suc f) n = elim (Bool-cases (ltb n 8)) [
  | inl one ↦ rw one (ground arith, tt)
  | inr more ↦ rw more (
      All-append _ (octal_digits f (n / 8)) ((48 + n % 8) ∷ []) (octal_digits-IsDigits f (n / 8))
        (ground arith, tt))
]

pub octal_digits-ne-nil : (f n : ℕ) → is_empty (octal_digits (suc f) n) ≡ false
unfolding octal_digits
octal_digits-ne-nil f n = elim (Bool-cases (ltb n 8)) [
  | inl one ↦ rw one
  | inr more ↦ rw more (append_last (octal_digits f (n / 8)) (48 + n % 8))
]
  where
    append_last : (xs : Bytes) (c : ℕ) → is_empty (xs ++ c ∷ []) ≡ false
    append_last [] c = refl
    append_last (x ∷ xs) c = refl

pub to_string-IsDigits : (n : ℕ) → IsDigits 10 (to_string n)
to_string-IsDigits n = widen (to_string n) (to_string-All n)
  where
    widen : (ds : Bytes) → All (λ c. is_digit c ≡ true) ds → IsDigits 10 ds
    widen [] h = tt
    widen (d ∷ ds) h = (ground arith, widen ds h.1)

module _ (base c : ℕ) (rest : Bytes) (stop : is_digit_of base c ≡ false) where
  digits_value-append :
      (acc : ℕ) (ds : Bytes)
      → IsDigits base ds
      → digits_value base acc (ds ++ c ∷ rest) ≡ (value_in base acc ds, c ∷ rest)
  unfolding digits_value value_in
  digits_value-append acc [] h = rw stop
  digits_value-append acc (d ∷ ds) h = rw h.0 (digits_value-append (acc * base + (d - 48)) ds h.1)

  -- A number in digits, with or without a blank before it.
  pub scan_unsigned-digits :
      (ds : Bytes)
      → is_empty ds ≡ false
      → base ≤ 10
      → IsDigits base ds
      → value_in base 0 ds < 2 ^ 64
      → scan_unsigned base (ds ++ c ∷ rest) ≡ some (value_in base 0 ds, c ∷ rest)
  unfolding scan_unsigned skip_blanks unsigned_of unsigned_at
  scan_unsigned-digits [] e small h fits = cc
  scan_unsigned-digits (d ∷ ds) e small h fits = rw (
    plain is_space (ground arith),
    plain (λ x. x == b'-') (ground arith),
    plain (λ x. x == b'+') (ground arith),
    digits_value-append 0 (d ∷ ds) h,
    h.0,
    below,
  )
    where
      plain : (p : ℕ → Bool) → p d ≡ false → p d ≡ false
      plain p h = h

      below : ltb (value_in base 0 (d ∷ ds)) (2 ^ 64) ≡ true
      below = ground arith
