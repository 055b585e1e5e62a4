-- ===== src/Prelude/Decimal.antt =====
-- `std::to_string` of a number that is not negative, and the loops that read digits back.
use Prim.Native.Nat.{ℕ, zero, suc, ◌+◌, ◌-◌, ◌*◌, ◌/◌, ◌%◌, ◌^◌, ◌≤◌, ◌<◌}
use mathlib.Core.Path.{◌≡◌, refl, ◌∙◌}
use mathlib.Core.Logic.{inl, inr}
use mathlib.Core.Bool.{true, false}
use mathlib.Core.List.{[], ◌∷◌, ◌++◌}
use native.Mathlib.Omega.{arith}
use native.Mathlib.Nat.{pow-suc}
use quick_logger.Prelude.Tests.{ltb, if◌then◌else◌, Bool-cases}
use quick_logger.Prelude.Lists.{All, All-append, length, length-append, is_empty}
use quick_logger.Prelude.Ascii.{Bytes, is_digit}

-- The last digit is `n % 10`. The fuel is above the number, which falls at each step.
unfoldable pub digits_of : ℕ → ℕ → Bytes
digits_of zero n = []
digits_of (suc fuel) n =
    let front = digits_of fuel (n / 10) in
    if ltb n 10 then (48 + n) ∷ [] else front ++ (48 + n % 10) ∷ []

unfoldable pub to_string : ℕ → Bytes
unfolding digits_of
to_string n = digits_of (suc n) n

-- `value = value * 10 + (c - '0')` for each byte.
unfoldable pub value_from : ℕ → Bytes → ℕ
value_from acc [] = acc
value_from acc (c ∷ cs) = value_from (acc * 10 + (c - 48)) cs

pub value_from-append :
    (acc : ℕ) (xs ys : Bytes) → value_from acc (xs ++ ys) ≡ value_from (value_from acc xs) ys
unfolding value_from
value_from-append acc [] ys = refl
value_from-append acc (x ∷ xs) ys = value_from-append (acc * 10 + (x - 48)) xs ys

value_from-digits_of : (f n : ℕ) → n < f → value_from 0 (digits_of f n) ≡ n
unfolding digits_of
value_from-digits_of zero n h = absurd (omega arith)
value_from-digits_of (suc f) n h = elim (Bool-cases (ltb n 10)) [
  | inl one ↦ rw one (unfold value_from in omega arith)
  | inr more ↦ rw more (
      value_from-append 0 (digits_of f (n / 10)) ((48 + n % 10) ∷ [])
      ∙ rw (value_from-digits_of f (n / 10) (ground arith)) (unfold value_from in omega arith))
]

pub value_from-to_string : (n : ℕ) → value_from 0 (to_string n) ≡ n
unfolding to_string
value_from-to_string n = value_from-digits_of (suc n) n (omega arith)

digits_of-All : (f n : ℕ) → All (λ c. is_digit c ≡ true) (digits_of f n)
unfolding digits_of
digits_of-All zero n = tt
digits_of-All (suc f) n = elim (Bool-cases (ltb n 10)) [
  | inl one ↦ rw one (ground arith, tt)
  | inr more ↦ rw more (
      All-append _ (digits_of f (n / 10)) ((48 + n % 10) ∷ []) (digits_of-All f (n / 10))
        (ground arith, tt))
]

pub to_string-All : (n : ℕ) → All (λ c. is_digit c ≡ true) (to_string n)
unfolding to_string
to_string-All n = digits_of-All (suc n) n

length-digits_of : (f k n : ℕ) → n < 10 ^ suc k → length (digits_of f n) ≤ suc k
unfolding digits_of
length-digits_of zero k n h = omega arith
length-digits_of (suc f) zero n h = ground arith
length-digits_of (suc f) (suc k) n h = elim (Bool-cases (ltb n 10)) [
  | inl one ↦ rw one (omega arith)
  | inr more ↦ rw more (
      omega (
        arith,
        length-append (digits_of f (n / 10)) ((48 + n % 10) ∷ []),
        length-digits_of f k (n / 10) (omega (arith, pow-suc 10 (suc k))),
      ))
]

-- A number below 10 ^ (k + 1) has at most k + 1 digits.
pub length-to_string : (k n : ℕ) → n < 10 ^ suc k → length (to_string n) ≤ suc k
unfolding to_string
length-to_string k n h = length-digits_of (suc n) k n h

pub to_string-ne-nil : (n : ℕ) → is_empty (to_string n) ≡ false
unfolding to_string digits_of
to_string-ne-nil n = elim (Bool-cases (ltb n 10)) [
  | inl one ↦ rw one
  | inr more ↦ rw more (is_empty-append (digits_of n (n / 10)) (48 + n % 10))
]
  where
    is_empty-append : (xs : Bytes) (c : ℕ) → is_empty (xs ++ c ∷ []) ≡ false
    is_empty-append [] c = refl
    is_empty-append (x ∷ xs) c = refl
