-- ===== src/Frequency/Parse.antt =====
-- The range of `ParseMhz`, and what it reads.
use native.Mathlib.Nat.{pow-suc, one-le-pow}
use quick_logger.Prelude.{
  ℕ, zero, suc, ◌+◌, ◌-◌, ◌*◌, ◌/◌, ◌^◌, ◌≤◌, ◌<◌, ◌≡◌, ap, true, false, [], ◌∷◌, some, and-true,
  arith, Bytes, is_digit, is_empty, length, take_while, drop_while, All,
}
use quick_logger.Prelude.Decimal.{value_from}
use quick_logger.Frequency.{
  all_digits, not_point, behind_point, fraction_from, mhz, mhz_of, parse_mhz,
}

pub all_digits-All : (cs : Bytes) → all_digits cs ≡ true → All (λ c. is_digit c ≡ true) cs
unfolding all_digits
all_digits-All [] h = tt
all_digits-All (c ∷ cs) h =
    let both = and-true (is_digit c) (all_digits cs) h in (both.0, all_digits-All cs both.1)

small_mul : (d p : ℕ) → d ≤ 9 → d * p ≤ 9 * p
small_mul d p h = grind arith

digit-le : (c : ℕ) → is_digit c ≡ true → c - b'0' ≤ 9
digit-le c h = ground arith

-- A run of k digits behind `acc` stays below (acc + 1) * 10 ^ k.
value_from-lt :
    (k acc : ℕ) (cs : Bytes)
    → length cs ≤ k
    → All (λ c. is_digit c ≡ true) cs
    → value_from acc cs < (acc + 1) * 10 ^ k
unfolding value_from
value_from-lt zero acc [] l h = omega arith
value_from-lt (suc k) acc [] l h =
    let pos : acc * 1 + 1 ≤ (acc + 1) * 10 ^ suc k =
      grind (arith, one-le-pow (suc k) 10 (omega arith)) in
    omega arith
value_from-lt zero acc (c ∷ cs) l h = absurd (omega arith)
value_from-lt (suc k) acc (c ∷ cs) l h = omega (
  arith,
  value_from-lt k (acc * 10 + (c - b'0')) cs (omega arith) h.1,
  small_mul (c - b'0') (10 ^ k) (digit-le c h.0),
  ap (λ (t : ℕ). (acc + 1) * t) (pow-suc 10 k),
)

fraction_from-lt :
    (k acc : ℕ) (cs : Bytes)
    → length cs ≤ k
    → All (λ c. is_digit c ≡ true) cs
    → fraction_from (10 ^ k) acc cs < acc + 10 ^ k
unfolding fraction_from
fraction_from-lt zero acc [] l h = omega arith
fraction_from-lt (suc k) acc [] l h = omega (arith, one-le-pow (suc k) 10 (omega arith))
fraction_from-lt zero acc (c ∷ cs) l h = absurd (omega arith)
fraction_from-lt (suc k) acc (c ∷ cs) l h =
    let tenth : 10 ^ suc k / 10 ≡ 10 ^ k = omega (arith, pow-suc 10 k) in
    rw tenth (
      omega (
        arith,
        fraction_from-lt k (acc + (c - b'0') * 10 ^ k) cs (omega arith) h.1,
        small_mul (c - b'0') (10 ^ k) (digit-le c h.0),
        pow-suc 10 k,
      ))

-- What `ParseMhz` has tested when it succeeds.
record IsMhz (whole fraction : Bytes) (hz : ℕ) : Type 0 where
  whole_full : is_empty whole ≡ false
  whole_fits : length whole ≤ 7
  fraction_fits : length fraction ≤ 6
  whole_digits : all_digits whole ≡ true
  fraction_digits : all_digits fraction ≡ true
  value : hz ≡ value_from 0 whole * mhz + fraction_from mhz 0 fraction

mhz_of-IsMhz :
    (whole fraction : Bytes) (hz : ℕ) → mhz_of whole fraction ≡ some hz → IsMhz whole fraction hz
unfolding mhz_of
mhz_of-IsMhz whole fraction hz e = ground arith

mhz_of-lt : (whole fraction : Bytes) (hz : ℕ) → mhz_of whole fraction ≡ some hz → hz < 10 ^ 13
mhz_of-lt whole fraction hz e =
    let t = mhz_of-IsMhz whole fraction hz e in
    omega (
      arith,
      t.value,
      value_from-lt 7 0 whole t.whole_fits (all_digits-All whole t.whole_digits),
      fraction_from-lt 6 0 fraction t.fraction_fits (all_digits-All fraction t.fraction_digits),
    )

-- A frequency that is read as MHz is below 10 ^ 13 Hz.
pub parse_mhz-lt : (text : Bytes) (hz : ℕ) → parse_mhz text ≡ some hz → hz < 10 ^ 13
unfolding parse_mhz
parse_mhz-lt text hz =
    mhz_of-lt (take_while not_point text) (behind_point (drop_while not_point text)) hz
