-- ===== src/Prelude/Bits.antt =====
-- `&`, `|` and `^` of native numbers by their lowest digit, and `|` of disjoint fields as a sum.
use Prim.Native.Nat.{
  ℕ, zero, suc, ◌+◌, ◌-◌, ◌*◌, ◌/◌, ◌%◌, ◌^◌, ◌≤◌, ◌<◌, max, bit_or, bit_xor, digits, bitwise,
  differ, bit_or-bitwise, bit_xor-bitwise,
}
use mathlib.Core.Path.{◌≡◌, refl, ap, ◌∙◌}
use native.Mathlib.Omega.{arith}
use native.Mathlib.Nat.{pow-suc}

-- `digits` reads one digit for each unit of fuel, and none once the left number is 0: where the fuel
-- is no smaller than that number, more of it changes nothing.
module _ (right : ℕ → ℕ) (op : ℕ → ℕ → ℕ) where
  one_more_unit :
      (fuel x y : ℕ) → x ≤ fuel → digits right op (suc fuel) x y ≡ digits right op fuel x y
  one_more_unit fuel zero y enough = at_zero fuel
    where
      at_zero : (g : ℕ) → digits right op (suc g) 0 y ≡ digits right op g 0 y
      at_zero zero = refl
      at_zero (suc g) = refl
  one_more_unit zero (suc x) y enough = absurd (omega arith)
  one_more_unit (suc fuel) (suc x) y enough =
      ap (λ (t : ℕ). t * 2 + op (suc x % 2) (y % 2))
        (one_more_unit fuel (suc x / 2) (y / 2) (omega arith))

  more_units :
      (extra fuel all x y : ℕ)
      → all ≡ fuel + extra
      → x ≤ fuel
      → digits right op all x y ≡ digits right op fuel x y
  more_units zero fuel all x y sum enough =
      ap (λ (g : ℕ). digits right op g x y) (omega (arith, sum))
  more_units (suc extra) fuel all x y sum enough =
      let whole : all ≡ suc (fuel + extra) = omega (arith, sum) in
      ap (λ (g : ℕ). digits right op g x y) whole
      ∙ one_more_unit (fuel + extra) x y (omega arith)
      ∙ more_units extra fuel (fuel + extra) x y refl enough

  lowest_digit :
      (x y : ℕ)
      → bitwise right op (suc x) y
        ≡ op (suc x % 2) (y % 2) + 2 * bitwise right op (suc x / 2) (y / 2)
  lowest_digit x y = omega (
    arith,
    more_units (x - suc x / 2) (suc x / 2) x (suc x / 2) (y / 2) (omega arith) (omega arith),
  )

bit_or_step : (x y : ℕ) → bit_or x y ≡ max (x % 2) (y % 2) + 2 * bit_or (x / 2) (y / 2)
bit_or_step zero y = omega (arith, bit_or-bitwise 0 y, bit_or-bitwise 0 (y / 2))
bit_or_step (suc x) y = omega (
  arith,
  bit_or-bitwise (suc x) y,
  bit_or-bitwise (suc x / 2) (y / 2),
  lowest_digit (λ t. t) max x y,
)

bit_xor_step : (x y : ℕ) → bit_xor x y ≡ differ (x % 2) (y % 2) + 2 * bit_xor (x / 2) (y / 2)
bit_xor_step zero y = omega (arith, bit_xor-bitwise 0 y, bit_xor-bitwise 0 (y / 2))
bit_xor_step (suc x) y = omega (
  arith,
  bit_xor-bitwise (suc x) y,
  bit_xor-bitwise (suc x / 2) (y / 2),
  lowest_digit (λ t. t) differ x y,
)

bit_or-zero_fuel : (n a : ℕ) → a ≤ n → bit_or a 0 ≡ a
bit_or-zero_fuel n zero h = refl
bit_or-zero_fuel zero (suc a) h = absurd (omega arith)
bit_or-zero_fuel (suc n) (suc a) h =
    omega (arith, bit_or_step (suc a) 0, bit_or-zero_fuel n (suc a / 2) (omega arith))

bit_or-zero : (a : ℕ) → bit_or a 0 ≡ a
bit_or-zero a = bit_or-zero_fuel a a (omega arith)

zero-bit_or : (b : ℕ) → bit_or 0 b ≡ b
zero-bit_or b = bit_or-bitwise 0 b

double_field : (q k : ℕ) → q * 2 ^ suc k ≡ 2 * (q * 2 ^ k)
double_field q k = omega (arith, ap (λ (t : ℕ). q * t) (pow-suc 2 k))

-- A field of `k` low bits joined to one above it is their sum, in either order.
pub bit_or_high_low : (k q r : ℕ) → r < 2 ^ k → bit_or (q * 2 ^ k) r ≡ q * 2 ^ k + r
bit_or_high_low zero q r fits = ground (arith, bit_or-zero q)
bit_or_high_low (suc k) q r fits = ground (
  arith,
  bit_or_step (q * 2 ^ suc k) r,
  double_field q k,
  bit_or_high_low k q (r / 2) (omega arith),
)

pub bit_or_above : (k q a r : ℕ) → a ≡ q * 2 ^ k → r < 2 ^ k → bit_or a r ≡ a + r
bit_or_above k q a r e fits = rw e (bit_or_high_low k q r fits)

pub bit_or_low_high : (k r q : ℕ) → r < 2 ^ k → bit_or r (q * 2 ^ k) ≡ r + q * 2 ^ k
bit_or_low_high zero r q fits = ground (arith, zero-bit_or q)
bit_or_low_high (suc k) r q fits = ground (
  arith,
  bit_or_step r (q * 2 ^ suc k),
  double_field q k,
  bit_or_low_high k (r / 2) q (omega arith),
)

-- On one digit.
differ_self : (d : ℕ) → d < 2 → differ d d ≡ 0
differ_self zero h = refl
differ_self (suc zero) h = refl
differ_self (suc (suc d)) h = absurd (omega arith)

differ-zero : (d : ℕ) → d < 2 → differ d 0 ≡ d
differ-zero zero h = refl
differ-zero (suc zero) h = refl
differ-zero (suc (suc d)) h = absurd (omega arith)

bit_xor-self_fuel : (n a : ℕ) → a ≤ n → bit_xor a a ≡ 0
bit_xor-self_fuel n zero h = refl
bit_xor-self_fuel zero (suc a) h = absurd (omega arith)
bit_xor-self_fuel (suc n) (suc a) h = ground (
  arith,
  bit_xor_step (suc a) (suc a),
  differ_self (suc a % 2) (omega arith),
  bit_xor-self_fuel n (suc a / 2) (omega arith),
)

pub bit_xor_self : (a : ℕ) → bit_xor a a ≡ 0
bit_xor_self a = bit_xor-self_fuel a a (omega arith)

bit_xor-zero_fuel : (n a : ℕ) → a ≤ n → bit_xor a 0 ≡ a
bit_xor-zero_fuel n zero h = refl
bit_xor-zero_fuel zero (suc a) h = absurd (omega arith)
bit_xor-zero_fuel (suc n) (suc a) h = ground (
  arith,
  bit_xor_step (suc a) 0,
  differ-zero (suc a % 2) (omega arith),
  bit_xor-zero_fuel n (suc a / 2) (omega arith),
)

pub bit_xor-zero : (a : ℕ) → bit_xor a 0 ≡ a
bit_xor-zero a = bit_xor-zero_fuel a a (omega arith)

-- Bits above `k` cancel against the same bits, and the low ones stay.
pub bit_xor_clear : (k q r : ℕ) → r < 2 ^ k → bit_xor (q * 2 ^ k + r) (q * 2 ^ k) ≡ r
bit_xor_clear zero q r fits = ground (arith, bit_xor_self q)
bit_xor_clear (suc k) q r fits =
    bit_xor_step (q * 2 ^ suc k + r) (q * 2 ^ suc k)
    ∙ rw (halves, even, low, clear, bit_xor_clear k q (r / 2) (omega (arith, pow-suc 2 k)))
        (rw (differ-zero (r % 2) (omega arith)) (omega arith))
  where
    halves : (q * 2 ^ suc k + r) / 2 ≡ q * 2 ^ k + r / 2
    halves = omega (arith, double_field q k)

    even : q * 2 ^ suc k / 2 ≡ q * 2 ^ k
    even = omega (arith, double_field q k)

    low : (q * 2 ^ suc k + r) % 2 ≡ r % 2
    low = omega (arith, double_field q k)

    clear : q * 2 ^ suc k % 2 ≡ 0
    clear = omega (arith, double_field q k)
