-- ===== src/Keys/Base64/Groups.antt =====
-- A group of base64, decoded.
use quick_logger.Prelude.{
  ℕ, ◌+◌, ◌*◌, ◌/◌, ◌%◌, ◌^◌, ◌<◌, ◌≡◌, refl, ap, ◌∙◌, Bool, true, false, not, ◌&&◌, [], ◌∷◌, ◌++◌,
  Option, none, some, ◌==◌, ==_iff, and-true, not-true, arith, bit_or, Bytes, is_empty, all_below,
  all_below_sound,
}
use quick_logger.Prelude.Bits.{bit_or_above}
use quick_logger.Keys.Base64.{
  base64_value, Group, group_of, group_word, bytes_of, decode_groups, letter,
}

abbrev is_value : ℕ → Option ℕ → Bool
is_value v none = false
is_value v (some u) = u == v

is_value_sound : (v : ℕ) (o : Option ℕ) → is_value v o ≡ true → o ≡ some v
is_value_sound v none h = cc
is_value_sound v (some u) h = ap some ((==_iff u v).0 h)

abbrev well : ℕ → Bool
well v = is_value v (base64_value (letter v)) && not (letter v == b'=')

letters : all_below 64 well ≡ true
unfolding all_below base64_value letter
letters = refl

well_lem : (v : ℕ) → v < 64 → well v ≡ true
well_lem v h = all_below_sound 64 well v letters h

base64_value-letter : (v : ℕ) → v < 64 → base64_value (letter v) ≡ some v
base64_value-letter v h = is_value_sound v (base64_value (letter v)) (and-true _ _ (well_lem v h)).0

letter-ne-pad : (v : ℕ) → v < 64 → (letter v == b'=') ≡ false
letter-ne-pad v h = not-true (letter v == b'=') (and-true _ _ (well_lem v h)).1

pub group_word_sum :
    (v0 v1 v2 v3 padding : ℕ)
    → v1 < 64
    → v2 < 64
    → v3 < 64
    → group_word (record { v0 = v0; v1 = v1; v2 = v2; v3 = v3; padding = padding })
      ≡ v0 * 2 ^ 18 + v1 * 2 ^ 12 + v2 * 2 ^ 6 + v3
unfolding group_word
group_word_sum v0 v1 v2 v3 padding h1 h2 h3 = rw (
  bit_or_above 18 v0 (v0 * 2 ^ 18) (v1 * 2 ^ 12) refl (omega arith),
  bit_or_above 12 (v0 * 2 ^ 6 + v1) (v0 * 2 ^ 18 + v1 * 2 ^ 12) (v2 * 2 ^ 6) (omega arith)
      (omega arith),
  bit_or_above 6 (v0 * 2 ^ 12 + v1 * 2 ^ 6 + v2) (v0 * 2 ^ 18 + v1 * 2 ^ 12 + v2 * 2 ^ 6) v3
      (omega arith) (omega arith),
)

module _ (v0 v1 : ℕ) (h0 : v0 < 64) (h1 : v1 < 64) where
  pub group_of-letters :
      (last_group : Bool) (v2 v3 : ℕ)
      → v2 < 64
      → v3 < 64
      → group_of last_group (letter v0) (letter v1) (letter v2) (letter v3)
        ≡ some (record { v0 = v0; v1 = v1; v2 = v2; v3 = v3; padding = 0 })
  unfolding group_of
  group_of-letters last_group v2 v3 h2 h3 = rw (
    base64_value-letter v0 h0,
    base64_value-letter v1 h1,
    letter-ne-pad v2 h2,
    base64_value-letter v2 h2,
    letter-ne-pad v3 h3,
    base64_value-letter v3 h3,
  )

  pub group_of-pad :
      (v2 : ℕ)
      → v2 < 64
      → group_of true (letter v0) (letter v1) (letter v2) b'='
        ≡ some (record { v0 = v0; v1 = v1; v2 = v2; v3 = 0; padding = 1 })
  unfolding group_of
  group_of-pad v2 h2 = rw (
    base64_value-letter v0 h0,
    base64_value-letter v1 h1,
    letter-ne-pad v2 h2,
    base64_value-letter v2 h2,
  )

  pub group_of-pads :
      group_of true (letter v0) (letter v1) b'=' b'='
      ≡ some (record { v0 = v0; v1 = v1; v2 = 0; v3 = 0; padding = 2 })
  unfolding group_of
  group_of-pads = rw (base64_value-letter v0 h0, base64_value-letter v1 h1)

-- What OpenSSH puts behind the letters in a key line.
unfoldable pub pads : Bytes → Bytes
pads [] = []
pads (x ∷ []) = b'=' ∷ b'=' ∷ []
pads (x ∷ y ∷ []) = b'=' ∷ []
pads (x ∷ y ∷ z ∷ rest) = pads rest

pub decode_groups_step :
    (a b c d : ℕ) (rest more : Bytes) (g : Group)
    → group_of (is_empty rest) a b c d ≡ some g
    → decode_groups rest ≡ some more
    → decode_groups (a ∷ b ∷ c ∷ d ∷ rest) ≡ some (bytes_of g.padding (group_word g) ++ more)
unfolding decode_groups
decode_groups_step a b c d rest more g e1 e2 = rw (e1, e2)

-- The four parts of a group make up its word again.
pub group_word-sextets :
    (word padding : ℕ)
    → word < 2 ^ 24
    → group_word (record {
      v0 = word / 2 ^ 18 % 64;
      v1 = word / 2 ^ 12 % 64;
      v2 = word / 2 ^ 6 % 64;
      v3 = word % 64;
      padding = padding;
    })
      ≡ word
group_word-sextets word padding h =
    group_word_sum (word / 2 ^ 18 % 64) (word / 2 ^ 12 % 64) (word / 2 ^ 6 % 64) (word % 64) padding
      (omega arith) (omega arith) (omega arith)
    ∙ omega arith

module _ (x y z : ℕ) (hx : x < 256) (hy : y < 256) (hz : z < 256) where
  pub word_sum : bit_or (bit_or (x * 2 ^ 16) (y * 2 ^ 8)) z ≡ x * 2 ^ 16 + y * 2 ^ 8 + z
  word_sum = rw (
    bit_or_above 16 x (x * 2 ^ 16) (y * 2 ^ 8) refl (omega arith),
    bit_or_above 8 (x * 2 ^ 8 + y) (x * 2 ^ 16 + y * 2 ^ 8) z (omega arith) (omega arith),
  )

  pub bytes_of_word :
      (word : ℕ) → word ≡ x * 2 ^ 16 + y * 2 ^ 8 + z → bytes_of 0 word ≡ x ∷ y ∷ z ∷ []
  unfolding bytes_of
  bytes_of_word word e = rw (high, middle, low)
    where
      high : word / 2 ^ 16 % 256 ≡ x
      high = omega arith

      middle : word / 2 ^ 8 % 256 ≡ y
      middle = omega arith

      low : word % 256 ≡ z
      low = omega arith

pub one_word :
    (x : ℕ)
    → x < 256
    → x * 2 ^ 16 / 2 ^ 18 % 64 * 2 ^ 18 + x * 2 ^ 16 / 2 ^ 12 % 64 * 2 ^ 12 + 0 * 2 ^ 6 + 0
      ≡ x * 2 ^ 16
one_word x h = omega arith

pub one_byte : (x : ℕ) → x < 256 → some (bytes_of 2 (x * 2 ^ 16) ++ []) ≡ some (x ∷ [])
unfolding bytes_of
one_byte x h = rw (high x h)
  where
    high : (x : ℕ) → x < 256 → x * 2 ^ 16 / 2 ^ 16 % 256 ≡ x
    high x h = omega arith

pub two_sum :
    (x y : ℕ) → x < 256 → y < 256 → bit_or (x * 2 ^ 16) (y * 2 ^ 8) ≡ x * 2 ^ 16 + y * 2 ^ 8
two_sum x y hx hy = bit_or_above 16 x (x * 2 ^ 16) (y * 2 ^ 8) refl (omega arith)

pub two_word :
    (word x y : ℕ)
    → x < 256
    → y < 256
    → word ≡ x * 2 ^ 16 + y * 2 ^ 8
    → word / 2 ^ 18 % 64 * 2 ^ 18 + word / 2 ^ 12 % 64 * 2 ^ 12 + word / 2 ^ 6 % 64 * 2 ^ 6 + 0
      ≡ word
two_word word x y hx hy e = omega arith

pub two_bytes :
    (x y : ℕ)
    → x < 256
    → y < 256
    → some (bytes_of 1 (bit_or (x * 2 ^ 16) (y * 2 ^ 8)) ++ []) ≡ some (x ∷ y ∷ [])
unfolding bytes_of
two_bytes x y hx hy = rw (two_sum x y hx hy, high x y hx hy, low x y hx hy)
  where
    high : (x y : ℕ) → x < 256 → y < 256 → (x * 2 ^ 16 + y * 2 ^ 8) / 2 ^ 16 % 256 ≡ x
    high x y hx hy = omega arith

    low : (x y : ℕ) → x < 256 → y < 256 → (x * 2 ^ 16 + y * 2 ^ 8) / 2 ^ 8 % 256 ≡ y
    low x y hx hy = omega arith
