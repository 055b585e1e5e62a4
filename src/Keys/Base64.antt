-- ===== src/Keys/Base64.antt =====
-- src/public_key.cpp: `DecodeBase64` and `EncodeBase64Unpadded`.

pub mod Groups
pub mod RoundTrip
use quick_logger.Prelude.{
  ℕ, ◌+◌, ◌-◌, ◌*◌, ◌/◌, ◌%◌, ◌^◌, Bool, not, ◌&&◌, ◌||◌, [], ◌∷◌, ◌++◌, Option, none, some, ◌==◌,
  if◌then◌else◌, ltb, bit_or, Bytes, codes, get_or, length, is_empty, is_upper, is_lower, is_digit,
}

infixl 5 ◌>>=◌
abbrev pub ◌>>=◌ {ℓ κ} : {A : Type ℓ} {B : Type κ} → Option A → (A → Option B) → Option B
none >>= f = none
some a >>= f = f a

-- None where the source returns -1.
unfoldable pub base64_value : ℕ → Option ℕ
base64_value c =
    if is_upper c
    then some (c - b'A')
    else if is_lower c
    then some (c - b'a' + 26)
    else if is_digit c
    then some (c - b'0' + 52)
    else if c == b'+'
    then some 62
    else if c == b'/'
    then some 63
    else none

-- `values` and `padding` of one group.
pub record Group : Type 0 where
  pub v0 : ℕ
  pub v1 : ℕ
  pub v2 : ℕ
  pub v3 : ℕ
  pub padding : ℕ

-- The loop over a group; `=` is padding only in the last group, as its last letters.
unfoldable pub group_of : Bool → ℕ → ℕ → ℕ → ℕ → Option Group
unfolding base64_value
group_of last_group a b c d = do
  v0 ← base64_value a
  v1 ← base64_value b
  if c == b'=' && last_group
      then (if d == b'='
          then some (record { v0 = v0; v1 = v1; v2 = 0; v3 = 0; padding = 2 })
          else none)
      else (do
        v2 ← base64_value c
        if d == b'=' && last_group
            then some (record { v0 = v0; v1 = v1; v2 = v2; v3 = 0; padding = 1 })
            else (do
              v3 ← base64_value d
              some (record { v0 = v0; v1 = v1; v2 = v2; v3 = v3; padding = 0 })))

unfoldable pub group_word : Group → ℕ
group_word g = bit_or (bit_or (bit_or (g.v0 * 2 ^ 18) (g.v1 * 2 ^ 12)) (g.v2 * 2 ^ 6)) g.v3

-- What a group adds to `out`.
unfoldable pub bytes_of : ℕ → ℕ → Bytes
bytes_of padding word =
    word / 2 ^ 16 % 256
    ∷ ((if ltb padding 2 then word / 2 ^ 8 % 256 ∷ [] else [])
        ++ (if ltb padding 1 then word % 256 ∷ [] else []))

unfoldable pub decode_groups : Bytes → Option Bytes
unfolding group_of group_word bytes_of
decode_groups [] = some []
decode_groups (a ∷ b ∷ c ∷ d ∷ rest) = do
  g ← group_of (is_empty rest) a b c d
  more ← decode_groups rest
  some (bytes_of g.padding (group_word g) ++ more)
decode_groups _ = none

unfoldable pub decode_base64 : Bytes → Option Bytes
unfolding decode_groups
decode_base64 text =
    if is_empty text || not (length text % 4 == 0) then none else decode_groups text

unfoldable pub letter : ℕ → ℕ
letter value =
    get_or (codes "ABCDEFGHIJKLMNOPQRSTUVWXYZabcdefghijklmnopqrstuvwxyz0123456789+/") value 0

-- `kAlphabet[(group >> shift) & 0x3F]`.
abbrev pub sextet : ℕ → ℕ → ℕ
sextet word shift = letter (word / 2 ^ shift % 64)

unfoldable pub encode_base64_unpadded : Bytes → Bytes
unfolding letter
encode_base64_unpadded [] = []
encode_base64_unpadded (x ∷ []) = let word = x * 2 ^ 16 in sextet word 18 ∷ sextet word 12 ∷ []
encode_base64_unpadded (x ∷ y ∷ []) =
    let word = bit_or (x * 2 ^ 16) (y * 2 ^ 8) in
    sextet word 18 ∷ sextet word 12 ∷ sextet word 6 ∷ []
encode_base64_unpadded (x ∷ y ∷ z ∷ rest) =
    let word = bit_or (bit_or (x * 2 ^ 16) (y * 2 ^ 8)) z in
    sextet word 18
    ∷ sextet word 12
    ∷ sextet word 6
    ∷ letter (word % 64)
    ∷ encode_base64_unpadded rest
