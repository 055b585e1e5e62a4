-- ===== src/Keys/Data.antt =====
-- src/public_key.cpp, `KeyDataMatchesType`. The loop runs on one more than the bytes left.
pub mod Written
pub mod Fields
use quick_logger.Prelude.{
  ℕ, zero, suc, ◌+◌, ◌*◌, ◌^◌, Bool, false, not, ◌&&◌, [], ◌∷◌, ◌==◌, if◌then◌else◌, ltb, leb,
  bit_or, Bytes, equal, length, take, drop,
}

-- `length`, of the four bytes before a field.
unfoldable pub field_length : ℕ → ℕ → ℕ → ℕ → ℕ
field_length a b c d = bit_or (bit_or (bit_or (a * 2 ^ 24) (b * 2 ^ 16)) (c * 2 ^ 8)) d

-- `position` is where the list of bytes starts. A field is refused if it is longer than what is
-- left, or if it is the first and is not the type.
unfoldable pub fields_match : ℕ → Bytes → ℕ → Bytes → Bool
unfolding field_length
fields_match zero type fields bytes = false
fields_match (suc fuel) type fields [] = leb 2 fields
fields_match (suc fuel) type fields (a ∷ b ∷ c ∷ d ∷ rest) =
    let size = field_length a b c d in
    let more = fields_match fuel type (suc fields) (drop size rest) in
    if ltb (length rest) size
    then false
    else if (fields == 0) && not (equal (take size rest) type)
    then false
    else more
fields_match (suc fuel) type fields _ = false

unfoldable pub key_data_matches_type : Bytes → Bytes → Bool
key_data_matches_type bytes type = fields_match (length bytes + 1) type 0 bytes
