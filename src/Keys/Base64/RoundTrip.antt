-- ===== src/Keys/Base64/RoundTrip.antt =====
-- Bytes encoded in base64, filled up with `=`, are decoded as those bytes.
use quick_logger.Prelude.{
  ℕ, ◌*◌, ◌/◌, ◌%◌, ◌^◌, ◌≡◌, refl, ap, ◌∙◌, false, [], ◌∷◌, ◌++◌, some, arith, bit_or, Bytes,
  length, is_empty, All,
}
use quick_logger.Zmodem.Frame.Position.{IsByte}
use quick_logger.Keys.Base64.{bytes_of, decode_groups, decode_base64, encode_base64_unpadded}
use quick_logger.Keys.Base64.Groups.{
  group_word_sum, group_of-letters, group_of-pad, group_of-pads, pads, decode_groups_step,
  group_word-sextets, word_sum, bytes_of_word, one_word, one_byte, two_sum, two_word, two_bytes,
}

decode_groups-encode :
    (bytes : Bytes)
    → All IsByte bytes
    → decode_groups (encode_base64_unpadded bytes ++ pads bytes) ≡ some bytes
unfolding encode_base64_unpadded pads
decode_groups-encode [] h = unfold decode_groups in refl
decode_groups-encode (x ∷ []) h =
    decode_groups_step _ _ b'=' b'=' [] [] _
      (group_of-pads (x * 2 ^ 16 / 2 ^ 18 % 64) (x * 2 ^ 16 / 2 ^ 12 % 64) (omega arith)
        (omega arith))
      (unfold decode_groups in refl)
    ∙ ap (λ w. some (bytes_of 2 w ++ []))
        (group_word_sum (x * 2 ^ 16 / 2 ^ 18 % 64) (x * 2 ^ 16 / 2 ^ 12 % 64) 0 0 2 (omega arith)
            (omega arith) (omega arith)
          ∙ one_word x h.0)
    ∙ one_byte x h.0
decode_groups-encode (x ∷ y ∷ []) h =
    decode_groups_step _ _ _ b'=' [] [] _
      (group_of-pad (word / 2 ^ 18 % 64) (word / 2 ^ 12 % 64) (omega arith) (omega arith)
        (word / 2 ^ 6 % 64) (omega arith))
      (unfold decode_groups in refl)
    ∙ ap (λ w. some (bytes_of 1 w ++ []))
        (group_word_sum (word / 2 ^ 18 % 64) (word / 2 ^ 12 % 64) (word / 2 ^ 6 % 64) 0 1
            (omega arith) (omega arith) (omega arith)
          ∙ two_word word x y h.0 h.1.0 (two_sum x y h.0 h.1.0))
    ∙ two_bytes x y h.0 h.1.0
  where
    word : ℕ
    word = bit_or (x * 2 ^ 16) (y * 2 ^ 8)
decode_groups-encode (x ∷ y ∷ z ∷ rest) h =
    decode_groups_step _ _ _ _ (encode_base64_unpadded rest ++ pads rest) rest _
      (group_of-letters (word / 2 ^ 18 % 64) (word / 2 ^ 12 % 64) (omega arith) (omega arith) _
        (word / 2 ^ 6 % 64) (word % 64) (omega arith) (omega arith))
      (decode_groups-encode rest h.1.1.1)
    ∙ ap (λ w. some (bytes_of 0 w ++ rest))
        (group_word-sextets word 0 (omega (arith, word_sum x y z h.0 h.1.0 h.1.1.0)))
    ∙ ap (λ bs. some (bs ++ rest))
        (bytes_of_word x y z h.0 h.1.0 h.1.1.0 word (word_sum x y z h.0 h.1.0 h.1.1.0))
  where
    word : ℕ
    word = bit_or (bit_or (x * 2 ^ 16) (y * 2 ^ 8)) z

encoded_length : (bytes : Bytes) → length (encode_base64_unpadded bytes ++ pads bytes) % 4 ≡ 0
unfolding encode_base64_unpadded pads
encoded_length [] = refl
encoded_length (x ∷ []) = refl
encoded_length (x ∷ y ∷ []) = refl
encoded_length (x ∷ y ∷ z ∷ rest) = omega (arith, encoded_length rest)

-- Bytes, at least one, that are encoded in base64 and filled up with = to groups of four are
-- decoded as those bytes.
pub decode_base64-encode_base64_unpadded :
    (bytes : Bytes)
    → is_empty bytes ≡ false
    → All IsByte bytes
    → decode_base64 (encode_base64_unpadded bytes ++ pads bytes) ≡ some bytes
unfolding decode_base64
decode_base64-encode_base64_unpadded bytes present h =
    rw (not_empty bytes present, encoded_length bytes, decode_groups-encode bytes h)
  where
    not_empty :
        (bytes : Bytes)
        → is_empty bytes ≡ false
        → is_empty (encode_base64_unpadded bytes ++ pads bytes) ≡ false
    not_empty [] e = cc
    not_empty (x ∷ []) e = unfold encode_base64_unpadded in refl
    not_empty (x ∷ y ∷ []) e = unfold encode_base64_unpadded in refl
    not_empty (x ∷ y ∷ z ∷ rest) e = unfold encode_base64_unpadded in refl
