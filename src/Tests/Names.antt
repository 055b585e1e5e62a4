-- ===== src/Tests/Names.antt =====
-- Names of nets, and public keys.
use quick_logger.Prelude.{
  ◌≤◌, ◌≡◌, ◌↔◌, refl, true, List, [], ◌∷◌, ◌++◌, some, arith, Bytes, codes, length, All, trim_back,
  trim_front,
}
use quick_logger.Prelude.Find.{any}
use quick_logger.Text.Typo.{
  substitution_cost, swap_cell, next_above, cell, row_from, last_row, first_row, last_cell,
  typo_distance,
}
use quick_logger.Text.Typo.Edits.{IsLeast}
use quick_logger.Text.Typo.Rows.{back, typo_distance-IsLeast}
use quick_logger.Keys.Base64.{decode_base64, encode_base64_unpadded}
use quick_logger.Keys.Base64.RoundTrip.{decode_base64-encode_base64_unpadded}
use quick_logger.Keys.Base64.Groups.{pads}
use quick_logger.Keys.Data.{key_data_matches_type}
use quick_logger.Keys.Data.Fields.{key_data_matches_type_iff}
use quick_logger.Keys.Data.Written.{field, written, IsShort}
use quick_logger.Keys.Line.{
  words_behind, split_words, trimmed_comment, comment_behind, with_comment, with_public_key_comment,
  same_public_key,
}
use quick_logger.Keys.Line.Comment.{with_public_key_comment_same}
use quick_logger.Keys.Sha256.{
  rotate_right, round_constants, zeros, padded_message, block_words, next_word, extend_words,
  first_last, message_words, sha_round, sha_rounds, sha_blocks, digest_of, sha256,
}

-- Two letters swapped and one left out.
typo_distance-skywarn : typo_distance (codes "SKYWARN") (codes "KSYWAR") ≡ 2
unfolding typo_distance last_cell last_row first_row row_from cell swap_cell next_above
    substitution_cost
typo_distance-skywarn = refl

typo_distance-IsLeast_example :
    IsLeast
      (back [] (codes "SKY"))
      (back [] (codes "KSY"))
      (typo_distance (codes "SKY") (codes "KSY"))
typo_distance-IsLeast_example = typo_distance-IsLeast (codes "SKY") (codes "KSY")

decode_base64-encode_base64_unpadded_example :
    decode_base64 (encode_base64_unpadded (codes "abcd") ++ pads (codes "abcd"))
    ≡ some (codes "abcd")
decode_base64-encode_base64_unpadded_example =
    decode_base64-encode_base64_unpadded (codes "abcd") refl (omega arith)

abbrev rsa_bytes : Bytes
rsa_bytes = field (codes "ssh-rsa") ++ written (codes "e" ∷ [])

key_data_matches_type_iff_example : (key_data_matches_type rsa_bytes (codes "ssh-rsa") ≡ true) ↔ (
    (others : List Bytes) × (rsa_bytes ≡ field (codes "ssh-rsa") ++ written others)
    × (1 ≤ length others)
    × All IsShort (codes "ssh-rsa" ∷ others))
key_data_matches_type_iff_example =
    key_data_matches_type_iff rsa_bytes (codes "ssh-rsa") (omega arith)

with_public_key_comment_same_example :
    same_public_key (codes "ssh-rsa  AAAA") (codes "ssh-rsa AAAA wes") ≡ true
unfolding with_public_key_comment with_comment comment_behind trimmed_comment split_words
    words_behind any trim_back trim_front
with_public_key_comment_same_example =
    with_public_key_comment_same (codes "ssh-rsa  AAAA") (codes " wes ") (codes "ssh-rsa AAAA wes")
      refl

sha256-abc :
    sha256 (codes "abc")
    ≡ 0xBA ∷ 0x78 ∷ 0x16 ∷ 0xBF ∷ 0x8F ∷ 0x01 ∷ 0xCF ∷ 0xEA ∷ 0x41 ∷ 0x41 ∷ 0x40 ∷ 0xDE ∷ 0x5D
      ∷ 0xAE ∷ 0x22 ∷ 0x23 ∷ 0xB0 ∷ 0x03 ∷ 0x61 ∷ 0xA3 ∷ 0x96 ∷ 0x17 ∷ 0x7A ∷ 0x9C ∷ 0xB4 ∷ 0x10
      ∷ 0xFF ∷ 0x61 ∷ 0xF2 ∷ 0x00 ∷ 0x15 ∷ 0xAD ∷ []
unfolding sha256 sha_blocks digest_of padded_message zeros message_words sha_rounds round_constants
    sha_round rotate_right first_last extend_words next_word block_words
sha256-abc = refl
