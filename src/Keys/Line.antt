-- ===== src/Keys/Line.antt =====
-- src/public_key.cpp: the lines that hold a key, checked, described and compared.
pub mod Comment
use quick_logger.Prelude.{
  ℕ, ◌+◌, Bool, true, false, not, ◌&&◌, ◌||◌, List, [], ◌∷◌, ◌++◌, Option, none, some, ◌==◌,
  if◌then◌else◌, ltb, leb, Bytes, codes, equal, length, is_empty, is_space, trim_front, trim_back,
}
use quick_logger.Prelude.Find.{any, starts_with, has_part}
use quick_logger.Keys.Base64.{decode_base64, encode_base64_unpadded}
use quick_logger.Keys.Data.{key_data_matches_type}
use quick_logger.Keys.Sha256.{sha256}

-- `while (stream >> word) words.push_back(word);`; `word` is the word so far.
unfoldable pub words_behind : Bytes → Bytes → List Bytes
words_behind word [] = if is_empty word then [] else word ∷ []
words_behind word (c ∷ cs) =
    if is_space c
    then (if is_empty word then words_behind [] cs else word ∷ words_behind [] cs)
    else words_behind (word ++ c ∷ []) cs

unfoldable pub split_words : Bytes → List Bytes
split_words text = words_behind [] text

unfoldable pub is_known_key_type : Bytes → Bool
is_known_key_type type =
    equal type (codes "ssh-ed25519")
    || equal type (codes "ssh-rsa")
    || equal type (codes "ecdsa-sha2-nistp256")
    || equal type (codes "ecdsa-sha2-nistp384")
    || equal type (codes "ecdsa-sha2-nistp521")
    || equal type (codes "sk-ssh-ed25519@openssh.com")
    || equal type (codes "sk-ecdsa-sha2-nistp256@openssh.com")

-- The errors of `ValidatePublicKey`, with the type that a text of theirs names.
pub data KeyProblem : Type 0 where
  no_key : KeyProblem
  private_key : KeyProblem
  ssh2_format : KeyProblem
  type_missing : KeyProblem
  type_unknown : Bytes → KeyProblem
  key_data_missing : Bytes → KeyProblem
  key_data_invalid : Bytes → KeyProblem

pub data Checked : Type 0 where
  normalized : Bytes → Checked
  refused : KeyProblem → Checked

-- `type + " " + words[1]`, and the other words behind, each after a space.
unfoldable pub spaced : List Bytes → Bytes
spaced [] = []
spaced (w ∷ ws) = b' ' ∷ (w ++ spaced ws)

unfoldable pub decoded_matches : Option Bytes → Bytes → Bool
decoded_matches none type = false
decoded_matches (some bytes) type = key_data_matches_type bytes type

unfoldable pub check_words : Bytes → List Bytes → Checked
check_words text [] = refused no_key
check_words text (type ∷ rest) =
    if has_part (codes "PRIVATE KEY") text
    then refused private_key
    else if has_part (codes "BEGIN SSH2 PUBLIC KEY") text
    then refused ssh2_format
    else if starts_with (codes "AAAA") type
    then refused type_missing
    else if not (is_known_key_type type)
    then refused (type_unknown type)
    else elim rest [
      | [] ↦ refused (key_data_missing type)
      | ◌∷◌ key others ↦
          if decoded_matches (decode_base64 key) type
          then normalized (type ++ spaced (key ∷ others))
          else refused (key_data_invalid type)
    ]

unfoldable pub validate_public_key : Bytes → Checked
validate_public_key text = check_words text (split_words text)

unfoldable pub key_type_label : Bytes → Bytes
key_type_label type =
    if equal type (codes "ssh-ed25519")
    then codes "ED25519"
    else if equal type (codes "ssh-rsa")
    then codes "RSA"
    else if equal type (codes "sk-ssh-ed25519@openssh.com")
    then codes "ED25519-SK"
    else if equal type (codes "sk-ecdsa-sha2-nistp256@openssh.com")
    then codes "ECDSA-SK"
    else if starts_with (codes "ecdsa-") type
    then codes "ECDSA"
    else type

pub record PublicKeyDescription : Type 0 where
  pub type : Bytes
  pub fingerprint : Bytes
  pub comment : Bytes

unfoldable pub fingerprint_of : Option Bytes → Bytes
fingerprint_of none = []
fingerprint_of (some bytes) = codes "SHA256:" ++ encode_base64_unpadded (sha256 bytes)

-- `(i > 2 ? " " : "") + words[i]` for the words behind the key.
unfoldable pub comment_of : List Bytes → Bytes
comment_of [] = []
comment_of (w ∷ ws) = w ++ spaced ws

unfoldable pub describe_words : List Bytes → PublicKeyDescription
describe_words [] = record { type = []; fingerprint = []; comment = [] }
describe_words (type ∷ []) = record { type = key_type_label type; fingerprint = []; comment = [] }
describe_words (type ∷ key ∷ others) = record {
  type = key_type_label type;
  fingerprint = fingerprint_of (decode_base64 key);
  comment = comment_of others;
}

unfoldable pub describe_public_key : Bytes → PublicKeyDescription
describe_public_key line = describe_words (split_words line)

unfoldable pub same_words : List Bytes → List Bytes → Bool
same_words (type_a ∷ key_a ∷ _) (type_b ∷ key_b ∷ _) = equal type_a type_b && equal key_a key_b
same_words _ _ = false

unfoldable pub same_public_key : Bytes → Bytes → Bool
same_public_key a b = same_words (split_words a) (split_words b)

-- The errors of `WithPublicKeyComment`.
pub data CommentProblem : Type 0 where
  not_a_key_line : CommentProblem
  control_characters : CommentProblem
  too_long : CommentProblem

pub data Commented : Type 0 where
  line_is : Bytes → Commented
  comment_refused : CommentProblem → Commented

abbrev pub is_tab_or_space : ℕ → Bool
is_tab_or_space c = c == b' ' || c == 9

abbrev pub is_control_character : ℕ → Bool
is_control_character c = ltb c 0x20 || c == 0x7F

unfoldable pub trimmed_comment : Bytes → Bytes
trimmed_comment comment = trim_back is_tab_or_space (trim_front is_tab_or_space comment)

unfoldable pub comment_behind : Bytes → Bytes → Bytes → Commented
comment_behind type key trimmed =
    if any is_control_character trimmed
    then comment_refused control_characters
    else if ltb 64 (length trimmed)
    then comment_refused too_long
    else line_is (type ++ b' ' ∷ (key ++ (if is_empty trimmed then [] else b' ' ∷ trimmed)))

unfoldable pub with_comment : List Bytes → Bytes → Commented
with_comment (type ∷ key ∷ _) comment = comment_behind type key (trimmed_comment comment)
with_comment _ comment = comment_refused not_a_key_line

unfoldable pub with_public_key_comment : Bytes → Bytes → Commented
with_public_key_comment line comment = with_comment (split_words line) comment
