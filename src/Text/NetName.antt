-- ===== src/Text/NetName.antt =====
-- src/text_utils.cpp: the names of nets compared.
pub mod Alike
use quick_logger.Prelude.{
  ℕ, ◌+◌, ◌≤◌, Bool, true, false, not, ◌&&◌, ◌||◌, List, [], ◌∷◌, ◌++◌, ◌==◌, if◌then◌else◌, leb,
  Bytes, codes, equal, length, is_empty, is_alnum, is_digit, is_space, to_upper,
}
use quick_logger.Prelude.Find.{any, starts_with, has_part}
use quick_logger.Text.Place.{normalize_place_name}
use quick_logger.Text.Typo.{typo_distance}

-- Common abbreviations, spelled out.
unfoldable pub spelled_out : Bytes → Bytes
spelled_out word =
    if equal word (codes "CO") || equal word (codes "CTY") || equal word (codes "CNTY")
    then codes "COUNTY"
    else if equal word (codes "WX")
    then codes "WEATHER"
    else if equal word (codes "EMERG") || equal word (codes "EMRG")
    then codes "EMERGENCY"
    else word

-- The loop of `NameWords` over the name and the blank behind it; `word` is the word so far.
unfoldable pub words_from : Bytes → Bytes → List Bytes
words_from word [] = []
words_from word (c ∷ cs) =
    if is_alnum c
    then words_from (word ++ c ∷ []) cs
    else if is_empty word
    then words_from word cs
    else spelled_out word ∷ words_from [] cs

unfoldable pub name_words : Bytes → List Bytes
name_words name = words_from [] (normalize_place_name name ++ b' ' ∷ [])

-- `kCommon`.
unfoldable pub common_net_words : List Bytes
common_net_words =
    codes "A"
    ∷ codes "AN"
    ∷ codes "AND"
    ∷ codes "AT"
    ∷ codes "FOR"
    ∷ codes "IN"
    ∷ codes "OF"
    ∷ codes "ON"
    ∷ codes "THE"
    ∷ codes "NET"
    ∷ codes "NETS"
    ∷ codes "SESSION"
    ∷ codes "AMATEUR"
    ∷ codes "RADIO"
    ∷ codes "HAM"
    ∷ codes "HAMS"
    ∷ codes "CLUB"
    ∷ codes "ASSOCIATION"
    ∷ codes "ASSN"
    ∷ codes "SOCIETY"
    ∷ codes "GROUP"
    ∷ codes "COUNTY"
    ∷ codes "CITY"
    ∷ codes "AREA"
    ∷ codes "REGIONAL"
    ∷ codes "DISTRICT"
    ∷ codes "WEEKLY"
    ∷ codes "DAILY"
    ∷ codes "NIGHTLY"
    ∷ codes "MONTHLY"
    ∷ codes "MORNING"
    ∷ codes "AFTERNOON"
    ∷ codes "EVENING"
    ∷ codes "NIGHT"
    ∷ codes "MONDAY"
    ∷ codes "TUESDAY"
    ∷ codes "WEDNESDAY"
    ∷ codes "THURSDAY"
    ∷ codes "FRIDAY"
    ∷ codes "SATURDAY"
    ∷ codes "SUNDAY"
    ∷ codes "FM"
    ∷ codes "SSB"
    ∷ codes "HF"
    ∷ codes "VHF"
    ∷ codes "UHF"
    ∷ codes "DMR"
    ∷ codes "REPEATER"
    ∷ []

unfoldable pub is_common_net_word : Bytes → Bool
is_common_net_word word = any (equal word) common_net_words

unfoldable pub all_are_digits : Bytes → Bool
all_are_digits [] = true
all_are_digits (c ∷ cs) = is_digit c && all_are_digits cs

unfoldable pub is_all_digits : Bytes → Bool
is_all_digits word = all_are_digits word && not (is_empty word)

-- The end of `WordsLookAlike`.
unfoldable pub within_typos : ℕ → Bytes → Bytes → Bool
within_typos size a b =
    if leb 7 size then leb (typo_distance a b) 2 else leb 4 size && leb (typo_distance a b) 1

unfoldable pub near : Bytes → Bytes → Bytes → Bytes → Bool
near shorter longer a b =
    (leb 3 (length shorter) && has_part shorter longer) || within_typos (length shorter) a b

unfoldable pub words_look_alike : Bytes → Bytes → Bool
words_look_alike a b =
    if equal a b
    then true
    else if is_all_digits a || is_all_digits b
    then false
    else if leb (length a) (length b)
    then near a b a b
    else near b a a b

unfoldable pub is_filler : Bytes → Bool
is_filler word =
    equal word (codes "THE")
    || equal word (codes "OF")
    || equal word (codes "AND")
    || equal word (codes "NET")

-- `initials += word[0]`; `word[0]` of a blank word is NUL, and a word is never blank.
abbrev pub first_letter : Bytes → ℕ
first_letter [] = 0
first_letter (c ∷ cs) = c

unfoldable pub initials : List Bytes → Bool → Bytes
initials [] skip_filler = []
initials (word ∷ words) skip_filler =
    let rest = initials words skip_filler in
    if skip_filler && is_filler word then rest else first_letter word ∷ rest

unfoldable pub is_acronym : Bytes → Bytes → Bytes → Bool
is_acronym all trimmed word =
    leb 2 (length word) && not (is_all_digits word) && (equal word all || equal word trimmed)

unfoldable pub has_acronym_of : List Bytes → List Bytes → Bool
has_acronym_of words other = any (is_acronym (initials other false) (initials other true)) words

unfoldable pub join_words : List Bytes → Bytes
join_words [] = []
join_words (word ∷ words) = word ++ join_words words

-- The loop of `NetNameKey`.
unfoldable pub name_key_from : Bytes → Bool → Bytes → Bytes
name_key_from key pending_space [] = key
name_key_from key pending_space (c ∷ cs) =
    if is_space c
    then name_key_from key (not (is_empty key)) cs
    else if pending_space
    then name_key_from (key ++ b' ' ∷ to_upper c ∷ []) false cs
    else name_key_from (key ++ to_upper c ∷ []) false cs

unfoldable pub net_name_key : Bytes → Bytes
net_name_key name = name_key_from [] false name

unfoldable pub net_names_are_the_same : Bytes → Bytes → Bool
net_names_are_the_same a b = equal (net_name_key a) (net_name_key b)

-- The words that say which net it is.
unfoldable pub key_words : List Bytes → List Bytes
key_words [] = []
key_words (word ∷ words) =
    let rest = key_words words in if is_common_net_word word then rest else word ∷ rest

unfoldable pub any_pair_alike : List Bytes → List Bytes → Bool
any_pair_alike key_a key_b = any (λ word_a. any (words_look_alike word_a) key_b) key_a

-- A word of one name in the other's words run together.
unfoldable pub runs_together : List Bytes → List Bytes → Bool
runs_together key_a key_b =
    any (λ word. leb 4 (length word) && has_part word (join_words key_b)) key_a

unfoldable pub keys_look_alike : List Bytes → List Bytes → List Bytes → List Bytes → Bool
keys_look_alike words_a words_b key_a key_b =
    any_pair_alike key_a key_b
    || has_acronym_of key_a words_b
    || has_acronym_of key_b words_a
    || runs_together key_a key_b
    || runs_together key_b key_a

unfoldable pub words_alike : List Bytes → List Bytes → Bool → Bool
words_alike words_a words_b alike_if_unsure =
    if equal (join_words words_a) (join_words words_b)
    then true
    else if is_empty (key_words words_a) || is_empty (key_words words_b)
    then alike_if_unsure
    else keys_look_alike words_a words_b (key_words words_a) (key_words words_b)

unfoldable pub net_names_look_alike : Bytes → Bytes → Bool → Bool
net_names_look_alike a b alike_if_unsure = words_alike (name_words a) (name_words b) alike_if_unsure
