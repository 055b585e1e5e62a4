-- ===== src/Update/Release.antt =====
-- src/update_check.cpp, `ReleaseVersionFromJson`: the version that a reply about a release names.
use quick_logger.Prelude.{◌||◌, [], ◌∷◌, Option, none, some, ◌==◌, if◌then◌else◌, Bytes, codes}
use quick_logger.Prelude.Find.{starts_with}

-- The text from where a part of it first stands; `none` is `std::string::npos`.
unfoldable pub find_part : Bytes → Bytes → Option Bytes
find_part part [] = if starts_with part [] then some [] else none
find_part part (c ∷ text) =
    if starts_with part (c ∷ text) then some (c ∷ text) else find_part part text

-- `json.substr(open + 1, close - open - 1)`, if there is a `close`.
unfoldable pub up_to_quote : Bytes → Option Bytes
up_to_quote [] = none
up_to_quote (c ∷ text) =
    let rest = up_to_quote text in
    if c == b'"' then some [] else (elim rest [ none ↦ none | some tag ↦ some (c ∷ tag) ])

unfoldable pub between_quotes : Option Bytes → Option Bytes
between_quotes none = none
between_quotes (some []) = none
between_quotes (some (_ ∷ text)) = up_to_quote text

unfoldable pub find_in : Bytes → Option Bytes → Option Bytes
find_in part none = none
find_in part (some text) = find_part part text

unfoldable pub without_v : Option Bytes → Bytes
without_v none = []
without_v (some []) = []
without_v (some (c ∷ tag)) = if c == b'v' || c == b'V' then tag else c ∷ tag

unfoldable pub release_version_from_json : Bytes → Bytes
release_version_from_json json = without_v (
    between_quotes
      (find_in (codes "\"") (find_in (codes ":") (find_part (codes "\"tag_name\"") json))))
