-- ===== src/Zmodem/FileInfo/Names.antt =====
-- The names that `Receiver::ParseFileInformation` gives.
use quick_logger.Prelude.{
  ℕ, false, ◌||◌, [], ◌∷◌, ◌++◌, Option, none, some, ◌≡◌, refl, inl, inr, arith, Bytes, All,
  All-append, Bool-cases, is_empty,
}
use quick_logger.Zmodem.Session.{File}
use quick_logger.Zmodem.FileInfo.{
  split_nul, is_separator, base_from, base_name, is_refused_name, parse_parts,
  parse_file_information,
}

-- Not empty, not a dot or two, and no separator within.
abbrev pub IsFileName : Bytes → Type 0
IsFileName name = (is_refused_name name ≡ false) × All (λ c. is_separator c ≡ false) name

base_from-All :
    (tail name : Bytes)
    → All (λ c. is_separator c ≡ false) tail
    → All (λ c. is_separator c ≡ false) (base_from tail name)
unfolding base_from
base_from-All tail [] h = h
base_from-All tail (c ∷ cs) h = elim (Bool-cases (is_separator c)) [
  | inl e ↦ rw e (base_from-All [] cs tt)
  | inr e ↦ rw e (base_from-All (tail ++ c ∷ []) cs (All-append _ tail (c ∷ []) h (e, tt)))
]

abbrev pub Named : Option (File × ℕ) → Type 0
Named none = Unit
Named (some (file, size)) = IsFileName file.name × (file.contents ≡ [])

parse_parts-Named : (parts : Bytes × Option Bytes) → Named (parse_parts parts)
unfolding parse_parts
parse_parts-Named (name, none) = tt
parse_parts-Named (name, some behind) =
    elim (Bool-cases (is_empty name || is_refused_name (base_name name))) [
      | inl e ↦ rw e tt
      | inr e ↦ rw e ((ground arith, unfold base_name in base_from-All [] name tt), refl)
    ]

pub parse_file_information-Named : (info : Bytes) → Named (parse_file_information info)
unfolding parse_file_information
parse_file_information-Named info = parse_parts-Named (split_nul info)
