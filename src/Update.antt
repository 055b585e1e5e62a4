-- ===== src/Update.antt =====
-- src/update_check.cpp: which of two version numbers is newer.
pub mod Order
pub mod Release
use quick_logger.Prelude.{
  ℕ, zero, suc, ◌+◌, ◌-◌, ◌*◌, Bool, true, false, not, ◌&&◌, List, [], ◌∷◌, ◌++◌, Option, none,
  some, ◌==◌, if◌then◌else◌, ltb, Bytes, is_digit,
}

-- The loop of `VersionParts` with its locals; `none` is `return false`.
unfoldable pub parts_from : List ℕ → ℕ → Bool → Bytes → Option (List ℕ)
parts_from parts part have_digit [] = if not have_digit then none else some (parts ++ part ∷ [])
parts_from parts part have_digit (c ∷ cs) =
    if is_digit c
    then (if ltb 1000000 part then none else parts_from parts (part * 10 + (c - b'0')) true cs)
    else if c == b'.' && have_digit
    then parts_from (parts ++ part ∷ []) 0 false cs
    else none

unfoldable pub version_parts : Bytes → Option (List ℕ)
version_parts version = parts_from [] 0 false version

-- The loop of `IsNewerVersion`: a part that is not there counts as 0.
unfoldable pub newer : List ℕ → List ℕ → Bool
newer [] [] = false
newer (x ∷ a) [] = if not (x == 0) then ltb 0 x else newer a []
newer [] (y ∷ b) = if not (0 == y) then ltb y 0 else newer [] b
newer (x ∷ a) (y ∷ b) = if not (x == y) then ltb y x else newer a b

unfoldable pub newer_parts : Option (List ℕ) → Option (List ℕ) → Bool
newer_parts (some a) (some b) = newer a b
newer_parts none b = false
newer_parts (some a) none = false

unfoldable pub is_newer_version : Bytes → Bytes → Bool
is_newer_version candidate current = newer_parts (version_parts candidate) (version_parts current)
