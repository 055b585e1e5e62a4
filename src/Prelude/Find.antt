-- ===== src/Prelude/Find.antt =====
-- Searches: for an entry of a list, and for a text inside another.
use mathlib.Core.Bool.{Bool, true, false, ◌&&◌, ◌||◌}
use mathlib.Core.List.{List, [], ◌∷◌}
use quick_logger.Prelude.Tests.{◌==◌}
use quick_logger.Prelude.Ascii.{Bytes}

-- `for (x : list) if (test(x)) return true; return false;`
unfoldable pub any {ℓ} : {A : Type ℓ} → (A → Bool) → List A → Bool
any test [] = false
any test (x ∷ xs) = test x || any test xs

-- `text.find(part) != std::string::npos`.
unfoldable pub starts_with : Bytes → Bytes → Bool
starts_with [] text = true
starts_with (c ∷ part) [] = false
starts_with (c ∷ part) (d ∷ text) = c == d && starts_with part text

unfoldable pub has_part : Bytes → Bytes → Bool
has_part part [] = starts_with part []
has_part part (d ∷ text) = starts_with part (d ∷ text) || has_part part text
