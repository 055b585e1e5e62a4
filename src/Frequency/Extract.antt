-- ===== src/Frequency/Extract.antt =====
-- src/frequency_rules.cpp: the frequency inside a longer text (`ExtractAmateurFrequency` and
-- `MoveBadFrequencyToComments`).
pub mod Found
use quick_logger.Prelude.{
  ℕ, zero, suc, ◌+◌, ◌≡◌, Bool, true, false, not, ◌&&◌, ◌||◌, [], ◌∷◌, ◌++◌, Option, none, some,
  ◌==◌, if◌then◌else◌, Bytes, codes, is_digit, is_empty, length,
}
use quick_logger.Frequency.{is_amateur_frequency}
use quick_logger.Frequency.Offset.{has_point}

-- The inner loop: digits and the first point, and what is left behind them.
unfoldable pub take_number : Bool → Bytes → Bytes
take_number seen_point [] = []
take_number seen_point (c ∷ cs) =
    if is_digit c || (c == b'.' && not seen_point)
    then c ∷ take_number (seen_point || c == b'.') cs
    else []

unfoldable pub drop_number : Bool → Bytes → Bytes
drop_number seen_point [] = []
drop_number seen_point (c ∷ cs) =
    if is_digit c || (c == b'.' && not seen_point)
    then drop_number (seen_point || c == b'.') cs
    else c ∷ cs

-- `if (number.back() == '.') number.pop_back()`.
unfoldable pub pop_point : Bytes → Bytes
pop_point [] = []
pop_point (c ∷ []) = if c == b'.' then [] else c ∷ []
pop_point (c ∷ d ∷ cs) = c ∷ pop_point (d ∷ cs)

-- The outer loop; `none` is out of fuel. `elim` computes one of the two recursive calls.
unfoldable pub extract_from : ℕ → Bytes → Option Bytes
unfolding has_point is_amateur_frequency take_number drop_number pop_point
extract_from zero text = none
extract_from (suc fuel) [] = some []
extract_from (suc fuel) (c ∷ cs) = elim (is_digit c) [
  | false ↦ extract_from fuel cs
  | true ↦
      let number = pop_point (take_number false (c ∷ cs)) in
      elim (has_point number && is_amateur_frequency number) [
        | true ↦ some number
        | false ↦ extract_from fuel (drop_number false (c ∷ cs))
      ]
]

unfoldable pub or_blank : Option Bytes → Bytes
or_blank none = []
or_blank (some number) = number

-- The fuel is one more than the bytes of the text.
unfoldable pub extract_amateur_frequency : Bytes → Bytes
unfolding extract_from
extract_amateur_frequency text = or_blank (extract_from (suc (length text)) text)

-- The frequency and the comments after the call, and the result.
pub record Moved : Type 0 where
  pub frequency : Bytes
  pub comments : Bytes
  pub moved : Bool

unfoldable pub move_bad_frequency_to_comments : Bytes → Bytes → Moved
move_bad_frequency_to_comments frequency comments =
    if is_empty frequency || is_amateur_frequency frequency
    then record { frequency = frequency; comments = comments; moved = false }
    else record {
      frequency = extract_amateur_frequency frequency;
      comments =
          comments
          ++ ((if is_empty comments then [] else codes "; ") ++ codes "Frequency: ")
          ++ frequency;
      moved = true;
    }
