-- ===== src/Text/Typo.antt =====
-- src/text_utils.cpp, `TypoDistance`. The table `d` is filled a row at a time: a row is computed from
-- the one above, of which the list given starts at the cell above and to the left, and from the one
-- above that.
pub mod Edits
pub mod Rows
use quick_logger.Prelude.{
  ℕ, zero, suc, ◌+◌, min, List, [], ◌∷◌, Option, none, some, ◌==◌, ◌&&◌, if◌then◌else◌, Bytes,
  length,
}

unfoldable pub substitution_cost : ℕ → ℕ → ℕ
substitution_cost x y = if x == y then 0 else 1

-- "if (i > 1 && j > 1 && a[i - 1] == b[j - 2] && a[i - 2] == b[j - 1])". `above` is `a[i - 2]`, if
-- there is one, with the row two above from the cell two to the left; `left_letter` is `b[j - 2]`.
unfoldable pub swap_cell : ℕ → Option (ℕ × List ℕ) → Option ℕ → ℕ → ℕ → ℕ
swap_cell x (some (x', d ∷ ds)) (some y') y best =
    if (x == y') && (x' == y) then min best (d + 1) else best
swap_cell x _ _ y best = best

-- The row two above, for the next column: its first cell is used from the second column on.
unfoldable pub next_above : Option (ℕ × List ℕ) → Option ℕ → Option (ℕ × List ℕ)
next_above (some (x', d ∷ ds)) (some y') = some (x', ds)
next_above above _ = above

-- `d[i][j]`, from the cells above it and to its left, and the one between.
unfoldable pub cell : ℕ → Option (ℕ × List ℕ) → Option ℕ → ℕ → ℕ → ℕ → ℕ → ℕ
unfolding swap_cell substitution_cost
cell x above left_letter y left diagonal up =
    swap_cell x above left_letter y
      (min (min (up + 1) (left + 1)) (diagonal + substitution_cost x y))

-- The cells of the row of the letter `x` behind `left`.
unfoldable pub row_from : ℕ → Option (ℕ × List ℕ) → Option ℕ → ℕ → List ℕ → Bytes → List ℕ
unfolding cell next_above
row_from x above left_letter left (diagonal ∷ up ∷ more) (y ∷ ys) =
    let d = cell x above left_letter y left diagonal up in
    d ∷ row_from x (next_above above left_letter) (some y) d (up ∷ more) ys
row_from x above left_letter left _ _ = []

-- The rows behind the first, and the last of them; `i` is the row that was filled last.
unfoldable pub last_row : ℕ → Option (ℕ × List ℕ) → List ℕ → Bytes → Bytes → List ℕ
unfolding row_from
last_row i above row [] b = row
last_row i above row (x ∷ xs) b =
    last_row (suc i) (some (x, row)) (suc i ∷ row_from x above none (suc i) row b) xs b

-- `d[0]`.
unfoldable pub first_row : ℕ → Bytes → List ℕ
first_row j [] = j ∷ []
first_row j (y ∷ ys) = j ∷ first_row (suc j) ys

-- `d[a.size()][b.size()]`.
unfoldable pub last_cell : List ℕ → ℕ
last_cell [] = 0
last_cell (d ∷ []) = d
last_cell (d ∷ e ∷ ds) = last_cell (e ∷ ds)

unfoldable pub typo_distance : Bytes → Bytes → ℕ
unfolding last_cell last_row first_row
typo_distance a b = last_cell (last_row 0 none (first_row 0 b) a b)
