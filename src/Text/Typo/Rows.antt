-- ===== src/Text/Typo/Rows.antt =====
-- The rows of the table of `TypoDistance` hold the least numbers of edits.
use quick_logger.Prelude.{
  ℕ, suc, ◌+◌, ◌≡◌, refl, ap, sym, ◌∙◌, inl, inr, true, false, List, [], ◌∷◌, Option, none, some,
  ◌==◌, ==_iff, ◌&&◌, arith, Bytes, and-true, Bool-cases,
}
use quick_logger.Text.Typo.{
  substitution_cost, swap_cell, next_above, cell, row_from, last_row, first_row, last_cell,
  typo_distance,
}
use quick_logger.Text.Typo.Edits.{
  Edits, nothing, remove, insert, replace, swap, IsLeast, plain-IsLeast, swap_case, same_head,
  cons-ne-nil, IsLeast-left, IsLeast-right,
}

-- A row of the table, from the column of `ys` on: `rest` is what is left of the second text.
abbrev pub IsRow : Bytes → Bytes → Bytes → List ℕ → Type 0
IsRow xs ys rest [] = ⊥
IsRow xs ys [] (d ∷ []) = IsLeast xs ys d
IsRow xs ys [] (d ∷ e ∷ ds) = ⊥
IsRow xs ys (y ∷ rest) (d ∷ ds) = IsLeast xs ys d × IsRow xs (y ∷ ys) rest ds

-- What is known of the row two above, in the column of `ys`.
abbrev IsAbove : Bytes → Bytes → Bytes → Option (ℕ × List ℕ) → Option ℕ → Type 0
IsAbove xs ys rest none left_letter = xs ≡ []
IsAbove xs ys rest (some (x', cells)) none =
    (ys ≡ []) × ((xs2 : Bytes) × (xs ≡ x' ∷ xs2) × IsRow xs2 [] rest cells)
IsAbove xs ys rest (some (x', cells)) (some y') =
    (xs2 : Bytes) × (ys2 : Bytes) × (xs ≡ x' ∷ xs2)
    × (ys ≡ y' ∷ ys2)
    × IsRow xs2 ys2 (y' ∷ rest) cells

cell-IsLeast :
    (x y : ℕ) (xs ys rest : Bytes) (above : Option (ℕ × List ℕ)) (left_letter : Option ℕ)
    (up left diagonal : ℕ)
    → IsLeast xs (y ∷ ys) up
    → IsLeast (x ∷ xs) ys left
    → IsLeast xs ys diagonal
    → IsAbove xs ys rest above left_letter
    → IsLeast (x ∷ xs) (y ∷ ys) (cell x above left_letter y left diagonal up)
unfolding cell swap_cell
cell-IsLeast x y xs ys rest none left_letter up left diagonal hu hl hd h =
    plain-IsLeast x y xs ys up left diagonal hu hl hd (λ xs' ys' e1 e2. cons-ne-nil y xs xs' h e1)
cell-IsLeast x y xs ys rest (some (x', [])) none up left diagonal hu hl hd h =
    plain-IsLeast x y xs ys up left diagonal hu hl hd (λ xs' ys' e1 e2. cons-ne-nil x ys ys' h.0 e2)
cell-IsLeast x y xs ys rest (some (x', d ∷ ds)) none up left diagonal hu hl hd h =
    plain-IsLeast x y xs ys up left diagonal hu hl hd (λ xs' ys' e1 e2. cons-ne-nil x ys ys' h.0 e2)
cell-IsLeast x y xs ys rest (some (x', [])) (some y') up left diagonal hu hl hd h = absurd h.4
cell-IsLeast x y xs ys rest (some (x', d ∷ ds)) (some y') up left diagonal hu hl hd h =
    elim (Bool-cases ((x == y') && (x' == y))) [
      | inl e ↦ rw e (
          swap_case x y xs ys h.0 h.1 up left diagonal d (crossed_left e) (crossed_right e) hu hl hd
            h.4.0)
      | inr e ↦
          rw e
            (plain-IsLeast x y xs ys up left diagonal hu hl hd (λ xs' ys' e1 e2. uncrossed e e1 e2))
    ]
  where
    crossed_left : ((x == y') && (x' == y)) ≡ true → xs ≡ y ∷ h.0
    crossed_left e = h.2 ∙ ap (λ c. c ∷ h.0) ((==_iff x' y).0 (and-true (x == y') (x' == y) e).1)

    crossed_right : ((x == y') && (x' == y)) ≡ true → ys ≡ x ∷ h.1
    crossed_right e =
        h.3 ∙ ap (λ c. c ∷ h.1) (sym ((==_iff x y').0 (and-true (x == y') (x' == y) e).0))

    uncrossed :
        {xs' ys' : Bytes} → ((x == y') && (x' == y)) ≡ false → xs ≡ y ∷ xs' → ys ≡ x ∷ ys' → ⊥
    uncrossed {xs'} {ys'} e e1 e2 =
        ground (arith, same_head x' y xs h.0 xs' h.2 e1, same_head y' x ys h.1 ys' h.3 e2)

row_first : (xs ys rest : Bytes) (d : ℕ) (ds : List ℕ) → IsRow xs ys rest (d ∷ ds) → IsLeast xs ys d
row_first xs ys [] d [] h = h
row_first xs ys [] d (e ∷ ds) h = absurd h
row_first xs ys (y ∷ rest) d ds h = h.0

next_above-IsAbove :
    (y : ℕ) (xs ys rest : Bytes) (above : Option (ℕ × List ℕ)) (left_letter : Option ℕ)
    → IsAbove xs ys (y ∷ rest) above left_letter
    → IsAbove xs (y ∷ ys) rest (next_above above left_letter) (some y)
unfolding next_above
next_above-IsAbove y xs ys rest none left_letter h = h
next_above-IsAbove y xs ys rest (some (x', [])) none h = absurd h.1.2
next_above-IsAbove y xs ys rest (some (x', d ∷ ds)) none h =
    (h.1.0, [], h.1.1, ap (λ t. y ∷ t) h.0, h.1.2)
next_above-IsAbove y xs ys rest (some (x', [])) (some y') h = absurd h.4
next_above-IsAbove y xs ys rest (some (x', d ∷ ds)) (some y') h =
    (h.0, y' ∷ h.1, h.2, ap (λ t. y ∷ t) h.3, h.4.1)

row_from-IsRow :
    (x : ℕ) (rest xs ys : Bytes) (above : Option (ℕ × List ℕ)) (left_letter : Option ℕ) (left : ℕ)
    (row : List ℕ)
    → IsRow xs ys rest row
    → IsLeast (x ∷ xs) ys left
    → IsAbove xs ys rest above left_letter
    → IsRow (x ∷ xs) ys rest (left ∷ row_from x above left_letter left row rest)
unfolding row_from
row_from-IsRow x [] xs ys above left_letter left [] hr hl ha = hl
row_from-IsRow x [] xs ys above left_letter left (d ∷ []) hr hl ha = hl
row_from-IsRow x [] xs ys above left_letter left (d ∷ e ∷ ds) hr hl ha = absurd hr
row_from-IsRow x (y ∷ rest) xs ys above left_letter left [] hr hl ha = absurd hr
row_from-IsRow x (y ∷ rest) xs ys above left_letter left (d ∷ []) hr hl ha = absurd hr.1
row_from-IsRow x (y ∷ rest) xs ys above left_letter left (d ∷ up ∷ more) hr hl ha = (
  hl,
  row_from-IsRow x rest xs (y ∷ ys) (next_above above left_letter) (some y)
      (cell x above left_letter y left d up) (up ∷ more) hr.1
      (cell-IsLeast x y xs ys (y ∷ rest) above left_letter up left d
        (row_first xs (y ∷ ys) rest up more hr.1) hl hr.0 ha)
      (next_above-IsAbove y xs ys rest above left_letter ha),
)

-- The letters of a text, last first.
unfoldable pub back : Bytes → Bytes → Bytes
back passed [] = passed
back passed (x ∷ xs) = back (x ∷ passed) xs

last_cell-IsLeast :
    (xs ys rest : Bytes) (row : List ℕ)
    → IsRow xs ys rest row
    → IsLeast xs (back ys rest) (last_cell row)
unfolding last_cell back
last_cell-IsLeast xs ys rest [] h = absurd h
last_cell-IsLeast xs ys [] (d ∷ []) h = h
last_cell-IsLeast xs ys [] (d ∷ e ∷ ds) h = absurd h
last_cell-IsLeast xs ys (y ∷ rest) (d ∷ []) h = absurd h.1
last_cell-IsLeast xs ys (y ∷ rest) (d ∷ e ∷ ds) h = last_cell-IsLeast xs (y ∷ ys) rest (e ∷ ds) h.1

first_row-IsRow : (j : ℕ) (ys rest : Bytes) → IsLeast [] ys j → IsRow [] ys rest (first_row j rest)
unfolding first_row
first_row-IsRow j ys [] h = h
first_row-IsRow j ys (y ∷ rest) h =
    (h, first_row-IsRow (suc j) (y ∷ ys) rest (rw (plus_one j) (IsLeast-right y ys j h)))
  where
    plus_one : (n : ℕ) → suc n ≡ n + 1
    plus_one n = omega arith

-- The row two above is that of the letters before the last one, if there is one.
abbrev IsTop : Bytes → Bytes → Option (ℕ × List ℕ) → Type 0
IsTop xs b none = xs ≡ []
IsTop xs b (some (x', cells)) = (xs2 : Bytes) × (xs ≡ x' ∷ xs2) × IsRow xs2 [] b cells

last_row-IsRow :
    (a b xs : Bytes) (i : ℕ) (above : Option (ℕ × List ℕ)) (row : List ℕ)
    → IsLeast xs [] i
    → IsTop xs b above
    → IsRow xs [] b row
    → IsRow (back xs a) [] b (last_row i above row a b)
unfolding last_row back
last_row-IsRow [] b xs i above row hi ha hr = hr
last_row-IsRow (x ∷ a) b xs i above row hi ha hr =
    last_row-IsRow a b (x ∷ xs) (suc i) (some (x, row))
      (suc i ∷ row_from x above none (suc i) row b) next (xs, refl, hr)
      (row_from-IsRow x b xs [] above none (suc i) row hr next (top above ha))
  where
    plus_one : (n : ℕ) → suc n ≡ n + 1
    plus_one n = omega arith

    next : IsLeast (x ∷ xs) [] (suc i)
    next = rw (plus_one i) (IsLeast-left x xs i hi)

    top : (above : Option (ℕ × List ℕ)) → IsTop xs b above → IsAbove xs [] b above none
    top none h = h
    top (some (x', cells)) h = (refl, h)

nothing-IsLeast : IsLeast [] [] 0
nothing-IsLeast = (nothing, λ m e. omega arith)

-- What TypoDistance computes from its table is the least number of edits that lead from the first
-- text to the second, read from the back, where an edit leaves out, puts in or replaces a letter
-- or swaps two neighbours.
pub typo_distance-IsLeast : (a b : Bytes) → IsLeast (back [] a) (back [] b) (typo_distance a b)
unfolding typo_distance
typo_distance-IsLeast a b =
    last_cell-IsLeast (back [] a) [] b (last_row 0 none (first_row 0 b) a b) (
      last_row-IsRow a b [] 0 none (first_row 0 b) nothing-IsLeast refl
        (first_row-IsRow 0 [] b nothing-IsLeast))

cost_comm : (x y : ℕ) → substitution_cost x y ≡ substitution_cost y x
unfolding substitution_cost
cost_comm x y = ground arith

-- Edits can be undone.
undone : {xs ys : Bytes} {n : ℕ} → Edits xs ys n → Edits ys xs n
undone nothing = nothing
undone (remove e) = insert (undone e)
undone (insert e) = remove (undone e)
undone (replace {x = x} {y = y} e) = rw (cost_comm x y) (replace (undone e))
undone (swap e) = swap (undone e)

-- x
pub typo_distance_comm : (a b : Bytes) → typo_distance a b ≡ typo_distance b a
typo_distance_comm a b = omega (
  arith,
  (typo_distance-IsLeast a b).1 _ (undone (typo_distance-IsLeast b a).0),
  (typo_distance-IsLeast b a).1 _ (undone (typo_distance-IsLeast a b).0),
)
