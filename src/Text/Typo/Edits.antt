-- ===== src/Text/Typo/Edits.antt =====
-- Edits as a specification of `TypoDistance`.
use quick_logger.Prelude.{
  ℕ, ◌+◌, min, ◌≤◌, ◌≡◌, refl, ap, sym, ◌∙◌, ◌⊎◌, inl, inr, [], ◌∷◌, arith, Bytes, drop, get_or,
}
use quick_logger.Text.Typo.{substitution_cost}

-- Edits that lead from one text to another, both read from the back, and how many there are: a
-- letter put in or left out, kept or replaced, or two neighbours swapped.
pub data Edits : Bytes → Bytes → ℕ → Type 0 where
  nothing : Edits [] [] 0
  remove : {x : ℕ} {xs ys : Bytes} {n : ℕ} → Edits xs ys n → Edits (x ∷ xs) ys (n + 1)
  insert : {y : ℕ} {xs ys : Bytes} {n : ℕ} → Edits xs ys n → Edits xs (y ∷ ys) (n + 1)
  replace :
      {x y : ℕ} {xs ys : Bytes} {n : ℕ}
      → Edits xs ys n
      → Edits (x ∷ xs) (y ∷ ys) (n + substitution_cost x y)
  swap : {x y : ℕ} {xs ys : Bytes} {n : ℕ} → Edits xs ys n → Edits (x ∷ y ∷ xs) (y ∷ x ∷ ys) (n + 1)

-- The least number of edits.
abbrev pub IsLeast : Bytes → Bytes → ℕ → Type 0
IsLeast xs ys n = Edits xs ys n × ((m : ℕ) → Edits xs ys m → n ≤ m)

left_bound :
    {x : ℕ} {xs : Bytes} (n m : ℕ)
    → ((k : ℕ) → Edits xs [] k → n ≤ k)
    → Edits (x ∷ xs) [] m
    → n + 1 ≤ m
left_bound n m h (remove e) = omega (arith, h _ e)

right_bound :
    {y : ℕ} {ys : Bytes} (n m : ℕ)
    → ((k : ℕ) → Edits [] ys k → n ≤ k)
    → Edits [] (y ∷ ys) m
    → n + 1 ≤ m
right_bound n m h (insert e) = omega (arith, h _ e)

pub IsLeast-left : (x : ℕ) (xs : Bytes) (n : ℕ) → IsLeast xs [] n → IsLeast (x ∷ xs) [] (n + 1)
IsLeast-left x xs n h = (remove h.0, λ m e. left_bound n m h.1 e)

pub IsLeast-right : (y : ℕ) (ys : Bytes) (n : ℕ) → IsLeast [] ys n → IsLeast [] (y ∷ ys) (n + 1)
IsLeast-right y ys n h = (insert h.0, λ m e. right_bound n m h.1 e)

-- What the last edit may be.
both_bound :
    {x y : ℕ} {xs ys : Bytes} (c up left diagonal m : ℕ)
    → ((k : ℕ) → Edits xs (y ∷ ys) k → up ≤ k)
    → ((k : ℕ) → Edits (x ∷ xs) ys k → left ≤ k)
    → ((k : ℕ) → Edits xs ys k → diagonal ≤ k)
    → c ≤ min (min (up + 1) (left + 1)) (diagonal + substitution_cost x y)
    → ((xs' ys' : Bytes) (k : ℕ) → xs ≡ y ∷ xs' → ys ≡ x ∷ ys' → Edits xs' ys' k → c ≤ k + 1)
    → Edits (x ∷ xs) (y ∷ ys) m
    → c ≤ m
both_bound c up left diagonal m hu hl hd hc hs (remove e) = omega (arith, hu _ e)
both_bound c up left diagonal m hu hl hd hc hs (insert e) = omega (arith, hl _ e)
both_bound c up left diagonal m hu hl hd hc hs (replace e) = omega (arith, hd _ e)
both_bound c up left diagonal m hu hl hd hc hs (swap e) = hs _ _ _ refl refl e

min-cases : (a b : ℕ) → (min a b ≡ a) ⊎ (min a b ≡ b)
min-cases a b = omega arith

module _ (x y : ℕ) (xs ys : Bytes) (up left diagonal : ℕ) (hu : IsLeast xs (y ∷ ys) up)
    (hl : IsLeast (x ∷ xs) ys left) (hd : IsLeast xs ys diagonal) where
  abbrev plain_cell : ℕ
  plain_cell = min (min (up + 1) (left + 1)) (diagonal + substitution_cost x y)

  plain_edits : Edits (x ∷ xs) (y ∷ ys) plain_cell
  plain_edits = elim (min-cases (min (up + 1) (left + 1)) (diagonal + substitution_cost x y)) [
    | inr e ↦ rw e (replace hd.0)
    | inl e ↦ rw e (elim (min-cases (up + 1) (left + 1)) [
      | inl e' ↦ rw e' (remove hu.0)
      | inr e' ↦ rw e' (insert hl.0)
    ])
  ]

  -- No swap can be the last edit.
  pub plain-IsLeast :
      ((xs' ys' : Bytes) → xs ≡ y ∷ xs' → ys ≡ x ∷ ys' → ⊥) → IsLeast (x ∷ xs) (y ∷ ys) plain_cell
  plain-IsLeast no_swap = (
    plain_edits,
    λ m e.
        both_bound plain_cell up left diagonal m hu.1 hl.1 hd.1 (omega arith)
          (λ xs' ys' k e1 e2 _. absurd (no_swap xs' ys' e1 e2)) e,
  )

same_edits : (xs xs' ys ys' : Bytes) (k : ℕ) → xs ≡ xs' → ys ≡ ys' → Edits xs' ys' k → Edits xs ys k
same_edits xs xs' ys ys' k e1 e2 e = rw (e1, e2) e

pub same_head : (x y : ℕ) (xs xs' ys : Bytes) → xs ≡ x ∷ xs' → xs ≡ y ∷ ys → x ≡ y
same_head x y xs xs' ys e1 e2 = ap (λ t. get_or t 0 0) (sym e1 ∙ e2)

pub cons-ne-nil : (x : ℕ) (xs ys : Bytes) → xs ≡ [] → xs ≡ x ∷ ys → ⊥
cons-ne-nil x xs ys e1 e2 = cc

-- A swap may be the last edit.
swap-IsLeast :
    (x y : ℕ) (xs ys : Bytes) (up left diagonal r : ℕ)
    → IsLeast (y ∷ xs) (y ∷ x ∷ ys) up
    → IsLeast (x ∷ y ∷ xs) (x ∷ ys) left
    → IsLeast (y ∷ xs) (x ∷ ys) diagonal
    → IsLeast xs ys r
    → IsLeast
        (x ∷ y ∷ xs)
        (y ∷ x ∷ ys)
        (min (min (min (up + 1) (left + 1)) (diagonal + substitution_cost x y)) (r + 1))
swap-IsLeast x y xs ys up left diagonal r hu hl hd hr = (
  made,
  λ m e.
      both_bound (min base (r + 1)) up left diagonal m hu.1 hl.1 hd.1 (omega arith)
        (λ xs' ys' k e1 e2 e. bound xs' ys' k e1 e2 e) e,
)
  where
    base : ℕ
    base = plain_cell x y (y ∷ xs) (x ∷ ys) up left diagonal hu hl hd

    made : Edits (x ∷ y ∷ xs) (y ∷ x ∷ ys) (min base (r + 1))
    made = elim (min-cases base (r + 1)) [
      | inl e ↦ rw e (plain_edits x y (y ∷ xs) (x ∷ ys) up left diagonal hu hl hd)
      | inr e ↦ rw e (swap hr.0)
    ]

    bound :
        (xs' ys' : Bytes) (k : ℕ)
        → (y ∷ xs) ≡ y ∷ xs'
        → (x ∷ ys) ≡ x ∷ ys'
        → Edits xs' ys' k
        → min base (r + 1) ≤ k + 1
    bound xs' ys' k e1 e2 e =
        omega (arith, hr.1 k (same_edits xs xs' ys ys' k (ap (drop 1) e1) (ap (drop 1) e2) e))

pub swap_case :
    (x y : ℕ) (xs ys xs2 ys2 : Bytes) (up left diagonal r : ℕ)
    → xs ≡ y ∷ xs2
    → ys ≡ x ∷ ys2
    → IsLeast xs (y ∷ ys) up
    → IsLeast (x ∷ xs) ys left
    → IsLeast xs ys diagonal
    → IsLeast xs2 ys2 r
    → IsLeast
        (x ∷ xs)
        (y ∷ ys)
        (min (min (min (up + 1) (left + 1)) (diagonal + substitution_cost x y)) (r + 1))
swap_case x y xs ys xs2 ys2 up left diagonal r e1 e2 hu hl hd hr =
    rw (e1, e2)
      (swap-IsLeast x y xs2 ys2 up left diagonal r (rw (sym e1, sym e2) hu) (rw (sym e1, sym e2) hl)
        (rw (sym e1, sym e2) hd) hr)
