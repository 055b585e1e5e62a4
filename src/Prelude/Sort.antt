-- ===== src/Prelude/Sort.antt =====
-- `std::sort` of the standard library, by a comparison: an insertion sort stands for it.
use mathlib.Core.List.{Perm}
use mathlib.Core.List.Perm
use quick_logger.Prelude.{
  ◌≡◌, inl, inr, Bool, true, false, List, [], ◌∷◌, if◌then◌else◌, Bool-cases, All,
}

module _ {A : Type 0} (before : A → A → Bool) where
  unfoldable pub insert_by : A → List A → List A
  insert_by a [] = a ∷ []
  insert_by a (b ∷ l) = if before b a then b ∷ insert_by a l else a ∷ b ∷ l

  unfoldable pub sort_by : List A → List A
  unfolding insert_by
  sort_by [] = []
  sort_by (a ∷ l) = insert_by a (sort_by l)

  insert_by-Perm : (a : A) (l : List A) → Perm (insert_by a l) (a ∷ l)
  unfolding insert_by
  insert_by-Perm a [] = Perm.refl _
  insert_by-Perm a (b ∷ l) = elim (Bool-cases (before b a)) [
    | inl later ↦ rw later (Perm.trans (Perm.cons b (insert_by-Perm a l)) (Perm.swap a b l))
    | inr here ↦ rw here (Perm.refl _)
  ]

  -- Sorting keeps each element, as often as it stands there.
  pub sort_by-Perm : (l : List A) → Perm (sort_by l) l
  unfolding sort_by
  sort_by-Perm [] = Perm.refl _
  sort_by-Perm (a ∷ l) = Perm.trans (insert_by-Perm a (sort_by l)) (Perm.cons a (sort_by-Perm l))

  -- What holds of an element and of all others holds of them with the element put in.
  pub insert_by-All : (P : A → Type 0) (a : A) (l : List A) → P a → All P l → All P (insert_by a l)
  unfolding insert_by
  insert_by-All P a [] h k = (h, tt)
  insert_by-All P a (b ∷ l) h k = elim (Bool-cases (before b a)) [
    | inl later ↦ rw later (k.0, insert_by-All P a l h k.1)
    | inr here ↦ rw here (h, k)
  ]

  pub sort_by-All : (P : A → Type 0) (l : List A) → All P l → All P (sort_by l)
  unfolding sort_by
  sort_by-All P [] h = tt
  sort_by-All P (a ∷ l) h = insert_by-All P a (sort_by l) h.0 (sort_by-All P l h.1)

-- Each element stands in order with all behind it.
abbrev pub IsSorted : {A : Type 0} → (A → A → Type 0) → List A → Type 0
IsSorted InOrder [] = Unit
IsSorted InOrder (a ∷ l) = All (InOrder a) l × IsSorted InOrder l

module _ {A : Type 0} (before : A → A → Bool) (InOrder : A → A → Type 0)
    (below : (a b : A) → before b a ≡ true → InOrder b a)
    (above : (a b : A) → before b a ≡ false → InOrder a b)
    (in_order_trans : (a b c : A) → InOrder a b → InOrder b c → InOrder a c) where
  All-behind : (a b : A) (l : List A) → InOrder a b → All (InOrder b) l → All (InOrder a) l
  All-behind a b [] h k = tt
  All-behind a b (c ∷ l) h k = (in_order_trans a b c h k.0, All-behind a b l h k.1)

  insert_by-IsSorted :
      (a : A) (l : List A) → IsSorted InOrder l → IsSorted InOrder (insert_by before a l)
  unfolding insert_by
  insert_by-IsSorted a [] h = (tt, tt)
  insert_by-IsSorted a (b ∷ l) h = elim (Bool-cases (before b a)) [
    | inl later ↦
        rw later
          (insert_by-All before (InOrder b) a l (below a b later) h.0, insert_by-IsSorted a l h.1)
    | inr here ↦ rw here ((above a b here, All-behind a b l (above a b here) h.0), h)
  ]

  -- Sorting by a comparison that decides an order puts the elements in that order.
  pub sort_by-IsSorted : (l : List A) → IsSorted InOrder (sort_by before l)
  unfolding sort_by
  sort_by-IsSorted [] = tt
  sort_by-IsSorted (a ∷ l) = insert_by-IsSorted a (sort_by before l) (sort_by-IsSorted l)
