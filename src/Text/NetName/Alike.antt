-- ===== src/Text/NetName/Alike.antt =====
-- `NetNamesLookAlike` and `WordsLookAlike` treat both names in the same way.
use quick_logger.Prelude.{
  ℕ, ◌≤◌, ◌≡◌, refl, ap, sym, ◌∙◌, inl, inr, Bool, true, false, ◌||◌, List, [], ◌∷◌, ◌==◌,
  if◌then◌else◌, leb, arith, Bytes, ==_iff, and-true, equal, equal_iff, length, is_empty,
  Bool-cases,
}
use quick_logger.Text.Typo.Rows.{typo_distance_comm}
use quick_logger.Prelude.Find.{any, starts_with, has_part}
use quick_logger.Text.NetName.{
  is_all_digits, within_typos, near, words_look_alike, any_pair_alike, has_acronym_of,
  runs_together, keys_look_alike, key_words, join_words, words_alike, name_words,
  net_names_look_alike,
}

equal_comm : (a b : Bytes) → equal a b ≡ equal b a
unfolding equal
equal_comm [] [] = refl
equal_comm [] (y ∷ ys) = refl
equal_comm (x ∷ xs) [] = refl
equal_comm (x ∷ xs) (y ∷ ys) = ground (arith, equal_comm xs ys)

||_comm : (a b : Bool) → (a || b) ≡ (b || a)
||_comm a b = ground arith

module _ {A : Type 0} where
  any-false : (ys : List A) → any (λ x. false) ys ≡ false
  unfolding any
  any-false [] = refl
  any-false (y ∷ ys) = any-false ys

  any-or : (p q : A → Bool) (xs : List A) → any (λ x. p x || q x) xs ≡ (any p xs || any q xs)
  unfolding any
  any-or p q [] = refl
  any-or p q (x ∷ xs) = ground (arith, any-or p q xs)

  any-cong : (p q : A → Bool) (xs : List A) → ((x : A) → p x ≡ q x) → any p xs ≡ any q xs
  unfolding any
  any-cong p q [] h = refl
  any-cong p q (x ∷ xs) h = rw (h x, any-cong p q xs h)

  -- Two searches, one inside the other, may change places.
  any_swap :
      (r : A → A → Bool) (xs ys : List A)
      → any (λ x. any (r x) ys) xs ≡ any (λ y. any (λ x. r x y) xs) ys
  unfolding any
  any_swap r [] ys = sym (any-false ys)
  any_swap r (x ∷ xs) ys =
      ap (λ rest. any (r x) ys || rest) (any_swap r xs ys)
      ∙ sym (any-or (r x) (λ y. any (λ x'. r x' y) xs) ys)

within_typos_comm : (size : ℕ) (a b : Bytes) → within_typos size a b ≡ within_typos size b a
unfolding within_typos
within_typos_comm size a b = rw (typo_distance_comm a b)

starts_with-length : (part text : Bytes) → starts_with part text ≡ true → length part ≤ length text
unfolding starts_with
starts_with-length [] text h = omega arith
starts_with-length (c ∷ part) [] h = cc
starts_with-length (c ∷ part) (d ∷ text) h =
    omega (arith, starts_with-length part text (and-true (c == d) (starts_with part text) h).1)

starts_with_whole :
    (part text : Bytes) → starts_with part text ≡ true → length part ≡ length text → part ≡ text
unfolding starts_with
starts_with_whole [] [] h e = refl
starts_with_whole [] (d ∷ text) h e = absurd (omega arith)
starts_with_whole (c ∷ part) [] h e = cc
starts_with_whole (c ∷ part) (d ∷ text) h e = rw (
  (==_iff c d).0 (and-true (c == d) (starts_with part text) h).0,
  starts_with_whole part text (and-true (c == d) (starts_with part text) h).1 (omega arith),
)

has_part-length : (part text : Bytes) → has_part part text ≡ true → length part ≤ length text
unfolding has_part
has_part-length part [] h = starts_with-length part [] h
has_part-length part (d ∷ text) h = elim (Bool-cases (starts_with part (d ∷ text))) [
  | inl e ↦ starts_with-length part (d ∷ text) e
  | inr e ↦ omega (arith, has_part-length part text (rw e at h))
]

has_part_whole :
    (part text : Bytes) → has_part part text ≡ true → length part ≡ length text → part ≡ text
unfolding has_part
has_part_whole part [] h same = starts_with_whole part [] h same
has_part_whole part (d ∷ text) h same = elim (Bool-cases (starts_with part (d ∷ text))) [
  | inl e ↦ starts_with_whole part (d ∷ text) e same
  | inr e ↦ absurd (omega (arith, has_part-length part text (rw e at h)))
]

-- Of two texts of one length that differ, neither is a part of the other.
has_part_other : (a b : Bytes) → equal a b ≡ false → length a ≡ length b → has_part a b ≡ false
has_part_other a b other same = elim (Bool-cases (has_part a b)) [
  | inl e ↦ absurd (clash ((equal_iff a b).1 (has_part_whole a b e same)))
  | inr e ↦ e
]
  where
    clash : equal a b ≡ true → ⊥
    clash h = cc

near_comm : (shorter longer a b : Bytes) → near shorter longer a b ≡ near shorter longer b a
unfolding near
near_comm shorter longer a b = rw (within_typos_comm (length shorter) a b)

near_same : (a b : Bytes) → equal a b ≡ false → length a ≡ length b → near a b a b ≡ near b a b a
unfolding near
near_same a b other same = rw (
  has_part_other a b other same,
  has_part_other b a (equal_comm b a ∙ other) (sym same),
  within_typos_comm (length a) a b,
  same,
)

by_size_comm :
    (a b : Bytes)
    → equal a b ≡ false
    → (if leb (length a) (length b) then near a b a b else near b a a b)
      ≡ (if leb (length b) (length a) then near b a b a else near a b b a)
by_size_comm a b other = elim (Bool-cases (leb (length a) (length b))) [
  | inl le ↦ elim (Bool-cases (leb (length b) (length a))) [
    | inl ge ↦ rw (le, ge) (near_same a b other (antisym (length a) (length b) le ge))
    | inr lt ↦ rw (le, lt) (near_comm a b a b)
  ]
  | inr gt ↦ rw (gt, shorter (length a) (length b) gt) (near_comm b a a b)
]
  where
    antisym : (m n : ℕ) → leb m n ≡ true → leb n m ≡ true → m ≡ n
    antisym m n h h' = ground arith

    shorter : (m n : ℕ) → leb m n ≡ false → leb n m ≡ true
    shorter m n h = ground arith

pub words_look_alike_comm : (a b : Bytes) → words_look_alike a b ≡ words_look_alike b a
unfolding words_look_alike
words_look_alike_comm a b = elim (Bool-cases (equal a b)) [
  | inl e ↦ rw (equal_comm b a, e)
  | inr e ↦ rw (equal_comm b a, e, ||_comm (is_all_digits b) (is_all_digits a), by_size_comm a b e)
]

any_pair_alike_comm :
    (key_a key_b : List Bytes) → any_pair_alike key_a key_b ≡ any_pair_alike key_b key_a
unfolding any_pair_alike
any_pair_alike_comm key_a key_b =
    any_swap words_look_alike key_a key_b
    ∙ any-cong _ _ key_b (λ y. any-cong _ _ key_a (λ x. words_look_alike_comm x y))

or_swap : (p a b r s : Bool) → (p || a || b || r || s) ≡ (p || b || a || s || r)
or_swap p a b r s = ground arith

keys_look_alike_comm :
    (words_a words_b key_a key_b : List Bytes)
    → keys_look_alike words_a words_b key_a key_b ≡ keys_look_alike words_b words_a key_b key_a
unfolding keys_look_alike
keys_look_alike_comm words_a words_b key_a key_b = rw (any_pair_alike_comm key_a key_b) (
    or_swap (any_pair_alike key_b key_a) (has_acronym_of key_a words_b)
      (has_acronym_of key_b words_a) (runs_together key_a key_b) (runs_together key_b key_a))

-- Whether the names of two nets look alike does not depend on which is given first.
pub net_names_look_alike_comm :
    (a b : Bytes) (alike_if_unsure : Bool)
    → net_names_look_alike a b alike_if_unsure ≡ net_names_look_alike b a alike_if_unsure
unfolding net_names_look_alike words_alike
net_names_look_alike_comm a b alike_if_unsure = rw (
  equal_comm (join_words (name_words a)) (join_words (name_words b)),
  ||_comm (is_empty (key_words (name_words a))) (is_empty (key_words (name_words b))),
  keys_look_alike_comm (name_words a) (name_words b) (key_words (name_words a))
      (key_words (name_words b)),
)
