-- ===== src/Prelude/Split.antt =====
-- Texts taken apart: at each separator, and after the longest run of a class.
use Prim.Native.Nat.{ℕ}
use mathlib.Core.Path.{◌≡◌, refl, ap, ◌∙◌}
use mathlib.Core.Logic.{◌≢◌, inl, inr}
use mathlib.Core.Bool.{Bool, true, false}
use mathlib.Core.List.{List, [], ◌∷◌, ◌++◌}
use quick_logger.Prelude.Tests.{◌==◌, ==_iff, if◌then◌else◌, Bool-cases}
use quick_logger.Prelude.Lists.{All}
use quick_logger.Prelude.Ascii.{Bytes}
use native.Mathlib.Omega.{arith}

unfoldable pub push_char : ℕ → List Bytes → List Bytes
push_char c [] = (c ∷ []) ∷ []
push_char c (part ∷ parts) = (c ∷ part) ∷ parts

-- The pieces of a text between the bytes `sep`: one more than there are of those.
unfoldable pub split_on : ℕ → Bytes → List Bytes
unfolding push_char
split_on sep [] = [] ∷ []
split_on sep (c ∷ cs) = if c == sep then [] ∷ split_on sep cs else push_char c (split_on sep cs)

-- A text with no separator is one piece.
pub split_on_free :
    (sep : ℕ) (text : Bytes) → All (λ c. (c == sep) ≡ false) text → split_on sep text ≡ text ∷ []
unfolding split_on
split_on_free sep [] h = refl
split_on_free sep (c ∷ cs) h = rw (h.0, split_on_free sep cs h.1)

-- The piece before a separator.
pub split_on-append :
    (sep : ℕ) (text rest : Bytes)
    → All (λ c. (c == sep) ≡ false) text
    → split_on sep (text ++ sep ∷ rest) ≡ text ∷ split_on sep rest
unfolding split_on
split_on-append sep [] rest h = rw (==_iff sep sep).1 refl
split_on-append sep (c ∷ text) rest h = rw (h.0, split_on-append sep text rest h.1)

push_char-All :
    (P : ℕ → Type 0) (c : ℕ) (parts : List Bytes)
    → P c
    → All (All P) parts
    → All (All P) (push_char c parts)
unfolding push_char
push_char-All P c [] h ps = ((h, tt), tt)
push_char-All P c (p ∷ ps) h (hp, hs) = ((h, hp), hs)

-- No piece holds the separator.
pub split_on-All :
    (sep : ℕ) (text : Bytes) → All (All (λ c. (c == sep) ≡ false)) (split_on sep text)
unfolding split_on
split_on-All sep [] = (tt, tt)
split_on-All sep (c ∷ cs) = elim (Bool-cases (c == sep)) [
  | inl hit ↦ rw hit (tt, split_on-All sep cs)
  | inr other ↦ rw other (push_char-All _ c (split_on sep cs) other (split_on-All sep cs))
]

-- The pieces with `sep` between them.
unfoldable pub join_on : ℕ → List Bytes → Bytes
join_on sep [] = []
join_on sep (p ∷ []) = p
join_on sep (p ∷ q ∷ rest) = p ++ sep ∷ join_on sep (q ∷ rest)

split_on-ne-nil : (sep : ℕ) (text : Bytes) → split_on sep text ≢ []
unfolding split_on push_char
split_on-ne-nil sep [] e = cc
split_on-ne-nil sep (c ∷ cs) e = ground arith

join_on-nil :
    (sep : ℕ) (parts : List Bytes) → parts ≢ [] → join_on sep ([] ∷ parts) ≡ sep ∷ join_on sep parts
unfolding join_on
join_on-nil sep [] h = absurd (h refl)
join_on-nil sep (p ∷ ps) h = refl

join_on-push_char :
    (sep c : ℕ) (parts : List Bytes)
    → parts ≢ []
    → join_on sep (push_char c parts) ≡ c ∷ join_on sep parts
unfolding join_on push_char
join_on-push_char sep c [] h = absurd (h refl)
join_on-push_char sep c (p ∷ []) h = refl
join_on-push_char sep c (p ∷ q ∷ rest) h = refl

-- The pieces, joined again, are the text.
pub join_on-split_on : (sep : ℕ) (text : Bytes) → join_on sep (split_on sep text) ≡ text
unfolding split_on
join_on-split_on sep [] = unfold join_on in refl
join_on-split_on sep (c ∷ cs) = elim (Bool-cases (c == sep)) [
  | inl hit ↦ rw hit (
      join_on-nil sep (split_on sep cs) (split_on-ne-nil sep cs)
      ∙ rw (join_on-split_on sep cs, (==_iff c sep).0 hit))
  | inr other ↦ rw other (
      join_on-push_char sep c (split_on sep cs) (split_on-ne-nil sep cs)
      ∙ rw (join_on-split_on sep cs))
]

-- The longest beginning of bytes of the class `p`, and what follows it.
unfoldable pub take_while : (ℕ → Bool) → Bytes → Bytes
take_while p [] = []
take_while p (c ∷ cs) = if p c then c ∷ take_while p cs else []

unfoldable pub drop_while : (ℕ → Bool) → Bytes → Bytes
drop_while p [] = []
drop_while p (c ∷ cs) = if p c then drop_while p cs else c ∷ cs

pub take_while-All : (p : ℕ → Bool) (cs : Bytes) → All (λ c. p c ≡ true) (take_while p cs)
unfolding take_while
take_while-All p [] = tt
take_while-All p (c ∷ cs) = elim (Bool-cases (p c)) [
  | inl hit ↦ rw hit (hit, take_while-All p cs)
  | inr miss ↦ rw miss tt
]

pub take_while-drop_while : (p : ℕ → Bool) (cs : Bytes) → take_while p cs ++ drop_while p cs ≡ cs
unfolding take_while drop_while
take_while-drop_while p [] = refl
take_while-drop_while p (c ∷ cs) = elim (Bool-cases (p c)) [
  | inl hit ↦ rw (hit, take_while-drop_while p cs)
  | inr miss ↦ rw miss
]

-- Does the text begin with a byte of the class?
abbrev pub begins : (ℕ → Bool) → Bytes → Bool
begins p [] = false
begins p (c ∷ cs) = p c

-- A run of the class, and then a byte outside it or the end, is taken apart there.
pub take_while-append :
    (p : ℕ → Bool) (xs ys : Bytes)
    → All (λ c. p c ≡ true) xs
    → begins p ys ≡ false
    → (take_while p (xs ++ ys) ≡ xs) × (drop_while p (xs ++ ys) ≡ ys)
unfolding take_while drop_while
take_while-append p [] [] h e = (refl, refl)
take_while-append p [] (y ∷ ys) h e = (rw e, rw e)
take_while-append p (x ∷ xs) ys h e =
    let rest = take_while-append p xs ys h.1 e in (rw h.0 (ap (◌∷◌ x) rest.0), rw h.0 rest.1)
