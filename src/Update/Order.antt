-- ===== src/Update/Order.antt =====
-- `IsNewerVersion` as an order, and the range of the parts.
use mathlib.Core.Path.{subst}
use quick_logger.Prelude.{
  ℕ, zero, suc, get_or, not, if◌then◌else◌, ◌⊎◌, ◌↔◌, ◌+◌, ◌-◌, ◌*◌, ◌^◌, ◌≤◌, ◌<◌, ◌≡◌, Bool, true,
  false, ◌&&◌, List, [], ◌∷◌, ◌++◌, Option, none, some, some_inj, arith, ◌==◌, ltb, Bytes, is_digit,
  Bool-cases, inl, inr, All, All-append,
}
use quick_logger.Update.{parts_from, version_parts, newer, newer_parts, is_newer_version}

-- `i` is the first place at which two rows of numbers differ, and the first row is larger there.
abbrev pub IsFirst : (ℕ → ℕ) → (ℕ → ℕ) → ℕ → Type 0
IsFirst f g i = (g i < f i) × ((j : ℕ) → j < i → f j ≡ g j)

-- The parts of a version, one not there counting as 0.
abbrev pub part : List ℕ → ℕ → ℕ
part parts i = get_or parts i 0

-- The first part in which two versions differ is larger in the first.
abbrev pub IsLater : List ℕ → List ℕ → Type 0
IsLater a b = (i : ℕ) × IsFirst (part a) (part b) i

IsFirst-suc :
    (f g : ℕ → ℕ) (i : ℕ)
    → f 0 ≡ g 0
    → IsFirst (λ j. f (suc j)) (λ j. g (suc j)) i
    → IsFirst f g (suc i)
IsFirst-suc f g i e h = (h.0, agree)
  where
    agree : (j : ℕ) → j < suc i → f j ≡ g j
    agree zero m = e
    agree (suc j) m = h.1 j (omega arith)

IsFirst-head : (f g : ℕ → ℕ) → g 0 < f 0 → IsFirst f g 0
IsFirst-head f g h = (h, λ j m. absurd (omega arith))

-- The heads of two versions decide, or the rest of them.
newer_step :
    (x y : ℕ) (rest : Bool)
    → (if not (x == y) then ltb y x else rest) ≡ true
    → (y < x) ⊎ ((x ≡ y) × (rest ≡ true))
newer_step x y rest h = elim (Bool-cases (x == y)) [
  | inl e ↦ inr (ground arith, rw e at h)
  | inr e ↦ inl (ground arith)
]

later_head :
    (f g : ℕ → ℕ)
    → (g 0 < f 0) ⊎ ((f 0 ≡ g 0) × (i : ℕ) × IsFirst (λ j. f (suc j)) (λ j. g (suc j)) i)
    → (i : ℕ) × IsFirst f g i
later_head f g (inl h) = (0, IsFirst-head f g h)
later_head f g (inr (e, i, h)) = (suc i, IsFirst-suc f g i e h)

newer-IsLater : (a b : List ℕ) → newer a b ≡ true → IsLater a b
unfolding newer
newer-IsLater [] [] h = cc
newer-IsLater (x ∷ a) [] h =
    later_head (part (x ∷ a)) (part []) (elim (newer_step x 0 (newer a []) h) [
      | inl m ↦ inl m
      | inr (e, k) ↦ let l = newer-IsLater a [] k in inr (e, l.0, l.1)
    ])
newer-IsLater [] (y ∷ b) h =
    later_head (part []) (part (y ∷ b)) (elim (newer_step 0 y (newer [] b) h) [
      | inl m ↦ inl m
      | inr (e, k) ↦ let l = newer-IsLater [] b k in inr (e, l.0, l.1)
    ])
newer-IsLater (x ∷ a) (y ∷ b) h =
    later_head (part (x ∷ a)) (part (y ∷ b)) (elim (newer_step x y (newer a b) h) [
      | inl m ↦ inl m
      | inr (e, k) ↦ let l = newer-IsLater a b k in inr (e, l.0, l.1)
    ])

IsFirst-newer : (a b : List ℕ) (i : ℕ) → IsFirst (part a) (part b) i → newer a b ≡ true
unfolding newer
IsFirst-newer [] [] i h = absurd (omega (arith, h.0))
IsFirst-newer (x ∷ a) [] zero h = ground (arith, h.0)
IsFirst-newer (x ∷ a) [] (suc i) h =
    ground (arith, h.1 0, IsFirst-newer a [] i (h.0, λ j m. h.1 (suc j) (omega arith)))
IsFirst-newer [] (y ∷ b) zero h = absurd (omega (arith, h.0))
IsFirst-newer [] (y ∷ b) (suc i) h =
    ground (arith, h.1 0, IsFirst-newer [] b i (h.0, λ j m. h.1 (suc j) (omega arith)))
IsFirst-newer (x ∷ a) (y ∷ b) zero h = ground (arith, h.0)
IsFirst-newer (x ∷ a) (y ∷ b) (suc i) h =
    ground (arith, h.1 0, IsFirst-newer a b i (h.0, λ j m. h.1 (suc j) (omega arith)))

-- Both are versions, with parts that stand so.
abbrev pub AreParts : Option (List ℕ) → Option (List ℕ) → (List ℕ → List ℕ → Type 0) → Type 0
AreParts (some a) (some b) P = P a b
AreParts none b P = ⊥
AreParts (some a) none P = ⊥

newer_parts_iff : (a b : Option (List ℕ)) → newer_parts a b ≡ true ↔ AreParts a b IsLater
unfolding newer_parts
newer_parts_iff (some a) (some b) = (newer-IsLater a b, λ (i, h). IsFirst-newer a b i h)
newer_parts_iff none b = (λ h. cc, λ h. elim h [ ])
newer_parts_iff (some a) none = (λ h. cc, λ h. elim h [ ])

-- One version is newer than another exactly when both can be read as versions and, at the first
-- place at which their parts differ, a part that is not there counting as 0, the part of the first
-- is larger.
pub is_newer_version_iff :
    (candidate current : Bytes)
    → is_newer_version candidate current ≡ true
      ↔ AreParts (version_parts candidate) (version_parts current) IsLater
unfolding is_newer_version
is_newer_version_iff candidate current =
    newer_parts_iff (version_parts candidate) (version_parts current)

AreSmall : List ℕ → Type 0
AreSmall = All (λ p. p ≤ 10000009)

parts_from-small :
    (parts : List ℕ) (part : ℕ) (have_digit : Bool) (cs : Bytes) (result : List ℕ)
    → AreSmall parts
    → part ≤ 10000009
    → parts_from parts part have_digit cs ≡ some result
    → AreSmall result
unfolding parts_from AreSmall
parts_from-small parts part false [] result small h e = cc
parts_from-small parts part true [] result small h e =
    subst AreSmall (some_inj e) (All-append _ parts (part ∷ []) small (h, tt))
parts_from-small parts part have_digit (c ∷ cs) result small h e = elim (Bool-cases (is_digit c)) [
  | inl digit ↦ elim (Bool-cases (ltb 1000000 part)) [
    | inl large ↦ absurd (none_some (rw (digit, large) at e))
    | inr fits ↦
        parts_from-small parts (part * 10 + (c - b'0')) true cs result small (ground arith)
          (rw (digit, fits) at e)
  ]
  | inr other ↦ elim (Bool-cases (c == b'.' && have_digit)) [
    | inl point ↦
        parts_from-small (parts ++ part ∷ []) 0 false cs result
          (All-append _ parts (part ∷ []) small (h, tt)) (omega arith) (rw (other, point) at e)
    | inr neither ↦ absurd (none_some (rw (other, neither) at e))
  ]
]
  where
    none_some : none ≡ some result → ⊥
    none_some e = cc

-- The parts of a version that is read are all below 2 ^ 31.
pub version_parts-small :
    (version : Bytes) (parts : List ℕ)
    → version_parts version ≡ some parts
    → All (λ p. p < 2 ^ 31) parts
unfolding version_parts AreSmall
version_parts-small version parts e =
    weaken parts (parts_from-small [] 0 false version parts tt (omega arith) e)
  where
    weaken : (ps : List ℕ) → AreSmall ps → All (λ p. p < 2 ^ 31) ps
    weaken [] h = tt
    weaken (p ∷ ps) h = (omega (arith, h.0), weaken ps h.1)
