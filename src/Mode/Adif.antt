-- ===== src/Mode/Adif.antt =====
-- What `AdifMode` sets.
use mathlib.Core.Path.{subst}
use quick_logger.Prelude.{
  some_inj, zero, suc, length, get_or, ltb→lt, ◌-◌, ◌+◌, ◌<◌, ℕ, ◌≡◌, refl, ap, inl, inr, List, [],
  ◌∷◌, none, some, arith, Bool-cases, Option-cases, Bytes, codes, equal, equal_iff, get_elem?, ltb,
}
use quick_logger.Mode.{net_modes, net_mode_index, index_from, adif_of, adif_mode, submodes}

get_elem?-lt : (xs : List Bytes) (i : ℕ) (x : Bytes) → get_elem? xs i ≡ some x → i < length xs
get_elem?-lt [] i x e = cc
get_elem?-lt (y ∷ xs) zero x e = omega arith
get_elem?-lt (y ∷ xs) (suc i) x e = omega (arith, get_elem?-lt xs i x e)

get_elem?-get_or :
    (xs : List Bytes) (i : ℕ) (d : Bytes) → i < length xs → get_elem? xs i ≡ some (get_or xs i d)
get_elem?-get_or [] i d h = absurd (omega arith)
get_elem?-get_or (x ∷ xs) zero d h = refl
get_elem?-get_or (x ∷ xs) (suc i) d h = get_elem?-get_or xs i d (omega arith)

index_from_sound :
    (i : ℕ) (modes : List Bytes) (mode : Bytes) (j : ℕ)
    → index_from i modes mode ≡ some j
    → (k : ℕ) × (j ≡ i + k) × (get_elem? modes k ≡ some mode)
unfolding index_from
index_from_sound i [] mode j e = cc
index_from_sound i (m ∷ rest) mode j e = elim (Bool-cases (equal m mode)) [
  | inl same ↦
      let first : some i ≡ some j = rw same at e in
      (0, omega (arith, some_inj first), ap some ((equal_iff m mode).0 same))
  | inr other ↦
      let (k, at_k, here) = index_from_sound (suc i) rest mode j (rw other at e) in
      (suc k, omega (arith, at_k), here)
]

-- What the two texts are: blank for a mode that is none of the list's; the mode and a blank for
-- the analogue modes; DIGITALVOICE and an entry of the submodes for the digital ones.
pub data IsAdif (mode : Bytes) : Bytes × Bytes → Type 0 where
  no_mode : net_mode_index mode ≡ none → IsAdif mode ([], [])
  analogue : (i : ℕ) → i < 4 → get_elem? net_modes i ≡ some mode → IsAdif mode (mode, [])
  digital :
      (i : ℕ) (submode : Bytes)
      → get_elem? net_modes (4 + i) ≡ some mode
      → get_elem? submodes i ≡ some submode
      → IsAdif mode (codes "DIGITALVOICE", submode)

adif_of-IsAdif :
    (mode : Bytes) (i : ℕ) → get_elem? net_modes i ≡ some mode → IsAdif mode (adif_of mode (some i))
unfolding adif_of
adif_of-IsAdif mode i e = elim (Bool-cases (ltb i 4)) [
  | inl early ↦ rw early (analogue i (ltb→lt i 4 early) e)
  | inr late ↦
      let below : i < 7 = get_elem?-lt net_modes i mode e in
      rw late (
        digital (i - 4) (get_or submodes (i - 4) [])
          (subst (λ k. get_elem? net_modes k ≡ some mode) (ground arith) e)
          (get_elem?-get_or submodes (i - 4) [] (ground arith)))
]

-- AdifMode gives two blanks for a text that is none of the modes, the mode itself and a blank for
-- one of the first four, and DIGITALVOICE with the entry of the table of submodes that stands at
-- the mode's place, inside the table's bounds, for one of the others.
pub adif_mode-IsAdif : (mode : Bytes) → IsAdif mode (adif_mode mode)
unfolding adif_mode net_mode_index
adif_mode-IsAdif mode = elim (Option-cases (net_mode_index mode)) [
  | inl e ↦ rw e (unfold adif_of in no_mode e)
  | inr (i, e) ↦
      let (k, at_k, here) = index_from_sound 0 net_modes mode i e in
      rw e (
        adif_of-IsAdif mode i
          (subst (λ j. get_elem? net_modes j ≡ some mode) (omega (arith, at_k)) here))
]
