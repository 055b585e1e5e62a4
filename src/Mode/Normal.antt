-- ===== src/Mode/Normal.antt =====
-- What `NormalizeMode` makes of a text.
use mathlib.Core.Path.{subst}
use quick_logger.Prelude.{
  ℕ, ◌≡◌, ◌⊎◌, refl, sym, ap, inl, inr, Bool, true, false, ◌&&◌, List, [], ◌∷◌, ◌++◌, map, and-true,
  arith, if◌then◌else◌, Bool-cases, Bytes, equal, equal_iff, is_alnum, to_upper,
}
use quick_logger.Mode.{
  is_separator, key_from, mode_key, ModeSpelling, spellings, mode_of, normalize_mode,
}

abbrev all_stable : List ModeSpelling → Bool
all_stable [] = true
all_stable (s ∷ rest) = equal (normalize_mode s.mode) s.mode && all_stable rest

all_stable-table : all_stable spellings ≡ true
unfolding normalize_mode mode_key mode_of key_from to_upper is_separator equal
all_stable-table = refl

mode_of-stable :
    (table : List ModeSpelling) (key : Bytes)
    → all_stable table ≡ true
    → (mode_of table key ≡ []) ⊎ (normalize_mode (mode_of table key) ≡ mode_of table key)
unfolding mode_of
mode_of-stable [] key h = inl refl
mode_of-stable (s ∷ rest) key h =
    let both = and-true (equal (normalize_mode s.mode) s.mode) (all_stable rest) h in
    elim (Bool-cases (equal key s.key)) [
      | inl same ↦ rw same (inr ((equal_iff (normalize_mode s.mode) s.mode).0 both.0))
      | inr other ↦ rw other (mode_of-stable rest key both.1)
    ]

normalize_mode-blank : normalize_mode [] ≡ []
unfolding normalize_mode mode_key mode_of key_from equal
normalize_mode-blank = refl

-- Normalizing a mode twice gives what normalizing it once gives.
pub normalize_mode_idem :
    (text : Bytes) → normalize_mode (normalize_mode text) ≡ normalize_mode text
unfolding normalize_mode
normalize_mode_idem text = elim (mode_of-stable spellings (mode_key text) all_stable-table) [
  | inl blank ↦ blank_stable (normalize_mode text) blank
  | inr stable ↦ stable
]
  where
    blank_stable : (mode : Bytes) → mode ≡ [] → normalize_mode mode ≡ mode
    blank_stable mode e = subst (λ m. normalize_mode m ≡ m) (sym e) normalize_mode-blank

to_upper-alnum : (c : ℕ) → is_alnum (to_upper c) ≡ is_alnum c
unfolding to_upper
to_upper-alnum c = ground arith

to_upper_idem : (c : ℕ) → to_upper (to_upper c) ≡ to_upper c
unfolding to_upper
to_upper_idem c = ground arith

to_upper-other : (c : ℕ) → is_alnum c ≡ false → to_upper c ≡ c
unfolding to_upper
to_upper-other c h = ground arith

key_from-map : (acc text : Bytes) → key_from acc (map to_upper text) ≡ key_from acc text
unfolding key_from
key_from-map acc [] = refl
key_from-map acc (c ∷ cs) = elim (Bool-cases (is_alnum c)) [
  | inl alnum ↦
      rw (to_upper-alnum c, alnum, to_upper_idem c) (key_from-map (acc ++ (to_upper c ∷ [])) cs)
  | inr other ↦
      rw (to_upper-other c other, other)
        (ap (λ k. if is_separator c then k else []) (key_from-map acc cs))
]

-- A mode typed in capital letters is normalized as it is in any letters.
pub normalize_mode-map : (text : Bytes) → normalize_mode (map to_upper text) ≡ normalize_mode text
unfolding normalize_mode mode_key
normalize_mode-map text = ap (mode_of spellings) (key_from-map [] text)
