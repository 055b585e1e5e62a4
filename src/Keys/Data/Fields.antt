-- ===== src/Keys/Data/Fields.antt =====
-- The data of a key as a list of fields.
use quick_logger.Prelude.{
  ℕ, zero, suc, ◌+◌, ◌*◌, ◌/◌, ◌%◌, ◌^◌, ◌≤◌, ◌<◌, ◌≡◌, ◌↔◌, refl, ap, sym, ◌∙◌, inl, inr, true,
  false, not, ◌&&◌, List, [], ◌∷◌, ◌++◌, ◌==◌, ltb, arith, Bytes, equal, equal_iff, length,
  take-drop, take, drop, All, Bool-cases,
}
use quick_logger.Zmodem.Frame.Position.{IsByte}
use quick_logger.Keys.Data.{field_length, fields_match, key_data_matches_type}
use quick_logger.Keys.Data.Written.{
  field, written, IsShort, field_length_sum, length-take, Matches, fields_match-written,
}

-- What a field that is read tells.
abbrev Read : Bytes → ℕ → Bytes → Type 0
Read type n bytes = (fs : List Bytes) × (bytes ≡ written fs) × All IsShort fs × Matches type n fs

drop-IsByte : (n : ℕ) (xs : Bytes) → All IsByte xs → All IsByte (drop n xs)
drop-IsByte zero xs h = h
drop-IsByte (suc n) [] h = tt
drop-IsByte (suc n) (x ∷ xs) h = drop-IsByte n xs h.1

module _ (type : Bytes) (n w x y z : ℕ) (rest : Bytes) (hw : w < 256) (hx : x < 256) (hy : y < 256)
    (hz : z < 256) where
  abbrev the_size : ℕ
  the_size = field_length w x y z

  size_sum : the_size ≡ w * 2 ^ 24 + x * 2 ^ 16 + y * 2 ^ 8 + z
  size_sum = field_length_sum w x y z hx hy hz

  field_back :
      the_size ≤ length rest → w ∷ x ∷ y ∷ z ∷ take the_size rest ≡ field (take the_size rest)
  field_back fits = rw (
    length-take the_size rest fits,
    first the_size size_sum,
    second the_size size_sum,
    third the_size size_sum,
    fourth the_size size_sum,
  )
    where
      first : (s : ℕ) → s ≡ w * 2 ^ 24 + x * 2 ^ 16 + y * 2 ^ 8 + z → s / 2 ^ 24 % 256 ≡ w
      first s e = omega arith

      second : (s : ℕ) → s ≡ w * 2 ^ 24 + x * 2 ^ 16 + y * 2 ^ 8 + z → s / 2 ^ 16 % 256 ≡ x
      second s e = omega arith

      third : (s : ℕ) → s ≡ w * 2 ^ 24 + x * 2 ^ 16 + y * 2 ^ 8 + z → s / 2 ^ 8 % 256 ≡ y
      third s e = omega arith

      fourth : (s : ℕ) → s ≡ w * 2 ^ 24 + x * 2 ^ 16 + y * 2 ^ 8 + z → s % 256 ≡ z
      fourth s e = omega arith

  with_field :
      the_size ≤ length rest
      → (n ≡ 0 → equal (take the_size rest) type ≡ true)
      → Read type (suc n) (drop the_size rest)
      → Read type n (w ∷ x ∷ y ∷ z ∷ rest)
  with_field fits named r = (
    take the_size rest ∷ r.0,
    ap (λ t. w ∷ x ∷ y ∷ z ∷ t) (sym (take-drop the_size rest))
        ∙ ap (λ t. w ∷ x ∷ y ∷ z ∷ take the_size rest ++ t) r.1
        ∙ ap (λ t. t ++ written r.0) (field_back fits),
    (omega (arith, length-take the_size rest fits, size_sum), r.2),
    matching n named r.3,
  )
    where
      matching :
          (n : ℕ)
          → (n ≡ 0 → equal (take the_size rest) type ≡ true)
          → Matches type (suc n) r.0
          → Matches type n (take the_size rest ∷ r.0)
      matching zero named m = ((equal_iff (take the_size rest) type).0 (named refl), omega arith)
      matching (suc n) named m = omega arith

written-fields_match :
    (fuel : ℕ) (type : Bytes) (n : ℕ) (bytes : Bytes)
    → All IsByte bytes
    → fields_match fuel type n bytes ≡ true
    → Read type n bytes
unfolding fields_match
written-fields_match zero type n bytes b h = cc
written-fields_match (suc fuel) type zero [] b h = cc
written-fields_match (suc fuel) type (suc n) [] b h = ([], refl, tt, ground arith)
written-fields_match (suc fuel) type n (w ∷ []) b h = cc
written-fields_match (suc fuel) type n (w ∷ x ∷ []) b h = cc
written-fields_match (suc fuel) type n (w ∷ x ∷ y ∷ []) b h = cc
written-fields_match (suc fuel) type n (w ∷ x ∷ y ∷ z ∷ rest) b h =
    elim (Bool-cases (ltb (length rest) size)) [
      | inl e ↦ absurd (clash (rw e at h))
      | inr e ↦ elim (Bool-cases ((n == 0) && not (equal (take size rest) type))) [
        | inl e' ↦ absurd (clash (rw (e, e') at h))
        | inr e' ↦
            with_field type n w x y z rest b.0 b.1.0 b.1.1.0 b.1.1.1.0 (enough e) (named n e') (
              written-fields_match fuel type (suc n) (drop size rest)
                (drop-IsByte size rest b.1.1.1.1) (rw (e, e') at h))
      ]
    ]
  where
    size : ℕ
    size = field_length w x y z

    enough : ltb (length rest) size ≡ false → size ≤ length rest
    enough e = ground arith

    named :
        (n : ℕ)
        → ((n == 0) && not (equal (take size rest) type)) ≡ false
        → n ≡ 0
        → equal (take size rest) type ≡ true
    named n e' z = ground arith

    clash : false ≡ true → ⊥
    clash h = cc

-- KeyDataMatchesType accepts some bytes exactly when they are a field that holds the type and one
-- or more other fields, each of less than 2 ^ 32 bytes behind its length in four bytes, and
-- nothing more.
pub key_data_matches_type_iff :
    (bytes type : Bytes)
    → All IsByte bytes
    → (key_data_matches_type bytes type ≡ true) ↔ (
        (others : List Bytes) × (bytes ≡ field type ++ written others)
        × (1 ≤ length others)
        × All IsShort (type ∷ others))
unfolding key_data_matches_type
key_data_matches_type_iff bytes type b = (there, back_again)
  where
    first_is :
        Read type 0 bytes
        → (others : List Bytes) × (bytes ≡ field type ++ written others)
          × (1 ≤ length others)
          × All IsShort (type ∷ others)
    first_is r = by_fields r.0 r.1 r.2 r.3
      where
        by_fields :
            (fs : List Bytes)
            → bytes ≡ written fs
            → All IsShort fs
            → Matches type 0 fs
            → (others : List Bytes) × (bytes ≡ field type ++ written others)
              × (1 ≤ length others)
              × All IsShort (type ∷ others)
        by_fields [] e s m = absurd m
        by_fields (f ∷ fs) e s m =
            (fs, e ∙ ap (λ t. field t ++ written fs) m.0, m.1, (short f m.0 s.0, s.1))
          where
            short : (f : Bytes) → f ≡ type → IsShort f → IsShort type
            short f e h = rw (sym e) h

    there :
        fields_match (length bytes + 1) type 0 bytes ≡ true
        → (others : List Bytes) × (bytes ≡ field type ++ written others)
          × (1 ≤ length others)
          × All IsShort (type ∷ others)
    there h = first_is (written-fields_match (length bytes + 1) type 0 bytes b h)

    back_again :
        ((others : List Bytes) × (bytes ≡ field type ++ written others)
          × (1 ≤ length others)
          × All IsShort (type ∷ others))
        → fields_match (length bytes + 1) type 0 bytes ≡ true
    back_again f = rw f.1 (
        fields_match-written (length (field type ++ written f.0) + 1) type 0 (type ∷ f.0)
          (omega arith) f.3 (refl, f.2))
