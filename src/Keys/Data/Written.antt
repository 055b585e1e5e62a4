-- ===== src/Keys/Data/Written.antt =====
-- The fields of a key's data as they are written, and `KeyDataMatchesType` on them.
use quick_logger.Prelude.{
  ℕ, zero, suc, ◌+◌, ◌*◌, ◌/◌, ◌%◌, ◌^◌, ◌≤◌, ◌<◌, ◌≡◌, refl, ap, ◌∙◌, true, false, not, ◌&&◌, List,
  [], ◌∷◌, ◌++◌, ◌==◌, ltb, arith, Bytes, equal, equal_iff, length, length-append, take, drop, All,
}
use quick_logger.Prelude.Bits.{bit_or_above}
use quick_logger.Keys.Data.{field_length, fields_match}

-- A field as it is written: its length, highest byte first, and its bytes.
abbrev pub field : Bytes → Bytes
field bytes =
    length bytes / 2 ^ 24 % 256
    ∷ length bytes / 2 ^ 16 % 256
    ∷ length bytes / 2 ^ 8 % 256
    ∷ length bytes % 256
    ∷ bytes

abbrev pub written : List Bytes → Bytes
written [] = []
written (f ∷ fs) = field f ++ written fs

abbrev pub IsShort : Bytes → Type 0
IsShort bytes = length bytes < 2 ^ 32

pub field_length_sum :
    (a b c d : ℕ)
    → b < 256
    → c < 256
    → d < 256
    → field_length a b c d ≡ a * 2 ^ 24 + b * 2 ^ 16 + c * 2 ^ 8 + d
unfolding field_length
field_length_sum a b c d hb hc hd = rw (
  bit_or_above 24 a (a * 2 ^ 24) (b * 2 ^ 16) refl (omega arith),
  bit_or_above 16 (a * 2 ^ 8 + b) (a * 2 ^ 24 + b * 2 ^ 16) (c * 2 ^ 8) (omega arith) (omega arith),
  bit_or_above 8 (a * 2 ^ 16 + b * 2 ^ 8 + c) (a * 2 ^ 24 + b * 2 ^ 16 + c * 2 ^ 8) d (omega arith)
      (omega arith),
)

-- The four bytes that are written for a length give it back.
field_length_whole :
    (n : ℕ)
    → n < 2 ^ 32
    → field_length (n / 2 ^ 24 % 256) (n / 2 ^ 16 % 256) (n / 2 ^ 8 % 256) (n % 256) ≡ n
field_length_whole n h =
    field_length_sum (n / 2 ^ 24 % 256) (n / 2 ^ 16 % 256) (n / 2 ^ 8 % 256) (n % 256) (omega arith)
      (omega arith) (omega arith)
    ∙ omega arith

take-append : (xs ys : Bytes) → take (length xs) (xs ++ ys) ≡ xs
take-append [] ys = refl
take-append (x ∷ xs) ys = ap (λ t. x ∷ t) (take-append xs ys)

drop-append : (xs ys : Bytes) → drop (length xs) (xs ++ ys) ≡ ys
drop-append [] ys = refl
drop-append (x ∷ xs) ys = drop-append xs ys

pub length-take : (n : ℕ) (xs : Bytes) → n ≤ length xs → length (take n xs) ≡ n
length-take zero xs h = refl
length-take (suc n) [] h = absurd (omega arith)
length-take (suc n) (x ∷ xs) h = omega (arith, length-take n xs (omega arith))

-- The first field is the type, if none was read before, and there are two in all.
abbrev pub Matches : Bytes → ℕ → List Bytes → Type 0
Matches type zero [] = ⊥
Matches type zero (f ∷ fs) = (f ≡ type) × (1 ≤ length fs)
Matches type (suc n) fs = 2 ≤ suc n + length fs

pub fields_match-written :
    (fuel : ℕ) (type : Bytes) (n : ℕ) (fs : List Bytes)
    → length (written fs) < fuel
    → All IsShort fs
    → Matches type n fs
    → fields_match fuel type n (written fs) ≡ true
unfolding fields_match
fields_match-written zero type n fs h s m = absurd (omega arith)
fields_match-written (suc fuel) type zero [] h s m = absurd m
fields_match-written (suc fuel) type (suc n) [] h s m = ground arith
fields_match-written (suc fuel) type n (f ∷ fs) h s m =
    rw
      (
        field_length_whole (length f) s.0,
        fits (length f) (length (f ++ written fs)) (omega (arith, length-append f (written fs))),
        take-append f (written fs),
        drop-append f (written fs),
        not_refused type n f fs m,
      )
      (fields_match-written fuel type (suc n) fs (omega (arith, length-append f (written fs))) s.1
        (further type n f fs m))
  where
    fits : (size left : ℕ) → size ≤ left → ltb left size ≡ false
    fits size left h = ground arith

    not_refused :
        (type : Bytes) (n : ℕ) (f : Bytes) (fs : List Bytes)
        → Matches type n (f ∷ fs)
        → ((n == 0) && not (equal f type)) ≡ false
    not_refused type zero f fs m = ground (arith, (equal_iff f type).1 m.0)
    not_refused type (suc n) f fs m = ground arith

    further :
        (type : Bytes) (n : ℕ) (f : Bytes) (fs : List Bytes)
        → Matches type n (f ∷ fs)
        → Matches type (suc n) fs
    further type zero f fs m = omega arith
    further type (suc n) f fs m = omega arith
