-- ===== src/Callsign/Shape.antt =====
-- `SplitCallsign` and the shape of a call sign: letters, digits and letters.
use mathlib.Core.Path.{subst}
use quick_logger.Prelude.{
  ◌≡◌, ◌∙◌, refl, sym, ap, ◌↔◌, inl, inr, true, false, not, ◌&&◌, [], ◌∷◌, ◌++◌, some, some_inj,
  and-true, not-true, arith, Bool-cases, is_upper, is_digit, Bytes, is_empty, All, take_while,
  drop_while, take_while-All, take_while-drop_while, take_while-append, begins, append-nil,
}
use quick_logger.Callsign.{CallsignParts, parts_of, unread, split_callsign}

abbrev pub IsLetters : Bytes → Type 0
IsLetters = All (λ c. is_upper c ≡ true)

abbrev pub IsDigits : Bytes → Type 0
IsDigits = All (λ c. is_digit c ≡ true)

-- `text` is the three parts in a row.
pub record IsShape (text : Bytes) (parts : CallsignParts) : Type 0 where
  pub joined : text ≡ parts.letters ++ (parts.digits ++ parts.suffix)
  pub letters_class : IsLetters parts.letters
  pub digits_class : IsDigits parts.digits
  pub suffix_class : IsLetters parts.suffix
  pub letters_full : is_empty parts.letters ≡ false
  pub digits_full : is_empty parts.digits ≡ false

is_empty-nil : (xs : Bytes) → is_empty xs ≡ true → xs ≡ []
is_empty-nil [] h = refl
is_empty-nil (x ∷ xs) h = cc

parts_of-joined :
    (text : Bytes)
    → unread text ≡ []
    → text ≡ (parts_of text).letters ++ ((parts_of text).digits ++ (parts_of text).suffix)
unfolding parts_of unread
parts_of-joined text h = sym (
    ap (λ x. take_while is_upper text ++ (take_while is_digit after ++ x)) last
    ∙ ap (◌++◌ (take_while is_upper text)) (take_while-drop_while is_digit after)
    ∙ take_while-drop_while is_upper text)
  where
    after : Bytes
    after = drop_while is_upper text

    last : take_while is_upper (drop_while is_digit after) ≡ drop_while is_digit after
    last =
        sym (append-nil _)
        ∙ ap (◌++◌ (take_while is_upper (drop_while is_digit after))) (sym h)
        ∙ take_while-drop_while is_upper (drop_while is_digit after)

parts_of-IsShape :
    (text : Bytes)
    → (is_empty (unread text)
        && not (is_empty (parts_of text).letters)
        && not (is_empty (parts_of text).digits))
      ≡ true
    → IsShape text (parts_of text)
parts_of-IsShape text h =
    let split = and-true _ (not (is_empty (parts_of text).digits)) h in
    let front =
      and-true (is_empty (unread text)) (not (is_empty (parts_of text).letters)) split.0 in
    record {
      joined = parts_of-joined text (is_empty-nil _ front.0);
      letters_class = unfold parts_of in take_while-All is_upper text;
      digits_class = unfold parts_of in take_while-All is_digit (drop_while is_upper text);
      suffix_class =
          unfold parts_of in
          take_while-All is_upper (drop_while is_digit (drop_while is_upper text));
      letters_full = not-true _ front.1;
      digits_full = not-true _ split.1;
    }

split_callsign_sound :
    (text : Bytes) (parts : CallsignParts) → split_callsign text ≡ some parts → IsShape text parts
unfolding split_callsign
split_callsign_sound text parts e =
    elim (Bool-cases (
      is_empty (unread text)
      && not (is_empty (parts_of text).letters)
      && not (is_empty (parts_of text).digits))) [
        | inr other ↦ cc (rw other at e)
        | inl whole ↦ subst (IsShape text) (some_inj (rw whole at e)) (parts_of-IsShape text whole)
      ]

begins-digits :
    (ds suffix : Bytes) → IsDigits ds → is_empty ds ≡ false → begins is_upper (ds ++ suffix) ≡ false
begins-digits [] suffix h full = cc
begins-digits (d ∷ ds) suffix h full = ground arith

begins-suffix : (suffix : Bytes) → IsLetters suffix → begins is_digit suffix ≡ false
begins-suffix [] h = refl
begins-suffix (c ∷ cs) h = ground arith

module _ (parts : CallsignParts)
    (h : IsShape (parts.letters ++ (parts.digits ++ parts.suffix)) parts) where
  whole : Bytes
  whole = parts.letters ++ (parts.digits ++ parts.suffix)

  after_letters :
      (take_while is_upper whole ≡ parts.letters)
      × (drop_while is_upper whole ≡ parts.digits ++ parts.suffix)
  unfolding whole
  after_letters =
      take_while-append is_upper parts.letters (parts.digits ++ parts.suffix) h.letters_class
        (begins-digits parts.digits parts.suffix h.digits_class h.digits_full)

  after_digits :
      (take_while is_digit (parts.digits ++ parts.suffix) ≡ parts.digits)
      × (drop_while is_digit (parts.digits ++ parts.suffix) ≡ parts.suffix)
  after_digits =
      take_while-append is_digit parts.digits parts.suffix h.digits_class
        (begins-suffix parts.suffix h.suffix_class)

  after_suffix :
      (take_while is_upper parts.suffix ≡ parts.suffix) × (drop_while is_upper parts.suffix ≡ [])
  after_suffix =
      subst (λ s. (take_while is_upper s ≡ parts.suffix) × (drop_while is_upper s ≡ []))
        (append-nil parts.suffix) (take_while-append is_upper parts.suffix [] h.suffix_class refl)

  split_callsign-whole : split_callsign whole ≡ some parts
  unfolding split_callsign parts_of unread
  split_callsign-whole = rw (
    after_letters.0, after_letters.1, after_digits.0, after_digits.1, after_suffix.0,
    after_suffix.1, h.letters_full, h.digits_full,
  )

-- SplitCallsign succeeds with some parts exactly when the text is those parts in a row: capital
-- letters, digits and capital letters, the first two not blank.
pub split_callsign_iff :
    (text : Bytes) (parts : CallsignParts) → (split_callsign text ≡ some parts) ↔ IsShape text parts
split_callsign_iff text parts = (
  split_callsign_sound text parts,
  λ h.
      subst (λ t. IsShape t parts → split_callsign t ≡ some parts) (sym h.joined)
        (λ k. unfold whole in split_callsign-whole parts k) h,
)
