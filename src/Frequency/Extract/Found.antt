-- ===== src/Frequency/Extract/Found.antt =====
-- What `ExtractAmateurFrequency` returns.
use mathlib.Core.Path.{subst}
use quick_logger.Prelude.{
  ℕ, zero, suc, ◌≤◌, ◌<◌, ◌≡◌, ◌⊎◌, ◌∙◌, refl, sym, ap, inl, inr, Bool, true, false, not, ◌&&◌,
  ◌||◌, [], ◌∷◌, ◌++◌, append_assoc, Option, some, and-true, arith, ◌==◌, if◌then◌else◌, Bool-cases,
  Bytes, codes, is_digit, is_empty, length,
}
use quick_logger.Frequency.{is_amateur_frequency, frequency_problem}
use quick_logger.Frequency.Offset.{has_point}
use quick_logger.Frequency.Extract.{
  take_number, drop_number, pop_point, extract_from, or_blank, extract_amateur_frequency, Moved,
  move_bad_frequency_to_comments,
}

take_number-drop_number :
    (seen : Bool) (cs : Bytes) → take_number seen cs ++ drop_number seen cs ≡ cs
unfolding take_number drop_number
take_number-drop_number seen [] = refl
take_number-drop_number seen (c ∷ cs) = elim (Bool-cases (is_digit c || (c == b'.' && not seen))) [
  | inl inside ↦ rw inside (ap (λ t. c ∷ t) (take_number-drop_number (seen || c == b'.') cs))
  | inr outside ↦ rw outside
]

length-drop_number : (seen : Bool) (cs : Bytes) → length (drop_number seen cs) ≤ length cs
unfolding drop_number
length-drop_number seen [] = omega arith
length-drop_number seen (c ∷ cs) = ground (arith, length-drop_number (seen || c == b'.') cs)

-- A number that starts with a digit is not empty.
drop_number-digit :
    (c : ℕ) (cs : Bytes) → is_digit c ≡ true → length (drop_number false (c ∷ cs)) ≤ length cs
unfolding drop_number
drop_number-digit c cs h = rw h (length-drop_number (c == b'.') cs)

-- A part of a text, with what stands around it.
abbrev pub IsPart : Bytes → Bytes → Type 0
IsPart part text = (before : Bytes) × (after : Bytes) × (text ≡ before ++ part ++ after)

pop_point-IsPrefix : (cs : Bytes) → (after : Bytes) × (cs ≡ pop_point cs ++ after)
unfolding pop_point
pop_point-IsPrefix [] = ([], refl)
pop_point-IsPrefix (c ∷ []) = elim (Bool-cases (c == b'.')) [
  | inl point ↦ rw point (c ∷ [], refl)
  | inr other ↦ rw other ([], refl)
]
pop_point-IsPrefix (c ∷ d ∷ cs) =
    let rest = pop_point-IsPrefix (d ∷ cs) in (rest.0, ap (λ t. c ∷ t) rest.1)

number-IsPart : (cs : Bytes) → IsPart (pop_point (take_number false cs)) cs
number-IsPart cs =
    let front = pop_point-IsPrefix (take_number false cs) in
    (
      [],
      front.0 ++ drop_number false cs,
      sym (take_number-drop_number false cs)
          ∙ ap (λ t. t ++ drop_number false cs) front.1
          ∙ append_assoc (pop_point (take_number false cs)) front.0 (drop_number false cs),
    )

IsPart-cons : (c : ℕ) (part text : Bytes) → IsPart part text → IsPart part (c ∷ text)
IsPart-cons c part text (before, after, e) = (c ∷ before, after, ap (λ t. c ∷ t) e)

IsPart-append : (xs part text : Bytes) → IsPart part text → IsPart part (xs ++ text)
IsPart-append [] part text h = h
IsPart-append (x ∷ xs) part text h = IsPart-cons x part (xs ++ text) (IsPart-append xs part text h)

-- A number with a point, of an amateur band, that stands in the text.
pub record IsFound (number text : Bytes) : Type 0 where
  pub pointed : has_point number ≡ true
  pub amateur : is_amateur_frequency number ≡ true
  pub part : IsPart number text

-- A search that ends, with nothing or with such a number.
abbrev IsResult : Option Bytes → Bytes → Type 0
IsResult found text =
    (number : Bytes) × (found ≡ some number) × ((number ≡ []) ⊎ IsFound number text)

IsFound-wider :
    (xs number text : Bytes)
    → (number ≡ []) ⊎ IsFound number text
    → (number ≡ []) ⊎ IsFound number (xs ++ text)
IsFound-wider xs number text (inl e) = inl e
IsFound-wider xs number text (inr f) = inr (record {
  pointed = f.pointed;
  amateur = f.amateur;
  part = IsPart-append xs number text f.part;
})

abbrev number_at : ℕ → Bytes → Bytes
number_at c cs = pop_point (take_number false (c ∷ cs))

extract_from-skip :
    (fuel c : ℕ) (cs : Bytes)
    → is_digit c ≡ false
    → extract_from (suc fuel) (c ∷ cs) ≡ extract_from fuel cs
unfolding extract_from
extract_from-skip fuel c cs other = cc

extract_from-found :
    (fuel c : ℕ) (cs : Bytes)
    → is_digit c ≡ true
    → (has_point (number_at c cs) && is_amateur_frequency (number_at c cs)) ≡ true
    → extract_from (suc fuel) (c ∷ cs) ≡ some (number_at c cs)
unfolding extract_from
extract_from-found fuel c cs digit good = cc

extract_from-past :
    (fuel c : ℕ) (cs : Bytes)
    → is_digit c ≡ true
    → (has_point (number_at c cs) && is_amateur_frequency (number_at c cs)) ≡ false
    → extract_from (suc fuel) (c ∷ cs) ≡ extract_from fuel (drop_number false (c ∷ cs))
unfolding extract_from
extract_from-past fuel c cs digit bad = cc

extract_from-IsResult :
    (fuel : ℕ) (text : Bytes) → length text < fuel → IsResult (extract_from fuel text) text
extract_from-IsResult zero text h = absurd (omega arith)
extract_from-IsResult (suc fuel) [] h = ([], unfold extract_from in refl, inl refl)
extract_from-IsResult (suc fuel) (c ∷ cs) h = elim (Bool-cases (is_digit c)) [
  | inl digit ↦
      elim (Bool-cases (has_point (number_at c cs) && is_amateur_frequency (number_at c cs))) [
        | inl good ↦
            let both =
              and-true (has_point (number_at c cs)) (is_amateur_frequency (number_at c cs)) good in
            (
              number_at c cs,
              extract_from-found fuel c cs digit good,
              inr (record { pointed = both.0; amateur = both.1; part = number-IsPart (c ∷ cs) }),
            )
        | inr bad ↦
            let later =
              extract_from-IsResult fuel (drop_number false (c ∷ cs))
                (omega (arith, drop_number-digit c cs digit)) in
            (
              later.0,
              extract_from-past fuel c cs digit bad ∙ later.1,
              subst (λ t. (later.0 ≡ []) ⊎ IsFound later.0 t)
                  (take_number-drop_number false (c ∷ cs))
                  (IsFound-wider (take_number false (c ∷ cs)) later.0 (drop_number false (c ∷ cs))
                    later.2),
            )
      ]
  | inr other ↦
      let later = extract_from-IsResult fuel cs (omega arith) in
      (
        later.0,
        extract_from-skip fuel c cs other ∙ later.1,
        IsFound-wider (c ∷ []) later.0 cs later.2,
      )
]

-- The loops of ExtractAmateurFrequency end within the fuel given, and the result is blank or an
-- amateur frequency with a decimal point that stands in the text.
pub extract_amateur_frequency-IsFound :
    (text : Bytes)
    → (extract_from (suc (length text)) text ≡ some (extract_amateur_frequency text))
      × ((extract_amateur_frequency text ≡ []) ⊎ IsFound (extract_amateur_frequency text) text)
unfolding extract_amateur_frequency or_blank
extract_amateur_frequency-IsFound text =
    let (number, e, f) = extract_from-IsResult (suc (length text)) text (omega arith) in
    rw e (refl, f)

frequency_problem-good :
    (text : Bytes)
    → (is_empty text || is_amateur_frequency text) ≡ true
    → frequency_problem text ≡ []
unfolding frequency_problem
frequency_problem-good text e = rw e

extracted-good :
    (text : Bytes)
    → (is_empty (extract_amateur_frequency text)
        || is_amateur_frequency (extract_amateur_frequency text))
      ≡ true
extracted-good text = elim (extract_amateur_frequency-IsFound text).1 [
  | inl blank ↦ rw blank
  | inr found ↦ rw found.amateur (or_true (is_empty (extract_amateur_frequency text)))
]
  where
    or_true : (b : Bool) → (b || true) ≡ true
    or_true true = refl
    or_true false = refl

-- What the call leaves: everything as it was, or the old frequency at the end of the comments.
abbrev pub IsKept : Bytes → Bytes → Moved → Type 0
IsKept frequency comments after =
    ((after.moved ≡ false) × (after.frequency ≡ frequency) × (after.comments ≡ comments))
    ⊎ ((after.moved ≡ true)
        × (after.frequency ≡ extract_amateur_frequency frequency)
        × ((note : Bytes) × (after.comments ≡ comments ++ note ++ frequency)))

-- After MoveBadFrequencyToComments the frequency has no problem, and either nothing was changed
-- and the result is false, or the result is true, the frequency is the one extracted and the
-- comments are the old ones with a note and the old frequency behind them.
pub move_bad_frequency_to_comments-IsKept :
    (frequency comments : Bytes)
    → (frequency_problem (move_bad_frequency_to_comments frequency comments).frequency ≡ [])
      × IsKept frequency comments (move_bad_frequency_to_comments frequency comments)
unfolding move_bad_frequency_to_comments
move_bad_frequency_to_comments-IsKept frequency comments =
    elim (Bool-cases (is_empty frequency || is_amateur_frequency frequency)) [
      | inl good ↦ rw good (frequency_problem-good frequency good, inl (refl, refl, refl))
      | inr bad ↦ rw bad (
        frequency_problem-good (extract_amateur_frequency frequency) (extracted-good frequency),
        inr (
          refl,
          refl,
          ((if is_empty comments then [] else codes "; ") ++ codes "Frequency: ", refl),
        ),
      )
    ]
