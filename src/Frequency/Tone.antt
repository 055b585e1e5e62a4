-- ===== src/Frequency/Tone.antt =====
-- src/frequency_rules.cpp: CTCSS tones (`ToneTenths` to `NormalizeTone`).
use mathlib.Core.Path.{subst}
use quick_logger.Prelude.{
  ℕ, ◌/◌, ◌%◌, ◌≡◌, refl, ap, inl, inr, Bool, true, false, not, ◌&&◌, ◌||◌, List, [], ◌∷◌, ◌++◌,
  Option, none, some, and-true, ◌==◌, ==_iff, if◌then◌else◌, Bool-cases, Option-cases, ltb, Bytes,
  codes, is_empty, length, take_while, drop_while,
}
use quick_logger.Prelude.Decimal.{to_string, value_from}
use quick_logger.Frequency.{ctcss_tones, all_digits, not_point}

abbrev tenth_part : Bytes → Bytes
tenth_part [] = codes "0"
tenth_part (point ∷ rest) = rest

unfoldable tenths_of : Bytes → Bytes → Option ℕ
unfolding all_digits value_from
tenths_of whole tenth =
    if is_empty whole || ltb 3 (length whole) || not (length tenth == 1)
    then none
    else if not (all_digits (whole ++ tenth))
    then none
    else some (value_from 0 (whole ++ tenth))

-- `none` is the result -1, which is no standard tone.
unfoldable pub tone_tenths : Bytes → Option ℕ
unfolding tenths_of take_while drop_while
tone_tenths tone = tenths_of (take_while not_point tone) (tenth_part (drop_while not_point tone))

unfoldable pub is_standard : List ℕ → ℕ → Bool
is_standard [] tenths = false
is_standard (standard ∷ rest) tenths = standard == tenths || is_standard rest tenths

abbrev tenths_standard : Option ℕ → Bool
tenths_standard none = false
tenths_standard (some tenths) = is_standard ctcss_tones tenths

unfoldable pub is_ctcss_tone : Bytes → Bool
is_ctcss_tone tone = tenths_standard (tone_tenths tone)

unfoldable pub tone_problem : Bytes → Bytes
tone_problem tone =
    if is_empty tone || is_ctcss_tone tone
    then []
    else codes "PL tone must be a standard CTCSS tone, e.g. 100.0 (67.0 to 254.1), or left blank."

unfoldable pub spelling_of : Option ℕ → Bytes
unfolding to_string
spelling_of none = []
spelling_of (some tenths) = to_string (tenths / 10) ++ (b'.' ∷ to_string (tenths % 10))

unfoldable pub normalize_tone : Bytes → Bytes
normalize_tone tone = if not (is_ctcss_tone tone) then tone else spelling_of (tone_tenths tone)

abbrev option_is : ℕ → Option ℕ → Bool
option_is t none = false
option_is t (some u) = u == t

abbrev reads_back : List ℕ → Bool
reads_back [] = true
reads_back (standard ∷ rest) =
    option_is standard (tone_tenths (spelling_of (some standard))) && reads_back rest

option_is-some : (t : ℕ) (o : Option ℕ) → option_is t o ≡ true → o ≡ some t
option_is-some t none h = cc
option_is-some t (some u) h = ap some ((==_iff u t).0 h)

reads_back_table : reads_back ctcss_tones ≡ true
unfolding tone_tenths tenths_of spelling_of all_digits value_from take_while drop_while to_string
reads_back_table = refl

reads_back_sound :
    (tones : List ℕ) (tenths : ℕ)
    → reads_back tones ≡ true
    → is_standard tones tenths ≡ true
    → tone_tenths (spelling_of (some tenths)) ≡ some tenths
unfolding is_standard
reads_back_sound [] tenths table standard = cc
reads_back_sound (t ∷ tones) tenths table standard =
    let row =
      and-true (option_is t (tone_tenths (spelling_of (some t)))) (reads_back tones) table in
    elim (Bool-cases (t == tenths)) [
      | inl same ↦
          subst (λ u. tone_tenths (spelling_of (some u)) ≡ some u) ((==_iff t tenths).0 same)
            (option_is-some t _ row.0)
      | inr other ↦ reads_back_sound tones tenths row.1 (rw other at standard)
    ]

-- A standard tone's spelling is read as that tone.
tone_tenths-spelling_of :
    (tenths : ℕ)
    → is_standard ctcss_tones tenths ≡ true
    → tone_tenths (spelling_of (some tenths)) ≡ some tenths
tone_tenths-spelling_of tenths = reads_back_sound ctcss_tones tenths reads_back_table

-- Normalizing a tone, standard or not, does not change what it is read as.
pub tone_tenths-normalize_tone :
    (tone : Bytes) → tone_tenths (normalize_tone tone) ≡ tone_tenths tone
unfolding normalize_tone is_ctcss_tone
tone_tenths-normalize_tone tone = elim (Option-cases (tone_tenths tone)) [
  | inl e ↦ rw e e
  | inr (t, e) ↦ elim (Bool-cases (is_standard ctcss_tones t)) [
    | inl standard ↦ rw (e, standard) (tone_tenths-spelling_of t standard)
    | inr other ↦ rw (e, other) e
  ]
]
