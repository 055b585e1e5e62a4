-- ===== src/Frequency/Offset.antt =====
-- src/frequency_rules.cpp, `OffsetProblem`.
pub mod Hint
pub mod Accepted
use quick_logger.Prelude.{
  ℕ, zero, suc, ◌+◌, ◌-◌, ◌*◌, ◌/◌, ◌%◌, Bool, true, false, not, ◌&&◌, ◌||◌, [], ◌∷◌, ◌++◌, Option,
  none, some, ◌==◌, if◌then◌else◌, leb, Bytes, codes, is_empty, trim_back, drop,
}
use quick_logger.Prelude.Decimal.{to_string}
use quick_logger.Frequency.{mhz, bands, in_bands, parse_mhz, is_amateur_frequency}

abbrev pub how_to : Bytes
how_to = codes "Offset is in MHz with a + or - sign, e.g. -0.6 or +5"

unfoldable pub has_point : Bytes → Bool
has_point [] = false
has_point (c ∷ cs) = c == b'.' || has_point cs

-- The decimals of `khz` as MHz, with no trailing zero.
unfoldable pub khz_fraction : ℕ → Bytes
unfolding to_string trim_back
khz_fraction k = trim_back (λ c. c == b'0') (drop 1 (to_string (1000 + k % 1000)))

unfoldable pub with_fraction : Bytes → Bytes → Bytes
with_fraction whole fraction = whole ++ (if is_empty fraction then [] else b'.' ∷ fraction)

-- The local `mhz`: what `khz` is in MHz.
unfoldable pub khz_as_mhz : ℕ → Bytes
unfolding with_fraction khz_fraction
khz_as_mhz k = with_fraction (to_string (k / 1000)) (khz_fraction k)

-- An offset of 100 MHz or more: most likely typed in kHz.
unfoldable pub too_large : ℕ → Bytes → ℕ → Bytes
unfolding has_point khz_as_mhz
too_large sign digits hz =
    if has_point digits
    then how_to ++ codes "."
    else how_to
      ++ (codes ": for "
          ++ (digits ++ (codes " kHz, type " ++ (sign ∷ khz_as_mhz (hz / mhz) ++ codes "."))))

-- Is `frequency_hz + (sign is '-' ? -hz : hz)` in a band? No band reaches down to 0, so a negative
-- sum is in none.
unfoldable pub listens_in_band : ℕ → ℕ → ℕ → Bool
unfolding in_bands
listens_in_band sign frequency_hz hz =
    if sign == b'-'
    then leb hz frequency_hz && in_bands bands (frequency_hz - hz)
    else in_bands bands (frequency_hz + hz)

unfoldable pub outside : Bytes → Bytes → Bytes
outside offset frequency =
    frequency ++ (codes " MHz " ++ (offset ++ codes " is outside the amateur bands."))

-- The last test, where the frequency is an amateur one, read as `frequency_hz`.
unfoldable pub listen_problem : ℕ → Bytes → ℕ → Bytes → Option ℕ → Bytes
unfolding listens_in_band outside
listen_problem sign digits hz frequency none = []
listen_problem sign digits hz frequency (some frequency_hz) =
    if listens_in_band sign frequency_hz hz then [] else outside (sign ∷ digits) frequency

unfoldable pub size_problem : ℕ → Bytes → ℕ → Bytes → Bytes
unfolding too_large listen_problem
size_problem sign digits hz frequency =
    if hz == 0
    then codes "Offset can't be zero; leave it blank for none."
    else if leb (100 * mhz) hz
    then too_large sign digits hz
    else if is_amateur_frequency frequency
    then listen_problem sign digits hz frequency (parse_mhz frequency)
    else []

unfoldable pub signed_problem : ℕ → Bytes → Option ℕ → Bytes → Bytes
unfolding size_problem
signed_problem sign digits none frequency = how_to ++ codes ", or left blank."
signed_problem sign digits (some hz) frequency =
    if not (sign == b'+') && not (sign == b'-')
    then how_to ++ codes ", or left blank."
    else size_problem sign digits hz frequency

unfoldable pub offset_problem : Bytes → Bytes → Bytes
unfolding signed_problem
offset_problem [] frequency = []
offset_problem (sign ∷ digits) frequency = signed_problem sign digits (parse_mhz digits) frequency
