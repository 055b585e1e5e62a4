-- ===== src/Frequency.antt =====
-- src/frequency_rules.cpp: frequencies, repeater offsets and CTCSS tones as they are typed.
pub mod Parse
pub mod Offset
pub mod Tone
pub mod Extract
use quick_logger.Prelude.{
  ℕ, zero, suc, ◌+◌, ◌-◌, ◌*◌, ◌/◌, ◌%◌, Bool, true, false, not, ◌&&◌, ◌||◌, List, [], ◌∷◌, ◌++◌,
  Option, none, some, ◌==◌, if◌then◌else◌, ltb, leb, Bytes, codes, is_digit, is_empty, length,
  take_while, drop_while, trim_back, drop,
}
use quick_logger.Prelude.Decimal.{to_string, value_from}

pub record Band : Type 0 where
  pub low : ℕ
  pub high : ℕ

abbrev pub khz : ℕ
khz = 1000

abbrev pub mhz : ℕ
mhz = 1000 * khz

abbrev band : ℕ → ℕ → Band
band low high = record { low = low; high = high }

-- `kBands`.
abbrev pub bands : List Band
bands =
    band 135700 137800
    ∷ band (472 * khz) (479 * khz)
    ∷ band (1800 * khz) (2000 * khz)
    ∷ band (3500 * khz) (4000 * khz)
    ∷ band 5330500 5406500
    ∷ band (7000 * khz) (7300 * khz)
    ∷ band (10100 * khz) (10150 * khz)
    ∷ band (14000 * khz) (14350 * khz)
    ∷ band (18068 * khz) (18168 * khz)
    ∷ band (21000 * khz) (21450 * khz)
    ∷ band (24890 * khz) (24990 * khz)
    ∷ band (28000 * khz) (29700 * khz)
    ∷ band (50 * mhz) (54 * mhz)
    ∷ band (144 * mhz) (148 * mhz)
    ∷ band (219 * mhz) (225 * mhz)
    ∷ band (420 * mhz) (450 * mhz)
    ∷ band (902 * mhz) (928 * mhz)
    ∷ band (1240 * mhz) (1300 * mhz)
    ∷ band (2300 * mhz) (2310 * mhz)
    ∷ band (2390 * mhz) (2450 * mhz)
    ∷ band (3300 * mhz) (3500 * mhz)
    ∷ band (5650 * mhz) (5925 * mhz)
    ∷ band (10000 * mhz) (10500 * mhz)
    ∷ band (24000 * mhz) (24250 * mhz)
    ∷ band (47000 * mhz) (47200 * mhz)
    ∷ band (76000 * mhz) (81000 * mhz)
    ∷ band (122250 * mhz) (123000 * mhz)
    ∷ band (134000 * mhz) (141000 * mhz)
    ∷ band (241000 * mhz) (250000 * mhz)
    ∷ band (275000 * mhz) (3000000 * mhz)
    ∷ []

-- `kCtcssTones`, in tenths of a hertz.
abbrev pub ctcss_tones : List ℕ
ctcss_tones =
    670 ∷ 693 ∷ 719 ∷ 744 ∷ 770 ∷ 797 ∷ 825 ∷ 854 ∷ 885 ∷ 915 ∷ 948 ∷ 974 ∷ 1000 ∷ 1035 ∷ 1072
    ∷ 1109 ∷ 1148 ∷ 1188 ∷ 1230 ∷ 1273 ∷ 1318 ∷ 1365 ∷ 1413 ∷ 1462 ∷ 1500 ∷ 1514 ∷ 1567 ∷ 1598
    ∷ 1622 ∷ 1655 ∷ 1679 ∷ 1713 ∷ 1738 ∷ 1773 ∷ 1799 ∷ 1835 ∷ 1862 ∷ 1899 ∷ 1928 ∷ 1966 ∷ 1995
    ∷ 2035 ∷ 2065 ∷ 2107 ∷ 2181 ∷ 2257 ∷ 2291 ∷ 2336 ∷ 2418 ∷ 2503 ∷ 2541 ∷ []

unfoldable pub all_digits : Bytes → Bool
all_digits [] = true
all_digits (c ∷ cs) = is_digit c && all_digits cs

abbrev pub not_point : ℕ → Bool
not_point c = not (c == b'.')

abbrev pub behind_point : Bytes → Bytes
behind_point [] = []
behind_point (point ∷ rest) = rest

-- The loop over the fraction: each digit is worth a tenth of the one before.
unfoldable pub fraction_from : ℕ → ℕ → Bytes → ℕ
fraction_from place acc [] = acc
fraction_from place acc (c ∷ cs) = fraction_from (place / 10) (acc + (c - b'0') * (place / 10)) cs

unfoldable pub mhz_of : Bytes → Bytes → Option ℕ
unfolding all_digits value_from fraction_from
mhz_of whole fraction =
    if is_empty whole || ltb 7 (length whole) || ltb 6 (length fraction)
    then none
    else if not (all_digits whole) || not (all_digits fraction)
    then none
    else some (value_from 0 whole * mhz + fraction_from mhz 0 fraction)

-- `none` is `return false`.
unfoldable pub parse_mhz : Bytes → Option ℕ
unfolding mhz_of take_while drop_while
parse_mhz text = mhz_of (take_while not_point text) (behind_point (drop_while not_point text))

unfoldable pub in_bands : List Band → ℕ → Bool
in_bands [] hz = false
in_bands (b ∷ bs) hz = (leb b.low hz && leb hz b.high) || in_bands bs hz

abbrev pub hz_in_band : Option ℕ → Bool
hz_in_band none = false
hz_in_band (some hz) = in_bands bands hz

unfoldable pub is_amateur_frequency : Bytes → Bool
unfolding parse_mhz in_bands
is_amateur_frequency text = hz_in_band (parse_mhz text)

abbrev pub is_none {ℓ} : {A : Type ℓ} → Option A → Bool
is_none none = true
is_none (some a) = false

unfoldable pub frequency_problem : Bytes → Bytes
unfolding is_amateur_frequency
frequency_problem text =
    if is_empty text || is_amateur_frequency text
    then []
    else if is_none (parse_mhz text)
    then codes "Frequency must be in MHz, e.g. 146.940, or left blank."
    else text ++ codes " MHz isn't in a US or Canadian amateur band."
