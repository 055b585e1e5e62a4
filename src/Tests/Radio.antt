-- ===== src/Tests/Radio.antt =====
-- Frequencies, tones, modes and channels.
use quick_logger.Prelude.{ℕ, ◌≡◌, ◌↔◌, refl, [], ◌∷◌, some, Bytes, codes, take_while, drop_while}
use quick_logger.Prelude.Decimal.{value_from}
use quick_logger.Frequency.{mhz_of, parse_mhz, all_digits, fraction_from, frequency_problem}
use quick_logger.Frequency.Offset.{offset_problem}
use quick_logger.Frequency.Offset.Accepted.{IsOffset, offset_problem-IsOffset}
use quick_logger.Frequency.Extract.{move_bad_frequency_to_comments}
use quick_logger.Frequency.Extract.Found.{IsKept, move_bad_frequency_to_comments-IsKept}
use quick_logger.Gmrs.{GmrsChannel}

two_meters : parse_mhz (codes "146.940") ≡ some 146940000
unfolding parse_mhz mhz_of take_while drop_while all_digits value_from fraction_from
two_meters = refl

offset_problem-IsOffset_example :
    (offset_problem (b'-' ∷ codes "0.6") (codes "146.940") ≡ [])
    ↔ ((hz : ℕ) × IsOffset b'-' (codes "0.6") (codes "146.940") hz)
offset_problem-IsOffset_example = offset_problem-IsOffset b'-' (codes "0.6") (codes "146.940")

abbrev directions : Bytes
directions = codes "Repeater 7, 146.94 MHz"

move_bad_frequency_to_comments-IsKept_example :
    (frequency_problem (move_bad_frequency_to_comments directions (codes "weekly")).frequency ≡ [])
    × IsKept directions
        (codes "weekly")
        (move_bad_frequency_to_comments directions (codes "weekly"))
move_bad_frequency_to_comments-IsKept_example =
    move_bad_frequency_to_comments-IsKept directions (codes "weekly")

abbrev pair_20 : GmrsChannel
pair_20 = record {
  name = codes "20R";
  frequency = codes "462.6750";
  input = codes "467.6750";
  offset = codes "+5";
}
