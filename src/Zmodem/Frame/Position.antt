-- ===== src/Zmodem/Frame/Position.antt =====
-- `MakePositionHeader` and `Header::Position` together.
use quick_logger.Prelude.{ℕ, ◌+◌, ◌*◌, ◌^◌, ◌<◌, ◌≡◌, ◌∙◌, arith}
use quick_logger.Prelude.Bits.{bit_or_low_high}
use quick_logger.Zmodem.Frame.{Header, position, make_position_header}

abbrev pub IsByte : ℕ → Type 0
IsByte b = b < 256

abbrev pub IsHeader : Header → Type 0
IsHeader h = (h.type < 256) × (h.b0 < 256) × (h.b1 < 256) × (h.b2 < 256) × (h.b3 < 256)

-- The four bytes as a number, lowest first.
position_sum :
    (h : Header) → IsHeader h → position h ≡ h.b0 + h.b1 * 2 ^ 8 + h.b2 * 2 ^ 16 + h.b3 * 2 ^ 24
unfolding position
position_sum h v = rw (bit_or_low_high 8 h.b0 h.b1 (omega arith)) (
    rw (bit_or_low_high 16 (h.b0 + h.b1 * 2 ^ 8) h.b2 (omega arith))
      (bit_or_low_high 24 (h.b0 + h.b1 * 2 ^ 8 + h.b2 * 2 ^ 16) h.b3 (omega arith)))

pub make_position_header-IsHeader :
    (type pos : ℕ) → type < 256 → IsHeader (make_position_header type pos)
unfolding make_position_header
make_position_header-IsHeader type pos h = omega arith

-- The position of the header made for a type below 256 and a position below 2 ^ 32 is that
-- position.
pub position-make_position_header :
    (type pos : ℕ) → type < 256 → pos < 2 ^ 32 → position (make_position_header type pos) ≡ pos
position-make_position_header type pos ht hp =
    position_sum (make_position_header type pos) (make_position_header-IsHeader type pos ht)
    ∙ unfold make_position_header in omega arith
