-- ===== src/Zmodem/Crc/Residue.antt =====
-- The 16-bit checksum of data followed by its own checksum, and the ranges of both checksums.
use quick_logger.Prelude.{
  ℕ, zero, suc, ◌+◌, ◌*◌, ◌/◌, ◌%◌, ◌^◌, ◌<◌, ◌≡◌, ◌∙◌, refl, ap, [], ◌∷◌, ◌++◌, true, arith, ◌==◌,
  ==_iff, all_below, all_below_sound, bit_xor, Bytes,
}
use quick_logger.Prelude.Bits.{bit_xor_clear, bit_xor_self}
use quick_logger.Zmodem.Crc.{
  repeat, crc16_bit, crc16_update, crc16_from, crc16_from-append, zmodem_crc16, zmodem_crc32,
}

crc16_bit-lt : (crc : ℕ) → crc16_bit crc < 2 ^ 16
unfolding crc16_bit
crc16_bit-lt crc = omega arith

repeat-crc16_bit-lt : (n crc : ℕ) → crc < 2 ^ 16 → repeat n crc16_bit crc < 2 ^ 16
unfolding repeat
repeat-crc16_bit-lt zero crc h = h
repeat-crc16_bit-lt (suc n) crc h = repeat-crc16_bit-lt n (crc16_bit crc) (crc16_bit-lt crc)

pub crc16_update-lt : (crc byte : ℕ) → crc16_update crc byte < 2 ^ 16
unfolding crc16_update
crc16_update-lt crc byte = repeat-crc16_bit-lt 8 (bit_xor crc (byte * 2 ^ 8) % 2 ^ 16) (omega arith)

crc16_from-lt : (crc : ℕ) (bs : Bytes) → crc < 2 ^ 16 → crc16_from crc bs < 2 ^ 16
unfolding crc16_from
crc16_from-lt crc [] h = h
crc16_from-lt crc (b ∷ bs) h = crc16_from-lt (crc16_update crc b) bs (crc16_update-lt crc b)

pub zmodem_crc16-lt : (bs : Bytes) → zmodem_crc16 bs < 2 ^ 16
unfolding zmodem_crc16
zmodem_crc16-lt bs = crc16_from-lt 0 bs (omega arith)

pub zmodem_crc32-lt : (bs : Bytes) → zmodem_crc32 bs < 2 ^ 32
unfolding zmodem_crc32
zmodem_crc32-lt bs = omega arith

-- Eight shifts move a low byte to the top and meet no set top bit.
shift_byte : (b : ℕ) → b < 256 → repeat 8 crc16_bit b ≡ b * 256
shift_byte b h =
    (==_iff _ _).0 (all_below_sound 256 (λ x. repeat 8 crc16_bit x == x * 256) b table h)
  where
    table : all_below 256 (λ x. repeat 8 crc16_bit x == x * 256) ≡ true
    table = unfold all_below repeat crc16_bit in refl

crc16_update_high : (crc : ℕ) → crc < 2 ^ 16 → crc16_update crc (crc / 256) ≡ crc % 256 * 256
crc16_update_high crc h = unfold crc16_update in rw cleared (shift_byte (crc % 256) (omega arith))
  where
    cleared : bit_xor crc (crc / 256 * 2 ^ 8) % 2 ^ 16 ≡ crc % 256
    cleared = omega (arith, split, bit_xor_clear 8 (crc / 256) (crc % 256) (omega arith))
      where
        split :
            bit_xor crc (crc / 256 * 2 ^ 8)
            ≡ bit_xor (crc / 256 * 2 ^ 8 + crc % 256) (crc / 256 * 2 ^ 8)
        split = ap (λ (x : ℕ). bit_xor x (crc / 256 * 2 ^ 8)) (omega arith)

crc16_update_low : (b : ℕ) → crc16_update (b * 256) b ≡ 0
unfolding crc16_update
crc16_update_low b = rw cleared (unfold repeat crc16_bit in refl)
  where
    cleared : bit_xor (b * 256) (b * 2 ^ 8) % 2 ^ 16 ≡ 0
    cleared = rw (bit_xor_self (b * 256))

-- Data followed by its 16-bit checksum, high byte first, has checksum 0.
pub crc16_residue :
    (bs : Bytes) (crc : ℕ)
    → zmodem_crc16 bs ≡ crc
    → zmodem_crc16 (bs ++ crc / 256 ∷ crc % 256 ∷ []) ≡ 0
unfolding zmodem_crc16 crc16_from
crc16_residue bs crc e =
    crc16_from-append 0 bs (crc / 256 ∷ crc % 256 ∷ [])
    ∙ rw (e, crc16_update_high crc (rw (← e) (zmodem_crc16-lt bs)), crc16_update_low (crc % 256))
