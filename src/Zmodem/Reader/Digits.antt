-- ===== src/Zmodem/Reader/Digits.antt =====
-- `PutHexByte` and the hex loop of `ReadHeader` together.
use quick_logger.Prelude.{
  ℕ, ◌/◌, ◌%◌, ◌<◌, ◌≡◌, ◌∙◌, refl, ap, Bool, true, false, none, [], ◌∷◌, ◌++◌, some, arith, ◌==◌,
  all_below, all_below_sound, Bytes, length, All,
}
use quick_logger.Zmodem.Frame.{hex_digit, put_hex_byte, put_hex}
use quick_logger.Zmodem.Frame.Position.{IsByte}
use quick_logger.Zmodem.Reader.{
  byte, Script, arriving, hex_value, got, and_then-got, read_all, raw_byte, digit_of,
  hex_digit_read,
}
use quick_logger.Zmodem.Reader.Escapes.{arriving-append}

-- The two digits of each byte, high first.
abbrev pub nibbles : Bytes → Bytes
nibbles [] = []
nibbles (b ∷ bs) = b / 16 ∷ b % 16 ∷ nibbles bs

abbrev digit_well : ℕ → Bool
digit_well d = elim (hex_value (hex_digit d)) [ none ↦ false | some v ↦ v == d ]

hex_table : all_below 16 digit_well ≡ true
unfolding all_below hex_value hex_digit
hex_table = refl

hex_value-hex_digit : (d : ℕ) → d < 16 → hex_value (hex_digit d) ≡ some d
hex_value-hex_digit d h = ground (arith, all_below_sound 16 digit_well d hex_table h)

hex_digit_read-hex_digit :
    (d : ℕ) (s : Script) → d < 16 → hex_digit_read (byte (hex_digit d) ∷ s) ≡ (got d, s)
unfolding hex_digit_read
hex_digit_read-hex_digit d s h =
    and_then-got (raw_byte (byte (hex_digit d) ∷ s)) (λ c. digit_of (hex_value c)) refl
    ∙ ap (λ v. digit_of v s) (hex_value-hex_digit d h)

pub read_all-put_hex :
    (bs : Bytes) (rest : Script)
    → All IsByte bs
    → read_all (length (nibbles bs)) hex_digit_read (arriving (put_hex bs) ++ rest)
      ≡ (got (nibbles bs), rest)
unfolding read_all put_hex
read_all-put_hex [] rest h = refl
read_all-put_hex (b ∷ bs) rest h = rw (arriving-append (put_hex_byte b) (put_hex bs) rest) (
    unfold put_hex_byte in
    and_then-got _ _ (hex_digit_read-hex_digit (b / 16) _ (omega arith))
    ∙ and_then-got _ _ (
        and_then-got _ _ (hex_digit_read-hex_digit (b % 16) _ (omega arith))
        ∙ and_then-got _ _ (read_all-put_hex bs rest h.1)))
