-- ===== src/Zmodem/HeaderReader/RoundTrip.antt =====
-- `HexHeader` and `BinaryHeader` together with `ReadHeader`.
use quick_logger.Prelude.{
  ℕ, ◌+◌, ◌*◌, ◌/◌, ◌%◌, ◌^◌, ◌<◌, ◌≡◌, ◌∙◌, refl, ap, Bool, true, false, [], ◌∷◌, ◌++◌, some,
  arith, ◌==◌, ==_refl, if◌then◌else◌, bit_or, Bytes, All,
}
use quick_logger.Prelude.Bits.{bit_or_high_low, bit_or_above, bit_or_low_high}
use quick_logger.Zmodem.Crc.{zmodem_crc16, zmodem_crc32}
use quick_logger.Zmodem.Crc.Residue.{zmodem_crc16-lt, zmodem_crc32-lt}
use quick_logger.Zmodem.Frame.{
  Header, zpad, zdle, header_body, hex_trailer, check16, check32, hex_header, header_check,
  binary_header, put_hex, put_all, previous_after,
}
use quick_logger.Zmodem.Frame.Position.{IsByte, IsHeader}
use quick_logger.Zmodem.Reader.{
  byte, Script, arriving, got, and_then, and_then-got, read_all, find_header, body_byte, check_byte,
}
use quick_logger.Zmodem.Reader.Escapes.{
  arriving-append, read_all-put_all, body_byte-plain, check_byte-plain,
}
use quick_logger.Zmodem.Reader.Digits.{nibbles, read_all-put_hex}
use quick_logger.Zmodem.HeaderReader.{
  hex_body, hex_sent, check_sent, body_crc, finish_header, read_hex_header, read_binary_header,
  read_header,
}

-- No pad, so nothing that could begin a header.
abbrev pub IsNoise : Bytes → Type 0
IsNoise = All (λ b. (b == zpad) ≡ false)

-- Whatever else comes first is skipped.
find_header_noise :
    (noise : Bytes) (rest : Script)
    → IsNoise noise
    → find_header (some 0) (arriving noise ++ rest) ≡ find_header (some 0) rest
unfolding find_header
find_header_noise [] rest h = refl
find_header_noise (b ∷ bs) rest h = ground (arith, find_header_noise bs rest h.1)

find_header_pads :
    (rest : Script)
    → (find_header (some 0) (byte zpad ∷ byte zpad ∷ byte zdle ∷ rest) ≡ (got tt, rest))
      × (find_header (some 0) (byte zpad ∷ byte zdle ∷ rest) ≡ (got tt, rest))
unfolding find_header
find_header_pads rest = (refl, refl)

four_digits :
    (a b c d : ℕ)
    → b < 16
    → c < 16
    → d < 16
    → bit_or (bit_or (bit_or (a * 2 ^ 12) (b * 2 ^ 8)) (c * 2 ^ 4)) d
      ≡ a * 2 ^ 12 + b * 2 ^ 8 + c * 2 ^ 4 + d
four_digits a b c d hb hc hd =
    let top = a * 2 ^ 12 + b * 2 ^ 8 in
    rw (bit_or_high_low 12 a (b * 2 ^ 8) (omega arith)) (
      rw (bit_or_above 8 (a * 16 + b) top (c * 2 ^ 4) (omega arith) (omega arith))
        (bit_or_above 4 (a * 256 + b * 16 + c) (top + c * 2 ^ 4) d (omega arith) (omega arith)))

-- The checksums survive the trip.
hex_sent-check16 :
    (crc a b c d e : ℕ) → crc < 2 ^ 16 → hex_sent (nibbles (a ∷ b ∷ c ∷ d ∷ e ∷ check16 crc)) ≡ crc
unfolding hex_sent
hex_sent-check16 crc a b c d e h =
    four_digits (crc / 2 ^ 8 % 256 / 16) (crc / 2 ^ 8 % 256 % 16) (crc % 256 / 16) (crc % 256 % 16)
      (omega arith) (omega arith) (omega arith)
    ∙ omega arith

check_sent-check16 : (crc : ℕ) → crc < 2 ^ 16 → check_sent false (check16 crc) ≡ crc
unfolding check_sent
check_sent-check16 crc h =
    rw (bit_or_high_low 8 (crc / 2 ^ 8 % 256) (crc % 256) (omega arith)) (omega arith)

check_sent-check32 : (crc : ℕ) → crc < 2 ^ 32 → check_sent true (check32 crc) ≡ crc
unfolding check_sent
check_sent-check32 crc h = rw (bit_or_low_high 8 (crc % 256) (crc / 2 ^ 8 % 256) (omega arith)) (
    rw
      (bit_or_low_high 16 (crc % 256 + crc / 2 ^ 8 % 256 * 2 ^ 8) (crc / 2 ^ 16 % 256)
        (omega arith))
      (rw
        (bit_or_low_high 24 (crc % 256 + crc / 2 ^ 8 % 256 * 2 ^ 8 + crc / 2 ^ 16 % 256 * 2 ^ 16)
          (crc / 2 ^ 24 % 256) (omega arith))
        (omega arith)))

-- With the right checksum the header is the one whose body was sent.
finish_header-header_body :
    (h : Header) (crc32 : Bool) (rest : Script)
    → IsHeader h
    → finish_header crc32 (body_crc crc32 (header_body h)) (header_body h) rest
      ≡ (got (h, crc32), rest)
unfolding finish_header
finish_header-header_body h crc32 rest v =
    let e : h.type % 256 ≡ h.type = omega arith in rw (==_refl (body_crc crc32 (header_body h)), e)

hex_body-nibbles : (a b : ℕ) → IsByte a → (a / 16 * 16 + a % 16) % 256 ≡ a
hex_body-nibbles a b h = omega arith

-- `hex_body` puts the digits of the body together again.
hex_body-header_body :
    (h : Header) (check : Bytes)
    → IsHeader h
    → let digits = nibbles (header_body h ++ check) in
      hex_body digits 0
        ∷ hex_body digits 1
        ∷ hex_body digits 2
        ∷ hex_body digits 3
        ∷ hex_body digits 4
        ∷ []
      ≡ header_body h
unfolding hex_body
hex_body-header_body h check v = ground arith

module _ (h : Header) (rest : Script) (v : IsHeader h) where
  read_hex_header-put_hex :
      read_hex_header
        (arriving (put_hex (header_body h ++ check16 (zmodem_crc16 (header_body h)))) ++ rest)
      ≡ (got (h, false), rest)
  unfolding read_hex_header
  read_hex_header-put_hex =
      and_then-got _ _ (
        read_all-put_hex (header_body h ++ check16 (zmodem_crc16 (header_body h))) rest
          (omega arith))
      ∙ ap (λ body. finish_header false (hex_sent digits) body rest)
          (hex_body-header_body h check v)
      ∙ ap (λ sent. finish_header false sent (header_body h) rest)
          (hex_sent-check16 crc (h.type % 256) h.b0 h.b1 h.b2 h.b3
            (zmodem_crc16-lt (header_body h)))
      ∙ finish_header-header_body h false rest v
    where
      crc : ℕ
      crc = zmodem_crc16 (header_body h)

      check : Bytes
      check = check16 crc

      digits : Bytes
      digits = nibbles (header_body h ++ check)

  read_check-put_all :
      (crc32 escape_controls : Bool) (last : ℕ)
      → and_then
          (read_all
            (if crc32 then 4 else 2)
            check_byte
            (arriving (put_all escape_controls last (header_check crc32 h)) ++ rest))
          (λ check. finish_header crc32 (check_sent crc32 check) (header_body h))
        ≡ (got (h, crc32), rest)
  unfolding header_check body_crc
  read_check-put_all true ctl last =
      and_then-got _ _
        (read_all-put_all check_byte check_byte-plain ctl last (check32 crc) rest (omega arith))
      ∙ ap (λ sent. finish_header true sent (header_body h) rest)
          (check_sent-check32 crc (zmodem_crc32-lt (header_body h)))
      ∙ finish_header-header_body h true rest v
    where
      crc : ℕ
      crc = zmodem_crc32 (header_body h)
  read_check-put_all false ctl last =
      and_then-got _ _
        (read_all-put_all check_byte check_byte-plain ctl last (check16 crc) rest (omega arith))
      ∙ ap (λ sent. finish_header false sent (header_body h) rest)
          (check_sent-check16 crc (zmodem_crc16-lt (header_body h)))
      ∙ finish_header-header_body h false rest v
    where
      crc : ℕ
      crc = zmodem_crc16 (header_body h)

  read_binary_header-put_all :
      (crc32 ctl : Bool) (last : ℕ)
      → read_binary_header crc32 (
          arriving (put_all ctl 0 (header_body h) ++ put_all ctl last (header_check crc32 h))
          ++ rest)
        ≡ (got (h, crc32), rest)
  unfolding read_binary_header
  read_binary_header-put_all crc32 ctl last =
      rw
        (arriving-append (put_all ctl 0 (header_body h)) (put_all ctl last (header_check crc32 h))
          rest)
        (and_then-got _ _ (
            read_all-put_all body_byte body_byte-plain ctl 0 (header_body h)
              (arriving (put_all ctl last (header_check crc32 h)) ++ rest) (omega arith))
          ∙ read_check-put_all crc32 ctl last)

-- Reading a header from a channel on which arrive noise without pad bytes and then the hex form of
-- a header whose fields are bytes gives that header, with no long checksum; the form's line end
-- and what follows it stay in the channel.
pub read_header-hex_header :
    (noise : Bytes) (h : Header) (rest : Script)
    → IsNoise noise
    → IsHeader h
    → read_header 0 (arriving (noise ++ hex_header h) ++ rest)
      ≡ (got (h, false), arriving (hex_trailer h) ++ rest)
unfolding read_header hex_header
read_header-hex_header noise h rest n v =
    rw
      (
        arriving-append noise (hex_header h) rest,
        find_header_noise noise (arriving (hex_header h) ++ rest) n,
      )
      (read_hex_header-put_hex h (arriving (hex_trailer h) ++ rest) v)

-- Reading a header from a channel on which arrive noise without pad bytes and then the binary form
-- of a header whose fields are bytes gives that header and which checksum it used, for either
-- checksum and with control characters escaped or not; what follows stays in the channel.
pub read_header-binary_header :
    (noise : Bytes) (h : Header) (crc32 escape_controls : Bool) (rest : Script)
    → IsNoise noise
    → IsHeader h
    → read_header 0 (arriving (noise ++ binary_header h crc32 escape_controls) ++ rest)
      ≡ (got (h, crc32), rest)
unfolding read_header binary_header
read_header-binary_header noise h crc32 ctl rest n v =
    rw
      (
        arriving-append noise (binary_header h crc32 ctl) rest,
        find_header_noise noise (arriving (binary_header h crc32 ctl) ++ rest) n,
      )
      (behind crc32)
  where
    behind :
        (crc32 : Bool)
        → read_header 0 (arriving (binary_header h crc32 ctl) ++ rest) ≡ (got (h, crc32), rest)
    behind true =
        read_binary_header-put_all h rest v true ctl (previous_after ctl 0 (header_body h))
    behind false =
        read_binary_header-put_all h rest v false ctl (previous_after ctl 0 (header_body h))
