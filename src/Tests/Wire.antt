-- ===== src/Tests/Wire.antt =====
-- ZMODEM frames and terminal events.
use quick_logger.Prelude.{
  zero, ◌≡◌, refl, Bool, true, false, [], ◌∷◌, ◌++◌, arith, Bytes, codes, take,
}
use quick_logger.Zmodem.Crc.{
  zmodem_crc16, zmodem_crc32, crc16_from, crc32_from, crc16_update, crc32_update,
}
use quick_logger.Zmodem.Frame.{
  Header, hex_header, hex_trailer, binary_header, data_subpacket, put_hex, put_hex_byte, hex_digit,
  zcrcw, xon,
}
use quick_logger.Zmodem.Reader.{arriving, got}
use quick_logger.Zmodem.HeaderReader.{read_header}
use quick_logger.Zmodem.HeaderReader.RoundTrip.{read_header-hex_header, read_header-binary_header}
use quick_logger.Zmodem.SubpacketReader.{read_subpacket}
use quick_logger.Zmodem.SubpacketReader.RoundTrip.{read_subpacket-data_subpacket}
use quick_logger.Escape.{Events, fed, escape, each_character, uniform_spelling, feed}
use quick_logger.Escape.Conserve.{all_bytes, all_bytes-feed}
use quick_logger.Escape.Keys.{feed_all, feed_all-key, uniform_spelling_idem}

-- A ZFIN header.
abbrev zfin_header : Header
zfin_header = record { type = 8; b0 = 0; b1 = 0; b2 = 0; b3 = 0 }

-- A header whose position has bytes that are escaped.
abbrev position_header : Header
position_header = record { type = 9; b0 = 0x18; b1 = 0x11; b2 = 0x93; b3 = 0xFF }

hex_header-zfin_header :
    take 18 (hex_header zfin_header) ≡ codes "**" ++ 0x18 ∷ codes "B0800000000022d"
unfolding hex_header put_hex put_hex_byte hex_digit zmodem_crc16 crc16_from crc16_update
hex_header-zfin_header = refl

zmodem_crc16-check : zmodem_crc16 (codes "123456789") ≡ 0x31C3
unfolding zmodem_crc16 crc16_from crc16_update
zmodem_crc16-check = refl

zmodem_crc32-check : zmodem_crc32 (codes "123456789") ≡ 0xCBF4_3926
unfolding zmodem_crc32 crc32_from crc32_update
zmodem_crc32-check = refl

read_header-hex_header_example :
    read_header 0 (arriving (codes "rz" ++ hex_header position_header) ++ arriving (codes "x"))
    ≡ (got (position_header, false), arriving (hex_trailer position_header) ++ arriving (codes "x"))
read_header-hex_header_example =
    read_header-hex_header (codes "rz") position_header (arriving (codes "x")) (refl, (refl, tt))
      (omega arith)

read_header-binary_header_example :
    read_header 0
      (arriving (codes "rz" ++ binary_header position_header true false) ++ arriving (codes "x"))
    ≡ (got (position_header, true), arriving (codes "x"))
read_header-binary_header_example =
    read_header-binary_header (codes "rz") position_header true false (arriving (codes "x"))
      (refl, (refl, tt)) (omega arith)

abbrev some_data : Bytes
some_data = 0x18 ∷ 0x0D ∷ 0x7F ∷ 0xFF ∷ []

read_subpacket-data_subpacket_example :
    read_subpacket true (codes "ab") 8 (arriving (data_subpacket some_data zcrcw true true) ++ [])
    ≡ (got (codes "ab" ++ some_data, zcrcw), arriving (xon ∷ []) ++ [])
read_subpacket-data_subpacket_example =
    read_subpacket-data_subpacket (codes "ab") some_data zcrcw 8 true true [] refl
      (omega arith, (omega arith, (omega arith, (omega arith, tt)))) (omega arith)

-- Events with the two marks and their bytes.
record Plain : Type 0 where
  typed : Bool
  bytes : Bytes

abbrev typed_event : Bytes → Plain
typed_event text = record { typed = true; bytes = text }

abbrev key_event : Bytes → Plain
key_event text = record { typed = false; bytes = text }

abbrev is_zero : Bytes → Bool
is_zero (zero ∷ []) = true
is_zero _ = false

abbrev plain_events : Events Plain
plain_events = record {
  is_character = λ e. e.typed;
  input = λ e. e.bytes;
  is_custom = λ e. is_zero e.bytes;
  character = typed_event;
  special = key_event;
  is_character-character = λ text. refl;
  input-character = λ text. refl;
  input-special = λ text. refl;
}

-- Alt and F, which were Esc and F.
all_bytes-feed_example :
    all_bytes plain_events (feed plain_events [] (key_event (27 ∷ codes "f"))) ≡ 27 ∷ codes "f"
all_bytes-feed_example = all_bytes-feed plain_events (key_event (27 ∷ codes "f")) (omega arith)

-- Esc and then F5, whose last three bytes came as characters.
feed_all-key_example :
    feed_all plain_events []
      (key_event (27 ∷ 27 ∷ codes "[") ∷ each_character plain_events (codes "15" ++ b'~' ∷ []))
    ≡ fed plain_events
        (escape plain_events
          ∷ key_event (uniform_spelling (27 ∷ b'[' ∷ (codes "15" ++ b'~' ∷ [])))
          ∷ [])
        []
feed_all-key_example =
    feed_all-key plain_events (key_event (27 ∷ 27 ∷ codes "[")) (codes "15") b'~' refl refl
      (refl, (refl, tt)) refl refl (omega arith)

uniform_spelling_idem_example :
    uniform_spelling (uniform_spelling (27 ∷ codes "OA")) ≡ uniform_spelling (27 ∷ codes "OA")
uniform_spelling_idem_example = uniform_spelling_idem (27 ∷ codes "OA")
