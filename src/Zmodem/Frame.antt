-- ===== src/Zmodem/Frame.antt =====
-- src/zmodem_protocol.cpp, "Writing": headers, ZDLE escapes and data subpackets. What the source
-- appends to `out` is the result here.
pub mod Position
use quick_logger.Prelude.{
  ℕ, ◌+◌, ◌*◌, ◌/◌, ◌%◌, ◌^◌, Bool, true, false, not, ◌&&◌, ◌||◌, [], ◌∷◌, ◌++◌, ◌==◌,
  if◌then◌else◌, bit_and, bit_or, bit_xor, Bytes, codes, get_or,
}
use quick_logger.Zmodem.Crc.{
  crc16_update, crc32_update, crc16_from, crc32_from, crc32_start, invert32, zmodem_crc16,
  zmodem_crc32,
}

abbrev pub zpad : ℕ
zpad = b'*'

abbrev pub zdle : ℕ
zdle = 0x18

abbrev pub xon : ℕ
xon = 0x11

abbrev pub zcrce : ℕ
zcrce = b'h'

abbrev pub zcrcg : ℕ
zcrcg = b'i'

abbrev pub zcrcq : ℕ
zcrcq = b'j'

abbrev pub zcrcw : ℕ
zcrcw = b'k'

abbrev pub zack : ℕ
zack = 3

abbrev pub zfin : ℕ
zfin = 8

-- `struct Header`; `bytes[i]` is `b<i>`.
pub record Header : Type 0 where
  pub type : ℕ
  pub b0 : ℕ
  pub b1 : ℕ
  pub b2 : ℕ
  pub b3 : ℕ

-- `Header::Position`.
unfoldable pub position : Header → ℕ
position h = bit_or (bit_or (bit_or h.b0 (h.b1 * 2 ^ 8)) (h.b2 * 2 ^ 16)) (h.b3 * 2 ^ 24)

-- `x & 0xFF` is the remainder by 256.
unfoldable pub make_position_header : ℕ → ℕ → Header
make_position_header type position = record {
  type = type;
  b0 = position % 256;
  b1 = position / 2 ^ 8 % 256;
  b2 = position / 2 ^ 16 % 256;
  b3 = position / 2 ^ 24 % 256;
}

-- The flag `escape` of `PutEscaped`.
unfoldable pub must_escape : Bool → ℕ → ℕ → Bool
must_escape escape_controls previous byte =
    let plain = bit_and byte 0x7F in
    byte == zdle
    || plain == 0x10
    || plain == 0x11
    || plain == 0x13
    || (escape_controls && bit_and byte 0x60 == 0)
    || (plain == 0x0D && bit_and previous 0x7F == b'@')

-- The byte that `PutEscaped` sends last, which is also the new `*previous`.
unfoldable pub escaped_byte : Bool → ℕ → ℕ
escaped_byte escape byte = if escape then bit_xor byte 0x40 else byte

-- `PutEscaped`: what it appends.
unfoldable pub put_escaped : Bool → ℕ → ℕ → Bytes
unfolding must_escape escaped_byte
put_escaped escape_controls previous byte =
    let escape = must_escape escape_controls previous byte in
    if escape then zdle ∷ escaped_byte escape byte ∷ [] else escaped_byte escape byte ∷ []

-- `PutEscaped` in a loop over `bytes`: what is appended, and `previous` after it.
unfoldable pub put_all : Bool → ℕ → Bytes → Bytes
unfolding put_escaped
put_all escape_controls previous [] = []
put_all escape_controls previous (b ∷ bs) =
    put_escaped escape_controls previous b
    ++ put_all escape_controls (escaped_byte (must_escape escape_controls previous b) b) bs

unfoldable pub previous_after : Bool → ℕ → Bytes → ℕ
unfolding must_escape escaped_byte
previous_after escape_controls previous [] = previous
previous_after escape_controls previous (b ∷ bs) =
    previous_after escape_controls (escaped_byte (must_escape escape_controls previous b) b) bs

unfoldable pub hex_digit : ℕ → ℕ
hex_digit n = get_or (codes "0123456789abcdef") n 0

unfoldable pub put_hex_byte : ℕ → Bytes
unfolding hex_digit
put_hex_byte byte = hex_digit (byte / 2 ^ 4) ∷ hex_digit (byte % 16) ∷ []

unfoldable pub put_hex : Bytes → Bytes
unfolding put_hex_byte
put_hex [] = []
put_hex (b ∷ bs) = put_hex_byte b ++ put_hex bs

-- `body` of `HexHeader` and `BinaryHeader`.
abbrev pub header_body : Header → Bytes
header_body h = h.type % 256 ∷ h.b0 ∷ h.b1 ∷ h.b2 ∷ h.b3 ∷ []

-- What `HexHeader` appends behind the checksum.
unfoldable pub hex_trailer : Header → Bytes
hex_trailer h =
    b'\r' ∷ 0x8A ∷ (if not (h.type == zfin) && not (h.type == zack) then xon ∷ [] else [])

abbrev pub check16 : ℕ → Bytes
check16 crc = crc / 2 ^ 8 % 256 ∷ crc % 256 ∷ []

-- `for (shift = 0; shift < 32; shift += 8)`.
abbrev pub check32 : ℕ → Bytes
check32 crc = crc % 256 ∷ crc / 2 ^ 8 % 256 ∷ crc / 2 ^ 16 % 256 ∷ crc / 2 ^ 24 % 256 ∷ []

unfoldable pub hex_header : Header → Bytes
unfolding put_hex hex_trailer
hex_header h =
    zpad
    ∷ zpad
    ∷ zdle
    ∷ b'B'
    ∷ (put_hex (header_body h)
        ++ (put_hex (check16 (zmodem_crc16 (header_body h))) ++ hex_trailer h))

-- The checksum bytes of a binary header.
unfoldable pub header_check : Bool → Header → Bytes
header_check crc32 h =
    if crc32 then check32 (zmodem_crc32 (header_body h)) else check16 (zmodem_crc16 (header_body h))

unfoldable pub binary_header : Header → Bool → Bool → Bytes
unfolding put_all header_check
binary_header h crc32 escape_controls =
    let body = header_body h in
    zpad
    ∷ zdle
    ∷ (if crc32 then b'C' else b'A')
    ∷ (put_all escape_controls 0 body
        ++ put_all escape_controls (previous_after escape_controls 0 body) (header_check crc32 h))

-- The checksum bytes of a subpacket: over the data and the ending letter.
unfoldable pub subpacket_check : Bool → Bytes → ℕ → Bytes
subpacket_check crc32 block end =
    if crc32
    then check32 (invert32 (crc32_update (crc32_from crc32_start block) end))
    else check16 (crc16_update (crc16_from 0 block) end)

unfoldable pub data_subpacket : Bytes → ℕ → Bool → Bool → Bytes
unfolding put_all previous_after subpacket_check
data_subpacket block end crc32 escape_controls =
    put_all escape_controls 0 block
    ++ (zdle
        ∷ end
        ∷ (put_all escape_controls (previous_after escape_controls 0 block)
              (subpacket_check crc32 block end)
            ++ (if end == zcrcw then xon ∷ [] else [])))
