-- ===== src/Zmodem/HeaderReader.antt =====
-- src/zmodem_protocol.cpp, `ReadHeader`: find the ZDLE after a pad, then read a hex or a binary
-- header and compare its checksum.
pub mod RoundTrip
use quick_logger.Prelude.{
  ℕ, ◌+◌, ◌*◌, ◌%◌, ◌^◌, Bool, true, false, ◌||◌, [], ◌∷◌, some, ◌==◌, if◌then◌else◌, bit_or, Bytes,
  get_or,
}
use quick_logger.Zmodem.Crc.{zmodem_crc16, zmodem_crc32}
use quick_logger.Zmodem.Frame.{Header}
use quick_logger.Zmodem.Reader.{
  M, Result, got, fail, bad, Failure, and_then, ◌>>=◌, raw_byte, find_header, read_all,
  hex_digit_read, body_byte, check_byte,
}

-- `body[i] = digits[i * 2] * 16 + digits[i * 2 + 1]`, cut to a byte.
unfoldable pub hex_body : Bytes → ℕ → ℕ
hex_body digits i = (get_or digits (i * 2) 0 * 16 + get_or digits (i * 2 + 1) 0) % 256

-- The checksum of a hex header, from digits 10 to 13.
unfoldable pub hex_sent : Bytes → ℕ
hex_sent digits =
    bit_or
      (bit_or (bit_or (get_or digits 10 0 * 2 ^ 12) (get_or digits 11 0 * 2 ^ 8))
        (get_or digits 12 0 * 2 ^ 4))
      (get_or digits 13 0)

-- The checksum of a binary header, from its bytes.
unfoldable pub check_sent : Bool → Bytes → ℕ
check_sent crc32 check =
    if crc32
    then bit_or
        (bit_or (bit_or (get_or check 0 0) (get_or check 1 0 * 2 ^ 8)) (get_or check 2 0 * 2 ^ 16))
        (get_or check 3 0 * 2 ^ 24)
    else bit_or (get_or check 0 0 * 2 ^ 8) (get_or check 1 0)

-- The checksum that the receiver computes over `body`.
unfoldable pub body_crc : Bool → Bytes → ℕ
body_crc crc32 body = if crc32 then zmodem_crc32 body else zmodem_crc16 body

-- The end of `ReadHeader`: `kBad` on a wrong checksum, else the header and `*crc32`.
unfoldable pub finish_header : Bool → ℕ → Bytes → M (Header × Bool)
unfolding body_crc
finish_header crc32 sent body s =
    if sent == body_crc crc32 body
    then (
      got (
        record {
          type = get_or body 0 0;
          b0 = get_or body 1 0;
          b1 = get_or body 2 0;
          b2 = get_or body 3 0;
          b3 = get_or body 4 0;
        },
        crc32,
      ),
      s,
    )
    else (fail bad, s)

unfoldable pub read_hex_header : M (Header × Bool)
unfolding hex_body hex_sent finish_header read_all hex_digit_read and_then
read_hex_header = do
  digits ← read_all 14 hex_digit_read
  let body =
      hex_body digits 0
      ∷ hex_body digits 1
      ∷ hex_body digits 2
      ∷ hex_body digits 3
      ∷ hex_body digits 4
      ∷ []
  finish_header false (hex_sent digits) body

unfoldable pub read_binary_header : Bool → M (Header × Bool)
unfolding check_sent finish_header read_all body_byte check_byte and_then
read_binary_header crc32 = do
  body ← read_all 5 body_byte
  check ← read_all (if crc32 then 4 else 2) check_byte
  finish_header crc32 (check_sent crc32 check) body

-- What follows the ZDLE, by the byte behind it.
unfoldable pub read_kind : ℕ → M (Header × Bool)
unfolding read_hex_header read_binary_header
read_kind kind s =
    if kind == b'B'
    then read_hex_header s
    else if kind == b'A' || kind == b'C'
    then read_binary_header (kind == b'C') s
    else (fail bad, s)

unfoldable pub read_header : ℕ → M (Header × Bool)
unfolding find_header raw_byte read_kind and_then
read_header pads = do found ← find_header (some pads); kind ← raw_byte; read_kind kind
