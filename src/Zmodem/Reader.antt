-- ===== src/Zmodem/Reader.antt =====
-- src/zmodem_protocol.cpp, "Reading". A channel is the list of what its reads give: a byte, a
-- timeout, or the end; past the list every read finds the channel closed.
pub mod Escapes
pub mod Digits
use quick_logger.Prelude.{
  ℕ, zero, suc, ◌+◌, ◌-◌, ◌*◌, ◌/◌, ◌%◌, ◌^◌, Bool, true, false, not, ◌&&◌, ◌||◌, List, [], ◌∷◌,
  ◌++◌, map, Option, none, some, ◌≡◌, refl, ◌==◌, if◌then◌else◌, ltb, leb, bit_and, bit_or, bit_xor,
  Bytes, get_or, length, take, within, is_digit,
}
use quick_logger.Zmodem.Crc.{
  crc16_update, crc32_update, crc32_start, invert32, zmodem_crc16, zmodem_crc32,
}
use quick_logger.Zmodem.Frame.{Header, zpad, zdle, zcrce, zcrcg, zcrcq, zcrcw}

-- One result of `ZmodemChannel::ReadByte`.
pub data Read : Type 0 where
  byte : ℕ → Read
  timeout : Read
  closed : Read

abbrev pub Script : Type 0
Script = List Read

-- The bytes of a text, as they arrive.
abbrev pub arriving : Bytes → Script
arriving bs = map byte bs

-- What `Reader::Unescaped` returns.
pub data Unescaped : Type 0 where
  plain : ℕ → Unescaped
  frame_end : ℕ → Unescaped
  got_cancel : Unescaped
  no_byte : Unescaped
  gone : Unescaped

-- The line's own flow control.
abbrev pub is_flow : ℕ → Bool
is_flow b = b == 0x11 || b == 0x13 || b == 0x91 || b == 0x93

-- Where `Unescaped` goes on a byte: round its outer loop, round its inner loop (after a ZDLE) with
-- the count of `cancels`, or back to the caller.
pub data Turn : Type 0 where
  outer : Turn
  inner : ℕ → Turn
  give : Unescaped → Turn

unfoldable pub outer_turn : ℕ → ℕ → Turn
outer_turn cancels b =
    if is_flow b then outer else if not (b == zdle) then give (plain b) else inner (cancels + 1)

unfoldable pub inner_turn : ℕ → ℕ → Turn
inner_turn cancels b =
    if b == zdle
    then (if leb 5 (cancels + 1) then give got_cancel else inner (cancels + 1))
    else if b == zcrce || b == zcrcg || b == zcrcq || b == zcrcw
    then give (frame_end b)
    else if b == b'l'
    then give (plain 0x7F)
    else if b == b'm'
    then give (plain 0xFF)
    else if bit_and b 0x60 == 0x40
    then give (plain (bit_xor b 0x40))
    else outer

-- The loop stands at `at`. `cancels` is 0 whenever the outer loop starts a round.
unfoldable pub scan : Turn → Script → Unescaped × Script
unfolding outer_turn inner_turn
scan (give r) script = (r, script)
scan outer [] = (gone, [])
scan outer (byte b ∷ s) = scan (outer_turn 0 b) s
scan outer (timeout ∷ s) = (no_byte, s)
scan outer (closed ∷ s) = (gone, s)
scan (inner n) [] = (gone, [])
scan (inner n) (byte b ∷ s) = scan (inner_turn n b) s
scan (inner n) (timeout ∷ s) = (no_byte, s)
scan (inner n) (closed ∷ s) = (gone, s)

abbrev pub unescaped : Script → Unescaped × Script
unescaped = scan outer

-- `Reader::Raw`.
abbrev pub raw : Script → Read × Script
raw [] = (closed, [])
raw (r ∷ s) = (r, s)

unfoldable pub hex_value : ℕ → Option ℕ
hex_value c =
    if is_digit c
    then some (c - b'0')
    else if within b'a' b'f' c
    then some (c - b'a' + 10)
    else if within b'A' b'F' c
    then some (c - b'A' + 10)
    else none

-- `HeaderResult` and `SubpacketResult`, but for `kGot`.
pub data Failure : Type 0 where
  timed_out gone_away cancelled bad too_big : Failure

pub data Result {ℓ} (A : Type ℓ) : Type ℓ where
  got : A → Result A
  fail : Failure → Result A

abbrev pub M {ℓ} : Type ℓ → Type ℓ
M A = Script → Result A × Script

unfoldable pub and_then {ℓ κ} :
    {A : Type ℓ} {B : Type κ} → Result A × Script → (A → M B) → Result B × Script
and_then (got a, s) f = f a s
and_then (fail e, s) f = (fail e, s)

infixl 5 ◌>>=◌
abbrev pub ◌>>=◌ {ℓ κ} : {A : Type ℓ} {B : Type κ} → M A → (A → M B) → M B
◌>>=◌ m f s = and_then (m s) f

abbrev pub pure {ℓ} : {A : Type ℓ} → A → M A
pure a s = (got a, s)

abbrev pub refuse {ℓ} : {A : Type ℓ} → Failure → M A
refuse e s = (fail e, s)

-- `Raw`, where a timeout and the end are failures.
unfoldable pub raw_byte : M ℕ
raw_byte [] = (fail gone_away, [])
raw_byte (byte b ∷ s) = (got b, s)
raw_byte (timeout ∷ s) = (fail timed_out, s)
raw_byte (closed ∷ s) = (fail gone_away, s)

-- The new count of pads, or none at the ZDLE that begins a header.
unfoldable pub pad_turn : ℕ → ℕ → Option ℕ
pad_turn pads b =
    if b == zpad then some (pads + 1) else if b == zdle && ltb 0 pads then none else some 0

-- The first loop of `ReadHeader`.
unfoldable pub find_header : Option ℕ → M (Unit {0})
unfolding pad_turn
find_header none s = (got tt, s)
find_header (some pads) [] = (fail gone_away, [])
find_header (some pads) (byte b ∷ s) = find_header (pad_turn pads b) s
find_header (some pads) (timeout ∷ s) = (fail timed_out, s)
find_header (some pads) (closed ∷ s) = (fail gone_away, s)

-- `for (i = 0; i < n; ++i)` over a read that may fail.
unfoldable pub read_all : ℕ → M ℕ → M Bytes
unfolding and_then
read_all zero m s = (got [], s)
read_all (suc n) m s =
    and_then (m s) λ b s'. and_then (read_all n m s') λ bs s''. (got (b ∷ bs), s'')

unfoldable pub digit_of : Option ℕ → M ℕ
digit_of none s = (fail bad, s)
digit_of (some d) s = (got d, s)

unfoldable pub hex_digit_read : M ℕ
unfolding raw_byte hex_value digit_of and_then
hex_digit_read = do c ← raw_byte; digit_of (hex_value c)

-- A byte of a binary header's body, and one of a checksum.
unfoldable pub body_byte_of : Unescaped × Script → Result ℕ × Script
body_byte_of (plain b, s) = (got b, s)
body_byte_of (frame_end b, s) = (fail bad, s)
body_byte_of (got_cancel, s) = (fail cancelled, s)
body_byte_of (no_byte, s) = (fail timed_out, s)
body_byte_of (gone, s) = (fail gone_away, s)

unfoldable pub check_byte_of : Unescaped × Script → Result ℕ × Script
check_byte_of (plain b, s) = (got b, s)
check_byte_of (gone, s) = (fail gone_away, s)
check_byte_of (_, s) = (fail bad, s)

unfoldable pub body_byte : M ℕ
unfolding scan body_byte_of
body_byte s = body_byte_of (unescaped s)

unfoldable pub check_byte : M ℕ
unfolding scan check_byte_of
check_byte s = check_byte_of (unescaped s)

-- A step that succeeds hands its value and the rest of the script on.
pub and_then-got {ℓ κ} :
    {A : Type ℓ} {B : Type κ} (x : Result A × Script) (f : A → M B) {a : A} {s : Script}
    → x ≡ (got a, s)
    → and_then x f ≡ f a s
and_then-got x f e = rw e (unfold and_then in refl)
