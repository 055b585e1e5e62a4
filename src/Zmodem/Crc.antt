-- ===== src/Zmodem/Crc.antt =====
-- src/zmodem_protocol.cpp, "Checksums". Words are native numbers: each operation that could leave
-- its width is cut back by `%`.
pub mod Residue
use quick_logger.Prelude.{
  ℕ, zero, suc, ◌-◌, ◌*◌, ◌/◌, ◌%◌, ◌^◌, ◌<◌, ◌≡◌, [], ◌∷◌, ◌++◌, refl, arith, ◌==◌, if◌then◌else◌,
  bit_and, bit_xor, Bytes,
}

-- `for (int bit = 0; bit < n; ++bit) x = f(x);`
pub repeat : ℕ → (ℕ → ℕ) → ℕ → ℕ
repeat zero f x = x
repeat (suc n) f x = repeat n f (f x)

pub crc16_bit : ℕ → ℕ
crc16_bit crc = (if bit_and crc 0x8000 == 0 then crc * 2 else bit_xor (crc * 2) 0x1021) % 2 ^ 16

unfoldable pub crc16_update : ℕ → ℕ → ℕ
unfolding repeat crc16_bit
crc16_update crc byte = repeat 8 crc16_bit (bit_xor crc (byte * 2 ^ 8) % 2 ^ 16)

pub crc32_bit : ℕ → ℕ
crc32_bit crc = if bit_and crc 1 == 0 then crc / 2 else bit_xor (crc / 2) 0xEDB8_8320 % 2 ^ 32

unfoldable pub crc32_update : ℕ → ℕ → ℕ
unfolding repeat crc32_bit
crc32_update crc byte = repeat 8 crc32_bit (bit_xor crc byte % 2 ^ 32)

-- The loop over the data, from the running value `crc`.
unfoldable pub crc16_from : ℕ → Bytes → ℕ
unfolding crc16_update
crc16_from crc [] = crc
crc16_from crc (b ∷ bs) = crc16_from (crc16_update crc b) bs

unfoldable pub crc32_from : ℕ → Bytes → ℕ
unfolding crc32_update
crc32_from crc [] = crc
crc32_from crc (b ∷ bs) = crc32_from (crc32_update crc b) bs

abbrev pub crc32_start : ℕ
crc32_start = 0xFFFF_FFFF

-- `~` on 32 bits.
abbrev pub invert32 : ℕ → ℕ
invert32 x = 0xFFFF_FFFF - x

unfoldable pub zmodem_crc16 : Bytes → ℕ
unfolding crc16_from
zmodem_crc16 data_bytes = crc16_from 0 data_bytes

unfoldable pub zmodem_crc32 : Bytes → ℕ
unfolding crc32_from
zmodem_crc32 data_bytes = invert32 (crc32_from crc32_start data_bytes)

pub crc16_from-append :
    (crc : ℕ) (xs ys : Bytes) → crc16_from crc (xs ++ ys) ≡ crc16_from (crc16_from crc xs) ys
unfolding crc16_from
crc16_from-append crc [] ys = refl
crc16_from-append crc (x ∷ xs) ys = crc16_from-append (crc16_update crc x) xs ys

pub crc32_from-append :
    (crc : ℕ) (xs ys : Bytes) → crc32_from crc (xs ++ ys) ≡ crc32_from (crc32_from crc xs) ys
unfolding crc32_from
crc32_from-append crc [] ys = refl
crc32_from-append crc (x ∷ xs) ys = crc32_from-append (crc32_update crc x) xs ys
