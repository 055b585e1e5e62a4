-- ===== src/Zmodem/SubpacketReader.antt =====
-- src/zmodem_protocol.cpp, `ReadSubpacket`. The loop runs on fuel, one more than the reads left in
-- the channel.
pub mod Fuel
pub mod RoundTrip
use quick_logger.Prelude.{
  ℕ, zero, suc, ◌+◌, ◌*◌, ◌^◌, Bool, [], ◌∷◌, ◌++◌, ◌==◌, if◌then◌else◌, ltb, bit_or, Bytes, length,
}
use quick_logger.Zmodem.Crc.{crc16_update, crc32_update, crc32_start, invert32}
use quick_logger.Zmodem.Reader.{
  Script, Unescaped, plain, frame_end, got_cancel, no_byte, gone, unescaped, scan, M, Result, got,
  fail, timed_out, gone_away, cancelled, bad, too_big, and_then, read_all, check_byte,
}

-- The locals `block`, `crc16` and `crc32_value`.
pub record Block : Type 0 where
  pub bytes : Bytes
  pub crc16 : ℕ
  pub crc32 : ℕ

abbrev pub empty_block : Block
empty_block = record { bytes = []; crc16 = 0; crc32 = crc32_start }

abbrev pub take_byte : Block → ℕ → Block
take_byte blk b = record {
  bytes = blk.bytes ++ b ∷ [];
  crc16 = crc16_update blk.crc16 b;
  crc32 = crc32_update blk.crc32 b;
}

-- One round of the loop, on what `Unescaped` gave; `next` is the rest of the loop. `size` is
-- `data->size()`.
unfoldable pub block_turn :
    (Block → M (Block × ℕ)) → ℕ → ℕ → Block → Unescaped × Script → Result (Block × ℕ) × Script
block_turn next size limit blk (got_cancel, s) = (fail cancelled, s)
block_turn next size limit blk (no_byte, s) = (fail timed_out, s)
block_turn next size limit blk (gone, s) = (fail gone_away, s)
block_turn next size limit blk (frame_end end, s) = (got (blk, end), s)
block_turn next size limit blk (plain b, s) =
    let rest = next (take_byte blk b) s in
    if ltb limit (size + length (take_byte blk b).bytes) then (fail too_big, s) else rest

unfoldable pub read_block : ℕ → ℕ → ℕ → Block → M (Block × ℕ)
unfolding block_turn scan
read_block zero size limit blk s = (fail gone_away, s)
read_block (suc fuel) size limit blk s =
    block_turn (read_block fuel size limit) size limit blk (unescaped s)

-- The loop over the checksum bytes, at index `i`.
unfoldable pub sent_from : Bool → ℕ → ℕ → Bytes → ℕ
sent_from crc32 i sent [] = sent
sent_from crc32 i sent (b ∷ bs) =
    sent_from crc32 (i + 1)
      (if crc32 then bit_or sent (b * 2 ^ (8 * i)) else bit_or (sent * 2 ^ 8) b) bs

-- The checksum that the receiver computed, with the ending letter.
abbrev pub block_crc : Bool → Block → ℕ → ℕ
block_crc crc32 blk end =
    if crc32 then invert32 (crc32_update blk.crc32 end) else crc16_update blk.crc16 end

-- The end of `ReadSubpacket`: the new `*data` and `*end`, or `kBad`.
unfoldable pub finish_subpacket : Bool → Bytes → Block → ℕ → Bytes → M (Bytes × ℕ)
unfolding sent_from
finish_subpacket crc32 filled blk end check s =
    if sent_from crc32 0 0 check == block_crc crc32 blk end
    then (got (filled ++ blk.bytes, end), s)
    else (fail bad, s)

unfoldable pub read_check : Bool → Bytes → Block × ℕ → M (Bytes × ℕ)
unfolding finish_subpacket read_all check_byte and_then
read_check crc32 filled (blk, end) s =
    and_then (read_all (if crc32 then 4 else 2) check_byte s)
      (finish_subpacket crc32 filled blk end)

-- `filled` is `*data` at the call.
unfoldable pub read_subpacket : Bool → Bytes → ℕ → M (Bytes × ℕ)
unfolding read_block read_check and_then
read_subpacket crc32 filled limit s =
    and_then (read_block (length s + 1) (length filled) limit empty_block s)
      (read_check crc32 filled)
