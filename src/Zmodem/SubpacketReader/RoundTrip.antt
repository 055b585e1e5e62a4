-- ===== src/Zmodem/SubpacketReader/RoundTrip.antt =====
-- `DataSubpacket` and `ReadSubpacket` together.
use quick_logger.Prelude.{
  ℕ, zero, suc, ◌+◌, ◌*◌, ◌/◌, ◌%◌, ◌^◌, ◌≤◌, ◌<◌, ◌≡◌, ◌∙◌, refl, sym, ap, Bool, true, false, ◌||◌,
  [], ◌∷◌, ◌++◌, arith, ◌==◌, ==_refl, if◌then◌else◌, ltb, bit_or, Bytes, length, length-append,
  All, append-nil, append_assoc,
}
use quick_logger.Prelude.Bits.{bit_or_high_low, bit_or_low_high}
use quick_logger.Zmodem.Crc.{
  crc16_update, crc32_update, crc16_from, crc32_from, crc32_start, invert32,
}
use quick_logger.Zmodem.Crc.Residue.{crc16_update-lt}
use quick_logger.Zmodem.Frame.{
  zdle, zcrce, zcrcg, zcrcq, zcrcw, xon, must_escape, escaped_byte, put_escaped, put_all,
  previous_after, subpacket_check, data_subpacket, check16, check32,
}
use quick_logger.Zmodem.Frame.Position.{IsByte}
use quick_logger.Zmodem.Reader.{
  byte, Script, arriving, got, frame_end, unescaped, scan, and_then-got, check_byte,
}
use quick_logger.Zmodem.Reader.Escapes.{
  arriving-append, unescaped-put_escaped, read_all-put_all, check_byte-plain,
}
use quick_logger.Zmodem.SubpacketReader.{
  Block, empty_block, take_byte, read_block, sent_from, block_crc, finish_subpacket, read_check,
  read_subpacket,
}

-- The letters that may end a subpacket.
abbrev pub is_end : ℕ → Bool
is_end b = b == zcrce || b == zcrcg || b == zcrcq || b == zcrcw

unescaped_end :
    (end : ℕ) (rest : Script)
    → is_end end ≡ true
    → unescaped (byte zdle ∷ byte end ∷ rest) ≡ (frame_end end, rest)
unfolding scan
unescaped_end end rest h = ground arith

-- The block after all of `bs`.
abbrev take_all : Block → Bytes → Block
take_all blk [] = blk
take_all blk (b ∷ bs) = take_all (take_byte blk b) bs

take_all_fields :
    (blk : Block) (bs : Bytes)
    → ((take_all blk bs).bytes ≡ blk.bytes ++ bs)
      × ((take_all blk bs).crc16 ≡ crc16_from blk.crc16 bs)
      × ((take_all blk bs).crc32 ≡ crc32_from blk.crc32 bs)
unfolding crc16_from crc32_from
take_all_fields blk [] = (sym (append-nil blk.bytes), refl, refl)
take_all_fields blk (b ∷ bs) =
    let h = take_all_fields (take_byte blk b) bs in
    (h.0 ∙ append_assoc blk.bytes (b ∷ []) bs, h.1, h.2)

module _ (size limit end : ℕ) (ctl : Bool) (rest : Script) (ends : is_end end ≡ true) where
  read_block-put_all :
      (fuel previous : ℕ) (blk : Block) (bs : Bytes)
      → length bs < fuel
      → size + length blk.bytes + length bs ≤ limit
      → All IsByte bs
      → read_block fuel size limit blk
          (arriving (put_all ctl previous bs) ++ byte zdle ∷ byte end ∷ rest)
        ≡ (got (take_all blk bs, end), rest)
  unfolding read_block put_all
  read_block-put_all zero previous blk bs f l h = absurd (omega arith)
  read_block-put_all (suc fuel) previous blk [] f l h = rw (unescaped_end end rest ends) refl
  read_block-put_all (suc fuel) previous blk (b ∷ bs) f l h =
      rw
        (
          arriving-append (put_escaped ctl previous b) later (byte zdle ∷ byte end ∷ rest),
          unescaped-put_escaped ctl previous b (arriving later ++ byte zdle ∷ byte end ∷ rest) h.0,
        )
        (rw room (read_block-put_all fuel _ (take_byte blk b) bs (omega arith) fits h.1))
    where
      later : Bytes
      later = put_all ctl (escaped_byte (must_escape ctl previous b) b) bs

      room : ltb limit (size + length (blk.bytes ++ b ∷ [])) ≡ false
      room = ground (arith, length-append blk.bytes (b ∷ []))

      fits : size + length (take_byte blk b).bytes + length bs ≤ limit
      fits = omega (arith, length-append blk.bytes (b ∷ []))

put_escaped-pos : (ctl : Bool) (previous b : ℕ) → 1 ≤ length (arriving (put_escaped ctl previous b))
unfolding put_escaped
put_escaped-pos ctl previous b = ground arith

-- No byte is sent as none, so the channel holds fuel for all of them.
length-put_all :
    (ctl : Bool) (previous : ℕ) (bs : Bytes) (rest : Script)
    → length bs ≤ length (arriving (put_all ctl previous bs) ++ rest)
unfolding put_all
length-put_all ctl previous [] rest = omega arith
length-put_all ctl previous (b ∷ bs) rest =
    rw (arriving-append (put_escaped ctl previous b) later rest) (
      omega (
        arith,
        length-append (arriving (put_escaped ctl previous b)) (arriving later ++ rest),
        put_escaped-pos ctl previous b,
        length-put_all ctl (escaped_byte (must_escape ctl previous b) b) bs rest,
      ))
  where
    later : Bytes
    later = put_all ctl (escaped_byte (must_escape ctl previous b) b) bs

sent_from-check16 : (crc : ℕ) → crc < 2 ^ 16 → sent_from false 0 0 (check16 crc) ≡ crc
unfolding sent_from
sent_from-check16 crc h =
    rw (bit_or_high_low 8 0 (crc / 2 ^ 8 % 256) (omega arith)) (
      rw (bit_or_high_low 8 (0 * 2 ^ 8 + crc / 2 ^ 8 % 256) (crc % 256) (omega arith))
        (omega arith))

four_bytes :
    (a b c d : ℕ)
    → IsByte a
    → IsByte b
    → IsByte c
    → bit_or (bit_or (bit_or (bit_or 0 (a * 2 ^ 0)) (b * 2 ^ 8)) (c * 2 ^ 16)) (d * 2 ^ 24)
      ≡ a + b * 2 ^ 8 + c * 2 ^ 16 + d * 2 ^ 24
four_bytes a b c d ha hb hc =
    ap (λ x. bit_or (bit_or (bit_or x (b * 2 ^ 8)) (c * 2 ^ 16)) (d * 2 ^ 24)) first
    ∙ ap (λ x. bit_or (bit_or x (c * 2 ^ 16)) (d * 2 ^ 24)) (bit_or_low_high 8 a b ha)
    ∙ ap (λ x. bit_or x (d * 2 ^ 24)) (bit_or_low_high 16 (a + b * 2 ^ 8) c (omega arith))
    ∙ bit_or_low_high 24 (a + b * 2 ^ 8 + c * 2 ^ 16) d (omega arith)
  where
    first : bit_or 0 (a * 2 ^ 0) ≡ a
    first = omega (arith, bit_or_low_high 0 0 a (omega arith))

sent_from-check32 : (crc : ℕ) → crc < 2 ^ 32 → sent_from true 0 0 (check32 crc) ≡ crc
unfolding sent_from
sent_from-check32 crc h =
    four_bytes (crc % 256) (crc / 2 ^ 8 % 256) (crc / 2 ^ 16 % 256) (crc / 2 ^ 24 % 256)
      (omega arith) (omega arith) (omega arith)
    ∙ omega arith

check-IsByte : (crc32 : Bool) (bs : Bytes) (end : ℕ) → All IsByte (subpacket_check crc32 bs end)
unfolding subpacket_check
check-IsByte true bs end = omega arith
check-IsByte false bs end = omega arith

-- The sender's checksum, over the data and the ending letter.
abbrev sent_crc : Bool → Bytes → ℕ → ℕ
sent_crc crc32 bs end =
    if crc32
    then invert32 (crc32_update (crc32_from crc32_start bs) end)
    else crc16_update (crc16_from 0 bs) end

sent_from-subpacket_check :
    (crc32 : Bool) (bs : Bytes) (end : ℕ)
    → sent_from crc32 0 0 (subpacket_check crc32 bs end) ≡ sent_crc crc32 bs end
unfolding subpacket_check
sent_from-subpacket_check true bs end = sent_from-check32 _ (omega arith)
sent_from-subpacket_check false bs end = sent_from-check16 _ (crc16_update-lt (crc16_from 0 bs) end)

block_crc-take_all :
    (crc32 : Bool) (bs : Bytes) (end : ℕ)
    → block_crc crc32 (take_all empty_block bs) end ≡ sent_crc crc32 bs end
block_crc-take_all true bs end =
    ap (λ c. invert32 (crc32_update c end)) (take_all_fields empty_block bs).2
block_crc-take_all false bs end = ap (λ c. crc16_update c end) (take_all_fields empty_block bs).1

finish_subpacket_lem :
    (crc32 : Bool) (filled bs : Bytes) (end : ℕ) (rest : Script)
    → finish_subpacket crc32 filled
        (take_all empty_block bs)
        end
        (subpacket_check crc32 bs end)
        rest
      ≡ (got (filled ++ bs, end), rest)
unfolding finish_subpacket
finish_subpacket_lem crc32 filled bs end rest = rw (
  sent_from-subpacket_check crc32 bs end,
  block_crc-take_all crc32 bs end,
  ==_refl (sent_crc crc32 bs end),
  (take_all_fields empty_block bs).0,
)

read_check-put_all :
    (crc32 : Bool) (filled bs tail : Bytes) (end last : ℕ) (ctl : Bool) (rest : Script)
    → read_check crc32 filled
        (take_all empty_block bs, end)
        (arriving (put_all ctl last (subpacket_check crc32 bs end) ++ tail) ++ rest)
      ≡ (got (filled ++ bs, end), arriving tail ++ rest)
unfolding read_check subpacket_check
read_check-put_all true filled bs tail end last ctl rest =
    rw (arriving-append (put_all ctl last (subpacket_check true bs end)) tail rest) (
      and_then-got _ _ (
        read_all-put_all check_byte check_byte-plain ctl last (subpacket_check true bs end) _
          (check-IsByte true bs end))
      ∙ finish_subpacket_lem true filled bs end (arriving tail ++ rest))
read_check-put_all false filled bs tail end last ctl rest =
    rw (arriving-append (put_all ctl last (subpacket_check false bs end)) tail rest) (
      and_then-got _ _ (
        read_all-put_all check_byte check_byte-plain ctl last (subpacket_check false bs end) _
          (check-IsByte false bs end))
      ∙ finish_subpacket_lem false filled bs end (arriving tail ++ rest))

-- Reading a data subpacket from a channel on which one arrives gives back its bytes, behind those
-- already held, and its ending letter, whichever checksum is used and whether control characters
-- are escaped or not, where the letter is one of the four endings, the data are bytes and all of
-- it fits the limit; only the XON behind a ZCRCW ending and what follows stay in the channel.
pub read_subpacket-data_subpacket :
    (filled bs : Bytes) (end limit : ℕ) (crc32 escape_controls : Bool) (rest : Script)
    → is_end end ≡ true
    → All IsByte bs
    → length filled + length bs ≤ limit
    → read_subpacket crc32 filled limit
        (arriving (data_subpacket bs end crc32 escape_controls) ++ rest)
      ≡ (got (filled ++ bs, end), arriving (if end == zcrcw then xon ∷ [] else []) ++ rest)
unfolding read_subpacket data_subpacket
read_subpacket-data_subpacket filled bs end limit crc32 ctl rest ends h fits =
    rw (arriving-append (put_all ctl 0 bs) behind rest) (
      and_then-got _ _ (
        read_block-put_all (length filled) limit end ctl _ ends _ 0 empty_block bs
          (omega (arith, length-put_all ctl 0 bs (arriving behind ++ rest))) (omega arith) h)
      ∙ read_check-put_all crc32 filled bs (if end == zcrcw then xon ∷ [] else []) end
          (previous_after ctl 0 bs) ctl rest)
  where
    behind : Bytes
    behind =
        zdle
        ∷ end
        ∷ (put_all ctl (previous_after ctl 0 bs) (subpacket_check crc32 bs end)
            ++ (if end == zcrcw then xon ∷ [] else []))
