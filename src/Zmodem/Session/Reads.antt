-- ===== src/Zmodem/Session/Reads.antt =====
-- What a read takes from the channel: `ReadHeader` and `ReadSubpacket` never leave more than they
-- found, and a subpacket that is read fits the limit.
use quick_logger.Prelude.{
  ℕ, zero, suc, ◌+◌, ◌≤◌, ◌<◌, Bool, [], ◌∷◌, ◌++◌, some, ◌≡◌, inl, inr, ◌==◌, if◌then◌else◌, ltb,
  arith, Bytes, length, length-append, Bool-cases,
}
use quick_logger.Zmodem.Reader.{
  Read, Script, plain, frame_end, got_cancel, no_byte, gone, Unescaped, unescaped, Result, got,
  fail, M, read_all, check_byte,
}
use quick_logger.Zmodem.HeaderReader.{read_header}
use quick_logger.Zmodem.SubpacketReader.{
  Block, empty_block, take_byte, block_turn, read_block, sent_from, block_crc, finish_subpacket,
  read_check, read_subpacket,
}
use quick_logger.Zmodem.SubpacketReader.Fuel.{scan-le, unescaped-lt}
use quick_logger.Zmodem.Session.Headers.{
  Gives, Any, Gives-and_then, read_all-Gives, check_byte-Gives, behind_pads_le,
}

module _ (size limit n : ℕ) where
  abbrev Fits : Block × ℕ → Type 0
  Fits (blk, end) = size + length blk.bytes ≤ limit

  block_turn-Gives :
      (next : Block → M (Block × ℕ)) (blk : Block) (u : Unescaped × Script)
      → size + length blk.bytes ≤ limit
      → length u.1 ≤ n
      → ((b : ℕ)
          → size + length (blk.bytes ++ b ∷ []) ≤ limit
          → Gives n Fits (next (take_byte blk b) u.1))
      → Gives n Fits (block_turn next size limit blk u)
  unfolding block_turn
  block_turn-Gives next blk (got_cancel, s) fits h k = h
  block_turn-Gives next blk (no_byte, s) fits h k = h
  block_turn-Gives next blk (gone, s) fits h k = h
  block_turn-Gives next blk (frame_end e, s) fits h k = (h, fits)
  block_turn-Gives next blk (plain b, s) fits h k =
      elim (Bool-cases (ltb limit (size + length (blk.bytes ++ b ∷ [])))) [
        | inl e ↦ rw e h
        | inr e ↦ rw e (k b (ground arith))
      ]

  read_block-Gives :
      (fuel : ℕ) (blk : Block) (s : Script)
      → size + length blk.bytes ≤ limit
      → length s ≤ n
      → Gives n Fits (read_block fuel size limit blk s)
  unfolding read_block
  read_block-Gives zero blk s fits h = h
  read_block-Gives (suc fuel) blk s fits h =
      block_turn-Gives (read_block fuel size limit) blk (unescaped s) fits
        (omega (arith, scan-le _ s))
        (λ b fits'.
          read_block-Gives fuel (take_byte blk b) (unescaped s).1 fits'
            (omega (arith, scan-le _ s)))

abbrev pub FitsIn : ℕ → Bytes × ℕ → Type 0
FitsIn limit (taken, end) = length taken ≤ limit

finish_subpacket-Gives :
    (n limit : ℕ) (crc32 : Bool) (filled : Bytes) (blk : Block) (end : ℕ) (check : Bytes)
    (s : Script)
    → length filled + length blk.bytes ≤ limit
    → length s ≤ n
    → Gives n (FitsIn limit) (finish_subpacket crc32 filled blk end check s)
unfolding finish_subpacket
finish_subpacket-Gives n limit crc32 filled blk end check s fits h =
    elim (Bool-cases (sent_from crc32 0 0 check == block_crc crc32 blk end)) [
      | inl e ↦ rw e (h, omega (arith, length-append filled blk.bytes))
      | inr e ↦ rw e h
    ]

-- Fewer reads are left behind what was got, and no more behind a failure.
abbrev pub Takes : ℕ → ℕ → Result (Bytes × ℕ) × Script → Type 0
Takes n limit (got a, s) = (length s < n) × FitsIn limit a
Takes n limit (fail e, s) = length s < suc n

Takes-of :
    (n k limit : ℕ) (x : Result (Bytes × ℕ) × Script)
    → k < n
    → Gives k (FitsIn limit) x
    → Takes n limit x
Takes-of n k limit (got a, s) h g = (omega arith, g.1)
Takes-of n k limit (fail e, s) h g = omega arith

read_check-Gives :
    (n limit : ℕ) (crc32 : Bool) (filled : Bytes) (ended : Block × ℕ) (s : Script)
    → Fits (length filled) limit n ended
    → length s ≤ n
    → Gives n (FitsIn limit) (read_check crc32 filled ended s)
unfolding read_check
read_check-Gives n limit crc32 filled ended s fits h =
    Gives-and_then n Any (FitsIn limit) (read_all (if crc32 then 4 else 2) check_byte s) _
      (read_all-Gives n (if crc32 then 4 else 2) check_byte (check_byte-Gives n) s h)
      λ check s' h' _. finish_subpacket-Gives n limit crc32 filled ended.0 ended.1 check s' fits h'

read_block_first :
    (f g size limit : ℕ) (r : Read) (s : Script)
    → f ≡ suc g
    → size ≤ limit
    → Gives (length s) (Fits size limit (length s)) (read_block f size limit empty_block (r ∷ s))
unfolding read_block
read_block_first f g size limit r s e fits = rw e (
    block_turn-Gives size limit (length s) (read_block g size limit) empty_block (unescaped (r ∷ s))
      (omega arith) (omega (arith, unescaped-lt r s))
      (λ b fits'.
        read_block-Gives size limit (length s) g (take_byte empty_block b) (unescaped (r ∷ s)).1
          fits' (omega (arith, unescaped-lt r s))))

-- A subpacket that is read takes at least one read, and what was held and what it brings are
-- within the limit.
pub read_subpacket-Takes :
    (n limit : ℕ) (crc32 : Bool) (filled : Bytes) (s : Script)
    → length filled ≤ limit
    → length s < suc n
    → Takes n limit (read_subpacket crc32 filled limit s)
unfolding read_subpacket
read_subpacket-Takes n limit crc32 filled [] fits h = unfold read_block in omega arith
read_subpacket-Takes n limit crc32 filled (r ∷ s) fits h =
    Takes-of n (length s) limit _ (omega arith) (
      Gives-and_then (length s) (Fits (length filled) limit (length s)) (FitsIn limit)
        (read_block (length (r ∷ s) + 1) (length filled) limit empty_block (r ∷ s))
        (read_check crc32 filled)
        (read_block_first (length (r ∷ s) + 1) (length s + 1) (length filled) limit r s
          (omega arith) fits)
        (λ ended s' h' fits'. read_check-Gives (length s) limit crc32 filled ended s' fits' h'))

pub Takes-lt :
    (n limit : ℕ) (x : Result (Bytes × ℕ) × Script) → Takes n limit x → length x.1 < suc n
Takes-lt n limit (got a, s) h = omega arith
Takes-lt n limit (fail e, s) h = h

pub read_header-le : (pads : ℕ) (s : Script) → length (read_header pads s).1 ≤ length s
unfolding read_header
read_header-le pads s = behind_pads_le (length s) (some pads) s (omega arith)
