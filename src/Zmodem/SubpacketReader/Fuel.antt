-- ===== src/Zmodem/SubpacketReader/Fuel.antt =====
-- The fuel of the loop of `ReadSubpacket`.
use quick_logger.Prelude.{ℕ, zero, suc, ◌≤◌, ◌<◌, ◌≡◌, refl, [], ◌∷◌, arith, length}
use quick_logger.Zmodem.Reader.{
  Read, byte, timeout, closed, Script, Unescaped, plain, frame_end, got_cancel, no_byte, gone, Turn,
  outer, inner, give, outer_turn, inner_turn, scan, unescaped, M,
}
use quick_logger.Zmodem.SubpacketReader.{Block, take_byte, block_turn, read_block}

pub scan-le : (t : Turn) (s : Script) → length (scan t s).1 ≤ length s
unfolding scan
scan-le (give r) s = omega arith
scan-le outer [] = omega arith
scan-le outer (byte b ∷ s) = omega (arith, scan-le (outer_turn 0 b) s)
scan-le outer (timeout ∷ s) = omega arith
scan-le outer (closed ∷ s) = omega arith
scan-le (inner n) [] = omega arith
scan-le (inner n) (byte b ∷ s) = omega (arith, scan-le (inner_turn n b) s)
scan-le (inner n) (timeout ∷ s) = omega arith
scan-le (inner n) (closed ∷ s) = omega arith

-- On an empty channel `Unescaped` gives no byte; else it takes a read.
pub unescaped-lt : (r : Read) (s : Script) → length (unescaped (r ∷ s)).1 < length (r ∷ s)
unfolding scan
unescaped-lt (byte b) s = omega (arith, scan-le (outer_turn 0 b) s)
unescaped-lt timeout s = omega arith
unescaped-lt closed s = omega arith

module _ (size limit : ℕ) where
  block_turn-cong :
      (f g : Block → M (Block × ℕ)) (blk : Block) (u : Unescaped × Script)
      → ((b : ℕ) → f (take_byte blk b) u.1 ≡ g (take_byte blk b) u.1)
      → block_turn f size limit blk u ≡ block_turn g size limit blk u
  unfolding block_turn
  block_turn-cong f g blk (got_cancel, s) h = refl
  block_turn-cong f g blk (no_byte, s) h = refl
  block_turn-cong f g blk (gone, s) h = refl
  block_turn-cong f g blk (frame_end e, s) h = refl
  block_turn-cong f g blk (plain b, s) h = rw (h b)

  -- The loop of ReadSubpacket gives the same result on any two amounts of fuel that are above the
  -- number of reads left in the channel.
  pub read_block_enough :
      (f g : ℕ) (blk : Block) (s : Script)
      → length s < f
      → length s < g
      → read_block f size limit blk s ≡ read_block g size limit blk s
  unfolding read_block
  read_block_enough zero g blk s hf hg = absurd (omega arith)
  read_block_enough (suc f) zero blk s hf hg = absurd (omega arith)
  read_block_enough (suc f) (suc g) blk [] hf hg = refl
  read_block_enough (suc f) (suc g) blk (r ∷ s) hf hg =
      block_turn-cong (read_block f size limit) (read_block g size limit) blk (unescaped (r ∷ s))
        (λ b.
          read_block_enough f g (take_byte blk b) (unescaped (r ∷ s)).1
            (omega (arith, unescaped-lt r s)) (omega (arith, unescaped-lt r s)))
