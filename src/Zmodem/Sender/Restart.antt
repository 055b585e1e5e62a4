-- ===== src/Zmodem/Sender/Restart.antt =====
-- Where `Sender::SendData` reads in a file: inside it from a position inside it, and past its end
-- when `CheckForRestart` is asked for a position past it.
use quick_logger.Prelude.{
  ℕ, suc, ◌+◌, ◌-◌, ◌^◌, ◌<◌, Bool, true, false, List, [], ◌∷◌, ◌++◌, Option, some, ◌≡◌, refl, ap,
  ◌∙◌, ltb, leb, arith, Bytes, length, take, drop,
}
use quick_logger.Zmodem.Frame.{
  Header, position, make_position_header, binary_header, data_subpacket, hex_header, hex_trailer,
  zpad, zcrcg,
}
use quick_logger.Zmodem.Frame.Position.{
  make_position_header-IsHeader, position-make_position_header,
}
use quick_logger.Zmodem.Reader.{byte, Script, arriving, got}
use quick_logger.Zmodem.HeaderReader.{read_header}
use quick_logger.Zmodem.Reader.{find_header}
use quick_logger.Zmodem.HeaderReader.RoundTrip.{read_header-hex_header}
use quick_logger.Zmodem.Session.{
  Outcome, done, failed, overrun, unfinished, Line, Session, proceed, send, write_on, raw_read,
  keep_rest, header_read, u32,
}
use quick_logger.Zmodem.Session.{zrpos, zdata}
use quick_logger.Zmodem.Sender.{
  Options, send_header, restart_header, restart_read, check_for_restart, block_count, send_slice,
  restart_or, block_loop, send_blocks, round_end, data_rounds, send_data,
}
use quick_logger.Zmodem.Sender.Data.{min_zero}
use quick_logger.Zmodem.Sender.Blocks.{block_count_lem, min_large, send_slice_lem}

-- The header's first pad is read already when the rest of it is looked for.
read_header_padded : (s : Script) → read_header 1 s ≡ read_header 0 (byte zpad ∷ s)
unfolding read_header find_header
read_header_padded s = refl

check_for_restart_got :
    (s behind : Script) (header : Header) (long_check : Bool) (l : Line)
    → read_header 0 (byte zpad ∷ s) ≡ (got (header, long_check), behind)
    → check_for_restart (record l { reads = byte zpad ∷ s })
      ≡ restart_header (got (header, long_check)) (record l { reads = behind })
unfolding check_for_restart raw_read keep_rest proceed restart_read header_read
check_for_restart_got s behind header long_check l e = rw (read_header_padded s, e)

restart_header_lem :
    (header : Header) (long_check : Bool) (l : Line)
    → header.type ≡ zrpos
    → restart_header (got (header, long_check)) l ≡ (done (some (position header)), l)
unfolding restart_header
restart_header_lem header long_check l t = ground arith

module _ (p : ℕ) (rest : Script) (small : p < 2 ^ 32) where
  abbrev asked : Header
  asked = make_position_header zrpos p

  check_for_restart-hex_header :
      (l : Line)
      → check_for_restart (record l { reads = arriving (hex_header asked) ++ rest })
        ≡ (done (some p), record l { reads = arriving (hex_trailer asked) ++ rest })
  check_for_restart-hex_header l =
      unfold hex_header in
      (check_for_restart_got _ (arriving (hex_trailer asked) ++ rest) asked false l (
          read_header-hex_header [] asked rest tt
            (make_position_header-IsHeader zrpos p (omega arith)))
        ∙ restart_header_lem asked false (record l { reads = arriving (hex_trailer asked) ++ rest })
            (unfold make_position_header in refl)
        ∙ ap (λ pos. (done (some pos), record l { reads = arriving (hex_trailer asked) ++ rest }))
            (position-make_position_header zrpos p (omega arith) small))

module _ (o : Options) (contents : Bytes) where
  slice_past :
      (pos count end : ℕ) (l : Line)
      → length contents < pos
      → send_slice o contents pos count end l ≡ (overrun, l)
  unfolding send_slice
  slice_past pos count end l h = rw (past_end (length contents) pos count h)
    where
      past_end : (size p c : ℕ) → size < p → ltb size (p + c) ≡ true
      past_end size p c h = ground arith

  blocks_past :
      (pos : ℕ) (l : Line) → length contents < pos → (send_blocks o contents pos l).0 ≡ overrun
  unfolding send_blocks block_loop proceed
  blocks_past pos l h = rw (slice_past pos (block_count (length contents) pos) _ l h)

  -- After the first block, a request for a position past the end is followed.
  second_round :
      (fuel pos : ℕ) (more : List Bool) (l : Line)
      → length contents < pos
      → (data_rounds (suc fuel) o contents pos (record l { accepted = true ∷ more })).0 ≡ overrun
  unfolding data_rounds send_header send write_on proceed
  second_round fuel pos more l h =
      lost (send_blocks o contents pos opened)
        (round_end (data_rounds fuel o contents) o (length contents)) (blocks_past pos opened h)
    where
      opened : Line
      opened = record l {
        accepted = more;
        sent =
            l.sent
            ++ binary_header (make_position_header zdata (u32 pos)) o.crc32 o.escape_controls;
      }

      lost :
          (x : Outcome (Option ℕ) × Line) (f : Option ℕ → Session (Unit {0}))
          → x.0 ≡ overrun
          → (proceed x f).0 ≡ overrun
      lost (done a, l') f e = cc
      lost (failed c, l') f e = cc
      lost (overrun, l') f e = refl
      lost (unfinished, l') f e = cc

  first_blocks :
      (p : ℕ) (rest : Script) (more : List Bool) (l : Line)
      → p < 2 ^ 32
      → 1024 < length contents
      → length contents < 2 ^ 64
      → send_blocks o contents 0 (record l {
        reads = arriving (hex_header (make_position_header zrpos p)) ++ rest;
        accepted = true ∷ more;
      })
        ≡ (
          done (some p),
          record l {
            reads = arriving (hex_trailer (make_position_header zrpos p)) ++ rest;
            accepted = more;
            sent = l.sent ++ data_subpacket (take 1024 contents) zcrcg o.crc32 o.escape_controls;
          },
        )
  unfolding send_blocks block_loop proceed
  first_blocks p rest more l h long small =
      rw
        (
          block_count_lem o contents small 0 (omega arith),
          min_large (length contents - 0) (omega arith),
          onward (length contents) long,
          send_slice_lem o contents small 0 1024 zcrcg more
              (record l { reads = arriving (hex_header (make_position_header zrpos p)) ++ rest })
              (omega arith),
          check_for_restart-hex_header p rest h (record l {
            accepted = more;
            sent = l.sent ++ data_subpacket (take 1024 contents) zcrcg o.crc32 o.escape_controls;
          }),
        )
        (unfold restart_or in refl)
    where
      onward : (size : ℕ) → 1024 < size → leb size (0 + 1024) ≡ false
      onward size h = ground arith

-- If the receiver asks, after the first block of a file of more than 1024 bytes, to go back to a
-- position past the file's end, SendData goes to that position and reads past the end of the
-- file's bytes, where the three writes up to there succeed.
pub send_data-overrun :
    (o : Options) (contents : Bytes) (p : ℕ) (rest : Script) (more : List Bool) (l : Line)
    → 1024 < length contents
    → length contents < p
    → p < 2 ^ 32
    → (send_data o contents 0 (record l {
      reads = arriving (hex_header (make_position_header zrpos p)) ++ rest;
      accepted = true ∷ true ∷ true ∷ more;
    })).0
      ≡ overrun
unfolding send_data data_rounds send_header send write_on proceed
send_data-overrun o contents p rest more l long past small =
    rw
      (
        min_zero (length contents),
        first_blocks o contents p rest (true ∷ more)
            (record l {
              sent =
                  l.sent ++ binary_header (make_position_header zdata 0) o.crc32 o.escape_controls;
            })
            small long (omega arith),
      )
      (unfold round_end hex_header in
        second_round o contents
          (length (arriving (drop 1 (hex_header (make_position_header zrpos p))) ++ rest)) p more
          (record l {
            reads = arriving (hex_trailer (make_position_header zrpos p)) ++ rest;
            sent =
                l.sent
                ++ binary_header (make_position_header zdata 0) o.crc32 o.escape_controls
                ++ data_subpacket (take 1024 contents) zcrcg o.crc32 o.escape_controls;
          })
          past)
