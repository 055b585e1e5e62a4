-- ===== src/Zmodem/Batch.antt =====
-- src/zmodem_protocol.cpp, class `Sender`: the offer of a file, the end of a batch, and the batch.
pub mod Ends
pub mod Quiet
use quick_logger.Prelude.{
  ℕ, zero, suc, ◌+◌, ◌-◌, ◌%◌, ◌^◌, Bool, true, false, not, ◌&&◌, ◌||◌, List, [], ◌∷◌, ◌++◌, Option,
  none, some, ◌==◌, if◌then◌else◌, ltb, leb, min, bit_and, Bytes, codes, length, take, drop,
}
use quick_logger.Zmodem.Crc.{zmodem_crc32}
use quick_logger.Zmodem.Frame.{
  Header, position, make_position_header, hex_header, binary_header, data_subpacket, zpad, zcrce,
  zcrcg, zcrcw, zfin,
}
use quick_logger.Zmodem.Reader.{
  Read, byte, timeout, closed, Result, got, fail, timed_out, gone_away, cancelled, bad, too_big,
}
use quick_logger.Zmodem.Session.{
  File, Outcome, done, failed, overrun, unfinished, out_of_rounds, went_away, terminal_cancelled,
  never_answered, stopped_answering, Line, Session, proceed, ◌>>=◌, ◌>>◌, pure, complain,
  with_rounds, send, send_hex_header, is_past, raw_read, header_read, u32,
}
use quick_logger.Zmodem.FileInfo.{file_information}
use quick_logger.Zmodem.Session.{
  zrqinit, zrinit, zfile, zskip, zabort, zrpos, zdata, zeof, zferr, zcrc, zcan, bare_header,
}
use quick_logger.Zmodem.Sender.{
  Options, send_header, send_subpacket, while_early, start, await, send_data,
}

-- The answer to an offer.
unfoldable pub offer_turn : Session (Unit {0}) → Options → Bytes → Header → Session (Unit {0})
unfolding proceed
offer_turn next o contents answer =
    if answer.type == zskip
    then pure tt
    else if answer.type == zrpos
    then send_data o contents (position answer)
    else if answer.type == zcrc
    then (do send_header o (make_position_header zcrc (zmodem_crc32 contents)); next)
    else next

unfoldable pub offer_loop : ℕ → Options → Bytes → Session (Unit {0})
unfolding proceed
offer_loop zero o contents = out_of_rounds
offer_loop (suc fuel) o contents = await >>= offer_turn (offer_loop fuel o contents) o contents

-- "Binary": the last byte of the offer is 1.
abbrev pub offer_header : Header
offer_header = record { type = zfile; b0 = 0; b1 = 0; b2 = 0; b3 = 1 }

unfoldable pub send_file : Options → File → ℕ → ℕ → Session (Unit {0})
unfolding proceed
send_file o file files_left bytes_left = do
  send_header o offer_header
  send_subpacket o (file_information file files_left bytes_left) zcrcw
  with_rounds λ fuel. offer_loop fuel o file.contents

-- One round of the loop of `Finish`.
unfoldable pub finish_turn : Session (Unit {0}) → Result (Header × Bool) → Session (Unit {0})
finish_turn next (fail gone_away) = pure tt
finish_turn next (fail timed_out) = next
finish_turn next (fail cancelled) = next
finish_turn next (fail bad) = next
finish_turn next (fail too_big) = next
finish_turn next (got (header, long_check)) =
    if header.type == zfin then send (codes "OO") else next

unfoldable pub finish_loop : ℕ → Session (Unit {0})
unfolding proceed
finish_loop zero = out_of_rounds
finish_loop (suc fuel) =
    is_past >>= while_early (pure tt) (header_read 0 >>= finish_turn (finish_loop fuel))

unfoldable pub finish : Session (Unit {0})
unfolding proceed
finish = do send_hex_header (bare_header zfin); with_rounds finish_loop

abbrev pub total_size : List File → ℕ
total_size [] = 0
total_size (f ∷ fs) = length f.contents + total_size fs

-- The loop of `Run` over the files, and `Finish` behind it.
unfoldable pub send_files : Options → List File → ℕ → Session (Unit {0})
unfolding proceed
send_files o [] bytes_left = finish
send_files o (f ∷ fs) bytes_left = do
  send_file o f (length (f ∷ fs)) bytes_left
  send_files o fs (bytes_left - length f.contents)

-- `ZmodemSend`: `*answered` beside what the session gives.
unfoldable pub batch_behind :
    List File → Outcome Options × Line → Bool × (Outcome (Unit {0}) × Line)
unfolding proceed
batch_behind files (done o, l) = (true, send_files o files (total_size files) l)
batch_behind files (failed e, l) = (false, (failed e, l))
batch_behind files (overrun, l) = (false, (overrun, l))
batch_behind files (unfinished, l) = (false, (unfinished, l))

unfoldable pub zmodem_send : List File → Line → Bool × (Outcome (Unit {0}) × Line)
zmodem_send files l = batch_behind files (start l)
