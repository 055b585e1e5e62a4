-- ===== src/Zmodem/Receiver/Refused.antt =====
-- What `Receiver::ReceiveFile` does with the offer of a file over the limit.
use quick_logger.Prelude.{
  ℕ, ◌^◌, ◌≤◌, ◌<◌, Bool, true, List, [], ◌∷◌, ◌++◌, some, ◌≡◌, refl, ltb, arith, Bytes, length,
  All,
}
use quick_logger.Zmodem.Frame.{data_subpacket, make_position_header, hex_header, zcrcw, xon}
use quick_logger.Zmodem.Frame.Position.{IsByte}
use quick_logger.Zmodem.Reader.{arriving, Script}
use quick_logger.Zmodem.SubpacketReader.RoundTrip.{read_subpacket-data_subpacket}
use quick_logger.Zmodem.Session.{
  File, done, Line, proceed, keep_rest, subpacket_read, send_hex_header, send, write_on,
}
use quick_logger.Zmodem.FileInfo.{file_information, time_sent}
use quick_logger.Zmodem.FileInfo.Names.{IsFileName}
use quick_logger.Zmodem.FileInfo.RoundTrip.{IsText, parse_file_information-file_information}
use quick_logger.Zmodem.Session.{zskip}
use quick_logger.Zmodem.Receiver.{take_offer, read_offer, receive_file}
use quick_logger.Zmodem.Sender.{Options}

-- The offer of a file over the limit, with a name the receiver may keep, whose information arrives
-- in a subpacket of at most 4096 bytes, is answered with ZSKIP, and no file is kept.
pub receive_file-refused :
    (o : Options) (limit files_left bytes_left : ℕ) (file : File) (rest : Script) (more : List Bool)
    (l : Line)
    → IsFileName file.name
    → IsText file.name
    → length file.contents < 2 ^ 64
    → All IsByte (file_information file files_left bytes_left)
    → length (file_information file files_left bytes_left) ≤ 4096
    → limit < length file.contents
    → let info = file_information file files_left bytes_left in
      receive_file limit o.crc32 (record l {
        reads = arriving (data_subpacket info zcrcw o.crc32 o.escape_controls) ++ rest;
        accepted = true ∷ more;
      })
      ≡ (
        done tt,
        record l {
          reads = arriving (xon ∷ []) ++ rest;
          accepted = more;
          sent = l.sent ++ hex_header (make_position_header zskip 0);
        },
      )
unfolding receive_file proceed subpacket_read keep_rest
receive_file-refused o limit files_left bytes_left file rest more l n t s bytes fits big =
    rw
      (read_subpacket-data_subpacket [] info zcrcw 4096 o.crc32 o.escape_controls rest refl bytes
        (omega arith))
      (unfold read_offer in
        rw (parse_file_information-file_information file files_left bytes_left n t s)
          (refused limit (length file.contents) big))
  where
    info : Bytes
    info = file_information file files_left bytes_left

    behind : Line
    behind = record l { reads = arriving (xon ∷ []) ++ rest; accepted = true ∷ more }

    over : (a b : ℕ) → a < b → ltb a b ≡ true
    over a b h = ground arith

    refused :
        (limit size : ℕ)
        → limit < size
        → take_offer limit
            (some (record { name = file.name; contents = []; mtime = time_sent file.mtime }, size))
            behind
          ≡ (
            done tt,
            record behind {
              accepted = more;
              sent = l.sent ++ hex_header (make_position_header zskip 0);
            },
          )
    refused limit size h = unfold take_offer send_hex_header send write_on in rw (over limit size h)
