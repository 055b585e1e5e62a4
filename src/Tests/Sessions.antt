-- ===== src/Tests/Sessions.antt =====
-- ZMODEM sessions.
use quick_logger.Prelude.{
  ℕ, zero, suc, ◌≡◌, refl, Bool, true, false, List, [], ◌∷◌, ◌++◌, some, arith, Bytes, codes, All,
}
use quick_logger.Zmodem.Frame.{
  hex_header, hex_trailer, data_subpacket, make_position_header, zcrcw, xon,
}
use quick_logger.Zmodem.Reader.{arriving, timeout, Script}
use quick_logger.Zmodem.Session.{File, Line, done, overrun}
use quick_logger.Zmodem.FileInfo.{
  is_refused_name, information_numbers, to_octal, file_information, parse_file_information,
}
use quick_logger.Prelude.Decimal.{to_string}
use quick_logger.Zmodem.FileInfo.RoundTrip.{parse_file_information-file_information}
use quick_logger.Zmodem.Session.{zrpos, zskip}
use quick_logger.Zmodem.Receiver.{ready_header, file_loop, receive_file, zmodem_receive}
use quick_logger.Zmodem.Receiver.Ends.{IsKept}
use quick_logger.Zmodem.Receiver.Ends.Run.{zmodem_receive-IsKept}
use quick_logger.Zmodem.Receiver.Quiet.{GivesUp, zmodem_receive-GivesUp}
use quick_logger.Zmodem.Session.Quiet.{line}
use quick_logger.Zmodem.Receiver.Refused.{receive_file-refused}
use quick_logger.Zmodem.Sender.{Options, send_data, send_blocks}
use quick_logger.Zmodem.Batch.{zmodem_send}
use quick_logger.Zmodem.Sender.Data.{data_frames, send_data-data_frames}
use quick_logger.Zmodem.Batch.Quiet
use quick_logger.Zmodem.Batch.Quiet.{zmodem_send-GivesUp}
use quick_logger.Zmodem.Sender.Inside.{IsInside, send_blocks-IsInside}
use quick_logger.Zmodem.Sender.Restart.{send_data-overrun}
use quick_logger.Zmodem.Transfer.{sender_line, receiver_line, file_loop-send_data}

abbrev long_options : Options
long_options = record { crc32 = true; escape_controls = true }

abbrev log_file : Bytes → File
log_file contents = record { name = codes "net.log"; contents = contents; mtime = 1_700_000_000 }

abbrev hello : Bytes
hello = codes "hello"

file_loop-send_data_example :
    let sent = (send_data long_options hello 0 (sender_line (hello ∷ []) [])).1.sent in
    let result = file_loop 2 100 (log_file []) (receiver_line sent) in
    (result.0 ≡ done tt)
    × (result.1.received ≡ log_file hello ∷ [])
    × (result.1.sent ≡ hex_header ready_header)
file_loop-send_data_example =
    file_loop-send_data long_options 100 0 (log_file []) hello (hello ∷ []) [] refl (omega arith)
      (omega arith) (omega arith) (refl, omega arith) refl

abbrev idle_line : Script → List Bool → Line
idle_line reads accepted = record {
  reads = reads;
  passed = false ∷ false ∷ false ∷ [];
  accepted = accepted;
  sent = [];
  received = [];
}

abbrev offering_line : Line
offering_line =
    idle_line (timeout ∷ arriving (hex_header (make_position_header 4 0)))
      (true ∷ true ∷ true ∷ true ∷ [])

zmodem_receive-IsKept_example : All (IsKept 100) (zmodem_receive 100 offering_line).1.received
zmodem_receive-IsKept_example = zmodem_receive-IsKept 100 offering_line tt

zmodem_receive-GivesUp_example :
    GivesUp
      (zmodem_receive 100 (
        line
          (timeout ∷ timeout ∷ timeout ∷ arriving hello)
          (false ∷ false ∷ true ∷ false ∷ [])
          (true ∷ true ∷ true ∷ [])
          []
          []))
      (arriving hello)
      (false ∷ [])
      []
zmodem_receive-GivesUp_example =
    zmodem_receive-GivesUp 100 2 (arriving hello) (false ∷ []) (true ∷ true ∷ true ∷ []) [] [] tt

zmodem_send-GivesUp_example :
    let ended = zmodem_send (log_file hello ∷ []) (
      line
        (timeout ∷ timeout ∷ arriving hello)
        (false ∷ false ∷ false ∷ true ∷ true ∷ false ∷ [])
        (true ∷ true ∷ true ∷ [])
        []
        []) in
    (ended.0 ≡ false) × Quiet.GivesUp ended.1 (arriving hello) (false ∷ []) []
zmodem_send-GivesUp_example =
    zmodem_send-GivesUp (log_file hello ∷ []) (arriving hello) (false ∷ true ∷ []) (false ∷ [])
      (true ∷ true ∷ true ∷ []) [] [] tt

parse_file_information-file_information_example :
    parse_file_information (file_information (log_file hello) 1 5) ≡ some (log_file [], 5)
unfolding is_refused_name
parse_file_information-file_information_example =
    parse_file_information-file_information (log_file hello) 1 5
      (refl, (refl, (refl, (refl, (refl, (refl, (refl, (refl, tt))))))))
      (refl, (refl, (refl, (refl, (refl, (refl, (refl, tt))))))) (omega arith)

send_data-data_frames_example : send_data long_options hello 0 (sender_line (hello ∷ []) []) ≡ (
  done tt,
  record {
    reads = arriving (hex_trailer ready_header) ++ [];
    passed = [];
    accepted = [];
    sent = [] ++ data_frames long_options hello (hello ∷ []);
    received = [];
  },
)
send_data-data_frames_example =
    send_data-data_frames long_options hello (hello ∷ []) [] [] [] [] (sender_line (hello ∷ []) [])
      (omega arith) (refl, omega arith) refl

receive_file-refused_example :
    receive_file 4 true (
      idle_line
        (arriving (data_subpacket (file_information (log_file hello) 1 5) zcrcw true true) ++ [])
        (true ∷ []))
    ≡ (
      done tt,
      record {
        reads = arriving (xon ∷ []) ++ [];
        passed = false ∷ false ∷ false ∷ [];
        accepted = [];
        sent = [] ++ hex_header (make_position_header zskip 0);
        received = [];
      },
    )
unfolding is_refused_name
receive_file-refused_example =
    receive_file-refused long_options 4 1 5 (log_file hello) [] [] (idle_line [] [])
      (refl, (refl, (refl, (refl, (refl, (refl, (refl, (refl, tt))))))))
      (refl, (refl, (refl, (refl, (refl, (refl, (refl, tt))))))) (omega arith)
      (unfold file_information information_numbers to_string to_octal in omega arith)
      (unfold file_information information_numbers to_string to_octal in omega arith) (omega arith)

send_blocks-IsInside_example : IsInside (send_blocks long_options hello 3 (sender_line [] [])).0
send_blocks-IsInside_example =
    send_blocks-IsInside long_options hello (omega arith) 3 (sender_line [] []) (omega arith)

abbrev zero_bytes : ℕ → Bytes
zero_bytes zero = []
zero_bytes (suc n) = 0 ∷ zero_bytes n

-- A file of 1025 bytes, and a receiver that asks for its byte 5000.
send_data-overrun_example :
    (send_data long_options (zero_bytes 1025) 0 (
      idle_line
        (arriving (hex_header (make_position_header zrpos 5000)) ++ [])
        (true ∷ true ∷ true ∷ []))).0
    ≡ overrun
send_data-overrun_example =
    send_data-overrun long_options (zero_bytes 1025) 5000 [] [] (idle_line [] []) (omega arith)
      (omega arith) (omega arith)
