-- ===== src/Zmodem/Receiver.antt =====
-- src/zmodem_protocol.cpp, class `Receiver`. A loop is a turn, which is given the rest of the loop
-- as `next`, and the loop itself on fuel.
pub mod Refused
pub mod Ends
pub mod Data
pub mod Quiet
use quick_logger.Prelude.{
  ℕ, zero, suc, ◌+◌, ◌%◌, Bool, not, ◌||◌, true, false, List, [], ◌∷◌, ◌++◌, Option, none, some,
  ◌==◌, if◌then◌else◌, ltb, bit_or, Bytes, length,
}
use quick_logger.Zmodem.Frame.{
  Header, position, make_position_header, zcrce, zcrcq, zcrcw, zack, zfin,
}
use quick_logger.Zmodem.Reader.{Result, got, fail, timed_out, gone_away, cancelled, bad, too_big}
use quick_logger.Zmodem.Session.{
  zrqinit, zrinit, zsinit, zfile, zskip, znak, zabort, zrpos, zdata, zeof, zferr, zcrc, zcan,
  bare_header, File, out_of_rounds, transfer_cancelled, sender_stopped, went_away, file_too_big,
  done, Line, Session, proceed, ◌>>=◌, ◌>>◌, pure, complain, with_rounds, send_hex_header, is_past,
  raw_read, header_read, subpacket_read, u32,
}
use quick_logger.Zmodem.FileInfo.{parse_file_information}

-- `kCanFdx | kCanOvio | kCanFc32 | kEscCtl`.
abbrev pub ready_header : Header
ready_header = record { type = zrinit; b0 = 0; b1 = 0; b2 = 0; b3 = 0x63 }

unfoldable pub send_ready : Session (Unit {0})
send_ready = send_hex_header ready_header

-- "Ask again from where we are."
unfoldable pub ask_position : File → Session (Unit {0})
ask_position file = send_hex_header (make_position_header zrpos (u32 (length file.contents)))

unfoldable pub acknowledge : ℕ → File → Session (Unit {0})
acknowledge end file =
    if end == zcrcq || end == zcrcw
    then send_hex_header (make_position_header zack (u32 (length file.contents)))
    else pure tt

-- One round of `ReceiveData`, on what `ReadSubpacket` gave for `file`.
unfoldable pub data_turn : (File → Session File) → File → Result (Bytes × ℕ) → Session File
data_turn next file (fail too_big) = complain file_too_big
data_turn next file (fail cancelled) = complain transfer_cancelled
data_turn next file (fail gone_away) = complain sender_stopped
data_turn next file (fail timed_out) = complain sender_stopped
data_turn next file (fail bad) = do ask_position file; pure file
data_turn next file (got (taken, end)) =
    let filled = record file { contents = taken } in
    do acknowledge end filled; if end == zcrce || end == zcrcw then pure filled else next filled

unfoldable pub data_loop : ℕ → Bool → ℕ → File → Session File
unfolding proceed
data_loop zero crc32 limit file = out_of_rounds
data_loop (suc fuel) crc32 limit file =
    subpacket_read crc32 file.contents limit >>= data_turn (data_loop fuel crc32 limit) file

unfoldable pub receive_data : Bool → ℕ → File → Session File
receive_data crc32 limit file = with_rounds λ fuel. data_loop fuel crc32 limit file

unfoldable pub push_file : File → Session (Unit {0})
push_file file l = (done tt, record l { received = l.received ++ file ∷ [] })

-- A header in the loop of `ReceiveFile`.
unfoldable pub file_header :
    (File → Session (Unit {0})) → ℕ → File → Header → Bool → Session (Unit {0})
unfolding proceed
file_header next limit file header long_check =
    if header.type == zdata
    then (if not (position header == length file.contents)
        then (do ask_position file; next file)
        else receive_data long_check limit file >>= next)
    else if header.type == zeof
    then (if not (position header == length file.contents)
        then (do ask_position file; next file)
        else (do push_file file; send_ready))
    else if header.type == zfile
    then (do again ← subpacket_read long_check [] 4096; ask_position file; next file)
    else if header.type == zcan || header.type == zabort
    then complain transfer_cancelled
    else next file

-- `ReadHeader` never gives `too_big`.
unfoldable pub file_turn :
    (File → Session (Unit {0})) → ℕ → File → Result (Header × Bool) → Session (Unit {0})
unfolding proceed
file_turn next limit file (fail gone_away) = complain sender_stopped
file_turn next limit file (fail timed_out) = complain sender_stopped
file_turn next limit file (fail cancelled) = complain transfer_cancelled
file_turn next limit file (fail bad) = do ask_position file; next file
file_turn next limit file (fail too_big) = next file
file_turn next limit file (got (header, long_check)) = file_header next limit file header long_check

unfoldable pub file_loop : ℕ → ℕ → File → Session (Unit {0})
unfolding proceed
file_loop zero limit file = out_of_rounds
file_loop (suc fuel) limit file = header_read 0 >>= file_turn (file_loop fuel limit) limit file

-- What `ReceiveFile` does with the file information.
unfoldable pub take_offer : ℕ → Option (File × ℕ) → Session (Unit {0})
unfolding proceed
take_offer limit none = send_hex_header (make_position_header zskip 0)
take_offer limit (some (file, size)) =
    if ltb limit size then send_hex_header (make_position_header zskip 0) else do
      send_hex_header (make_position_header zrpos 0)
      with_rounds λ fuel. file_loop fuel limit file

unfoldable pub read_offer : ℕ → Result (Bytes × ℕ) → Session (Unit {0})
read_offer limit (fail e) = send_hex_header (make_position_header znak 0)
read_offer limit (got (info, end)) = take_offer limit (parse_file_information info)

unfoldable pub receive_file : ℕ → Bool → Session (Unit {0})
unfolding proceed
receive_file limit crc32 = subpacket_read crc32 [] 4096 >>= read_offer limit

-- A header in the loop of `Run`; `next` is given the count of `asks`.
unfoldable pub run_header : (ℕ → Session (Unit {0})) → ℕ → ℕ → Header → Bool → Session (Unit {0})
unfolding proceed
run_header next limit asks header long_check =
    if header.type == zrqinit
    then (do send_ready; next asks)
    else if header.type == zsinit
    then (do
      ignored ← subpacket_read long_check [] 4096
      send_hex_header (make_position_header zack 1)
      next asks)
    else if header.type == zfile
    then (do receive_file limit long_check; next asks)
    else if header.type == zfin
    then (do send_hex_header (bare_header zfin); first ← raw_read; second ← raw_read; pure tt)
    else if header.type == zcan || header.type == zabort
    then complain transfer_cancelled
    else next asks

-- "Say again that we are ready, now and then."
unfoldable pub remind : ℕ → Session (Unit {0})
remind asks = if asks % 3 == 0 then send_ready else pure tt

-- `if (now() >= deadline) return Fail("The sender stopped answering.");`
unfoldable pub unless_late : Bool → Session (Unit {0}) → Session (Unit {0})
unless_late true go_on = complain sender_stopped
unless_late false go_on = go_on

unfoldable pub run_turn :
    (ℕ → Session (Unit {0})) → ℕ → ℕ → Result (Header × Bool) → Session (Unit {0})
unfolding proceed
run_turn next limit asks (fail gone_away) = complain went_away
run_turn next limit asks (fail cancelled) = complain transfer_cancelled
run_turn next limit asks (fail bad) = do
  late ← is_past
  unless_late late (do send_hex_header (make_position_header znak 0); next asks)
run_turn next limit asks (fail timed_out) = do
  late ← is_past
  unless_late late (do remind (asks + 1); next (asks + 1))
run_turn next limit asks (fail too_big) = next asks
run_turn next limit asks (got (header, long_check)) = run_header next limit asks header long_check

unfoldable pub run_loop : ℕ → ℕ → ℕ → Session (Unit {0})
unfolding proceed
run_loop zero limit asks = out_of_rounds
run_loop (suc fuel) limit asks = header_read 0 >>= run_turn (run_loop fuel limit) limit asks

-- `ZmodemReceive`; the files are in `received` of the line.
unfoldable pub zmodem_receive : ℕ → Session (Unit {0})
unfolding proceed
zmodem_receive limit = do send_ready; with_rounds λ fuel. run_loop fuel limit 0
