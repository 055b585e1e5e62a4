-- ===== src/Zmodem/Sender.antt =====
-- src/zmodem_protocol.cpp, class `Sender`. A loop is a turn, which is given the rest of the loop
-- as `next`, and the loop itself on fuel.
pub mod Blocks
pub mod Data
pub mod Inside
pub mod Ends
pub mod Restart
use quick_logger.Prelude.{
  ℕ, zero, suc, ◌+◌, ◌-◌, ◌%◌, ◌^◌, Bool, true, false, not, ◌&&◌, ◌||◌, List, [], ◌∷◌, ◌++◌, Option,
  none, some, ◌==◌, if◌then◌else◌, ltb, leb, min, bit_and, Bytes, codes, length, take, drop,
}
use quick_logger.Zmodem.Crc.{zmodem_crc32}
use quick_logger.Zmodem.Frame.{
  Header, position, make_position_header, hex_header, binary_header, data_subpacket, zpad, zcrce,
  zcrcg, zcrcw, zfin,
}
use quick_logger.Zmodem.Reader.{
  Read, byte, timeout, closed, Result, got, fail, timed_out, gone_away, cancelled, bad, too_big,
}
use quick_logger.Zmodem.Session.{
  File, Outcome, done, failed, overrun, unfinished, out_of_rounds, went_away, terminal_cancelled,
  never_answered, stopped_answering, Line, Session, proceed, ◌>>=◌, ◌>>◌, pure, complain,
  with_rounds, send, send_hex_header, is_past, raw_read, header_read, u32,
}
use quick_logger.Zmodem.FileInfo.{file_information}
use quick_logger.Zmodem.Session.{
  zrqinit, zrinit, zfile, zskip, zabort, zrpos, zdata, zeof, zferr, zcrc, zcan, bare_header,
}

-- `crc32_` and `escape_controls_`, as the receiver asked.
pub record Options : Type 0 where
  pub crc32 : Bool
  pub escape_controls : Bool

unfoldable pub send_header : Options → Header → Session (Unit {0})
send_header o header = send (binary_header header o.crc32 o.escape_controls)

unfoldable pub send_subpacket : Options → Bytes → ℕ → Session (Unit {0})
send_subpacket o bytes end = send (data_subpacket bytes end o.crc32 o.escape_controls)

-- Does the flag stand in the header's last byte?
abbrev pub has_flag : Header → ℕ → Bool
has_flag header flag = not (bit_and header.b3 flag == 0)

-- "if (now() >= next_ask)": the request again.
unfoldable pub ask_again : Session Options → Bool → Session Options
unfolding proceed
ask_again next false = next
ask_again next true = do send (hex_header (bare_header zrqinit)); next

unfoldable pub wait_to_ask : Session Options → Session Options
unfolding proceed ask_again
wait_to_ask next = is_past >>= ask_again next

-- One round of the loop of `Start`.
unfoldable pub start_turn : Session Options → Result (Header × Bool) → Session Options
start_turn next (fail gone_away) = complain went_away
start_turn next (fail cancelled) = complain terminal_cancelled
start_turn next (fail timed_out) = wait_to_ask next
start_turn next (fail bad) = wait_to_ask next
start_turn next (fail too_big) = wait_to_ask next
start_turn next (got (header, long_check)) =
    if header.type == zrinit
    then pure (record { crc32 = has_flag header 0x20; escape_controls = has_flag header 0x40 })
    else if header.type == zcan || header.type == zabort
    then complain terminal_cancelled
    else wait_to_ask next

-- `while (now() < deadline)`, and what the function does behind the loop.
unfoldable pub while_early {ℓ} : {A : Type ℓ} → Session A → Session A → Bool → Session A
while_early behind round true = behind
while_early behind round false = round

unfoldable pub start_loop : ℕ → Session Options
unfolding proceed
start_loop zero = out_of_rounds
start_loop (suc fuel) =
    is_past
    >>= while_early (complain never_answered) (header_read 0 >>= start_turn (start_loop fuel))

unfoldable pub start : Session Options
unfolding proceed
start = do send (codes "rz\r" ++ hex_header (bare_header zrqinit)); with_rounds start_loop

-- One round of `Await`.
unfoldable pub await_turn : Session Header → Result (Header × Bool) → Session Header
await_turn next (fail gone_away) = complain went_away
await_turn next (fail cancelled) = complain terminal_cancelled
await_turn next (fail timed_out) = next
await_turn next (fail bad) = next
await_turn next (fail too_big) = next
await_turn next (got (header, long_check)) =
    if header.type == zcan || header.type == zabort || header.type == zferr
    then complain terminal_cancelled
    else pure header

unfoldable pub await_loop : ℕ → Session Header
unfolding proceed
await_loop zero = out_of_rounds
await_loop (suc fuel) =
    is_past
    >>= while_early (complain stopped_answering) (header_read 0 >>= await_turn (await_loop fuel))

unfoldable pub await : Session Header
await = with_rounds await_loop

-- `CheckForRestart`: the new position, if the receiver asks to go back.
unfoldable pub restart_header : Result (Header × Bool) → Session (Option ℕ)
restart_header (fail cancelled) = complain terminal_cancelled
restart_header (fail gone_away) = pure none
restart_header (fail timed_out) = pure none
restart_header (fail bad) = pure none
restart_header (fail too_big) = pure none
restart_header (got (header, long_check)) =
    if header.type == zcan || header.type == zabort
    then complain terminal_cancelled
    else if header.type == zrpos
    then pure (some (position header))
    else pure none

unfoldable pub restart_read : Read → Session (Option ℕ)
unfolding proceed
restart_read timeout = pure none
restart_read closed = complain went_away
restart_read (byte b) = if not (b == zpad) then pure none else header_read 1 >>= restart_header

unfoldable pub check_for_restart : Session (Option ℕ)
unfolding proceed
check_for_restart = raw_read >>= restart_read

-- `std::min(kBlockSize, size - position)`, on 64-bit numbers.
abbrev pub block_count : ℕ → ℕ → ℕ
block_count size pos = min 1024 ((size + 2 ^ 64 - pos) % 2 ^ 64)

-- The bytes from `pos`, sent if the file has them all.
unfoldable pub send_slice : Options → Bytes → ℕ → ℕ → ℕ → Session (Unit {0})
send_slice o contents pos count end =
    if ltb (length contents) (pos + count)
    then (λ l. (overrun, l))
    else send_subpacket o (take count (drop pos contents)) end

unfoldable pub restart_or : (ℕ → Session (Option ℕ)) → ℕ → Option ℕ → Session (Option ℕ)
restart_or next pos none = next pos
restart_or next pos (some back) = pure (some back)

-- The inner loop of `SendData`: none behind the last block, else where to start again.
unfoldable pub block_loop : ℕ → Options → Bytes → ℕ → Session (Option ℕ)
unfolding proceed
block_loop zero o contents pos = out_of_rounds
block_loop (suc fuel) o contents pos =
    let count = block_count (length contents) pos in
    let last = leb (length contents) (pos + count) in
    send_slice o contents pos count (if last then zcrce else zcrcg)
    >> (if last
        then pure none
        else (check_for_restart >>= restart_or (block_loop fuel o contents) (pos + count)))

unfoldable pub send_blocks : Options → Bytes → ℕ → Session (Option ℕ)
send_blocks o contents pos = block_loop (suc (length contents)) o contents pos

-- The wait behind ZEOF: none when the receiver is ready, else where to start again.
unfoldable pub settle_turn : Session (Option ℕ) → ℕ → Header → Session (Option ℕ)
settle_turn next size answer =
    if answer.type == zrinit
    then pure none
    else if answer.type == zrpos
    then pure (some (min (position answer) size))
    else next

unfoldable pub settle_loop : ℕ → ℕ → Session (Option ℕ)
unfolding proceed
settle_loop zero size = out_of_rounds
settle_loop (suc fuel) size = await >>= settle_turn (settle_loop fuel size) size

unfoldable pub settle : ℕ → Session (Option ℕ)
settle size = with_rounds λ fuel. settle_loop fuel size

unfoldable pub again_or_done : (ℕ → Session (Unit {0})) → Option ℕ → Session (Unit {0})
again_or_done next none = pure tt
again_or_done next (some pos) = next pos

unfoldable pub round_end : (ℕ → Session (Unit {0})) → Options → ℕ → Option ℕ → Session (Unit {0})
unfolding proceed
round_end next o size (some back) = next back
round_end next o size none = do
  send_header o (make_position_header zeof (u32 size))
  settle size >>= again_or_done next

-- The outer loop of `SendData`.
unfoldable pub data_rounds : ℕ → Options → Bytes → ℕ → Session (Unit {0})
unfolding proceed
data_rounds zero o contents pos = out_of_rounds
data_rounds (suc fuel) o contents pos = do
  send_header o (make_position_header zdata (u32 pos))
  send_blocks o contents pos >>= round_end (data_rounds fuel o contents) o (length contents)

unfoldable pub send_data : Options → Bytes → ℕ → Session (Unit {0})
unfolding proceed
send_data o contents from =
    with_rounds λ fuel. data_rounds fuel o contents (min from (length contents))
