-- ===== src/Zmodem/Sender/Data.antt =====
-- `Sender::SendData` as a whole, on a channel that is quiet until the receiver is ready.
use quick_logger.Prelude.{
  ℕ, suc, ◌+◌, ◌-◌, ◌^◌, ◌≤◌, ◌<◌, Bool, true, false, List, [], ◌∷◌, ◌++◌, append_assoc, none, ◌≡◌,
  refl, ap, ◌∙◌, min, arith, Bytes, length,
}
use quick_logger.Zmodem.Frame.{make_position_header, binary_header, hex_header, hex_trailer}
use quick_logger.Zmodem.Reader.{Script, arriving, got}
use quick_logger.Zmodem.HeaderReader.RoundTrip.{read_header-hex_header}
use quick_logger.Zmodem.Session.{
  Outcome, done, Line, proceed, send, write_on, is_past, look, keep_rest, header_read, u32,
}
use quick_logger.Zmodem.Session.{zdata, zeof}
use quick_logger.Zmodem.Receiver.{ready_header}
use quick_logger.Zmodem.Sender.{
  Options, send_header, while_early, await_turn, await_loop, await, send_blocks, settle_turn,
  settle_loop, settle, again_or_done, round_end, data_rounds, send_data,
}
use quick_logger.Zmodem.Sender.Blocks.{IsCut, block_stream, IsQuietFor, trues, block_loop_cut}

-- What a file becomes: where its data begin, its blocks, and where it ends.
abbrev pub data_frames : Options → Bytes → List Bytes → Bytes
data_frames o contents bs =
    binary_header (make_position_header zdata 0) o.crc32 o.escape_controls
    ++ (block_stream o bs
        ++ binary_header (make_position_header zeof (u32 (length contents))) o.crc32
            o.escape_controls)

cut-length :
    (contents : Bytes) (pos : ℕ) (bs : List Bytes)
    → IsCut contents pos bs
    → length bs ≤ suc (length contents - pos)
cut-length contents pos [] cut = absurd cut
cut-length contents pos (b ∷ []) cut = omega arith
cut-length contents pos (b ∷ c ∷ bs) cut =
    omega (arith, cut-length contents (pos + 1024) (c ∷ bs) cut.2)

pub min_zero : (n : ℕ) → min 0 n ≡ 0
min_zero n = omega arith

-- The receiver's ready header, read at once.
header_read_ready :
    (rest : Script) (l : Line)
    → header_read 0 (record l { reads = arriving (hex_header ready_header) ++ rest }) ≡ (
      done (got (ready_header, false)),
      record l { reads = arriving (hex_trailer ready_header) ++ rest },
    )
unfolding header_read keep_rest
header_read_ready rest l = rw (read_header-hex_header [] ready_header rest tt (omega arith))

await_ready :
    (rest : Script) (passed : List Bool) (l : Line)
    → await
        (record l { reads = arriving (hex_header ready_header) ++ rest; passed = false ∷ passed })
      ≡ (
        done ready_header,
        record l { reads = arriving (hex_trailer ready_header) ++ rest; passed = passed },
      )
unfolding await await_loop is_past look while_early proceed
await_ready rest passed l =
    rw (header_read_ready rest (record l { passed = passed })) (unfold await_turn in refl)

settle_ready :
    (size : ℕ) (rest : Script) (passed : List Bool) (l : Line)
    → settle size
        (record l { reads = arriving (hex_header ready_header) ++ rest; passed = false ∷ passed })
      ≡ (
        done none,
        record l { reads = arriving (hex_trailer ready_header) ++ rest; passed = passed },
      )
unfolding settle settle_loop proceed
settle_ready size rest passed l = rw (await_ready rest passed l) (unfold settle_turn in refl)

-- Where the channel takes what is written, each look for the receiver's header before the last
-- block finds none, and the receiver then says that it is ready before the deadline, SendData
-- succeeds, and has written the header of the data, the blocks of the file and the header of its
-- end, for a file below 2 ^ 64 bytes.
pub send_data-data_frames :
    (o : Options) (contents : Bytes) (bs : List Bytes) (quiet rest : Script)
    (passed more : List Bool) (l : Line)
    → length contents < 2 ^ 64
    → IsCut contents 0 bs
    → IsQuietFor bs quiet
    → send_data o contents 0 (record l {
      reads = quiet ++ (arriving (hex_header ready_header) ++ rest);
      passed = false ∷ passed;
      accepted = true ∷ trues bs (true ∷ more);
    })
      ≡ (
        done tt,
        record l {
          reads = arriving (hex_trailer ready_header) ++ rest;
          passed = passed;
          accepted = more;
          sent = l.sent ++ data_frames o contents bs;
        },
      )
unfolding send_data data_rounds send_header send write_on proceed send_blocks
send_data-data_frames o contents bs quiet rest passed more l small cut q =
    rw
      (
        min_zero (length contents),
        block_loop_cut o contents small (suc (length contents)) 0 bs quiet
            (arriving (hex_header ready_header) ++ rest) (true ∷ more)
            (record l { passed = false ∷ passed; sent = l.sent ++ opening })
            (omega (arith, cut-length contents 0 bs cut)) (omega arith) cut q,
      )
      (unfold round_end in
        rw
          (settle_ready (length contents) rest passed
            (record l { accepted = more; sent = l.sent ++ opening ++ block_stream o bs ++ ending }))
          (unfold again_or_done in ap (finished passed) together))
  where
    opening : Bytes
    opening = binary_header (make_position_header zdata 0) o.crc32 o.escape_controls

    finished : List Bool → Bytes → Outcome (Unit {0}) × Line
    finished p bytes = (
      done tt,
      record l {
        reads = arriving (hex_trailer ready_header) ++ rest;
        passed = p;
        accepted = more;
        sent = bytes;
      },
    )

    ending : Bytes
    ending =
        binary_header (make_position_header zeof (u32 (length contents))) o.crc32 o.escape_controls

    together :
        l.sent ++ opening ++ block_stream o bs ++ ending
        ≡ l.sent ++ (opening ++ (block_stream o bs ++ ending))
    together =
        append_assoc (l.sent ++ opening) (block_stream o bs) ending
        ∙ append_assoc l.sent opening (block_stream o bs ++ ending)
