-- ===== src/Zmodem/Transfer.antt =====
-- src/zmodem_protocol.cpp: a file on its way from a `Sender` to a `Receiver`.
use quick_logger.Prelude.{
  ℕ, zero, suc, ◌+◌, ◌^◌, ◌≤◌, ◌<◌, Bool, true, false, List, [], ◌∷◌, ◌++◌, ◌≡◌, refl, ◌∙◌, ==_refl,
  arith, Bytes, length, is_empty, take, drop, All,
}
use quick_logger.Zmodem.Frame.{Header, position, make_position_header, binary_header, hex_header}
use quick_logger.Zmodem.Frame.Position.{
  IsByte, make_position_header-IsHeader, position-make_position_header,
}
use quick_logger.Zmodem.Reader.{Script, arriving}
use quick_logger.Zmodem.Reader.Escapes.{arriving-append}
use quick_logger.Zmodem.Session.{
  File, done, Line, Session, proceed, send_hex_header, send, write_on, u32,
}
use quick_logger.Zmodem.Session.{zdata, zeof}
use quick_logger.Zmodem.Receiver.{
  ready_header, send_ready, receive_data, push_file, file_header, file_turn, file_loop,
}
use quick_logger.Zmodem.Receiver.Data.{
  joined, joined_cut, header_read-binary_header, receive_data-block_stream,
}
use quick_logger.Zmodem.Sender.{Options, send_data}
use quick_logger.Zmodem.Sender.Blocks.{IsCut, IsQuietFor, block_stream, trues}
use quick_logger.Zmodem.Sender.Data.{data_frames, send_data-data_frames}

module _ (next : File → Session (Unit {0})) (limit : ℕ) (file : File) (header : Header) where
  file_header_data :
      (long_check : Bool) (l : Line)
      → header.type ≡ zdata
      → position header ≡ length file.contents
      → file_header next limit file header long_check l
        ≡ proceed (receive_data long_check limit file l) next
  unfolding file_header
  file_header_data long_check l t p = rw (p, t, ==_refl (length file.contents))

  file_header_eof :
      (long_check : Bool) (l : Line)
      → header.type ≡ zeof
      → position header ≡ length file.contents
      → file_header next limit file header long_check l ≡ proceed (push_file file l) λ _. send_ready
  unfolding file_header
  file_header_eof long_check l t p = rw (p, t, ==_refl (length file.contents))

cut-ne-nil :
    (contents : Bytes) (pos : ℕ) (bs : List Bytes) → IsCut contents pos bs → is_empty bs ≡ false
cut-ne-nil contents pos [] cut = absurd cut
cut-ne-nil contents pos (b ∷ bs) cut = refl

take-All : (P : ℕ → Type 0) (n : ℕ) (xs : Bytes) → All P xs → All P (take n xs)
take-All P zero xs h = tt
take-All P (suc n) [] h = tt
take-All P (suc n) (x ∷ xs) h = (h.0, take-All P n xs h.1)

drop-All : (P : ℕ → Type 0) (n : ℕ) (xs : Bytes) → All P xs → All P (drop n xs)
drop-All P zero xs h = h
drop-All P (suc n) [] h = tt
drop-All P (suc n) (x ∷ xs) h = drop-All P n xs h.1

cut-All :
    (P : ℕ → Type 0) (contents : Bytes) (pos : ℕ) (bs : List Bytes)
    → All P contents
    → IsCut contents pos bs
    → All (All P) bs
cut-All P contents pos [] h cut = absurd cut
cut-All P contents pos (b ∷ []) h cut =
    (rw cut.0 (take-All P _ (drop pos contents) (drop-All P pos contents h)), tt)
cut-All P contents pos (b ∷ c ∷ bs) h cut = (
  rw cut.0 (take-All P 1024 (drop pos contents) (drop-All P pos contents h)),
  cut-All P contents (pos + 1024) (c ∷ bs) h cut.2,
)

module _ (o : Options) (limit : ℕ) where
  -- The first header of the data.
  begin_data :
      (fuel : ℕ) (file : File) (bs : List Bytes) (behind : Script) (l : Line)
      → file.contents ≡ []
      → is_empty bs ≡ false
      → All (All IsByte) bs
      → length (joined bs) ≤ limit
      → file_loop (suc fuel) limit file (record l {
        reads =
            arriving (binary_header (make_position_header zdata 0) o.crc32 o.escape_controls)
            ++ (arriving (block_stream o bs) ++ behind);
      })
        ≡ file_loop fuel limit (record file { contents = joined bs }) (record l { reads = behind })
  unfolding file_loop proceed
  begin_data fuel file bs behind l blank ne h fits =
      rw
        (header_read-binary_header o limit behind (make_position_header zdata 0)
          (arriving (block_stream o bs) ++ behind) l
          (make_position_header-IsHeader zdata 0 (omega arith)))
        (unfold file_turn in
          file_header_data (file_loop fuel limit) limit file (make_position_header zdata 0) o.crc32
            (record l { reads = arriving (block_stream o bs) ++ behind })
            (unfold make_position_header in refl)
            (position-make_position_header zdata 0 (omega arith) (omega arith) ∙ rw blank)
          ∙ rw
              (
                receive_data-block_stream o limit behind bs file l ne h (rw blank (omega arith)),
                blank,
              )
              (unfold proceed in refl))

  -- The header behind the data.
  end_data :
      (fuel : ℕ) (full : File) (more : List Bool) (behind : Script) (l : Line)
      → length full.contents < 2 ^ 32
      → file_loop (suc fuel) limit full (record l {
        reads =
            arriving (
              binary_header
                (make_position_header zeof (u32 (length full.contents)))
                o.crc32
                o.escape_controls)
            ++ behind;
        accepted = true ∷ more;
      })
        ≡ (
          done tt,
          record l {
            reads = behind;
            accepted = more;
            sent = l.sent ++ hex_header ready_header;
            received = l.received ++ full ∷ [];
          },
        )
  unfolding file_loop proceed
  end_data fuel full more behind l small =
      rw
        (header_read-binary_header o limit behind header behind
          (record l { accepted = true ∷ more })
          (make_position_header-IsHeader zeof _ (omega arith)))
        (unfold file_turn in
          file_header_eof (file_loop fuel limit) limit full header o.crc32
            (record l { reads = behind; accepted = true ∷ more })
            (unfold make_position_header in refl)
            (position-make_position_header zeof _ (omega arith) (omega arith) ∙ whole)
          ∙ (unfold push_file proceed send_ready send_hex_header send write_on in refl))
    where
      header : Header
      header = make_position_header zeof (u32 (length full.contents))

      whole : u32 (length full.contents) ≡ length full.contents
      whole = omega arith

  -- x
  pub file_loop-data_frames :
      (fuel : ℕ) (file : File) (contents : Bytes) (bs : List Bytes) (more : List Bool)
      (behind : Script) (l : Line)
      → file.contents ≡ []
      → IsCut contents 0 bs
      → All (All IsByte) bs
      → length contents ≤ limit
      → length contents < 2 ^ 32
      → file_loop (suc (suc fuel)) limit file (record l {
        reads = arriving (data_frames o contents bs) ++ behind;
        accepted = true ∷ more;
      })
        ≡ (
          done tt,
          record l {
            reads = behind;
            accepted = more;
            sent = l.sent ++ hex_header ready_header;
            received = l.received ++ record file { contents = contents } ∷ [];
          },
        )
  file_loop-data_frames fuel file contents bs more behind l blank cut h fits small =
      rw
        (
          arriving-append opening (block_stream o bs ++ ending) behind,
          arriving-append (block_stream o bs) ending behind,
          begin_data (suc fuel) file bs (arriving ending ++ behind)
              (record l { accepted = true ∷ more }) blank (cut-ne-nil contents 0 bs cut) h
              (rw whole fits),
          whole,
        )
        (end_data fuel (record file { contents = contents }) more behind l small)
    where
      whole : joined bs ≡ contents
      whole = joined_cut contents 0 bs cut

      opening : Bytes
      opening = binary_header (make_position_header zdata 0) o.crc32 o.escape_controls

      ending : Bytes
      ending =
          binary_header (make_position_header zeof (u32 (length contents))) o.crc32
            o.escape_controls

-- The two ends of a transfer: a sender whose channel is quiet, and a receiver that waits for the
-- data of a file.
abbrev pub sender_line : List Bytes → Script → Line
sender_line bs quiet = record {
  reads = quiet ++ (arriving (hex_header ready_header) ++ []);
  passed = false ∷ [];
  accepted = true ∷ trues bs (true ∷ []);
  sent = [];
  received = [];
}

abbrev pub receiver_line : Bytes → Line
receiver_line bytes = record {
  reads = arriving bytes ++ [];
  passed = [];
  accepted = true ∷ [];
  sent = [];
  received = [];
}

-- For a file whose contents are bytes, fit the receiver's limit and are below 2 ^ 32 in number:
-- where SendData is run from the start on a channel that takes what is written and is quiet until
-- the receiver is ready, by either checksum and with control characters escaped or not, the loop
-- of ReceiveFile that reads what SendData wrote succeeds, keeps one file with exactly those
-- contents and answers that it is ready.
pub file_loop-send_data :
    (o : Options) (limit fuel : ℕ) (file : File) (contents : Bytes) (bs : List Bytes)
    (quiet : Script)
    → file.contents ≡ []
    → All IsByte contents
    → length contents ≤ limit
    → length contents < 2 ^ 32
    → IsCut contents 0 bs
    → IsQuietFor bs quiet
    → let sent = (send_data o contents 0 (sender_line bs quiet)).1.sent in
      let result = file_loop (suc (suc fuel)) limit file (receiver_line sent) in
      (result.0 ≡ done tt)
      × (result.1.received ≡ record file { contents = contents } ∷ [])
      × (result.1.sent ≡ hex_header ready_header)
file_loop-send_data o limit fuel file contents bs quiet blank h fits small cut q =
    rw
      (send_data-data_frames o contents bs quiet [] [] [] (sender_line bs quiet) (omega arith) cut
        q)
      (rw
        (file_loop-data_frames o limit fuel file contents bs [] [] (receiver_line []) blank cut
          (cut-All IsByte contents 0 bs h cut) fits small)
        (refl, refl, refl))
