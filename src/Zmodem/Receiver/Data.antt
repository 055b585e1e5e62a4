-- ===== src/Zmodem/Receiver/Data.antt =====
-- `Receiver::ReceiveFile` and `ReceiveData` on the frames that a sender makes of a file.
use quick_logger.Prelude.{
  ℕ, zero, suc, ◌+◌, ◌-◌, ◌≤◌, ◌<◌, true, false, List, [], ◌∷◌, ◌++◌, append-nil, append_assoc, ◌≡◌,
  refl, ap, sym, ◌∙◌, ◌==◌, arith, Bytes, length, length-append, take-drop, is_empty, take, drop,
  All,
}
use quick_logger.Zmodem.Frame.{
  Header, binary_header, data_subpacket, put_all, zdle, zcrce, zcrcg, zcrcw,
}
use quick_logger.Zmodem.Frame.Position.{IsByte, IsHeader}
use quick_logger.Zmodem.Reader.{Script, arriving, got}
use quick_logger.Zmodem.Reader.Escapes.{arriving-append}
use quick_logger.Zmodem.HeaderReader.RoundTrip.{read_header-binary_header}
use quick_logger.Zmodem.SubpacketReader.RoundTrip.{is_end, read_subpacket-data_subpacket}
use quick_logger.Zmodem.Session.{File, done, Line, proceed, keep_rest, header_read, subpacket_read}
use quick_logger.Zmodem.Receiver.{acknowledge, data_turn, data_loop, receive_data}
use quick_logger.Zmodem.Sender.{Options}
use quick_logger.Zmodem.Sender.Blocks.{IsCut, block_stream}

-- The blocks of a file, one behind the other.
abbrev pub joined : List Bytes → Bytes
joined [] = []
joined (b ∷ bs) = b ++ joined bs

drop-nil : (n : ℕ) → drop {A = ℕ} n [] ≡ []
drop-nil zero = refl
drop-nil (suc n) = refl

drop-drop : (m n : ℕ) (xs : Bytes) → drop m (drop n xs) ≡ drop (n + m) xs
drop-drop m zero xs = ap (λ k. drop k xs) (omega arith)
drop-drop m (suc n) [] = drop-nil m ∙ sym (drop-nil (suc n + m))
drop-drop m (suc n) (x ∷ xs) = drop-drop m n xs ∙ ap (λ k. drop k (x ∷ xs)) (suc_out n m)
  where
    suc_out : (n m : ℕ) → suc (n + m) ≡ suc n + m
    suc_out n m = omega arith

length-drop : (n : ℕ) (xs : Bytes) → length (drop n xs) ≡ length xs - n
length-drop zero xs = omega arith
length-drop (suc n) [] = omega arith
length-drop (suc n) (x ∷ xs) = omega (arith, length-drop n xs)

take_all : (n : ℕ) (xs : Bytes) → length xs ≤ n → take n xs ≡ xs
take_all zero [] h = refl
take_all zero (x ∷ xs) h = absurd (omega arith)
take_all (suc n) [] h = refl
take_all (suc n) (x ∷ xs) h = ap (λ rest. x ∷ rest) (take_all n xs (omega arith))

-- The blocks that a file is cut into make up the file.
pub joined_cut :
    (contents : Bytes) (pos : ℕ) (bs : List Bytes)
    → IsCut contents pos bs
    → joined bs ≡ drop pos contents
joined_cut contents pos [] cut = absurd cut
joined_cut contents pos (b ∷ []) cut =
    append-nil b
    ∙ cut.0
    ∙ take_all (length contents - pos) (drop pos contents) (omega (arith, length-drop pos contents))
joined_cut contents pos (b ∷ c ∷ bs) cut =
    ap (λ rest. b ++ rest) (joined_cut contents (pos + 1024) (c ∷ bs) cut.2)
    ∙ ap (λ front. front ++ drop (pos + 1024) contents) cut.0
    ∙ ap (λ back. take 1024 (drop pos contents) ++ back) (sym (drop-drop 1024 pos contents))
    ∙ take-drop 1024 (drop pos contents)

length-arriving : (xs : Bytes) (s : Script) → length (arriving xs ++ s) ≡ length xs + length s
length-arriving [] s = omega arith
length-arriving (x ∷ xs) s = omega (arith, length-arriving xs s)

module _ (o : Options) (limit : ℕ) (rest : Script) where
  pub subpacket_read-data_subpacket :
      (filled bs : Bytes) (end : ℕ) (behind : Script) (l : Line)
      → is_end end ≡ true
      → (end == zcrcw) ≡ false
      → All IsByte bs
      → length filled + length bs ≤ limit
      → subpacket_read o.crc32 filled limit (record l {
        reads = arriving (data_subpacket bs end o.crc32 o.escape_controls) ++ behind;
      })
        ≡ (done (got (filled ++ bs, end)), record l { reads = behind })
  unfolding subpacket_read keep_rest
  subpacket_read-data_subpacket filled bs end behind l e other h fits = rw (
    read_subpacket-data_subpacket filled bs end limit o.crc32 o.escape_controls behind e h fits,
    other,
  )

  data_loop-block_stream :
      (bs : List Bytes) (fuel : ℕ) (file : File) (l : Line)
      → length bs ≤ fuel
      → is_empty bs ≡ false
      → All (All IsByte) bs
      → length file.contents + length (joined bs) ≤ limit
      → data_loop fuel o.crc32 limit file
          (record l { reads = arriving (block_stream o bs) ++ rest })
        ≡ (done (record file { contents = file.contents ++ joined bs }), record l { reads = rest })
  unfolding data_loop proceed block_stream data_turn acknowledge
  data_loop-block_stream [] fuel file l f ne h fits = cc
  data_loop-block_stream (b ∷ bs) zero file l f ne h fits = absurd (omega arith)
  data_loop-block_stream (b ∷ []) (suc fuel) file l f ne h fits = rw (
    subpacket_read-data_subpacket file.contents b zcrce rest l refl refl h.0
        (omega (arith, length-append b [])),
    append-nil b,
  )
  data_loop-block_stream (b ∷ c ∷ bs) (suc fuel) file l f ne h fits =
      rw
        (
          arriving-append (data_subpacket b zcrcg o.crc32 o.escape_controls)
              (block_stream o (c ∷ bs)) rest,
          subpacket_read-data_subpacket file.contents b zcrcg
              (arriving (block_stream o (c ∷ bs)) ++ rest) l refl refl h.0
              (omega (arith, length-append b (joined (c ∷ bs)))),
        )
        (data_loop-block_stream (c ∷ bs) fuel (record file { contents = file.contents ++ b }) l
            (omega arith) refl h.1
            (omega (arith, length-append file.contents b, length-append b (joined (c ∷ bs))))
          ∙ ap (λ bytes. (done (record file { contents = bytes }), record l { reads = rest }))
              (append_assoc file.contents b (joined (c ∷ bs))))

  data_subpacket-ne-nil :
      (b : Bytes) (end : ℕ) → 0 < length (data_subpacket b end o.crc32 o.escape_controls)
  unfolding data_subpacket
  data_subpacket-ne-nil b end =
      omega (arith, length-append (put_all o.escape_controls 0 b) (zdle ∷ end ∷ _))

  length-block_stream :
      (bs : List Bytes) → length bs ≤ length (arriving (block_stream o bs) ++ rest)
  unfolding block_stream
  length-block_stream [] = omega arith
  length-block_stream (b ∷ []) = omega (
    arith,
    length-arriving (data_subpacket b zcrce o.crc32 o.escape_controls) rest,
    data_subpacket-ne-nil b zcrce,
  )
  length-block_stream (b ∷ c ∷ bs) = omega (
    arith,
    length-arriving (data_subpacket b zcrcg o.crc32 o.escape_controls ++ block_stream o (c ∷ bs))
        rest,
    length-append (data_subpacket b zcrcg o.crc32 o.escape_controls) (block_stream o (c ∷ bs)),
    length-arriving (block_stream o (c ∷ bs)) rest,
    data_subpacket-ne-nil b zcrcg,
    length-block_stream (c ∷ bs),
  )

  pub header_read-binary_header :
      (h : Header) (behind : Script) (l : Line)
      → IsHeader h
      → header_read 0
          (record l { reads = arriving (binary_header h o.crc32 o.escape_controls) ++ behind })
        ≡ (done (got (h, o.crc32)), record l { reads = behind })
  unfolding header_read keep_rest
  header_read-binary_header h behind l v =
      rw (read_header-binary_header [] h o.crc32 o.escape_controls behind tt v)

  pub receive_data-block_stream :
      (bs : List Bytes) (file : File) (l : Line)
      → is_empty bs ≡ false
      → All (All IsByte) bs
      → length file.contents + length (joined bs) ≤ limit
      → receive_data o.crc32 limit file (record l { reads = arriving (block_stream o bs) ++ rest })
        ≡ (done (record file { contents = file.contents ++ joined bs }), record l { reads = rest })
  unfolding receive_data
  receive_data-block_stream bs file l ne h fits =
      data_loop-block_stream bs (suc (length (arriving (block_stream o bs) ++ rest))) file l
        (omega (arith, length-block_stream bs)) ne h fits
