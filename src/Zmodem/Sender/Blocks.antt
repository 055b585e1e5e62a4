-- ===== src/Zmodem/Sender/Blocks.antt =====
-- How `Sender::SendData` cuts a file into blocks, and what it writes on a quiet channel.
use quick_logger.Prelude.{
  ℕ, zero, suc, ◌+◌, ◌-◌, ◌^◌, ◌≤◌, ◌<◌, Bool, true, false, List, [], ◌∷◌, ◌++◌, append_assoc, none,
  ◌≡◌, refl, ap, sym, ◌∙◌, ◌==◌, ltb, leb, min, arith, Bytes, length, take, drop,
}
use quick_logger.Zmodem.Frame.{data_subpacket, zpad, zcrce, zcrcg}
use quick_logger.Zmodem.Reader.{Read, byte, timeout, closed, Script}
use quick_logger.Zmodem.Session.{done, Line, proceed, send, write_on, keep_rest, raw_read}
use quick_logger.Zmodem.Sender.{
  Options, send_subpacket, restart_read, check_for_restart, block_count, send_slice, restart_or,
  block_loop,
}

-- The blocks of a file from a position on: 1024 bytes each, and what is left.
abbrev pub IsCut : Bytes → ℕ → List Bytes → Type 0
IsCut contents pos [] = ⊥
IsCut contents pos (b ∷ []) =
    (b ≡ take (length contents - pos) (drop pos contents)) × (length contents - pos ≤ 1024)
IsCut contents pos (b ∷ c ∷ bs) =
    (b ≡ take 1024 (drop pos contents))
    × (1024 < length contents - pos)
    × IsCut contents (pos + 1024) (c ∷ bs)

-- The subpackets of some blocks: the last one ends the frame.
unfoldable pub block_stream : Options → List Bytes → Bytes
block_stream o [] = []
block_stream o (b ∷ []) = data_subpacket b zcrce o.crc32 o.escape_controls
block_stream o (b ∷ c ∷ bs) =
    data_subpacket b zcrcg o.crc32 o.escape_controls ++ block_stream o (c ∷ bs)

-- A look for the receiver's header that finds none.
abbrev pub IsQuiet : Read → Type 0
IsQuiet (byte b) = (b == zpad) ≡ false
IsQuiet timeout = Unit
IsQuiet closed = ⊥

-- As many quiet reads as there are blocks before the last.
abbrev pub IsQuietFor : List Bytes → Script → Type 0
IsQuietFor [] s = s ≡ []
IsQuietFor (b ∷ []) s = s ≡ []
IsQuietFor (b ∷ c ∷ bs) [] = ⊥
IsQuietFor (b ∷ c ∷ bs) (r ∷ s) = IsQuiet r × IsQuietFor (c ∷ bs) s

abbrev pub trues : List Bytes → List Bool → List Bool
trues [] more = more
trues (b ∷ bs) more = true ∷ trues bs more

min_small : (n : ℕ) → n ≤ 1024 → min 1024 n ≡ n
min_small n h = omega arith

pub min_large : (n : ℕ) → 1024 < n → min 1024 n ≡ 1024
min_large n h = omega arith

module _ (o : Options) (contents : Bytes) (small : length contents < 2 ^ 64) where
  pub block_count_lem :
      (pos : ℕ)
      → pos ≤ length contents
      → block_count (length contents) pos ≡ min 1024 (length contents - pos)
  block_count_lem pos h = ap (min 1024) (omega arith)

  check_for_restart_quiet :
      (r : Read) (l : Line) (s : Script)
      → IsQuiet r
      → check_for_restart (record l { reads = r ∷ s }) ≡ (done none, record l { reads = s })
  unfolding check_for_restart raw_read keep_rest restart_read
  check_for_restart_quiet (byte b) l s h = rw h
  check_for_restart_quiet timeout l s h = refl
  check_for_restart_quiet closed l s h = absurd h

  pub send_slice_lem :
      (pos count end : ℕ) (more : List Bool) (l : Line)
      → pos + count ≤ length contents
      → send_slice o contents pos count end (record l { accepted = true ∷ more }) ≡ (
        done tt,
        record l {
          accepted = more;
          sent =
              l.sent
              ++ data_subpacket (take count (drop pos contents)) end o.crc32 o.escape_controls;
        },
      )
  unfolding send_slice send_subpacket send write_on
  send_slice_lem pos count end more l h = rw (inside (length contents) (pos + count) h)
    where
      inside : (size past : ℕ) → past ≤ size → ltb size past ≡ false
      inside size past h = ground arith

  last_block :
      (fuel pos : ℕ) (more : List Bool) (l : Line)
      → pos ≤ length contents
      → length contents - pos ≤ 1024
      → block_loop (suc fuel) o contents pos (record l { accepted = true ∷ more }) ≡ (
        done none,
        record l {
          accepted = more;
          sent =
              l.sent
              ++ data_subpacket
                  (take (length contents - pos) (drop pos contents))
                  zcrce
                  o.crc32
                  o.escape_controls;
        },
      )
  unfolding block_loop proceed
  last_block fuel pos more l h all = rw (
    block_count_lem pos h,
    min_small (length contents - pos) all,
    at_end (length contents) pos h,
    send_slice_lem pos (length contents - pos) zcrce more l (omega arith),
  )
    where
      at_end : (size p : ℕ) → p ≤ size → leb size (p + (size - p)) ≡ true
      at_end size p h = ground arith

  pub next_block :
      (fuel pos : ℕ) (more : List Bool) (r : Read) (s : Script) (l : Line)
      → pos ≤ length contents
      → 1024 < length contents - pos
      → IsQuiet r
      → block_loop (suc fuel) o contents pos (record l { reads = r ∷ s; accepted = true ∷ more })
        ≡ block_loop fuel o contents (pos + 1024) (record l {
          reads = s;
          accepted = more;
          sent =
              l.sent
              ++ data_subpacket (take 1024 (drop pos contents)) zcrcg o.crc32 o.escape_controls;
        })
  unfolding block_loop proceed
  next_block fuel pos more r s l h all q =
      rw
        (
          block_count_lem pos h,
          min_large (length contents - pos) all,
          inside (length contents) pos all,
          send_slice_lem pos 1024 zcrcg more (record l { reads = r ∷ s }) (omega arith),
          check_for_restart_quiet r
              (record l {
                accepted = more;
                sent =
                    l.sent
                    ++ data_subpacket (take 1024 (drop pos contents)) zcrcg o.crc32
                        o.escape_controls;
              })
              s q,
        )
        (unfold restart_or in refl)
    where
      inside : (size p : ℕ) → 1024 < size - p → leb size (p + 1024) ≡ false
      inside size p h = ground arith

  -- On a quiet channel that takes what is written, every block goes out.
  pub block_loop_cut :
      (fuel pos : ℕ) (bs : List Bytes) (quiet rest : Script) (more : List Bool) (l : Line)
      → length bs ≤ fuel
      → pos ≤ length contents
      → IsCut contents pos bs
      → IsQuietFor bs quiet
      → block_loop fuel o contents pos
          (record l { reads = quiet ++ rest; accepted = trues bs more })
        ≡ (
          done none,
          record l { reads = rest; accepted = more; sent = l.sent ++ block_stream o bs },
        )
  unfolding block_stream
  block_loop_cut fuel pos [] qs rest more l f h cut q = absurd cut
  block_loop_cut zero pos (b ∷ bs) qs rest more l f h cut q = absurd (omega arith)
  block_loop_cut (suc fuel) pos (b ∷ []) qs rest more l f h cut q =
      rw (q, cut.0) (last_block fuel pos more (record l { reads = rest }) h cut.1)
  block_loop_cut (suc fuel) pos (b ∷ c ∷ bs) [] rest more l f h cut q = absurd q
  block_loop_cut (suc fuel) pos (b ∷ c ∷ bs) (r ∷ qs) rest more l f h cut q =
      rw (next_block fuel pos (true ∷ trues bs more) r (qs ++ rest) l h cut.1 q.0, sym cut.0)
        (block_loop_cut fuel (pos + 1024) (c ∷ bs) qs rest more
            (record l { sent = l.sent ++ data_subpacket b zcrcg o.crc32 o.escape_controls })
            (omega arith) (omega arith) cut.2 q.1
          ∙ ap (λ bytes. (done none, record l { reads = rest; accepted = more; sent = bytes }))
              (append_assoc l.sent (data_subpacket b zcrcg o.crc32 o.escape_controls)
                (block_stream o (c ∷ bs))))
