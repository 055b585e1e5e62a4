-- ===== src/Zmodem/Batch/Ends.antt =====
-- The loops of `SendData`, `SendFile`, `Finish` and `Run` have rounds enough.
use quick_logger.Prelude.{
  ℕ, zero, suc, ◌-◌, ◌^◌, ◌<◌, Bool, List, [], ◌∷◌, Option, none, some, ◌==◌, min, arith, Bytes,
  codes, length, All,
}
use quick_logger.Zmodem.Frame.{Header, position, zfin}
use quick_logger.Zmodem.Reader.{Result, got, fail, timed_out, gone_away, cancelled, bad, too_big}
use quick_logger.Zmodem.Session.{
  File, Outcome, done, failed, overrun, unfinished, Line, Session, send, send_hex_header,
  header_read,
}
use quick_logger.Zmodem.Session.Logic.{Within, Shrinks, send-Ends, header_read-Ends}
use quick_logger.Zmodem.Session.{zskip, zrpos, zcrc}
use quick_logger.Zmodem.Sender.{
  Options, send_header, send_subpacket, start, await, block_loop, send_blocks, settle,
  again_or_done, round_end, data_rounds, send_data,
}
use quick_logger.Zmodem.Batch.{
  offer_turn, offer_loop, send_file, finish_turn, finish_loop, finish, total_size, send_files,
  batch_behind, zmodem_send,
}
use quick_logger.Zmodem.Sender.Ends.{
  Good, Ended, Safe, Ends-if, Ends-then, fewer, sent-Ends, early-Ends, start-Ends, await-Ends,
}
use quick_logger.Zmodem.Sender.Ends.Blocks.{Back, block_loop-Ends, settle-Ends}

module _ (o : Options) (contents : Bytes) (small : length contents < 2 ^ 64) where
  again_or_done-Ends :
      (k : ℕ) (next : ℕ → Session (Unit {0})) (back : Option ℕ) (l : Line)
      → ((pos : ℕ) → Safe k (next pos) Ended)
      → Back k back l
      → Good Ended (again_or_done next back l)
  unfolding again_or_done
  again_or_done-Ends k next none l go h = (tt, tt)
  again_or_done-Ends k next (some pos) l go h = go pos l h

  round_end-Ends :
      (k : ℕ) (next : ℕ → Session (Unit {0})) (back : Option ℕ) (l : Line)
      → ((pos : ℕ) → Safe k (next pos) Ended)
      → Back k back l
      → Good Ended (round_end next o (length contents) back l)
  unfolding round_end send_header
  round_end-Ends k next (some pos) l go h = go pos l h
  round_end-Ends k next none l go h =
      sent-Ends (suc k) Ended _ _
        (λ l' h'.
          Ends-then (Back k) Ended (settle (length contents) l') (again_or_done next)
            (settle-Ends k (length contents) l' h')
            (λ back l'' h''. again_or_done-Ends k next back l'' go h''))
        l h

  data_rounds-Ends : (fuel pos : ℕ) → Safe fuel (data_rounds fuel o contents pos) Ended
  unfolding data_rounds send_header send_blocks
  data_rounds-Ends zero pos l h = absurd (omega arith)
  data_rounds-Ends (suc k) pos l h =
      sent-Ends (suc k) Ended _ _
        (λ l' h'.
          Ends-then (Back k) Ended (block_loop (suc (length contents)) o contents pos l')
            (round_end (data_rounds k o contents) o (length contents))
            (block_loop-Ends o contents small k (suc (length contents)) pos (omega arith) l' h')
            (λ back l'' h''.
              round_end-Ends k (data_rounds k o contents) back l'' (data_rounds-Ends k) h''))
        l h

  send_data-Ends : (from n : ℕ) → Safe n (send_data o contents from) Ended
  unfolding send_data
  send_data-Ends from n l h =
      data_rounds-Ends (suc (length l.reads)) (min from (length contents)) l (omega arith)

  offer_turn-Ends :
      (k : ℕ) (next : Session (Unit {0})) (answer : Header) (l : Line)
      → Safe k next Ended
      → length l.reads < k
      → Good Ended (offer_turn next o contents answer l)
  unfolding offer_turn send_header
  offer_turn-Ends k next answer l go h =
      Ends-if Ended (answer.type == zskip) _ _ l (tt, tt)
        (Ends-if Ended (answer.type == zrpos) _ _ l (send_data-Ends (position answer) k l h)
          (Ends-if Ended (answer.type == zcrc) _ _ l (sent-Ends k Ended _ next go l h) (go l h)))

  offer_loop-Ends : (fuel : ℕ) → Safe fuel (offer_loop fuel o contents) Ended
  unfolding offer_loop
  offer_loop-Ends zero l h = absurd (omega arith)
  offer_loop-Ends (suc k) l h =
      Ends-then (Within k) Ended (await l) (offer_turn (offer_loop k o contents) o contents)
        (await-Ends k l h)
        (λ answer l' h'.
          offer_turn-Ends k (offer_loop k o contents) answer l' (offer_loop-Ends k) h')

send_file-Ends :
    (o : Options) (file : File) (files_left bytes_left : ℕ) (l : Line)
    → length file.contents < 2 ^ 64
    → Good Ended (send_file o file files_left bytes_left l)
unfolding send_file send_header send_subpacket
send_file-Ends o file files_left bytes_left l small =
    sent-Ends (suc (length l.reads)) Ended _ _
      (sent-Ends (suc (length l.reads)) Ended _ _
        λ l' h'. offer_loop-Ends o file.contents small (suc (length l'.reads)) l' (omega arith))
      l (omega arith)

weaken : (k : ℕ) (x : Outcome (Unit {0}) × Line) → Good (Within k) x → Good Ended x
weaken k (done a, l') g = (tt, tt)
weaken k (failed e, l') g = tt
weaken k (overrun, l') g = tt
weaken k (unfinished, l') g = g

finish_turn-Ends :
    (k : ℕ) (next : Session (Unit {0})) (r : Result (Header × Bool)) (l : Line)
    → Safe k next Ended
    → Shrinks k r l
    → Good Ended (finish_turn next r l)
unfolding finish_turn
finish_turn-Ends k next (fail gone_away) l go h = (tt, tt)
finish_turn-Ends k next (fail cancelled) l go h = go l (fewer l h (λ e. cc))
finish_turn-Ends k next (fail timed_out) l go h = go l (fewer l h (λ e. cc))
finish_turn-Ends k next (fail bad) l go h = go l (fewer l h (λ e. cc))
finish_turn-Ends k next (fail too_big) l go h = go l (fewer l h (λ e. cc))
finish_turn-Ends k next (got (header, long_check)) l go h =
    Ends-if Ended (header.type == zfin) _ _ l
      (weaken k (send (codes "OO") l)
        (send-Ends (λ files. Unit) Unit k (codes "OO") l tt (fewer l h (λ e. cc))))
      (go l (fewer l h (λ e. cc)))

finish_loop-Ends : (fuel : ℕ) → Safe fuel (finish_loop fuel) Ended
unfolding finish_loop
finish_loop-Ends zero l h = absurd (omega arith)
finish_loop-Ends (suc k) l h =
    early-Ends (suc k) Ended _ _ (λ l' h'. (tt, tt))
      (λ l' h'.
        Ends-then (Shrinks k) Ended (header_read 0 l') (finish_turn (finish_loop k))
          (header_read-Ends (λ files. Unit) Unit k 0 l' tt h')
          (λ r l'' h''. finish_turn-Ends k (finish_loop k) r l'' (finish_loop-Ends k) h''))
      l h

finish-Ends : (l : Line) → Good Ended (finish l)
unfolding finish send_hex_header
finish-Ends l =
    sent-Ends (suc (length l.reads)) Ended _ _
      (λ l' h'. finish_loop-Ends (suc (length l'.reads)) l' (omega arith)) l (omega arith)

-- The size of a file is a `std::size_t`.
abbrev pub IsSized : File → Type 0
IsSized file = length file.contents < 2 ^ 64

send_files-Ends :
    (o : Options) (files : List File) (bytes_left : ℕ) (l : Line)
    → All IsSized files
    → Good Ended (send_files o files bytes_left l)
unfolding send_files
send_files-Ends o [] bytes_left l h = finish-Ends l
send_files-Ends o (f ∷ fs) bytes_left l h =
    Ends-then Ended Ended (send_file o f (suc (length fs)) bytes_left l) _
      (send_file-Ends o f (suc (length fs)) bytes_left l h.0)
      (λ _ l' _. send_files-Ends o fs (bytes_left - length f.contents) l' h.1)

-- Every loop ended by itself.
abbrev pub IsFinished {ℓ} : {A : Type ℓ} → Outcome A → Type 0
IsFinished (done a) = Unit
IsFinished (failed c) = Unit
IsFinished overrun = Unit
IsFinished unfinished = ⊥

-- The fuel of the sender's loops is enough for any list of reads, for files below 2 ^ 64 bytes.
pub zmodem_send-IsFinished :
    (files : List File) (l : Line) → All IsSized files → IsFinished (zmodem_send files l).1.0
unfolding zmodem_send batch_behind
zmodem_send-IsFinished files l h = behind (start l) (start-Ends l)
  where
    finished : (x : Outcome (Unit {0}) × Line) → Good Ended x → IsFinished x.0
    finished (done a, l') g = tt
    finished (failed c, l') g = tt
    finished (overrun, l') g = tt
    finished (unfinished, l') g = g

    behind : (x : Outcome Options × Line) → Good Ended x → IsFinished (batch_behind files x).1.0
    behind (done o, l') g =
        finished (send_files o files (total_size files) l')
          (send_files-Ends o files (total_size files) l' h)
    behind (failed c, l') g = tt
    behind (overrun, l') g = tt
    behind (unfinished, l') g = g
