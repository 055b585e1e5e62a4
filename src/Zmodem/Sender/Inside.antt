-- ===== src/Zmodem/Sender/Inside.antt =====
-- The inner loop of `Sender::SendData` reads only bytes of the file, from a position inside it.
use quick_logger.Prelude.{
  ℕ, zero, suc, ◌+◌, ◌-◌, ◌^◌, ◌≤◌, ◌<◌, Bool, true, false, not, ◌||◌, List, [], ◌∷◌, Option, none,
  some, ◌≡◌, ◌==◌, if◌then◌else◌, ltb, leb, min, arith, Bytes, length,
}
use quick_logger.Zmodem.Frame.{Header, zpad}
use quick_logger.Zmodem.Reader.{
  Read, byte, timeout, closed, Script, raw, Result, got, fail, timed_out, gone_away, cancelled, bad,
  too_big,
}
use quick_logger.Zmodem.HeaderReader.{read_header}
use quick_logger.Zmodem.Session.{
  Outcome, done, failed, overrun, unfinished, Line, Session, proceed, send, write_on, raw_read,
  keep_rest, header_read,
}
use quick_logger.Zmodem.Session.{zrpos, zcan, zabort}
use quick_logger.Zmodem.Sender.{
  Options, send_subpacket, restart_header, restart_read, check_for_restart, block_count, send_slice,
  restart_or, block_loop, send_blocks,
}
use quick_logger.Zmodem.Sender.Blocks.{block_count_lem}

-- No byte past the end of the file was read.
abbrev pub IsInside {ℓ} : {A : Type ℓ} → Outcome A → Type 0
IsInside (done a) = Unit
IsInside (failed c) = Unit
IsInside overrun = ⊥
IsInside unfinished = Unit

IsInside-then {ℓ κ} :
    {A : Type ℓ} {B : Type κ} (x : Outcome A × Line) (f : A → Session B)
    → IsInside x.0
    → ((a : A) (l : Line) → IsInside (f a l).0)
    → IsInside (proceed x f).0
unfolding proceed
IsInside-then (done a, l) f h k = k a l
IsInside-then (failed c, l) f h k = h
IsInside-then (overrun, l) f h k = h
IsInside-then (unfinished, l) f h k = h

IsInside-if {ℓ} :
    {A : Type ℓ} (b : Bool) (m k : Session A) (l : Line)
    → IsInside (m l).0
    → IsInside (k l).0
    → IsInside ((if b then m else k) l).0
IsInside-if true m k l hm hk = hm
IsInside-if false m k l hm hk = hk

send-IsInside : (bytes : Bytes) (l : Line) → IsInside (send bytes l).0
unfolding send
send-IsInside bytes l = on l.accepted
  where
    on : (accepted : List Bool) → IsInside (write_on accepted bytes l).0
    on [] = unfold write_on in tt
    on (true ∷ more) = unfold write_on in tt
    on (false ∷ more) = unfold write_on in tt

restart_header-IsInside : (r : Result (Header × Bool)) (l : Line) → IsInside (restart_header r l).0
unfolding restart_header
restart_header-IsInside (fail cancelled) l = tt
restart_header-IsInside (fail gone_away) l = tt
restart_header-IsInside (fail timed_out) l = tt
restart_header-IsInside (fail bad) l = tt
restart_header-IsInside (fail too_big) l = tt
restart_header-IsInside (got (header, long_check)) l =
    IsInside-if (header.type == zcan || header.type == zabort) _ _ l tt
      (IsInside-if (header.type == zrpos) _ _ l tt tt)

keep_rest-IsInside {ℓ} : {A : Type ℓ} (x : A × Script) (l : Line) → IsInside (keep_rest x l).0
unfolding keep_rest
keep_rest-IsInside (a, rest) l = tt

restart_read-IsInside : (r : Read) (l : Line) → IsInside (restart_read r l).0
unfolding restart_read header_read
restart_read-IsInside timeout l = tt
restart_read-IsInside closed l = tt
restart_read-IsInside (byte b) l = IsInside-if (not (b == zpad)) _ _ l tt (
    IsInside-then (keep_rest (read_header 1 l.reads) l) restart_header
      (keep_rest-IsInside (read_header 1 l.reads) l) restart_header-IsInside)

check_for_restart-IsInside : (l : Line) → IsInside (check_for_restart l).0
unfolding check_for_restart raw_read
check_for_restart-IsInside l =
    IsInside-then (keep_rest (raw l.reads) l) restart_read (keep_rest-IsInside (raw l.reads) l)
      restart_read-IsInside

module _ (o : Options) (contents : Bytes) (small : length contents < 2 ^ 64) where
  slice-IsInside :
      (pos end : ℕ) (l : Line)
      → pos ≤ length contents
      → IsInside (send_slice o contents pos (block_count (length contents) pos) end l).0
  unfolding send_slice send_subpacket
  slice-IsInside pos end l h =
      rw (within (length contents) pos _ h (block_count_lem o contents small pos h))
        (send-IsInside _ l)
    where
      within : (size p c : ℕ) → p ≤ size → c ≡ min 1024 (size - p) → ltb size (p + c) ≡ false
      within size p c h e = ground arith

  restart_or-IsInside :
      (next : ℕ → Session (Option ℕ)) (pos : ℕ) (back : Option ℕ) (l : Line)
      → ((l : Line) → IsInside (next pos l).0)
      → IsInside (restart_or next pos back l).0
  unfolding restart_or
  restart_or-IsInside next pos none l h = h l
  restart_or-IsInside next pos (some p) l h = tt

  block_loop-IsInside :
      (fuel pos : ℕ) (l : Line)
      → pos ≤ length contents
      → IsInside (block_loop fuel o contents pos l).0
  unfolding block_loop
  block_loop-IsInside zero pos l h = tt
  block_loop-IsInside (suc fuel) pos l h =
      IsInside-then (send_slice o contents pos (block_count (length contents) pos) _ l) _
        (slice-IsInside pos _ l h)
        (λ _ l'.
          IsInside-if (leb (length contents) (pos + block_count (length contents) pos)) _ _ l' tt (
            IsInside-then (check_for_restart l')
              (restart_or (block_loop fuel o contents) (pos + block_count (length contents) pos))
              (check_for_restart-IsInside l')
              (λ back l''.
                restart_or-IsInside (block_loop fuel o contents)
                  (pos + block_count (length contents) pos) back l''
                  (λ l3.
                    block_loop-IsInside fuel (pos + block_count (length contents) pos) l3
                      (omega (arith, block_count_lem o contents small pos h))))))

  -- From a position inside a file below 2 ^ 64 bytes, the loop over its blocks reads no byte past
  -- its end, whatever the channel answers.
  pub send_blocks-IsInside :
      (pos : ℕ) (l : Line) → pos ≤ length contents → IsInside (send_blocks o contents pos l).0
  unfolding send_blocks
  send_blocks-IsInside pos l h = block_loop-IsInside (suc (length contents)) pos l h
