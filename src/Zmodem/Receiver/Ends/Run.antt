-- ===== src/Zmodem/Receiver/Ends/Run.antt =====
-- `Receiver::Run` and `ZmodemReceive`.
use quick_logger.Prelude.{ℕ, zero, suc, ◌+◌, Bool, true, false, ◌||◌, [], ◌==◌, arith, length, All}
use quick_logger.Zmodem.Frame.{Header, make_position_header, zack, zfin}
use quick_logger.Zmodem.Reader.{Result, got, fail, timed_out, gone_away, cancelled, bad, too_big}
use quick_logger.Zmodem.Session.{
  Outcome, done, failed, overrun, unfinished, Line, Session, ◌>>=◌, pure, send_hex_header, is_past,
  raw_read, header_read, subpacket_read,
}
use quick_logger.Zmodem.Session.Logic.{
  Ends, Ends-proceed, Shrinks, is_past-Ends, raw_read-Ends, header_read-Ends, subpacket_read-Within,
}
use quick_logger.Zmodem.Session.{zsinit, zfile, zrqinit, zabort, zcan, bare_header, znak}
use quick_logger.Zmodem.Receiver.{
  send_ready, receive_file, run_header, remind, unless_late, run_turn, run_loop, zmodem_receive,
}
use quick_logger.Zmodem.Receiver.Ends.{
  IsKept, Kept, Good, Safe, Ends-if, Ends-then, say, fewer, send_ready-Ends, remind-Ends,
  receive_file-Ends,
}

abbrev Ended {ℓ} : {A : Type ℓ} → A → Line → Type 0
Ended a l = Unit

module _ (limit : ℕ) where
  -- Saying a header, and what follows it.
  said {ℓ} :
      {A : Type ℓ} (n : ℕ) (Q : A → Line → Type 0) (header : Header) (m : Session A)
      → Safe limit n m Q
      → Safe limit n (send_hex_header header >>= λ _. m) Q
  said n Q header m go l j h =
      Ends-then limit n Q (send_hex_header header l) _ (say limit n header l j h) λ _. go

  ready_said {ℓ} :
      {A : Type ℓ} (n : ℕ) (Q : A → Line → Type 0) (m : Session A)
      → Safe limit n m Q
      → Safe limit n (send_ready >>= λ _. m) Q
  ready_said n Q m go l j h =
      Ends-then limit n Q (send_ready l) _ (send_ready-Ends limit n l j h) λ _. go

  closing-Ends :
      (n : ℕ) → Safe limit n (raw_read >>= λ _. raw_read >>= λ _. pure {A = Unit {0}} tt) Ended
  closing-Ends n l j h =
      Ends-then limit n Ended (raw_read l) _ (raw_read-Ends (Kept limit) ⊥ n l j h) λ _ l' j' h'.
        Ends-then limit n Ended (raw_read l') _ (raw_read-Ends (Kept limit) ⊥ n l' j' h')
          λ _ l'' j'' h''. (j'', tt)

  module _ (k : ℕ) (next : ℕ → Session (Unit {0})) where
    run_header-Ends :
        (asks : ℕ) (header : Header) (long_check : Bool)
        → ((a : ℕ) → Safe limit k (next a) Ended)
        → Safe limit k (run_header next limit asks header long_check) Ended
    unfolding run_header
    run_header-Ends asks header long_check go l j h =
        Ends-if limit Ended (header.type == zrqinit) _ _ l
          (ready_said k Ended (next asks) (go asks) l j h)
          (Ends-if limit Ended (header.type == zsinit) _ _ l
            (Ends-then limit k Ended (subpacket_read long_check [] 4096 l) _
              (subpacket_read-Within (Kept limit) ⊥ k 4096 long_check [] l j (omega arith) h)
              λ _. said k Ended (make_position_header zack 1) (next asks) (go asks))
            (Ends-if limit Ended (header.type == zfile) _ _ l
              (Ends-then limit k Ended (receive_file limit long_check l) _
                (receive_file-Ends limit k long_check l j h) λ _. go asks)
              (Ends-if limit Ended (header.type == zfin) _ _ l
                (said k Ended (bare_header zfin) _ (closing-Ends k) l j h)
                (Ends-if limit Ended (header.type == zcan || header.type == zabort) _ _ l j
                  (go asks l j h)))))

    unless_late-Ends :
        (late : Bool) (m : Session (Unit {0}))
        → Safe limit k m Ended
        → Safe limit k (unless_late late m) Ended
    unfolding unless_late
    unless_late-Ends true m go l j h = j
    unless_late-Ends false m go l j h = go l j h

    run_turn-Ends :
        (asks : ℕ) (r : Result (Header × Bool)) (l : Line)
        → Kept limit l.received
        → Shrinks k r l
        → ((a : ℕ) → Safe limit k (next a) Ended)
        → Good limit Ended (run_turn next limit asks r l)
    unfolding run_turn
    run_turn-Ends asks (fail gone_away) l j h go = j
    run_turn-Ends asks (fail cancelled) l j h go = j
    run_turn-Ends asks (fail bad) l j h go =
        Ends-then limit k Ended (is_past l) _
          (is_past-Ends (Kept limit) ⊥ k l j (fewer l h (λ e. cc)))
          λ late.
            unless_late-Ends late _
              (said k Ended (make_position_header znak 0) (next asks) (go asks))
    run_turn-Ends asks (fail timed_out) l j h go =
        Ends-then limit k Ended (is_past l) _
          (is_past-Ends (Kept limit) ⊥ k l j (fewer l h (λ e. cc)))
          λ late. unless_late-Ends late _ λ l' j' h'.
            Ends-then limit k Ended (remind (asks + 1) l') _
              (remind-Ends limit k (asks + 1) l' j' h') λ _. go (asks + 1)
    run_turn-Ends asks (fail too_big) l j h go = go asks l j (fewer l h (λ e. cc))
    run_turn-Ends asks (got (header, long_check)) l j h go =
        run_header-Ends asks header long_check go l j (fewer l h (λ e. cc))

  run_loop-Ends : (fuel asks : ℕ) → Safe limit fuel (run_loop fuel limit asks) Ended
  unfolding run_loop
  run_loop-Ends zero asks l j h = absurd (omega arith)
  run_loop-Ends (suc k) asks l j h =
      Ends-proceed (Kept limit) ⊥ (Shrinks k) Ended (header_read 0 l)
        (run_turn (run_loop k limit) limit asks) (header_read-Ends (Kept limit) ⊥ k 0 l j h)
        (λ r l' j' h'. run_turn-Ends k (run_loop k limit) asks r l' j' h' (run_loop-Ends k))

  zmodem_receive-Ends :
      (l : Line) → Kept limit l.received → Good limit Ended (zmodem_receive limit l)
  unfolding zmodem_receive
  zmodem_receive-Ends l j =
      ready_said (suc (length l.reads)) Ended _
        (λ l' j' h'. run_loop-Ends (suc (length l'.reads)) 0 l' j' (omega arith)) l j (omega arith)

-- Whatever a channel gives and whichever writes and looks at the clock succeed, every file a
-- receiver has kept at the end, however the session ends, is within the limit and has a name that
-- is not blank, a dot or two dots and holds no slash or backslash, if this was so of the files at
-- the start.
pub zmodem_receive-IsKept :
    (limit : ℕ) (l : Line)
    → All (IsKept limit) l.received
    → All (IsKept limit) (zmodem_receive limit l).1.received
zmodem_receive-IsKept limit l j = kept (zmodem_receive limit l) (zmodem_receive-Ends limit l j)
  where
    kept :
        (x : Outcome (Unit {0}) × Line)
        → Ends (Kept limit) ⊥ (λ _ _. Unit) x
        → Kept limit x.1.received
    kept (done a, l') e = e.0
    kept (failed c, l') e = e
    kept (overrun, l') e = absurd e
    kept (unfinished, l') e = absurd e

-- How a session of the source can end: with success, or with an error.
abbrev pub IsEnd {ℓ} : {A : Type ℓ} → Outcome A → Type 0
IsEnd (done a) = Unit
IsEnd (failed c) = Unit
IsEnd overrun = ⊥
IsEnd unfinished = ⊥

-- The fuel of the receiver's loops is enough for any list of reads, where the files at the start are
-- ones it may keep. (That the real loops end on a quiet line is said by their deadline.)
pub zmodem_receive-IsEnd :
    (limit : ℕ) (l : Line) → All (IsKept limit) l.received → IsEnd (zmodem_receive limit l).0
zmodem_receive-IsEnd limit l j = at_end (zmodem_receive limit l) (zmodem_receive-Ends limit l j)
  where
    at_end : (x : Outcome (Unit {0}) × Line) → Ends (Kept limit) ⊥ (λ _ _. Unit) x → IsEnd x.0
    at_end (done a, l') e = tt
    at_end (failed c, l') e = tt
    at_end (overrun, l') e = e
    at_end (unfinished, l') e = e
