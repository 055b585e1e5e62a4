-- ===== src/Zmodem/Receiver/Quiet.antt =====
-- A receiver to which nothing is sent.
use quick_logger.Prelude.{
  ℕ, zero, suc, ◌+◌, ◌%◌, ◌<◌, ◌≡◌, refl, Bool, true, false, List, ◌∷◌, arith, Bytes, Bool-cases,
  inl, inr, ◌==◌,
}
use quick_logger.Zmodem.Frame.{hex_header}
use quick_logger.Zmodem.Reader.{Script}
use quick_logger.Zmodem.Session.{
  File, Outcome, failed, sender_stopped, Line, proceed, send_hex_header, look, is_past,
}
use quick_logger.Zmodem.Session.Quiet.{
  silence, Accepts, Accepts-pred, line, length-silence, Writes, send-Writes, header_read-silence,
}
use quick_logger.Zmodem.Receiver.{
  send_ready, ready_header, remind, unless_late, run_turn, run_loop, zmodem_receive,
}

-- `n` looks at the clock before the deadline, and one behind it.
abbrev pub looks : ℕ → List Bool → List Bool
looks zero more = true ∷ more
looks (suc n) more = false ∷ looks n more

-- The receiver has given up, with these reads and looks left.
abbrev pub GivesUp : Outcome (Unit {0}) × Line → Script → List Bool → List File → Type 0
GivesUp x later more received =
    (accepted : List Bool) × (sent : Bytes) × (x
      ≡ (failed sender_stopped, line later more accepted sent received))

module _ (later : Script) (more : List Bool) (received : List File) where
  remind-Writes :
      (n k asks : ℕ) (passed accepted : List Bool) (sent : Bytes)
      → Accepts (suc k) accepted
      → Writes
          (remind asks (line (silence n later) passed accepted sent received))
          (silence n later)
          passed
          received
          k
  unfolding remind send_ready send_hex_header
  remind-Writes n k asks passed accepted sent h = elim (Bool-cases (asks % 3 == 0)) [
    | inl now ↦ rw now (send-Writes _ passed received k accepted sent _ h)
    | inr not_now ↦ rw not_now (accepted, sent, refl, Accepts-pred k accepted h)
  ]

  run_loop-GivesUp :
      (limit fuel n asks : ℕ) (accepted : List Bool) (sent : Bytes)
      → n < fuel
      → Accepts n accepted
      → GivesUp
          (run_loop fuel limit asks
            (line (silence (suc n) later) (looks n more) accepted sent received))
          later
          more
          received
  unfolding run_loop proceed run_turn is_past look unless_late
  run_loop-GivesUp limit zero n asks accepted sent m h = absurd (omega arith)
  run_loop-GivesUp limit (suc fuel) zero asks accepted sent m h =
      rw (header_read-silence zero later (looks zero more) accepted sent received)
        (accepted, sent, refl)
  run_loop-GivesUp limit (suc fuel) (suc n) asks accepted sent m h =
      let w = remind-Writes (suc n) n (asks + 1) (looks n more) accepted sent h in
      rw (header_read-silence (suc n) later (looks (suc n) more) accepted sent received, w.2)
        (run_loop-GivesUp limit fuel n (asks + 1) w.0 w.1 (omega arith) w.3)

-- If every read of a receiver times out until a look at the clock finds its deadline passed, and
-- its writes up to then succeed, then it fails at that look because the sender has stopped
-- answering: it takes no further read and no further look, whatever would still have come, and
-- keeps no more files.
pub zmodem_receive-GivesUp :
    (limit n : ℕ) (later : Script) (more accepted : List Bool) (sent : Bytes) (received : List File)
    → Accepts (suc n) accepted
    → GivesUp
        (zmodem_receive limit (line (silence (suc n) later) (looks n more) accepted sent received))
        later
        more
        received
unfolding zmodem_receive proceed send_ready send_hex_header
zmodem_receive-GivesUp limit n later more accepted sent received h =
    let w =
      send-Writes (silence (suc n) later) (looks n more) received n accepted sent
        (hex_header ready_header) h in
    rw w.2 (
      run_loop-GivesUp later more received limit _ n 0 w.0 w.1
        (omega (arith, length-silence (suc n) later)) w.3)
