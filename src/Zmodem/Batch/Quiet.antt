-- ===== src/Zmodem/Batch/Quiet.antt =====
-- A sender whom nobody answers.
use quick_logger.Prelude.{
  ℕ, zero, suc, ◌<◌, ◌≡◌, refl, Bool, true, false, List, [], ◌∷◌, arith, Bytes, codes, ◌++◌, length,
}
use quick_logger.Zmodem.Frame.{hex_header}
use quick_logger.Zmodem.Reader.{Script}
use quick_logger.Zmodem.Session.{
  zrqinit, bare_header, File, Outcome, failed, never_answered, Line, proceed, look, is_past,
}
use quick_logger.Zmodem.Session.Quiet.{
  silence, Accepts, Accepts-pred, line, length-silence, send-Writes, header_read-silence,
}
use quick_logger.Zmodem.Sender.{ask_again, wait_to_ask, start_turn, while_early, start_loop, start}
use quick_logger.Zmodem.Batch.{batch_behind, zmodem_send}

-- A look at the clock for the deadline and one for the next request in each round, and a last one
-- that finds the deadline passed.
abbrev pub looks : List Bool → List Bool → List Bool
looks [] more = true ∷ more
looks (ask ∷ asks) more = false ∷ ask ∷ looks asks more

-- The sender has given up, with these reads and looks left.
abbrev pub GivesUp {ℓ} : {A : Type ℓ} → Outcome A × Line → Script → List Bool → List File → Type ℓ
GivesUp x later more received =
    (accepted : List Bool) × (sent : Bytes) × (x
      ≡ (failed never_answered, line later more accepted sent received))

module _ (later : Script) (more : List Bool) (received : List File) where
  start_loop-GivesUp :
      (fuel : ℕ) (asks accepted : List Bool) (sent : Bytes)
      → length asks < fuel
      → Accepts (length asks) accepted
      → GivesUp
          (start_loop fuel
            (line (silence (length asks) later) (looks asks more) accepted sent received))
          later
          more
          received
  unfolding start_loop proceed start_turn is_past look while_early wait_to_ask ask_again
  start_loop-GivesUp zero asks accepted sent m h = absurd (omega arith)
  start_loop-GivesUp (suc fuel) [] accepted sent m h = (accepted, sent, refl)
  start_loop-GivesUp (suc fuel) (false ∷ asks) accepted sent m h =
      rw (header_read-silence (length asks) later (false ∷ looks asks more) accepted sent received)
        (start_loop-GivesUp fuel asks accepted sent (omega arith)
          (Accepts-pred (length asks) accepted h))
  start_loop-GivesUp (suc fuel) (true ∷ asks) accepted sent m h =
      let w =
        send-Writes (silence (length asks) later) (looks asks more) received (length asks) accepted
          sent (hex_header (bare_header zrqinit)) h in
      rw
        (
          header_read-silence (length asks) later (true ∷ looks asks more) accepted sent received,
          w.2,
        )
        (start_loop-GivesUp fuel asks w.0 w.1 (omega arith) w.3)

  start-GivesUp :
      (asks accepted : List Bool) (sent : Bytes)
      → Accepts (suc (length asks)) accepted
      → GivesUp
          (start (line (silence (length asks) later) (looks asks more) accepted sent received))
          later
          more
          received
  unfolding start proceed
  start-GivesUp asks accepted sent h =
      let w =
        send-Writes (silence (length asks) later) (looks asks more) received (length asks) accepted
          sent (codes "rz\r" ++ hex_header (bare_header zrqinit)) h in
      rw w.2
        (start_loop-GivesUp _ asks w.0 w.1 (omega (arith, length-silence (length asks) later)) w.3)

-- If every read of a sender times out until its deadline has passed, whichever of its looks at the
-- clock find that it is time to ask again, and its writes up to then succeed, then it fails at the
-- look that finds the deadline passed because the terminal never answered: it takes no further
-- read and no further look, whatever would still have come.
pub zmodem_send-GivesUp :
    (files : List File) (later : Script) (asks more accepted : List Bool) (sent : Bytes)
    (received : List File)
    → Accepts (suc (length asks)) accepted
    → let ended =
        zmodem_send files
          (line (silence (length asks) later) (looks asks more) accepted sent received) in
      (ended.0 ≡ false) × GivesUp ended.1 later more received
unfolding zmodem_send batch_behind
zmodem_send-GivesUp files later asks more accepted sent received h =
    let g = start-GivesUp later more received asks accepted sent h in
    rw g.2 (refl, (g.0, g.1, refl))
