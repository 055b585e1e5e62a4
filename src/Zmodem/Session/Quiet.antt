-- ===== src/Zmodem/Session/Quiet.antt =====
-- A line on which nothing arrives, and what a session does there until a moment has passed.
use quick_logger.Prelude.{
  ℕ, zero, suc, ◌≤◌, ◌≡◌, refl, Bool, true, false, List, [], ◌∷◌, ◌++◌, arith, Bytes, length,
}
use quick_logger.Zmodem.Reader.{timeout, Script, fail, timed_out, find_header, and_then}
use quick_logger.Zmodem.HeaderReader.{read_header}
use quick_logger.Zmodem.Session.{File, Outcome, done, Line, write_on, send, keep_rest, header_read}

-- `n` reads that time out, before what comes later.
abbrev pub silence : ℕ → Script → Script
silence zero later = later
silence (suc n) later = timeout ∷ silence n later

-- At least `n` writes succeed.
abbrev pub Accepts : ℕ → List Bool → Type 0
Accepts zero accepted = Unit
Accepts (suc n) [] = ⊥
Accepts (suc n) (false ∷ accepted) = ⊥
Accepts (suc n) (true ∷ accepted) = Accepts n accepted

abbrev pub line : Script → List Bool → List Bool → Bytes → List File → Line
line reads passed accepted sent received = record {
  reads = reads;
  passed = passed;
  accepted = accepted;
  sent = sent;
  received = received;
}

pub length-silence : (n : ℕ) (later : Script) → n ≤ length (silence n later)
length-silence zero later = omega arith
length-silence (suc n) later = omega (arith, length-silence n later)

pub Accepts-pred : (n : ℕ) (accepted : List Bool) → Accepts (suc n) accepted → Accepts n accepted
Accepts-pred zero accepted h = tt
Accepts-pred (suc n) [] h = h
Accepts-pred (suc n) (false ∷ accepted) h = h
Accepts-pred (suc n) (true ∷ accepted) h = Accepts-pred n accepted h

-- A step that writes once at most: it succeeds where a write is accepted.
abbrev pub Writes : Outcome (Unit {0}) × Line → Script → List Bool → List File → ℕ → Type 0
Writes x reads passed received n =
    (accepted : List Bool) × (sent : Bytes) × (x
      ≡ (done tt, line reads passed accepted sent received))
    × Accepts n accepted

module _ (reads : Script) (passed : List Bool) (received : List File) where
  pub send-Writes :
      (n : ℕ) (accepted : List Bool) (sent bytes : Bytes)
      → Accepts (suc n) accepted
      → Writes (send bytes (line reads passed accepted sent received)) reads passed received n
  unfolding send write_on
  send-Writes n [] sent bytes h = elim h [ ]
  send-Writes n (false ∷ accepted) sent bytes h = elim h [ ]
  send-Writes n (true ∷ accepted) sent bytes h = (accepted, sent ++ bytes, refl, h)

-- A header that is waited for where nothing arrives.
pub header_read-silence :
    (n : ℕ) (later : Script) (passed accepted : List Bool) (sent : Bytes) (received : List File)
    → header_read 0 (line (silence (suc n) later) passed accepted sent received)
      ≡ (done (fail timed_out), line (silence n later) passed accepted sent received)
unfolding header_read keep_rest read_header find_header and_then
header_read-silence n later passed accepted sent received = refl
