-- ===== src/Zmodem/Session/Logic.antt =====
-- How a session ends, and how that is carried through its steps.
use quick_logger.Prelude.{
  ℕ, suc, ◌≤◌, ◌<◌, Bool, true, false, List, [], ◌∷◌, ◌≡◌, ◌⊎◌, arith, Bytes, length,
}
use quick_logger.Zmodem.Frame.{Header, hex_header}
use quick_logger.Zmodem.Reader.{raw, Script, Result, fail, gone_away}
use quick_logger.Zmodem.HeaderReader.{read_header}
use quick_logger.Zmodem.SubpacketReader.{read_subpacket}
use quick_logger.Zmodem.Session.{
  File, Outcome, done, failed, overrun, unfinished, Line, Session, proceed, write_on, send,
  send_hex_header, look, is_past, keep_rest, raw_read, header_read, subpacket_read,
}
use quick_logger.Zmodem.Session.Reads.{Takes, read_subpacket-Takes, Takes-lt, read_header-le}
use quick_logger.Zmodem.Session.Headers.{read_header-Gives}

-- `J` holds of the received files however the session ends, `Over` if it reads past the end of a
-- file, `Q` of what it gives; it does not run out of fuel.
module _ (J : List File → Type 0) (Over : Type 0) where
  abbrev pub Ends {ℓ} : {A : Type ℓ} → (A → Line → Type 0) → Outcome A × Line → Type 0
  Ends Q (done a, l) = J l.received × Q a l
  Ends Q (failed e, l) = J l.received
  Ends Q (overrun, l) = Over
  Ends Q (unfinished, l) = ⊥

  pub Ends-proceed {ℓ κ} :
      {A : Type ℓ} {B : Type κ} (Q : A → Line → Type 0) (R : B → Line → Type 0)
      (x : Outcome A × Line) (f : A → Session B)
      → Ends Q x
      → ((a : A) (l : Line) → J l.received → Q a l → Ends R (f a l))
      → Ends R (proceed x f)
  unfolding proceed
  Ends-proceed Q R (done a, l) f h k = k a l h.0 h.1
  Ends-proceed Q R (failed e, l) f h k = h
  Ends-proceed Q R (overrun, l) f h k = h
  Ends-proceed Q R (unfinished, l) f h k = h

-- Fewer than `n` reads are left.
abbrev pub Within {ℓ} : ℕ → {A : Type ℓ} → A → Line → Type 0
Within n a l = length l.reads < n

-- What a header read gives: fewer reads are left, unless the channel is closed.
abbrev pub Shrinks : ℕ → Result (Header × Bool) → Line → Type 0
Shrinks n r l = (length l.reads < n) ⊎ (r ≡ fail gone_away)

-- What a subpacket read gives.
abbrev pub Brings : ℕ → ℕ → Result (Bytes × ℕ) → Line → Type 0
Brings n limit r l = Takes n limit (r, l.reads)

module _ (J : List File → Type 0) (Over : Type 0) where
  write_on-Ends :
      (n : ℕ) (accepted : List Bool) (bytes : Bytes) (l : Line)
      → J l.received
      → length l.reads < n
      → Ends J Over (Within n) (write_on accepted bytes l)
  unfolding write_on
  write_on-Ends n [] bytes l j h = j
  write_on-Ends n (true ∷ more) bytes l j h = (j, h)
  write_on-Ends n (false ∷ more) bytes l j h = j

  pub send-Ends :
      (n : ℕ) (bytes : Bytes) (l : Line)
      → J l.received
      → length l.reads < n
      → Ends J Over (Within n) (send bytes l)
  unfolding send
  send-Ends n bytes l j h = write_on-Ends n l.accepted bytes l j h

  pub send_hex_header-Ends :
      (n : ℕ) (header : Header) (l : Line)
      → J l.received
      → length l.reads < n
      → Ends J Over (Within n) (send_hex_header header l)
  unfolding send_hex_header
  send_hex_header-Ends n header l j h = send-Ends n (hex_header header) l j h

  look-Ends :
      (n : ℕ) (passed : List Bool) (l : Line)
      → J l.received
      → length l.reads < n
      → Ends J Over (Within n) (look passed l)
  unfolding look
  look-Ends n [] l j h = (j, h)
  look-Ends n (b ∷ more) l j h = (j, h)

  pub is_past-Ends :
      (n : ℕ) (l : Line) → J l.received → length l.reads < n → Ends J Over (Within n) (is_past l)
  unfolding is_past
  is_past-Ends n l j h = look-Ends n l.passed l j h

  pub keep_rest-Ends {ℓ} :
      {A : Type ℓ} (Q : A → Line → Type 0) (x : A × Script) (l : Line)
      → J l.received
      → Q x.0 (record l { reads = x.1 })
      → Ends J Over Q (keep_rest x l)
  unfolding keep_rest
  keep_rest-Ends Q (a, rest) l j h = (j, h)

  raw_lt : (n : ℕ) (s : Script) → length s < n → length (raw s).1 < n
  raw_lt n [] h = h
  raw_lt n (r ∷ s) h = omega arith

  pub raw_read-Ends :
      (n : ℕ) (l : Line) → J l.received → length l.reads < n → Ends J Over (Within n) (raw_read l)
  unfolding raw_read
  raw_read-Ends n l j h = keep_rest-Ends (Within n) (raw l.reads) l j (raw_lt n l.reads h)

  pub header_read-Ends :
      (n pads : ℕ) (l : Line)
      → J l.received
      → length l.reads < suc n
      → Ends J Over (Shrinks n) (header_read pads l)
  unfolding header_read
  header_read-Ends n pads l j h =
      keep_rest-Ends (Shrinks n) (read_header pads l.reads) l j (read_header-Gives n pads l.reads h)

  pub subpacket_read-Ends :
      (n limit : ℕ) (crc32 : Bool) (filled : Bytes) (l : Line)
      → J l.received
      → length filled ≤ limit
      → length l.reads < suc n
      → Ends J Over (Brings n limit) (subpacket_read crc32 filled limit l)
  unfolding subpacket_read
  subpacket_read-Ends n limit crc32 filled l j fits h =
      keep_rest-Ends (Brings n limit) (read_subpacket crc32 filled limit l.reads) l j
        (read_subpacket-Takes n limit crc32 filled l.reads fits h)

  pub subpacket_read-Within :
      (n limit : ℕ) (crc32 : Bool) (filled : Bytes) (l : Line)
      → J l.received
      → length filled ≤ limit
      → length l.reads < n
      → Ends J Over (Within n) (subpacket_read crc32 filled limit l)
  unfolding subpacket_read
  subpacket_read-Within n limit crc32 filled l j fits h =
      keep_rest-Ends (Within n) (read_subpacket crc32 filled limit l.reads) l j (
        omega (
          arith,
          Takes-lt (length l.reads) limit _
              (read_subpacket-Takes (length l.reads) limit crc32 filled l.reads fits (omega arith)),
        ))

  pub header_read-Within :
      (n pads : ℕ) (l : Line)
      → J l.received
      → length l.reads < n
      → Ends J Over (Within n) (header_read pads l)
  unfolding header_read
  header_read-Within n pads l j h =
      keep_rest-Ends (Within n) (read_header pads l.reads) l j
        (omega (arith, read_header-le pads l.reads))
