-- ===== src/Zmodem/Receiver/Ends.antt =====
-- How a receiver ends: what it has kept, and that its loops have rounds enough.
pub mod Run
use quick_logger.Prelude.{
  ℕ, zero, suc, ◌+◌, ◌%◌, ◌≤◌, ◌<◌, Bool, true, false, not, ◌||◌, List, [], ◌∷◌, Option, none, some,
  ◌≡◌, inl, inr, ◌==◌, if◌then◌else◌, ltb, arith, Bytes, length, All, All-append, Bool-cases,
}
use quick_logger.Zmodem.Frame.{
  Header, position, make_position_header, zcrce, zcrcq, zcrcw, zack, zfin,
}
use quick_logger.Zmodem.Reader.{Result, got, fail, timed_out, gone_away, cancelled, bad, too_big}
use quick_logger.Zmodem.Session.{
  File, Outcome, done, failed, overrun, unfinished, Line, Session, proceed, ◌>>=◌, pure,
  send_hex_header, is_past, raw_read, header_read, subpacket_read,
}
use quick_logger.Zmodem.Session.Logic.{
  Ends, Ends-proceed, Within, Shrinks, Brings, send_hex_header-Ends, is_past-Ends, raw_read-Ends,
  header_read-Ends, subpacket_read-Ends, subpacket_read-Within,
}
use quick_logger.Zmodem.FileInfo.{parse_file_information}
use quick_logger.Zmodem.FileInfo.Names.{IsFileName, Named, parse_file_information-Named}
use quick_logger.Zmodem.Session.{
  zsinit, zfile, zdata, zeof, zrqinit, zabort, zcan, bare_header, znak, zrpos,
}
use quick_logger.Zmodem.Receiver.{
  send_ready, ask_position, acknowledge, data_turn, data_loop, receive_data, push_file, file_header,
  file_turn, file_loop, take_offer, read_offer, receive_file, run_header, remind, unless_late,
  run_turn, run_loop, zmodem_receive, ready_header,
}

-- What a receiver may keep: a name that is no path and no folder, and not more than the limit.
abbrev pub IsKept : ℕ → File → Type 0
IsKept limit file = IsFileName file.name × (length file.contents ≤ limit)

abbrev pub Kept : ℕ → List File → Type 0
Kept limit files = All (IsKept limit) files

pub fewer :
    {k : ℕ} {r : Result (Header × Bool)} (l : Line)
    → Shrinks k r l
    → ¬ (r ≡ fail gone_away)
    → length l.reads < k
fewer l (inl h) other = h
fewer l (inr e) other = absurd (other e)

module _ (limit : ℕ) where
  abbrev pub Good {ℓ} : {A : Type ℓ} → (A → Line → Type 0) → Outcome A × Line → Type 0
  Good Q x = Ends (Kept limit) ⊥ Q x

  -- Run with fewer than `n` reads to come, the session ends well.
  abbrev pub Safe {ℓ} : {A : Type ℓ} → ℕ → Session A → (A → Line → Type 0) → Type 0
  Safe n m Q = (l : Line) → Kept limit l.received → length l.reads < n → Good Q (m l)

  abbrev FileIn : ℕ → File → Line → Type 0
  FileIn n file l = IsKept limit file × (length l.reads < n)

  pub Ends-if {ℓ} :
      {A : Type ℓ} (Q : A → Line → Type 0) (b : Bool) (m k : Session A) (l : Line)
      → Good Q (m l)
      → Good Q (k l)
      → Good Q ((if b then m else k) l)
  Ends-if Q true m k l hm hk = hm
  Ends-if Q false m k l hm hk = hk

  -- A step that takes no read or some, and what follows it.
  pub Ends-then {ℓ κ} :
      {A : Type ℓ} {B : Type κ} (n : ℕ) (Q : B → Line → Type 0) (x : Outcome A × Line)
      (f : A → Session B)
      → Good (Within n) x
      → ((a : A) → Safe n (f a) Q)
      → Good Q (proceed x f)
  Ends-then n Q x f h k = Ends-proceed (Kept limit) ⊥ (Within n) Q x f h k

  module _ (n : ℕ) where
    pub say : (header : Header) → Safe n (send_hex_header header) (Within n)
    say header l j h = send_hex_header-Ends (Kept limit) ⊥ n header l j h

    pub send_ready-Ends : Safe n send_ready (Within n)
    unfolding send_ready
    send_ready-Ends l j h = say ready_header l j h

    ask_position-Ends : (file : File) → Safe n (ask_position file) (Within n)
    unfolding ask_position
    ask_position-Ends file l j h = say _ l j h

    acknowledge-Ends : (end : ℕ) (file : File) → Safe n (acknowledge end file) (Within n)
    unfolding acknowledge
    acknowledge-Ends end file l j h = elim (Bool-cases (end == zcrcq || end == zcrcw)) [
      | inl e ↦ rw e (say _ l j h)
      | inr e ↦ rw e (j, h)
    ]

    pub remind-Ends : (asks : ℕ) → Safe n (remind asks) (Within n)
    unfolding remind
    remind-Ends asks l j h = elim (Bool-cases (asks % 3 == 0)) [
      | inl e ↦ rw e (send_ready-Ends l j h)
      | inr e ↦ rw e (j, h)
    ]

    push_file-Ends : (file : File) → IsKept limit file → Safe n (push_file file) (Within n)
    unfolding push_file
    push_file-Ends file v l j h = (All-append (IsKept limit) l.received (file ∷ []) j (v, tt), h)

  -- The rest of a loop, where fewer than `k` reads are left.
  abbrev Rest {ℓ} : {A : Type ℓ} → (A → Line → Type 0) → (File → Session A) → ℕ → Type 0
  Rest Q next k = (f : File) → IsKept limit f → Safe k (next f) Q

  data_turn-Ends :
      (n k : ℕ) (next : File → Session File) (file : File) (r : Result (Bytes × ℕ)) (l : Line)
      → k < n
      → Kept limit l.received
      → IsKept limit file
      → Brings k limit r l
      → Rest (FileIn n) next k
      → Good (FileIn n) (data_turn next file r l)
  unfolding data_turn
  data_turn-Ends n k next file (fail too_big) l m j v h go = j
  data_turn-Ends n k next file (fail cancelled) l m j v h go = j
  data_turn-Ends n k next file (fail gone_away) l m j v h go = j
  data_turn-Ends n k next file (fail timed_out) l m j v h go = j
  data_turn-Ends n k next file (fail bad) l m j v h go =
      Ends-then n (FileIn n) (ask_position file l) _ (ask_position-Ends n file l j (omega arith))
        λ _ l' j' h'. (j', (v, h'))
  data_turn-Ends n k next file (got (taken, end)) l m j v h go =
      Ends-then k (FileIn n) (acknowledge end filled l) _ (acknowledge-Ends k end filled l j h.0)
        λ _ l' j' h'. elim (Bool-cases (end == zcrce || end == zcrcw)) [
          | inl e ↦ rw e (j', (kept, omega arith))
          | inr e ↦ rw e (go filled kept l' j' h')
        ]
    where
      filled : File
      filled = record file { contents = taken }

      kept : IsKept limit (record file { contents = taken })
      kept = (v.0, h.1)

  data_loop-Ends :
      (n fuel : ℕ) (crc32 : Bool) → fuel ≤ n → Rest (FileIn n) (data_loop fuel crc32 limit) fuel
  unfolding data_loop
  data_loop-Ends n zero crc32 m file v l j h = absurd (omega arith)
  data_loop-Ends n (suc k) crc32 m file v l j h =
      Ends-proceed (Kept limit) ⊥ (Brings k limit) (FileIn n)
        (subpacket_read crc32 file.contents limit l) (data_turn (data_loop k crc32 limit) file)
        (subpacket_read-Ends (Kept limit) ⊥ k limit crc32 file.contents l j v.1 h)
        (λ r l' j' h'.
          data_turn-Ends n k (data_loop k crc32 limit) file r l' (omega arith) j' v h'
            (data_loop-Ends n k crc32 (omega arith)))

  receive_data-Ends :
      (n : ℕ) (crc32 : Bool) (file : File)
      → IsKept limit file
      → Safe n (receive_data crc32 limit file) (FileIn n)
  unfolding receive_data
  receive_data-Ends n crc32 file v l j h =
      data_loop-Ends n (suc (length l.reads)) crc32 (omega arith) file v l j (omega arith)

  file_header-Ends :
      (n k : ℕ) (next : File → Session (Unit {0})) (file : File) (header : Header)
      (long_check : Bool)
      → k < n
      → IsKept limit file
      → Rest (Within n) next k
      → Safe k (file_header next limit file header long_check) (Within n)
  unfolding file_header
  file_header-Ends n k next file header long_check m v go l j h =
      Ends-if (Within n) (header.type == zdata) _ _ l
        (Ends-if (Within n) (not (position header == length file.contents)) _ _ l (asked l j h) (
          Ends-proceed (Kept limit) ⊥ (FileIn k) (Within n) (receive_data long_check limit file l)
            next (receive_data-Ends k long_check file v l j h)
            (λ f l' j' h'. go f h'.0 l' j' h'.1)))
        (Ends-if (Within n) (header.type == zeof) _ _ l
          (Ends-if (Within n) (not (position header == length file.contents)) _ _ l (asked l j h) (
            Ends-then n (Within n) (push_file file l) _ (push_file-Ends n file v l j (omega arith))
              λ _. send_ready-Ends n))
          (Ends-if (Within n) (header.type == zfile) _ _ l
            (Ends-then k (Within n) (subpacket_read long_check [] 4096 l) _
              (subpacket_read-Within (Kept limit) ⊥ k 4096 long_check [] l j (omega arith) h)
              λ _. asked)
            (Ends-if (Within n) (header.type == zcan || header.type == zabort) _ _ l j
              (go file v l j h))))
    where
      asked : Safe k (ask_position file >>= λ _. next file) (Within n)
      asked l' j' h' =
          Ends-then k (Within n) (ask_position file l') _ (ask_position-Ends k file l' j' h')
            λ _. go file v

  file_turn-Ends :
      (n k : ℕ) (next : File → Session (Unit {0})) (file : File) (r : Result (Header × Bool))
      (l : Line)
      → k < n
      → Kept limit l.received
      → IsKept limit file
      → Shrinks k r l
      → Rest (Within n) next k
      → Good (Within n) (file_turn next limit file r l)
  unfolding file_turn
  file_turn-Ends n k next file (fail gone_away) l m j v h go = j
  file_turn-Ends n k next file (fail timed_out) l m j v h go = j
  file_turn-Ends n k next file (fail cancelled) l m j v h go = j
  file_turn-Ends n k next file (fail bad) l m j v h go =
      Ends-then k (Within n) (ask_position file l) _
        (ask_position-Ends k file l j (fewer l h (λ e. cc))) λ _ l' j' h'. go file v l' j' h'
  file_turn-Ends n k next file (fail too_big) l m j v h go = go file v l j (fewer l h (λ e. cc))
  file_turn-Ends n k next file (got (header, long_check)) l m j v h go =
      file_header-Ends n k next file header long_check m v go l j (fewer l h (λ e. cc))

  file_loop-Ends : (n fuel : ℕ) → fuel ≤ n → Rest (Within n) (file_loop fuel limit) fuel
  unfolding file_loop
  file_loop-Ends n zero m file v l j h = absurd (omega arith)
  file_loop-Ends n (suc k) m file v l j h =
      Ends-proceed (Kept limit) ⊥ (Shrinks k) (Within n) (header_read 0 l)
        (file_turn (file_loop k limit) limit file) (header_read-Ends (Kept limit) ⊥ k 0 l j h)
        (λ r l' j' h'.
          file_turn-Ends n k (file_loop k limit) file r l' (omega arith) j' v h'
            (file_loop-Ends n k (omega arith)))

  take_offer-Ends :
      (n : ℕ) (offer : Option (File × ℕ)) → Named offer → Safe n (take_offer limit offer) (Within n)
  unfolding take_offer
  take_offer-Ends n none v l j h = say n _ l j h
  take_offer-Ends n (some (file, size)) v l j h =
      Ends-if (Within n) (ltb limit size) _ _ l (say n _ l j h) (
        Ends-then n (Within n) (send_hex_header (make_position_header zrpos 0) l) _
          (say n (make_position_header zrpos 0) l j h)
          λ _ l' j' h'.
            file_loop-Ends n (suc (length l'.reads)) (omega arith) file (v.0, rw v.1 (omega arith))
              l' j' (omega arith))

  read_offer-Ends : (n : ℕ) (r : Result (Bytes × ℕ)) → Safe n (read_offer limit r) (Within n)
  unfolding read_offer
  read_offer-Ends n (fail e) l j h = say n _ l j h
  read_offer-Ends n (got (info, end)) l j h =
      take_offer-Ends n (parse_file_information info) (parse_file_information-Named info) l j h

  pub receive_file-Ends : (n : ℕ) (crc32 : Bool) → Safe n (receive_file limit crc32) (Within n)
  unfolding receive_file
  receive_file-Ends n crc32 l j h =
      Ends-then n (Within n) (subpacket_read crc32 [] 4096 l) (read_offer limit)
        (subpacket_read-Within (Kept limit) ⊥ n 4096 crc32 [] l j (omega arith) h)
        (read_offer-Ends n)
