-- ===== src/Zmodem/Sender/Ends.antt =====
-- A sender's loops have rounds enough.
pub mod Blocks
use quick_logger.Prelude.{
  ℕ, zero, suc, ◌+◌, ◌-◌, ◌%◌, ◌^◌, ◌≤◌, ◌<◌, Bool, true, false, not, ◌||◌, List, [], ◌∷◌, ◌++◌,
  Option, none, some, ◌≡◌, refl, ◌⊎◌, inl, inr, ◌==◌, if◌then◌else◌, ltb, leb, min, arith, Bytes,
  codes, length, take, drop, All, Bool-cases,
}
use quick_logger.Zmodem.Crc.{zmodem_crc32}
use quick_logger.Zmodem.Frame.{
  Header, position, make_position_header, hex_header, binary_header, data_subpacket, zpad, zcrce,
  zcrcg, zcrcw, zfin,
}
use quick_logger.Zmodem.Reader.{
  Read, byte, timeout, closed, Script, raw, Result, got, fail, timed_out, gone_away, cancelled, bad,
  too_big,
}
use quick_logger.Zmodem.Session.{
  File, Outcome, done, failed, overrun, unfinished, Line, Session, proceed, ◌>>=◌, pure, complain,
  send, send_hex_header, is_past, raw_read, keep_rest, header_read, u32,
}
use quick_logger.Zmodem.Session.Logic.{
  Ends, Ends-proceed, Within, Shrinks, send-Ends, send_hex_header-Ends, is_past-Ends,
  keep_rest-Ends, header_read-Ends, header_read-Within,
}
use quick_logger.Zmodem.FileInfo.{file_information}
use quick_logger.Zmodem.Session.{
  zrqinit, zrinit, zfile, zskip, zabort, zrpos, zdata, zeof, zferr, zcrc, zcan, bare_header,
}
use quick_logger.Zmodem.Sender.{
  Options, send_header, send_subpacket, has_flag, ask_again, wait_to_ask, start_turn, while_early,
  start_loop, start, await_turn, await_loop, await, restart_header, restart_read, check_for_restart,
  block_count, send_slice, restart_or, block_loop, send_blocks, settle_turn, settle_loop, settle,
  again_or_done, round_end, data_rounds, send_data,
}
use quick_logger.Zmodem.Batch.{
  offer_turn, offer_loop, offer_header, send_file, finish_turn, finish_loop, finish, total_size,
  send_files, batch_behind, zmodem_send,
}

-- It may end in any way, but it ends.
abbrev pub Good {ℓ} : {A : Type ℓ} → (A → Line → Type 0) → Outcome A × Line → Type 0
Good Q x = Ends (λ files. Unit) Unit Q x

abbrev pub Ended {ℓ} : {A : Type ℓ} → A → Line → Type 0
Ended a l = Unit

-- Run with fewer than `n` reads to come.
abbrev pub Safe {ℓ} : {A : Type ℓ} → ℕ → Session A → (A → Line → Type 0) → Type 0
Safe n m Q = (l : Line) → length l.reads < n → Good Q (m l)

pub Ends-if {ℓ} :
    {A : Type ℓ} (Q : A → Line → Type 0) (b : Bool) (m k : Session A) (l : Line)
    → Good Q (m l)
    → Good Q (k l)
    → Good Q ((if b then m else k) l)
Ends-if Q true m k l hm hk = hm
Ends-if Q false m k l hm hk = hk

pub Ends-then {ℓ κ} :
    {A : Type ℓ} {B : Type κ} (P : A → Line → Type 0) (Q : B → Line → Type 0) (x : Outcome A × Line)
    (f : A → Session B)
    → Good P x
    → ((a : A) (l : Line) → P a l → Good Q (f a l))
    → Good Q (proceed x f)
Ends-then P Q x f h k = Ends-proceed (λ files. Unit) Unit P Q x f h (λ a l j p. k a l p)

pub fewer :
    {k : ℕ} {r : Result (Header × Bool)} (l : Line)
    → Shrinks k r l
    → ¬ (r ≡ fail gone_away)
    → length l.reads < k
fewer l (inl h) other = h
fewer l (inr e) other = absurd (other e)

-- Sending some bytes, and what follows it.
pub sent-Ends {ℓ} :
    {A : Type ℓ} (n : ℕ) (Q : A → Line → Type 0) (bytes : Bytes) (m : Session A)
    → Safe n m Q
    → Safe n (send bytes >>= λ _. m) Q
sent-Ends n Q bytes m go l h =
    Ends-then (Within n) Q (send bytes l) _ (send-Ends (λ files. Unit) Unit n bytes l tt h) λ _. go

-- `while (now() < deadline)`.
pub early-Ends {ℓ} :
    {A : Type ℓ} (n : ℕ) (Q : A → Line → Type 0) (behind round : Session A)
    → Safe n behind Q
    → Safe n round Q
    → Safe n (is_past >>= while_early behind round) Q
early-Ends n Q behind round b r l h =
    Ends-then (Within n) Q (is_past l) (while_early behind round)
      (is_past-Ends (λ files. Unit) Unit n l tt h) way
  where
    way : (late : Bool) (l : Line) → length l.reads < n → Good Q (while_early behind round late l)
    way true l' h' = unfold while_early in b l' h'
    way false l' h' = unfold while_early in r l' h'

module _ (k : ℕ) (next : Session Options) (go : Safe k next Ended) where
  ask_again-Ends : (due : Bool) → Safe k (ask_again next due) Ended
  unfolding ask_again
  ask_again-Ends true = sent-Ends k Ended (hex_header (bare_header zrqinit)) next go
  ask_again-Ends false = go

  wait_to_ask-Ends : Safe k (wait_to_ask next) Ended
  unfolding wait_to_ask
  wait_to_ask-Ends l h =
      Ends-then (Within k) Ended (is_past l) (ask_again next)
        (is_past-Ends (λ files. Unit) Unit k l tt h) ask_again-Ends

  start_turn-Ends :
      (r : Result (Header × Bool)) (l : Line) → Shrinks k r l → Good Ended (start_turn next r l)
  unfolding start_turn
  start_turn-Ends (fail gone_away) l h = tt
  start_turn-Ends (fail cancelled) l h = tt
  start_turn-Ends (fail timed_out) l h = wait_to_ask-Ends l (fewer l h (λ e. cc))
  start_turn-Ends (fail bad) l h = wait_to_ask-Ends l (fewer l h (λ e. cc))
  start_turn-Ends (fail too_big) l h = wait_to_ask-Ends l (fewer l h (λ e. cc))
  start_turn-Ends (got (header, long_check)) l h =
      Ends-if Ended (header.type == zrinit) _ _ l (tt, tt)
        (Ends-if Ended (header.type == zcan || header.type == zabort) _ _ l tt
          (wait_to_ask-Ends l (fewer l h (λ e. cc))))

start_loop-Ends : (fuel : ℕ) → Safe fuel (start_loop fuel) Ended
unfolding start_loop
start_loop-Ends zero l h = absurd (omega arith)
start_loop-Ends (suc k) l h =
    early-Ends (suc k) Ended _ _ (λ l' h'. tt)
      (λ l' h'.
        Ends-then (Shrinks k) Ended (header_read 0 l') (start_turn (start_loop k))
          (header_read-Ends (λ files. Unit) Unit k 0 l' tt h')
          (start_turn-Ends k (start_loop k) (start_loop-Ends k)))
      l h

pub start-Ends : (l : Line) → Good Ended (start l)
unfolding start
start-Ends l =
    sent-Ends (suc (length l.reads)) Ended _ _
      (λ l' h'. start_loop-Ends (suc (length l'.reads)) l' (omega arith)) l (omega arith)

module _ (n k : ℕ) (small : k ≤ n) (next : Session Header) (go : Safe k next (Within n)) where
  await_turn-Ends :
      (r : Result (Header × Bool)) (l : Line)
      → Shrinks k r l
      → Good (Within n) (await_turn next r l)
  unfolding await_turn
  await_turn-Ends (fail gone_away) l h = tt
  await_turn-Ends (fail cancelled) l h = tt
  await_turn-Ends (fail timed_out) l h = go l (fewer l h (λ e. cc))
  await_turn-Ends (fail bad) l h = go l (fewer l h (λ e. cc))
  await_turn-Ends (fail too_big) l h = go l (fewer l h (λ e. cc))
  await_turn-Ends (got (header, long_check)) l h =
      Ends-if (Within n) (header.type == zcan || header.type == zabort || header.type == zferr) _ _
        l tt (tt, omega (arith, fewer l h (λ e. cc)))

await_loop-Ends : (n fuel : ℕ) → fuel ≤ suc n → Safe fuel (await_loop fuel) (Within n)
unfolding await_loop
await_loop-Ends n zero m l h = absurd (omega arith)
await_loop-Ends n (suc k) m l h =
    early-Ends (suc k) (Within n) _ _ (λ l' h'. tt)
      (λ l' h'.
        Ends-then (Shrinks k) (Within n) (header_read 0 l') (await_turn (await_loop k))
          (header_read-Ends (λ files. Unit) Unit k 0 l' tt h')
          (await_turn-Ends n k (omega arith) (await_loop k) (await_loop-Ends n k (omega arith))))
      l h

-- The header that `Await` gives took at least one read.
pub await-Ends : (n : ℕ) → Safe (suc n) await (Within n)
unfolding await
await-Ends n l h = await_loop-Ends n (suc (length l.reads)) (omega arith) l (omega arith)
