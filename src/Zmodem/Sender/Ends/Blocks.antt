-- ===== src/Zmodem/Sender/Ends/Blocks.antt =====
-- The loops over blocks and behind them have rounds enough.
use quick_logger.Prelude.{
  ℕ, zero, suc, ◌+◌, ◌-◌, ◌^◌, ◌≤◌, ◌<◌, Bool, false, not, ◌||◌, [], ◌∷◌, Option, none, some, ◌≡◌,
  inl, inr, ◌==◌, ltb, leb, min, arith, Bytes, length, Bool-cases,
}
use quick_logger.Zmodem.Frame.{Header, zpad}
use quick_logger.Zmodem.Reader.{
  Read, byte, timeout, closed, Script, raw, Result, got, fail, timed_out, gone_away, cancelled, bad,
  too_big,
}
use quick_logger.Zmodem.Session.{Line, Session, proceed, ◌>>=◌, raw_read, keep_rest, header_read}
use quick_logger.Zmodem.Session.Logic.{Within, header_read-Within}
use quick_logger.Zmodem.Session.{zrinit, zabort, zrpos, zcan}
use quick_logger.Zmodem.Sender.{
  Options, send_subpacket, await, restart_header, restart_read, check_for_restart, block_count,
  send_slice, restart_or, block_loop, settle_turn, settle_loop, settle,
}
use quick_logger.Zmodem.Sender.Blocks.{block_count_lem}
use quick_logger.Zmodem.Sender.Ends.{Good, Safe, Ends-if, Ends-then, sent-Ends, await-Ends}

-- A position to go back to comes with a read less.
abbrev pub Back : ℕ → Option ℕ → Line → Type 0
Back n none l = length l.reads < suc n
Back n (some pos) l = length l.reads < n

restart_header-Ends :
    (n : ℕ) (r : Result (Header × Bool)) (l : Line)
    → length l.reads < n
    → Good (Back n) (restart_header r l)
unfolding restart_header
restart_header-Ends n (fail cancelled) l h = tt
restart_header-Ends n (fail gone_away) l h = (tt, omega arith)
restart_header-Ends n (fail timed_out) l h = (tt, omega arith)
restart_header-Ends n (fail bad) l h = (tt, omega arith)
restart_header-Ends n (fail too_big) l h = (tt, omega arith)
restart_header-Ends n (got (header, long_check)) l h =
    Ends-if (Back n) (header.type == zcan || header.type == zabort) _ _ l tt
      (Ends-if (Back n) (header.type == zrpos) _ _ l (tt, h) (tt, omega arith))

restart_read-Ends :
    (n : ℕ) (r : Read) (l : Line) → length l.reads < n → Good (Back n) (restart_read r l)
unfolding restart_read
restart_read-Ends n timeout l h = (tt, omega arith)
restart_read-Ends n closed l h = tt
restart_read-Ends n (byte b) l h =
    Ends-if (Back n) (not (b == zpad)) _ _ l (tt, omega arith)
      (Ends-then (Within n) (Back n) (header_read 1 l) restart_header
        (header_read-Within (λ files. Unit) Unit n 1 l tt h) (restart_header-Ends n))

check_for_restart-Ends : (n : ℕ) → Safe (suc n) check_for_restart (Back n)
unfolding check_for_restart raw_read keep_rest proceed
check_for_restart-Ends n l h = by_reads l.reads h
  where
    by_reads :
        (s : Script) → length s < suc n → Good (Back n) (proceed (keep_rest (raw s) l) restart_read)
    by_reads [] h = unfold restart_read in tt
    by_reads (r ∷ s) h = restart_read-Ends n r (record l { reads = s }) (omega arith)

forward :
    (size pos count fuel : ℕ)
    → size - pos < suc fuel
    → leb size (pos + count) ≡ false
    → pos + count ≤ size
    → count ≡ min 1024 (size - pos)
    → size - (pos + count) < fuel
forward size pos count fuel m e inside c = omega (arith, before size (pos + count) e, c)
  where
    before : (a b : ℕ) → leb a b ≡ false → b < a
    before a b e = ground arith

module _ (o : Options) (contents : Bytes) (small : length contents < 2 ^ 64) (n : ℕ) where
  send_slice-Ends :
      (pos count end : ℕ) (m : Session (Option ℕ))
      → (pos + count ≤ length contents → Safe (suc n) m (Back n))
      → Safe (suc n) (send_slice o contents pos count end >>= λ _. m) (Back n)
  unfolding send_slice send_subpacket proceed
  send_slice-Ends pos count end m go l h = elim (Bool-cases (ltb (length contents) (pos + count))) [
    | inl e ↦ rw e tt
    | inr e ↦ rw e (sent-Ends (suc n) (Back n) _ m (go (ground arith)) l h)
  ]

  restart_or-Ends :
      (next : ℕ → Session (Option ℕ)) (pos : ℕ) (back : Option ℕ) (l : Line)
      → Safe (suc n) (next pos) (Back n)
      → Back n back l
      → Good (Back n) (restart_or next pos back l)
  unfolding restart_or
  restart_or-Ends next pos none l go h = go l h
  restart_or-Ends next pos (some p) l go h = (tt, h)

  -- Each block but the last is 1024 bytes.
  pub block_loop-Ends :
      (fuel pos : ℕ)
      → length contents - pos < fuel
      → Safe (suc n) (block_loop fuel o contents pos) (Back n)
  unfolding block_loop
  block_loop-Ends zero pos m l h = absurd (omega arith)
  block_loop-Ends (suc fuel) pos m l h =
      send_slice-Ends pos (block_count (length contents) pos) _ _
        (λ inside l' h'.
          elim (Bool-cases (leb (length contents) (pos + block_count (length contents) pos))) [
            | inl e ↦ rw e (tt, h')
            | inr e ↦ rw e (
                Ends-then (Back n) (Back n) (check_for_restart l')
                  (restart_or (block_loop fuel o contents)
                    (pos + block_count (length contents) pos))
                  (check_for_restart-Ends n l' h')
                  (λ back l'' h''.
                    restart_or-Ends (block_loop fuel o contents)
                      (pos + block_count (length contents) pos) back l''
                      (block_loop-Ends fuel (pos + block_count (length contents) pos)
                        (further e inside))
                      h''))
          ])
        l h
    where
      further :
          leb (length contents) (pos + block_count (length contents) pos) ≡ false
          → pos + block_count (length contents) pos ≤ length contents
          → length contents - (pos + block_count (length contents) pos) < fuel
      further e inside =
          forward (length contents) pos (block_count (length contents) pos) fuel m e inside
            (block_count_lem o contents small pos (omega arith))

settle_turn-Ends :
    (n k : ℕ) (next : Session (Option ℕ)) (size : ℕ) (answer : Header) (l : Line)
    → k ≤ n
    → Safe k next (Back n)
    → length l.reads < k
    → Good (Back n) (settle_turn next size answer l)
unfolding settle_turn
settle_turn-Ends n k next size answer l m go h =
    Ends-if (Back n) (answer.type == zrinit) _ _ l (tt, omega arith)
      (Ends-if (Back n) (answer.type == zrpos) _ _ l (tt, omega arith) (go l h))

settle_loop-Ends : (n fuel size : ℕ) → fuel ≤ suc n → Safe fuel (settle_loop fuel size) (Back n)
unfolding settle_loop
settle_loop-Ends n zero size m l h = absurd (omega arith)
settle_loop-Ends n (suc k) size m l h =
    Ends-then (Within k) (Back n) (await l) (settle_turn (settle_loop k size) size)
      (await-Ends k l h)
      (λ answer l' h'.
        settle_turn-Ends n k (settle_loop k size) size answer l' (omega arith)
          (settle_loop-Ends n k size (omega arith)) h')

pub settle-Ends : (n size : ℕ) → Safe (suc n) (settle size) (Back n)
unfolding settle
settle-Ends n size l h =
    settle_loop-Ends n (suc (length l.reads)) size (omega arith) l (omega arith)
