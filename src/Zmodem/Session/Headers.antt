-- ===== src/Zmodem/Session/Headers.antt =====
-- What a header that is read takes from the channel.
use quick_logger.Prelude.{
  ℕ, zero, suc, ◌≤◌, ◌<◌, Bool, false, ◌||◌, [], ◌∷◌, Option, none, some, ◌≡◌, refl, ◌⊎◌, inl, inr,
  ◌==◌, if◌then◌else◌, arith, Bytes, length, Bool-cases,
}
use quick_logger.Zmodem.Reader.{
  byte, timeout, closed, Script, plain, frame_end, got_cancel, no_byte, gone, Unescaped, unescaped,
  Result, got, fail, gone_away, M, and_then, raw_byte, pad_turn, find_header, read_all, hex_value,
  digit_of, hex_digit_read, body_byte_of, body_byte, check_byte_of, check_byte,
}
use quick_logger.Zmodem.HeaderReader.{
  hex_sent, check_sent, body_crc, finish_header, read_hex_header, read_binary_header, read_kind,
  read_header,
}
use quick_logger.Zmodem.SubpacketReader.Fuel.{scan-le}

-- At most `n` reads are left, and what was got satisfies `P`.
abbrev pub Gives {ℓ} : {A : Type ℓ} → ℕ → (A → Type 0) → Result A × Script → Type 0
Gives n P (got a, s) = (length s ≤ n) × P a
Gives n P (fail e, s) = length s ≤ n

abbrev pub Any {ℓ} : {A : Type ℓ} → A → Type 0
Any a = Unit

Gives-le {ℓ} :
    {A : Type ℓ} (n : ℕ) (P : A → Type 0) (x : Result A × Script) → Gives n P x → length x.1 ≤ n
Gives-le n P (got a, s) h = h.0
Gives-le n P (fail e, s) h = h

pub Gives-and_then {ℓ κ} :
    {A : Type ℓ} {B : Type κ} (n : ℕ) (P : A → Type 0) (Q : B → Type 0) (x : Result A × Script)
    (f : A → M B)
    → Gives n P x
    → ((a : A) (s : Script) → length s ≤ n → P a → Gives n Q (f a s))
    → Gives n Q (and_then x f)
unfolding and_then
Gives-and_then n P Q (got a, s) f h k = k a s h.0 h.1
Gives-and_then n P Q (fail e, s) f h k = h

module _ (n : ℕ) where
  raw_byte-Gives : (s : Script) → length s ≤ n → Gives n Any (raw_byte s)
  unfolding raw_byte
  raw_byte-Gives [] h = h
  raw_byte-Gives (byte b ∷ s) h = (omega arith, tt)
  raw_byte-Gives (timeout ∷ s) h = omega arith
  raw_byte-Gives (closed ∷ s) h = omega arith

  find_header-Gives :
      (pads : Option ℕ) (s : Script) → length s ≤ n → Gives n Any (find_header pads s)
  unfolding find_header
  find_header-Gives none s h = (h, tt)
  find_header-Gives (some p) [] h = h
  find_header-Gives (some p) (byte b ∷ s) h = find_header-Gives (pad_turn p b) s (omega arith)
  find_header-Gives (some p) (timeout ∷ s) h = omega arith
  find_header-Gives (some p) (closed ∷ s) h = omega arith

  pub read_all-Gives :
      (k : ℕ) (m : M ℕ)
      → ((s : Script) → length s ≤ n → Gives n Any (m s))
      → (s : Script) → length s ≤ n
      → Gives n Any (read_all k m s)
  unfolding read_all
  read_all-Gives zero m each s h = (h, tt)
  read_all-Gives (suc k) m each s h = Gives-and_then n Any Any (m s) _ (each s h) λ b s' h' _.
      Gives-and_then n Any Any (read_all k m s') _ (read_all-Gives k m each s' h')
        λ bs s'' h'' _. (h'', tt)

  digit_of-Gives : (d : Option ℕ) (s : Script) → length s ≤ n → Gives n Any (digit_of d s)
  unfolding digit_of
  digit_of-Gives none s h = h
  digit_of-Gives (some d) s h = (h, tt)

  hex_digit_read-Gives : (s : Script) → length s ≤ n → Gives n Any (hex_digit_read s)
  unfolding hex_digit_read
  hex_digit_read-Gives s h =
      Gives-and_then n Any Any (raw_byte s) _ (raw_byte-Gives s h)
        λ c s' h' _. digit_of-Gives (hex_value c) s' h'

  body_byte_of-Gives : (u : Unescaped × Script) → length u.1 ≤ n → Gives n Any (body_byte_of u)
  unfolding body_byte_of
  body_byte_of-Gives (plain b, s) h = (h, tt)
  body_byte_of-Gives (frame_end b, s) h = h
  body_byte_of-Gives (got_cancel, s) h = h
  body_byte_of-Gives (no_byte, s) h = h
  body_byte_of-Gives (gone, s) h = h

  check_byte_of-Gives : (u : Unescaped × Script) → length u.1 ≤ n → Gives n Any (check_byte_of u)
  unfolding check_byte_of
  check_byte_of-Gives (plain b, s) h = (h, tt)
  check_byte_of-Gives (frame_end b, s) h = h
  check_byte_of-Gives (got_cancel, s) h = h
  check_byte_of-Gives (no_byte, s) h = h
  check_byte_of-Gives (gone, s) h = h

  body_byte-Gives : (s : Script) → length s ≤ n → Gives n Any (body_byte s)
  unfolding body_byte
  body_byte-Gives s h = body_byte_of-Gives (unescaped s) (omega (arith, scan-le _ s))

  pub check_byte-Gives : (s : Script) → length s ≤ n → Gives n Any (check_byte s)
  unfolding check_byte
  check_byte-Gives s h = check_byte_of-Gives (unescaped s) (omega (arith, scan-le _ s))

  finish_header-Gives :
      (crc32 : Bool) (sent : ℕ) (body : Bytes) (s : Script)
      → length s ≤ n
      → Gives n Any (finish_header crc32 sent body s)
  unfolding finish_header
  finish_header-Gives crc32 sent body s h = elim (Bool-cases (sent == body_crc crc32 body)) [
    | inl e ↦ rw e (h, tt)
    | inr e ↦ rw e h
  ]

  read_hex_header-Gives : (s : Script) → length s ≤ n → Gives n Any (read_hex_header s)
  unfolding read_hex_header
  read_hex_header-Gives s h =
      Gives-and_then n Any Any (read_all 14 hex_digit_read s) _
        (read_all-Gives 14 hex_digit_read hex_digit_read-Gives s h)
        λ digits s' h' _. finish_header-Gives false (hex_sent digits) _ s' h'

  read_binary_header-Gives :
      (crc32 : Bool) (s : Script) → length s ≤ n → Gives n Any (read_binary_header crc32 s)
  unfolding read_binary_header
  read_binary_header-Gives crc32 s h =
      Gives-and_then n Any Any (read_all 5 body_byte s) _
        (read_all-Gives 5 body_byte body_byte-Gives s h)
        λ body s' h' _.
          Gives-and_then n Any Any (read_all (if crc32 then 4 else 2) check_byte s') _
            (read_all-Gives (if crc32 then 4 else 2) check_byte check_byte-Gives s' h')
            λ check s'' h'' _. finish_header-Gives crc32 (check_sent crc32 check) body s'' h''

  read_kind-Gives : (kind : ℕ) (s : Script) → length s ≤ n → Gives n Any (read_kind kind s)
  unfolding read_kind
  read_kind-Gives kind s h = elim (Bool-cases (kind == b'B')) [
    | inl e ↦ rw e (read_hex_header-Gives s h)
    | inr e ↦ rw e (elim (Bool-cases (kind == b'A' || kind == b'C')) [
      | inl e' ↦ rw e' (read_binary_header-Gives (kind == b'C') s h)
      | inr e' ↦ rw e' h
    ])
  ]

  behind_pads-Gives :
      (pads : Option ℕ) (s : Script)
      → length s ≤ n
      → Gives n Any (and_then (find_header pads s) λ _ s'. and_then (raw_byte s') read_kind)
  behind_pads-Gives pads s h =
      Gives-and_then n Any Any (find_header pads s) _ (find_header-Gives pads s h) λ _ s' h' _.
        Gives-and_then n Any Any (raw_byte s') _ (raw_byte-Gives s' h')
          λ kind s'' h'' _. read_kind-Gives kind s'' h''

  pub behind_pads_le :
      (pads : Option ℕ) (s : Script)
      → length s ≤ n
      → length (and_then (find_header pads s) λ _ s'. and_then (raw_byte s') read_kind).1 ≤ n
  behind_pads_le pads s h = Gives-le n Any _ (behind_pads-Gives pads s h)

-- A header that is read takes at least one read, unless the channel is closed.
pub read_header-Gives :
    (n pads : ℕ) (s : Script)
    → length s < suc n
    → (length (read_header pads s).1 < n) ⊎ ((read_header pads s).0 ≡ fail gone_away)
unfolding read_header find_header
read_header-Gives n pads [] h = inr refl
read_header-Gives n pads (byte b ∷ s) h =
    inl (omega (arith, behind_pads_le (length s) (pad_turn pads b) s (omega arith)))
read_header-Gives n pads (timeout ∷ s) h = inl (omega arith)
read_header-Gives n pads (closed ∷ s) h = inr refl
