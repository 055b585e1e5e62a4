-- ===== src/Zmodem/Session.antt =====
-- src/zmodem_protocol.cpp: what a `Sender` and a `Receiver` share. A session carries the channel
-- and the clock as lists of what they will answer, and the bytes that were written.
pub mod Headers
pub mod Reads
pub mod Logic
pub mod Quiet
use quick_logger.Prelude.{
  ℕ, zero, suc, ◌+◌, ◌%◌, ◌^◌, Bool, true, false, List, [], ◌∷◌, ◌++◌, Bytes, codes, length,
}
use quick_logger.Zmodem.Frame.{Header, hex_header}
use quick_logger.Zmodem.Reader.{Read, Script, raw, Result, Failure}
use quick_logger.Zmodem.HeaderReader.{read_header}
use quick_logger.Zmodem.SubpacketReader.{read_subpacket}

abbrev pub zrqinit : ℕ
zrqinit = 0

abbrev pub zrinit : ℕ
zrinit = 1

abbrev pub zsinit : ℕ
zsinit = 2

abbrev pub zfile : ℕ
zfile = 4

abbrev pub zskip : ℕ
zskip = 5

abbrev pub znak : ℕ
znak = 6

abbrev pub zabort : ℕ
zabort = 7

abbrev pub zrpos : ℕ
zrpos = 9

abbrev pub zdata : ℕ
zdata = 10

abbrev pub zeof : ℕ
zeof = 11

abbrev pub zferr : ℕ
zferr = 12

abbrev pub zcrc : ℕ
zcrc = 13

abbrev pub zcan : ℕ
zcan = 16

-- `Header` with a type and no flags.
abbrev pub bare_header : ℕ → Header
bare_header type = record { type = type; b0 = 0; b1 = 0; b2 = 0; b3 = 0 }

-- `struct ZmodemFile`; `contents` is its `data`, `mtime` is the 64-bit word of the signed field.
pub record File : Type 0 where
  pub name : Bytes
  pub contents : Bytes
  pub mtime : ℕ

-- What `Fail` stores in `*error`.
pub data Complaint : Type 0 where
  went_away : Complaint
  terminal_cancelled : Complaint
  never_answered : Complaint
  stopped_answering : Complaint
  transfer_cancelled : Complaint
  sender_stopped : Complaint
  file_too_big : Complaint

unfoldable pub complaint_text : Complaint → Bytes
complaint_text went_away = codes "The terminal went away."
complaint_text terminal_cancelled = codes "The terminal cancelled the transfer."
complaint_text never_answered = codes "The terminal didn't answer a ZMODEM transfer."
complaint_text stopped_answering = codes "The terminal stopped answering."
complaint_text transfer_cancelled = codes "The transfer was cancelled."
complaint_text sender_stopped = codes "The sender stopped answering."
complaint_text file_too_big = codes "A file is too big."

-- `failed` is `return Fail(...)`. `overrun` is a read past the end of the bytes of a file, which
-- C++ leaves undefined, and `unfinished` a loop of the model that ran out of fuel.
pub data Outcome {ℓ} (A : Type ℓ) : Type ℓ where
  done : A → Outcome A
  failed : Complaint → Outcome A
  overrun : Outcome A
  unfinished : Outcome A

-- `reads` is what the reads of the channel will give, `passed` what each look at the clock will
-- find (has the moment waited for passed?), `accepted` which writes will succeed; past its list, a
-- read finds the channel closed, the moment has passed and a write fails. `sent` is what was
-- written, `received` the vector that a receiver fills.
pub record Line : Type 0 where
  pub reads : Script
  pub passed : List Bool
  pub accepted : List Bool
  pub sent : Bytes
  pub received : List File

abbrev pub Session {ℓ} : Type ℓ → Type ℓ
Session A = Line → Outcome A × Line

unfoldable pub proceed {ℓ κ} :
    {A : Type ℓ} {B : Type κ} → Outcome A × Line → (A → Session B) → Outcome B × Line
proceed (done a, l) f = f a l
proceed (failed e, l) f = (failed e, l)
proceed (overrun, l) f = (overrun, l)
proceed (unfinished, l) f = (unfinished, l)

infixl 5 ◌>>=◌ ◌>>◌
abbrev pub ◌>>=◌ {ℓ κ} : {A : Type ℓ} {B : Type κ} → Session A → (A → Session B) → Session B
◌>>=◌ m f l = proceed (m l) f

abbrev pub ◌>>◌ {ℓ κ} : {A : Type ℓ} {B : Type κ} → Session A → Session B → Session B
m >> k = m >>= λ _. k

abbrev pub pure {ℓ} : {A : Type ℓ} → A → Session A
pure a l = (done a, l)

abbrev pub complain {ℓ} : {A : Type ℓ} → Complaint → Session A
complain e l = (failed e, l)

-- The end of a loop on fuel.
abbrev pub out_of_rounds {ℓ} : {A : Type ℓ} → Session A
out_of_rounds l = (unfinished, l)

-- A loop that is handed as many rounds as the reads left in the channel, and one.
abbrev pub with_rounds {ℓ} : {A : Type ℓ} → (ℕ → Session A) → Session A
with_rounds loop l = loop (suc (length l.reads)) l

unfoldable pub write_on : List Bool → Bytes → Session (Unit {0})
write_on [] bytes l = (failed went_away, l)
write_on (true ∷ more) bytes l = (done tt, record l { accepted = more; sent = l.sent ++ bytes })
write_on (false ∷ more) bytes l = (failed went_away, record l { accepted = more })

-- `Sender::Send`; a receiver's `SendHexHeader` fails with the same words.
unfoldable pub send : Bytes → Session (Unit {0})
send bytes l = write_on l.accepted bytes l

unfoldable pub send_hex_header : Header → Session (Unit {0})
send_hex_header header = send (hex_header header)

unfoldable pub look : List Bool → Session Bool
look [] l = (done true, l)
look (b ∷ more) l = (done b, record l { passed = more })

-- `std::chrono::steady_clock::now() >= deadline`.
unfoldable pub is_past : Session Bool
is_past l = look l.passed l

-- A read that never fails the session: what it gave, and the channel behind it.
unfoldable pub keep_rest {ℓ} : {A : Type ℓ} → A × Script → Session A
keep_rest (a, rest) l = (done a, record l { reads = rest })

unfoldable pub raw_read : Session Read
raw_read l = keep_rest (raw l.reads) l

unfoldable pub header_read : ℕ → Session (Result (Header × Bool))
header_read pads l = keep_rest (read_header pads l.reads) l

unfoldable pub subpacket_read : Bool → Bytes → ℕ → Session (Result (Bytes × ℕ))
subpacket_read crc32 filled limit l = keep_rest (read_subpacket crc32 filled limit l.reads) l

-- `static_cast<std::uint32_t>`.
abbrev pub u32 : ℕ → ℕ
u32 n = n % 2 ^ 32
