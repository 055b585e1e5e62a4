-- ===== src/Zmodem/FileInfo.antt =====
-- src/zmodem_protocol.cpp: `FileInformation`, which a sender puts behind ZFILE, and
-- `Receiver::ParseFileInformation`, which takes it apart. `sscanf` reads numbers as `strtoull`.
pub mod Numbers
pub mod Names
pub mod RoundTrip
use quick_logger.Prelude.{
  ℕ, zero, suc, ◌+◌, ◌-◌, ◌*◌, ◌/◌, ◌%◌, ◌^◌, Bool, true, false, ◌&&◌, ◌||◌, List, [], ◌∷◌, ◌++◌,
  Option, none, some, ◌==◌, if◌then◌else◌, ltb, leb, Bytes, codes, length, is_space, equal,
  is_empty,
}
use quick_logger.Prelude.Decimal.{to_string}
use quick_logger.Zmodem.Session.{File}

-- "%llo".
unfoldable pub octal_digits : ℕ → ℕ → Bytes
octal_digits zero n = []
octal_digits (suc fuel) n =
    let front = octal_digits fuel (n / 8) in
    if ltb n 8 then (48 + n) ∷ [] else front ++ (48 + n % 8) ∷ []

unfoldable pub to_octal : ℕ → Bytes
unfolding octal_digits
to_octal n = octal_digits (suc n) n

-- `file.mtime > 0 ? file.mtime : 0`: the sign is the top bit of the word.
abbrev pub time_sent : ℕ → ℕ
time_sent mtime = if ltb mtime (2 ^ 63) then mtime else 0

-- `numbers` of `FileInformation`: at most 96 bytes, so that `snprintf` cuts nothing off.
unfoldable pub information_numbers : File → ℕ → ℕ → Bytes
information_numbers file files_left bytes_left =
    to_string (length file.contents)
    ++ b' '
      ∷ (to_octal (time_sent file.mtime)
          ++ (codes " 100644 0 " ++ (to_string files_left ++ b' ' ∷ to_string bytes_left)))

unfoldable pub file_information : File → ℕ → ℕ → Bytes
unfolding information_numbers
file_information file files_left bytes_left =
    file.name ++ 0 ∷ (information_numbers file files_left bytes_left ++ 0 ∷ [])

-- The bytes before the first NUL, and those behind it if there is one.
unfoldable pub split_nul : Bytes → Bytes × Option Bytes
split_nul [] = ([], none)
split_nul (c ∷ cs) =
    let (before, behind) = split_nul cs in if c == 0 then ([], some cs) else (c ∷ before, behind)

abbrev pub is_separator : ℕ → Bool
is_separator c = c == b'/' || c == b'\\'

-- `name.substr(name.find_last_of("/\\") + 1)`: `tail` is what follows the last separator so far.
unfoldable pub base_from : Bytes → Bytes → Bytes
base_from tail [] = tail
base_from tail (c ∷ cs) = if is_separator c then base_from [] cs else base_from (tail ++ c ∷ []) cs

unfoldable pub base_name : Bytes → Bytes
unfolding base_from
base_name name = base_from [] name

unfoldable pub skip_blanks : Bytes → Bytes
skip_blanks [] = []
skip_blanks (c ∷ cs) = let rest = skip_blanks cs in if is_space c then rest else c ∷ cs

abbrev pub is_digit_of : ℕ → ℕ → Bool
is_digit_of base c = leb 48 c && ltb c (48 + base)

-- The value of the digits at the front, and what follows them.
unfoldable pub digits_value : ℕ → ℕ → Bytes → ℕ × Bytes
digits_value base acc [] = (acc, [])
digits_value base acc (c ∷ cs) =
    let more = digits_value base (acc * base + (c - 48)) cs in
    if is_digit_of base c then more else (acc, c ∷ cs)

-- `strtoull` stops at its greatest value, and negates behind a minus sign.
abbrev pub saturate : Bool → ℕ → ℕ
saturate negative value =
    if ltb value (2 ^ 64)
    then (if negative then (2 ^ 64 - value) % 2 ^ 64 else value)
    else 2 ^ 64 - 1

unfoldable pub unsigned_at : ℕ → Bool → Bytes → Option (ℕ × Bytes)
unsigned_at base negative [] = none
unsigned_at base negative (c ∷ cs) =
    let (value, rest) = digits_value base 0 (c ∷ cs) in
    if is_digit_of base c then some (saturate negative value, rest) else none

unfoldable pub unsigned_of : ℕ → Bytes → Option (ℕ × Bytes)
unfolding unsigned_at digits_value
unsigned_of base [] = none
unsigned_of base (c ∷ cs) =
    if c == b'-'
    then unsigned_at base true cs
    else if c == b'+'
    then unsigned_at base false cs
    else unsigned_at base false (c ∷ cs)

-- One conversion of `sscanf`.
unfoldable pub scan_unsigned : ℕ → Bytes → Option (ℕ × Bytes)
unfolding unsigned_of skip_blanks
scan_unsigned base text = unsigned_of base (skip_blanks text)

-- `sscanf(text, "%llu %llo", &bytes, &modified)` on variables that are 0.
unfoldable pub scan_time : Option (ℕ × Bytes) → ℕ
scan_time none = 0
scan_time (some (modified, rest)) = modified

unfoldable pub scan_numbers : Option (ℕ × Bytes) → ℕ × ℕ
unfolding scan_time scan_unsigned
scan_numbers none = (0, 0)
scan_numbers (some (bytes, rest)) = (bytes, scan_time (scan_unsigned 8 rest))

-- `file->name.empty() || file->name == "." || file->name == ".."`.
unfoldable pub is_refused_name : Bytes → Bool
unfolding equal
is_refused_name name = is_empty name || equal name (b'.' ∷ []) || equal name (b'.' ∷ b'.' ∷ [])

-- `numbers` is the text behind the first NUL, if there is one: it ends at the next.
unfoldable pub parse_parts : Bytes × Option Bytes → Option (File × ℕ)
unfolding base_name is_refused_name scan_numbers scan_unsigned split_nul
parse_parts (name, none) = none
parse_parts (name, some behind) =
    let numbers = scan_numbers (scan_unsigned 10 (split_nul behind).0) in
    if is_empty name || is_refused_name (base_name name)
    then none
    else some (record { name = base_name name; contents = []; mtime = numbers.1 }, numbers.0)

unfoldable pub parse_file_information : Bytes → Option (File × ℕ)
unfolding split_nul parse_parts
parse_file_information info = parse_parts (split_nul info)
