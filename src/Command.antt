-- ===== src/Command.antt =====
-- src/remote_command.cpp, `SplitCommandLine`: the words of a remote command.
pub mod Answer
pub mod NetImport
pub mod Export
pub mod Run
pub mod Import
pub mod Nets
pub mod Parse
pub mod Quoted
pub mod SessionImport
pub mod Store
pub mod Throwing
pub mod Upload
pub mod Utc
use quick_logger.Prelude.{
  ℕ, zero, suc, Bool, true, false, not, ◌&&◌, ◌||◌, List, [], ◌∷◌, ◌++◌, ◌==◌, if◌then◌else◌, ltb,
  leb, Bytes, codes, is_alnum,
}

unfoldable pub is_plain_word_character : ℕ → Bool
is_plain_word_character c =
    is_alnum c
    || c == b'.'
    || c == b'_'
    || c == b'-'
    || c == b'/'
    || c == b'+'
    || c == b'='
    || c == b':'
    || c == b','
    || c == b'@'
    || c == b'%'

-- The errors; `char_not_allowed` carries the byte that the message ends with.
pub data SplitError : Type 0 where
  control_character quote_in_word byte_not_allowed quote_not_closed : SplitError
  char_not_allowed : ℕ → SplitError

pub data SplitResult : Type 0 where
  words_are : List Bytes → SplitResult
  failed : SplitError → SplitResult

-- The locals of the loop.
pub record State : Type 0 where
  pub words : List Bytes
  pub word : Bytes
  pub in_word : Bool
  pub in_quotes : Bool
  pub after_quote : Bool

abbrev pub start : State
start = record { words = []; word = []; in_word = false; in_quotes = false; after_quote = false }

unfoldable pub is_control : Bool → ℕ → Bool
is_control in_quotes c = (ltb c 0x20 && not (c == 9 && not in_quotes)) || c == 0x7F

abbrev pub add_byte : State → ℕ → State
add_byte s c = record {
  words = s.words;
  word = s.word ++ c ∷ [];
  in_word = s.in_word;
  in_quotes = s.in_quotes;
  after_quote = s.after_quote;
}

-- A blank outside quotes.
unfoldable pub end_word : State → State
end_word s = record {
  words = if s.in_word then s.words ++ s.word ∷ [] else s.words;
  word = if s.in_word then [] else s.word;
  in_word = false;
  in_quotes = s.in_quotes;
  after_quote = false;
}

abbrev pub open_quote : State → State
open_quote s = record {
  words = s.words;
  word = s.word;
  in_word = true;
  in_quotes = true;
  after_quote = s.after_quote;
}

abbrev pub close_quote : State → State
close_quote s = record {
  words = s.words;
  word = s.word;
  in_word = s.in_word;
  in_quotes = false;
  after_quote = true;
}

abbrev pub plain_byte : State → ℕ → State
plain_byte s c = record {
  words = s.words;
  word = s.word ++ c ∷ [];
  in_word = true;
  in_quotes = s.in_quotes;
  after_quote = s.after_quote;
}

-- A byte outside quotes: the error, or the state behind it.
pub data Step : Type 0 where
  next : State → Step
  error : SplitError → Step

unfoldable pub step_outside : State → ℕ → Step
step_outside s c =
    if c == b' ' || c == 9
    then next (end_word s)
    else if s.after_quote
    then error quote_in_word
    else if c == b'"'
    then (if s.in_word then error quote_in_word else next (open_quote s))
    else if leb 0x80 c
    then error byte_not_allowed
    else if not (is_plain_word_character c)
    then error (char_not_allowed c)
    else next (plain_byte s c)

-- Behind the loop.
unfoldable pub finish : State → SplitResult
finish s =
    if s.in_quotes
    then failed quote_not_closed
    else words_are (if s.in_word then s.words ++ s.word ∷ [] else s.words)

-- Is `d` what a backslash may escape?
abbrev pub is_escaped : ℕ → Bool
is_escaped d = d == b'"' || d == b'\\'

-- A byte inside quotes that is no escape.
unfoldable pub step_inside : State → ℕ → State
step_inside s c = if c == b'"' then close_quote s else add_byte s c

abbrev pub step : State → ℕ → Step
step s c = if s.in_quotes then next (step_inside s c) else step_outside s c

unfoldable pub split_from : State → Bytes → SplitResult
split_from s [] = finish s
split_from s (c ∷ []) =
    if is_control s.in_quotes c
    then failed control_character
    else elim (step s c) [ next t ↦ finish t | error e ↦ failed e ]
split_from s (c ∷ d ∷ cs) =
    if is_control s.in_quotes c
    then failed control_character
    else elim (s.in_quotes && c == b'\\' && is_escaped d) [
      | true ↦ split_from (add_byte s d) cs
      | false ↦ elim (step s c) [ next t ↦ split_from t (d ∷ cs) | error e ↦ failed e ]
    ]

unfoldable pub split_command_line : Bytes → SplitResult
split_command_line line = split_from start line
