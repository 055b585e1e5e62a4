-- ===== src/Escape.antt =====
-- src/ui/escape_splitter.cpp: a key that was read together with the Esc before it is split again.
pub mod Keys
pub mod Conserve
use quick_logger.Prelude.{
  ℕ, zero, suc, Bool, true, false, not, ◌&&◌, ◌||◌, ◌≡◌, List, [], ◌∷◌, ◌++◌, ◌==◌, if◌then◌else◌,
  ltb, Bytes, codes, equal, is_empty, length, within,
}

-- The events of FTXUI, which is not part of the repository: what the splitter asks of an event, the
-- events it makes, and what is documented of those. `Event::Escape` is the special event of the
-- one byte.
pub record Events (Event : Type 0) : Type 0 where
  pub is_character : Event → Bool
  pub input : Event → Bytes
  pub is_custom : Event → Bool
  pub character : Bytes → Event
  pub special : Bytes → Event
  pub is_character-character : (text : Bytes) → is_character (character text) ≡ true
  pub input-character : (text : Bytes) → input (character text) ≡ text
  pub input-special : (text : Bytes) → input (special text) ≡ text

abbrev pub esc : ℕ
esc = 27

abbrev pub max_sequence_length : ℕ
max_sequence_length = 8

pub record KeySpelling : Type 0 where
  pub from : Bytes
  pub to : Bytes

abbrev spelled : Bytes → Bytes → KeySpelling
spelled from to = record { from = esc ∷ from; to = esc ∷ to }

-- `kKeySpellings`; every spelling starts with Esc.
abbrev pub key_spellings : List KeySpelling
key_spellings =
    spelled (codes "OA") (codes "[A")
    ∷ spelled (codes "OB") (codes "[B")
    ∷ spelled (codes "OC") (codes "[C")
    ∷ spelled (codes "OD") (codes "[D")
    ∷ spelled (codes "OH") (codes "[H")
    ∷ spelled (codes "OF") (codes "[F")
    ∷ spelled (codes "[[A") (codes "OP")
    ∷ spelled (codes "[[B") (codes "OQ")
    ∷ spelled (codes "[[C") (codes "OR")
    ∷ spelled (codes "[[D") (codes "OS")
    ∷ spelled (codes "[[E") (codes "[15~")
    ∷ spelled (codes "[11~") (codes "OP")
    ∷ spelled (codes "[12~") (codes "OQ")
    ∷ spelled (codes "[13~") (codes "OR")
    ∷ spelled (codes "[14~") (codes "OS")
    ∷ spelled (codes "Ot") (codes "[15~")
    ∷ spelled (codes "Ou") (codes "[17~")
    ∷ spelled (codes "Ov") (codes "[18~")
    ∷ spelled (codes "Ol") (codes "[19~")
    ∷ spelled (codes "Ow") (codes "[20~")
    ∷ spelled (codes "Ox") (codes "[21~")
    ∷ []

unfoldable pub spelling_in : List KeySpelling → Bytes → Bytes
spelling_in [] sequence = sequence
spelling_in (s ∷ rest) sequence = if equal sequence s.from then s.to else spelling_in rest sequence

unfoldable pub uniform_spelling : Bytes → Bytes
uniform_spelling sequence = spelling_in key_spellings sequence

unfoldable pub last : ℕ → Bytes → ℕ
last c [] = c
last c (d ∷ cs) = last d cs

unfoldable pub is_whole_sequence : Bytes → Bool
is_whole_sequence (a ∷ b ∷ c ∷ cs) =
    if b == b'O'
    then true
    else if equal (a ∷ b ∷ c ∷ cs) (esc ∷ codes "[[")
    then false
    else within 0x40 0x7E (last c cs)
is_whole_sequence _ = false

unfoldable pub is_ascii : Bytes → Bool
is_ascii [] = true
is_ascii (c ∷ cs) = ltb c 0x80 && is_ascii cs

-- `!merged` apart from `is_character`: Esc and a byte that does not start a longer sequence.
unfoldable pub is_merged : Bytes → Bool
is_merged (a ∷ b ∷ cs) = a == esc && not (b == b'[') && not (b == b'P') && not (b == b']')
is_merged _ = false

-- Esc, O and one more byte: F1 to F4.
unfoldable pub is_short_key : Bytes → Bool
is_short_key (a ∷ b ∷ c ∷ []) = b == b'O'
is_short_key _ = false

-- The events returned and what is pending behind them.
pub record Fed (Event : Type 0) : Type 0 where
  pub events : List Event
  pub pending : Bytes

module _ {Event : Type 0} (ftxui : Events Event) where
  abbrev pub escape : Event
  escape = ftxui.special (esc ∷ [])

  unfoldable pub each_character : Bytes → List Event
  each_character [] = []
  each_character (c ∷ cs) = ftxui.character (c ∷ []) ∷ each_character cs

  -- What `AppendCharacters` appends.
  unfoldable pub characters : Bytes → List Event
  characters text = if not (is_ascii text) then ftxui.character text ∷ [] else each_character text

  abbrev pub fed : List Event → Bytes → Fed Event
  fed events pending = record { events = events; pending = pending }

  -- `pending` is what was pending with the new bytes behind it.
  unfoldable pub collect : Bytes → Fed Event
  collect pending =
      if is_whole_sequence pending
      then fed (ftxui.special (uniform_spelling pending) ∷ []) []
      else if ltb max_sequence_length (length pending)
      then fed [] []
      else fed [] pending

  -- `rest` is Esc and `tail`.
  unfoldable pub after_two : Bytes → Fed Event
  after_two [] = fed (escape ∷ escape ∷ []) []
  after_two (c ∷ cs) =
      if c == b'[' || c == b'O'
      then fed (escape ∷ []) (esc ∷ c ∷ cs)
      else if c == esc
      then fed (escape ∷ escape ∷ escape ∷ []) []
      else fed (escape ∷ escape ∷ characters (c ∷ cs)) []

  unfoldable pub after_escape : Bytes → Fed Event
  after_escape [] = fed (escape ∷ []) []
  after_escape (c ∷ cs) =
      if not (c == esc) then fed (escape ∷ characters (c ∷ cs)) [] else after_two cs

  -- `input.substr(1)` of a merged event, which has two bytes or more.
  abbrev pub behind_first : Bytes → Bytes
  behind_first [] = []
  behind_first (c ∷ cs) = cs

  unfoldable pub split_event : Event → Fed Event
  split_event event =
      if ftxui.is_character event
        || not (is_merged (ftxui.input event))
        || is_short_key (ftxui.input event)
      then fed (event ∷ []) []
      else after_escape (behind_first (ftxui.input event))

  unfoldable pub feed : Bytes → Event → Fed Event
  feed pending event =
      if is_empty pending
      then split_event event
      else if ftxui.is_character event
      then collect (pending ++ ftxui.input event)
      else if ftxui.is_custom event
      then fed (event ∷ []) pending
      else split_event event
