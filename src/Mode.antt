-- ===== src/Mode.antt =====
-- src/mode_rules.cpp: the modes of a net, how they may be typed, and their names in ADIF.
pub mod Normal
pub mod Adif
use quick_logger.Prelude.{
  ℕ, zero, suc, ◌-◌, Bool, true, false, ◌&&◌, ◌||◌, List, [], ◌∷◌, ◌++◌, Option, none, some, ◌==◌,
  if◌then◌else◌, ltb, Bytes, codes, equal, is_alnum, to_upper, get_or,
}

abbrev pub net_modes : List Bytes
net_modes =
    codes "FM"
    ∷ codes "SSB"
    ∷ codes "AM"
    ∷ codes "CW"
    ∷ codes "D-STAR"
    ∷ codes "DMR"
    ∷ codes "Fusion"
    ∷ []

unfoldable pub is_separator : ℕ → Bool
is_separator c = c == b' ' || c == b'-' || c == b'/' || c == b'_' || c == b'.' || c == 9

-- The loop of `ModeKey`, whose `key` is `acc`.
unfoldable pub key_from : Bytes → Bytes → Bytes
key_from acc [] = acc
key_from acc (c ∷ cs) =
    if is_alnum c
    then key_from (acc ++ (to_upper c ∷ [])) cs
    else if is_separator c
    then key_from acc cs
    else []

unfoldable pub mode_key : Bytes → Bytes
mode_key text = key_from [] text

pub record ModeSpelling : Type 0 where
  pub key : Bytes
  pub mode : Bytes

abbrev spelling : Bytes → Bytes → ModeSpelling
spelling key mode = record { key = key; mode = mode }

-- `kSpellings`.
abbrev pub spellings : List ModeSpelling
spellings =
    spelling (codes "FM") (codes "FM")
    ∷ spelling (codes "NFM") (codes "FM")
    ∷ spelling (codes "SSB") (codes "SSB")
    ∷ spelling (codes "USB") (codes "SSB")
    ∷ spelling (codes "LSB") (codes "SSB")
    ∷ spelling (codes "AM") (codes "AM")
    ∷ spelling (codes "CW") (codes "CW")
    ∷ spelling (codes "DSTAR") (codes "D-STAR")
    ∷ spelling (codes "DMR") (codes "DMR")
    ∷ spelling (codes "FUSION") (codes "Fusion")
    ∷ spelling (codes "YSF") (codes "Fusion")
    ∷ spelling (codes "C4FM") (codes "Fusion")
    ∷ spelling (codes "SYSTEMFUSION") (codes "Fusion")
    ∷ []

unfoldable pub mode_of : List ModeSpelling → Bytes → Bytes
mode_of [] key = []
mode_of (s ∷ rest) key = if equal key s.key then s.mode else mode_of rest key

unfoldable pub normalize_mode : Bytes → Bytes
normalize_mode text = mode_of spellings (mode_key text)

unfoldable pub index_from : ℕ → List Bytes → Bytes → Option ℕ
unfolding equal
index_from i [] mode = none
index_from i (m ∷ rest) mode = if equal m mode then some i else index_from (suc i) rest mode

-- `none` is the result -1.
unfoldable pub net_mode_index : Bytes → Option ℕ
net_mode_index mode = index_from 0 net_modes mode

abbrev pub submodes : List Bytes
submodes = codes "DSTAR" ∷ codes "DMR" ∷ codes "C4FM" ∷ []

-- The two texts that `AdifMode` sets.
unfoldable pub adif_of : Bytes → Option ℕ → Bytes × Bytes
adif_of mode none = ([], [])
adif_of mode (some index) =
    if ltb index 4 then (mode, []) else (codes "DIGITALVOICE", get_or submodes (index - 4) [])

unfoldable pub adif_mode : Bytes → Bytes × Bytes
adif_mode mode = adif_of mode (net_mode_index mode)
