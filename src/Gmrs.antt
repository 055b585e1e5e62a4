-- ===== src/Gmrs.antt =====
-- src/gmrs_channels.cpp: the channels of a GMRS net.
use Prim.Native.String.{String}
use mathlib.Core.Path.{subst}
use quick_logger.Prelude.{
  ℕ, zero, suc, ◌+◌, ◌*◌, ◌≡◌, ◌⊎◌, refl, ap, inl, inr, Bool, true, false, ◌&&◌, ◌||◌, List, [],
  ◌∷◌, ◌++◌, Option, none, some, some_inj, and-true, arith, ◌==◌, ==_iff, if◌then◌else◌, Bool-cases,
  Bytes, codes, equal, is_empty, get_elem?,
}
use quick_logger.Frequency.{parse_mhz, mhz}

pub record GmrsChannel : Type 0 where
  pub name : Bytes
  pub frequency : Bytes
  pub input : Bytes
  pub offset : Bytes

abbrev simplex : String → String → GmrsChannel
simplex name frequency = record {
  name = codes name;
  frequency = codes frequency;
  input = [];
  offset = [];
}

abbrev pair : String → String → String → GmrsChannel
pair name frequency input = record {
  name = codes name;
  frequency = codes frequency;
  input = codes input;
  offset = codes "+5";
}

-- `GmrsChannels`.
abbrev pub channels : List GmrsChannel
channels =
    simplex "1" "462.5625"
    ∷ simplex "2" "462.5875"
    ∷ simplex "3" "462.6125"
    ∷ simplex "4" "462.6375"
    ∷ simplex "5" "462.6625"
    ∷ simplex "6" "462.6875"
    ∷ simplex "7" "462.7125"
    ∷ simplex "8" "467.5625"
    ∷ simplex "9" "467.5875"
    ∷ simplex "10" "467.6125"
    ∷ simplex "11" "467.6375"
    ∷ simplex "12" "467.6625"
    ∷ simplex "13" "467.6875"
    ∷ simplex "14" "467.7125"
    ∷ simplex "15" "462.5500"
    ∷ simplex "16" "462.5750"
    ∷ simplex "17" "462.6000"
    ∷ simplex "18" "462.6250"
    ∷ simplex "19" "462.6500"
    ∷ simplex "20" "462.6750"
    ∷ simplex "21" "462.7000"
    ∷ simplex "22" "462.7250"
    ∷ pair "15R" "462.5500" "467.5500"
    ∷ pair "16R" "462.5750" "467.5750"
    ∷ pair "17R" "462.6000" "467.6000"
    ∷ pair "18R" "462.6250" "467.6250"
    ∷ pair "19R" "462.6500" "467.6500"
    ∷ pair "20R" "462.6750" "467.6750"
    ∷ pair "21R" "462.7000" "467.7000"
    ∷ pair "22R" "462.7250" "467.7250"
    ∷ []

unfoldable pub find_from : ℕ → List GmrsChannel → Bytes → Bytes → Option ℕ
find_from i [] frequency offset = none
find_from i (c ∷ rest) frequency offset =
    if equal frequency c.frequency && equal offset c.offset
    then some i
    else find_from (suc i) rest frequency offset

-- `none` is the result -1.
unfoldable pub find_gmrs_channel : Bytes → Bytes → Option ℕ
find_gmrs_channel frequency offset = find_from 0 channels frequency offset

unfoldable pub describe_gmrs_channel : GmrsChannel → Bytes
describe_gmrs_channel channel =
    (channel.name ++ codes "  " ++ channel.frequency)
    ++ (if is_empty channel.input then [] else codes ", input " ++ channel.input)

abbrev index_is : ℕ → Option ℕ → Bool
index_is i none = false
index_is i (some j) = j == i

index_is-some : (i : ℕ) (o : Option ℕ) → index_is i o ≡ true → o ≡ some i
index_is-some i none h = cc
index_is-some i (some j) h = ap some ((==_iff j i).0 h)

abbrev hz_above : Option ℕ → Option ℕ → Bool
hz_above (some low) (some high) = high == low + 5 * mhz
hz_above _ _ = false

hz_above-some :
    (low high : Option ℕ)
    → hz_above low high ≡ true
    → (hz : ℕ) × (low ≡ some hz) × (high ≡ some (hz + 5 * mhz))
hz_above-some (some low) (some high) h = (low, refl, ap some ((==_iff high (low + 5 * mhz)).0 h))
hz_above-some none high h = cc
hz_above-some (some low) none h = cc

abbrev channel_well : ℕ → GmrsChannel → Bool
channel_well i c =
    index_is i (find_gmrs_channel c.frequency c.offset)
    && (is_empty c.input || hz_above (parse_mhz c.frequency) (parse_mhz c.input))

abbrev all_well : ℕ → List GmrsChannel → Bool
all_well i [] = true
all_well i (c ∷ rest) = channel_well i c && all_well (suc i) rest

all_well_table : all_well 0 channels ≡ true
unfolding find_gmrs_channel find_from equal parse_mhz
all_well_table = refl

all_well_sound :
    (n i : ℕ) (rows : List GmrsChannel) (c : GmrsChannel)
    → all_well n rows ≡ true
    → get_elem? rows i ≡ some c
    → channel_well (n + i) c ≡ true
all_well_sound n i [] c h e = cc
all_well_sound n zero (r ∷ rows) c h e =
    let both = and-true (channel_well n r) (all_well (suc n) rows) h in
    subst (λ x. channel_well (n + 0) x ≡ true) (some_inj e)
      (subst (λ k. channel_well k r ≡ true) (omega arith) both.0)
all_well_sound n (suc i) (r ∷ rows) c h e =
    let both = and-true (channel_well n r) (all_well (suc n) rows) h in
    subst (λ k. channel_well k c ≡ true) (omega arith) (all_well_sound (suc n) i rows c both.1 e)

-- FindGmrsChannel finds a listed channel at its own place by its frequency and offset, and the
-- channel's input is blank or 5 MHz above its frequency.
pub find_gmrs_channel-listed :
    (i : ℕ) (c : GmrsChannel)
    → get_elem? channels i ≡ some c
    → (find_gmrs_channel c.frequency c.offset ≡ some i)
      × ((c.input ≡ [])
          ⊎ ((hz : ℕ) × (parse_mhz c.frequency ≡ some hz)
              × (parse_mhz c.input ≡ some (hz + 5 * mhz))))
find_gmrs_channel-listed i c e =
    let row = all_well_sound 0 i channels c all_well_table e in
    let both = and-true (index_is (0 + i) (find_gmrs_channel c.frequency c.offset)) _ row in
    (
      index_is-some i (find_gmrs_channel c.frequency c.offset) (
          subst (λ k. index_is k (find_gmrs_channel c.frequency c.offset) ≡ true) (omega arith)
            both.0),
      elim (Bool-cases (is_empty c.input)) [
        | inl simple ↦ inl (empty_nil c.input simple)
        | inr repeater ↦
            inr (hz_above-some (parse_mhz c.frequency) (parse_mhz c.input) (rw repeater at both.1))
      ],
    )
  where
    empty_nil : (xs : Bytes) → is_empty xs ≡ true → xs ≡ []
    empty_nil [] h = refl
    empty_nil (x ∷ xs) h = cc
