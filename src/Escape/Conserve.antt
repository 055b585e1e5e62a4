-- ===== src/Escape/Conserve.antt =====
-- What is returned and held of the bytes of an event, and what may be held.
use mathlib.Core.Path.{subst}
use quick_logger.Prelude.{
  ℕ, suc, ◌≤◌, ◌≡◌, ◌⊎◌, ◌∙◌, refl, sym, ap, inl, inr, Bool, true, false, not, ◌||◌, List, [], ◌∷◌,
  ◌++◌, append-nil, arith, ◌==◌, ==_iff, Bool-cases, ltb, Bytes, length,
}
use quick_logger.Escape.{
  Events, esc, max_sequence_length, is_whole_sequence, is_ascii, is_merged, is_short_key, Fed,
  each_character, characters, collect, after_two, after_escape, behind_first, split_event, feed,
}

-- A start of a key sequence whose end has not come: what may be pending.
pub record IsStart (p : Bytes) : Type 0 where
  pub kind : ℕ
  pub parameters : Bytes
  pub begins_key : p ≡ esc ∷ kind ∷ parameters
  pub is_kind : (kind ≡ b'[') ⊎ (kind ≡ b'O')
  pub unfinished : is_whole_sequence p ≡ false
  pub short : length p ≤ max_sequence_length

abbrev pub IsHeld : Bytes → Type 0
IsHeld p = (p ≡ []) ⊎ IsStart p

module _ {Event : Type 0} (ftxui : Events Event) where
  -- The bytes of some events, in order.
  unfoldable pub inputs : List Event → Bytes
  inputs [] = []
  inputs (e ∷ es) = ftxui.input e ++ inputs es

  -- The bytes of what was returned, and then those that are pending.
  abbrev pub all_bytes : Fed Event → Bytes
  all_bytes f = inputs f.events ++ f.pending

  inputs-each_character : (text : Bytes) → inputs (each_character ftxui text) ≡ text
  unfolding inputs each_character
  inputs-each_character [] = refl
  inputs-each_character (c ∷ cs) =
      rw (ftxui.input-character (c ∷ [])) (ap (λ t. c ∷ t) (inputs-each_character cs))

  inputs-characters : (text : Bytes) → inputs (characters ftxui text) ≡ text
  unfolding characters inputs
  inputs-characters text = elim (Bool-cases (is_ascii text)) [
    | inl ascii ↦ rw ascii (inputs-each_character text)
    | inr other ↦ rw (other, ftxui.input-character text) (append-nil text)
  ]

  all_bytes-after_two :
      (cs : Bytes) → length cs ≤ 1 → all_bytes (after_two ftxui cs) ≡ esc ∷ esc ∷ cs
  unfolding after_two inputs
  all_bytes-after_two [] h = rw (ftxui.input-special (esc ∷ []))
  all_bytes-after_two (c ∷ d ∷ cs) h = absurd (omega arith)
  all_bytes-after_two (c ∷ []) h = elim (Bool-cases (c == b'[' || c == b'O')) [
    | inl starts ↦ rw (starts, ftxui.input-special (esc ∷ []))
    | inr other ↦ elim (Bool-cases (c == esc)) [
      | inl third ↦
          rw (other, third, ftxui.input-special (esc ∷ []))
            (ap (λ t. esc ∷ esc ∷ t ∷ []) (sym ((==_iff c esc).0 third)))
      | inr typed ↦
          rw (other, typed, ftxui.input-special (esc ∷ []))
            (ap (λ t. esc ∷ esc ∷ t)
              (append-nil (inputs (characters ftxui (c ∷ []))) ∙ inputs-characters (c ∷ [])))
    ]
  ]

  all_bytes-after_escape :
      (cs : Bytes) → length cs ≤ 2 → all_bytes (after_escape ftxui cs) ≡ esc ∷ cs
  unfolding after_escape inputs
  all_bytes-after_escape [] h = rw (ftxui.input-special (esc ∷ []))
  all_bytes-after_escape (c ∷ cs) h = elim (Bool-cases (c == esc)) [
    | inl second ↦ rw second (
        all_bytes-after_two cs (omega arith)
        ∙ ap (λ t. esc ∷ t ∷ cs) (sym ((==_iff c esc).0 second)))
    | inr typed ↦
        rw (typed, ftxui.input-special (esc ∷ []))
          (ap (λ t. esc ∷ t)
            (append-nil (inputs (characters ftxui (c ∷ cs))) ∙ inputs-characters (c ∷ cs)))
  ]

  all_bytes-behind_first :
      (input : Bytes)
      → is_merged input ≡ true
      → length input ≤ 3
      → all_bytes (after_escape ftxui (behind_first ftxui input)) ≡ input
  unfolding is_merged
  all_bytes-behind_first (c ∷ d ∷ cs) merged h =
      all_bytes-after_escape (d ∷ cs) (omega arith) ∙ ap (λ t. t ∷ d ∷ cs) (ground arith)
  all_bytes-behind_first (c ∷ []) merged h = cc
  all_bytes-behind_first [] merged h = cc

  abbrev passes : Event → Bool
  passes event =
      ftxui.is_character event
      || not (is_merged (ftxui.input event))
      || is_short_key (ftxui.input event)

  -- With nothing pending, the bytes of an event of three bytes at most are those of the events the
  -- splitter returns followed by those it holds, in order and with none lost or added.
  pub all_bytes-feed :
      (event : Event)
      → length (ftxui.input event) ≤ 3
      → all_bytes (feed ftxui [] event) ≡ ftxui.input event
  unfolding feed split_event inputs
  all_bytes-feed event h = elim (Bool-cases (passes event)) [
    | inl whole ↦ rw whole (append-nil (ftxui.input event ++ []) ∙ append-nil (ftxui.input event))
    | inr split ↦ rw split (all_bytes-behind_first (ftxui.input event) (ground arith) h)
  ]

  collect-IsHeld :
      (kind : ℕ) (p : Bytes)
      → (kind ≡ b'[') ⊎ (kind ≡ b'O')
      → IsHeld (collect ftxui (esc ∷ kind ∷ p)).pending
  unfolding collect
  collect-IsHeld kind p k = elim (Bool-cases (is_whole_sequence (esc ∷ kind ∷ p))) [
    | inl whole ↦ rw whole (inl refl)
    | inr unfinished ↦ elim (Bool-cases (ltb max_sequence_length (length (esc ∷ kind ∷ p)))) [
      | inl long ↦ rw (unfinished, long) (inl refl)
      | inr short ↦
          rw (unfinished, short)
            (inr (record {
              kind = kind;
              parameters = p;
              begins_key = refl;
              is_kind = k;
              unfinished = unfinished;
              short = ground arith;
            }))
    ]
  ]

  after_two-IsHeld : (cs : Bytes) → length cs ≤ 1 → IsHeld (after_two ftxui cs).pending
  unfolding after_two
  after_two-IsHeld [] h = inl refl
  after_two-IsHeld (c ∷ d ∷ cs) h = absurd (omega arith)
  after_two-IsHeld (c ∷ []) h = elim (Bool-cases (c == b'[' || c == b'O')) [
    | inl starts ↦ rw starts (
        inr (record {
          kind = c;
          parameters = [];
          begins_key = refl;
          is_kind = ground arith;
          unfinished = unfold is_whole_sequence in refl;
          short = omega arith;
        }))
    | inr other ↦ elim (Bool-cases (c == esc)) [
      | inl third ↦ rw (other, third) (inl refl)
      | inr typed ↦ rw (other, typed) (inl refl)
    ]
  ]

  after_escape-IsHeld : (cs : Bytes) → length cs ≤ 2 → IsHeld (after_escape ftxui cs).pending
  unfolding after_escape
  after_escape-IsHeld [] h = inl refl
  after_escape-IsHeld (c ∷ cs) h = elim (Bool-cases (c == esc)) [
    | inl second ↦ rw second (after_two-IsHeld cs (omega arith))
    | inr typed ↦ rw typed (inl refl)
  ]

  length-behind_first :
      (k : ℕ) (input : Bytes) → length input ≤ suc k → length (behind_first ftxui input) ≤ k
  length-behind_first k [] h = omega arith
  length-behind_first k (c ∷ cs) h = omega arith

  split_event-IsHeld :
      (event : Event) → length (ftxui.input event) ≤ 3 → IsHeld (split_event ftxui event).pending
  unfolding split_event
  split_event-IsHeld event h = elim (Bool-cases (passes event)) [
    | inl whole ↦ rw whole (inl refl)
    | inr split ↦ rw split (
        after_escape-IsHeld (behind_first ftxui (ftxui.input event))
          (length-behind_first 2 (ftxui.input event) h))
  ]

  abbrev Fits : Event → Type 0
  Fits event = (ftxui.is_character event ≡ true) ⊎ (length (ftxui.input event) ≤ 3)

  split_event-Fits : (event : Event) → Fits event → IsHeld (split_event ftxui event).pending
  split_event-Fits event (inl typed) = unfold split_event in rw typed (inl refl)
  split_event-Fits event (inr short) = split_event-IsHeld event short

  feed-start :
      (kind : ℕ) (parameters : Bytes) (event : Event)
      → IsStart (esc ∷ kind ∷ parameters)
      → (kind ≡ b'[') ⊎ (kind ≡ b'O')
      → Fits event
      → IsHeld (feed ftxui (esc ∷ kind ∷ parameters) event).pending
  unfolding feed
  feed-start kind parameters event start k h = elim (Bool-cases (ftxui.is_character event)) [
    | inl typed ↦ rw typed (collect-IsHeld kind (parameters ++ ftxui.input event) k)
    | inr key ↦ elim (Bool-cases (ftxui.is_custom event)) [
      | inl redraw ↦ rw (key, redraw) (inr start)
      | inr other ↦ rw (key, other) (split_event-Fits event h)
    ]
  ]

  -- If what is pending is nothing or the unfinished start of one key sequence, of eight bytes at
  -- most, then so is what is pending after another event, which is a character or has three bytes
  -- at most.
  pub feed-IsHeld :
      (p : Bytes) (event : Event)
      → IsHeld p
      → (ftxui.is_character event ≡ true) ⊎ (length (ftxui.input event) ≤ 3)
      → IsHeld (feed ftxui p event).pending
  unfolding feed
  feed-IsHeld p event (inl nothing) h = rw nothing (split_event-Fits event h)
  feed-IsHeld p event (inr start) h =
      subst (λ t. IsHeld (feed ftxui t event).pending) (sym start.begins_key)
        (feed-start start.kind start.parameters event (subst IsStart start.begins_key start)
          start.is_kind h)
