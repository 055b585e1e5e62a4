-- ===== src/Escape/Keys.antt =====
-- Keys whose sequence was cut short behind an Esc, and the spelling of keys.
use mathlib.Core.Path.{subst}
use quick_logger.Prelude.{
  ℕ, ◌+◌, ◌≤◌, ◌≡◌, ◌⊎◌, ◌∙◌, refl, ap, inl, inr, Bool, true, false, ◌&&◌, List, [], ◌∷◌, ◌++◌,
  append-nil, append_assoc, arith, ◌==◌, Bool-cases, ltb, Bytes, codes, equal, equal_iff, is_empty,
  length, length-append, and-true, All, All-append, within,
}
use quick_logger.Escape.{
  Events, esc, max_sequence_length, KeySpelling, key_spellings, spelling_in, uniform_spelling, last,
  is_whole_sequence, Fed, fed, escape, each_character, collect, split_event, feed, is_merged,
  is_short_key, after_escape, after_two,
}

abbrev all_uniform : List KeySpelling → Bool
all_uniform [] = true
all_uniform (s ∷ rest) = equal (uniform_spelling s.to) s.to && all_uniform rest

all_uniform-table : all_uniform key_spellings ≡ true
unfolding uniform_spelling spelling_in equal
all_uniform-table = refl

spelling_in-uniform :
    (table : List KeySpelling) (sequence : Bytes)
    → all_uniform table ≡ true
    → (spelling_in table sequence ≡ sequence)
      ⊎ (uniform_spelling (spelling_in table sequence) ≡ spelling_in table sequence)
unfolding spelling_in
spelling_in-uniform [] sequence h = inl refl
spelling_in-uniform (s ∷ rest) sequence h =
    let both = and-true (equal (uniform_spelling s.to) s.to) (all_uniform rest) h in
    elim (Bool-cases (equal sequence s.from)) [
      | inl same ↦ rw same (inr ((equal_iff (uniform_spelling s.to) s.to).0 both.0))
      | inr other ↦ rw other (spelling_in-uniform rest sequence both.1)
    ]

-- A uniform spelling is not spelled anew.
pub uniform_spelling_idem :
    (sequence : Bytes) → uniform_spelling (uniform_spelling sequence) ≡ uniform_spelling sequence
unfolding uniform_spelling
uniform_spelling_idem sequence =
    elim (spelling_in-uniform key_spellings sequence all_uniform-table) [
      | inl same ↦ ap (spelling_in key_spellings) same
      | inr uniform ↦ uniform
    ]

-- The bytes that end a sequence behind Esc [.
abbrev pub is_final : ℕ → Bool
is_final c = within 0x40 0x7E c

last-append : (c d : ℕ) (cs : Bytes) → last c (cs ++ d ∷ []) ≡ d
unfolding last
last-append c d [] = refl
last-append c d (e ∷ cs) = last-append e d cs

abbrev pub AreParameters : Bytes → Type 0
AreParameters cs = All (λ c. is_final c ≡ false) cs

-- What is collected is whole with its final byte, and not before.
is_whole_sequence-append :
    (done : Bytes) (c : ℕ)
    → AreParameters done
    → ((is_empty done && c == b'[') ≡ false)
    → is_whole_sequence (esc ∷ b'[' ∷ (done ++ c ∷ [])) ≡ is_final c
unfolding is_whole_sequence equal last
is_whole_sequence-append [] c h first = rw first
is_whole_sequence-append (d ∷ ds) c h first =
    let other : (d == b'[') ≡ false = ground (arith, h.0) in rw (other, last-append d c ds)

module _ {Event : Type 0} (ftxui : Events Event) where
  -- The events fed one after another.
  unfoldable pub feed_all : Bytes → List Event → Fed Event
  feed_all pending [] = fed ftxui [] pending
  feed_all pending (event ∷ events) =
      let first = feed ftxui pending event in
      let later = feed_all first.pending events in
      fed ftxui (first.events ++ later.events) later.pending

  feed-character :
      (p : Bytes) (c : ℕ)
      → feed ftxui (esc ∷ p) (ftxui.character (c ∷ [])) ≡ collect ftxui (esc ∷ p ++ c ∷ [])
  unfolding feed
  feed-character p c = rw (ftxui.is_character-character (c ∷ []), ftxui.input-character (c ∷ []))

  collect-whole :
      (s : Bytes)
      → is_whole_sequence s ≡ true
      → collect ftxui s ≡ fed ftxui (ftxui.special (uniform_spelling s) ∷ []) []
  unfolding collect
  collect-whole s h = rw h

  collect-start :
      (s : Bytes)
      → is_whole_sequence s ≡ false
      → length s ≤ max_sequence_length
      → collect ftxui s ≡ fed ftxui [] s
  unfolding collect
  collect-start s h short =
      let fits : ltb max_sequence_length (length s) ≡ false = ground arith in rw (h, fits)

  feed_all-step :
      (p : Bytes) (event : Event) (events : List Event) (first : Fed Event)
      → feed ftxui p event ≡ first
      → feed_all p (event ∷ events)
        ≡ fed ftxui
            (first.events ++ (feed_all first.pending events).events)
            (feed_all first.pending events).pending
  unfolding feed_all
  feed_all-step p event events first e = rw e

  abbrev key_event : Bytes → Event
  key_event behind = ftxui.special (uniform_spelling (esc ∷ b'[' ∷ behind))

  feed_all-parameters :
      (done parameters : Bytes) (final : ℕ)
      → AreParameters done
      → AreParameters parameters
      → is_final final ≡ true
      → (is_empty (done ++ parameters) && final == b'[') ≡ false
      → length done + length parameters ≤ 6
      → feed_all (esc ∷ b'[' ∷ done) (each_character ftxui (parameters ++ final ∷ []))
        ≡ fed ftxui (key_event (done ++ (parameters ++ final ∷ [])) ∷ []) []
  unfolding each_character
  feed_all-parameters done [] final hd hp whole first short =
      feed_all-step (esc ∷ b'[' ∷ done) (ftxui.character (final ∷ [])) []
        (fed ftxui (key_event (done ++ final ∷ []) ∷ []) [])
        (feed-character (b'[' ∷ done) final
          ∙ collect-whole (esc ∷ b'[' ∷ (done ++ final ∷ [])) (
              is_whole_sequence-append done final hd
                (subst (λ t. (is_empty t && final == b'[') ≡ false) (append-nil done) first)
              ∙ whole))
      ∙ unfold feed_all in refl
  feed_all-parameters done (c ∷ cs) final hd hp whole first short =
      feed_all-step (esc ∷ b'[' ∷ done) (ftxui.character (c ∷ []))
        (each_character ftxui (cs ++ final ∷ [])) (fed ftxui [] (esc ∷ b'[' ∷ (done ++ c ∷ [])))
        (feed-character (b'[' ∷ done) c
          ∙ collect-start (esc ∷ b'[' ∷ (done ++ c ∷ []))
              (is_whole_sequence-append done c hd (parameter_second c done hp.0) ∙ hp.0)
              (omega (arith, length-append done (c ∷ []))))
      ∙ feed_all-parameters (done ++ c ∷ []) cs final (All-append _ done (c ∷ []) hd (hp.0, tt))
          hp.1 whole (not_first c done cs) (omega (arith, length-append done (c ∷ [])))
      ∙ ap (λ t. fed ftxui (key_event t ∷ []) []) (append_assoc done (c ∷ []) (cs ++ final ∷ []))
    where
      parameter_second :
          (c : ℕ) (done : Bytes) → is_final c ≡ false → (is_empty done && c == b'[') ≡ false
      parameter_second c [] h = ground arith
      parameter_second c (d ∷ ds) h = refl

      not_first :
          (c : ℕ) (done cs : Bytes) → (is_empty (done ++ c ∷ [] ++ cs) && final == b'[') ≡ false
      not_first c [] cs = refl
      not_first c (d ∷ ds) cs = refl

  -- For any events that obey the stated laws: an event that is no character and holds Esc, Esc and
  -- [, followed by up to six parameter bytes and a final byte as characters, comes out of the
  -- splitter as Esc and the one special event of that key in its uniform spelling, with nothing
  -- left pending, where the final byte is not a lone second [.
  pub feed_all-key :
      (event : Event) (parameters : Bytes) (final : ℕ)
      → ftxui.is_character event ≡ false
      → ftxui.input event ≡ esc ∷ esc ∷ codes "["
      → AreParameters parameters
      → is_final final ≡ true
      → (is_empty parameters && final == b'[') ≡ false
      → length parameters ≤ 6
      → feed_all [] (event ∷ each_character ftxui (parameters ++ final ∷ []))
        ≡ fed ftxui
            (escape ftxui
              ∷ ftxui.special (uniform_spelling (esc ∷ b'[' ∷ (parameters ++ final ∷ [])))
              ∷ [])
            []
  feed_all-key event parameters final key input hp whole first short =
      feed_all-step [] event (each_character ftxui (parameters ++ final ∷ []))
        (fed ftxui (escape ftxui ∷ []) (esc ∷ codes "["))
        (unfold feed split_event is_merged is_short_key after_escape after_two in rw (key, input))
      ∙ ap (λ (f : Fed Event). fed ftxui (escape ftxui ∷ f.events) f.pending)
          (feed_all-parameters [] parameters final tt hp whole first (omega arith))
