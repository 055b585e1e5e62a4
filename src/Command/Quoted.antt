-- ===== src/Command/Quoted.antt =====
-- Words quoted for a remote command, and `SplitCommandLine`.
use quick_logger.Prelude.{
  ℕ, ◌≡◌, ◌∙◌, refl, sym, ap, inl, inr, true, false, ◌&&◌, List, [], ◌∷◌, ◌++◌, map, append-nil,
  append_assoc, arith, ◌==◌, if◌then◌else◌, Bool-cases, Bytes, All, join_on,
}
use quick_logger.Command.{
  SplitResult, words_are, failed, State, is_control, end_word, Step, next, error, step_outside,
  finish, is_escaped, step_inside, step, split_from, split_command_line,
}

-- A backslash before each quote and backslash.
unfoldable pub backslashed : Bytes → Bytes
backslashed [] = []
backslashed (c ∷ cs) = if is_escaped c then b'\\' ∷ c ∷ backslashed cs else c ∷ backslashed cs

unfoldable pub quote : Bytes → Bytes
quote word = b'"' ∷ (backslashed word ++ b'"' ∷ [])

-- The command line of some words.
unfoldable pub quoted : List Bytes → Bytes
quoted words = join_on b' ' (map quote words)

-- A word that quotes can hold.
abbrev pub IsWord : Bytes → Type 0
IsWord = All (λ c. is_control true c ≡ false)

-- The rest of the loop behind a step.
abbrev behind : Step → Bytes → SplitResult
behind (next s) text = split_from s text
behind (error e) text = failed e

split_from-last :
    (s : State) (c : ℕ) (x : Step)
    → is_control s.in_quotes c ≡ false
    → step s c ≡ x
    → split_from s (c ∷ []) ≡ behind x []
unfolding split_from
split_from-last s c (next t) fine e = rw (fine, e)
split_from-last s c (error x) fine e = rw (fine, e)

split_from-more :
    (s : State) (c d : ℕ) (cs : Bytes) (x : Step)
    → is_control s.in_quotes c ≡ false
    → (s.in_quotes && c == b'\\') ≡ false
    → step s c ≡ x
    → split_from s (c ∷ d ∷ cs) ≡ behind x (d ∷ cs)
unfolding split_from
split_from-more s c d cs (next t) fine plain e = rw (fine, plain, e)
split_from-more s c d cs (error x) fine plain e = rw (fine, plain, e)

split_from-step :
    (s : State) (c : ℕ) (text : Bytes)
    → is_control s.in_quotes c ≡ false
    → (s.in_quotes && c == b'\\') ≡ false
    → split_from s (c ∷ text) ≡ behind (step s c) text
split_from-step s c [] fine plain = split_from-last s c (step s c) fine refl
split_from-step s c (d ∷ cs) fine plain = split_from-more s c d cs (step s c) fine plain refl

-- The states between words, inside a quoted one, and behind it.
abbrev between : List Bytes → State
between words = record {
  words = words;
  word = [];
  in_word = false;
  in_quotes = false;
  after_quote = false;
}

abbrev inside : List Bytes → Bytes → State
inside words word = record {
  words = words;
  word = word;
  in_word = true;
  in_quotes = true;
  after_quote = false;
}

abbrev closed : List Bytes → Bytes → State
closed words word = record {
  words = words;
  word = word;
  in_word = true;
  in_quotes = false;
  after_quote = true;
}

split_from-escape :
    (ws : List Bytes) (front : Bytes) (d : ℕ) (cs : Bytes)
    → is_escaped d ≡ true
    → split_from (inside ws front) (b'\\' ∷ d ∷ cs) ≡ split_from (inside ws (front ++ d ∷ [])) cs
unfolding split_from is_control
split_from-escape ws front d cs h = rw h

step_inside-plain :
    (ws : List Bytes) (front : Bytes) (c : ℕ)
    → is_escaped c ≡ false
    → step_inside (inside ws front) c ≡ inside ws (front ++ c ∷ [])
unfolding step_inside
step_inside-plain ws front c plain =
    let no_quote : (c == b'"') ≡ false = ground arith in rw no_quote

split_from-inside :
    (ws : List Bytes) (front word text : Bytes)
    → IsWord word
    → split_from (inside ws front) (backslashed word ++ b'"' ∷ text)
      ≡ split_from (closed ws (front ++ word)) text
unfolding backslashed
split_from-inside ws front [] text h =
    split_from-step (inside ws front) b'"' text (unfold is_control in refl) refl
    ∙ unfold step_inside in ap (λ w. split_from (closed ws w) text) (sym (append-nil front))
split_from-inside ws front (c ∷ word) text h = elim (Bool-cases (is_escaped c)) [
  | inl escaped ↦ rw escaped (
      split_from-escape ws front c (backslashed word ++ b'"' ∷ text) escaped
      ∙ split_from-inside ws (front ++ c ∷ []) word text h.1
      ∙ ap (λ w. split_from (closed ws w) text) (append_assoc front (c ∷ []) word))
  | inr plain ↦ rw plain (
      split_from-step (inside ws front) c (backslashed word ++ b'"' ∷ text) h.0 (ground arith)
      ∙ ap (λ t. split_from t (backslashed word ++ b'"' ∷ text))
          (step_inside-plain ws front c plain)
      ∙ split_from-inside ws (front ++ c ∷ []) word text h.1
      ∙ ap (λ w. split_from (closed ws w) text) (append_assoc front (c ∷ []) word))
]

split_from-quote :
    (ws : List Bytes) (word text : Bytes)
    → IsWord word
    → split_from (between ws) (quote word ++ text) ≡ split_from (closed ws word) text
unfolding quote
split_from-quote ws word text h =
    split_from-step (between ws) b'"' (backslashed word ++ b'"' ∷ [] ++ text)
      (unfold is_control in refl) refl
    ∙ unfold step_outside in
      ap (split_from (inside ws [])) (append_assoc (backslashed word) (b'"' ∷ []) text)
      ∙ split_from-inside ws [] word text h

split_from-blank :
    (ws : List Bytes) (word text : Bytes)
    → split_from (closed ws word) (b' ' ∷ text) ≡ split_from (between (ws ++ word ∷ [])) text
split_from-blank ws word text =
    split_from-step (closed ws word) b' ' text (unfold is_control in refl) refl
    ∙ unfold step_outside end_word in refl

split_from-quoted :
    (ws words : List Bytes)
    → All IsWord words
    → split_from (between ws) (quoted words) ≡ words_are (ws ++ words)
unfolding quoted join_on
split_from-quoted ws [] h = unfold split_from finish in ap words_are (sym (append-nil ws))
split_from-quoted ws (word ∷ []) h =
    ap (split_from (between ws)) (sym (append-nil (quote word)))
    ∙ split_from-quote ws word [] h.0
    ∙ unfold split_from finish in refl
split_from-quoted ws (word ∷ second ∷ words) h =
    split_from-quote ws word (b' ' ∷ quoted (second ∷ words)) h.0
    ∙ split_from-blank ws word (quoted (second ∷ words))
    ∙ split_from-quoted (ws ++ word ∷ []) (second ∷ words) h.1
    ∙ ap words_are (append_assoc ws (word ∷ []) (second ∷ words))

-- The command line made of some words, each in quotes with a backslash before each quote and
-- backslash in it and one space between them, is split into those words, where no word has a
-- control character.
pub split_command_line-quoted :
    (words : List Bytes) → All IsWord words → split_command_line (quoted words) ≡ words_are words
unfolding split_command_line
split_command_line-quoted words h = split_from-quoted [] words h
