-- ===== src/Keys/Line/Comment.antt =====
-- A comment that is put behind a key leaves the key as it is.
use quick_logger.Prelude.{
  ℕ, ◌≡◌, refl, ap, sym, ◌∙◌, inl, inr, true, false, List, [], ◌∷◌, ◌++◌, append-nil, append_assoc,
  if◌then◌else◌, ltb, Bytes, equal_refl, length, is_empty, is_space, All, All-append, Bool-cases,
}
use quick_logger.Prelude.Find.{any}
use quick_logger.Keys.Line.{
  words_behind, split_words, same_words, same_public_key, Commented, line_is, comment_refused,
  is_control_character, trimmed_comment, comment_behind, with_comment, with_public_key_comment,
}

-- A word is not blank and holds no blank.
abbrev IsWord : Bytes → Type 0
IsWord word = (is_empty word ≡ false) × All (λ c. is_space c ≡ false) word

is_empty-append : (xs : Bytes) (c : ℕ) → is_empty (xs ++ c ∷ []) ≡ false
is_empty-append [] c = refl
is_empty-append (x ∷ xs) c = refl

words_behind-IsWord :
    (word text : Bytes) → All (λ c. is_space c ≡ false) word → All IsWord (words_behind word text)
unfolding words_behind
words_behind-IsWord word [] h = elim (Bool-cases (is_empty word)) [
  | inl e ↦ rw e tt
  | inr e ↦ rw e ((e, h), tt)
]
words_behind-IsWord word (c ∷ cs) h = elim (Bool-cases (is_space c)) [
  | inl e ↦ rw e (elim (Bool-cases (is_empty word)) [
    | inl e' ↦ rw e' (words_behind-IsWord [] cs tt)
    | inr e' ↦ rw e' ((e', h), words_behind-IsWord [] cs tt)
  ])
  | inr e ↦ rw e (words_behind-IsWord (word ++ c ∷ []) cs (All-append _ word (c ∷ []) h (e, tt)))
]

-- A word at the front of a text is read to its end.
words_behind-word :
    (before word rest : Bytes)
    → All (λ c. is_space c ≡ false) word
    → words_behind before (word ++ rest) ≡ words_behind (before ++ word) rest
unfolding words_behind
words_behind-word before [] rest h = ap (λ w. words_behind w rest) (sym (append-nil before))
words_behind-word before (c ∷ cs) rest h = rw h.0 (
    words_behind-word (before ++ c ∷ []) cs rest h.1
    ∙ ap (λ w. words_behind w rest) (append_assoc before (c ∷ []) cs))

-- A word with a blank or nothing behind it.
words_behind-blank :
    (word rest : Bytes)
    → IsWord word
    → words_behind [] (word ++ b' ' ∷ rest) ≡ word ∷ words_behind [] rest
words_behind-blank word rest h =
    words_behind-word [] word (b' ' ∷ rest) h.1 ∙ unfold words_behind in rw h.0

words_behind-last : (word : Bytes) → IsWord word → words_behind [] (word ++ []) ≡ word ∷ []
words_behind-last word h = words_behind-word [] word [] h.1 ∙ unfold words_behind in rw h.0

-- What stands behind the key: nothing, or a space and a comment.
key-words :
    (key tail : Bytes)
    → IsWord key
    → (others : List Bytes) × (words_behind [] (key ++ (if is_empty tail then [] else b' ' ∷ tail))
        ≡ key ∷ others)
key-words key [] h = ([], words_behind-last key h)
key-words key (c ∷ tail) h = (_, words_behind-blank key (c ∷ tail) h)

same_key :
    (type key tail : Bytes) (rest : List Bytes)
    → IsWord type
    → IsWord key
    → same_words
        (type ∷ key ∷ rest)
        (words_behind [] (type ++ b' ' ∷ (key ++ (if is_empty tail then [] else b' ' ∷ tail))))
      ≡ true
unfolding same_words
same_key type key tail rest ht hk = rw (
  words_behind-blank type (key ++ (if is_empty tail then [] else b' ' ∷ tail)) ht,
  (key-words key tail hk).1,
  equal_refl type,
  equal_refl key,
)

-- The line of a comment that was taken, if it was.
abbrev Keeps : List Bytes → Commented → Type 0
Keeps words (line_is out) = same_words words (split_words out) ≡ true
Keeps words (comment_refused problem) = Unit

comment_behind-Keeps :
    (type key trimmed : Bytes) (rest : List Bytes)
    → IsWord type
    → IsWord key
    → Keeps (type ∷ key ∷ rest) (comment_behind type key trimmed)
unfolding comment_behind split_words
comment_behind-Keeps type key trimmed rest ht hk =
    elim (Bool-cases (any is_control_character trimmed)) [
      | inl e ↦ rw e tt
      | inr e ↦ rw e (elim (Bool-cases (ltb 64 (length trimmed))) [
        | inl e' ↦ rw e' tt
        | inr e' ↦ rw e' (same_key type key trimmed rest ht hk)
      ])
    ]

with_comment-Keeps :
    (words : List Bytes) (comment : Bytes)
    → All IsWord words
    → Keeps words (with_comment words comment)
unfolding with_comment
with_comment-Keeps [] comment h = tt
with_comment-Keeps (type ∷ []) comment h = tt
with_comment-Keeps (type ∷ key ∷ rest) comment h =
    comment_behind-Keeps type key (trimmed_comment comment) rest h.0 h.1.0

abbrev line_of : Commented → Bytes
line_of (line_is out) = out
line_of (comment_refused problem) = []

-- If a comment is put behind the key of a line, the new line holds the same key as the old.
pub with_public_key_comment_same :
    (line comment out : Bytes)
    → with_public_key_comment line comment ≡ line_is out
    → same_public_key line out ≡ true
unfolding with_public_key_comment same_public_key
with_public_key_comment_same line comment out e =
    taken (with_comment (split_words line) comment) e (
      with_comment-Keeps (split_words line) comment
        (unfold split_words in words_behind-IsWord [] line tt))
  where
    taken :
        (c : Commented)
        → c ≡ line_is out
        → Keeps (split_words line) c
        → same_words (split_words line) (split_words out) ≡ true
    taken (line_is o) e k = rw (sym (ap line_of e)) k
    taken (comment_refused p) e k = cc
