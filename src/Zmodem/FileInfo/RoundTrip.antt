-- ===== src/Zmodem/FileInfo/RoundTrip.antt =====
-- What `Receiver::ParseFileInformation` reads of what `FileInformation` wrote.
use quick_logger.Prelude.{
  ℕ, suc, ◌^◌, ◌<◌, false, [], ◌∷◌, ◌++◌, append-nil, append_assoc, some, ◌≡◌, refl, sym, ◌∙◌, ◌==◌,
  arith, Bytes, codes, length, is_empty, All, All-append,
}
use quick_logger.Prelude.Decimal.{to_string, value_from-to_string, to_string-ne-nil}
use quick_logger.Zmodem.Session.{File}
use quick_logger.Zmodem.FileInfo.{
  to_octal, time_sent, information_numbers, file_information, split_nul, is_separator, base_from,
  base_name, is_refused_name, skip_blanks, scan_unsigned, scan_time, scan_numbers, parse_parts,
  parse_file_information,
}
use quick_logger.Zmodem.FileInfo.Names.{IsFileName}
use quick_logger.Zmodem.FileInfo.Numbers.{
  IsDigits, value_in, value_in-ten, value_in-octal_digits, octal_digits-IsDigits,
  octal_digits-ne-nil, to_string-IsDigits, scan_unsigned-digits,
}

base_from-plain :
    (tail name : Bytes)
    → All (λ c. is_separator c ≡ false) name
    → base_from tail name ≡ tail ++ name
unfolding base_from
base_from-plain tail [] h = sym (append-nil tail)
base_from-plain tail (c ∷ cs) h =
    rw h.0 (base_from-plain (tail ++ c ∷ []) cs h.1 ∙ append_assoc tail (c ∷ []) cs)

-- No byte of the text is NUL.
abbrev pub IsText : Bytes → Type 0
IsText text = All (λ c. (c == 0) ≡ false) text

split_nul-append :
    (text rest : Bytes) → IsText text → split_nul (text ++ 0 ∷ rest) ≡ (text, some rest)
unfolding split_nul
split_nul-append [] rest h = refl
split_nul-append (c ∷ cs) rest h = rw (h.0, split_nul-append cs rest h.1)

digits-IsText : (base : ℕ) (ds : Bytes) → IsDigits base ds → IsText ds
digits-IsText base [] h = tt
digits-IsText base (d ∷ ds) h = (ground (arith, h.0), digits-IsText base ds h.1)

to_octal-IsDigits : (n : ℕ) → IsDigits 8 (to_octal n)
unfolding to_octal
to_octal-IsDigits n = octal_digits-IsDigits (suc n) n

value_in-to_octal : (n : ℕ) → value_in 8 0 (to_octal n) ≡ n
unfolding to_octal
value_in-to_octal n = value_in-octal_digits (suc n) n (omega arith)

to_octal-ne-nil : (n : ℕ) → is_empty (to_octal n) ≡ false
unfolding to_octal
to_octal-ne-nil n = octal_digits-ne-nil n n

-- What stands behind the time: the mode, a zero and what is left of the batch.
abbrev rest_of_numbers : ℕ → ℕ → Bytes
rest_of_numbers files_left bytes_left =
    codes "100644 0 " ++ (to_string files_left ++ b' ' ∷ to_string bytes_left)

-- A size and a time as they are written.
abbrev numbers_of : ℕ → ℕ → Bytes → Bytes
numbers_of size time rest = to_string size ++ b' ' ∷ (to_octal time ++ b' ' ∷ rest)

numbers_of-IsText :
    (size time : ℕ) (rest : Bytes) → IsText rest → IsText (numbers_of size time rest)
numbers_of-IsText size time rest h =
    All-append _ (to_string size) _ (digits-IsText 10 _ (to_string-IsDigits size))
      (refl, All-append _ (to_octal time) _ (digits-IsText 8 _ (to_octal-IsDigits time)) (refl, h))

scan_time-blank :
    (time : ℕ) (rest : Bytes)
    → time < 2 ^ 64
    → scan_time (scan_unsigned 8 (b' ' ∷ (to_octal time ++ b' ' ∷ rest))) ≡ time
unfolding scan_time
scan_time-blank time rest h = rw (behind_blank (to_octal time ++ b' ' ∷ rest)) (
    rw
      (scan_unsigned-digits 8 b' ' rest refl (to_octal time) (to_octal-ne-nil time) (omega arith)
        (to_octal-IsDigits time) (rw (value_in-to_octal time) h))
      (value_in-to_octal time))
  where
    behind_blank : (text : Bytes) → scan_unsigned 8 (b' ' ∷ text) ≡ scan_unsigned 8 text
    behind_blank text = unfold scan_unsigned skip_blanks in refl

scan_numbers-numbers_of :
    (size time : ℕ) (rest : Bytes)
    → size < 2 ^ 64
    → time < 2 ^ 64
    → scan_numbers (scan_unsigned 10 (numbers_of size time rest)) ≡ (size, time)
unfolding scan_numbers
scan_numbers-numbers_of size time rest hs ht =
    rw
      (scan_unsigned-digits 10 b' ' (to_octal time ++ b' ' ∷ rest) refl (to_string size)
        (to_string-ne-nil size) (omega arith) (to_string-IsDigits size)
        (rw (value_in-ten 0 (to_string size), value_from-to_string size) hs))
      (rw
        (value_in-ten 0 (to_string size), value_from-to_string size, scan_time-blank time rest ht))

information_numbers_form :
    (file : File) (files_left bytes_left : ℕ)
    → information_numbers file files_left bytes_left
      ≡ numbers_of
          (length file.contents)
          (time_sent file.mtime)
          (rest_of_numbers files_left bytes_left)
unfolding information_numbers
information_numbers_form file files_left bytes_left = refl

rest_of_numbers-IsText :
    (files_left bytes_left : ℕ) → IsText (rest_of_numbers files_left bytes_left)
rest_of_numbers-IsText files_left bytes_left =
    All-append _ (codes "100644 0 ") _
      (refl, (refl, (refl, (refl, (refl, (refl, (refl, (refl, (refl, tt)))))))))
      (All-append _ (to_string files_left) _ (digits-IsText 10 _ (to_string-IsDigits files_left))
        (refl, digits-IsText 10 _ (to_string-IsDigits bytes_left)))

parse_parts-named :
    (name behind : Bytes) {size time : ℕ}
    → IsFileName name
    → scan_numbers (scan_unsigned 10 (split_nul behind).0) ≡ (size, time)
    → parse_parts (name, some behind)
      ≡ some (record { name = name; contents = []; mtime = time }, size)
unfolding parse_parts base_name is_refused_name
parse_parts-named name behind n e = rw (base_from-plain [] name n.1, e) (ground arith)

-- The file information that a sender writes for a file below 2 ^ 64 bytes, with a name the
-- receiver may keep that has no NUL, is read back by the receiver as that name, that size and the
-- time that is sent.
pub parse_file_information-file_information :
    (file : File) (files_left bytes_left : ℕ)
    → IsFileName file.name
    → IsText file.name
    → length file.contents < 2 ^ 64
    → parse_file_information (file_information file files_left bytes_left)
      ≡ some (
        record { name = file.name; contents = []; mtime = time_sent file.mtime },
        length file.contents,
      )
unfolding parse_file_information file_information
parse_file_information-file_information file files_left bytes_left n t h =
    rw
      (
        information_numbers_form file files_left bytes_left,
        split_nul-append file.name (numbers ++ 0 ∷ []) t,
      )
      (parse_parts-named file.name (numbers ++ 0 ∷ []) n (
        rw
          (split_nul-append numbers [] (
            numbers_of-IsText (length file.contents) (time_sent file.mtime) _
              (rest_of_numbers-IsText files_left bytes_left)))
          (scan_numbers-numbers_of (length file.contents) (time_sent file.mtime) _ h
            (time_small file.mtime))))
  where
    numbers : Bytes
    numbers =
        numbers_of (length file.contents) (time_sent file.mtime)
          (rest_of_numbers files_left bytes_left)

    time_small : (mtime : ℕ) → time_sent mtime < 2 ^ 64
    time_small mtime = ground arith
