-- ===== src/Command/Answer/Lines.antt =====
-- The lines of an answer.
use mathlib.Core.Path.{subst}
use quick_logger.Prelude.{
  ℕ, ◌≡◌, ◌∙◌, refl, sym, ap, inl, inr, Bool, true, false, ◌||◌, List, [], ◌∷◌, ◌++◌, map,
  append_assoc, append-nil, arith, ◌==◌, ltb, Bool-cases, Bytes, codes, All, All-append, split_on,
  split_on-append,
}
use quick_logger.Prelude.Find.{any}
use quick_logger.Prelude.Decimal.{to_string}
use quick_logger.Command.Answer.{
  RemoteResultFields, on_one_line, answer_line, append_line, append_net, append_text, append_counts,
  make_result,
}

-- A text without a newline.
abbrev IsLine : Bytes → Type 0
IsLine = All (λ c. (c == b'\n') ≡ false)

-- A text is made of these lines, each with its newline.
abbrev HasLines : Bytes → List Bytes → Type 0
HasLines output lines = (t : Bytes) → split_on b'\n' (output ++ t) ≡ lines ++ split_on b'\n' t

on_one_line-IsLine : (value : Bytes) → IsLine (map on_one_line value)
on_one_line-IsLine [] = tt
on_one_line-IsLine (c ∷ value) = (
  elim (Bool-cases (ltb c 0x20 || c == 0x7F)) [
    | inl control ↦ rw control refl
    | inr fine ↦ rw fine (ground arith)
  ],
  on_one_line-IsLine value,
)

any-IsLine : (key : Bytes) → any (λ c. c == b'\n') key ≡ false → IsLine key
unfolding any
any-IsLine [] h = tt
any-IsLine (c ∷ key) h = elim (Bool-cases (c == b'\n')) [
  | inl newline ↦ let k = rw newline at h in cc
  | inr other ↦ (other, any-IsLine key (rw other at h))
]

append_line-HasLines :
    (output key value : Bytes) (lines : List Bytes)
    → any (λ c. c == b'\n') key ≡ false
    → HasLines output lines
    → HasLines (append_line output key value) (lines ++ answer_line key value ∷ [])
unfolding append_line
append_line-HasLines output key value lines k h t =
    let line : Bytes = answer_line key value in
    let free : IsLine line =
      All-append _ (key ++ codes ": ") (map on_one_line value)
        (All-append _ key (codes ": ") (any-IsLine key k) (refl, (refl, tt)))
        (on_one_line-IsLine value) in
    ap (split_on b'\n')
      (append_assoc (output ++ line) (b'\n' ∷ []) t ∙ append_assoc output line (b'\n' ∷ t))
    ∙ h (line ++ b'\n' ∷ t)
    ∙ ap (λ ls. lines ++ ls) (split_on-append b'\n' line t free)
    ∙ sym (append_assoc lines (line ∷ []) (split_on b'\n' t))

-- The lines that a condition adds.
abbrev lines_if : Bool → List Bytes → List Bytes
lines_if true lines = lines
lines_if false lines = []

abbrev lines_of : Bytes → Bytes → List Bytes
lines_of key [] = []
lines_of key (c ∷ text) = answer_line key (c ∷ text) ∷ []

abbrev net_lines : RemoteResultFields → List Bytes
net_lines fields = lines_if fields.has_net (
    answer_line (codes "net") fields.net
    ∷ answer_line (codes "net-id") (to_string fields.net_id)
    ∷ [])

abbrev count_lines : RemoteResultFields → List Bytes
count_lines fields = lines_if fields.has_counts (
    answer_line (codes "new-sessions") (to_string fields.new_sessions)
    ∷ answer_line (codes "new-saved-stations") (to_string fields.new_saved_stations)
    ∷ answer_line (codes "differing-sessions") (to_string fields.differing_sessions)
    ∷ [])

-- The lines of an answer, in the documented order.
abbrev pub answer_lines : RemoteResultFields → List Bytes
answer_lines fields =
    codes "QUICKLOGGER-RESULT 1" ∷ answer_line (codes "status") fields.status ∷ []
    ++ net_lines fields
    ++ lines_of (codes "session") fields.session
    ++ count_lines fields
    ++ lines_of (codes "message") fields.message

append_text-HasLines :
    (output key text : Bytes) (lines : List Bytes)
    → any (λ c. c == b'\n') key ≡ false
    → HasLines output lines
    → HasLines (append_text key text output) (lines ++ lines_of key text)
unfolding append_text
append_text-HasLines output key [] lines k h = rw (append-nil lines) h
append_text-HasLines output key (c ∷ text) lines k h =
    append_line-HasLines output key (c ∷ text) lines k h

append_net-HasLines :
    (fields : RemoteResultFields) (output : Bytes) (lines : List Bytes)
    → HasLines output lines
    → HasLines (append_net fields output) (lines ++ net_lines fields)
unfolding append_net any
append_net-HasLines fields output lines h = elim (Bool-cases fields.has_net) [
  | inl named ↦ rw named (
      let id_line : Bytes = answer_line (codes "net-id") (to_string fields.net_id) in
      let net_line : Bytes = answer_line (codes "net") fields.net in
      subst (HasLines _) (append_assoc lines (net_line ∷ []) (id_line ∷ [])) (
        append_line-HasLines (append_line output (codes "net") fields.net) (codes "net-id")
          (to_string fields.net_id) (lines ++ net_line ∷ []) refl
          (append_line-HasLines output (codes "net") fields.net lines refl h)))
  | inr none ↦ rw (none, append-nil lines) h
]

append_counts-HasLines :
    (fields : RemoteResultFields) (output : Bytes) (lines : List Bytes)
    → HasLines output lines
    → HasLines (append_counts fields output) (lines ++ count_lines fields)
unfolding append_counts any
append_counts-HasLines fields output lines h = elim (Bool-cases fields.has_counts) [
  | inl counted ↦ rw counted (
      let a : Bytes = answer_line (codes "new-sessions") (to_string fields.new_sessions) in
      let b : Bytes =
        answer_line (codes "new-saved-stations") (to_string fields.new_saved_stations) in
      let c : Bytes =
        answer_line (codes "differing-sessions") (to_string fields.differing_sessions) in
      let one : Bytes = append_line output (codes "new-sessions") (to_string fields.new_sessions) in
      let two : Bytes =
        append_line one (codes "new-saved-stations") (to_string fields.new_saved_stations) in
      subst (HasLines _)
        (append_assoc (lines ++ a ∷ []) (b ∷ []) (c ∷ [])
          ∙ append_assoc lines (a ∷ []) (b ∷ c ∷ []))
        (append_line-HasLines two (codes "differing-sessions") (to_string fields.differing_sessions)
          (lines ++ a ∷ [] ++ b ∷ []) refl
          (append_line-HasLines one (codes "new-saved-stations")
            (to_string fields.new_saved_stations) (lines ++ a ∷ []) refl
            (append_line-HasLines output (codes "new-sessions") (to_string fields.new_sessions)
              lines refl h))))
  | inr none ↦ rw (none, append-nil lines) h
]

status-HasLines :
    (fields : RemoteResultFields)
    → HasLines
        (append_line (codes "QUICKLOGGER-RESULT 1" ++ b'\n' ∷ []) (codes "status") fields.status)
        (codes "QUICKLOGGER-RESULT 1" ∷ answer_line (codes "status") fields.status ∷ [])
unfolding any
status-HasLines fields =
    append_line-HasLines (codes "QUICKLOGGER-RESULT 1" ++ b'\n' ∷ []) (codes "status") fields.status
      (codes "QUICKLOGGER-RESULT 1" ∷ []) refl
      (λ t.
        split_on-append b'\n' (codes "QUICKLOGGER-RESULT 1") t
          (any-IsLine (codes "QUICKLOGGER-RESULT 1") refl))

-- Taken apart at its newlines, an answer is the lines of its fields, in the documented order, and
-- nothing behind the last newline, whatever bytes the texts of the fields hold.
pub split_on-make_result :
    (fields : RemoteResultFields) (exit_status : ℕ)
    → split_on b'\n' (make_result fields exit_status).output ≡ answer_lines fields ++ [] ∷ []
unfolding make_result any
split_on-make_result fields exit_status =
    let o1 : Bytes =
      append_line (codes "QUICKLOGGER-RESULT 1" ++ b'\n' ∷ []) (codes "status") fields.status in
    let l1 : List Bytes =
      codes "QUICKLOGGER-RESULT 1" ∷ answer_line (codes "status") fields.status ∷ [] in
    let o2 : Bytes = append_net fields o1 in
    let l2 : List Bytes = l1 ++ net_lines fields in
    let o3 : Bytes = append_text (codes "session") fields.session o2 in
    let l3 : List Bytes = l2 ++ lines_of (codes "session") fields.session in
    let o4 : Bytes = append_counts fields o3 in
    let l4 : List Bytes = l3 ++ count_lines fields in
    let h4 : HasLines o4 l4 = append_counts-HasLines fields o3 l3 (
      append_text-HasLines o2 (codes "session") fields.session l2 refl
        (append_net-HasLines fields o1 l1 (status-HasLines fields))) in
    ap (split_on b'\n') (sym (append-nil (append_text (codes "message") fields.message o4)))
    ∙ append_text-HasLines o4 (codes "message") fields.message l4 refl h4 []
    ∙ unfold split_on in refl
