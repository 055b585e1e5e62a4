-- ===== src/Command/Answer.antt =====
-- src/remote_command.cpp, `AppendLine`, `MakeResult`, `Simple` and `RemoteCommandParseError`: the text
-- that a command answers with. The numbers are not negative.
pub mod Lines
use quick_logger.Prelude.{
  ℕ, Bool, true, false, ◌||◌, List, [], ◌∷◌, ◌++◌, map, ◌==◌, if◌then◌else◌, ltb, Bytes, codes,
  is_empty,
}
use quick_logger.Prelude.Decimal.{to_string}

pub record RemoteCommandResult : Type 0 where
  pub output : Bytes
  pub exit_status : ℕ

pub record RemoteResultFields : Type 0 where
  pub status : Bytes
  pub net : Bytes
  pub has_net : Bool
  pub net_id : ℕ
  pub session : Bytes
  pub has_counts : Bool
  pub new_sessions : ℕ
  pub new_saved_stations : ℕ
  pub differing_sessions : ℕ
  pub message : Bytes

-- A control character becomes a blank.
abbrev pub on_one_line : ℕ → ℕ
on_one_line c = if ltb c 0x20 || c == 0x7F then b' ' else c

abbrev pub answer_line : Bytes → Bytes → Bytes
answer_line key value = key ++ codes ": " ++ map on_one_line value

unfoldable pub append_line : Bytes → Bytes → Bytes → Bytes
append_line output key value = output ++ answer_line key value ++ b'\n' ∷ []

unfoldable pub append_net : RemoteResultFields → Bytes → Bytes
append_net fields output =
    if fields.has_net
    then append_line (append_line output (codes "net") fields.net) (codes "net-id")
        (to_string fields.net_id)
    else output

-- A line of a text, if there is any.
unfoldable pub append_text : Bytes → Bytes → Bytes → Bytes
append_text key text output = if is_empty text then output else append_line output key text

unfoldable pub append_counts : RemoteResultFields → Bytes → Bytes
append_counts fields output =
    if fields.has_counts
    then append_line
        (append_line (append_line output (codes "new-sessions") (to_string fields.new_sessions))
          (codes "new-saved-stations") (to_string fields.new_saved_stations))
        (codes "differing-sessions") (to_string fields.differing_sessions)
    else output

unfoldable pub make_result : RemoteResultFields → ℕ → RemoteCommandResult
make_result fields exit_status = record {
  exit_status = exit_status;
  output = append_text (codes "message") fields.message (
      append_counts fields (
        append_text (codes "session") fields.session (
          append_net fields (
            append_line (codes "QUICKLOGGER-RESULT 1" ++ b'\n' ∷ []) (codes "status")
              fields.status))));
}

unfoldable pub simple : Bytes → Bytes → ℕ → RemoteCommandResult
simple status message exit_status =
    make_result
      (record {
        status = status;
        net = [];
        has_net = false;
        net_id = 0;
        session = [];
        has_counts = false;
        new_sessions = 0;
        new_saved_stations = 0;
        differing_sessions = 0;
        message = message;
      })
      exit_status

unfoldable pub remote_command_parse_error : Bytes → RemoteCommandResult
remote_command_parse_error error = simple (codes "error") error 1
