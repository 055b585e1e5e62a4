-- ===== src/Tests/Commands.antt =====
-- Command lines, read.
use quick_logger.Prelude.{
  ◌≡◌, refl, [], ◌∷◌, some, Bytes, codes, equal, All, List, false, true, split_on,
}
use quick_logger.Prelude.Find.{starts_with}
use quick_logger.Prelude.Decimal.{to_string}
use quick_logger.Command.{
  words_are, split_command_line, split_from, step_outside, step_inside, is_control,
  is_plain_word_character, end_word, finish,
}
use quick_logger.Command.Quoted.{quoted, IsWord}
use quick_logger.Command.Answer.{
  RemoteResultFields, make_result, simple, append_text, append_line, append_net, append_counts,
  remote_command_parse_error,
}
use quick_logger.Command.Answer.Lines.{split_on-make_result}
use quick_logger.Command.Parse.{
  version, command_is, refused, with_file, parse_alone, parse_words, parse_split,
  parse_remote_command, parse_import, parse_confirmed, parse_file, unknown_option,
}
use quick_logger.Command.Parse.Requests.{
  Request, send_net, request_words, command_of, parse_remote_command-quoted,
}
use quick_logger.Command.Parse.Documented.{IsAsked, parse_remote_command-IsAsked}

abbrev upload : Request
upload = send_net (some (codes "N")) (codes "a.qlnet")

upload-IsWord : All IsWord (request_words upload)
unfolding is_control
upload-IsWord = (
  (refl, (refl, (refl, (refl, (refl, (refl, (refl, (refl, (refl, (refl, tt)))))))))),
  (
    (
      refl,
      (
        refl,
        (refl, (refl, (refl, (refl, (refl, (refl, (refl, (refl, (refl, (refl, (refl, tt))))))))))),
      ),
    ),
    ((refl, tt), ((refl, (refl, (refl, (refl, (refl, (refl, (refl, tt))))))), tt)),
  ),
)

upload_plain : starts_with (codes "--") (codes "a.qlnet") ≡ false
unfolding starts_with
upload_plain = refl

parse_remote_command-quoted_example :
    parse_remote_command (quoted (request_words upload)) ≡ command_is (command_of upload)
parse_remote_command-quoted_example = parse_remote_command-quoted upload upload-IsWord upload_plain

reads_version : parse_remote_command (codes " version") ≡ command_is (with_file version [])
unfolding parse_remote_command parse_split parse_words parse_alone split_command_line split_from
    step_outside step_inside is_control is_plain_word_character end_word finish equal
reads_version = refl

parse_remote_command-IsAsked_example :
    (words : List Bytes) × (split_command_line (codes " version") ≡ words_are words)
    × IsAsked words (with_file version [])
parse_remote_command-IsAsked_example =
    parse_remote_command-IsAsked (codes " version") (with_file version []) reads_version

option_twice :
    parse_remote_command (codes "import-net --confirm-net N --no")
    ≡ refused (unknown_option (codes "--no"))
unfolding parse_remote_command parse_split parse_words parse_import parse_confirmed parse_file
    split_command_line split_from step_outside step_inside is_control is_plain_word_character
    end_word finish equal starts_with
option_twice = refl

abbrev merged : RemoteResultFields
merged = record {
  status = codes "imported";
  net = codes "A\nB";
  has_net = true;
  net_id = 7;
  session = [];
  has_counts = true;
  new_sessions = 12;
  new_saved_stations = 0;
  differing_sessions = 1;
  message = codes "status: error";
}

split_on-make_result_example :
    split_on b'\n' (make_result merged 0).output
    ≡ codes "QUICKLOGGER-RESULT 1"
      ∷ codes "status: imported"
      ∷ codes "net: A B"
      ∷ codes "net-id: 7"
      ∷ codes "new-sessions: 12"
      ∷ codes "new-saved-stations: 0"
      ∷ codes "differing-sessions: 1"
      ∷ codes "message: status: error"
      ∷ []
      ∷ []
unfolding to_string
split_on-make_result_example = split_on-make_result merged 0

refusal :
    (remote_command_parse_error (codes "No command given.")).output
    ≡ codes "QUICKLOGGER-RESULT 1\nstatus: error\nmessage: No command given.\n"
unfolding remote_command_parse_error simple make_result append_text append_line append_net
    append_counts
refusal = refl
