-- ===== src/Command/Parse.antt =====
-- src/remote_command.cpp, `ParseRemoteCommand`: the command that a command line asks for.
pub mod Documented
pub mod Requests
use quick_logger.Prelude.{
  Bool, true, false, not, ◌||◌, List, [], ◌∷◌, if◌then◌else◌, Bytes, codes, equal, is_empty,
}
use quick_logger.Prelude.Find.{starts_with}
use quick_logger.Command.{SplitError, SplitResult, words_are, failed, split_command_line}

pub data RemoteCommandKind : Type 0 where
  version import_session import_net discard_upload list_nets export_net export_sessions :
      RemoteCommandKind

-- `file` holds the net's name for `export_net` and `export_sessions`.
pub record RemoteCommand : Type 0 where
  pub kind : RemoteCommandKind
  pub file : Bytes
  pub has_confirm_net : Bool
  pub confirm_net : Bytes

-- The errors, with the words that their texts name.
pub data ParseProblem : Type 0 where
  not_split : SplitError → ParseProblem
  no_command net_name_needed : ParseProblem
  takes_no_arguments usage unknown_command unknown_option takes_one_file : Bytes → ParseProblem

pub data Parsed : Type 0 where
  command_is : RemoteCommand → Parsed
  refused : ParseProblem → Parsed

-- A command with no more than a file.
abbrev pub with_file : RemoteCommandKind → Bytes → RemoteCommand
with_file kind file = record { kind = kind; file = file; has_confirm_net = false; confirm_net = [] }

-- The words behind `version` and `list-nets`.
unfoldable pub parse_alone : Bytes → RemoteCommandKind → List Bytes → Parsed
parse_alone name kind [] = command_is (with_file kind [])
parse_alone name kind (_ ∷ _) = refused (takes_no_arguments name)

-- The words behind `discard-upload`.
unfoldable pub parse_discard : Bytes → List Bytes → Parsed
parse_discard name (file ∷ []) = command_is (with_file discard_upload file)
parse_discard name _ = refused (usage name)

-- The words behind `export-net` and `export-sessions`.
unfoldable pub parse_export : Bytes → RemoteCommandKind → List Bytes → Parsed
parse_export name kind (net ∷ []) =
    if is_empty net then refused (usage name) else command_is (with_file kind net)
parse_export name kind _ = refused (usage name)

-- The words of an import from `next` on, behind the net's name if there is one.
unfoldable pub parse_file : Bytes → RemoteCommandKind → Bool → Bytes → List Bytes → Parsed
parse_file name kind has_confirm_net confirm_net [] = refused (usage name)
parse_file name kind has_confirm_net confirm_net (word ∷ more) =
    if starts_with (codes "--") word
    then refused (unknown_option word)
    else if not (is_empty more)
    then refused (takes_one_file name)
    else command_is (record {
      kind = kind;
      file = word;
      has_confirm_net = has_confirm_net;
      confirm_net = confirm_net;
    })

-- The words behind `--confirm-net`.
unfoldable pub parse_confirmed : Bytes → RemoteCommandKind → List Bytes → Parsed
parse_confirmed name kind [] = refused net_name_needed
parse_confirmed name kind (net ∷ more) = parse_file name kind true net more

-- The words behind `import-session` and `import-net`.
unfoldable pub parse_import : Bytes → RemoteCommandKind → List Bytes → Parsed
parse_import name kind [] = parse_file name kind false [] []
parse_import name kind (word ∷ more) =
    if equal word (codes "--confirm-net")
    then parse_confirmed name kind more
    else parse_file name kind false [] (word ∷ more)

unfoldable pub parse_words : List Bytes → Parsed
parse_words [] = refused no_command
parse_words (name ∷ rest) =
    if equal name (codes "version")
    then parse_alone name version rest
    else if equal name (codes "discard-upload")
    then parse_discard name rest
    else if equal name (codes "list-nets")
    then parse_alone name list_nets rest
    else if equal name (codes "export-net")
    then parse_export name export_net rest
    else if equal name (codes "export-sessions")
    then parse_export name export_sessions rest
    else if equal name (codes "import-session")
    then parse_import name import_session rest
    else if equal name (codes "import-net")
    then parse_import name import_net rest
    else refused (unknown_command name)

unfoldable pub parse_split : SplitResult → Parsed
parse_split (words_are words) = parse_words words
parse_split (failed e) = refused (not_split e)

unfoldable pub parse_remote_command : Bytes → Parsed
parse_remote_command line = parse_split (split_command_line line)
