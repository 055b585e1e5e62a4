-- ===== src/Command/Parse/Requests.antt =====
-- The requests that another program sends, and `ParseRemoteCommand`.
use quick_logger.Prelude.{
  ◌≡◌, ◌∙◌, refl, ap, true, false, List, [], ◌∷◌, Option, none, some, arith, Bytes, codes, equal,
  is_empty, All,
}
use quick_logger.Prelude.Find.{starts_with}
use quick_logger.Command.Quoted.{quoted, IsWord, split_command_line-quoted}
use quick_logger.Command.Parse.{
  RemoteCommandKind, version, import_session, import_net, discard_upload, list_nets, export_net,
  export_sessions, RemoteCommand, command_is, with_file, parse_alone, parse_discard, parse_export,
  parse_file, parse_confirmed, parse_import, parse_words, parse_split, parse_remote_command,
}

-- The documented requests; an import may name the net to import into.
pub data Request : Type 0 where
  ask_version ask_nets : Request
  discard ask_net ask_sessions : Bytes → Request
  send_session send_net : Option Bytes → Bytes → Request

abbrev pub confirm_words : Option Bytes → Bytes → List Bytes
confirm_words none file = file ∷ []
confirm_words (some net) file = codes "--confirm-net" ∷ net ∷ file ∷ []

-- The words of a request.
abbrev pub request_words : Request → List Bytes
request_words ask_version = codes "version" ∷ []
request_words ask_nets = codes "list-nets" ∷ []
request_words (discard file) = codes "discard-upload" ∷ file ∷ []
request_words (ask_net net) = codes "export-net" ∷ net ∷ []
request_words (ask_sessions net) = codes "export-sessions" ∷ net ∷ []
request_words (send_session net file) = codes "import-session" ∷ confirm_words net file
request_words (send_net net file) = codes "import-net" ∷ confirm_words net file

abbrev pub import_of : RemoteCommandKind → Option Bytes → Bytes → RemoteCommand
import_of kind none file = with_file kind file
import_of kind (some net) file = record {
  kind = kind;
  file = file;
  has_confirm_net = true;
  confirm_net = net;
}

-- The command that a request stands for.
abbrev pub command_of : Request → RemoteCommand
command_of ask_version = with_file version []
command_of ask_nets = with_file list_nets []
command_of (discard file) = with_file discard_upload file
command_of (ask_net net) = with_file export_net net
command_of (ask_sessions net) = with_file export_sessions net
command_of (send_session net file) = import_of import_session net file
command_of (send_net net file) = import_of import_net net file

-- No net's name is blank and no file is called like an option.
abbrev pub IsRequest : Request → Type 0
IsRequest ask_version = Unit
IsRequest ask_nets = Unit
IsRequest (discard file) = Unit
IsRequest (ask_net net) = is_empty net ≡ false
IsRequest (ask_sessions net) = is_empty net ≡ false
IsRequest (send_session net file) = starts_with (codes "--") file ≡ false
IsRequest (send_net net file) = starts_with (codes "--") file ≡ false

equal-option :
    (file : Bytes)
    → starts_with (codes "--") file ≡ false
    → equal file (codes "--confirm-net") ≡ false
unfolding starts_with equal
equal-option [] h = refl
equal-option (c ∷ []) h = ground arith
equal-option (c ∷ d ∷ file) h = ground arith

parse_import-confirm_words :
    (name : Bytes) (kind : RemoteCommandKind) (net : Option Bytes) (file : Bytes)
    → starts_with (codes "--") file ≡ false
    → parse_import name kind (confirm_words net file) ≡ command_is (import_of kind net file)
unfolding parse_import parse_file parse_confirmed
parse_import-confirm_words name kind none file h = rw (equal-option file h, h)
parse_import-confirm_words name kind (some net) file h = unfold equal in rw h

parse_words-request_words :
    (r : Request) → IsRequest r → parse_words (request_words r) ≡ command_is (command_of r)
unfolding parse_words parse_alone parse_discard parse_export equal
parse_words-request_words ask_version h = refl
parse_words-request_words ask_nets h = refl
parse_words-request_words (discard file) h = refl
parse_words-request_words (ask_net net) h = rw h
parse_words-request_words (ask_sessions net) h = rw h
parse_words-request_words (send_session net file) h =
    parse_import-confirm_words (codes "import-session") import_session net file h
parse_words-request_words (send_net net file) h =
    parse_import-confirm_words (codes "import-net") import_net net file h

-- The command line of a documented request, its words in quotes, is read as the command that the
-- request stands for, where no word has a control character, no name of a net to export is blank
-- and no file to import is called like an option.
pub parse_remote_command-quoted :
    (r : Request)
    → All IsWord (request_words r)
    → IsRequest r
    → parse_remote_command (quoted (request_words r)) ≡ command_is (command_of r)
unfolding parse_remote_command parse_split
parse_remote_command-quoted r w h =
    ap parse_split (split_command_line-quoted (request_words r) w) ∙ parse_words-request_words r h
