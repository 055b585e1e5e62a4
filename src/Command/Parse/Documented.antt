-- ===== src/Command/Parse/Documented.antt =====
-- `ParseRemoteCommand` accepts no other words than those of a documented request.
use quick_logger.Prelude.{
  ◌≡◌, ◌∙◌, refl, ap, Bool, true, false, List, [], ◌∷◌, Option, none, some, Bytes, codes, equal,
  equal_iff, is_empty, Bool-cases, inl, inr,
}
use quick_logger.Prelude.Find.{starts_with}
use quick_logger.Command.{SplitResult, words_are, failed, split_command_line}
use quick_logger.Command.Parse.{
  RemoteCommandKind, version, import_session, import_net, discard_upload, list_nets, export_net,
  export_sessions, RemoteCommand, command_is, with_file, parse_alone, parse_discard, parse_export,
  parse_file, parse_confirmed, parse_import, parse_words, parse_split, parse_remote_command,
}
use quick_logger.Command.Parse.Requests.{
  Request, ask_version, ask_nets, discard, ask_net, ask_sessions, send_session, send_net,
  request_words, command_of, IsRequest, confirm_words, import_of,
}

-- The command asked for is the one of a documented request, of which the words are given.
abbrev pub IsAsked : List Bytes → RemoteCommand → Type 0
IsAsked words c = (r : Request) × IsRequest r × (words ≡ request_words r) × (command_of r ≡ c)

command_is_inj : {c d : RemoteCommand} → command_is c ≡ command_is d → c ≡ d
command_is_inj h = cc

parse_file-IsAsked :
    (name : Bytes) (kind : RemoteCommandKind) (has : Bool) (net : Bytes) (rest : List Bytes)
    (c : RemoteCommand)
    → parse_file name kind has net rest ≡ command_is c
    → (file : Bytes) × (starts_with (codes "--") file ≡ false)
      × (rest ≡ file ∷ [])
      × (record { kind = kind; file = file; has_confirm_net = has; confirm_net = net } ≡ c)
unfolding parse_file
parse_file-IsAsked name kind has net [] c h = cc
parse_file-IsAsked name kind has net (file ∷ []) c h =
    elim (Bool-cases (starts_with (codes "--") file)) [
      | inl option ↦ let k = rw option at h in cc
      | inr plain ↦ (file, plain, refl, command_is_inj (rw plain at h))
    ]
parse_file-IsAsked name kind has net (file ∷ more ∷ rest) c h =
    elim (Bool-cases (starts_with (codes "--") file)) [
      | inl option ↦ let k = rw option at h in cc
      | inr plain ↦ let k = rw plain at h in cc
    ]

parse_import-IsAsked :
    (name : Bytes) (kind : RemoteCommandKind) (rest : List Bytes) (c : RemoteCommand)
    → parse_import name kind rest ≡ command_is c
    → (net : Option Bytes) × (file : Bytes) × (starts_with (codes "--") file ≡ false)
      × (rest ≡ confirm_words net file)
      × (import_of kind net file ≡ c)
unfolding parse_import parse_confirmed
parse_import-IsAsked name kind [] c h =
    let asked = parse_file-IsAsked name kind false [] [] c h in
    (none, asked.0, asked.1, asked.2, asked.3)
parse_import-IsAsked name kind (word ∷ []) c h =
    elim (Bool-cases (equal word (codes "--confirm-net"))) [
      | inl option ↦ let k = rw option at h in cc
      | inr plain ↦
          let asked = parse_file-IsAsked name kind false [] (word ∷ []) c (rw plain at h) in
          (none, asked.0, asked.1, asked.2, asked.3)
    ]
parse_import-IsAsked name kind (word ∷ net ∷ more) c h =
    elim (Bool-cases (equal word (codes "--confirm-net"))) [
      | inl option ↦
          let asked = parse_file-IsAsked name kind true net more c (rw option at h) in
          (
            some net,
            asked.0,
            asked.1,
            ap (λ w. w ∷ net ∷ more) ((equal_iff word (codes "--confirm-net")).0 option)
                ∙ ap (λ ws. codes "--confirm-net" ∷ net ∷ ws) asked.2,
            asked.3,
          )
      | inr plain ↦
          let asked = parse_file-IsAsked name kind false [] (word ∷ net ∷ more) c (rw plain at h) in
          (none, asked.0, asked.1, asked.2, asked.3)
    ]

parse_alone-IsAsked :
    (name : Bytes) (kind : RemoteCommandKind) (rest : List Bytes) (c : RemoteCommand)
    → parse_alone name kind rest ≡ command_is c
    → (rest ≡ []) × (with_file kind [] ≡ c)
unfolding parse_alone
parse_alone-IsAsked name kind [] c h = (refl, command_is_inj h)
parse_alone-IsAsked name kind (_ ∷ _) c h = cc

parse_discard-IsAsked :
    (name : Bytes) (rest : List Bytes) (c : RemoteCommand)
    → parse_discard name rest ≡ command_is c
    → (file : Bytes) × (rest ≡ file ∷ []) × (with_file discard_upload file ≡ c)
unfolding parse_discard
parse_discard-IsAsked name [] c h = cc
parse_discard-IsAsked name (file ∷ []) c h = (file, refl, command_is_inj h)
parse_discard-IsAsked name (file ∷ _ ∷ _) c h = cc

parse_export-IsAsked :
    (name : Bytes) (kind : RemoteCommandKind) (rest : List Bytes) (c : RemoteCommand)
    → parse_export name kind rest ≡ command_is c
    → (net : Bytes) × (is_empty net ≡ false) × (rest ≡ net ∷ []) × (with_file kind net ≡ c)
unfolding parse_export
parse_export-IsAsked name kind [] c h = cc
parse_export-IsAsked name kind (net ∷ []) c h = elim (Bool-cases (is_empty net)) [
  | inl blank ↦ let k = rw blank at h in cc
  | inr named ↦ (net, named, refl, command_is_inj (rw named at h))
]
parse_export-IsAsked name kind (net ∷ _ ∷ _) c h = cc

-- The name of a command, where it is compared with, and the words behind it.
named :
    (name text : Bytes) (rest words : List Bytes)
    → equal name text ≡ true
    → rest ≡ words
    → name ∷ rest ≡ text ∷ words
named name text rest words e h =
    ap (λ n. n ∷ rest) ((equal_iff name text).0 e) ∙ ap (λ ws. text ∷ ws) h

parse_words-IsAsked :
    (words : List Bytes) (c : RemoteCommand) → parse_words words ≡ command_is c → IsAsked words c
unfolding parse_words
parse_words-IsAsked [] c h = cc
parse_words-IsAsked (name ∷ rest) c h = elim (Bool-cases (equal name (codes "version"))) [
  | inl e ↦
      let asked = parse_alone-IsAsked name version rest c (rw e at h) in
      (ask_version, tt, named name (codes "version") rest [] e asked.0, asked.1)
  | inr a1 ↦ elim (Bool-cases (equal name (codes "discard-upload"))) [
    | inl e ↦
        let asked = parse_discard-IsAsked name rest c (rw (a1, e) at h) in
        (
          discard asked.0,
          tt,
          named name (codes "discard-upload") rest (asked.0 ∷ []) e asked.1,
          asked.2,
        )
    | inr a2 ↦ elim (Bool-cases (equal name (codes "list-nets"))) [
      | inl e ↦
          let asked = parse_alone-IsAsked name list_nets rest c (rw (a1, a2, e) at h) in
          (ask_nets, tt, named name (codes "list-nets") rest [] e asked.0, asked.1)
      | inr a3 ↦ elim (Bool-cases (equal name (codes "export-net"))) [
        | inl e ↦
            let asked = parse_export-IsAsked name export_net rest c (rw (a1, a2, a3, e) at h) in
            (
              ask_net asked.0,
              asked.1,
              named name (codes "export-net") rest (asked.0 ∷ []) e asked.2,
              asked.3,
            )
        | inr a4 ↦ elim (Bool-cases (equal name (codes "export-sessions"))) [
          | inl e ↦
              let asked =
                parse_export-IsAsked name export_sessions rest c (rw (a1, a2, a3, a4, e) at h) in
              (
                ask_sessions asked.0,
                asked.1,
                named name (codes "export-sessions") rest (asked.0 ∷ []) e asked.2,
                asked.3,
              )
          | inr a5 ↦ elim (Bool-cases (equal name (codes "import-session"))) [
            | inl e ↦
                let asked =
                  parse_import-IsAsked name import_session rest c
                    (rw (a1, a2, a3, a4, a5, e) at h) in
                (
                  send_session asked.0 asked.1,
                  asked.2,
                  named name (codes "import-session") rest (confirm_words asked.0 asked.1) e
                      asked.3,
                  asked.4,
                )
            | inr a6 ↦ elim (Bool-cases (equal name (codes "import-net"))) [
              | inl e ↦
                  let asked =
                    parse_import-IsAsked name import_net rest c
                      (rw (a1, a2, a3, a4, a5, a6, e) at h) in
                  (
                    send_net asked.0 asked.1,
                    asked.2,
                    named name (codes "import-net") rest (confirm_words asked.0 asked.1) e asked.3,
                    asked.4,
                  )
              | inr a7 ↦ let k = rw (a1, a2, a3, a4, a5, a6, a7) at h in cc
            ]
          ]
        ]
      ]
    ]
  ]
]

parse_split-IsAsked :
    (split : SplitResult) (c : RemoteCommand)
    → parse_split split ≡ command_is c
    → (words : List Bytes) × (split ≡ words_are words) × IsAsked words c
unfolding parse_split
parse_split-IsAsked (words_are words) c h = (words, refl, parse_words-IsAsked words c h)
parse_split-IsAsked (failed e) c h = cc

-- If a command line is read as a command, its words are those of a documented request that stands
-- for that command, in which no name of a net to export is blank and no file to import is called
-- like an option.
pub parse_remote_command-IsAsked :
    (line : Bytes) (c : RemoteCommand)
    → parse_remote_command line ≡ command_is c
    → (words : List Bytes) × (split_command_line line ≡ words_are words) × IsAsked words c
unfolding parse_remote_command
parse_remote_command-IsAsked line c h = parse_split-IsAsked (split_command_line line) c h
