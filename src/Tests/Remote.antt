-- ===== src/Tests/Remote.antt =====
-- Remote commands on a small database, and the theorems about them.
use quick_logger.Prelude.{
  inl, ◌≡◌, ◌≢◌, refl, true, false, List, [], ◌∷◌, Option, none, some, Bytes, codes, equal,
  is_suffix, trim_front, trim_back, to_upper, length, ◌≤◌, ◌+◌,
}
use quick_logger.Prelude.Find.{any}
use quick_logger.Access.{Net, gmrs, is_admin, is_net_admin, can_create_nets, power_on}
use quick_logger.Command.Answer.{RemoteCommandResult, RemoteResultFields, make_result, simple}
use quick_logger.Command.Parse.{RemoteCommand, with_file, import_session, import_net}
use quick_logger.Command.Nets.{nets_where, find_named, text_lt, compare_net_names}
use quick_logger.Command.Store.{NetSlice, in_transaction, end_transaction}
use quick_logger.Command.Import.{
  is_recurring, is_offered, no_fields, set_net, finish_answer, may_log,
}
use quick_logger.Command.SessionImport.{
  session_label, add_session, import_into, import_unconfirmed, import_recurring, run_session_import,
}
use quick_logger.Command.SessionImport.Allowed.{IsAllowed, run_session_import-IsChange}
use quick_logger.Command.NetImport.{
  last_named, looks_after, grant_added, may_create, add_as_new_net, ask_alike, merge_unconfirmed,
  merge_recurring, run_net_import,
}
use quick_logger.Command.NetImport.Allowed.{MayMerge, run_net_import-IsChange}
use quick_logger.Command.Store.Change.{IsChange}
use quick_logger.Command.Upload.{
  Upload, Folder, only_with, extension_of, client_path, upload_name, regular_upload, import_upload,
}
use quick_logger.Command.Upload.Kept.{IsRemovable, IsLeft, import_upload-IsLeft}
use quick_logger.Command.Export.{
  names_are, free_name, session_export_name, write_session, write_export, export_from, export_all,
  max_exported_sessions,
}
use quick_logger.Command.Export.Bounds.{export_all-IsAccounted}
use quick_logger.Command.Run.{World, run_remote_command}
use quick_logger.Command.Run.Unchanged.{run_remote_command-unchanged, run_remote_command-failed}
use quick_logger.Command.SessionImport.First.{IsAlike, IsFirst, Asks, run_session_import-IsFirst}
use quick_logger.Prelude.Sort.{sort_by}
use quick_logger.Sftp.{
  resolve_sftp_path, is_hidden, ends_with, is_allowed_import_name, sanitize_from, or_export,
  sanitize_filename_component,
}
use quick_logger.Text.{to_upper_ascii}
use quick_logger.Command.Utc.{utc_label, utc_stem}
use quick_logger.Prelude.Decimal.{to_string}
use quick_logger.Text.Place.{normalize_place_name, is_accented, after_plain}
use quick_logger.Text.NetName.{
  words_alike, join_words, name_words, words_from, spelled_out, net_names_look_alike,
  net_names_are_the_same, net_name_key, name_key_from,
}
use quick_logger.Command.Throwing.{done}
use quick_logger.Tests.Shelf.{Shelf, weekly, tuesday, slice, admin, shelf}

abbrev asked : RemoteCommand
asked = with_file import_session (codes "a.qlsession")

abbrev one_net : Shelf
one_net = (weekly ∷ [], [])

abbrev with_session : Shelf
with_session = (weekly ∷ [], (7, codes "2026-09-22", 60) ∷ [])

abbrev fields : RemoteResultFields
fields = record no_fields { session = codes "1970-01-01 00:01 UTC" }

abbrev imported : RemoteCommandResult
imported =
    finish_answer (set_net weekly fields) (codes "imported")
      (codes "Imported the session into Weekly Net.") 0

imports_session :
    run_session_import shelf (some admin) slice 5 asked one_net ≡ done (imported, with_session)
unfolding run_session_import import_recurring nets_where find_named net_names_are_the_same
    net_name_key name_key_from equal import_unconfirmed import_into may_log power_on is_admin
    in_transaction end_transaction add_session session_label utc_label to_string to_upper
imports_session = refl

run_session_import-IsChange_example :
    IsChange shelf (IsAllowed shelf (some admin) slice one_net) one_net (imported, with_session)
run_session_import-IsChange_example =
    run_session_import-IsChange shelf (some admin) slice 5 asked one_net with_session imported
      imports_session

abbrev no_nets : Shelf
no_nets = ([], [])

abbrev added : RemoteCommandResult
added =
    finish_answer (record no_fields { has_net = true; net = codes "Weekly Net"; net_id = 8 })
      (codes "imported") (codes "Imported the net as a new net, Weekly Net.") 0

abbrev sent_net : RemoteCommand
sent_net = with_file import_net (codes "a.qlnet")

imports_net : run_net_import shelf (some admin) slice 5 sent_net no_nets ≡ done (added, one_net)
unfolding run_net_import last_named merge_recurring nets_where find_named merge_unconfirmed sort_by
    ask_alike add_as_new_net may_create can_create_nets is_net_admin in_transaction end_transaction
    grant_added looks_after
imports_net = refl

run_net_import-IsChange_example :
    IsChange shelf
      ((nets : List Net) × (shelf.get_all_nets no_nets ≡ done nets)
        × MayMerge (some admin) slice sent_net nets)
      no_nets
      (added, one_net)
run_net_import-IsChange_example =
    run_net_import-IsChange shelf (some admin) slice 5 sent_net no_nets one_net added imports_net

abbrev upload : Upload
upload = record { is_regular = true; size = some 4096; is_removable = true; contents = [] }

abbrev folder : Folder
folder = (codes "b.qlnet", upload) ∷ (codes "a.qlsession", upload) ∷ []

abbrev world : World Shelf
world = record { db = one_net; imported = folder; exported = [] }

abbrev can_write : Bytes → Option Bytes
can_write name = none

run_remote_command-unchanged_example :
    let left =
      run_remote_command shelf (codes "1.9") can_write asked (codes "kx4evw") true 5 world in
    (left.1.db ≡ one_net) × (left.1.imported ≡ folder)
run_remote_command-unchanged_example =
    run_remote_command-unchanged shelf (codes "1.9") can_write asked (codes "kx4evw") true 5 world
      refl

refused_status :
    (run_remote_command shelf
      (codes "1.9")
      can_write
      asked
      (codes "kx4evw")
      true
      5
      world).0.exit_status
    ≢ 0
unfolding run_remote_command simple make_result
refused_status e = cc

run_remote_command-failed_example :
    (run_remote_command shelf (codes "1.9") can_write asked (codes "kx4evw") true 5 world).1.db
    ≡ one_net
run_remote_command-failed_example =
    run_remote_command-failed shelf (codes "1.9") can_write asked (codes "kx4evw") true 5 world
      refused_status

names_upload :
    only_with (extension_of false) (upload_name (codes "a.qlsession")) ≡ some (codes "a.qlsession")
unfolding upload_name client_path any resolve_sftp_path is_allowed_import_name ends_with is_hidden
    is_suffix sanitize_filename_component sanitize_from or_export equal trim_front trim_back
names_upload = refl

finds_upload : regular_upload folder (codes "a.qlsession") ≡ some upload
unfolding regular_upload equal
finds_upload = refl

folder-IsRemovable : IsRemovable (codes "a.qlsession") folder
folder-IsRemovable = ((λ _. refl), ((λ _. refl), tt))

import_upload-IsLeft_example :
    IsLeft shelf folder
      (codes "a.qlsession")
      (import_upload shelf admin 5 asked false folder one_net)
import_upload-IsLeft_example =
    import_upload-IsLeft shelf admin 5 asked false folder one_net (codes "a.qlsession") upload
      names_upload finds_upload folder-IsRemovable

abbrev exported_name : Bytes
exported_name = codes "Weekly_Net_2026-09-22_000100.qlsession"

exports_session :
    export_all shelf can_write with_session weekly [] (done (tuesday ∷ []))
    ≡ (done (names_are (exported_name ∷ []) 0), (exported_name, slice) ∷ [])
unfolding export_all export_from free_name session_export_name sanitize_filename_component
    sanitize_from or_export trim_front trim_back utc_stem any equal write_session write_export
exports_session = refl

export_all-IsAccounted_example :
    (length (exported_name ∷ []) ≤ max_exported_sessions) × (length (exported_name ∷ []) + 0 ≡ 1)
export_all-IsAccounted_example =
    export_all-IsAccounted shelf can_write with_session weekly [] (tuesday ∷ [])
      (exported_name ∷ []) 0 ((exported_name, slice) ∷ []) exports_session

abbrev early : Net
early = record { id = 9; name = codes "Early Net"; service = gmrs; is_ad_hoc = false }

abbrev one_word : NetSlice
one_word = record slice { net = record weekly { name = codes "WeeklyNet" } }

abbrev two_nets : List Net
two_nets = weekly ∷ early ∷ []

unnamed : find_named (nets_where (is_recurring one_word) two_nets) (codes "WeeklyNet") ≡ none
unfolding find_named nets_where net_names_are_the_same net_name_key name_key_from equal to_upper
unnamed = refl

weekly-IsAlike : IsAlike (some admin) one_word two_nets weekly
unfolding is_offered net_names_look_alike may_log power_on is_admin words_alike equal join_words
    name_words words_from normalize_place_name is_accented after_plain to_upper spelled_out
weekly-IsAlike = (inl refl, refl, refl)

run_session_import-IsFirst_example :
    (first : Net) × IsFirst (some admin) one_word two_nets first
    × Asks shelf
        (some admin)
        one_word
        5
        (run_session_import shelf (some admin) one_word 5 asked (two_nets, []))
        (two_nets, [])
        first
run_session_import-IsFirst_example =
    run_session_import-IsFirst shelf (some admin) one_word 5 asked (two_nets, []) two_nets weekly
      refl refl refl unnamed weekly-IsAlike

sorted_nets : sort_by compare_net_names (weekly ∷ early ∷ []) ≡ early ∷ weekly ∷ []
unfolding sort_by compare_net_names text_lt to_upper_ascii to_upper equal
sorted_nets = refl
