-- ===== src/Command/Export.antt =====
-- src/remote_command.cpp, `ListNets`, `ExportNet` and `ExportSessions`: what is read out.
pub mod Bounds
use quick_logger.Prelude.{
  ℕ, zero, suc, ◌+◌, Bool, true, false, not, ◌&&◌, ◌||◌, List, [], ◌∷◌, ◌++◌, Option, none, some,
  ◌==◌, if◌then◌else◌, ltb, leb, Bytes, codes, equal, length,
}
use quick_logger.Prelude.Decimal.{to_string}
use quick_logger.Prelude.Find.{any}
use quick_logger.Access.{Net}
use quick_logger.Sftp.{sanitize_filename_component}
use quick_logger.Command.Answer.{RemoteCommandResult, append_line, make_result, simple}
use quick_logger.Prelude.Sort.{sort_by}
use quick_logger.Command.Nets.{compare_net_names, nets_where, find_named, service_key}
use quick_logger.Command.Import.{no_fields, set_net, quoted_name}
use quick_logger.Command.Store.{Store, NetInstance, NetInstanceStatus, still_open, closed, NetSlice}
use quick_logger.Command.Throwing.{Attempt, threw, done, ◌>>=◌}
use quick_logger.Command.Utc.{utc_stem}

abbrev pub is_closed : NetInstanceStatus → Bool
is_closed closed = true
is_closed still_open = false

unfoldable pub closed_session_count : List NetInstance → ℕ
closed_session_count [] = 0
closed_session_count (session ∷ sessions) =
    (if is_closed session.status then 1 else 0) + closed_session_count sessions

abbrev pub head_line : Bytes
head_line = codes "QUICKLOGGER-RESULT 1" ++ b'\n' ∷ []

abbrev not_ad_hoc : Net → Bool
not_ad_hoc net = not net.is_ad_hoc

abbrev net_count : ℕ → Bytes
net_count count = to_string count ++ (if count == 1 then codes " net." else codes " nets.")

unfoldable pub no_net_named : Bytes → RemoteCommandResult
no_net_named name =
    simple (codes "no-match") (codes "No net here is named " ++ quoted_name name ++ codes ".") 3

unfoldable pub export_failed : Bytes → Bytes → RemoteCommandResult
export_failed what error =
    simple (codes "error") (codes "Couldn't write " ++ what ++ codes ": " ++ error) 1

-- The name of an exported session, without the ending.
unfoldable pub session_export_name : Net → NetInstance → Bytes
session_export_name net session =
    sanitize_filename_component net.name
    ++ b'_' ∷ sanitize_filename_component session.instance_date
    ++ (if session.started_at == 0 then [] else utc_stem session.started_at)

abbrev ended : Bytes → Bytes
ended name = name ++ codes ".qlsession"

-- A name that was not given yet: the id is added to one that was.
unfoldable pub free_name : List Bytes → Bytes → ℕ → Bytes
free_name names name id =
    ended (if any (equal (ended name)) names then name ++ b'_' ∷ to_string id else name)

abbrev pub max_exported_sessions : ℕ
max_exported_sessions = 300

-- The files of the user's export folder.
abbrev pub Exports : Type 0
Exports = List (Bytes × NetSlice)

unfoldable pub write_export : Exports → Bytes → NetSlice → Exports
write_export [] name slice = (name, slice) ∷ []
write_export ((other, old) ∷ files) name slice =
    if equal other name then (name, slice) ∷ files else (other, old) ∷ write_export files name slice

-- How the loop over the sessions ends: with the names written and how many sessions were not, or
-- with one that could not be written.
pub data Sent : Type 0 where
  names_are : List Bytes → ℕ → Sent
  not_written : Bytes → Bytes → Sent

-- A session is written, unless it cannot be read out or the file cannot be written.
unfoldable pub write_session :
    (Bytes → Option Bytes)
    → Bytes
    → Exports
    → Attempt NetSlice
    → (NetSlice → Attempt Sent × Exports)
    → Attempt Sent × Exports
write_session failing name files (threw what) next = (threw what, files)
write_session failing name files (done slice) next = elim (failing name) [
  | some error ↦ (done (not_written name error), files)
  | none ↦ next slice
]

abbrev named_lines : Net → RemoteCommandResult
named_lines net = make_result (record (set_net net no_fields) { status = codes "ok" }) 0

unfoldable pub append_files : Bytes → List Bytes → Bytes
append_files output [] = output
append_files output (name ∷ names) = append_files (append_line output (codes "file") name) names

unfoldable pub sent_result : Net → Sent → RemoteCommandResult
sent_result net (not_written name error) = export_failed name error
sent_result net (names_are names not_sent) =
    let counted =
      append_line (named_lines net).output (codes "sessions") (to_string (length names)) in
    let missed =
      if ltb 0 not_sent
      then append_line counted (codes "not-sent") (to_string not_sent)
      else counted in
    record {
      exit_status = 0;
      output = append_line (append_files missed names) (codes "message") (
          codes "Exported "
          ++ to_string (length names)
          ++ codes " of "
          ++ net.name
          ++ codes "'s sessions.");
    }

module _ (s : Store) where
  open s use {Db, get_all_nets, get_net_instances_for_net, gather_net_slice, gather_session_slice}

  unfoldable pub append_nets : Db → Bytes → List Net → Attempt Bytes
  append_nets db output [] = done output
  append_nets db output (net ∷ nets) = get_net_instances_for_net db net.id >>= λ sessions.
      append_nets db
        (append_line
          (append_line (append_line output (codes "net") net.name) (codes "service")
            (service_key net.service))
          (codes "sessions") (to_string (closed_session_count sessions)))
        nets

  unfoldable pub list_sorted : Db → List Net → Attempt RemoteCommandResult
  list_sorted db recurring =
      append_nets db (append_line head_line (codes "status") (codes "ok")) recurring >>= λ output.
      done (record {
        exit_status = 0;
        output = append_line output (codes "message") (net_count (length recurring));
      })

  -- `ListNets`.
  unfoldable pub list_nets_here : Db → Attempt RemoteCommandResult
  list_nets_here db = get_all_nets db >>= λ nets.
      list_sorted db (sort_by compare_net_names (nets_where not_ad_hoc nets))

  -- `FindRecurringNet`.
  unfoldable pub find_recurring_net : Db → Bytes → Attempt (Option Net)
  find_recurring_net db name =
      get_all_nets db >>= λ nets. done (find_named (nets_where not_ad_hoc nets) name)

  module _ (failing : Bytes → Option Bytes) where
    unfoldable pub write_net :
        Net → Exports → Attempt NetSlice → Attempt RemoteCommandResult × Exports
    write_net net files (threw what) = (threw what, files)
    write_net net files (done slice) =
        let name = sanitize_filename_component net.name ++ codes ".qlnet" in
        elim (failing name) [
          | some error ↦ (done (export_failed name error), files)
          | none ↦ (
            done (record {
              exit_status = 0;
              output =
                  append_line (append_line (named_lines net).output (codes "file") name)
                    (codes "message")
                    (codes "Exported " ++ net.name ++ codes " as " ++ name ++ codes ".");
            }),
            write_export files name slice,
          )
        ]

    unfoldable pub export_found_net :
        Db → Bytes → Exports → Attempt (Option Net) → Attempt RemoteCommandResult × Exports
    export_found_net db name files (threw what) = (threw what, files)
    export_found_net db name files (done none) = (done (no_net_named name), files)
    export_found_net db name files (done (some net)) =
        write_net net files (gather_net_slice db net.id)

    -- `ExportNet`.
    unfoldable pub export_net_file : Db → Bytes → Exports → Attempt RemoteCommandResult × Exports
    export_net_file db name files = export_found_net db name files (find_recurring_net db name)

    -- The loop of `ExportSessions`.
    unfoldable pub export_from :
        Db → Net → List Bytes → ℕ → Exports → List NetInstance → Attempt Sent × Exports
    export_from db net names not_sent files [] = (done (names_are names not_sent), files)
    export_from db net names not_sent files (session ∷ sessions) =
        let name = free_name names (session_export_name net session) session.id in
        let skipped = export_from db net names (suc not_sent) files sessions in
        let written = λ (slice : NetSlice).
          export_from db net (names ++ name ∷ []) not_sent (write_export files name slice)
            sessions in
        if not (is_closed session.status) || leb max_exported_sessions (length names)
        then skipped
        else write_session failing name files (gather_session_slice db session.id) written

    unfoldable pub export_all :
        Db → Net → Exports → Attempt (List NetInstance) → Attempt Sent × Exports
    export_all db net files (threw what) = (threw what, files)
    export_all db net files (done sessions) = export_from db net [] 0 files sessions

    abbrev pub answer_sent : Net → Attempt Sent × Exports → Attempt RemoteCommandResult × Exports
    answer_sent net (sent, files) = (sent >>= λ ends. done (sent_result net ends), files)

    unfoldable pub export_found_sessions :
        Db → Bytes → Exports → Attempt (Option Net) → Attempt RemoteCommandResult × Exports
    export_found_sessions db name files (threw what) = (threw what, files)
    export_found_sessions db name files (done none) = (done (no_net_named name), files)
    export_found_sessions db name files (done (some net)) =
        answer_sent net (export_all db net files (get_net_instances_for_net db net.id))

    -- `ExportSessions`.
    unfoldable pub export_session_files :
        Db → Bytes → Exports → Attempt RemoteCommandResult × Exports
    export_session_files db name files =
        export_found_sessions db name files (find_recurring_net db name)
