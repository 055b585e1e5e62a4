-- ===== src/Command/SessionImport.antt =====
-- src/remote_command.cpp, class SessionImport: a session that is pushed from another QuickLogger.
pub mod First
pub mod Allowed
use quick_logger.Prelude.{
  ℕ, ◌-◌, Bool, true, false, not, ◌&&◌, ◌||◌, List, [], ◌∷◌, ◌++◌, Option, none, some, ◌==◌,
  if◌then◌else◌, ltb, leb, Bytes, codes, equal, length,
}
use quick_logger.Prelude.Decimal.{to_string}
use quick_logger.Access.{Net, NetPower, watch, log, manage, UserAccess, power_on, net_power_refusal}
use quick_logger.Text.NetName.{net_names_are_the_same, net_names_look_alike}
use quick_logger.Command.Answer.{RemoteCommandResult, RemoteResultFields, make_result}
use quick_logger.Command.Parse.{RemoteCommand}
use quick_logger.Prelude.Sort.{sort_by}
use quick_logger.Command.Nets.{
  compare_net_names, same_service, service_name, nets_where, find_named,
}
use quick_logger.Command.Store.{Store, NetInstance, NetSlice, closed, in_transaction}
use quick_logger.Command.Throwing.{Attempt, done, ◌>>=◌}
use quick_logger.Command.Utc.{utc_label}
use quick_logger.Command.Import.{
  no_fields, set_net, finish_answer, quoted_name, is_power_to_log, may_log, is_alike, is_recurring,
  is_elsewhere, is_offered, not_yours, not_named,
}

unfoldable pub session_label : NetInstance → Bytes
session_label session =
    if session.started_at == 0 then session.instance_date else utc_label session.started_at

-- `instances[0]`; a file that is read as a session has one.
abbrev pub first_instance : List NetInstance → NetInstance
first_instance [] = record {
  id = 0;
  net_id = 0;
  instance_date = [];
  status = closed;
  started_at = 0;
}
first_instance (session ∷ _) = session

-- How many other nets look alike.
abbrev others_alike : ℕ → Bytes
others_alike others =
    if others == 0
    then []
    else b' '
      ∷ (to_string others
          ++ codes " other net"
          ++ (if ltb 1 others then codes "s look" else codes " looks")
          ++ codes " alike too.")

abbrev pub import_message : NetSlice → Net → Bytes
import_message slice net =
    codes "Imported the session into "
    ++ net.name
    ++ (if not (equal net.name slice.net.name)
        then codes " (logged as " ++ quoted_name slice.net.name ++ codes ")"
        else [])
    ++ codes "."

-- The net to ask about, of those that look alike.
unfoldable pub offer : NetSlice → RemoteResultFields → List Net → RemoteCommandResult
offer slice fields [] =
    finish_answer fields (codes "no-match")
      (codes "No net here looks like " ++ quoted_name slice.net.name ++ codes ".") 3
offer slice fields (net ∷ others) =
    finish_answer (set_net net fields) (codes "needs-confirmation")
      (codes "The session was logged as "
        ++ quoted_name slice.net.name
        ++ codes "; confirm "
        ++ quoted_name net.name
        ++ codes " to import it there."
        ++ others_alike (length others))
      2

module _ (s : Store) where
  open s use {
    Db, get_all_nets, has_net_instance, find_ad_hoc_session, apply_session_slice,
    apply_ad_hoc_session_slice,
  }

  -- `ImportInto`, in its transaction, behind `HasNetInstance`.
  unfoldable pub add_session :
      NetSlice → RemoteResultFields → Net → Db → Bool → Attempt (Bool × RemoteCommandResult × Db)
  add_session slice fields net db true = done (
    false,
    finish_answer fields (codes "already-imported") (net.name ++ codes " already has this session.")
        0,
    db,
  )
  add_session slice fields net db false =
      apply_session_slice db slice net.id >>= λ (id, error, db').
      if id == 0
      then done (false, finish_answer fields (codes "error") error 1, db')
      else done (true, finish_answer fields (codes "imported") (import_message slice net) 0, db')

  unfoldable pub import_into :
      Option UserAccess
      → NetSlice
      → RemoteResultFields
      → Net
      → Db
      → Attempt (RemoteCommandResult × Db)
  unfolding add_session
  import_into access slice fields net db =
      let source = first_instance slice.instances in
      if not (may_log access net)
      then done (not_yours fields net, db)
      else in_transaction s db (λ db'.
        has_net_instance db' net.id source.instance_date source.started_at
        >>= add_session slice (set_net net fields) net db')

  -- `ImportAdHoc`, behind `FindAdHocSession`.
  unfoldable pub add_ad_hoc :
      NetSlice
      → RemoteResultFields
      → ℕ
      → Db
      → Option NetInstance
      → Attempt (Bool × RemoteCommandResult × Db)
  add_ad_hoc slice fields now db (some existing) = done (
    false,
    finish_answer (record fields { has_net = true; net = slice.net.name; net_id = existing.net_id })
        (codes "already-imported")
        (codes "The ad hoc net " ++ slice.net.name ++ codes " already has this session.") 0,
    db,
  )
  add_ad_hoc slice fields now db none =
      apply_ad_hoc_session_slice db slice now >>= λ (id, net_id, error, db').
      if id == 0
      then done (false, finish_answer fields (codes "error") error 1, db')
      else done (
        true,
        finish_answer (record fields { has_net = true; net = slice.net.name; net_id = net_id })
            (codes "imported")
            (codes "Imported the session as a new ad hoc net, " ++ slice.net.name ++ codes ".") 0,
        db',
      )

  unfoldable pub import_ad_hoc :
      NetSlice → RemoteResultFields → ℕ → Db → Attempt (RemoteCommandResult × Db)
  unfolding add_ad_hoc
  import_ad_hoc slice fields now db =
      let source = first_instance slice.instances in
      in_transaction s db (λ db'.
        find_ad_hoc_session db' slice.net.name source.instance_date source.started_at
        >>= add_ad_hoc slice fields now db')

  -- `confirmed` and `elsewhere` of `Run`.
  unfoldable pub import_confirmed :
      Option UserAccess
      → NetSlice
      → RemoteResultFields
      → Bytes
      → Db
      → Option Net
      → Option Net
      → Attempt (RemoteCommandResult × Db)
  import_confirmed access slice fields name db (some net) elsewhere =
      if is_alike slice net
      then import_into access slice fields net db
      else done (
        finish_answer (set_net net fields) (codes "refused")
            (quoted_name net.name
              ++ codes " doesn't look like "
              ++ quoted_name slice.net.name
              ++ codes ", the net this session was logged in, so it wasn't imported.")
            4,
        db,
      )
  import_confirmed access slice fields name db none (some net) = done (
    finish_answer (set_net net fields) (codes "refused")
        (quoted_name net.name
          ++ codes " is on "
          ++ service_name net.service
          ++ codes " and this session was logged on "
          ++ service_name slice.net.service
          ++ codes ", so it wasn't imported.")
        4,
    db,
  )
  import_confirmed access slice fields name db none none = done (not_named fields name, db)

  unfoldable pub import_unconfirmed :
      Option UserAccess
      → NetSlice
      → RemoteResultFields
      → Db
      → List Net
      → Option Net
      → Attempt (RemoteCommandResult × Db)
  import_unconfirmed access slice fields db recurring (some net) =
      import_into access slice fields net db
  import_unconfirmed access slice fields db recurring none = done (
    offer slice fields (sort_by compare_net_names (nets_where (is_offered access slice) recurring)),
    db,
  )

  -- `Run`, from the nets on.
  unfoldable pub import_recurring :
      Option UserAccess
      → NetSlice
      → RemoteResultFields
      → RemoteCommand
      → Db
      → List Net
      → Attempt (RemoteCommandResult × Db)
  import_recurring access slice fields command db nets =
      let recurring = nets_where (is_recurring slice) nets in
      if command.has_confirm_net
      then import_confirmed access slice fields command.confirm_net db
          (find_named recurring command.confirm_net)
          (find_named (nets_where (is_elsewhere slice) nets) command.confirm_net)
      else import_unconfirmed access slice fields db recurring (find_named recurring slice.net.name)

  -- `Run` of a `SessionImport`.
  unfoldable pub run_session_import :
      Option UserAccess → NetSlice → ℕ → RemoteCommand → Db → Attempt (RemoteCommandResult × Db)
  run_session_import access slice now command db =
      let fields = record no_fields { session = session_label (first_instance slice.instances) } in
      if slice.net.is_ad_hoc
      then (if command.has_confirm_net
          then done (
            finish_answer fields (codes "refused")
                (codes "An ad hoc session goes into a new ad hoc net; --confirm-net is only "
                  ++ codes "for a recurring net's session.")
                4,
            db,
          )
          else import_ad_hoc slice fields now db)
      else (get_all_nets db >>= import_recurring access slice fields command db)
