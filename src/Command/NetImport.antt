-- ===== src/Command/NetImport.antt =====
-- src/remote_command.cpp, class NetImport: a net that is pushed from another QuickLogger.
pub mod Allowed
use quick_logger.Prelude.{
  ℕ, ◌+◌, Bool, true, false, not, ◌&&◌, List, [], ◌∷◌, ◌++◌, Option, none, some, ◌==◌,
  if◌then◌else◌, ltb, Bytes, codes,
}
use quick_logger.Prelude.Decimal.{to_string}
use quick_logger.Access.{Net, UserAccess, access_net_admin, can_create_nets}
use quick_logger.Text.NetName.{net_names_are_the_same}
use quick_logger.Command.Answer.{RemoteCommandResult, RemoteResultFields}
use quick_logger.Command.Parse.{RemoteCommand}
use quick_logger.Prelude.Sort.{sort_by}
use quick_logger.Command.Nets.{compare_net_names, service_name, nets_where, find_named}
use quick_logger.Command.Import.{
  no_fields, set_net, finish_answer, quoted_name, may_log, is_alike, is_recurring, is_elsewhere,
  is_offered, not_yours, not_named,
}
use quick_logger.Command.Store.{
  Store, NetSlice, NetMergePlan, MergeSessionKind, new, already_here, differs, in_transaction,
}
use quick_logger.Command.Throwing.{Attempt, done, ◌>>=◌}

unfoldable pub count_of : ℕ → Bytes → Bytes → Bytes
count_of count singular plural = to_string count ++ b' ' ∷ (if count == 1 then singular else plural)

abbrev is_new : MergeSessionKind → ℕ
is_new new = 1
is_new _ = 0

abbrev is_different : MergeSessionKind → ℕ
is_different differs = 1
is_different _ = 0

unfoldable pub count_new : List MergeSessionKind → ℕ
count_new [] = 0
count_new (kind ∷ kinds) = is_new kind + count_new kinds

unfoldable pub count_different : List MergeSessionKind → ℕ
count_different [] = 0
count_different (kind ∷ kinds) = is_different kind + count_different kinds

-- `SetCounts`.
abbrev pub set_counts : NetMergePlan → RemoteResultFields → RemoteResultFields
set_counts plan fields = record fields {
  has_counts = true;
  new_sessions = count_new plan.sessions;
  differing_sessions = count_different plan.sessions;
  new_saved_stations = plan.new_saved_stations;
}

unfoldable pub adds : RemoteResultFields → Bytes
adds fields =
    codes "adds "
    ++ count_of fields.new_sessions (codes "session") (codes "sessions")
    ++ codes " and "
    ++ count_of fields.new_saved_stations (codes "saved station") (codes "saved stations")
    ++ (if ltb 0 fields.differing_sessions
        then codes "; "
          ++ count_of fields.differing_sessions (codes "session differs") (codes "sessions differ")
          ++ codes " and stays as it is here"
        else [])

-- The last net on another service with the name; the loop goes on behind one that it found.
unfoldable pub last_named : List Net → Bytes → Option Net → Option Net
last_named [] name found = found
last_named (net ∷ nets) name found =
    last_named nets name (if net_names_are_the_same net.name name then some net else found)

-- A Net Admin who adds a net looks after it.
unfoldable pub looks_after : UserAccess → Bool
looks_after access = not access.console && access.level == access_net_admin

unfoldable pub ask_fields : NetSlice → RemoteResultFields → Net → RemoteCommandResult
ask_fields slice fields net =
    finish_answer fields (codes "needs-confirmation")
      (codes "The net was logged as "
        ++ quoted_name slice.net.name
        ++ codes "; confirm "
        ++ quoted_name net.name
        ++ codes " to merge it there, which "
        ++ adds fields
        ++ codes ".")
      2

unfoldable pub may_create : Option UserAccess → Bool
may_create none = true
may_create (some access) = can_create_nets access

-- The name looked for on the other service.
abbrev pub sought_name : NetSlice → RemoteCommand → Bytes
sought_name slice command = if command.has_confirm_net then command.confirm_net else slice.net.name

module _ (s : Store) where
  open s use {Db, get_all_nets, plan_net_merge, apply_net_merge, apply_net_slice, grant_net}

  -- `Ask`.
  unfoldable pub ask : Option UserAccess → NetSlice → Net → Db → Attempt (RemoteCommandResult × Db)
  ask access slice net db =
      if not (may_log access net)
      then done (not_yours no_fields net, db)
      else (plan_net_merge db slice net.id >>= λ plan.
          done (ask_fields slice (set_counts plan (set_net net no_fields)) net, db))

  unfoldable pub merge_plan :
      NetSlice
      → RemoteResultFields
      → Net
      → Db
      → NetMergePlan
      → Attempt (Bool × RemoteCommandResult × Db)
  merge_plan slice fields net db plan =
      if fields.new_sessions == 0 && fields.new_saved_stations == 0
      then done (
        false,
        finish_answer fields (codes "already-imported")
            (net.name ++ codes " already has all of this net.") 0,
        db,
      )
      else (apply_net_merge db slice plan >>= λ db'. done (
        true,
        finish_answer fields (codes "merged")
            (codes "Merged into " ++ net.name ++ codes ": it " ++ adds fields ++ codes ".") 0,
        db',
      ))

  unfoldable pub merge_into :
      Option UserAccess → NetSlice → Net → Db → Attempt (RemoteCommandResult × Db)
  merge_into access slice net db =
      if not (may_log access net)
      then done (not_yours no_fields net, db)
      else in_transaction s db (λ db'. plan_net_merge db' slice net.id >>= λ plan.
          merge_plan slice (set_counts plan (set_net net no_fields)) net db' plan)

  unfoldable pub grant_added : Option UserAccess → ℕ → Db → Attempt Db
  grant_added none net_id db = done db
  grant_added (some access) net_id db =
      if looks_after access then grant_net db access.username net_id access.username else done db

  unfoldable pub add_as_new_net :
      Option UserAccess → NetSlice → ℕ → Db → Attempt (RemoteCommandResult × Db)
  add_as_new_net access slice now db =
      if not (may_create access)
      then done (
        finish_answer no_fields (codes "refused") (codes "Only Net Admins can add a new net.") 4,
        db,
      )
      else in_transaction s db (λ db'. apply_net_slice db' slice now >>= λ (net_id, added).
          grant_added access net_id added >>= λ granted. done (
            true,
            finish_answer
                (record no_fields { has_net = true; net = slice.net.name; net_id = net_id })
                (codes "imported")
                (codes "Imported the net as a new net, " ++ slice.net.name ++ codes ".") 0,
            granted,
          ))

  unfoldable pub merge_confirmed :
      Option UserAccess → NetSlice → Bytes → Db → Option Net → Attempt (RemoteCommandResult × Db)
  merge_confirmed access slice name db none = done (not_named no_fields name, db)
  merge_confirmed access slice name db (some net) =
      if is_alike slice net
      then merge_into access slice net db
      else done (
        finish_answer (set_net net no_fields) (codes "refused")
            (quoted_name net.name
              ++ codes " doesn't look like "
              ++ quoted_name slice.net.name
              ++ codes ", so the net wasn't merged into it.")
            4,
        db,
      )

  unfoldable pub ask_alike :
      Option UserAccess → NetSlice → ℕ → Db → List Net → Attempt (RemoteCommandResult × Db)
  ask_alike access slice now db [] = add_as_new_net access slice now db
  ask_alike access slice now db (net ∷ _) = ask access slice net db

  unfoldable pub merge_unconfirmed :
      Option UserAccess
      → NetSlice
      → ℕ
      → Db
      → List Net
      → Option Net
      → Attempt (RemoteCommandResult × Db)
  merge_unconfirmed access slice now db recurring (some net) = ask access slice net db
  merge_unconfirmed access slice now db recurring none =
      ask_alike access slice now db
        (sort_by compare_net_names (nets_where (is_offered access slice) recurring))

  -- `Run`, from the nets on.
  unfoldable pub merge_recurring :
      Option UserAccess
      → NetSlice
      → ℕ
      → RemoteCommand
      → Db
      → List Net
      → Option Net
      → Attempt (RemoteCommandResult × Db)
  merge_recurring access slice now command db nets (some net) = done (
    finish_answer (set_net net no_fields) (codes "refused")
        (quoted_name net.name
          ++ codes " is on "
          ++ service_name net.service
          ++ codes " and this net was logged on "
          ++ service_name slice.net.service
          ++ codes ".")
        4,
    db,
  )
  merge_recurring access slice now command db nets none =
      let recurring = nets_where (is_recurring slice) nets in
      if command.has_confirm_net
      then merge_confirmed access slice command.confirm_net db
          (find_named recurring command.confirm_net)
      else merge_unconfirmed access slice now db recurring (find_named recurring slice.net.name)

  -- `Run` of a `NetImport`.
  unfoldable pub run_net_import :
      Option UserAccess → NetSlice → ℕ → RemoteCommand → Db → Attempt (RemoteCommandResult × Db)
  run_net_import access slice now command db =
      if slice.net.is_ad_hoc
      then done (
        finish_answer no_fields (codes "refused") (codes "An ad hoc net can't be pushed as a net.")
            4,
        db,
      )
      else (get_all_nets db >>= λ nets.
          merge_recurring access slice now command db nets
            (last_named (nets_where (is_elsewhere slice) nets) (sought_name slice command) none))
