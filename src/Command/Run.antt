-- ===== src/Command/Run.antt =====
-- src/remote_command.cpp, `RunRemoteCommand`: a command, run for a user.
pub mod Unchanged
use quick_logger.Prelude.{
  ℕ, Bool, true, false, ◌&&◌, ◌||◌, List, [], ◌∷◌, ◌++◌, Option, none, some, if◌then◌else◌, Bytes,
  codes,
}
use quick_logger.Access.{UserAccess}
use quick_logger.Command.Answer.{RemoteCommandResult, append_line, simple}
use quick_logger.Command.Parse.{
  RemoteCommandKind, version, import_session, import_net, discard_upload, list_nets, export_net,
  export_sessions, RemoteCommand,
}
use quick_logger.Command.Export.{
  Exports, head_line, list_nets_here, export_net_file, export_session_files,
}
use quick_logger.Command.Store.{Store}
use quick_logger.Command.Throwing.{Attempt, threw, done}
use quick_logger.Command.Upload.{Folder, Left, import_upload, discard_uploaded}

-- What a command may change: the database and the user's two folders.
pub record World (Db : Type 0) : Type 0 where
  pub db : Db
  pub imported : Folder
  pub exported : Exports

-- The commands that change this QuickLogger.
abbrev pub is_change : RemoteCommandKind → Bool
is_change import_session = true
is_change import_net = true
is_change discard_upload = true
is_change _ = false

abbrev is_of_net : RemoteCommandKind → Bool
is_of_net import_net = true
is_of_net _ = false

-- `catch (const std::exception& e)`.
unfoldable pub caught : Attempt RemoteCommandResult → RemoteCommandResult
caught (threw what) = simple (codes "error") (codes "Import failed: " ++ what) 1
caught (done result) = result

unfoldable pub version_result : Bytes → RemoteCommandResult
version_result program_version = record {
  exit_status = 0;
  output =
      append_line
        (append_line (append_line head_line (codes "status") (codes "ok")) (codes "version")
          program_version)
        (codes "interface") (codes "1");
}

abbrev pub with_view_only : Bool → UserAccess → UserAccess
with_view_only view_only access = record access { view_only = access.view_only || view_only }

module _ (s : Store) (program_version : Bytes) (failing : Bytes → Option Bytes) where
  open s use {Db, load_access}

  unfoldable pub end_import : World Db → Left s → RemoteCommandResult × World Db
  end_import world (threw what, folder) = (caught (threw what), record world { imported = folder })
  end_import world (done (result, db), folder) =
      (result, record world { db = db; imported = folder })

  unfoldable pub run_import :
      Bool → ℕ → RemoteCommand → World Db → Attempt UserAccess → RemoteCommandResult × World Db
  run_import view_only now command world (threw what) = (caught (threw what), world)
  run_import view_only now command world (done access) = end_import world (
      import_upload s (with_view_only view_only access) now command (is_of_net command.kind)
        world.imported world.db)

  abbrev end_export :
      World Db → Attempt RemoteCommandResult × Exports → RemoteCommandResult × World Db
  end_export world (result, files) = (caught result, record world { exported = files })

  abbrev end_discard : World Db → RemoteCommandResult × Folder → RemoteCommandResult × World Db
  end_discard world (result, folder) = (result, record world { imported = folder })

  unfoldable pub run_kind :
      RemoteCommandKind
      → Bytes
      → Bool
      → ℕ
      → RemoteCommand
      → World Db
      → RemoteCommandResult × World Db
  run_kind list_nets username view_only now command world =
      (caught (list_nets_here s world.db), world)
  run_kind export_net username view_only now command world =
      end_export world (export_net_file s failing world.db command.file world.exported)
  run_kind export_sessions username view_only now command world =
      end_export world (export_session_files s failing world.db command.file world.exported)
  run_kind version username view_only now command world = (version_result program_version, world)
  run_kind discard_upload username view_only now command world =
      end_discard world (discard_uploaded command world.imported)
  run_kind _ username view_only now command world =
      run_import view_only now command world (load_access world.db username)

  unfoldable pub run_remote_command :
      RemoteCommand → Bytes → Bool → ℕ → World Db → RemoteCommandResult × World Db
  run_remote_command command username view_only now world =
      if view_only && is_change command.kind
      then (simple (codes "refused") (codes "View-only users can't import or upload.") 4, world)
      else run_kind command.kind username view_only now command world
