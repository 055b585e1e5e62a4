-- ===== src/Command/Run/Unchanged.antt =====
-- What a command leaves unchanged.
use quick_logger.Prelude.{
  ℕ, ◌≡◌, ◌≢◌, refl, ◌⊎◌, inl, inr, Bool, true, false, not, ◌&&◌, ◌||◌, Option, none, some,
  Bool-cases, Bytes, arith,
}
use quick_logger.Access.{UserAccess}
use quick_logger.Command.Answer.{RemoteCommandResult}
use quick_logger.Command.Parse.{
  RemoteCommandKind, version, import_session, import_net, discard_upload, list_nets, export_net,
  export_sessions, RemoteCommand,
}
use quick_logger.Command.SessionImport.{run_session_import}
use quick_logger.Command.SessionImport.Allowed.{run_session_import-Ends}
use quick_logger.Command.NetImport.{run_net_import}
use quick_logger.Command.NetImport.Allowed.{run_net_import-Ends}
use quick_logger.Command.Store.{Store, SliceRead, slice_is, not_a_slice}
use quick_logger.Command.Store.Change.{IsChange, IsChange-mono}
use quick_logger.Command.Throwing.{Attempt, threw, done, Ends, Ends-mono, if-Ends}
use quick_logger.Command.Upload.{
  Folder, Upload, Left, is_over_limit, leave_upload, import_slice, import_file, import_named,
  import_upload,
}
use quick_logger.Command.Run.{
  World, is_change, end_import, run_import, run_kind, run_remote_command,
}

module _ (s : Store) (program_version : Bytes) (failing : Bytes → Option Bytes) where
  open s use {Db, load_access}

  run_kind-unchanged :
      (kind : RemoteCommandKind) (username : Bytes) (view_only : Bool) (now : ℕ)
      (command : RemoteCommand) (world : World Db)
      → is_change kind ≡ false
      → let left = run_kind s program_version failing kind username view_only now command world in
        (left.1.db ≡ world.db) × (left.1.imported ≡ world.imported)
  unfolding run_kind
  run_kind-unchanged list_nets username view_only now command world h = (refl, refl)
  run_kind-unchanged export_net username view_only now command world h = (refl, refl)
  run_kind-unchanged export_sessions username view_only now command world h = (refl, refl)
  run_kind-unchanged version username view_only now command world h = (refl, refl)
  run_kind-unchanged discard_upload username view_only now command world h = cc
  run_kind-unchanged import_session username view_only now command world h = cc
  run_kind-unchanged import_net username view_only now command world h = cc

  -- A view-only user's command, and one that is no import and discards no upload, leaves the
  -- database and the import folder as they are.
  pub run_remote_command-unchanged :
      (command : RemoteCommand) (username : Bytes) (view_only : Bool) (now : ℕ) (world : World Db)
      → (view_only || not (is_change command.kind)) ≡ true
      → let left =
          run_remote_command s program_version failing command username view_only now world in
        (left.1.db ≡ world.db) × (left.1.imported ≡ world.imported)
  unfolding run_remote_command
  run_remote_command-unchanged command username view_only now world h =
      elim (Bool-cases (view_only && is_change command.kind)) [
        | inl stopped ↦ rw stopped (refl, refl)
        | inr run ↦
            rw run
              (run_kind-unchanged command.kind username view_only now command world (ground arith))
      ]

  leave_upload-Ends :
      (P : RemoteCommandResult × Db → Type 0) (folder : Folder) (name : Bytes)
      (ran : Attempt (RemoteCommandResult × Db))
      → Ends P ran
      → Ends P (leave_upload s folder name ran).0
  unfolding leave_upload
  leave_upload-Ends P folder name (threw what) h = tt
  leave_upload-Ends P folder name (done (result, db)) h = h

  -- Nothing is changed, or the answer is a success.
  abbrev IsWhole : Db → RemoteCommandResult × Db → Type 0
  IsWhole db = IsChange s (Unit {0}) db

  import_slice-Ends :
      (access : UserAccess) (now : ℕ) (command : RemoteCommand) (net : Bool) (folder : Folder)
      (name : Bytes) (db : Db) (read : SliceRead)
      → Ends (IsWhole db) (import_slice s access now command net folder name db read).0
  unfolding import_slice
  import_slice-Ends access now command net folder name db (not_a_slice error) = inl refl
  import_slice-Ends access now command net folder name db (slice_is slice) =
      leave_upload-Ends (IsWhole db) folder name _ (
        if-Ends (IsWhole db) net _ _
          (λ _.
            Ends-mono _ (IsWhole db) (run_net_import s (some access) slice now command db)
              (λ left h. IsChange-mono s _ _ db left (λ _. tt) h)
              (run_net_import-Ends s (some access) slice now command db))
          (λ _.
            Ends-mono _ (IsWhole db) (run_session_import s (some access) slice now command db)
              (λ left h. IsChange-mono s _ _ db left (λ _. tt) h)
              (run_session_import-Ends s (some access) slice now command db)))

  import_file-Ends :
      (access : UserAccess) (now : ℕ) (command : RemoteCommand) (net : Bool) (folder : Folder)
      (name : Bytes) (db : Db) (upload : Option Upload)
      → Ends (IsWhole db) (import_file s access now command net folder name db upload).0
  unfolding import_file
  import_file-Ends access now command net folder name db none = inl refl
  import_file-Ends access now command net folder name db (some upload) =
      elim (Bool-cases (is_over_limit upload.size)) [
        | inl over ↦ rw over (inl refl)
        | inr fits ↦ rw fits (import_slice-Ends access now command net folder name db _)
      ]

  import_named-Ends :
      (access : UserAccess) (now : ℕ) (command : RemoteCommand) (net : Bool) (folder : Folder)
      (db : Db) (name : Option Bytes)
      → Ends (IsWhole db) (import_named s access now command net folder db name).0
  unfolding import_named
  import_named-Ends access now command net folder db none = inl refl
  import_named-Ends access now command net folder db (some name) =
      import_file-Ends access now command net folder name db _

  end_import-unchanged :
      (world : World Db) (left : Left s)
      → Ends (IsWhole world.db) left.0
      → let ran = end_import s program_version failing world left in
        (ran.1.db ≡ world.db) ⊎ (ran.0.exit_status ≡ 0)
  unfolding end_import
  end_import-unchanged world (threw what, folder) h = inl refl
  end_import-unchanged world (done (result, db), folder) (inl same) = inl same
  end_import-unchanged world (done (result, db), folder) (inr success) = inr success.0

  run_import-unchanged :
      (view_only : Bool) (now : ℕ) (command : RemoteCommand) (world : World Db)
      (access : Attempt UserAccess)
      → let ran = run_import s program_version failing view_only now command world access in
        (ran.1.db ≡ world.db) ⊎ (ran.0.exit_status ≡ 0)
  unfolding run_import import_upload
  run_import-unchanged view_only now command world (threw what) = inl refl
  run_import-unchanged view_only now command world (done access) =
      end_import-unchanged world _ (import_named-Ends _ now command _ world.imported world.db _)

  run_kind-failed :
      (kind : RemoteCommandKind) (username : Bytes) (view_only : Bool) (now : ℕ)
      (command : RemoteCommand) (world : World Db)
      → let ran = run_kind s program_version failing kind username view_only now command world in
        (ran.1.db ≡ world.db) ⊎ (ran.0.exit_status ≡ 0)
  unfolding run_kind
  run_kind-failed list_nets username view_only now command world = inl refl
  run_kind-failed export_net username view_only now command world = inl refl
  run_kind-failed export_sessions username view_only now command world = inl refl
  run_kind-failed version username view_only now command world = inl refl
  run_kind-failed discard_upload username view_only now command world = inl refl
  run_kind-failed import_session username view_only now command world =
      run_import-unchanged view_only now command world _
  run_kind-failed import_net username view_only now command world =
      run_import-unchanged view_only now command world _

  -- A command that answers an error, a refusal or a question, or in which something was thrown,
  -- leaves the database as it is.
  pub run_remote_command-failed :
      (command : RemoteCommand) (username : Bytes) (view_only : Bool) (now : ℕ) (world : World Db)
      → let ran =
          run_remote_command s program_version failing command username view_only now world in
        ran.0.exit_status ≢ 0 → ran.1.db ≡ world.db
  unfolding run_remote_command
  run_remote_command-failed command username view_only now world =
      elim (Bool-cases (view_only && is_change command.kind)) [
        | inl stopped ↦ rw stopped (λ _. refl)
        | inr run ↦ rw run (λ failed.
            elim (run_kind-failed command.kind username view_only now command world) [
              | inl same ↦ same
              | inr success ↦ absurd (failed success)
            ])
      ]
