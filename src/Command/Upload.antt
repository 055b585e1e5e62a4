-- ===== src/Command/Upload.antt =====
-- src/remote_command.cpp, `ImportUpload` and `DiscardUpload`: what becomes of a file in /imports.
pub mod Kept
use quick_logger.Prelude.{
  ℕ, Bool, true, false, not, ◌&&◌, ◌||◌, List, [], ◌∷◌, ◌++◌, Option, none, some, ◌==◌,
  if◌then◌else◌, ltb, Bytes, codes, equal, is_empty, is_suffix,
}
use quick_logger.Prelude.Find.{any}
use quick_logger.Access.{UserAccess}
use quick_logger.Sftp.{
  SftpArea, imports, SftpPath, resolve_sftp_path, is_allowed_import_name, sftp_max_upload_bytes,
}
use quick_logger.Command.Answer.{RemoteCommandResult, simple}
use quick_logger.Command.Parse.{RemoteCommand}
use quick_logger.Command.SessionImport.{run_session_import}
use quick_logger.Command.NetImport.{run_net_import}
use quick_logger.Command.Store.{
  Store, NetSlice, SliceRead, slice_is, not_a_slice, read_net_slice_file, read_session_slice_file,
}
use quick_logger.Command.Throwing.{Attempt, threw, done, ◌>>=◌}

-- A file of the user's import folder: whether it is a regular one, its size unless that cannot be
-- found out, whether it can be removed, and what is in it.
pub record Upload : Type 0 where
  pub is_regular : Bool
  pub size : Option ℕ
  pub is_removable : Bool
  pub contents : Bytes

-- The import folder, by the names of its files.
abbrev pub Folder : Type 0
Folder = List (Bytes × Upload)

unfoldable pub find_upload : Folder → Bytes → Option Upload
find_upload [] name = none
find_upload ((other, upload) ∷ folder) name =
    if equal other name then some upload else find_upload folder name

-- `std::filesystem::remove`; a file that cannot be removed stays.
unfoldable pub remove_upload : Folder → Bytes → Folder
remove_upload [] name = []
remove_upload ((other, upload) ∷ folder) name =
    let rest = remove_upload folder name in
    if equal other name && upload.is_removable then rest else (other, upload) ∷ rest

-- A bare name is in /imports.
unfoldable pub client_path : Bytes → Bytes
client_path file = if not (any (λ c. c == b'/') file) then codes "/imports/" ++ file else file

abbrev pub in_imports : SftpArea → Bool
in_imports imports = true
in_imports _ = false

-- The name of the upload that a path means, if it may be one.
abbrev pub upload_of : Option SftpPath → Option Bytes
upload_of none = none
upload_of (some path) =
    if not (in_imports path.area) || is_empty path.name || not (is_allowed_import_name path.name)
    then none
    else some path.name

unfoldable pub upload_name : Bytes → Option Bytes
upload_name file = upload_of (resolve_sftp_path (client_path file))

abbrev pub only_with : Bytes → Option Bytes → Option Bytes
only_with extension none = none
only_with extension (some name) = if is_suffix extension name then some name else none

-- Of several files of one name only the first would be found: a folder has each once.
unfoldable pub regular_upload : Folder → Bytes → Option Upload
unfolding find_upload
regular_upload folder name = elim (find_upload folder name) [
  | none ↦ none
  | some upload ↦ if upload.is_regular then some upload else none
]

abbrev pub is_over_limit : Option ℕ → Bool
is_over_limit none = true
is_over_limit (some size) = ltb sftp_max_upload_bytes size

abbrev pub extension_of : Bool → Bytes
extension_of net = if net then codes ".qlnet" else codes ".qlsession"

module _ (s : Store) where
  open s use {Db, slices_in}

  -- What a command leaves: its answer and the database, or what was thrown, and the folder.
  abbrev pub Left : Type 0
  Left = Attempt (RemoteCommandResult × Db) × Folder

  -- The file goes unless the user is asked.
  unfoldable pub leave_upload : Folder → Bytes → Attempt (RemoteCommandResult × Db) → Left
  leave_upload folder name (threw what) = (threw what, remove_upload folder name)
  leave_upload folder name (done (result, db)) = (
    done (result, db),
    (if not (result.exit_status == 2) then remove_upload folder name else folder),
  )

  unfoldable pub read_upload : Bool → Upload → SliceRead
  read_upload net upload =
      if net
      then read_net_slice_file (slices_in upload.contents)
      else read_session_slice_file (slices_in upload.contents)

  unfoldable pub import_slice :
      UserAccess → ℕ → RemoteCommand → Bool → Folder → Bytes → Db → SliceRead → Left
  import_slice access now command net folder name db (not_a_slice error) = (
    done (simple (codes "refused") (name ++ codes " can't be read: " ++ error) 4, db),
    remove_upload folder name,
  )
  import_slice access now command net folder name db (slice_is slice) = leave_upload folder name (
      if net
      then run_net_import s (some access) slice now command db
      else run_session_import s (some access) slice now command db)

  unfoldable pub import_file :
      UserAccess → ℕ → RemoteCommand → Bool → Folder → Bytes → Db → Option Upload → Left
  import_file access now command net folder name db none = (
    done (
      simple (codes "refused") (codes "There's no " ++ name ++ codes " in your /imports.") 4,
      db,
    ),
    folder,
  )
  import_file access now command net folder name db (some upload) =
      if is_over_limit upload.size
      then (
        done (simple (codes "refused") (name ++ codes " is over the 25 MB limit.") 4, db),
        remove_upload folder name,
      )
      else import_slice access now command net folder name db (read_upload net upload)

  unfoldable pub import_named :
      UserAccess → ℕ → RemoteCommand → Bool → Folder → Db → Option Bytes → Left
  import_named access now command net folder db none = (
    done (
      simple (codes "refused")
          (codes "The file has to be a " ++ extension_of net ++ codes " in your /imports.") 4,
      db,
    ),
    folder,
  )
  import_named access now command net folder db (some name) =
      import_file access now command net folder name db (regular_upload folder name)

  unfoldable pub import_upload : UserAccess → ℕ → RemoteCommand → Bool → Folder → Db → Left
  import_upload access now command net folder db =
      import_named access now command net folder db
        (only_with (extension_of net) (upload_name command.file))

-- The answer and the folder, behind the checks of `DiscardUpload`.
unfoldable pub discard_file : Folder → Bytes → Option Upload → RemoteCommandResult × Folder
discard_file folder name none =
    (simple (codes "ok") (codes "There was no " ++ name ++ codes " to discard.") 0, folder)
discard_file folder name (some upload) =
    if not upload.is_removable
    then (
      simple (codes "error") (codes "Couldn't discard " ++ name ++ codes ".") 1,
      remove_upload folder name,
    )
    else (
      simple (codes "ok") (codes "Discarded " ++ name ++ codes ".") 0,
      remove_upload folder name,
    )

unfoldable pub discard_named : Folder → Option Bytes → RemoteCommandResult × Folder
discard_named folder none = (
  simple (codes "refused") (codes "The file has to be one of your uploads in /imports.") 4,
  folder,
)
discard_named folder (some name) = discard_file folder name (regular_upload folder name)

-- `DiscardUpload`.
unfoldable pub discard_uploaded : RemoteCommand → Folder → RemoteCommandResult × Folder
discard_uploaded command folder = discard_named folder (upload_name command.file)
