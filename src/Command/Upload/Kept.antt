-- ===== src/Command/Upload/Kept.antt =====
-- When an upload is kept, and when it goes.
use quick_logger.Prelude.{
  ℕ, ◌≡◌, refl, ◌⊎◌, inl, inr, Bool, true, [], ◌∷◌, none, some, ◌==◌, Bool-cases, Bytes, equal, All,
  arith,
}
use quick_logger.Access.{UserAccess}
use quick_logger.Command.Answer.{RemoteCommandResult, make_result, simple}
use quick_logger.Command.Parse.{RemoteCommand}
use quick_logger.Command.Store.{Store, SliceRead, slice_is, not_a_slice}
use quick_logger.Command.Throwing.{Attempt, threw, done}
use quick_logger.Command.Upload.{
  Upload, Folder, find_upload, remove_upload, only_with, upload_name, regular_upload, is_over_limit,
  extension_of, Left, leave_upload, import_slice, import_file, import_named, import_upload,
}

-- Every file of the name can be removed.
abbrev pub IsRemovable : Bytes → Folder → Type 0
IsRemovable name =
    All (λ (file : Bytes × Upload). equal file.0 name ≡ true → file.1.is_removable ≡ true)

find_upload-remove_upload :
    (folder : Folder) (name : Bytes)
    → IsRemovable name folder
    → find_upload (remove_upload folder name) name ≡ none
unfolding find_upload remove_upload
find_upload-remove_upload [] name h = refl
find_upload-remove_upload ((other, upload) ∷ folder) name h = elim (Bool-cases (equal other name)) [
  | inl same ↦ rw (same, h.0 same) (find_upload-remove_upload folder name h.1)
  | inr other_name ↦ rw (other_name, other_name) (find_upload-remove_upload folder name h.1)
]

-- The user is asked.
abbrev pub IsAsked : {Db : Type 0} → Attempt (RemoteCommandResult × Db) → Type 0
IsAsked (threw what) = ⊥
IsAsked (done (result, db)) = result.exit_status ≡ 2

module _ (s : Store) where
  open s use {Db}

  -- The folder is as it was, where the user is asked; else the upload is gone.
  abbrev pub IsLeft : Folder → Bytes → Left s → Type 0
  IsLeft folder name left =
      (IsAsked left.0 × (left.1 ≡ folder))
      ⊎ ((IsAsked left.0 → ⊥) × (find_upload left.1 name ≡ none))

  leave_upload-IsLeft :
      (folder : Folder) (name : Bytes) (ran : Attempt (RemoteCommandResult × Db))
      → IsRemovable name folder
      → IsLeft folder name (leave_upload s folder name ran)
  unfolding leave_upload
  leave_upload-IsLeft folder name (threw what) h =
      inr ((λ a. a), find_upload-remove_upload folder name h)
  leave_upload-IsLeft folder name (done (result, db)) h =
      elim (Bool-cases (result.exit_status == 2)) [
        | inl asked ↦ inl (ground arith, rw asked)
        | inr answered ↦ inr (
          (λ (a : result.exit_status ≡ 2). ground arith),
          rw answered (find_upload-remove_upload folder name h),
        )
      ]

  import_slice-IsLeft :
      (access : UserAccess) (now : ℕ) (command : RemoteCommand) (net : Bool) (folder : Folder)
      (name : Bytes) (db : Db) (read : SliceRead)
      → IsRemovable name folder
      → IsLeft folder name (import_slice s access now command net folder name db read)
  unfolding import_slice
  import_slice-IsLeft access now command net folder name db (not_a_slice error) h =
      inr ((λ a. unfold simple make_result in cc), find_upload-remove_upload folder name h)
  import_slice-IsLeft access now command net folder name db (slice_is slice) h =
      leave_upload-IsLeft folder name _ h

  import_file-IsLeft :
      (access : UserAccess) (now : ℕ) (command : RemoteCommand) (net : Bool) (folder : Folder)
      (name : Bytes) (db : Db) (upload : Upload)
      → IsRemovable name folder
      → IsLeft folder name (import_file s access now command net folder name db (some upload))
  unfolding import_file
  import_file-IsLeft access now command net folder name db upload h =
      elim (Bool-cases (is_over_limit upload.size)) [
        | inl over ↦
            rw over (
              inr ((λ a. unfold simple make_result in cc), find_upload-remove_upload folder name h))
        | inr fits ↦ rw fits (import_slice-IsLeft access now command net folder name db _ h)
      ]

  -- Where an import names a regular file of the import folder and every file of that name may be
  -- removed: if the user is asked to confirm, the folder is left as it is, and else, whatever the
  -- answer and also where something was thrown, the file is gone.
  pub import_upload-IsLeft :
      (access : UserAccess) (now : ℕ) (command : RemoteCommand) (net : Bool) (folder : Folder)
      (db : Db) (name : Bytes) (upload : Upload)
      → only_with (extension_of net) (upload_name command.file) ≡ some name
      → regular_upload folder name ≡ some upload
      → IsRemovable name folder
      → IsLeft folder name (import_upload s access now command net folder db)
  unfolding import_upload import_named
  import_upload-IsLeft access now command net folder db name upload named found h =
      rw (named, found) (import_file-IsLeft access now command net folder name db upload h)
