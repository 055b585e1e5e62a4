-- ===== src/Sftp.antt =====
-- src/sftp_paths.cpp, and `SanitizeFilenameComponent` of src/file_export.cpp: which file of an SSH
-- user's two folders a client's path names.
pub mod Confined
pub mod Names
pub mod Quota
use quick_logger.Prelude.{
  ℕ, zero, suc, ◌+◌, ◌-◌, ◌*◌, ◌%◌, ◌^◌, Bool, true, false, not, ◌&&◌, ◌||◌, List, [], ◌∷◌, ◌++◌,
  Option, none, some, ◌==◌, if◌then◌else◌, ltb, leb, min, Bytes, codes, equal, is_alnum, is_empty,
  length, trim_front, trim_back, is_suffix, split_on,
}

-- `enum class SftpArea` and `struct SftpPath`.
pub data SftpArea : Type 0 where
  root exports imports : SftpArea

pub record SftpPath : Type 0 where
  pub area : SftpArea
  pub name : Bytes

abbrev pub root_path : SftpPath
root_path = record { area = root; name = [] }

unfoldable pub pop_back : List Bytes → List Bytes
pop_back [] = []
pop_back (x ∷ []) = []
pop_back (x ∷ y ∷ xs) = x ∷ pop_back (y ∷ xs)

-- One round of the loop: blank pieces and "." are skipped, ".." goes up (and stays at the top).
unfoldable pub take_part : List Bytes → Bytes → List Bytes
unfolding pop_back equal
take_part parts part =
    if is_empty part || equal part (codes ".")
    then parts
    else if equal part (codes "..")
    then pop_back parts
    else parts ++ part ∷ []

unfoldable pub walk : List Bytes → List Bytes → List Bytes
unfolding take_part
walk parts [] = parts
walk parts (part ∷ rest) = walk (take_part parts part) rest

-- The checks behind the loop; `none` is `return false`.
unfoldable pub area_of : Bytes → Option SftpArea
unfolding equal
area_of top =
    if equal top (codes "exports")
    then some exports
    else if equal top (codes "imports")
    then some imports
    else none

unfoldable pub is_hidden : Bytes → Bool
is_hidden [] = false
is_hidden (c ∷ cs) = c == b'.'

-- The pieces below the folder.
unfoldable pub below_folder : SftpArea → List Bytes → Option SftpPath
unfolding is_hidden
below_folder area [] = some (record { area = area; name = [] })
below_folder area (name ∷ []) =
    if is_hidden name then none else some (record { area = area; name = name })
below_folder area (name ∷ more ∷ rest) = none

unfoldable pub in_area : Option SftpArea → List Bytes → Option SftpPath
unfolding below_folder
in_area none rest = none
in_area (some area) rest = below_folder area rest

unfoldable pub locate : List Bytes → Option SftpPath
unfolding in_area area_of
locate [] = some root_path
locate (top ∷ rest) = in_area (area_of top) rest

-- The loop finds the pieces between slashes in order.
unfoldable pub resolve_sftp_path : Bytes → Option SftpPath
unfolding locate walk split_on
resolve_sftp_path client_path = locate (walk [] (split_on b'/' client_path))

unfoldable pub folder_of : SftpArea → Bytes
folder_of root = codes "/"
folder_of exports = codes "/exports"
folder_of imports = codes "/imports"

unfoldable pub with_name : SftpArea → Bytes → Bytes
unfolding folder_of
with_name root name = folder_of root
with_name area [] = folder_of area
with_name area (c ∷ cs) = folder_of area ++ b'/' ∷ c ∷ cs

unfoldable pub sftp_path_string : SftpPath → Bytes
unfolding with_name
sftp_path_string path = with_name path.area path.name

abbrev pub is_safe_char : ℕ → Bool
is_safe_char c = is_alnum c || c == b'.' || c == b'_' || c == b'-'

-- `SanitizeFilenameComponent`, from the flag `last_was_underscore`.
unfoldable pub sanitize_from : Bool → Bytes → Bytes
sanitize_from last_was_underscore [] = []
sanitize_from last_was_underscore (c ∷ cs) =
    let kept = c ∷ sanitize_from false cs in
    let skipped = sanitize_from true cs in
    if is_safe_char c then kept else if not last_was_underscore then b'_' ∷ skipped else skipped

unfoldable pub or_export : Bytes → Bytes
or_export [] = codes "export"
or_export (c ∷ cs) = c ∷ cs

unfoldable pub sanitize_filename_component : Bytes → Bytes
unfolding sanitize_from or_export trim_front trim_back
sanitize_filename_component text =
    or_export (trim_back (λ c. c == b'_') (trim_front (λ c. c == b'_') (sanitize_from false text)))

-- `EndsWith`: the text is longer than the suffix.
unfoldable pub ends_with : Bytes → Bytes → Bool
unfolding is_suffix
ends_with text suffix = ltb (length suffix) (length text) && is_suffix suffix text

unfoldable pub is_allowed_import_name : Bytes → Bool
is_allowed_import_name name =
    (ends_with name (codes ".qlnet") || ends_with name (codes ".qlsession"))
    && not (is_hidden name)
    && equal (sanitize_filename_component name) name

abbrev pub sftp_max_upload_bytes : ℕ
sftp_max_upload_bytes = 25 * 1024 * 1024

abbrev pub sftp_max_imports_bytes : ℕ
sftp_max_imports_bytes = 100 * 1024 * 1024

-- A file of /imports: whether it is a regular one, and its size unless that cannot be found out.
pub record ImportsFile : Type 0 where
  pub name : Bytes
  pub is_regular : Bool
  pub size : Option ℕ

abbrev pub known_size : Option ℕ → ℕ
known_size none = 0
known_size (some size) = size

-- The loop of `SftpImportsBytesUsed`, with `used`; a folder that cannot be read has no files.
unfoldable pub bytes_used_from : ℕ → List ImportsFile → Bytes → ℕ
bytes_used_from used [] except_name = used
bytes_used_from used (file ∷ files) except_name =
    bytes_used_from
      (if not file.is_regular || equal file.name except_name
        then used
        else (used + known_size file.size) % 2 ^ 64)
      files except_name

unfoldable pub sftp_imports_bytes_used : List ImportsFile → Bytes → ℕ
unfolding bytes_used_from
sftp_imports_bytes_used files except_name = bytes_used_from 0 files except_name

unfoldable pub sftp_upload_limit : ℕ → ℕ
sftp_upload_limit used_bytes =
    if leb sftp_max_imports_bytes used_bytes
    then 0
    else min sftp_max_upload_bytes ((sftp_max_imports_bytes + 2 ^ 64 - used_bytes) % 2 ^ 64)
