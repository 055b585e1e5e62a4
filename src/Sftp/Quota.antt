-- ===== src/Sftp/Quota.antt =====
-- `SftpImportsBytesUsed` and `SftpUploadLimit` together: what uploads can make of /imports.
use quick_logger.Prelude.{
  ℕ, ◌+◌, ◌%◌, ◌^◌, ◌≤◌, ◌<◌, ◌≡◌, true, not, ◌||◌, List, [], ◌∷◌, some, if◌then◌else◌, leb, ◌∙◌,
  Bytes, equal, All, arith, Bool-cases, inl, inr,
}
use quick_logger.Sftp.{
  ImportsFile, known_size, bytes_used_from, sftp_imports_bytes_used, sftp_upload_limit,
  sftp_max_upload_bytes, sftp_max_imports_bytes,
}

-- What a file takes up.
abbrev pub weight : ImportsFile → ℕ
weight file = if file.is_regular then known_size file.size else 0

abbrev pub total : List ImportsFile → ℕ
total [] = 0
total (file ∷ files) = weight file + total files

-- The files of other names.
abbrev pub others : Bytes → List ImportsFile → List ImportsFile
others name [] = []
others name (file ∷ files) =
    if equal file.name name then others name files else file ∷ others name files

abbrev pub uploaded : Bytes → ℕ → ImportsFile
uploaded name size = record { name = name; is_regular = true; size = some size }

-- Uploads to /imports one after another, each in place of a file of its name and within the limit in
-- force when it starts: from the files `start` to those in the index.
pub data Uploads (start : List ImportsFile) : List ImportsFile → Type 0 where
  no_upload : Uploads start start
  upload :
      (before : List ImportsFile) (name : Bytes) (size : ℕ)
      → Uploads start before
      → size ≤ sftp_upload_limit (sftp_imports_bytes_used before name)
      → Uploads start (uploaded name size ∷ others name before)

abbrev pub larger : ℕ → ℕ → ℕ
larger a b = if leb a b then b else a

abbrev pub AllUpTo : ℕ → List ImportsFile → Type 0
AllUpTo bound = All (λ file. weight file ≤ bound)

others-le : (name : Bytes) (files : List ImportsFile) → total (others name files) ≤ total files
others-le name [] = omega arith
others-le name (file ∷ files) = ground (arith, others-le name files)

-- `used` behind a file.
abbrev used_behind : ℕ → ImportsFile → Bytes → ℕ
used_behind used file name =
    if not file.is_regular || equal file.name name
    then used
    else (used + known_size file.size) % 2 ^ 64

used_behind_lem :
    (used rest : ℕ) (file : ImportsFile) (name : Bytes)
    → used + (weight file + rest) < 2 ^ 64
    → used_behind used file name ≡ used + (if equal file.name name then 0 else weight file)
used_behind_lem used rest file name h = ground arith

total-others_cons :
    (name : Bytes) (file : ImportsFile) (files : List ImportsFile)
    → total (others name (file ∷ files))
      ≡ (if equal file.name name then 0 else weight file) + total (others name files)
total-others_cons name file files = ground arith

bytes_used_from-total :
    (used : ℕ) (files : List ImportsFile) (name : Bytes)
    → used + total files < 2 ^ 64
    → bytes_used_from used files name ≡ used + total (others name files)
unfolding bytes_used_from
bytes_used_from-total used [] name h = omega arith
bytes_used_from-total used (file ∷ files) name h =
    let e = used_behind_lem used (total files) file name h in
    bytes_used_from-total (used_behind used file name) files name
      (ground (arith, used_behind_lem used (total files) file name))
    ∙ omega (arith, e, total-others_cons name file files)

within_limit :
    (before : List ImportsFile) (name : Bytes) (size : ℕ)
    → total before < 2 ^ 64
    → size ≤ sftp_upload_limit (sftp_imports_bytes_used before name)
    → (size + total (others name before) ≤ larger (total before) sftp_max_imports_bytes)
      × (size ≤ sftp_max_upload_bytes)
unfolding sftp_upload_limit sftp_imports_bytes_used
within_limit before name size h fits =
    ground (arith, bytes_used_from-total 0 before name, others-le name before)

others-AllUpTo :
    (bound : ℕ) (name : Bytes) (files : List ImportsFile)
    → AllUpTo bound files
    → AllUpTo bound (others name files)
others-AllUpTo bound name [] h = tt
others-AllUpTo bound name (file ∷ files) h = elim (Bool-cases (equal file.name name)) [
  | inl same ↦ rw same (others-AllUpTo bound name files h.1)
  | inr other ↦ rw other (h.0, others-AllUpTo bound name files h.1)
]

AllUpTo-mono : (a b : ℕ) (files : List ImportsFile) → a ≤ b → AllUpTo a files → AllUpTo b files
AllUpTo-mono a b [] le h = tt
AllUpTo-mono a b (file ∷ files) le h = (omega (arith, h.0), AllUpTo-mono a b files le h.1)

-- Where the files in /imports take less than 2 ^ 64 bytes and uploads follow one after another,
-- each in place of a file of its name and of a size within the limit in force when it starts, the
-- files take at the end no more than the quota, or than at the start if that was more, and no file
-- takes more than 25 MB, or than a bound of the files at the start if that is more.
pub sftp_upload_limit-Uploads :
    (start after : List ImportsFile) (heaviest : ℕ)
    → Uploads start after
    → total start < 2 ^ 64
    → AllUpTo heaviest start
    → (total after ≤ larger (total start) sftp_max_imports_bytes)
      × AllUpTo (larger heaviest sftp_max_upload_bytes) after
sftp_upload_limit-Uploads start _ heaviest no_upload h light =
    (ground arith, AllUpTo-mono heaviest _ start (ground arith) light)
sftp_upload_limit-Uploads start _ heaviest (upload before name size uploads fits) h light =
    let ih = sftp_upload_limit-Uploads start before heaviest uploads h light in
    let step = within_limit before name size (ground (arith, ih.0)) fits in
    (ground (arith, ih.0, step.0), (ground (arith, step.1), others-AllUpTo _ name before ih.1))
