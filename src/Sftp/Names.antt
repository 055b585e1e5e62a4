-- ===== src/Sftp/Names.antt =====
-- `SanitizeFilenameComponent`, and the names that may be uploaded.
use mathlib.Core.Path.{subst}
use mathlib.Core.Bool.{false≢true}
use quick_logger.Prelude.{
  ℕ, ◌≡◌, refl, inl, inr, Bool, true, false, not, ◌&&◌, ◌||◌, [], ◌∷◌, ◌++◌, some, arith, ◌==◌,
  if◌then◌else◌, Bool-cases, Bytes, codes, equal, equal_iff, and-true, not-true, is_empty, All,
  trim_front, trim_back,
}
use quick_logger.Prelude.Trim.{
  Starts, trim_front-Starts, trim_front_id, trim_back-Starts, trim_back_idem, trim_front-All,
  trim_back-All,
}
use quick_logger.Sftp.{
  imports, is_safe_char, sanitize_from, or_export, sanitize_filename_component, is_hidden,
  ends_with, is_allowed_import_name, resolve_sftp_path, sftp_path_string, with_name, folder_of,
}
use quick_logger.Sftp.Confined.{NoSlash, resolve_sftp_path-sftp_path_string}

abbrev pub IsSafe : Bytes → Type 0
IsSafe = All (λ c. is_safe_char c ≡ true)

abbrev is_bar : ℕ → Bool
is_bar c = c == b'_'

skipped-IsSafe : (bar : Bool) (cs : Bytes) → IsSafe cs → IsSafe (if not bar then b'_' ∷ cs else cs)
skipped-IsSafe true cs h = h
skipped-IsSafe false cs h = (refl, h)

sanitize_from-IsSafe : (bar : Bool) (cs : Bytes) → IsSafe (sanitize_from bar cs)
unfolding sanitize_from
sanitize_from-IsSafe bar [] = tt
sanitize_from-IsSafe bar (c ∷ cs) = elim (Bool-cases (is_safe_char c)) [
  | inl safe ↦ rw safe (safe, sanitize_from-IsSafe false cs)
  | inr odd ↦ rw odd (skipped-IsSafe bar (sanitize_from true cs) (sanitize_from-IsSafe true cs))
]

sanitize_from_id : (cs : Bytes) → IsSafe cs → sanitize_from false cs ≡ cs
unfolding sanitize_from
sanitize_from_id [] h = refl
sanitize_from_id (c ∷ cs) h = rw (h.0, sanitize_from_id cs h.1)

-- Not blank, and neither begun nor ended by an underscore.
abbrev IsTrimmed : Bytes → Type 0
IsTrimmed cs = Starts is_bar cs × (trim_back is_bar cs ≡ cs)

or_export-IsSafe :
    (cs : Bytes)
    → IsSafe cs
    → IsTrimmed cs
    → IsSafe (or_export cs) × (is_empty (or_export cs) ≡ false) × IsTrimmed (or_export cs)
unfolding or_export trim_back
or_export-IsSafe [] h t = ((refl, (refl, (refl, (refl, (refl, (refl, tt)))))), refl, (refl, refl))
or_export-IsSafe (c ∷ cs) h t = (h, refl, t)

sanitized :
    (text : Bytes)
    → let name = sanitize_filename_component text in
      IsSafe name × (is_empty name ≡ false) × IsTrimmed name
unfolding sanitize_filename_component
sanitized text =
    or_export-IsSafe (trim_back is_bar front)
      (trim_back-All is_bar _ front (trim_front-All is_bar _ raw (sanitize_from-IsSafe false text)))
      (trim_back-Starts is_bar front (trim_front-Starts is_bar raw), trim_back_idem is_bar front)
  where
    raw : Bytes
    raw = sanitize_from false text

    front : Bytes
    front = trim_front is_bar raw

sanitize_id :
    (name : Bytes)
    → IsSafe name
    → is_empty name ≡ false
    → IsTrimmed name
    → sanitize_filename_component name ≡ name
unfolding sanitize_filename_component
sanitize_id [] h e t = cc
sanitize_id (c ∷ cs) h e t =
    rw (sanitize_from_id (c ∷ cs) h)
      (rw (trim_front_id is_bar (c ∷ cs) t.0) (rw t.1 (unfold or_export in refl)))

-- What SanitizeFilenameComponent gives has only safe characters and is not blank, and sanitizing
-- it again changes nothing.
pub sanitize_filename_component_idem :
    (text : Bytes)
    → let name = sanitize_filename_component text in
      IsSafe name × (is_empty name ≡ false) × (sanitize_filename_component name ≡ name)
sanitize_filename_component_idem text =
    let (safe, full, trimmed) = sanitized text in (safe, full, sanitize_id _ safe full trimmed)

IsSafe-NoSlash : (name : Bytes) → IsSafe name → NoSlash name
IsSafe-NoSlash [] h = tt
IsSafe-NoSlash (c ∷ cs) h = (ground arith, IsSafe-NoSlash cs h.1)

allowed_tests :
    (name : Bytes)
    → is_allowed_import_name name ≡ true
    → (is_hidden name ≡ false) × (sanitize_filename_component name ≡ name)
unfolding is_allowed_import_name
allowed_tests name h =
    let same = equal (sanitize_filename_component name) name in
    let kind = ends_with name (codes ".qlnet") || ends_with name (codes ".qlsession") in
    let tests = and-true (kind && not (is_hidden name)) same h in
    let shown = (and-true kind (not (is_hidden name)) tests.0).1 in
    (not-true (is_hidden name) shown, (equal_iff _ _).0 tests.1)

-- A name that is allowed for an import resolves, below /imports/, to the file of exactly that
-- name.
pub is_allowed_import_name-resolves :
    (name : Bytes)
    → is_allowed_import_name name ≡ true
    → resolve_sftp_path (codes "/imports/" ++ name) ≡ some (record { area = imports; name = name })
unfolding is_allowed_import_name ends_with
is_allowed_import_name-resolves [] h = absurd (false≢true h)
is_allowed_import_name-resolves (c ∷ cs) h =
    unfold sftp_path_string with_name folder_of in
    resolve_sftp_path-sftp_path_string (record { area = imports; name = c ∷ cs })
      (record {
        no_slash = IsSafe-NoSlash (c ∷ cs) (
            subst IsSafe (allowed_tests (c ∷ cs) h).1
              (sanitize_filename_component_idem (c ∷ cs)).0);
        shown = (allowed_tests (c ∷ cs) h).0;
        root_bare = λ e. cc;
      })
