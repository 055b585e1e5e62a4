-- ===== src/Tests/Files.antt =====
-- Paths, file names, server addresses, command lines and versions.
use quick_logger.Prelude.{
  List, ◌↔◌, [], ◌∷◌, ◌≤◌, ◌≡◌, refl, true, false, some, none, arith, codes, equal, split_on,
  push_char, is_suffix, trim_front, trim_back,
}
use quick_logger.Sftp.{
  sftp_max_upload_bytes, ImportsFile, sftp_imports_bytes_used, SftpPath, exports, resolve_sftp_path,
  sftp_path_string, sanitize_filename_component, is_allowed_import_name, sftp_upload_limit,
  sftp_max_imports_bytes, locate, walk, take_part, pop_back, in_area, below_folder, area_of,
  is_hidden, sanitize_from, or_export, ends_with,
}
use quick_logger.Sftp.Confined.{IsInTree, resolve_sftp_path-IsInTree, resolve_sftp_path_canonical}
use quick_logger.Sftp.Quota.{
  Uploads, no_upload, upload, uploaded, total, larger, AllUpTo, sftp_upload_limit-Uploads,
}
use quick_logger.Command.{
  words_are, split_command_line, split_from, step_outside, step_inside, is_control,
  is_plain_word_character, end_word, finish,
}
use quick_logger.Update.{is_newer_version, version_parts, parts_from, newer_parts, newer}
use quick_logger.Prelude.Find.{starts_with}
use quick_logger.Update.Release.{
  find_part, up_to_quote, between_quotes, find_in, without_v, release_version_from_json,
}
use quick_logger.Update.Order.{AreParts, IsLater, is_newer_version_iff}
use quick_logger.Server.{ServerAddress, parse_server_address, format_server_address}
use quick_logger.Server.RoundTrip.{IsAddress, parse_server_address-format}

abbrev exported : SftpPath
exported = record { area = exports; name = codes "net.csv" }

resolves : resolve_sftp_path (codes "/imports/../exports/./net.csv") ≡ some exported
unfolding resolve_sftp_path locate walk take_part pop_back in_area below_folder area_of is_hidden
    equal split_on push_char
resolves = refl

climbs : resolve_sftp_path (codes "/../../etc/passwd") ≡ none
unfolding resolve_sftp_path locate walk take_part pop_back in_area below_folder area_of is_hidden
    equal split_on push_char
climbs = refl

resolve_sftp_path-IsInTree_example : IsInTree exported
resolve_sftp_path-IsInTree_example =
    resolve_sftp_path-IsInTree (codes "/imports/../exports/./net.csv") resolves

resolve_sftp_path_canonical_example : resolve_sftp_path (sftp_path_string exported) ≡ some exported
resolve_sftp_path_canonical_example =
    resolve_sftp_path_canonical (codes "/imports/../exports/./net.csv") resolves

abbrev old_file : ImportsFile
old_file = record { name = codes "a.qlnet"; is_regular = true; size = some 5 }

abbrev link_file : ImportsFile
link_file = record { name = codes "b.qlnet"; is_regular = false; size = some 7 }

abbrev files_kept : List ImportsFile
files_kept = uploaded (codes "a.qlnet") 20 ∷ uploaded (codes "c.qlnet") 1 ∷ link_file ∷ []

both_arrive : Uploads (old_file ∷ link_file ∷ []) files_kept
unfolding sftp_upload_limit sftp_imports_bytes_used equal
both_arrive =
    upload (uploaded (codes "c.qlnet") 1 ∷ old_file ∷ link_file ∷ []) (codes "a.qlnet") 20
      (upload (old_file ∷ link_file ∷ []) (codes "c.qlnet") 1 no_upload (omega arith)) (omega arith)

sftp_upload_limit-Uploads_example :
    (total files_kept ≤ larger (total (old_file ∷ link_file ∷ [])) sftp_max_imports_bytes)
    × AllUpTo (larger 5 sftp_max_upload_bytes) files_kept
sftp_upload_limit-Uploads_example =
    sftp_upload_limit-Uploads (old_file ∷ link_file ∷ []) files_kept 5 both_arrive (omega arith)
      (omega arith, (omega arith, tt))

allowed : is_allowed_import_name (codes "a.qlnet") ≡ true
unfolding is_allowed_import_name sanitize_filename_component sanitize_from or_export ends_with
    is_suffix equal trim_front trim_back is_hidden
allowed = refl

abbrev home : ServerAddress
home = record { host = codes "ham.example"; port = 2222 }

home-IsAddress : IsAddress home
home-IsAddress = record {
  host_chars =
      (refl, (refl, (refl, (refl, (refl, (refl, (refl, (refl, (refl, (refl, (refl, tt)))))))))));
  host_fits = omega arith;
  port_fits = omega arith;
}

parse_server_address-format_example : parse_server_address (format_server_address home) ≡ some home
parse_server_address-format_example = parse_server_address-format home home-IsAddress

two_words :
    split_command_line (codes "export net.csv") ≡ words_are (codes "export" ∷ codes "net.csv" ∷ [])
unfolding split_command_line split_from step_outside step_inside is_control is_plain_word_character
    end_word finish
two_words = refl

newer_version : is_newer_version (codes "1.10") (codes "1.9.9") ≡ true
unfolding is_newer_version version_parts parts_from newer_parts newer
newer_version = refl

parts_of_version : version_parts (codes "1.10") ≡ some (1 ∷ 10 ∷ [])
unfolding version_parts parts_from
parts_of_version = refl

is_newer_version_iff_example :
    is_newer_version (codes "1.10") (codes "1.9.9") ≡ true
    ↔ AreParts (version_parts (codes "1.10")) (version_parts (codes "1.9.9")) IsLater
is_newer_version_iff_example = is_newer_version_iff (codes "1.10") (codes "1.9.9")

released :
    release_version_from_json (codes "{\"id\": 7, \"tag_name\": \"v1.9.2\", \"name\": \"May\"}")
    ≡ codes "1.9.2"
unfolding release_version_from_json without_v between_quotes find_in find_part up_to_quote
    starts_with
released = refl

not_released : release_version_from_json (codes "{\"tag_name\": null}") ≡ []
unfolding release_version_from_json without_v between_quotes find_in find_part up_to_quote
    starts_with
not_released = refl
