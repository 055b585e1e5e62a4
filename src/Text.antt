-- ===== src/Text.antt =====
-- src/text_utils.cpp: ZIP and postal codes, callsigns as they are typed, and place names.
pub mod Postal
pub mod ZipCode
pub mod Typed
pub mod Wildcard
pub mod Place
pub mod Typo
pub mod NetName
use quick_logger.Prelude.{ℕ, List, map, Bytes, to_upper}

unfoldable pub to_upper_ascii : Bytes → Bytes
to_upper_ascii value = map to_upper value
