-- ===== src/Tests.antt =====
-- The theorems at concrete inputs, and runs of the definitions.
pub mod Remote
pub mod Shelf
pub mod Wire
pub mod Sessions
pub mod Names
mod Commands
pub mod Files
pub mod Radio
pub mod People
