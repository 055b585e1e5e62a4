-- ===== src/Keys.antt =====
-- src/public_key.cpp: the public keys of users of the SSH server.
pub mod Base64
pub mod Data
pub mod Sha256
pub mod Line
