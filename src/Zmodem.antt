-- ===== src/Zmodem.antt =====
-- src/zmodem_protocol.cpp: the checksums, the frames as they are written, and the reader.
pub mod Crc
pub mod Frame
pub mod Reader
pub mod HeaderReader
pub mod SubpacketReader
pub mod Session
pub mod FileInfo
pub mod Receiver
pub mod Sender
pub mod Batch
pub mod Transfer
