-- ===== src/Tx.antt =====
-- src/tx: the write-ahead log and the recovery from it.
pub mod Crc
pub mod Wal
pub mod Writer
pub mod Recovery
