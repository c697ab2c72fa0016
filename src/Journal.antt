-- ===== src/Journal.antt =====
-- Tamper-evident journals: the hash-chained audit log and the file-access journal.
pub mod Chain
pub mod Framing
pub mod FileAccess
