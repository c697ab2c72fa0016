-- ===== src/Storage.antt =====
-- The repository layer (eyenet/storage): tables, the audit log, and the operations on them.
pub mod Table
pub mod Audit
pub mod Evidence
pub mod Clearance
