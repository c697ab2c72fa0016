-- ===== src/Bus.antt =====
-- The message bus (eyenet/bus).
pub mod Subjects
pub mod Memory
