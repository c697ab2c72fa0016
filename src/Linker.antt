-- ===== src/Linker.antt =====
-- The linker's clustering of actors (eyenet/linker).
pub mod Crews
