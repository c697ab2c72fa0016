-- ===== src/Tests.antt =====
-- The properties at concrete inputs, and small runs of the modelled operations.
mod Messaging
mod Stages
mod Evidence
mod Discovering
mod Clearances
mod Limits
pub mod Journals
pub mod Investigations
pub mod Clusters
