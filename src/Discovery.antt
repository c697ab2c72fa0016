-- ===== src/Discovery.antt =====
-- The discovery of groups: candidates, their mentions, and which collector may join.
pub mod Candidates
pub mod Lineage
pub mod Approval
pub mod Scores
pub mod Eligibility
