-- ===== src/Classifier.antt =====
-- The document classifier (eyenet/classifier): the regex stage, the PII stage, their aggregation into
-- one tier, and the merge of the language model's advice.
pub mod Redact
pub mod Ruleset
pub mod Presidio
pub mod Verdict
pub mod Aggregate
pub mod Merge
