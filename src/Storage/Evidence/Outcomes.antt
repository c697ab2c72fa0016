-- ===== src/Storage/Evidence/Outcomes.antt =====
-- What `reclassify_document` returns, writes and audits
-- (eyenet/storage/sqlmodel_repo/documents.py).
use eyenet.Storage.Audit.{reclassify_document as document_reclassified}
use eyenet.Storage.Evidence.{Evidence, reclassify_document}
