-- ===== src/Storage/Audit.antt =====
-- Audit rows and the rule that a domain write is followed by its audit row
-- (eyenet/storage/sqlmodel_repo/_helpers.py). The append itself is the database's: whether it takes the
-- row is an argument, `audit_up`. Audit ids are drawn from outside.
use eyenet.Common.{ℕ, String, Bool, Option, List, [], ◌∷◌, ◌++◌, if◌then◌else◌}
use eyenet.Tier.{SensitivityTier}

-- the subjects of eyenet/contracts/audit_subjects.py that the modelled operations emit
pub data AuditSubject : Type 0 where
  reclassify_rejected reclassify_document reclassify_attachment reclassify_observation :
      AuditSubject
  clearance_granted clearance_revoked clearance_expired : AuditSubject

pub data SubjectKind : Type 0 where
  document attachment observation system_user : SubjectKind

pub data ClearanceScope : Type 0 where
  read_restricted read_classified admin_reclassify admin_case : ClearanceScope

-- the fields that an audit row takes over from its caller unread
pub record Origin : Type 0 where
  pub service : String
  pub instance_id : String
  pub trace_id : Option String
  pub span_id : Option String

pub data Payload : Type 0 where
  would_demote :
      (content_hash : Option String) (attempted current : SensitivityTier) (user grant : ℕ)
      (reason : String)
      → Payload
  promoted :
      (content_hash : Option String) (prior new classifier : SensitivityTier) (user grant : ℕ)
      (reason : String) (viewing_context : Option String) (fingerprint : String)
      (case_refs : List ℕ)
      → Payload
  granted :
      (grant : ℕ) (scope : ClearanceScope) (expires_at granted_by : ℕ) (reason : String) → Payload
  revoked : (grant : ℕ) (scope : ClearanceScope) (revoked_by : ℕ) (reason : String) → Payload
  expired : (grant : ℕ) (scope : ClearanceScope) (expired_at : ℕ) → Payload

pub record AuditRow : Type 0 where
  pub id : ℕ
  pub event : AuditSubject
  pub origin : Origin
  pub system_user_id : Option ℕ
  pub subject_kind : SubjectKind
  pub subject_id : ℕ
  pub payload : Payload
  pub at : ℕ

-- A warning names the audit row that was lost.
pub record AuditLog : Type 0 where
  pub audit : List AuditRow
  pub syslog : List AuditRow

abbrev pub build_audit_row :
    ℕ → AuditSubject → Option ℕ → SubjectKind → ℕ → Payload → ℕ → Origin → AuditRow
build_audit_row id event actor subject_kind subject_id payload at origin = record {
  id = id;
  event = event;
  origin = origin;
  system_user_id = actor;
  subject_kind = subject_kind;
  subject_id = subject_id;
  payload = payload;
  at = at;
}

-- The row is appended, or a warning is left; the caller re-raises where it was not appended.
unfoldable pub audit_or_warn : Bool → AuditRow → AuditLog → AuditLog
audit_or_warn audit_up row log =
    if audit_up
    then record log { audit = log.audit ++ row ∷ [] }
    else record log { syslog = log.syslog ++ row ∷ [] }
