-- ===== src/Storage/Evidence.antt =====
-- Tiered evidence rows and their operations: `settle_document_classification`,
-- `set_attachment_classification` and the three `reclassify_…` methods
-- (eyenet/storage/sqlmodel_repo/documents.py, attachments.py, observations.py). The tables carry the
-- check that an override is not below the classifier's tier (eyenet/models/observation.py); a commit
-- that breaks it is refused by the database.
pub mod Monotone
pub mod Outcomes
use eyenet.Common.{
  ℕ, String, Bool, true, false, Option, none, some, List, ltb, leb, length, or_else, if◌then◌else◌,
}
use eyenet.Common.Text.{chars}
use eyenet.Tier.{SensitivityTier, tier_order, same_tier}
use eyenet.Storage.Table.{Table, get, update}
use eyenet.Storage.Audit.{
  AuditSubject, reclassify_rejected, reclassify_document as document_reclassified,
  reclassify_attachment as attachment_reclassified,
  reclassify_observation as observation_reclassified, SubjectKind, document, attachment,
  observation, Origin, would_demote, promoted, AuditRow, AuditLog, build_audit_row, audit_or_warn,
}

-- the columns `classifier_tier` and `operator_tier_override`
pub record Tiers : Type 0 where
  pub classifier_tier : SensitivityTier
  pub operator_tier_override : Option SensitivityTier

-- `row.operator_tier_override or classifier_tier`
abbrev pub effective : Tiers → SensitivityTier
effective t = or_else t.operator_tier_override t.classifier_tier

-- `TIER_MONOTONE_CK`
abbrev pub tier_monotone_ck : Tiers → Bool
tier_monotone_ck t = elim t.operator_tier_override [
  | none ↦ true
  | some o ↦ leb (tier_order t.classifier_tier) (tier_order o)
]

-- The two JSON columns are kept as their text.
pub record DocumentRow : Type 0 where
  pub sha256 : String
  pub doc_kind : Option String
  pub extracted_text : Option String
  pub embedded_meta : String
  pub classification : String
  pub review_required : Bool
  pub ingested_at : ℕ
  pub tiers : Tiers

pub record AttachmentRow : Type 0 where
  pub sha256 : String
  pub tiers : Tiers

pub record ObservationRow : Type 0 where
  pub primitive_name : String
  pub tiers : Tiers

pub record Evidence : Type 0 where
  pub documents : Table DocumentRow
  pub attachments : Table AttachmentRow
  pub observations : Table ObservationRow
  pub log : AuditLog

pub data EvidenceError : Type 0 where
  short_reason not_found would_demote_error integrity_error audit_append_failed : EvidenceError

pub data Result (A : Type 0) : Type 0 where
  ok : A → Result A
  err : EvidenceError → Result A

-- what a settled verdict writes, apart from the tier
pub record Settlement : Type 0 where
  pub tier : SensitivityTier
  pub doc_kind : Option String
  pub extracted_text : Option String
  pub embedded_meta : String
  pub classification : String
  pub review_required : Bool
  pub ingested_at : ℕ

abbrev pub settled : Settlement → DocumentRow → DocumentRow
settled v row = record row {
  doc_kind = v.doc_kind;
  extracted_text = v.extracted_text;
  embedded_meta = v.embedded_meta;
  classification = v.classification;
  review_required = v.review_required;
  ingested_at = v.ingested_at;
  tiers = record row.tiers { classifier_tier = v.tier };
}

pub settle_row : ℕ → Settlement → Option DocumentRow → Evidence → Result Unit × Evidence
settle_row id v none s = (err not_found, s)
settle_row id v (some row) s =
    let new = settled v row in
    if tier_monotone_ck new.tiers
    then (ok tt, record s { documents = update id new s.documents })
    else (err integrity_error, s)

unfoldable pub settle_document_classification : ℕ → Settlement → Evidence → Result Unit × Evidence
unfolding settle_row
settle_document_classification id v s = settle_row id v (get id s.documents) s

pub set_row : ℕ → SensitivityTier → Option AttachmentRow → Evidence → Result Unit × Evidence
set_row id tier none s = (err not_found, s)
set_row id tier (some row) s =
    let new = record row { tiers = record row.tiers { classifier_tier = tier } } in
    if tier_monotone_ck new.tiers
    then (ok tt, record s { attachments = update id new s.attachments })
    else (err integrity_error, s)

unfoldable pub set_attachment_classification :
    ℕ → SensitivityTier → Evidence → Result Unit × Evidence
unfolding set_row
set_attachment_classification id tier s = set_row id tier (get id s.attachments) s

pub record Request : Type 0 where
  pub subject_id : ℕ
  pub new_tier : SensitivityTier
  pub operator_user_id : ℕ
  pub reason : String
  pub grant_id : ℕ
  pub fingerprint : String
  pub viewing_context : Option String
  pub case_refs : List ℕ
  pub at : ℕ
  pub origin : Origin

pub record ReclassifyOutcome : Type 0 where
  pub prior_effective_tier : SensitivityTier
  pub classifier_tier : SensitivityTier
  pub operator_tier_override : Option SensitivityTier
  pub effective_tier : SensitivityTier
  pub reclassified_at : ℕ
  pub audit_event_id : Option ℕ

abbrev pub min_reason_len : ℕ
min_reason_len = 16

abbrev pub outcome : Request → (before after : Tiers) → Option ℕ → ReclassifyOutcome
outcome req before after audit_event_id = record {
  prior_effective_tier = effective before;
  classifier_tier = before.classifier_tier;
  operator_tier_override = after.operator_tier_override;
  effective_tier = or_else after.operator_tier_override before.classifier_tier;
  reclassified_at = req.at;
  audit_event_id = audit_event_id;
}

-- One kind of evidence: how its audit rows are named, its row's columns, and the write of an override.
pub record Subject : Type 0 where
  pub kind : SubjectKind
  pub event : AuditSubject
  pub row : Option (Tiers × Option String)
  pub write : Tiers → Evidence

abbrev pub rejection : Request → SubjectKind → Option String → Tiers → ℕ → AuditRow
rejection req kind content_hash before audit_id =
    build_audit_row audit_id reclassify_rejected (some req.operator_user_id) kind req.subject_id
      (would_demote content_hash req.new_tier (effective before) req.operator_user_id req.grant_id
        req.reason)
      req.at req.origin

abbrev pub promotion : Request → SubjectKind → AuditSubject → Option String → Tiers → ℕ → AuditRow
promotion req kind event content_hash before audit_id =
    build_audit_row audit_id event (some req.operator_user_id) kind req.subject_id
      (promoted content_hash (effective before) req.new_tier before.classifier_tier
        req.operator_user_id req.grant_id req.reason req.viewing_context req.fingerprint
        req.case_refs)
      req.at req.origin

abbrev pub with_override : Tiers → SensitivityTier → Tiers
with_override t tier = record t { operator_tier_override = some tier }

-- the body of a `reclassify_…` method once its row is read
pub reclassify_found :
    Subject
    → Request
    → ℕ
    → Bool
    → Tiers
    → Option String
    → Evidence
    → Result ReclassifyOutcome × Evidence
unfolding audit_or_warn
reclassify_found subject req audit_id audit_up before content_hash s =
    let after = with_override before req.new_tier in
    let rejected = rejection req subject.kind content_hash before audit_id in
    let accepted = promotion req subject.kind subject.event content_hash before audit_id in
    let written = subject.write after in
    if ltb (tier_order req.new_tier) (tier_order (effective before))
    then (
      err (if audit_up then would_demote_error else audit_append_failed),
      record s { log = audit_or_warn audit_up rejected s.log },
    )
    else if same_tier req.new_tier (effective before)
    then (ok (outcome req before before none), s)
    else if tier_monotone_ck after
    then (
      (if audit_up then ok (outcome req before after (some audit_id)) else err audit_append_failed),
      record written { log = audit_or_warn audit_up accepted written.log },
    )
    else (err integrity_error, s)

pub reclassify : Subject → Request → ℕ → Bool → Evidence → Result ReclassifyOutcome × Evidence
unfolding reclassify_found
reclassify subject req audit_id audit_up s =
    if ltb (length (chars req.reason)) min_reason_len
    then (err short_reason, s)
    else elim subject.row [
      | none ↦ (err not_found, s)
      | some (before, content_hash) ↦
          reclassify_found subject req audit_id audit_up before content_hash s
    ]

abbrev pub document_subject : Request → Evidence → Subject
document_subject req s = record {
  kind = document;
  event = document_reclassified;
  row = elim (get req.subject_id s.documents) [
    | none ↦ none
    | some r ↦ some (r.tiers, some r.sha256)
  ];
  write = λ t. elim (get req.subject_id s.documents) [
    | none ↦ s
    | some r ↦ record s { documents = update req.subject_id (record r { tiers = t }) s.documents }
  ];
}

abbrev pub attachment_subject : Request → Evidence → Subject
attachment_subject req s = record {
  kind = attachment;
  event = attachment_reclassified;
  row = elim (get req.subject_id s.attachments) [
    | none ↦ none
    | some r ↦ some (r.tiers, some r.sha256)
  ];
  write = λ t. elim (get req.subject_id s.attachments) [
    | none ↦ s
    | some r ↦ record s {
      attachments = update req.subject_id (record r { tiers = t }) s.attachments;
    }
  ];
}

abbrev pub observation_subject : Request → Evidence → Subject
observation_subject req s = record {
  kind = observation;
  event = observation_reclassified;
  row = elim (get req.subject_id s.observations) [ none ↦ none | some r ↦ some (r.tiers, none) ];
  write = λ t. elim (get req.subject_id s.observations) [
    | none ↦ s
    | some r ↦ record s {
      observations = update req.subject_id (record r { tiers = t }) s.observations;
    }
  ];
}

unfoldable pub reclassify_document :
    Request → ℕ → Bool → Evidence → Result ReclassifyOutcome × Evidence
unfolding reclassify
reclassify_document req audit_id audit_up s =
    reclassify (document_subject req s) req audit_id audit_up s

unfoldable pub reclassify_attachment :
    Request → ℕ → Bool → Evidence → Result ReclassifyOutcome × Evidence
unfolding reclassify
reclassify_attachment req audit_id audit_up s =
    reclassify (attachment_subject req s) req audit_id audit_up s

unfoldable pub reclassify_observation :
    Request → ℕ → Bool → Evidence → Result ReclassifyOutcome × Evidence
unfolding reclassify
reclassify_observation req audit_id audit_up s =
    reclassify (observation_subject req s) req audit_id audit_up s
