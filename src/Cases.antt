-- ===== src/Cases.antt =====
-- Cases: their life cycle, their policy, and the audit events of both
-- (eyenet/storage/sqlmodel_repo/cases.py). New ids are drawn from outside; whether the audit database
-- takes a row is an argument, `up`. Scores are in millionths.
pub mod Edits
pub mod Members
pub mod Collaborators
pub mod Following
pub mod Lifecycle
pub mod Joins
pub mod Tiers
use eyenet.Common.{
  ℕ, String, Bool, true, false, not, ◌||◌, Option, none, some, List, [], ◌∷◌, ◌++◌, ltb, length,
  str_eq, or_else, is_some, ◌==◌, if◌then◌else◌,
}
use eyenet.Common.Text.{chars}
use eyenet.Tier.{SensitivityTier, normal}
use eyenet.Storage.Table.{Table, get, update, find_row}
use eyenet.Discovery.Candidates.{RedundancyPolicy}

pub data CaseStatus : Type 0 where
  open_case closed_case archived_case : CaseStatus

pub data AutoJoinPolicy : Type 0 where
  disabled score_threshold score_threshold_with_role_gate : AutoJoinPolicy

pub data CaseSubjectKind : Type 0 where
  observation_subject attachment_subject message_subject actor_subject persona_subject
        linkage_subject :
      CaseSubjectKind

pub data CaseRoleOnCase : Type 0 where
  owner analyst reviewer : CaseRoleOnCase

pub record CaseRow : Type 0 where
  pub title : String
  pub description : Option String
  pub status : CaseStatus
  pub crew_key : Option String
  pub effective_tier : SensitivityTier
  pub created_by_user_id : ℕ
  pub created_at : ℕ
  pub closed_at : Option ℕ
  pub closed_by_user_id : Option ℕ
  pub close_reason : Option String
  pub archived_at : Option ℕ
  pub archived_by_user_id : Option ℕ
  pub archive_reason : Option String
  pub parent_case_id : Option ℕ
  pub seed_root_group_ids : List ℕ
  pub redundancy_policy : RedundancyPolicy
  pub auto_join_policy : AutoJoinPolicy
  pub auto_join_score_threshold : Option ℕ

pub record MemberRow : Type 0 where
  pub case_id : ℕ
  pub subject_kind : CaseSubjectKind
  pub subject_id : ℕ
  pub added_by_user_id : ℕ
  pub added_at : ℕ
  pub add_reason : String
  pub removed_at : Option ℕ
  pub removed_by_user_id : Option ℕ
  pub removal_reason : Option String

pub record CollaboratorRow : Type 0 where
  pub case_id : ℕ
  pub user_id : ℕ
  pub role_on_case : CaseRoleOnCase
  pub granted_by_user_id : ℕ
  pub granted_at : ℕ
  pub revoked_at : Option ℕ
  pub revoked_by_user_id : Option ℕ
  pub revocation_reason : Option String

-- the `case.*` subjects with their payloads
pub data CaseEvent : Type 0 where
  created : (title : String) (created_at : ℕ) → CaseEvent
  updated : (title description : Option (Option String × String)) → CaseEvent
  closed archived : (reason : String) → CaseEvent
  reopened : CaseEvent
  succeeded : (parent_case_id : ℕ) (reason : String) → CaseEvent
  seed_roots_changed : (prior new : List ℕ) → CaseEvent
  member_added member_removed :
      (member_id : ℕ) (subject_kind : CaseSubjectKind) (subject_id : ℕ) (reason : String)
      → CaseEvent
  collaborator_added : (collaborator_id user_id : ℕ) (role : CaseRoleOnCase) → CaseEvent
  collaborator_revoked : (collaborator_id user_id : ℕ) (reason : String) → CaseEvent
  access_denied : (reason : String) → CaseEvent
  tier_changed : (old new : SensitivityTier) → CaseEvent

pub record CaseAudit : Type 0 where
  pub event : CaseEvent
  pub actor : ℕ
  pub subject_id : ℕ
  pub at : ℕ

pub record CaseStore : Type 0 where
  pub cases : Table CaseRow
  pub members : Table MemberRow
  pub collaborators : Table CollaboratorRow
  pub audit : List CaseAudit
  pub syslog : List CaseAudit

-- `CaseError` by its causes, and the failure of the audit append, which is raised again
pub data CaseError : Type 0 where
  case_not_found wrong_status short_title short_reason already_active row_not_found already_ended
        audit_append_failed :
      CaseError

pub data CaseResult (A : Type 0) : Type 0 where
  ok : A → CaseResult A
  err : CaseError → CaseResult A

abbrev pub min_case_reason_len : ℕ
min_case_reason_len = 16

abbrev pub min_title_len : ℕ
min_title_len = 3

abbrev pub is_short : String → ℕ → Bool
is_short s n = ltb (length (chars s)) n

-- `a is b`, on statuses
abbrev pub same_status : CaseStatus → CaseStatus → Bool
same_status open_case open_case = true
same_status closed_case closed_case = true
same_status archived_case archived_case = true
same_status _ _ = false

unfoldable pub emit_case_audit : Bool → CaseAudit → CaseStore → CaseStore
emit_case_audit up row s =
    if up
    then record s { audit = s.audit ++ row ∷ [] }
    else record s { syslog = s.syslog ++ row ∷ [] }

-- The row is returned once its audit row is written.
abbrev pub audited : {A : Type 0} → Bool → A → CaseResult A
audited up row = if up then ok row else err audit_append_failed

-- the commit of a case's row, with the audit event that follows it
unfoldable pub commit_case :
    (up : Bool) (case_id : ℕ) (row : CaseRow) (event : CaseEvent) (actor at : ℕ)
    → CaseStore
    → CaseResult CaseRow × CaseStore
unfolding emit_case_audit
commit_case up case_id row event actor at s = (
  audited up row,
  emit_case_audit up (record { event = event; actor = actor; subject_id = case_id; at = at })
      (record s { cases = update case_id row s.cases }),
)

-- a case as `create_case` writes it
abbrev pub new_case :
    (title : String) (description crew_key : Option String) (user now : ℕ) → CaseRow
new_case title description crew_key user now = record {
  title = title;
  description = description;
  status = open_case;
  crew_key = crew_key;
  effective_tier = normal;
  created_by_user_id = user;
  created_at = now;
  closed_at = none;
  closed_by_user_id = none;
  close_reason = none;
  archived_at = none;
  archived_by_user_id = none;
  archive_reason = none;
  parent_case_id = none;
  seed_root_group_ids = [];
  redundancy_policy = RedundancyPolicy.prefer_single;
  auto_join_policy = disabled;
  auto_join_score_threshold = none;
}

unfoldable pub create_case :
    (up : Bool) (title : String) (description crew_key : Option String) (user fresh now : ℕ)
    → CaseStore
    → CaseResult CaseRow × CaseStore
unfolding emit_case_audit
create_case up title description crew_key user fresh now s =
    let row = new_case title description crew_key user now in
    if is_short title min_title_len then (err short_title, s) else (
      audited up row,
      emit_case_audit up
          (record { event = created title now; actor = user; subject_id = fresh; at = now })
          (record s { cases = s.cases ++ (fresh, row) ∷ [] }),
    )

unfoldable pub get_case_by_crew_key : String → CaseStore → Option (ℕ × CaseRow)
get_case_by_crew_key key s =
    find_row (λ row. elim row.crew_key [ none ↦ false | some k ↦ str_eq k key ]) s.cases

abbrev pub closed_row : (user : ℕ) (reason : String) (now : ℕ) → CaseRow → CaseRow
closed_row user reason now c = record c {
  status = closed_case;
  closed_at = some now;
  closed_by_user_id = some user;
  close_reason = some reason;
}

abbrev pub reopened_row : CaseRow → CaseRow
reopened_row c = record c {
  status = open_case;
  closed_at = none;
  closed_by_user_id = none;
  close_reason = none;
}

abbrev pub archived_row : (user : ℕ) (reason : String) (now : ℕ) → CaseRow → CaseRow
archived_row user reason now c = record c {
  status = archived_case;
  archived_at = some now;
  archived_by_user_id = some user;
  archive_reason = some reason;
}

-- a commit that asks for a status of the case
abbrev pub move_case :
    CaseStatus
    → (up : Bool) (case_id : ℕ) → (CaseRow → CaseRow)
    → CaseEvent
    → (actor at : ℕ) → CaseStore
    → CaseResult CaseRow × CaseStore
move_case from up case_id change event actor at s = elim (get case_id s.cases) [
  | none ↦ (err case_not_found, s)
  | some c ↦
      if same_status c.status from
      then commit_case up case_id (change c) event actor at s
      else (err wrong_status, s)
]

unfoldable pub close_case :
    (up : Bool) (case_id user : ℕ) (reason : String) (now : ℕ)
    → CaseStore
    → CaseResult CaseRow × CaseStore
close_case up case_id user reason now s =
    if is_short reason min_case_reason_len
    then (err short_reason, s)
    else move_case open_case up case_id (closed_row user reason now) (closed reason) user now s

unfoldable pub reopen_case :
    (up : Bool) (case_id user now : ℕ) → CaseStore → CaseResult CaseRow × CaseStore
reopen_case up case_id user now s =
    move_case closed_case up case_id reopened_row reopened user now s

unfoldable pub archive_case :
    (up : Bool) (case_id user : ℕ) (reason : String) (now : ℕ)
    → CaseStore
    → CaseResult CaseRow × CaseStore
archive_case up case_id user reason now s =
    if is_short reason min_case_reason_len
    then (err short_reason, s)
    else move_case closed_case up case_id (archived_row user reason now) (archived reason) user now
        s

abbrev pub successor : (case_id user now : ℕ) → CaseRow → CaseRow
successor case_id user now c = record (new_case c.title c.description none user now) {
  parent_case_id = some case_id;
  seed_root_group_ids = c.seed_root_group_ids;
  redundancy_policy = c.redundancy_policy;
  auto_join_policy = c.auto_join_policy;
  auto_join_score_threshold = c.auto_join_score_threshold;
}

unfoldable pub reopen_archived_case :
    (up : Bool) (case_id user : ℕ) (reason : String) (fresh now : ℕ)
    → CaseStore
    → CaseResult CaseRow × CaseStore
unfolding emit_case_audit
reopen_archived_case up case_id user reason fresh now s = elim (get case_id s.cases) [
  | none ↦
      if is_short reason min_case_reason_len then (err short_reason, s) else (err case_not_found, s)
  | some c ↦
      let row = successor case_id user now c in
      if is_short reason min_case_reason_len
      then (err short_reason, s)
      else if not (same_status c.status archived_case)
      then (err wrong_status, s)
      else (
        audited up row,
        emit_case_audit up
            (record {
              event = succeeded case_id reason;
              actor = user;
              subject_id = fresh;
              at = now;
            })
            (record s { cases = s.cases ++ (fresh, row) ∷ [] }),
      )
]
