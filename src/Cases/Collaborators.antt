-- ===== src/Cases/Collaborators.antt =====
-- Collaborators of a case (`add_case_collaborator` and `revoke_case_collaborator` of
-- eyenet/storage/sqlmodel_repo/cases.py).
use eyenet.Common.{
  ℕ, String, Bool, not, ◌&&◌, none, some, [], ◌∷◌, ◌++◌, ◌==◌, is_some, if◌then◌else◌,
}
use eyenet.Storage.Table.{get, update, find_row}
use eyenet.Cases.{
  CollaboratorRow, CaseStore, archived_case, same_status, CaseRoleOnCase, collaborator_added,
  collaborator_revoked, case_not_found, wrong_status, short_reason, already_active, row_not_found,
  already_ended, CaseResult, err, is_short, min_case_reason_len, audited, emit_case_audit,
}

abbrev pub is_active_collaborator : (case_id user : ℕ) → CollaboratorRow → Bool
is_active_collaborator case_id user c =
    c.case_id == case_id && c.user_id == user && not (is_some c.revoked_at)

abbrev pub new_collaborator :
    (case_id user : ℕ) → CaseRoleOnCase → (granter now : ℕ) → CollaboratorRow
new_collaborator case_id user role granter now = record {
  case_id = case_id;
  user_id = user;
  role_on_case = role;
  granted_by_user_id = granter;
  granted_at = now;
  revoked_at = none;
  revoked_by_user_id = none;
  revocation_reason = none;
}

unfoldable pub add_case_collaborator :
    (up : Bool) (case_id user : ℕ)
    → CaseRoleOnCase
    → (granter fresh now : ℕ) → CaseStore
    → CaseResult CollaboratorRow × CaseStore
unfolding emit_case_audit
add_case_collaborator up case_id user role granter fresh now s = elim (get case_id s.cases) [
  | none ↦ (err case_not_found, s)
  | some c ↦
      let row = new_collaborator case_id user role granter now in
      if same_status c.status archived_case
      then (err wrong_status, s)
      else if is_some (find_row (is_active_collaborator case_id user) s.collaborators)
      then (err already_active, s)
      else (
        audited up row,
        emit_case_audit up
            (record {
              event = collaborator_added fresh user role;
              actor = granter;
              subject_id = case_id;
              at = now;
            })
            (record s { collaborators = s.collaborators ++ (fresh, row) ∷ [] }),
      )
]

abbrev pub revoked_collaborator :
    (user : ℕ) (reason : String) (now : ℕ) → CollaboratorRow → CollaboratorRow
revoked_collaborator user reason now c = record c {
  revoked_at = some now;
  revoked_by_user_id = some user;
  revocation_reason = some reason;
}

unfoldable pub revoke_case_collaborator :
    (up : Bool) (collaborator_id user : ℕ) (reason : String) (now : ℕ)
    → CaseStore
    → CaseResult CollaboratorRow × CaseStore
unfolding emit_case_audit
revoke_case_collaborator up collaborator_id user reason now s =
    elim (get collaborator_id s.collaborators) [
      | none ↦
          if is_short reason min_case_reason_len
          then (err short_reason, s)
          else (err row_not_found, s)
      | some c ↦
          let row = revoked_collaborator user reason now c in
          if is_short reason min_case_reason_len
          then (err short_reason, s)
          else if is_some c.revoked_at
          then (err already_ended, s)
          else (
            audited up row,
            emit_case_audit up
                (record {
                  event = collaborator_revoked collaborator_id c.user_id reason;
                  actor = user;
                  subject_id = c.case_id;
                  at = now;
                })
                (record s { collaborators = update collaborator_id row s.collaborators }),
          )
    ]
