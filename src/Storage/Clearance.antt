-- ===== src/Storage/Clearance.antt =====
-- Clearance grants (eyenet/storage/sqlmodel_repo/clearance.py, the checks of eyenet/models/clearance.py
-- and the cap of eyenet/storage/errors.py). Times are in microseconds. The database's check on a
-- revocation is that it is not before the grant.
pub mod Grants
pub mod Expiry
use eyenet.Common.{
  ℕ, ◌+◌, ◌-◌, String, Bool, true, false, Option, none, some, List, [], ◌∷◌, ◌++◌, map, ltb, leb,
  ◌==◌, ◌&&◌, not, any, length, keep_if, is_some, if◌then◌else◌,
}
use eyenet.Common.Text.{chars}
use eyenet.Storage.Table.{Table, get, update}
use eyenet.Storage.Audit.{
  ClearanceScope, clearance_granted, clearance_revoked, clearance_expired, system_user, Origin,
  Payload, would_demote, promoted, granted, revoked, expired, AuditSubject, AuditRow, AuditLog,
  build_audit_row, audit_or_warn,
}

pub record Grant : Type 0 where
  pub user_id : ℕ
  pub scope : ClearanceScope
  pub granted_by_user_id : ℕ
  pub reason : String
  pub granted_at : ℕ
  pub expires_at : ℕ
  pub revoked_at : Option ℕ
  pub revoked_by_user_id : Option ℕ
  pub revocation_reason : Option String

pub record Store : Type 0 where
  pub grants : Table Grant
  pub log : AuditLog

pub data ClearanceError : Type 0 where
  not_after too_long short_reason not_found already_expired integrity_error audit_append_failed :
      ClearanceError

pub data Result (A : Type 0) : Type 0 where
  ok : A → Result A
  err : ClearanceError → Result A

abbrev pub min_reason_len : ℕ
min_reason_len = 16

-- ninety days
abbrev pub max_grant_duration : ℕ
max_grant_duration = 7776000000000

-- the arguments of `grant_clearance`
pub record GrantCall : Type 0 where
  pub grantee_user_id : ℕ
  pub granter_user_id : ℕ
  pub scope : ClearanceScope
  pub reason : String
  pub expires_at : ℕ
  pub now : ℕ
  pub origin : Origin

abbrev pub new_grant : GrantCall → Grant
new_grant call = record {
  user_id = call.grantee_user_id;
  scope = call.scope;
  granted_by_user_id = call.granter_user_id;
  reason = call.reason;
  granted_at = call.now;
  expires_at = call.expires_at;
  revoked_at = none;
  revoked_by_user_id = none;
  revocation_reason = none;
}

abbrev pub granted_row : GrantCall → (id audit_id : ℕ) → AuditRow
granted_row call id audit_id =
    build_audit_row audit_id clearance_granted (some call.granter_user_id) system_user
      call.grantee_user_id (granted id call.scope call.expires_at call.granter_user_id call.reason)
      call.now call.origin

unfoldable pub grant_clearance :
    GrantCall → (fresh audit_id : ℕ) → (audit_up : Bool) → Store → Result (ℕ × Grant) × Store
unfolding audit_or_warn
grant_clearance call fresh audit_id audit_up s =
    if leb call.expires_at call.now
    then (err not_after, s)
    else if ltb max_grant_duration (call.expires_at - call.now)
    then (err too_long, s)
    else if ltb (length (chars call.reason)) min_reason_len
    then (err short_reason, s)
    else (
      (if audit_up then ok (fresh, new_grant call) else err audit_append_failed),
      record {
        grants = s.grants ++ (fresh, new_grant call) ∷ [];
        log = audit_or_warn audit_up (granted_row call fresh audit_id) s.log;
      },
    )

-- the arguments of `revoke_clearance`
pub record RevokeCall : Type 0 where
  pub grant_id : ℕ
  pub revoker_user_id : ℕ
  pub reason : String
  pub now : ℕ
  pub origin : Origin

abbrev pub revoked_grant : RevokeCall → Grant → Grant
revoked_grant call g = record g {
  revoked_at = some call.now;
  revoked_by_user_id = some call.revoker_user_id;
  revocation_reason = some call.reason;
}

abbrev pub revoked_row : RevokeCall → Grant → (audit_id : ℕ) → AuditRow
revoked_row call g audit_id =
    build_audit_row audit_id clearance_revoked (some call.revoker_user_id) system_user g.user_id
      (revoked call.grant_id g.scope call.revoker_user_id call.reason) call.now call.origin

unfoldable pub revoke_found :
    RevokeCall → (audit_id : ℕ) → (audit_up : Bool) → Option Grant → Store → Result Grant × Store
unfolding audit_or_warn
revoke_found call audit_id audit_up none s = (err not_found, s)
revoke_found call audit_id audit_up (some g) s =
    let g' = revoked_grant call g in
    if is_some g.revoked_at
    then (ok g, s)
    else if leb g.expires_at call.now
    then (err already_expired, s)
    else if ltb call.now g.granted_at
    then (err integrity_error, s)
    else (
      (if audit_up then ok g' else err audit_append_failed),
      record {
        grants = update call.grant_id g' s.grants;
        log = audit_or_warn audit_up (revoked_row call g audit_id) s.log;
      },
    )

unfoldable pub revoke_clearance :
    RevokeCall → (audit_id : ℕ) → (audit_up : Bool) → Store → Result Grant × Store
unfolding revoke_found
revoke_clearance call audit_id audit_up s =
    if ltb (length (chars call.reason)) min_reason_len
    then (err short_reason, s)
    else revoke_found call audit_id audit_up (get call.grant_id s.grants) s

-- the grants whose expiry is in the audit log
abbrev pub expired_id : Payload → List ℕ
expired_id (expired grant scope at) = grant ∷ []
expired_id (would_demote h a c u g r) = []
expired_id (promoted h p n c u g r v f cs) = []
expired_id (granted g sc e by r) = []
expired_id (revoked g sc by r) = []

-- `_already_expired_grant_ids`, as a list; the rows of that event are those with that payload
pub already_expired_ids : List AuditRow → List ℕ
already_expired_ids [] = []
already_expired_ids (row ∷ rows) = expired_id row.payload ++ already_expired_ids rows

abbrev pub expired_row : Origin → (now audit_id : ℕ) → ℕ × Grant → AuditRow
expired_row origin now audit_id row =
    build_audit_row audit_id clearance_expired none system_user row.1.user_id
      (expired row.0 row.1.scope row.1.expires_at) now origin

-- the loop of `expire_due_clearances`, which ends where the audit does not take a row
pub emit_each :
    Origin
    → (now : ℕ) → (audit_id : ℕ → ℕ) → (audit_up : Bool) → (already : List ℕ) → List (ℕ × Grant)
    → AuditLog
    → Result (List ℕ) × AuditLog
unfolding audit_or_warn
emit_each origin now audit_id audit_up already [] log = (ok [], log)
emit_each origin now audit_id audit_up already (row ∷ rows) log =
    let log' = audit_or_warn audit_up (expired_row origin now (audit_id row.0) row) log in
    let (emitted, last) = emit_each origin now audit_id audit_up already rows log' in
    let skipped = emit_each origin now audit_id audit_up already rows log in
    if any (λ id. row.0 == id) already
    then skipped
    else if audit_up
    then (elim emitted [ ok ids ↦ ok (row.0 ∷ ids) | err e ↦ err e ], last)
    else (err audit_append_failed, log')

abbrev pub is_due : ℕ → ℕ × Grant → Bool
is_due cutoff row = leb row.1.expires_at cutoff && not (is_some row.1.revoked_at)

unfoldable pub expire_due_clearances :
    Origin → (now : ℕ) → (audit_id : ℕ → ℕ) → (audit_up : Bool) → Store → Result (List ℕ) × Store
unfolding emit_each already_expired_ids
expire_due_clearances origin now audit_id audit_up s =
    let (emitted, log) =
      emit_each origin now audit_id audit_up (already_expired_ids s.log.audit)
        (keep_if (is_due now) s.grants) s.log in
    (emitted, record s { log = log })

abbrev pub is_active_for : (user_id at : ℕ) → ℕ × Grant → Bool
is_active_for user_id at row =
    row.1.user_id == user_id && not (is_some row.1.revoked_at) && ltb at row.1.expires_at

unfoldable pub active_clearance_grants_for : (user_id at : ℕ) → Store → List (ℕ × Grant)
active_clearance_grants_for user_id at s = keep_if (is_active_for user_id at) s.grants

abbrev pub effective_clearance_scopes : (user_id at : ℕ) → Store → List ClearanceScope
effective_clearance_scopes user_id at s =
    map (λ row. row.1.scope) (active_clearance_grants_for user_id at s)
