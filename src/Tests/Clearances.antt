-- ===== src/Tests/Clearances.antt =====
-- Clearance grants at concrete inputs.
use eyenet.Common.{
  ◌↔◌, Any, ℕ, ◌+◌, ◌<◌, ◌≤◌, ◌≡◌, refl, ◌≢◌, ◌⊎◌, true, false, none, [], ◌∷◌, ◌++◌, ltb, ◌==◌,
  ◌&&◌, All, keep_if, length, if◌then◌else◌,
}
use eyenet.Common.Text.{chars}
use eyenet.Storage.Table.{get}
use eyenet.Storage.Audit.{Origin, read_restricted}
use eyenet.Storage.Clearance.{
  Store, ClearanceError, ok, err, GrantCall, new_grant, grant_clearance, RevokeCall, revoked_grant,
  revoke_clearance, revoke_found, active_clearance_grants_for, max_grant_duration,
  already_expired_ids, is_due, expire_due_clearances,
}
use eyenet.Api.Permissions.{viewer, scope_text, resolve_effective_scopes, load_scopes}
use eyenet.Api.Permissions.Scopes.{holds, Grants, clearance_scope_iff}
use eyenet.Storage.Clearance.Grants.{grant_clearance_active, revoke_clearance_ends}
use eyenet.Storage.Clearance.Expiry.{is_listed, expire_due_once}

abbrev origin : Origin
origin = record { service = "api"; instance_id = "i1"; trace_id = none; span_id = none }

abbrev call : GrantCall
call = record {
  grantee_user_id = 5;
  granter_user_id = 1;
  scope = read_restricted;
  reason = "covers the incident shift";
  expires_at = 1000;
  now = 100;
  origin = origin;
}

abbrev store : Store
store = record { grants = (8, new_grant call) ∷ []; log = record { audit = []; syslog = [] } }

grant_clearance_active_example :
    let (result, s') = grant_clearance call 9 1 true store in
    ((s' ≡ store) × (e : ClearanceError) × (result ≡ err e))
    ⊎ ((100 < call.expires_at)
        × (call.expires_at ≤ 100 + max_grant_duration)
        × (16 ≤ length (chars call.reason))
        × ((user at : ℕ)
            → active_clearance_grants_for user at s'
              ≡ active_clearance_grants_for user at store
                ++ (if 5 == user && ltb at call.expires_at then (9, new_grant call) ∷ [] else [])))
grant_clearance_active_example = grant_clearance_active call 9 1 true store

abbrev revocation : RevokeCall
revocation = record {
  grant_id = 8;
  revoker_user_id = 1;
  reason = "left the incident shift";
  now = 200;
  origin = origin;
}

revoke_done :
    (revoke_clearance revocation 2 true store).0 ≡ ok (revoked_grant revocation (new_grant call))
unfolding revoke_clearance revoke_found get
revoke_done = refl

revoke_clearance_ends_example :
    All
      (λ row. row.0 ≢ 8)
      (active_clearance_grants_for 5 300 (revoke_clearance revocation 2 true store).1)
revoke_clearance_ends_example =
    revoke_clearance_ends revocation 2 true store (revoked_grant revocation (new_grant call))
      (tt, tt) revoke_done 5 300

expire_due_once_example :
    let s' = (expire_due_clearances origin 2000 (λ id. id + 1) true store).1 in
    All
      (λ row. is_listed (already_expired_ids s'.log.audit) row.0 ≡ true)
      (keep_if (is_due 2000) store.grants)
    × (expire_due_clearances origin 2000 (λ id. id + 2) false s' ≡ (ok [], s'))
expire_due_once_example = expire_due_once origin 2000 (λ id. id + 1) (λ id. id + 2) false store

clearance_scope_iff_example :
    (holds (load_scopes viewer [] 5 300 store) (scope_text read_restricted) ≡ true) ↔ (
      (holds [] (scope_text read_restricted) ≡ true)
      ⊎ Any (Grants 5 300 read_restricted) store.grants)
clearance_scope_iff_example = clearance_scope_iff viewer [] 5 300 store read_restricted

held : holds (load_scopes viewer [] 5 300 store) "read:restricted" ≡ true
unfolding load_scopes resolve_effective_scopes active_clearance_grants_for
held = refl
