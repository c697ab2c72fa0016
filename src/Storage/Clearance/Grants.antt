-- ===== src/Storage/Clearance/Grants.antt =====
-- What a grant admits and what a revocation ends (eyenet/storage/sqlmodel_repo/clearance.py).
use eyenet.Common.{
  ℕ, ◌+◌, ◌<◌, ◌≤◌, ◌≡◌, refl, ap, ◌∙◌, ◌≢◌, ◌⊎◌, inl, inr, Bool, true, [], ◌∷◌, ◌++◌, ◌-◌, arith,
  ltb, leb, ◌==◌, ◌&&◌, All, length, is_some, keep_if, keep_if-append, Bool-cases, Option-cases,
  if◌then◌else◌,
}
use eyenet.Common.Text.{chars}
use eyenet.Storage.Table.{Table, get, update, HasDistinctIds, update-only, get-only}
use eyenet.Storage.Clearance.{
  Grant, Store, ClearanceError, not_after, too_long, short_reason, ok, err, GrantCall, new_grant,
  grant_clearance, RevokeCall, revoked_grant, revoke_clearance, is_active_for,
  active_clearance_grants_for, max_grant_duration,
}

-- A grant is refused without any change; or its expiry is after the present and at most ninety days
-- off, its reason has sixteen characters, and at every time the active grants of each user are those
-- from before with, for the grantee and until the expiry, the new one, even where its audit row was
-- lost and the caller sees that failure.
pub grant_clearance_active :
    (call : GrantCall) (fresh audit_id : ℕ) (up : Bool) (s : Store)
    → let (result, s') = grant_clearance call fresh audit_id up s in
      ((s' ≡ s) × (e : ClearanceError) × (result ≡ err e))
      ⊎ ((call.now < call.expires_at)
          × (call.expires_at ≤ call.now + max_grant_duration)
          × (16 ≤ length (chars call.reason))
          × ((user at : ℕ)
              → active_clearance_grants_for user at s'
                ≡ active_clearance_grants_for user at s
                  ++ (if call.grantee_user_id == user && ltb at call.expires_at
                      then (fresh, new_grant call) ∷ []
                      else [])))
unfolding grant_clearance active_clearance_grants_for
grant_clearance_active call fresh audit_id up s = elim (Bool-cases (leb call.expires_at call.now)) [
  | inl early ↦ inl (rw early refl, not_after, rw early refl)
  | inr later ↦ elim (Bool-cases (ltb max_grant_duration (call.expires_at - call.now))) [
    | inl long ↦ inl (rw (later, long) refl, too_long, rw (later, long) refl)
    | inr bounded ↦ elim (Bool-cases (ltb (length (chars call.reason)) 16)) [
      | inl short ↦
          inl (rw (later, bounded, short) refl, short_reason, rw (later, bounded, short) refl)
      | inr reasoned ↦ inr (
        ground (arith, later),
        ground (arith, later, bounded),
        ground (arith, reasoned),
        λ user at.
            rw (later, bounded, reasoned)
              (keep_if-append (is_active_for user at) s.grants ((fresh, new_grant call) ∷ [])
                ∙ ap (λ r. keep_if (is_active_for user at) s.grants ++ r) (ground arith)),
      )
    ]
  ]
]

abbrev IsEnded : Grant → Type 0
IsEnded g = is_some g.revoked_at ≡ true

inactive :
    (id user at : ℕ) (t : Table Grant)
    → All (λ row. row.0 ≡ id → IsEnded row.1) t
    → All (λ row. row.0 ≢ id) (keep_if (is_active_for user at) t)
inactive id user at [] h = tt
inactive id user at (row ∷ t) h = elim (Bool-cases (is_active_for user at row)) [
  | inl y ↦ rw y ((λ e. absurd (ground (arith, y, h.0 e))), inactive id user at t h.1)
  | inr n ↦ rw n (inactive id user at t h.1)
]

-- After a revocation that succeeds, be it the first of its grant or a repeated one, the grant is active
-- for no user at no time.
pub revoke_clearance_ends :
    (call : RevokeCall) (audit_id : ℕ) (up : Bool) (s : Store) (g : Grant)
    → HasDistinctIds s.grants
    → (revoke_clearance call audit_id up s).0 ≡ ok g
    → (user at : ℕ)
    → All
        (λ row. row.0 ≢ call.grant_id)
        (active_clearance_grants_for user at (revoke_clearance call audit_id up s).1)
unfolding revoke_clearance active_clearance_grants_for
revoke_clearance_ends call audit_id up s g d done user at =
    elim (Bool-cases (ltb (length (chars call.reason)) 16)) [
      | inl short ↦ absurd (ground (arith, short, done))
      | inr reasoned ↦ elim (Option-cases (get call.grant_id s.grants)) [
        | inl e ↦ absurd (ground (arith, reasoned, e, done))
        | inr (old, e) ↦ elim (Bool-cases (is_some old.revoked_at)) [
          | inl again ↦
              rw (reasoned, e, again)
                (inactive call.grant_id user at s.grants
                  (get-only IsEnded call.grant_id old s.grants d e again))
          | inr live ↦ elim (Bool-cases (leb old.expires_at call.now)) [
            | inl over ↦ absurd (ground (arith, reasoned, e, live, over, done))
            | inr due ↦ elim (Bool-cases (ltb call.now old.granted_at)) [
              | inl early ↦ absurd (ground (arith, reasoned, e, live, due, early, done))
              | inr fits ↦
                  rw (reasoned, e, live, due, fits)
                    (inactive call.grant_id user at
                      (update call.grant_id (revoked_grant call old) s.grants)
                      (update-only IsEnded call.grant_id (revoked_grant call old) s.grants d refl))
            ]
          ]
        ]
      ]
    ]
