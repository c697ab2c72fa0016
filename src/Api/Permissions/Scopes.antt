-- ===== src/Api/Permissions/Scopes.antt =====
-- Where an operator's clearance scopes come from (eyenet/api/auth/_permissions.py, _cache.py).
use eyenet.Common.{
  ℕ, ◌<◌, ◌≡◌, refl, sym, ap, ◌∙◌, ◌↔◌, ◌⊎◌, inl, inr, String, Bool, true, false, none, List, [],
  ◌∷◌, ◌++◌, map, arith, any, ◌||◌, ◌&&◌, str_eq, Any, keep_if, Bool-cases,
}
use eyenet.Storage.Table.{Table}
use eyenet.Storage.Audit.{
  ClearanceScope, read_restricted, read_classified, admin_reclassify, admin_case,
}
use eyenet.Storage.Clearance.{
  Grant, Store, is_active_for, active_clearance_grants_for, effective_clearance_scopes,
}
use eyenet.Api.Permissions.{
  SystemUserRole, admin, analyst, viewer, role_baseline, scope_text, resolve_effective_scopes,
  load_scopes,
}

abbrev pub holds : List String → String → Bool
holds scopes scope = any (str_eq scope) scopes

holds-append : (xs ys : List String) (s : String) → holds (xs ++ ys) s ≡ (holds xs s || holds ys s)
holds-append [] ys s = refl
holds-append (x ∷ xs) ys s = ground (arith, holds-append xs ys s)

-- No role has a clearance scope by itself.
no_baseline :
    (role : SystemUserRole) (c : ClearanceScope) → holds (role_baseline role) (scope_text c) ≡ false
no_baseline admin read_restricted = refl
no_baseline admin read_classified = refl
no_baseline admin admin_reclassify = refl
no_baseline admin admin_case = refl
no_baseline analyst read_restricted = refl
no_baseline analyst read_classified = refl
no_baseline analyst admin_reclassify = refl
no_baseline analyst admin_case = refl
no_baseline viewer read_restricted = refl
no_baseline viewer read_classified = refl
no_baseline viewer admin_reclassify = refl
no_baseline viewer admin_case = refl

-- an unrevoked grant of the scope to the user, before its expiry
abbrev pub Grants : (user_id now : ℕ) → ClearanceScope → ℕ × Grant → Type 0
Grants user_id now c row =
    (row.1.user_id ≡ user_id)
    × (row.1.revoked_at ≡ none)
    × (now < row.1.expires_at)
    × (row.1.scope ≡ c)

scope_text_iff : (c d : ClearanceScope) → (str_eq (scope_text c) (scope_text d) ≡ true) ↔ (d ≡ c)
scope_text_iff read_restricted read_restricted = ground arith
scope_text_iff read_restricted read_classified = ground arith
scope_text_iff read_restricted admin_reclassify = ground arith
scope_text_iff read_restricted admin_case = ground arith
scope_text_iff read_classified read_restricted = ground arith
scope_text_iff read_classified read_classified = ground arith
scope_text_iff read_classified admin_reclassify = ground arith
scope_text_iff read_classified admin_case = ground arith
scope_text_iff admin_reclassify read_restricted = ground arith
scope_text_iff admin_reclassify read_classified = ground arith
scope_text_iff admin_reclassify admin_reclassify = ground arith
scope_text_iff admin_reclassify admin_case = ground arith
scope_text_iff admin_case read_restricted = ground arith
scope_text_iff admin_case read_classified = ground arith
scope_text_iff admin_case admin_reclassify = ground arith
scope_text_iff admin_case admin_case = ground arith

active_iff :
    (user_id now : ℕ) (c : ClearanceScope) (row : ℕ × Grant)
    → ((is_active_for user_id now row && str_eq (scope_text c) (scope_text row.1.scope)) ≡ true)
      ↔ Grants user_id now c row
active_iff user_id now c row =
    let same = scope_text_iff c row.1.scope in
    (
      (λ h. (ground (arith, h), ground (arith, h), ground (arith, h), same.0 (ground (arith, h)))),
      (λ h. ground (arith, h.0, h.1, h.2, same.1 h.3)),
    )

granted_iff :
    (user_id now : ℕ) (c : ClearanceScope) (t : Table Grant)
    → (holds
          (map scope_text (map (λ row. row.1.scope) (keep_if (is_active_for user_id now) t)))
          (scope_text c)
        ≡ true)
      ↔ Any (Grants user_id now c) t
granted_iff user_id now c [] = ((λ h. absurd (ground (arith, h))), (λ h. absurd h))
granted_iff user_id now c (row ∷ t) =
    let ih = granted_iff user_id now c t in
    let here = active_iff user_id now c row in
    elim (Bool-cases (is_active_for user_id now row)) [
      | inr n ↦ rw n (
        (λ h. inr (ih.0 h)),
        (λ h. elim h [ inl g ↦ absurd (ground (arith, n, here.1 g)) | inr r ↦ ih.1 r ]),
      )
      | inl y ↦ rw y (
        (λ h. elim (Bool-cases (str_eq (scope_text c) (scope_text row.1.scope))) [
          | inl e ↦ inl (here.0 (ground (arith, y, e)))
          | inr f ↦ inr (ih.0 (ground (arith, h, f)))
        ]),
        (λ h. elim h [ inl g ↦ ground (arith, here.1 g) | inr r ↦ ground (arith, ih.1 r) ]),
      )
    ]

or-true : (b : Bool) → (b || true) ≡ true
or-true b = ground arith

-- Whatever the role, a clearance scope is among the loaded scopes exactly when it is granted explicitly
-- or an unrevoked clearance grant gives it to the user before its expiry: no role brings it along.
pub clearance_scope_iff :
    (role : SystemUserRole) (explicit : List String) (user_id now : ℕ) (s : Store)
    (c : ClearanceScope)
    → (holds (load_scopes role explicit user_id now s) (scope_text c) ≡ true)
      ↔ ((holds explicit (scope_text c) ≡ true) ⊎ Any (Grants user_id now c) s.grants)
unfolding load_scopes resolve_effective_scopes active_clearance_grants_for
clearance_scope_iff role explicit user_id now s c =
    let given = effective_clearance_scopes user_id now s in
    let split : holds (load_scopes role explicit user_id now s) (scope_text c)
        ≡ (holds explicit (scope_text c) || holds (map scope_text given) (scope_text c)) =
      holds-append (role_baseline role ++ explicit) (map scope_text given) (scope_text c)
      ∙ ap (λ b. b || holds (map scope_text given) (scope_text c))
          (holds-append (role_baseline role) explicit (scope_text c)
            ∙ ap (λ b. b || holds explicit (scope_text c)) (no_baseline role c)) in
    let grants = granted_iff user_id now c s.grants in
    (
      (λ h. elim (Bool-cases (holds explicit (scope_text c))) [
        | inl y ↦ inl y
        | inr n ↦ inr (
            grants.0
              (ap (λ b. b || holds (map scope_text given) (scope_text c)) (sym n) ∙ sym split ∙ h))
      ]),
      (λ h. elim h [
        | inl y ↦ split ∙ ap (λ b. b || holds (map scope_text given) (scope_text c)) y
        | inr g ↦ split ∙ ap (λ b. holds explicit (scope_text c) || b) (grants.1 g) ∙ or-true _
      ]),
    )
