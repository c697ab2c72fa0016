-- ===== src/Api/Permissions.antt =====
-- The scopes of an operator (eyenet/api/auth/_permissions.py): the baseline of the role, the explicit
-- grants and the active clearance grants. A set is a list read by membership.
pub mod Scopes
use eyenet.Common.{ℕ, String, List, [], ◌∷◌, ◌++◌, map}
use eyenet.Storage.Audit.{
  ClearanceScope, read_restricted, read_classified, admin_reclassify, admin_case,
}
use eyenet.Storage.Clearance.{Store, effective_clearance_scopes}

pub data SystemUserRole : Type 0 where
  admin analyst viewer : SystemUserRole

-- `ROLE_BASELINE`
abbrev pub role_baseline : SystemUserRole → List String
role_baseline admin =
    "read:actors" ∷ "read:personas" ∷ "read:linkages" ∷ "read:observations" ∷ "read:audit"
    ∷ "read:graph" ∷ "read:metrics" ∷ "read:cases" ∷ "write:actors" ∷ "write:linkage_decision"
    ∷ "write:persona_decision" ∷ "write:identity" ∷ "write:cases" ∷ "write:documents"
    ∷ "read:sources" ∷ "write:sources" ∷ "read:collectors" ∷ "write:collectors" ∷ "admin:collectors"
    ∷ "read:candidates" ∷ "write:candidates" ∷ "read:groups" ∷ "write:groups" ∷ "stream:linkages"
    ∷ "stream:personas" ∷ "stream:audit" ∷ "stream:control" ∷ "read:incidents" ∷ "write:incidents"
    ∷ "stream:incidents" ∷ "admin:incident_rules" ∷ "admin:users" ∷ "admin:tokens" ∷ []
role_baseline analyst =
    "read:actors" ∷ "read:personas" ∷ "read:linkages" ∷ "read:observations" ∷ "read:audit"
    ∷ "read:graph" ∷ "read:cases" ∷ "write:actors" ∷ "write:linkage_decision"
    ∷ "write:persona_decision" ∷ "write:identity" ∷ "write:cases" ∷ "write:documents"
    ∷ "read:sources" ∷ "write:sources" ∷ "read:collectors" ∷ "write:collectors" ∷ "read:candidates"
    ∷ "write:candidates" ∷ "read:groups" ∷ "write:groups" ∷ "stream:linkages" ∷ "stream:personas"
    ∷ "read:incidents" ∷ "write:incidents" ∷ "stream:incidents" ∷ []
role_baseline viewer =
    "read:actors" ∷ "read:personas" ∷ "read:linkages" ∷ "read:graph" ∷ "read:incidents" ∷ []

-- `scope.value`
abbrev pub scope_text : ClearanceScope → String
scope_text read_restricted = "read:restricted"
scope_text read_classified = "read:classified"
scope_text admin_reclassify = "admin:reclassify"
scope_text admin_case = "admin:case"

-- The explicit grants are given by their scopes, the clearance grants by theirs.
unfoldable pub resolve_effective_scopes :
    SystemUserRole → List String → List ClearanceScope → List String
resolve_effective_scopes role explicit clearance =
    role_baseline role ++ explicit ++ map scope_text clearance

-- the scopes that `AuthCache._load` (eyenet/api/auth/_cache.py) resolves for an active user
unfoldable pub load_scopes : SystemUserRole → List String → (user_id now : ℕ) → Store → List String
load_scopes role explicit user_id now s =
    resolve_effective_scopes role explicit (effective_clearance_scopes user_id now s)
