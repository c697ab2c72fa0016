-- ===== src/Fleet/Identities.antt =====
-- Collector identities (eyenet/storage/sqlmodel_repo/identities.py). Of a row, the columns stand here
-- that an operation of the fleet reads or changes. The rows that the SQL join of
-- `list_graduating_scouts` reads are two tables here, collectors and memberships.
pub mod Graduation
pub mod Steps
pub mod Leases
pub mod Quarantine
use eyenet.Common.{
  ℕ, String, str_eq, ◌++◌, Bool, true, false, Option, none, some, List, [], ◌∷◌, ltb, leb, ◌==◌,
  ◌&&◌, ◌||◌, not, any, length, keep_if, is_some, map, if◌then◌else◌,
}
use eyenet.Common.Sorting.{sort, str_le}
use eyenet.Storage.Table.{Table, get, update}
use eyenet.Discovery.Candidates.{unless_none}

pub data IdentityRole : Type 0 where
  monitor scout quarantine : IdentityRole

pub data IdentityState : Type 0 where
  available in_use cooling frozen burned : IdentityState

abbrev pub is_scout : IdentityRole → Bool
is_scout scout = true
is_scout monitor = false
is_scout quarantine = false

abbrev pub is_quarantine : IdentityRole → Bool
is_quarantine quarantine = true
is_quarantine monitor = false
is_quarantine scout = false

abbrev pub is_available_state : IdentityState → Bool
is_available_state available = true
is_available_state in_use = false
is_available_state cooling = false
is_available_state frozen = false
is_available_state burned = false

-- `state not in (frozen, burned)`
abbrev pub is_thawed : IdentityState → Bool
is_thawed available = true
is_thawed in_use = true
is_thawed cooling = true
is_thawed frozen = false
is_thawed burned = false

pub record Identity : Type 0 where
  pub name : String
  pub source_id : ℕ
  pub role : IdentityRole
  pub state : IdentityState
  pub graduated_at : Option ℕ
  pub last_used_at : Option ℕ

pub data IdentityReply (A : Type 0) : Type 0 where
  ok : A → IdentityReply A
  not_found : ℕ → IdentityReply A
  resource_in_use : (collectors : ℕ) → IdentityReply A
  name_taken : IdentityReply A

abbrev pub Identities : Type 0
Identities = Table Identity

-- A row that is there is replaced; a missing one is an error.
abbrev pub write_found :
    ℕ → (Identity → Identity) → Option Identity → Identities → IdentityReply Identity × Identities
write_found id f none t = (not_found id, t)
write_found id f (some r) t = (ok (f r), update id (f r) t)

unfoldable pub set_identity_state :
    ℕ → IdentityState → Option ℕ → Identities → IdentityReply Identity × Identities
set_identity_state id state last_used_at t =
    write_found id
      (λ r. record r { state = state; last_used_at = unless_none last_used_at r.last_used_at })
      (get id t) t

unfoldable pub set_identity_role :
    ℕ → IdentityRole → Identities → IdentityReply Identity × Identities
set_identity_role id role t = write_found id (λ r. record r { role = role }) (get id t) t

-- `id` is drawn from outside; names are unique.
unfoldable pub create_identity :
    ℕ
    → (name : String) → (source_id : ℕ) → IdentityRole
    → IdentityState
    → Identities
    → IdentityReply Identity × Identities
create_identity id name source_id role state t =
    let row : Identity = record {
      name = name;
      source_id = source_id;
      role = role;
      state = state;
      graduated_at = none;
      last_used_at = none;
    } in
    if any (λ other. str_eq other.1.name name) t
    then (name_taken, t)
    else (ok row, t ++ (id, row) ∷ [])

-- `CollectorTable.identity_id` under each collector's id
abbrev pub Bindings : Type 0
Bindings = List (ℕ × ℕ)

abbrev pub delete_found :
    ℕ → Bindings → Option Identity → Identities → IdentityReply Unit × Identities
delete_found id collectors none t = (not_found id, t)
delete_found id collectors (some r) t =
    let bound = length (keep_if (λ c. c.1 == id) collectors) in
    if ltb 0 bound
    then (resource_in_use bound, t)
    else (ok tt, keep_if (λ row. not (row.0 == id)) t)

unfoldable pub delete_identity : ℕ → Bindings → Identities → IdentityReply Unit × Identities
delete_identity id collectors t = delete_found id collectors (get id t) t

unfoldable pub graduate_identity : ℕ → ℕ → Identities → IdentityReply Identity × Identities
graduate_identity id now t =
    write_found id (λ r. record r { role = monitor; graduated_at = some now }) (get id t) t

unfoldable pub burn_identity : ℕ → Identities → IdentityReply Identity × Identities
burn_identity id t =
    write_found id (λ r. record r { role = quarantine; state = burned }) (get id t) t

-- the identities that a freeze changes, of one source or of all
abbrev pub is_freezable : Option ℕ → Identity → Bool
is_freezable none r = is_thawed r.state && not (is_quarantine r.role)
is_freezable (some source_id) r =
    is_thawed r.state && not (is_quarantine r.role) && r.source_id == source_id

pub freeze_rows : Option ℕ → Identities → Identities
freeze_rows source_id [] = []
freeze_rows source_id ((k, r) ∷ t) =
    (k, if is_freezable source_id r then record r { state = frozen } else r)
    ∷ freeze_rows source_id t

unfoldable pub freeze_all_identities : Option ℕ → Identities → List ℕ × Identities
unfolding freeze_rows
freeze_all_identities source_id t =
    (map (λ row. row.0) (keep_if (λ row. is_freezable source_id row.1) t), freeze_rows source_id t)

abbrev pub is_free_scout : ℕ → ℕ × Identity → Bool
is_free_scout source_id row =
    row.1.source_id == source_id && is_scout row.1.role && is_available_state row.1.state

abbrev pub name_le : ℕ × Identity → ℕ × Identity → Bool
name_le a b = str_le a.1.name b.1.name

-- `ORDER BY name LIMIT 1`
abbrev pub first_of : List (ℕ × Identity) → Option (ℕ × Identity)
first_of [] = none
first_of (row ∷ rows) = some row

unfoldable pub find_available_scout : ℕ → Identities → Option (ℕ × Identity)
find_available_scout source_id t = first_of (sort name_le (keep_if (is_free_scout source_id) t))

abbrev pub lease_found : Option (ℕ × Identity) → Identities → Option (ℕ × Identity) × Identities
lease_found none t = (none, t)
lease_found (some (id, r)) t =
    let leased = record r { state = in_use } in (some (id, leased), update id leased t)

unfoldable pub lease_scout : ℕ → Identities → Option (ℕ × Identity) × Identities
unfolding find_available_scout
lease_scout source_id t = lease_found (find_available_scout source_id t) t

unfoldable pub has_available_scout : ℕ → Identities → Bool
has_available_scout source_id t = ltb 0 (length (keep_if (is_free_scout source_id) t))

pub record Membership : Type 0 where
  pub collector_id : ℕ
  pub group_id : ℕ
  pub joined_at : ℕ
  pub left_at : Option ℕ

-- a row of the join, for an identity
abbrev pub is_graduating : Bindings → List Membership → ℕ → ℕ × Identity → Bool
is_graduating collectors memberships joined_before row =
    is_scout row.1.role
    && any
        (λ c.
          c.1 == row.0
          && any
              (λ m.
                m.collector_id == c.0 && not (is_some m.left_at) && leb m.joined_at joined_before)
              memberships)
        collectors

unfoldable pub list_graduating_scouts : Bindings → List Membership → ℕ → Identities → List ℕ
list_graduating_scouts collectors memberships joined_before t =
    map (λ row. row.0) (keep_if (is_graduating collectors memberships joined_before) t)
