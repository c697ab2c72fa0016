-- ===== src/Fleet/Identities/Graduation.antt =====
-- The service that graduates and quarantines scouts
-- (eyenet/services/discovery/scout_graduation.py). `graduate_due` lists the identities that are due in
-- one transaction and writes each of them in another: it is a listing and a write of the next
-- identity, between which others may write. The audit rows of the service are not modelled.
use eyenet.Common.{ℕ, ◌-◌, String, Option, none, some, List, [], ◌∷◌, if◌then◌else◌}
use eyenet.Storage.Table.{get}
use eyenet.Discovery.Candidates.{
  joined, parked, same_state, Transition, Store, transition_candidate,
}
use eyenet.Fleet.Identities.{
  Identity, IdentityReply, ok, not_found, resource_in_use, name_taken, Identities, Bindings,
  Membership, list_graduating_scouts, graduate_identity, burn_identity,
}

-- a run of `graduate_due`: the identities that its loop has yet to write, and its `now`
pub record Graduation : Type 0 where
  pub due : List ℕ
  pub now : ℕ

-- `graduate_due` up to its loop; `now - window`, on times that are later than the window is long
unfoldable pub graduate_due :
    (window now : ℕ) → Bindings → List Membership → Identities → Graduation
graduate_due window now collectors memberships t = record {
  due = list_graduating_scouts collectors memberships (now - window) t;
  now = now;
}

-- an error ends the loop
abbrev pub left_after : IdentityReply Identity → List ℕ → List ℕ
left_after (ok r) ids = ids
left_after _ ids = []

-- one turn of the loop of `graduate_due`, whatever the role of the identity is by then
abbrev pub next_due : List ℕ → (now : ℕ) → Identities → Graduation × Identities
next_due [] now t = (record { due = []; now = now }, t)
next_due (id ∷ ids) now t =
    let (reply, t') = graduate_identity id now t in
    (record { due = left_after reply ids; now = now }, t')

unfoldable pub graduate_next : Graduation → Identities → Graduation × Identities
graduate_next g t = next_due g.due g.now t

abbrev pub to_parked : ℕ → String → Transition
to_parked candidate_id reason = record {
  candidate_id = candidate_id;
  to_state = parked;
  reviewed_by = none;
  reviewed_at = none;
  rejection_reason = some reason;
  assigned_collector_id = none;
  resulting_group_id = none;
}

-- the candidate is parked where it is joined
pub park_joined : Option ℕ → String → Store → Store
park_joined none reason s = s
park_joined (some candidate_id) reason s =
    let parked_now = (transition_candidate (to_parked candidate_id reason) s).1 in
    elim (get candidate_id s.candidates) [
      | none ↦ s
      | some c ↦ if same_state c.state joined then parked_now else s
    ]

unfoldable pub quarantine_scout :
    ℕ → String → Option ℕ → Identities → Store → IdentityReply Unit × (Identities × Store)
unfolding park_joined
quarantine_scout identity_id reason candidate_id t s =
    let (reply, t') = burn_identity identity_id t in
    elim reply [
      | ok r ↦ (ok tt, (t', park_joined candidate_id reason s))
      | not_found id ↦ (not_found id, (t', s))
      | resource_in_use n ↦ (resource_in_use n, (t', s))
      | name_taken ↦ (name_taken, (t', s))
    ]
