-- ===== src/Fleet/Identities/Steps.antt =====
-- The steps of the fleet: the transactions on its identities, in any order
-- (eyenet/storage/sqlmodel_repo/identities.py, eyenet/services/discovery/scout_graduation.py). Of
-- `quarantine_scout`, one of its transactions writes an identity, and that one is the step.
use eyenet.Common.{ℕ, String, Option, List, [], ◌∷◌, is_empty, if◌then◌else◌}
use eyenet.Discovery.Candidates.{Store}
use eyenet.Fleet.Identities.{
  IdentityRole, IdentityState, Identities, Bindings, Membership, set_identity_state, burn_identity,
  freeze_all_identities, lease_scout, create_identity, delete_identity, set_identity_role,
}
use eyenet.Fleet.Identities.Graduation.{Graduation, graduate_due, graduate_next, quarantine_scout}

-- the identities, with the run of `graduate_due` that is under way
pub record Roster : Type 0 where
  pub identities : Identities
  pub graduation : Graduation

-- one step of the fleet: a transaction on the identities, with the arguments of its method
pub data Step : Type 0 where
  create : ℕ → String → ℕ → IdentityRole → IdentityState → Step
  delete : ℕ → Bindings → Step
  set_state : ℕ → IdentityState → Option ℕ → Step
  set_role : ℕ → IdentityRole → Step
  burn : ℕ → Step
  freeze : Option ℕ → Step
  lease : ℕ → Step
  retire : ℕ → String → Option ℕ → Store → Step
  list_due : (window now : ℕ) → Bindings → List Membership → Step
  graduate : Step

-- The service starts a run of `graduate_due` when the one before has ended.
abbrev pub begin_graduation : Graduation → Graduation → Graduation
begin_graduation running listed = if is_empty running.due then listed else running

unfoldable pub perform : Step → Roster → Roster
perform (create id name source_id role state) s = record s {
  identities = (create_identity id name source_id role state s.identities).1;
}
perform (delete id collectors) s = record s {
  identities = (delete_identity id collectors s.identities).1;
}
perform (set_state id state used) s = record s {
  identities = (set_identity_state id state used s.identities).1;
}
perform (set_role id role) s = record s { identities = (set_identity_role id role s.identities).1 }
perform (burn id) s = record s { identities = (burn_identity id s.identities).1 }
perform (freeze source_id) s = record s {
  identities = (freeze_all_identities source_id s.identities).1;
}
perform (lease source_id) s = record s { identities = (lease_scout source_id s.identities).1 }
perform (retire id reason candidate store) s = record s {
  identities = (quarantine_scout id reason candidate s.identities store).1.0;
}
perform (list_due window now collectors memberships) s = record s {
  graduation =
      begin_graduation s.graduation (graduate_due window now collectors memberships s.identities);
}
perform graduate s =
    let (left, t) = graduate_next s.graduation s.identities in
    record { identities = t; graduation = left }

unfoldable pub run : List Step → Roster → Roster
unfolding perform
run [] s = s
run (step ∷ steps) s = run steps (perform step s)
