-- ===== src/Tests/Discovering.antt =====
-- Candidates, eligibility and scouts at concrete inputs.
use eyenet.Common.{
  ℕ, ◌+◌, ◌≡◌, refl, ◌≢◌, ◌↔◌, String, true, false, none, some, List, [], ◌∷◌, arith, All, is_some,
  ap,
}
use eyenet.Common.Sorting.{str_le, str_lt}
use eyenet.Storage.Table.{get, update}
use eyenet.Discovery.Candidates.{
  CandidateState, joining, joined, requested, Candidate, new_candidate, mention_of, Store, Sighting,
  Transition, Claim, Case, prefer_dual, claim_candidate_transition, claim_found,
}
use eyenet.Discovery.Candidates.Mentions.{claim_won_once}
use eyenet.Discovery.Approval.{
  mention, transition, score, run, IsUnreviewedIn, joining_needs_approval,
}
use eyenet.Discovery.Lineage.{mentions_of, resolve_case_for_candidate}
use eyenet.Discovery.Eligibility.{
  depth, Fleet, verdict, EligibilityResult, collector_eligibility, is_covered, policy_of,
  active_count, reachable_roots_for_collector,
}
use eyenet.Discovery.Eligibility.Verdicts.{HasShallow, collector_eligibility_iff}
use eyenet.Fleet.Identities.{
  Identity, Bindings, Membership, monitor, graduate_identity, burn_identity, list_graduating_scouts,
  scout, available, in_use, burned, Identities, find_available_scout, lease_scout, is_free_scout,
}
use eyenet.Fleet.Identities.Leases.{lease_scout_first}
use eyenet.Fleet.Identities.Graduation.{graduate_due, graduate_next}
use eyenet.Fleet.Identities.Steps
use eyenet.Fleet.Identities.Steps.{
  Roster, Step, set_state, set_role, burn, freeze, lease, list_due, graduate, retire,
}
use eyenet.Fleet.Identities.Quarantine.{IsQuarantined, quarantine_scout_final}

abbrev sighting : Sighting
sighting = record {
  source_id = 1;
  platform_groupid = "-1001";
  observed_by_collector_id = 4;
  observed_in_group_id = 20;
  seed_root_id = some 20;
  depth_from_root = 1;
  mention_evidence_ref = "telegram:20:7";
  mention_kind = "link";
  mentioned_at_source = 90;
  mentioned_at_ingest = 100;
  mentioning_actor_id = 30;
  mentioning_actor_role_signal = none;
  kind_hint = none;
  display_name_hint = some "a group";
}

abbrev found : Candidate
found = new_candidate 1 "-1001" none none 50 false

abbrev seeded : Case
seeded = record {
  created_at = 1;
  seed_root_group_ids = 20 ∷ [];
  redundancy_policy = prefer_dual;
  auto_join_score_threshold = some 2;
}

abbrev store : Store
store = record {
  candidates = (7, found) ∷ [];
  mentions = (3, mention_of sighting 7) ∷ [];
  cases = seeded ∷ [];
}

abbrev move : CandidateState → Transition
move to = record {
  candidate_id = 7;
  to_state = to;
  reviewed_by = some "op";
  reviewed_at = some 120;
  rejection_reason = none;
  assigned_collector_id = none;
  resulting_group_id = none;
}

-- scores that count groups and actors once each
abbrev plain_sum : ℕ → ℕ → ℕ
plain_sum groups actors = groups + actors

joining_needs_approval_example :
    IsUnreviewedIn 7
      (run plain_sum
        (mention sighting 8 9 ∷ score 7 ∷ transition (move joining) ∷ [])
        store).candidates
joining_needs_approval_example =
    joining_needs_approval plain_sum 7
      (mention sighting 8 9 ∷ score 7 ∷ transition (move joining) ∷ []) store ((λ e. refl), tt)
      (tt, (tt, (refl, tt)))

abbrev confirm : Claim
confirm = record {
  candidate_id = 7;
  from_state = requested;
  to_state = joined;
  resulting_group_id = some 21;
  reviewed_at = none;
}

abbrev waiting : Store
waiting = record {
  candidates = (7, record found { state = requested }) ∷ [];
  mentions = [];
  cases = [];
}

confirm_won : (claim_candidate_transition confirm waiting).0 ≡ true
unfolding claim_candidate_transition claim_found get
confirm_won = refl

claim_won_once_example :
    claim_candidate_transition confirm (claim_candidate_transition confirm waiting).1
    ≡ (false, (claim_candidate_transition confirm waiting).1)
claim_won_once_example = claim_won_once confirm confirm waiting refl refl refl confirm_won

there : get 7 store.candidates ≡ some found
unfolding get
there = refl

abbrev scout_named : String → Identity
scout_named name = record {
  name = name;
  source_id = 1;
  role = scout;
  state = available;
  graduated_at = none;
  last_used_at = none;
}

abbrev scouts : Identities
scouts = (40, scout_named "b") ∷ (41, scout_named "a") ∷ []

abbrev fleet : Fleet
fleet = record { collectors = (4, depth 2) ∷ []; memberships = []; identities = scouts }

bound : get 4 fleet.collectors ≡ some (depth 2)
unfolding get
bound = refl

collector_eligibility_iff_example :
    (collector_eligibility 7 4 store fleet ≡ verdict EligibilityResult.ok) ↔ (
      (is_covered
          (policy_of (resolve_case_for_candidate 7 store))
          (active_count found.resulting_group_id fleet.memberships)
        ≡ false)
      × HasShallow (reachable_roots_for_collector 4 store fleet.memberships) 2 (mentions_of 7 store)
      × (is_some (lease_scout 1 scouts).0 ≡ true))
collector_eligibility_iff_example =
    collector_eligibility_iff 7 4 store fleet found (depth 2) there bound

first_is_a : find_available_scout 1 scouts ≡ some (41, scout_named "a")
unfolding find_available_scout str_le str_lt
first_is_a = refl

lease_scout_first_example :
    (lease_scout 1 scouts ≡ (
      some (41, record (scout_named "a") { state = in_use }),
      update 41 (record (scout_named "a") { state = in_use }) scouts,
    ))
    × (is_free_scout 1 (41, scout_named "a") ≡ true)
    × All (λ row. is_free_scout 1 row ≡ true → str_le "a" row.1.name ≡ true) scouts
lease_scout_first_example = lease_scout_first 1 scouts 41 (scout_named "a") first_is_a

abbrev forty_one : ℕ
forty_one = 41

leased_a : (lease_scout 1 scouts).0 ≡ some (41, record (scout_named "a") { state = in_use })
leased_a = ap (λ r. r.0) lease_scout_first_example.0

leased_b :
    (lease_scout 1 (lease_scout 1 scouts).1).0
    ≡ some (40, record (scout_named "b") { state = in_use })
unfolding lease_scout find_available_scout str_le str_lt update
leased_b = refl

-- the scouts, with no run of `graduate_due` under way
abbrev roster_of : Identities → Roster
roster_of t = record { identities = t; graduation = record { due = []; now = 0 } }

-- the collector 7, which acts as the identity 40, is in a group since 20
abbrev bindings : Bindings
bindings = (7, 40) ∷ []

abbrev joined_at_20 : List Membership
joined_at_20 = record { collector_id = 7; group_id = 20; joined_at = 20; left_at = none } ∷ []

abbrev busy_steps : List Step
busy_steps =
    set_state 40 available none
    ∷ list_due 10 100 bindings joined_at_20
    ∷ freeze none
    ∷ graduate
    ∷ set_role 41 monitor
    ∷ lease 1
    ∷ []

-- the fleet after the identity 40 has been quarantined
abbrev quarantined : Roster
quarantined = Steps.perform (retire 40 "banned" none store) (roster_of scouts)

quarantine_scout_final_example :
    IsQuarantined 40 (Steps.run busy_steps quarantined).identities
    × ((source_id : ℕ) (r : Identity)
        → (lease_scout source_id (Steps.run busy_steps quarantined).identities).0 ≢ some (40, r))
unfolding get
quarantine_scout_final_example =
    quarantine_scout_final 40 "banned" none store busy_steps (roster_of scouts) (scout_named "b")
      (((λ e. absurd (ground (arith, e))), tt), (tt, tt)) refl tt
      (tt, (tt, (tt, (tt, ((λ e. absurd (ground (arith, e))), (tt, tt))))))

-- A burn between the listing of `graduate_due` and its write: the write gives the burned identity the
-- role `monitor`.
burn_undone :
    get 40
      (Steps.run
        (list_due 10 100 bindings joined_at_20 ∷ burn 40 ∷ graduate ∷ [])
        (roster_of scouts)).identities
    ≡ some (record (scout_named "b") { role = monitor; state = burned; graduated_at = some 100 })
unfolding Steps.run Steps.perform graduate_due graduate_next graduate_identity burn_identity
    list_graduating_scouts get update
burn_undone = refl
