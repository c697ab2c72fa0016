-- ===== src/Discovery/Eligibility.antt =====
-- The eligibility gate of discovery (eyenet/services/discovery/eligibility.py) and the lineage of groups
-- (`group_lineage`, `reachable_roots_for_collector` of eyenet/storage/sqlmodel_repo/candidates.py). The
-- reason texts of a verdict are left out. A collector's raw `max_auto_join_depth` is what `int` makes of
-- it: no depth is below a negative limit, as none is below 0, so a negative limit is kept as 0.
pub mod Verdicts
use eyenet.Common.{
  ℕ, min, Bool, true, false, Option, none, some, List, [], ◌∷◌, ◌++◌, map, ltb, leb, ◌==◌, ◌&&◌,
  any, not, length, is_empty, find, keep_if, is_some, if◌then◌else◌,
}
use eyenet.Storage.Table.{Table, get, find_row, rows_where}
use eyenet.Discovery.Candidates.{
  Candidate, Mention, Case, Store, RedundancyPolicy, prefer_single, prefer_dual, required_dual,
}
use eyenet.Discovery.Lineage.{is_in, mentions_of, present, resolve_case_for_candidate}
use eyenet.Fleet.Identities.{Identities, Membership, has_available_scout}

pub data RawDepth : Type 0 where
  absent unreadable : RawDepth
  depth : ℕ → RawDepth

pub record Fleet : Type 0 where
  pub collectors : Table RawDepth
  pub memberships : List Membership
  pub identities : Identities

pub data EligibilityResult : Type 0 where
  ok skip_dual_cover no_reachable_root over_depth no_scout_available : EligibilityResult

pub data Verdict (A : Type 0) : Type 0 where
  verdict : A → Verdict A
  candidate_not_found collector_not_found : Verdict A

abbrev pub max_auto_join_depth : RawDepth → ℕ
max_auto_join_depth absent = 2
max_auto_join_depth unreadable = 2
max_auto_join_depth (depth n) = n

-- `m.seed_root_id is not None and m.seed_root_id in reachable_roots`
abbrev pub is_rooted_in : List ℕ → Mention → Bool
is_rooted_in roots m = elim m.seed_root_id [ none ↦ false | some root ↦ is_in root roots ]

-- `min` of a first value and the rest
pub min_from : ℕ → List ℕ → ℕ
min_from n [] = n
min_from n (x ∷ xs) = min_from (min n x) xs

abbrev pub policy_of : Option Case → RedundancyPolicy
policy_of none = prefer_single
policy_of (some c) = c.redundancy_policy

-- gate 1: the group has active members, and the policy allows no more
abbrev pub is_covered : RedundancyPolicy → ℕ → Bool
is_covered prefer_single active = ltb 0 active
is_covered prefer_dual active = ltb 0 active && leb 2 active
is_covered required_dual active = false

-- gate 2, on the depths of the mentions that a reachable root leads to
pub depth_gate : List ℕ → ℕ → EligibilityResult
unfolding min_from
depth_gate [] max_depth = no_reachable_root
depth_gate (d ∷ depths) max_depth = if leb max_depth (min_from d depths) then over_depth else ok

-- `_evaluate`
unfoldable pub evaluate : List Mention → RawDepth → Option Case → ℕ → List ℕ → EligibilityResult
unfolding depth_gate
evaluate mentions collector case active roots =
    if is_covered (policy_of case) active
    then skip_dual_cover
    else depth_gate (map (λ m. m.depth_from_root) (keep_if (is_rooted_in roots) mentions))
        (max_auto_join_depth collector)

-- the active members of a candidate's group, if it has one
abbrev pub active_count : Option ℕ → List Membership → ℕ
active_count none memberships = 0
active_count (some group_id) memberships =
    length (keep_if (λ m. not (is_some m.left_at) && m.group_id == group_id) memberships)

-- the groups that some case registers as seed roots
pub all_roots : List Case → List ℕ
all_roots [] = []
all_roots (c ∷ cases) = c.seed_root_group_ids ++ all_roots cases

unfoldable pub reachable_roots_for_collector : ℕ → Store → List Membership → List ℕ
unfolding all_roots
reachable_roots_for_collector collector_id s memberships =
    present (
      map (λ m. m.seed_root_id)
        (rows_where (λ m. m.observed_by_collector_id == collector_id) s.mentions))
    ++ keep_if (λ g. is_in g (all_roots s.cases))
        (map (λ m. m.group_id)
          (keep_if (λ m. m.collector_id == collector_id && not (is_some m.left_at)) memberships))

-- gate 3: a scout is asked for only where the other gates pass
abbrev pub with_scout : EligibilityResult → Bool → EligibilityResult
with_scout ok has_scout = if has_scout then ok else no_scout_available
with_scout skip_dual_cover has_scout = skip_dual_cover
with_scout no_reachable_root has_scout = no_reachable_root
with_scout over_depth has_scout = over_depth
with_scout no_scout_available has_scout = no_scout_available

-- the verdict on one collector, from what both entry points read
abbrev pub verdict_on : ℕ → Candidate → Store → Fleet → ℕ → RawDepth → EligibilityResult
verdict_on candidate_id candidate s fleet collector_id collector =
    with_scout
      (evaluate (mentions_of candidate_id s) collector (resolve_case_for_candidate candidate_id s)
        (active_count candidate.resulting_group_id fleet.memberships)
        (reachable_roots_for_collector collector_id s fleet.memberships))
      (has_available_scout candidate.source_id fleet.identities)

abbrev pub on_collector :
    ℕ → Candidate → Store → Fleet → ℕ → Option RawDepth → Verdict EligibilityResult
on_collector candidate_id candidate s fleet collector_id none = collector_not_found
on_collector candidate_id candidate s fleet collector_id (some collector) =
    verdict (verdict_on candidate_id candidate s fleet collector_id collector)

unfoldable pub collector_eligibility : ℕ → ℕ → Store → Fleet → Verdict EligibilityResult
collector_eligibility candidate_id collector_id s fleet = elim (get candidate_id s.candidates) [
  | none ↦ candidate_not_found
  | some candidate ↦
      on_collector candidate_id candidate s fleet collector_id (get collector_id fleet.collectors)
]

unfoldable pub eligibility_for_candidate :
    ℕ → Store → Fleet → Verdict (List (ℕ × EligibilityResult))
eligibility_for_candidate candidate_id s fleet = elim (get candidate_id s.candidates) [
  | none ↦ candidate_not_found
  | some candidate ↦
      verdict (
        map (λ row. (row.0, verdict_on candidate_id candidate s fleet row.0 row.1))
          fleet.collectors)
]

-- the first of the mentions with the least depth
pub shallowest : Mention → List Mention → Mention
shallowest best [] = best
shallowest best (m ∷ ms) =
    shallowest (if ltb m.depth_from_root best.depth_from_root then m else best) ms

abbrev pub lineage_of : List Mention → Option ℕ × ℕ
lineage_of [] = (none, 0)
lineage_of (m ∷ ms) = let best = shallowest m ms in (best.seed_root_id, best.depth_from_root)

abbrev pub discovered_lineage : Option (ℕ × Candidate) → Store → Option ℕ × ℕ
discovered_lineage none s = (none, 0)
discovered_lineage (some (id, c)) s =
    lineage_of (keep_if (λ m. is_some m.seed_root_id) (mentions_of id s))

abbrev pub results_in : ℕ → Candidate → Bool
results_in group_id c = elim c.resulting_group_id [ none ↦ false | some g ↦ g == group_id ]

unfoldable pub group_lineage : ℕ → Store → Option ℕ × ℕ
unfolding shallowest
group_lineage group_id s =
    if any (λ (c : Case). is_in group_id c.seed_root_group_ids) s.cases
    then (some group_id, 0)
    else discovered_lineage (find_row (results_in group_id) s.candidates) s
