-- ===== src/Discovery/Lineage.antt =====
-- The case that claims a candidate, the score and its auto-queue
-- (eyenet/storage/sqlmodel_repo/cases.py, candidates.py). A set is a list read by membership.
use eyenet.Common.{
  ℕ, min, ◌+◌, map, is_empty, Bool, false, Option, none, some, List, [], ◌∷◌, leb, ◌==◌, any, find,
  if◌then◌else◌,
}
use eyenet.Common.Sorting.{sort}
use eyenet.Storage.Table.{get, update, rows_where}
use eyenet.Discovery.Candidates.{
  discovered, queued, same_state, Breakdown, Candidate, Mention, Case, Store, Result, ok, err,
  not_found, Transition, transition_candidate,
}

-- `x in xs`
abbrev pub is_in : ℕ → List ℕ → Bool
is_in x xs = any (λ y. x == y) xs

-- the values that are there
pub present : List (Option ℕ) → List ℕ
present [] = []
present (none ∷ xs) = present xs
present (some x ∷ xs) = x ∷ present xs

-- `len({…})`
pub count_distinct : List ℕ → ℕ
count_distinct [] = 0
count_distinct (x ∷ xs) = let rest = count_distinct xs in if is_in x xs then rest else 1 + rest

abbrev pub mentions_of : ℕ → Store → List Mention
mentions_of candidate_id s = rows_where (λ m. m.candidate_id == candidate_id) s.mentions

abbrev pub older : Case → Case → Bool
older a b = leb a.created_at b.created_at

-- `seed_roots.intersection(table.seed_root_group_ids)` is not empty
abbrev pub claims : List ℕ → Case → Bool
claims seed_roots c = any (λ g. is_in g seed_roots) c.seed_root_group_ids

unfoldable pub resolve_case_for_candidate : ℕ → Store → Option Case
unfolding present
resolve_case_for_candidate candidate_id s =
    let seed_roots = present (map (λ m. m.seed_root_id) (mentions_of candidate_id s)) in
    if is_empty seed_roots then none else find (claims seed_roots) (sort older s.cases)

-- `1.0`, by its bits
abbrev pub one : ℕ
one = 4607182418800017408

-- `_score_candidate`
abbrev pub score_of : (weigh : ℕ → ℕ → ℕ) → ℕ → ℕ → ℕ × Breakdown
score_of weigh distinct_groups distinct_actors = (
  min one (weigh distinct_groups distinct_actors),
  record {
    distinct_mentioning_groups = distinct_groups;
    distinct_mentioning_actors = distinct_actors;
    score_function_version = 1;
  },
)

abbrev pub scored : (weigh : ℕ → ℕ → ℕ) → List Mention → Candidate → Candidate
scored weigh mentions c =
    let (score, breakdown) =
      score_of weigh (count_distinct (map (λ m. m.observed_in_group_id) mentions))
        (count_distinct (map (λ m. m.mentioning_actor_id) mentions)) in
    record c { score = score; score_breakdown = some breakdown; score_function_version = 1 }

-- `threshold is not None and row.score >= threshold`
abbrev pub reaches : Option ℕ → ℕ → Bool
reaches none score = false
reaches (some threshold) score = leb threshold score

-- `case.auto_join_score_threshold if case is not None else None`
abbrev pub threshold_of : Option Case → Option ℕ
threshold_of none = none
threshold_of (some c) = c.auto_join_score_threshold

abbrev pub to_queue : ℕ → Transition
to_queue candidate_id = record {
  candidate_id = candidate_id;
  to_state = queued;
  reviewed_by = none;
  reviewed_at = none;
  rejection_reason = none;
  assigned_collector_id = none;
  resulting_group_id = none;
}

pub score_found : (weigh : ℕ → ℕ → ℕ) → ℕ → Option Candidate → Store → Result Candidate × Store
unfolding count_distinct
score_found weigh id none s = (err not_found, s)
score_found weigh id (some c) s =
    let row = scored weigh (mentions_of id s) c in
    let s' = record s { candidates = update id row s.candidates } in
    if same_state row.state discovered
    then if reaches (threshold_of (resolve_case_for_candidate id s')) row.score
      then transition_candidate (to_queue id) s'
      else (ok row, s')
    else (ok row, s')

unfoldable pub score_candidate : (weigh : ℕ → ℕ → ℕ) → ℕ → Store → Result Candidate × Store
unfolding score_found
score_candidate weigh id s = score_found weigh id (get id s.candidates) s
