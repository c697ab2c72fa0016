-- ===== src/Discovery/Candidates.antt =====
-- Group candidates and their state machine (eyenet/storage/sqlmodel_repo/candidates.py, the tables of
-- eyenet/models/candidates.py, `CandidateState` of eyenet/contracts/enums.py). A new row's id is drawn
-- from outside. A score is a float of which the order is used: it stands here by its bit pattern, and
-- the weighted sum `0.3 * groups + 0.2 * actors` is a parameter `weigh`. The queries by a unique
-- constraint's columns select at most one row.
pub mod Lifecycle
pub mod Mentions
use eyenet.Common.{
  ℕ, ◌+◌, min, String, Bool, true, false, Option, none, some, List, [], ◌∷◌, ◌++◌, map, ltb, leb,
  ◌==◌, ◌&&◌, str_eq, any, not, ◌||◌, if◌then◌else◌,
}
use eyenet.Storage.Table.{Table, get, update, find_row, rows_where}

pub data CandidateState : Type 0 where
  discovered queued approved joining joined requested rejected failed parked : CandidateState

abbrev pub state_code : CandidateState → ℕ
state_code discovered = 0
state_code queued = 1
state_code approved = 2
state_code joining = 3
state_code joined = 4
state_code requested = 5
state_code rejected = 6
state_code failed = 7
state_code parked = 8

abbrev pub same_state : CandidateState → CandidateState → Bool
same_state a b = state_code a == state_code b

-- `_ALLOWED`
abbrev pub allowed : CandidateState → List CandidateState
allowed discovered = queued ∷ rejected ∷ []
allowed queued = approved ∷ rejected ∷ []
allowed approved = joining ∷ rejected ∷ []
allowed joining = joined ∷ failed ∷ requested ∷ []
allowed joined = parked ∷ []
allowed requested = joined ∷ failed ∷ parked ∷ []
allowed failed = parked ∷ queued ∷ []
allowed rejected = parked ∷ []
allowed parked = approved ∷ []

-- `to_state in allowed`
abbrev pub is_allowed : CandidateState → CandidateState → Bool
is_allowed from to = any (same_state to) (allowed from)

pub record Breakdown : Type 0 where
  pub distinct_mentioning_groups : ℕ
  pub distinct_mentioning_actors : ℕ
  pub score_function_version : ℕ

pub record Candidate : Type 0 where
  pub source_id : ℕ
  pub platform_groupid : String
  pub kind_hint : Option String
  pub display_name_hint : Option String
  pub state : CandidateState
  pub score : ℕ
  pub score_breakdown : Option Breakdown
  pub score_function_version : ℕ
  pub first_observed_at_ingest : ℕ
  pub last_observed_at_ingest : ℕ
  pub reviewed_at : Option ℕ
  pub reviewed_by : Option String
  pub rejection_reason : Option String
  pub assigned_collector_id : Option ℕ
  pub resulting_group_id : Option ℕ
  pub member_dialog : Bool

pub record Mention : Type 0 where
  pub candidate_id : ℕ
  pub observed_by_collector_id : ℕ
  pub observed_in_group_id : ℕ
  pub seed_root_id : Option ℕ
  pub depth_from_root : ℕ
  pub mention_evidence_ref : String
  pub mention_kind : String
  pub mentioned_at_source : ℕ
  pub mentioned_at_ingest : ℕ
  pub mentioning_actor_id : ℕ
  pub mentioning_actor_role_signal : Option String

pub data RedundancyPolicy : Type 0 where
  prefer_single prefer_dual required_dual : RedundancyPolicy

-- the columns of a case that discovery reads
pub record Case : Type 0 where
  pub created_at : ℕ
  pub seed_root_group_ids : List ℕ
  pub redundancy_policy : RedundancyPolicy
  pub auto_join_score_threshold : Option ℕ

pub record Store : Type 0 where
  pub candidates : Table Candidate
  pub mentions : Table Mention
  pub cases : List Case

pub data CandidateError : Type 0 where
  not_found illegal_transition : CandidateError

pub data Result (A : Type 0) : Type 0 where
  ok : A → Result A
  err : CandidateError → Result A

-- a candidate that was not seen before
abbrev pub new_candidate : ℕ → String → Option String → Option String → ℕ → Bool → Candidate
new_candidate source_id platform_groupid kind title seen_at member_dialog = record {
  source_id = source_id;
  platform_groupid = platform_groupid;
  kind_hint = kind;
  display_name_hint = title;
  state = discovered;
  score = 0;
  score_breakdown = none;
  score_function_version = 1;
  first_observed_at_ingest = seen_at;
  last_observed_at_ingest = seen_at;
  reviewed_at = none;
  reviewed_by = none;
  rejection_reason = none;
  assigned_collector_id = none;
  resulting_group_id = none;
  member_dialog = member_dialog;
}

abbrev pub has_key : ℕ → String → Candidate → Bool
has_key source_id platform_groupid c =
    c.source_id == source_id && str_eq c.platform_groupid platform_groupid

-- the arguments of `record_candidate_mention`
pub record Sighting : Type 0 where
  pub source_id : ℕ
  pub platform_groupid : String
  pub observed_by_collector_id : ℕ
  pub observed_in_group_id : ℕ
  pub seed_root_id : Option ℕ
  pub depth_from_root : ℕ
  pub mention_evidence_ref : String
  pub mention_kind : String
  pub mentioned_at_source : ℕ
  pub mentioned_at_ingest : ℕ
  pub mentioning_actor_id : ℕ
  pub mentioning_actor_role_signal : Option String
  pub kind_hint : Option String
  pub display_name_hint : Option String

abbrev pub mention_of : Sighting → ℕ → Mention
mention_of call candidate_id = record {
  candidate_id = candidate_id;
  observed_by_collector_id = call.observed_by_collector_id;
  observed_in_group_id = call.observed_in_group_id;
  seed_root_id = call.seed_root_id;
  depth_from_root = call.depth_from_root;
  mention_evidence_ref = call.mention_evidence_ref;
  mention_kind = call.mention_kind;
  mentioned_at_source = call.mentioned_at_source;
  mentioned_at_ingest = call.mentioned_at_ingest;
  mentioning_actor_id = call.mentioning_actor_id;
  mentioning_actor_role_signal = call.mentioning_actor_role_signal;
}

-- step 1 of `record_candidate_mention`
pub note_candidate :
    Sighting → ℕ → Option (ℕ × Candidate) → Table Candidate → (ℕ × Candidate) × Table Candidate
note_candidate call fresh none t =
    let c =
      new_candidate call.source_id call.platform_groupid call.kind_hint call.display_name_hint
        call.mentioned_at_ingest false in
    ((fresh, c), t ++ (fresh, c) ∷ [])
note_candidate call fresh (some (id, c)) t =
    let later = record c { last_observed_at_ingest = call.mentioned_at_ingest } in
    if ltb c.last_observed_at_ingest call.mentioned_at_ingest
    then ((id, later), update id later t)
    else ((id, c), t)

abbrev pub has_evidence : ℕ → String → Mention → Bool
has_evidence candidate_id ref m =
    m.candidate_id == candidate_id && str_eq m.mention_evidence_ref ref

-- step 2 of `record_candidate_mention`
pub note_mention :
    Mention → ℕ → Option (ℕ × Mention) → Table Mention → (ℕ × Mention) × Table Mention
note_mention m fresh none t = ((fresh, m), t ++ (fresh, m) ∷ [])
note_mention m fresh (some old) t = (old, t)

unfoldable pub record_candidate_mention :
    Sighting
    → (fresh_candidate fresh_mention : ℕ) → Store
    → ((ℕ × Candidate) × (ℕ × Mention)) × Store
unfolding note_candidate note_mention
record_candidate_mention call fresh_candidate fresh_mention s =
    let (row, candidates) =
      note_candidate call fresh_candidate
        (find_row (has_key call.source_id call.platform_groupid) s.candidates) s.candidates in
    let m = mention_of call row.0 in
    let (mention, mentions) =
      note_mention m fresh_mention (find_row (has_evidence row.0 m.mention_evidence_ref) s.mentions)
        s.mentions in
    ((row, mention), record s { candidates = candidates; mentions = mentions })

-- the arguments of `ensure_candidate`
pub record Dialog : Type 0 where
  pub source_id : ℕ
  pub platform_groupid : String
  pub seen_at : ℕ
  pub kind : Option String
  pub title : Option String
  pub member_dialog : Bool

-- `if title: … = title`
abbrev pub retitled : Option String → Option String → Option String
retitled none old = old
retitled (some title) old = if str_eq title "" then old else some title

-- `if x is not None: … = x`
abbrev pub unless_none {ℓ} : {A : Type ℓ} → Option A → Option A → Option A
unless_none none old = old
unless_none (some new) old = some new

abbrev pub refreshed : Dialog → Candidate → Candidate
refreshed call c = record c {
  display_name_hint = retitled call.title c.display_name_hint;
  kind_hint = unless_none call.kind c.kind_hint;
  member_dialog = call.member_dialog || c.member_dialog;
  last_observed_at_ingest =
      if ltb c.last_observed_at_ingest call.seen_at
      then call.seen_at
      else c.last_observed_at_ingest;
}

pub ensure_found :
    Dialog → ℕ → Option (ℕ × Candidate) → Table Candidate → (ℕ × Candidate) × Table Candidate
ensure_found call fresh none t =
    let c =
      new_candidate call.source_id call.platform_groupid call.kind call.title call.seen_at
        call.member_dialog in
    ((fresh, c), t ++ (fresh, c) ∷ [])
ensure_found call fresh (some (id, c)) t = ((id, refreshed call c), update id (refreshed call c) t)

unfoldable pub ensure_candidate : Dialog → ℕ → Store → (ℕ × Candidate) × Store
unfolding ensure_found
ensure_candidate call fresh s =
    let (row, candidates) =
      ensure_found call fresh (find_row (has_key call.source_id call.platform_groupid) s.candidates)
        s.candidates in
    (row, record s { candidates = candidates })

-- the arguments of `transition_candidate`
pub record Transition : Type 0 where
  pub candidate_id : ℕ
  pub to_state : CandidateState
  pub reviewed_by : Option String
  pub reviewed_at : Option ℕ
  pub rejection_reason : Option String
  pub assigned_collector_id : Option ℕ
  pub resulting_group_id : Option ℕ

abbrev pub transitioned : Transition → Candidate → Candidate
transitioned call c = record c {
  state = call.to_state;
  reviewed_by = unless_none call.reviewed_by c.reviewed_by;
  reviewed_at = unless_none call.reviewed_at c.reviewed_at;
  rejection_reason = unless_none call.rejection_reason c.rejection_reason;
  assigned_collector_id = unless_none call.assigned_collector_id c.assigned_collector_id;
  resulting_group_id = unless_none call.resulting_group_id c.resulting_group_id;
}

pub transition_found : Transition → Option Candidate → Store → Result Candidate × Store
transition_found call none s = (err not_found, s)
transition_found call (some c) s =
    if not (is_allowed c.state call.to_state) then (err illegal_transition, s) else (
      ok (transitioned call c),
      record s { candidates = update call.candidate_id (transitioned call c) s.candidates },
    )

unfoldable pub transition_candidate : Transition → Store → Result Candidate × Store
unfolding transition_found
transition_candidate call s = transition_found call (get call.candidate_id s.candidates) s

-- the arguments of `claim_candidate_transition`
pub record Claim : Type 0 where
  pub candidate_id : ℕ
  pub from_state : CandidateState
  pub to_state : CandidateState
  pub resulting_group_id : Option ℕ
  pub reviewed_at : Option ℕ

abbrev pub claimed : Claim → Candidate → Candidate
claimed call c = record c {
  state = call.to_state;
  resulting_group_id = unless_none call.resulting_group_id c.resulting_group_id;
  reviewed_at = unless_none call.reviewed_at c.reviewed_at;
}

-- the conditional `UPDATE`, by whether its row is there and in `from_state`
unfoldable pub claim_found : Claim → Option Candidate → Store → Bool × Store
claim_found call none s = (false, s)
claim_found call (some c) s =
    if same_state c.state call.from_state
    then (true, record s { candidates = update call.candidate_id (claimed call c) s.candidates })
    else (false, s)

unfoldable pub claim_candidate_transition : Claim → Store → Bool × Store
unfolding claim_found
claim_candidate_transition call s = claim_found call (get call.candidate_id s.candidates) s
