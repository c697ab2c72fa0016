-- ===== src/Cases/Edits.antt =====
-- Edits of a case that keep its status (`update_case`, `update_case_discovery_policy` and
-- `emit_case_access_denied` of eyenet/storage/sqlmodel_repo/cases.py).
use eyenet.Common.{
  ℕ, String, Bool, true, false, not, ◌&&◌, ◌||◌, Option, none, some, List, [], ◌∷◌, ◌==◌, str_eq,
  or_else, if◌then◌else◌,
}
use eyenet.Storage.Table.{get, update}
use eyenet.Discovery.Candidates.{RedundancyPolicy}
use eyenet.Cases.{
  CaseRow, CaseStore, archived_case, same_status, AutoJoinPolicy, updated, seed_roots_changed,
  access_denied, case_not_found, wrong_status, short_title, CaseResult, ok, err, is_short,
  min_title_len, commit_case, emit_case_audit,
}

-- The argument is there and differs from the column.
abbrev pub differs : Option String → Option String → Bool
differs none old = false
differs (some new) none = true
differs (some new) (some old) = not (str_eq new old)

-- the column's change, old and new
abbrev pub change_of : Option String → Option String → Option (Option String × String)
change_of none old = none
change_of (some new) old = if differs (some new) old then some (old, new) else none

abbrev pub is_short_option : Option String → Bool
is_short_option none = false
is_short_option (some t) = is_short t min_title_len

abbrev pub edited : (title description : Option String) → CaseRow → CaseRow
edited title description c = record c {
  title = or_else title c.title;
  description = elim description [ none ↦ c.description | some d ↦ some d ];
}

unfoldable pub update_found :
    (up : Bool) (case_id : ℕ) (title description : Option String) (editor now : ℕ)
    → CaseRow
    → CaseStore
    → CaseResult CaseRow × CaseStore
update_found up case_id title description editor now c s =
    let retitled = differs title (some c.title) in
    let event = updated (change_of title (some c.title)) (change_of description c.description) in
    if same_status c.status archived_case
    then (err wrong_status, s)
    else if retitled && is_short_option title
    then (err short_title, s)
    else if not (retitled || differs description c.description)
    then (ok c, s)
    else commit_case up case_id (edited title description c) event editor now s

unfoldable pub update_case :
    (up : Bool) (case_id : ℕ) (title description : Option String) (editor now : ℕ)
    → CaseStore
    → CaseResult CaseRow × CaseStore
update_case up case_id title description editor now s = elim (get case_id s.cases) [
  | none ↦ (err case_not_found, s)
  | some c ↦ update_found up case_id title description editor now c s
]

-- the policy arguments of `update_case_discovery_policy`
pub record PolicyEdit : Type 0 where
  pub seed_root_group_ids : Option (List ℕ)
  pub redundancy_policy : Option RedundancyPolicy
  pub auto_join_policy : Option AutoJoinPolicy
  pub auto_join_score_threshold : Option ℕ
  pub clear_score_threshold : Bool

abbrev pub new_threshold : PolicyEdit → Option ℕ → Option ℕ
new_threshold e old =
    if e.clear_score_threshold
    then none
    else elim e.auto_join_score_threshold [ none ↦ old | some t ↦ some t ]

abbrev pub with_policy : PolicyEdit → CaseRow → CaseRow
with_policy e c = record c {
  seed_root_group_ids = or_else e.seed_root_group_ids c.seed_root_group_ids;
  redundancy_policy = or_else e.redundancy_policy c.redundancy_policy;
  auto_join_policy = or_else e.auto_join_policy c.auto_join_policy;
  auto_join_score_threshold = new_threshold e c.auto_join_score_threshold;
}

-- `a == b`, on lists of ids
abbrev pub same_ids : List ℕ → List ℕ → Bool
same_ids [] [] = true
same_ids (x ∷ xs) (y ∷ ys) = let rest = same_ids xs ys in if x == y then rest else false
same_ids _ _ = false

abbrev pub changes_roots : Option (List ℕ) → List ℕ → Bool
changes_roots none prior = false
changes_roots (some new) prior = not (same_ids new prior)

-- Only a change of the roots is audited.
unfoldable pub set_policy :
    (up : Bool) (case_id : ℕ)
    → PolicyEdit
    → (editor now : ℕ) → CaseRow
    → CaseStore
    → CaseResult CaseRow × CaseStore
set_policy up case_id e editor now c s =
    let row = with_policy e c in
    if same_status c.status archived_case
    then (err wrong_status, s)
    else if changes_roots e.seed_root_group_ids c.seed_root_group_ids
    then commit_case up case_id row
        (seed_roots_changed c.seed_root_group_ids row.seed_root_group_ids) editor now s
    else (ok row, record s { cases = update case_id row s.cases })

unfoldable pub update_case_discovery_policy :
    (up : Bool) (case_id : ℕ)
    → PolicyEdit
    → (editor now : ℕ) → CaseStore
    → CaseResult CaseRow × CaseStore
update_case_discovery_policy up case_id e editor now s = elim (get case_id s.cases) [
  | none ↦ (err case_not_found, s)
  | some c ↦ set_policy up case_id e editor now c s
]

unfoldable pub emit_case_access_denied :
    (up : Bool) (case_id user : ℕ) (reason : String) (now : ℕ) → CaseStore → CaseStore
unfolding emit_case_audit
emit_case_access_denied up case_id user reason now s =
    emit_case_audit up
      (record { event = access_denied reason; actor = user; subject_id = case_id; at = now }) s
