-- ===== src/Cases/Members.antt =====
-- Members and collaborators of a case, and the case's effective tier
-- (eyenet/storage/sqlmodel_repo/cases.py). The tiers of subjects are those of the evidence tables.
use eyenet.Common.{
  ℕ, String, Bool, true, false, not, ◌&&◌, Option, none, some, List, [], ◌∷◌, ◌++◌, ltb, ◌==◌,
  is_some, if◌then◌else◌,
}
use eyenet.Tier.{SensitivityTier, normal, restricted, classified, tier_order, same_tier}
use eyenet.Storage.Table.{get, update, find_row, rows_where}
use eyenet.Storage.Evidence.{Evidence, effective}
use eyenet.Cases.{
  MemberRow, CaseStore, archived_case, same_status, CaseSubjectKind, observation_subject,
  attachment_subject, message_subject, actor_subject, persona_subject, linkage_subject,
  member_added, member_removed, tier_changed, CaseError, case_not_found, wrong_status, short_reason,
  already_active, row_not_found, already_ended, audit_append_failed, CaseResult, ok, err, is_short,
  min_case_reason_len, emit_case_audit,
}

-- `a is b`, on kinds of subject
abbrev pub same_subject_kind : CaseSubjectKind → CaseSubjectKind → Bool
same_subject_kind observation_subject observation_subject = true
same_subject_kind attachment_subject attachment_subject = true
same_subject_kind message_subject message_subject = true
same_subject_kind actor_subject actor_subject = true
same_subject_kind persona_subject persona_subject = true
same_subject_kind linkage_subject linkage_subject = true
same_subject_kind _ _ = false

abbrev pub is_member_of : ℕ → MemberRow → Bool
is_member_of case_id m = m.case_id == case_id && not (is_some m.removed_at)

abbrev pub is_active_member : (case_id : ℕ) → CaseSubjectKind → (subject_id : ℕ) → MemberRow → Bool
is_active_member case_id kind subject_id m =
    is_member_of case_id m && same_subject_kind m.subject_kind kind && m.subject_id == subject_id

-- the effective tier of a member's subject, where the subject has tiers and is there
abbrev pub subject_tier : Evidence → MemberRow → Option SensitivityTier
subject_tier evidence m = elim m.subject_kind [
  | observation_subject ↦ elim (get m.subject_id evidence.observations) [
    | none ↦ none
    | some row ↦ some (effective row.tiers)
  ]
  | attachment_subject ↦ elim (get m.subject_id evidence.attachments) [
    | none ↦ none
    | some row ↦ some (effective row.tiers)
  ]
  | _ ↦ none
]

-- `max_rank`, folded over the members
abbrev pub raise_rank : Option SensitivityTier → ℕ → ℕ
raise_rank none rank = rank
raise_rank (some t) rank = if ltb rank (tier_order t) then tier_order t else rank

unfoldable pub rank_of : Evidence → ℕ → List MemberRow → ℕ
rank_of evidence rank [] = rank
rank_of evidence rank (m ∷ ms) = rank_of evidence (raise_rank (subject_tier evidence m) rank) ms

-- `RANK_TIER`
abbrev pub rank_tier : ℕ → SensitivityTier
rank_tier n = if n == 0 then normal else if n == 1 then restricted else classified

unfoldable pub recompute_effective_tier : Evidence → ℕ → CaseStore → SensitivityTier
recompute_effective_tier evidence case_id s =
    rank_tier (rank_of evidence 0 (rows_where (is_member_of case_id) s.members))

unfoldable pub maybe_emit_tier_change :
    Evidence → (up : Bool) (case_id actor at : ℕ) → CaseStore → Bool × CaseStore
unfolding emit_case_audit
maybe_emit_tier_change evidence up case_id actor at s = elim (get case_id s.cases) [
  | none ↦ (true, s)
  | some c ↦
      let new = recompute_effective_tier evidence case_id s in
      if same_tier new c.effective_tier then (true, s) else (
        up,
        emit_case_audit up
            (record {
              event = tier_changed c.effective_tier new;
              actor = actor;
              subject_id = case_id;
              at = at;
            })
            (record s { cases = update case_id (record c { effective_tier = new }) s.cases }),
      )
]

-- A member's write, its audit event, and the case's tier, which is left where the event was lost.
unfoldable pub commit_member :
    Evidence
    → (up : Bool) → MemberRow
    → (event : CaseStore → CaseStore) → (case_id actor at : ℕ) → CaseStore
    → CaseResult MemberRow × CaseStore
commit_member evidence up row event case_id actor at s =
    let (emitted, last) = maybe_emit_tier_change evidence up case_id actor at (event s) in
    if up
    then ((if emitted then ok row else err audit_append_failed), last)
    else (err audit_append_failed, event s)

-- the arguments of `add_case_member`
pub record MemberCall : Type 0 where
  pub case_id : ℕ
  pub subject_kind : CaseSubjectKind
  pub subject_id : ℕ
  pub added_by_user_id : ℕ
  pub reason : String
  pub now : ℕ

abbrev pub new_member : MemberCall → MemberRow
new_member call = record {
  case_id = call.case_id;
  subject_kind = call.subject_kind;
  subject_id = call.subject_id;
  added_by_user_id = call.added_by_user_id;
  added_at = call.now;
  add_reason = call.reason;
  removed_at = none;
  removed_by_user_id = none;
  removal_reason = none;
}

abbrev pub member_event : (up : Bool) → MemberCall → (fresh : ℕ) → CaseStore → CaseStore
member_event up call fresh s =
    emit_case_audit up
      (record {
        event = member_added fresh call.subject_kind call.subject_id call.reason;
        actor = call.added_by_user_id;
        subject_id = call.case_id;
        at = call.now;
      })
      s

abbrev pub with_member : MemberCall → (fresh : ℕ) → CaseStore → CaseStore
with_member call fresh s = record s { members = s.members ++ (fresh, new_member call) ∷ [] }

-- why a member is not added, where it is not
unfoldable pub refuses_member : MemberCall → CaseStore → Option CaseError
refuses_member call s =
    let active =
      find_row (is_active_member call.case_id call.subject_kind call.subject_id) s.members in
    let checked : Option CaseError = elim (get call.case_id s.cases) [
      | none ↦ some case_not_found
      | some c ↦
          if same_status c.status archived_case
          then some wrong_status
          else if is_some active
          then some already_active
          else none
    ] in
    if is_short call.reason min_case_reason_len then some short_reason else checked

unfoldable pub add_case_member :
    Evidence → (up : Bool) → MemberCall → (fresh : ℕ) → CaseStore → CaseResult MemberRow × CaseStore
add_case_member evidence up call fresh s =
    let done =
      commit_member evidence up (new_member call) (member_event up call fresh) call.case_id
        call.added_by_user_id call.now (with_member call fresh s) in
    elim (refuses_member call s) [ some e ↦ (err e, s) | none ↦ done ]

abbrev pub removed_member : (user : ℕ) (reason : String) (now : ℕ) → MemberRow → MemberRow
removed_member user reason now m = record m {
  removed_at = some now;
  removed_by_user_id = some user;
  removal_reason = some reason;
}

abbrev pub removal_event :
    (up : Bool) (member_id user : ℕ) (reason : String) (now : ℕ) → MemberRow → CaseStore → CaseStore
removal_event up member_id user reason now m s =
    emit_case_audit up
      (record {
        event = member_removed member_id m.subject_kind m.subject_id reason;
        actor = user;
        subject_id = m.case_id;
        at = now;
      })
      s

unfoldable pub remove_case_member :
    Evidence
    → (up : Bool) (member_id user : ℕ) (reason : String) (now : ℕ) → CaseStore
    → CaseResult MemberRow × CaseStore
remove_case_member evidence up member_id user reason now s = elim (get member_id s.members) [
  | none ↦
      if is_short reason min_case_reason_len then (err short_reason, s) else (err row_not_found, s)
  | some m ↦
      let row = removed_member user reason now m in
      let done =
        commit_member evidence up row (removal_event up member_id user reason now m) m.case_id user
          now (record s { members = update member_id row s.members }) in
      if is_short reason min_case_reason_len
      then (err short_reason, s)
      else if is_some m.removed_at
      then (err already_ended, s)
      else done
]
