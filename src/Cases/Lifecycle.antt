-- ===== src/Cases/Lifecycle.antt =====
-- The states that a case goes through (eyenet/storage/sqlmodel_repo/cases.py).
use eyenet.Common.{
  ℕ, String, ◌≡◌, refl, sym, Bool, true, ◌&&◌, ◌||◌, Option, some, Bool-cases, Option-cases, inl,
  inr,
}
use mathlib.Core.Path.{subst}
use eyenet.Storage.Table.{get}
use eyenet.Cases.{
  CaseRow, CaseStore, CaseStatus, open_case, closed_case, archived_case, same_status, CaseEvent,
  closed, archived, reopened, is_short, min_case_reason_len, min_title_len, create_case, move_case,
  close_case, closed_row, reopen_case, reopened_row, archive_case, archived_row,
  reopen_archived_case,
}
use eyenet.Cases.Edits.{
  update_case, update_found, differs, is_short_option, changes_roots, edited, PolicyEdit,
  update_case_discovery_policy, set_policy, with_policy,
}
use eyenet.Cases.Following.{
  to_closed, to_open, to_archived, Follows, Keeps, all-Keeps, keeps_append, keeps_update,
  emit_cases, commit_case-Keeps, moved, edits,
}

-- one operation on the cases themselves
pub data CaseStep : CaseStore → CaseStore → Type 0 where
  creates :
      (up : Bool) (title : String) (description crew_key : Option String) (user fresh now : ℕ)
      (s : CaseStore)
      → CaseStep s (create_case up title description crew_key user fresh now s).1
  closes :
      (up : Bool) (id user : ℕ) (reason : String) (now : ℕ) (s : CaseStore)
      → CaseStep s (close_case up id user reason now s).1
  reopens :
      (up : Bool) (id user now : ℕ) (s : CaseStore) → CaseStep s (reopen_case up id user now s).1
  archives :
      (up : Bool) (id user : ℕ) (reason : String) (now : ℕ) (s : CaseStore)
      → CaseStep s (archive_case up id user reason now s).1
  succeeds :
      (up : Bool) (id user : ℕ) (reason : String) (fresh now : ℕ) (s : CaseStore)
      → CaseStep s (reopen_archived_case up id user reason fresh now s).1
  updates :
      (up : Bool) (id : ℕ) (title description : Option String) (editor now : ℕ) (s : CaseStore)
      → CaseStep s (update_case up id title description editor now s).1
  sets_policy :
      (up : Bool) (id : ℕ) (e : PolicyEdit) (editor now : ℕ) (s : CaseStore)
      → CaseStep s (update_case_discovery_policy up id e editor now s).1

move_case-Keeps :
    (from : CaseStatus) (up : Bool) (id : ℕ) (change : CaseRow → CaseRow) (event : CaseEvent)
    (actor at : ℕ) (s : CaseStore)
    → ((c : CaseRow) → same_status c.status from ≡ true → Follows c (change c))
    → Keeps s (move_case from up id change event actor at s).1
move_case-Keeps from up id change event actor at s f = elim (Option-cases (get id s.cases)) [
  | inl e ↦ rw (move_case, e) (all-Keeps s)
  | inr (c, e) ↦ elim (Bool-cases (same_status c.status from)) [
    | inl y ↦ rw (move_case, e, y) (commit_case-Keeps up id c (change c) event actor at s e (f c y))
    | inr n ↦ rw (move_case, e, n) (all-Keeps s)
  ]
]

close_case-Keeps :
    (up : Bool) (id user : ℕ) (reason : String) (now : ℕ) (s : CaseStore)
    → Keeps s (close_case up id user reason now s).1
unfolding close_case
close_case-Keeps up id user reason now s = elim (Bool-cases (is_short reason min_case_reason_len)) [
  | inl y ↦ rw (close_case, y) (all-Keeps s)
  | inr n ↦
      rw (close_case, n)
        (move_case-Keeps open_case up id (closed_row user reason now) (closed reason) user now s
          (λ c y. moved c _ open_case closed_case y refl to_closed refl (refl, refl, refl, refl)))
]

reopen_case-Keeps :
    (up : Bool) (id user now : ℕ) (s : CaseStore) → Keeps s (reopen_case up id user now s).1
unfolding reopen_case
reopen_case-Keeps up id user now s =
    move_case-Keeps closed_case up id reopened_row reopened user now s
      (λ c y. moved c _ closed_case open_case y refl to_open refl (refl, refl, refl, refl))

archive_case-Keeps :
    (up : Bool) (id user : ℕ) (reason : String) (now : ℕ) (s : CaseStore)
    → Keeps s (archive_case up id user reason now s).1
unfolding archive_case
archive_case-Keeps up id user reason now s =
    elim (Bool-cases (is_short reason min_case_reason_len)) [
      | inl y ↦ rw (archive_case, y) (all-Keeps s)
      | inr n ↦
          rw (archive_case, n)
            (move_case-Keeps closed_case up id (archived_row user reason now) (archived reason) user
              now s
              (λ c y.
                moved c _ closed_case archived_case y refl to_archived refl
                  (refl, refl, refl, refl)))
    ]

create_case-Keeps :
    (up : Bool) (title : String) (description crew_key : Option String) (user fresh now : ℕ)
    (s : CaseStore)
    → Keeps s (create_case up title description crew_key user fresh now s).1
unfolding create_case
create_case-Keeps up title description crew_key user fresh now s =
    elim (Bool-cases (is_short title min_title_len)) [
      | inl y ↦ rw (create_case, y) (all-Keeps s)
      | inr n ↦ rw (create_case, n) (keeps_append s fresh _ _ (emit_cases up _ _))
    ]

reopen_archived_case-Keeps :
    (up : Bool) (id user : ℕ) (reason : String) (fresh now : ℕ) (s : CaseStore)
    → Keeps s (reopen_archived_case up id user reason fresh now s).1
unfolding reopen_archived_case
reopen_archived_case-Keeps up id user reason fresh now s = elim (Option-cases (get id s.cases)) [
  | inl e ↦ elim (Bool-cases (is_short reason min_case_reason_len)) [
    | inl y ↦ rw (reopen_archived_case, e, y) (all-Keeps s)
    | inr n ↦ rw (reopen_archived_case, e, n) (all-Keeps s)
  ]
  | inr (c, e) ↦ elim (Bool-cases (is_short reason min_case_reason_len)) [
    | inl y ↦ rw (reopen_archived_case, e, y) (all-Keeps s)
    | inr n ↦ elim (Bool-cases (same_status c.status archived_case)) [
      | inl z ↦ rw (reopen_archived_case, e, n, z) (keeps_append s fresh _ _ (emit_cases up _ _))
      | inr z ↦ rw (reopen_archived_case, e, n, z) (all-Keeps s)
    ]
  ]
]

update_case-Keeps :
    (up : Bool) (id : ℕ) (title description : Option String) (editor now : ℕ) (s : CaseStore)
    → Keeps s (update_case up id title description editor now s).1
unfolding update_case update_found
update_case-Keeps up id title description editor now s = elim (Option-cases (get id s.cases)) [
  | inl e ↦ rw (update_case, e) (all-Keeps s)
  | inr (c, e) ↦ rw (update_case, e) (found c e)
]
  where
    found :
        (c : CaseRow)
        → get id s.cases ≡ some c
        → Keeps s (update_found up id title description editor now c s).1
    found c e =
        let retitled = differs title (some c.title) in
        elim (Bool-cases (same_status c.status archived_case)) [
          | inl y ↦ rw (update_found, y) (all-Keeps s)
          | inr n ↦ elim (Bool-cases (retitled && is_short_option title)) [
            | inl y ↦ rw (update_found, n, y) (all-Keeps s)
            | inr m ↦ elim (Bool-cases (retitled || differs description c.description)) [
              | inl y ↦
                  rw (update_found, n, m, y)
                    (commit_case-Keeps up id c (edited title description c) _ editor now s e
                      (edits c (edited title description c) n refl (refl, refl, refl, refl)))
              | inr q ↦ rw (update_found, n, m, q) (all-Keeps s)
            ]
          ]
        ]

update_case_discovery_policy-Keeps :
    (up : Bool) (id : ℕ) (e : PolicyEdit) (editor now : ℕ) (s : CaseStore)
    → Keeps s (update_case_discovery_policy up id e editor now s).1
unfolding update_case_discovery_policy set_policy
update_case_discovery_policy-Keeps up id e editor now s = elim (Option-cases (get id s.cases)) [
  | inl h ↦ rw (update_case_discovery_policy, h) (all-Keeps s)
  | inr (c, h) ↦ rw (update_case_discovery_policy, h) (found c h)
]
  where
    found : (c : CaseRow) → get id s.cases ≡ some c → Keeps s (set_policy up id e editor now c s).1
    found c h = elim (Bool-cases (same_status c.status archived_case)) [
      | inl y ↦ rw (set_policy, y) (all-Keeps s)
      | inr n ↦
          let follows = edits c (with_policy e c) n refl (refl, refl, refl, refl) in
          elim (Bool-cases (changes_roots e.seed_root_group_ids c.seed_root_group_ids)) [
            | inl y ↦
                rw (set_policy, n, y)
                  (commit_case-Keeps up id c (with_policy e c) _ editor now s h follows)
            | inr m ↦ rw (set_policy, n, m) (keeps_update s id c (with_policy e c) _ h follows refl)
          ]
    ]

-- One opening, closing, reopening, archiving, succession, update or policy edit: a case that is there
-- stays there, is moved from open to closed or back or from closed to archived at most, keeps who
-- opened it, when and after which case, and is not changed at all if it was archived before. The
-- operations on members and collaborators are not among these.
pub case_step :
    (s s' : CaseStore)
    → CaseStep s s'
    → (id : ℕ) (c : CaseRow) → get id s.cases ≡ some c
    → (d : CaseRow) × (get id s'.cases ≡ some d) × Follows c d
case_step s s' (creates up title description key user fresh now r) =
    create_case-Keeps up title description key user fresh now r
case_step s s' (closes up id user reason now r) = close_case-Keeps up id user reason now r
case_step s s' (reopens up id user now r) = reopen_case-Keeps up id user now r
case_step s s' (archives up id user reason now r) = archive_case-Keeps up id user reason now r
case_step s s' (succeeds up id user reason fresh now r) =
    reopen_archived_case-Keeps up id user reason fresh now r
case_step s s' (updates up id title description editor now r) =
    update_case-Keeps up id title description editor now r
case_step s s' (sets_policy up id e editor now r) =
    update_case_discovery_policy-Keeps up id e editor now r

-- runs of operations on the cases
pub data CaseRun : CaseStore → CaseStore → Type 0 where
  halt : {s : CaseStore} → CaseRun s s
  more : {s t u : CaseStore} → CaseRun s t → CaseStep t u → CaseRun s u

-- Archived is final: over any run of openings, closings, reopenings, archivings, successions, updates
-- and policy edits, an archived case stays as it is.
pub archived_final :
    (s s' : CaseStore) (id : ℕ) (c : CaseRow)
    → CaseRun s s'
    → get id s.cases ≡ some c
    → same_status c.status archived_case ≡ true
    → get id s'.cases ≡ some c
archived_final s s' id c halt e a = e
archived_final s s' id c (more {t = t} run step) e a =
    let (d, g, f) = case_step t s' step id c (archived_final s t id c run e a) in
    subst (λ x. get id s'.cases ≡ some x) (sym (f.final a)) g
