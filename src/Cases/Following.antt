-- ===== src/Cases/Following.antt =====
-- How a case may follow another one (the statuses of eyenet/storage/sqlmodel_repo/cases.py).
use eyenet.Common.{
  ℕ, ◌≡◌, refl, sym, Bool, true, false, some, [], ◌∷◌, ◌++◌, arith, ◌==◌, Bool-cases, inl, inr,
}
use mathlib.Core.Path.{subst}
use eyenet.Storage.Table.{Table, get, update, get-update, get-append}
use eyenet.Cases.{
  CaseRow, CaseStore, CaseStatus, open_case, closed_case, archived_case, same_status, CaseEvent,
  commit_case, emit_case_audit,
}

-- How one operation may move a case: from open to closed and back, and from closed to archived.
pub data Moves : CaseStatus → CaseStatus → Type 0 where
  stays : (a : CaseStatus) → Moves a a
  to_closed : Moves open_case closed_case
  to_open : Moves closed_case open_case
  to_archived : Moves closed_case archived_case

-- A case before and after: it is there, its origin stays, it moves as it may, and once it is archived
-- nothing of it changes.
pub record Follows (c d : CaseRow) : Type 0 where
  pub moves : Moves c.status d.status
  pub same_origin :
      (c.created_at ≡ d.created_at)
      × (c.created_by_user_id ≡ d.created_by_user_id)
      × (c.parent_case_id ≡ d.parent_case_id)
      × (c.crew_key ≡ d.crew_key)
  pub final : same_status c.status archived_case ≡ true → c ≡ d

abbrev pub same : (c : CaseRow) → Follows c c
same c = record {
  moves = stays c.status;
  same_origin = (refl, refl, refl, refl);
  final = λ h. refl;
}

-- what an operation does to the case under an id
abbrev pub Keeps : CaseStore → CaseStore → Type 0
Keeps s s' =
    (id : ℕ) (c : CaseRow)
    → get id s.cases ≡ some c
    → (d : CaseRow) × (get id s'.cases ≡ some d) × Follows c d

pub all-Keeps : (s : CaseStore) → Keeps s s
all-Keeps s id c e = (c, e, same c)

-- the new case under an id that is not taken, or behind one that is
pub keeps_append :
    (s : CaseStore) (fresh : ℕ) (row : CaseRow) (t : Table CaseRow)
    → t ≡ s.cases ++ (fresh, row) ∷ []
    → (id : ℕ) (c : CaseRow) → get id s.cases ≡ some c
    → (d : CaseRow) × (get id t ≡ some d) × Follows c d
keeps_append s fresh row t h id c e = (
  c,
  subst (λ u. get id u ≡ some c) (sym h) (ground (arith, e, get-append s.cases fresh id row)),
  same c,
)

-- a row written over the one that was read, where it follows it
pub keeps_update :
    (s : CaseStore) (id : ℕ) (c d : CaseRow) (t : Table CaseRow)
    → get id s.cases ≡ some c
    → Follows c d
    → t ≡ update id d s.cases
    → (j : ℕ) (old : CaseRow) → get j s.cases ≡ some old
    → (new : CaseRow) × (get j t ≡ some new) × Follows old new
keeps_update s id c d t e f h j old g = elim (Bool-cases (id == j)) [
  | inl y ↦
      let it : c ≡ old = ground (arith, e, g, y) in
      (
        d,
        subst (λ u. get j u ≡ some d) (sym h) (ground (arith, e, y, get-update id j d s.cases)),
        subst (λ o. Follows o d) it f,
      )
  | inr n ↦ (
    old,
    subst (λ u. get j u ≡ some old) (sym h) (ground (arith, g, n, get-update id j d s.cases)),
    same old,
  )
]

pub emit_cases : (up : Bool) (row : _) (s : CaseStore) → (emit_case_audit up row s).cases ≡ s.cases
unfolding emit_case_audit
emit_cases true row s = refl
emit_cases false row s = refl

pub commit_case-Keeps :
    (up : Bool) (id : ℕ) (c d : CaseRow) (event : CaseEvent) (actor at : ℕ) (s : CaseStore)
    → get id s.cases ≡ some c
    → Follows c d
    → Keeps s (commit_case up id d event actor at s).1
unfolding commit_case
commit_case-Keeps up id c d event actor at s e f = keeps_update s id c d _ e f (emit_cases up _ _)

same_status_only : (a b : CaseStatus) → same_status a b ≡ true → a ≡ b
same_status_only open_case open_case e = refl
same_status_only closed_case closed_case e = refl
same_status_only archived_case archived_case e = refl
same_status_only open_case closed_case e = absurd (ground (arith, e))
same_status_only open_case archived_case e = absurd (ground (arith, e))
same_status_only closed_case open_case e = absurd (ground (arith, e))
same_status_only closed_case archived_case e = absurd (ground (arith, e))
same_status_only archived_case open_case e = absurd (ground (arith, e))
same_status_only archived_case closed_case e = absurd (ground (arith, e))

-- a change of the status by a move, which leaves the origin
pub moved :
    (c d : CaseRow) (from to : CaseStatus)
    → same_status c.status from ≡ true
    → d.status ≡ to
    → Moves from to
    → same_status from archived_case ≡ false
    → (c.created_at ≡ d.created_at)
      × (c.created_by_user_id ≡ d.created_by_user_id)
      × (c.parent_case_id ≡ d.parent_case_id)
      × (c.crew_key ≡ d.crew_key)
    → Follows c d
moved c d from to h k m alive origin =
    let at : c.status ≡ from = same_status_only c.status from h in
    record {
      moves = subst (λ a. Moves a d.status) (sym at) (subst (Moves from) (sym k) m);
      same_origin = origin;
      final = λ a.
          absurd (ground (arith, alive, subst (λ st. same_status st archived_case ≡ true) at a));
    }

-- a change that is made to cases that are not archived, and leaves the status and the origin
pub edits :
    (c d : CaseRow)
    → same_status c.status archived_case ≡ false
    → d.status ≡ c.status
    → (c.created_at ≡ d.created_at)
      × (c.created_by_user_id ≡ d.created_by_user_id)
      × (c.parent_case_id ≡ d.parent_case_id)
      × (c.crew_key ≡ d.crew_key)
    → Follows c d
edits c d alive k origin = record {
  moves = subst (Moves c.status) (sym k) (stays c.status);
  same_origin = origin;
  final = λ a. absurd (ground (arith, alive, a));
}
