-- ===== src/Cases/Tiers.antt =====
-- The effective tier of a case and its members (`_recompute_effective_tier` and
-- `_maybe_emit_tier_change` of eyenet/storage/sqlmodel_repo/cases.py).
use eyenet.Common.{
  ℕ, String, ◌≡◌, refl, sym, ap, ◌∙◌, ◌⊎◌, true, false, none, some, arith, is_some, if◌then◌else◌,
  Bool-cases, Option-cases, inl, inr,
}
use mathlib.Core.Path.{subst}
use eyenet.Tier.Laws.{same_tier_iff}
use eyenet.Tier.{SensitivityTier, same_tier}
use eyenet.Storage.Table.{get, update, rows_where, get-update_self}
use eyenet.Storage.Evidence.{Evidence}
use eyenet.Cases.{
  CaseRow, MemberRow, CaseStore, CaseResult, ok, err, emit_case_audit, tier_changed,
  audit_append_failed, same_status, archived_case, short_reason, already_ended, is_short,
  min_case_reason_len, CaseError,
}
use eyenet.Cases.Members.{
  is_member_of, recompute_effective_tier, maybe_emit_tier_change, commit_member, MemberCall,
  new_member, member_event, with_member, refuses_member, add_case_member, removed_member,
  removal_event, remove_case_member,
}
use eyenet.Cases.Joins.{IsJoin, recompute-IsJoin}

module _ (evidence : Evidence) where
  -- what is stored of a case after its tier is settled
  abbrev HasTier : ℕ → CaseRow → CaseStore → CaseStore → Type 0
  HasTier case_id c s s' =
      (s'.members ≡ s.members)
      × (get case_id s'.cases
          ≡ some (record c { effective_tier = recompute_effective_tier evidence case_id s }))

  emit_rows :
      (row : _) (s : CaseStore)
      → ((emit_case_audit true row s).cases ≡ s.cases)
        × ((emit_case_audit true row s).members ≡ s.members)
  unfolding emit_case_audit
  emit_rows row s = (refl, refl)

  maybe_emit_found :
      (case_id actor at : ℕ) (c : CaseRow) (s : CaseStore)
      → get case_id s.cases ≡ some c
      → ((maybe_emit_tier_change evidence true case_id actor at s).0 ≡ true)
        × HasTier case_id c s (maybe_emit_tier_change evidence true case_id actor at s).1
  unfolding maybe_emit_tier_change emit_case_audit
  maybe_emit_found case_id actor at c s e =
      let new = recompute_effective_tier evidence case_id s in
      elim (Bool-cases (same_tier new c.effective_tier)) [
        | inl y ↦
            let quiet : maybe_emit_tier_change evidence true case_id actor at s ≡ (true, s) =
              rw (maybe_emit_tier_change, e, y) refl in
            let kept : c ≡ record c { effective_tier = new } =
              ap (λ t. record c { effective_tier = t })
                (sym ((same_tier_iff new c.effective_tier).0 y)) in
            subst (λ r. (r.0 ≡ true) × HasTier case_id c s r.1) (sym quiet)
              (refl, (refl, e ∙ ap (λ x. some x) kept))
        | inr n ↦
            let row : CaseRow = record c { effective_tier = new } in
            let loud : maybe_emit_tier_change evidence true case_id actor at s ≡ (
              true,
              emit_case_audit true
                  (record {
                    event = tier_changed c.effective_tier new;
                    actor = actor;
                    subject_id = case_id;
                    at = at;
                  })
                  (record s { cases = update case_id row s.cases }),
            ) =
              rw (maybe_emit_tier_change, e, n) refl in
            subst (λ r. (r.0 ≡ true) × HasTier case_id c s r.1) (sym loud)
              (refl, (refl, get-update_self case_id row c s.cases e))
      ]

  -- A member's change that is committed with its events: the case's tier is the join of its members'.
  abbrev pub Settles : ℕ → CaseRow → CaseStore → CaseStore → Type 0
  Settles case_id c s s' =
      (s'.members ≡ s.members)
      × (tier : SensitivityTier) × (get case_id s'.cases
          ≡ some (record c { effective_tier = tier }))
      × IsJoin evidence tier (rows_where (is_member_of case_id) s'.members)

  commit_member-Settles :
      (row : MemberRow) (event : CaseStore → CaseStore) (case_id actor at : ℕ) (c : CaseRow)
      (s : CaseStore)
      → (event s).cases ≡ s.cases
      → (event s).members ≡ s.members
      → get case_id s.cases ≡ some c
      → ((commit_member evidence true row event case_id actor at s).0 ≡ ok row)
        × Settles case_id c s (commit_member evidence true row event case_id actor at s).1
  unfolding commit_member
  commit_member-Settles row event case_id actor at c s same_cases same_members e =
      let found : get case_id (event s).cases ≡ some c = ap (get case_id) same_cases ∙ e in
      let (emitted, rows) = maybe_emit_found case_id actor at c (event s) found in
      let (members, stored) = rows in
      let tier = recompute_effective_tier evidence case_id (event s) in
      (
        ap (λ b. if b then ok row else err audit_append_failed) emitted,
        (
          members ∙ same_members,
          tier,
          stored,
          subst (λ ms. IsJoin evidence tier (rows_where (is_member_of case_id) ms)) (sym members)
              (recompute-IsJoin evidence case_id (event s)),
        ),
      )

  refuses_none :
      (call : MemberCall) (s : CaseStore)
      → refuses_member call s ≡ none
      → (c : CaseRow) × (get call.case_id s.cases ≡ some c)
        × (same_status c.status archived_case ≡ false)
  unfolding refuses_member
  refuses_none call s r = elim (Bool-cases (is_short call.reason min_case_reason_len)) [
    | inl y ↦ absurd (ground (arith, rw (refuses_member, y) at r))
    | inr n ↦ elim (Option-cases (get call.case_id s.cases)) [
      | inl e ↦ absurd (ground (arith, rw (refuses_member, n, e) at r))
      | inr (c, e) ↦ elim (Bool-cases (same_status c.status archived_case)) [
        | inl y ↦ absurd (ground (arith, rw (refuses_member, n, e, y) at r))
        | inr alive ↦ (c, e, alive)
      ]
    ]
  ]

  -- what adding a member gives and leaves
  abbrev pub Added : MemberCall → ℕ → CaseStore → CaseResult MemberRow × CaseStore → Type 0
  Added call fresh s (result, s') =
      ((s' ≡ s) × (e : CaseError) × (result ≡ err e))
      ⊎ ((result ≡ ok (new_member call))
          × (c : CaseRow) × (get call.case_id s.cases ≡ some c)
          × (same_status c.status archived_case ≡ false)
          × Settles call.case_id c (with_member call fresh s) s')

  -- what removing a member gives and leaves
  abbrev pub Removed :
      ℕ → MemberRow → MemberRow → CaseRow → CaseStore → CaseResult MemberRow × CaseStore → Type 0
  Removed member_id m row c s (result, s') =
      ((s' ≡ s) × (e : CaseError) × (result ≡ err e))
      ⊎ ((result ≡ ok row)
          × Settles m.case_id c (record s { members = update member_id row s.members }) s')

  -- While the audit log takes rows: a member that is refused changes nothing; one that is
  -- added is the one new row of the members, and the case's stored tier is then the join of
  -- the tiers of its active members.
  pub add_case_member_tier :
      (call : MemberCall) (fresh : ℕ) (s : CaseStore)
      → Added call fresh s (add_case_member evidence true call fresh s)
  unfolding add_case_member emit_case_audit
  add_case_member_tier call fresh s = elim (Option-cases (refuses_member call s)) [
    | inr (e, r) ↦ rw (add_case_member, r) (inl (refl, e, refl))
    | inl r ↦
        let (c, e, alive) = refuses_none call s r in
        let done : add_case_member evidence true call fresh s
            ≡ commit_member evidence true (new_member call) (member_event true call fresh)
                call.case_id call.added_by_user_id call.now (with_member call fresh s) =
          rw (add_case_member, r) refl in
        let settled =
          commit_member-Settles (new_member call) (member_event true call fresh) call.case_id
            call.added_by_user_id call.now c (with_member call fresh s) refl refl e in
        subst (Added call fresh s) (sym done) (inr (settled.0, c, e, alive, settled.1))
  ]

  -- While the audit log takes rows: the removal of a member, whatever the status of its case,
  -- leaves the case's stored tier as the join of the tiers of its active members, or it is
  -- refused and changes nothing.
  pub remove_case_member_tier :
      (member_id user : ℕ) (reason : String) (now : ℕ) (c : CaseRow) (m : MemberRow) (s : CaseStore)
      → get member_id s.members ≡ some m
      → get m.case_id s.cases ≡ some c
      → Removed member_id m
          (removed_member user reason now m)
          c
          s
          (remove_case_member evidence true member_id user reason now s)
  unfolding remove_case_member emit_case_audit
  remove_case_member_tier member_id user reason now c m s g h =
      let row = removed_member user reason now m in
      let written : CaseStore = record s { members = update member_id row s.members } in
      elim (Bool-cases (is_short reason min_case_reason_len)) [
        | inl y ↦
            let done : remove_case_member evidence true member_id user reason now s
                ≡ (err short_reason, s) =
              rw (remove_case_member, g, y) refl in
            subst (Removed member_id m row c s) (sym done) (inl (refl, short_reason, refl))
        | inr n ↦ elim (Bool-cases (is_some m.removed_at)) [
          | inl y ↦
              let done : remove_case_member evidence true member_id user reason now s
                  ≡ (err already_ended, s) =
                rw (remove_case_member, g, n, y) refl in
              subst (Removed member_id m row c s) (sym done) (inl (refl, already_ended, refl))
          | inr z ↦
              let event = removal_event true member_id user reason now m in
              let done : remove_case_member evidence true member_id user reason now s
                  ≡ commit_member evidence true row event m.case_id user now written =
                rw (remove_case_member, g, n, z) refl in
              let settled =
                commit_member-Settles row event m.case_id user now c written refl refl h in
              subst (Removed member_id m row c s) (sym done) (inr settled)
        ]
      ]
