-- ===== src/Discovery/Approval.antt =====
-- Sequences of calls on the candidates, and the review of a candidate
-- (eyenet/storage/sqlmodel_repo/candidates.py).
use eyenet.Common.{
  ℕ, ◌≡◌, refl, true, false, List, [], ◌∷◌, arith, ◌==◌, ◌&&◌, All, inl, inr, Bool-cases,
  Option-cases, ltb, All-append,
}
use eyenet.Storage.Table.{Table, get, update, find_row, find_row-All, get-All, update-All}
use eyenet.Discovery.Candidates.{
  discovered, approved, same_state, is_allowed, Candidate, has_key, Store, Sighting,
  record_candidate_mention, Dialog, ensure_candidate, Transition, transition_candidate, Claim,
  claim_candidate_transition,
}
use eyenet.Discovery.Candidates.Lifecycle.{is_unreviewed, unreviewed_step, unreviewed_apart}
use eyenet.Discovery.Lineage.{
  score_candidate, scored, mentions_of, to_queue, reaches, threshold_of, resolve_case_for_candidate,
}

-- one call of the candidates' repository
pub data Call : Type 0 where
  mention : Sighting → (fresh_candidate fresh_mention : ℕ) → Call
  ensure : Dialog → ℕ → Call
  transition : Transition → Call
  claim : Claim → Call
  score : ℕ → Call

pub perform : (weigh : ℕ → ℕ → ℕ) → Call → Store → Store
perform weigh (mention call c m) s = (record_candidate_mention call c m s).1
perform weigh (ensure call c) s = (ensure_candidate call c s).1
perform weigh (transition call) s = (transition_candidate call s).1
perform weigh (claim call) s = (claim_candidate_transition call s).1
perform weigh (score id) s = (score_candidate weigh id s).1

pub run : (weigh : ℕ → ℕ → ℕ) → List Call → Store → Store
unfolding perform
run weigh [] s = s
run weigh (call ∷ calls) s = run weigh calls (perform weigh call s)

-- The call does not approve candidate `j`; and a claim starts past the review, as each claim of the
-- join handler does (eyenet/collectors/telegram/_join.py).
abbrev pub IsNoApproval : ℕ → Call → Type 0
IsNoApproval j (transition call) =
    (call.candidate_id == j && same_state call.to_state approved) ≡ false
IsNoApproval j (claim call) = is_unreviewed call.from_state ≡ false
IsNoApproval j (mention call c m) = Unit
IsNoApproval j (ensure call c) = Unit
IsNoApproval j (score id) = Unit

-- Every row under `j` is unreviewed.
abbrev pub IsUnreviewedIn : ℕ → Table Candidate → Type 0
IsUnreviewedIn j t = All (λ row. row.0 ≡ j → is_unreviewed row.1.state ≡ true) t

module _ (j : ℕ) where
  abbrev Unreviewed : ℕ × Candidate → Type 0
  Unreviewed row = row.0 ≡ j → is_unreviewed row.1.state ≡ true

  mention-IsUnreviewedIn :
      (call : Sighting) (c m : ℕ) (s : Store)
      → IsUnreviewedIn j s.candidates
      → IsUnreviewedIn j (record_candidate_mention call c m s).1.candidates
  unfolding record_candidate_mention
  mention-IsUnreviewedIn call c m s h =
      elim (Option-cases (find_row (has_key call.source_id call.platform_groupid) s.candidates)) [
        | inl e ↦ rw e (All-append Unreviewed s.candidates _ h ((λ _. refl), tt))
        | inr ((id, old), e) ↦
            let own = (find_row-All Unreviewed _ s.candidates (id, old) h e).0 in
            elim (Bool-cases (ltb old.last_observed_at_ingest call.mentioned_at_ingest)) [
              | inl y ↦ rw (e, y) (update-All Unreviewed id _ s.candidates h own)
              | inr n ↦ rw (e, n) h
            ]
      ]

  ensure-IsUnreviewedIn :
      (call : Dialog) (c : ℕ) (s : Store)
      → IsUnreviewedIn j s.candidates
      → IsUnreviewedIn j (ensure_candidate call c s).1.candidates
  unfolding ensure_candidate
  ensure-IsUnreviewedIn call c s h =
      elim (Option-cases (find_row (has_key call.source_id call.platform_groupid) s.candidates)) [
        | inl e ↦ rw e (All-append Unreviewed s.candidates _ h ((λ _. refl), tt))
        | inr ((id, old), e) ↦ rw e (
            update-All Unreviewed id _ s.candidates h
              (find_row-All Unreviewed _ s.candidates (id, old) h e).0)
      ]

  transition-IsUnreviewedIn :
      (call : Transition) (s : Store)
      → (call.candidate_id == j && same_state call.to_state approved) ≡ false
      → IsUnreviewedIn j s.candidates
      → IsUnreviewedIn j (transition_candidate call s).1.candidates
  unfolding transition_candidate
  transition-IsUnreviewedIn call s quiet h =
      elim (Option-cases (get call.candidate_id s.candidates)) [
        | inl e ↦ rw e h
        | inr (c, e) ↦ elim (Bool-cases (is_allowed c.state call.to_state)) [
          | inr bad ↦ rw (e, bad) h
          | inl good ↦
              rw (e, good)
                (update-All Unreviewed call.candidate_id _ s.candidates h (λ same.
                  unreviewed_step c.state call.to_state
                    (get-All Unreviewed call.candidate_id s.candidates c h e same) good
                    (ground (arith, quiet, same))))
        ]
      ]

  claim-IsUnreviewedIn :
      (call : Claim) (s : Store)
      → is_unreviewed call.from_state ≡ false
      → IsUnreviewedIn j s.candidates
      → IsUnreviewedIn j (claim_candidate_transition call s).1.candidates
  unfolding claim_candidate_transition
  claim-IsUnreviewedIn call s past h = elim (Option-cases (get call.candidate_id s.candidates)) [
    | inl e ↦ rw e h
    | inr (c, e) ↦ elim (Bool-cases (same_state c.state call.from_state)) [
      | inr other ↦ rw (e, other) h
      | inl same ↦
          rw (e, same)
            (update-All Unreviewed call.candidate_id _ s.candidates h (λ mine. absurd (
              unreviewed_apart c.state call.from_state
                (get-All Unreviewed call.candidate_id s.candidates c h e mine) past same)))
    ]
  ]

  score-IsUnreviewedIn :
      (weigh : ℕ → ℕ → ℕ) (id : ℕ) (s : Store)
      → IsUnreviewedIn j s.candidates
      → IsUnreviewedIn j (score_candidate weigh id s).1.candidates
  unfolding score_candidate
  score-IsUnreviewedIn weigh id s h = elim (Option-cases (get id s.candidates)) [
    | inl e ↦ rw e h
    | inr (c, e) ↦
        let row = scored weigh (mentions_of id s) c in
        let s' : Store = record s { candidates = update id row s.candidates } in
        let kept : IsUnreviewedIn j s'.candidates =
          update-All Unreviewed id row s.candidates h (get-All Unreviewed id s.candidates c h e) in
        elim (Bool-cases (same_state row.state discovered)) [
          | inr other ↦ rw (e, other) kept
          | inl new ↦
              elim (Bool-cases
                (reaches (threshold_of (resolve_case_for_candidate id s')) row.score)) [
                  | inr under ↦ rw (e, new, under) kept
                  | inl over ↦
                      rw (e, new, over)
                        (transition-IsUnreviewedIn (to_queue id) s' (ground arith) kept)
                ]
        ]
  ]

-- Whatever calls are made, in whatever order: a candidate that is unreviewed stays unreviewed, and so
-- is never joining, requested or joined, unless one of the calls is a transition of it to `approved`.
pub joining_needs_approval :
    (weigh : ℕ → ℕ → ℕ) (j : ℕ) (calls : List Call) (s : Store)
    → IsUnreviewedIn j s.candidates
    → All (IsNoApproval j) calls
    → IsUnreviewedIn j (run weigh calls s).candidates
unfolding run
joining_needs_approval weigh j [] s h q = h
joining_needs_approval weigh j (mention call c m ∷ calls) s h q =
    joining_needs_approval weigh j calls _ (mention-IsUnreviewedIn j call c m s h) q.1
joining_needs_approval weigh j (ensure call c ∷ calls) s h q =
    joining_needs_approval weigh j calls _ (ensure-IsUnreviewedIn j call c s h) q.1
joining_needs_approval weigh j (transition call ∷ calls) s h q =
    joining_needs_approval weigh j calls _ (transition-IsUnreviewedIn j call s q.0 h) q.1
joining_needs_approval weigh j (claim call ∷ calls) s h q =
    joining_needs_approval weigh j calls _ (claim-IsUnreviewedIn j call s q.0 h) q.1
joining_needs_approval weigh j (score id ∷ calls) s h q =
    joining_needs_approval weigh j calls _ (score-IsUnreviewedIn j weigh id s h) q.1
