-- ===== src/Discovery/Scores.antt =====
-- What scoring a candidate does (eyenet/storage/sqlmodel_repo/candidates.py).
use eyenet.Common.{
  ℕ, ◌≤◌, min, ◌≡◌, refl, some, arith, ◌&&◌, map, inl, inr, Bool-cases, if◌then◌else◌,
}
use eyenet.Storage.Table.{get, update, get-update_self}
use eyenet.Discovery.Candidates.{
  discovered, queued, same_state, Candidate, Store, ok, transitioned, transition_candidate,
}
use eyenet.Discovery.Lineage.{
  count_distinct, mentions_of, resolve_case_for_candidate, one, reaches, threshold_of, scored,
  to_queue, score_candidate,
}

-- A candidate that is there gets the score of its mentions' distinct groups and actors, never above
-- 1.0, in the table as in the result; its state changes only from `discovered` to `queued`, and does so
-- exactly when the threshold of the case that claims it is reached.
pub score_candidate_queues :
    (weigh : ℕ → ℕ → ℕ) (id : ℕ) (s : Store) (c : Candidate)
    → get id s.candidates ≡ some c
    → (row : Candidate) × ((score_candidate weigh id s).0 ≡ ok row)
      × (get id (score_candidate weigh id s).1.candidates ≡ some row)
      × (row.score
          ≡ min one (
              weigh
                (count_distinct (map (λ m. m.observed_in_group_id) (mentions_of id s)))
                (count_distinct (map (λ m. m.mentioning_actor_id) (mentions_of id s)))))
      × (row.score ≤ one)
      × (row.state ≡ (
          if same_state c.state discovered
            && reaches (threshold_of (resolve_case_for_candidate id s)) row.score
          then queued
          else c.state))
unfolding score_candidate transition_candidate resolve_case_for_candidate
score_candidate_queues weigh id s c e = elim (Bool-cases (same_state c.state discovered)) [
  | inr other ↦ (row, rw (e, other) refl, rw (e, other) there, refl, omega arith, rw other refl)
  | inl new ↦
      elim (Bool-cases (reaches (threshold_of (resolve_case_for_candidate id s)) row.score)) [
        | inr under ↦ (
          row,
          rw (e, new, under) refl,
          rw (e, new, under) there,
          refl,
          omega arith,
          rw (new, under) refl,
        )
        | inl over ↦ (
          transitioned (to_queue id) row,
          ground (arith, e, new, over, there),
          ground (
            arith,
            e,
            new,
            over,
            there,
            get-update_self id (transitioned (to_queue id) row) row (update id row s.candidates)
                there,
          ),
          refl,
          omega arith,
          rw (new, over) refl,
        )
      ]
]
  where
    row : Candidate
    row = scored weigh (mentions_of id s) c

    there : get id (update id row s.candidates) ≡ some row
    there = get-update_self id row c s.candidates e
