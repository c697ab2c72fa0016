-- ===== src/Discovery/Candidates/Mentions.antt =====
-- Repeated mentions and concurrent claims of one candidate
-- (eyenet/storage/sqlmodel_repo/candidates.py).
use eyenet.Common.{
  ℕ, ◌≡◌, refl, ◌∙◌, ap, Bool, true, false, arith, inl, inr, Bool-cases, Option-cases, eq_iff, ltb,
}
use eyenet.Storage.Table.{
  Table, get, get-update_self, find_row, find_row-append, find_row-update, find_row_sound,
}
use eyenet.Discovery.Candidates.{
  same_state, Candidate, Mention, Store, has_key, has_evidence, Sighting, mention_of,
  note_candidate, note_mention, record_candidate_mention, new_candidate, Claim, claimed,
  claim_candidate_transition,
}

module _ (call : Sighting) where
  abbrev is_key : Candidate → Bool
  is_key = has_key call.source_id call.platform_groupid

  note_candidate_again :
      (c c' : ℕ) (t : Table Candidate)
      → let first = note_candidate call c (find_row is_key t) t in
        note_candidate call c' (find_row is_key first.1) first.1 ≡ first
  unfolding note_candidate
  note_candidate_again c c' t = elim (Option-cases (find_row is_key t)) [
    | inl e ↦
        let new =
          new_candidate call.source_id call.platform_groupid call.kind_hint call.display_name_hint
            call.mentioned_at_ingest false in
        rw
          (
            e,
            find_row-append is_key t c new e
                (ground (arith, eq_iff call.platform_groupid call.platform_groupid)),
          )
          (ground arith)
    | inr ((id, old), e) ↦
        elim (Bool-cases (ltb old.last_observed_at_ingest call.mentioned_at_ingest)) [
          | inr n ↦ rw (e, n, e, n) refl
          | inl y ↦
              let later : Candidate = record old {
                last_observed_at_ingest = call.mentioned_at_ingest;
              } in
              rw (e, y, find_row-update is_key id old later t e (find_row_sound is_key t id old e))
                (ground arith)
        ]
  ]

  note_mention_again :
      (id m m' : ℕ) (t : Table Mention)
      → let is_it = has_evidence id call.mention_evidence_ref in
        let first = note_mention (mention_of call id) m (find_row is_it t) t in
        note_mention (mention_of call id) m' (find_row is_it first.1) first.1 ≡ first
  unfolding note_mention
  note_mention_again id m m' t =
      let is_it = has_evidence id call.mention_evidence_ref in
      elim (Option-cases (find_row is_it t)) [
        | inl e ↦
            rw
              (
                e,
                find_row-append is_it t m (mention_of call id) e
                    (ground (arith, eq_iff call.mention_evidence_ref call.mention_evidence_ref)),
              )
              refl
        | inr (old, e) ↦ rw (e, e) refl
      ]

  -- the mention's step, after the candidate's
  abbrev noting :
      ℕ → (ℕ × Candidate) × Table Candidate → Table Mention → (ℕ × Mention) × Table Mention
  noting fresh row t =
      note_mention (mention_of call row.0.0) fresh
        (find_row (has_evidence row.0.0 call.mention_evidence_ref) t) t

  -- The same mention recorded a second time, with whatever fresh ids, returns the rows of the first
  -- call and leaves the store as the first call left it.
  pub record_again :
      (c m c' m' : ℕ) (s : Store)
      → let first = record_candidate_mention call c m s in
        record_candidate_mention call c' m' first.1 ≡ first
  unfolding record_candidate_mention
  record_again c m c' m' s =
      let seen = note_candidate call c (find_row is_key s.candidates) s.candidates in
      let noted = noting m seen s.mentions in
      ap
        (λ row.
          let last = noting m' row noted.1 in
          ((row.0, last.0), record s { candidates = row.1; mentions = last.1 }))
        (note_candidate_again c c' s.candidates)
      ∙ ap (λ last. ((seen.0, last.0), record s { candidates = seen.1; mentions = last.1 }))
          (note_mention_again seen.0.0 m m' s.mentions)

-- Two claims of one candidate from one state: if the first wins and moves the candidate on, the second
-- loses and changes nothing.
pub claim_won_once :
    (a b : Claim) (s : Store)
    → a.candidate_id ≡ b.candidate_id
    → a.from_state ≡ b.from_state
    → same_state a.to_state a.from_state ≡ false
    → (claim_candidate_transition a s).0 ≡ true
    → claim_candidate_transition b (claim_candidate_transition a s).1
      ≡ (false, (claim_candidate_transition a s).1)
unfolding claim_candidate_transition
claim_won_once a b s one_id one_state moves won =
    elim (Option-cases (get a.candidate_id s.candidates)) [
      | inl e ↦ absurd (ground (arith, e, won))
      | inr (c, e) ↦ elim (Bool-cases (same_state c.state a.from_state)) [
        | inr other ↦ absurd (ground (arith, e, other, won))
        | inl same ↦ ground (
          arith,
          e,
          same,
          one_id,
          one_state,
          moves,
          get-update_self a.candidate_id (claimed a c) c s.candidates e,
        )
      ]
    ]
