-- ===== src/Discovery/Candidates/Lifecycle.antt =====
-- The transitions of candidates (eyenet/storage/sqlmodel_repo/candidates.py).
use eyenet.Common.{
  ℕ, ◌≡◌, Bool, true, false, none, some, arith, ◌==◌, ◌∙◌, if◌then◌else◌, inl, inr, Bool-cases,
  Option-cases,
}
use eyenet.Storage.Table.{Table, get, get-update}
use eyenet.Discovery.Candidates.{
  CandidateState, discovered, queued, approved, joining, joined, requested, rejected, failed,
  parked, same_state, is_allowed, Candidate, Store, Result, ok, err, not_found, illegal_transition,
  Transition, transitioned, transition_candidate,
}

-- The four ways in which a transition can end, and what each does to the table.
pub data Transitioned (call : Transition) (s : Store) : Result Candidate × Store → Type 0 where
  missing : get call.candidate_id s.candidates ≡ none → Transitioned call s (err not_found, s)
  illegal :
      (c : Candidate)
      → get call.candidate_id s.candidates ≡ some c
      → is_allowed c.state call.to_state ≡ false
      → Transitioned call s (err illegal_transition, s)
  moved :
      (c : Candidate) (t : Table Candidate)
      → get call.candidate_id s.candidates ≡ some c
      → is_allowed c.state call.to_state ≡ true
      → ((j : ℕ)
          → get j t
            ≡ (if call.candidate_id == j then some (transitioned call c) else get j s.candidates))
      → Transitioned call s (ok (transitioned call c), record s { candidates = t })

-- A transition ends in exactly one of the four ways: a missing row and an illegal step change nothing,
-- and a legal step gives the row its new state and the reviewer's fields that were passed, and leaves
-- every other row.
pub transition_candidate_cases :
    (call : Transition) (s : Store) → Transitioned call s (transition_candidate call s)
unfolding transition_candidate
transition_candidate_cases call s = elim (Option-cases (get call.candidate_id s.candidates)) [
  | inl e ↦ rw e (missing e)
  | inr (c, e) ↦ elim (Bool-cases (is_allowed c.state call.to_state)) [
    | inr bad ↦ rw (e, bad) (illegal c e bad)
    | inl good ↦
        rw (e, good)
          (moved c _ e good (λ j.
            get-update call.candidate_id j (transitioned call c) s.candidates ∙ ground (arith, e)))
  ]
]

-- the states before an operator's approval, or after its withdrawal
abbrev pub is_unreviewed : CandidateState → Bool
is_unreviewed discovered = true
is_unreviewed queued = true
is_unreviewed rejected = true
is_unreviewed parked = true
is_unreviewed approved = false
is_unreviewed joining = false
is_unreviewed joined = false
is_unreviewed requested = false
is_unreviewed failed = false

pub unreviewed_step :
    (from to : CandidateState)
    → is_unreviewed from ≡ true
    → is_allowed from to ≡ true
    → same_state to approved ≡ false
    → is_unreviewed to ≡ true
unreviewed_step discovered to u a n = ground arith
unreviewed_step queued to u a n = ground arith
unreviewed_step rejected to u a n = ground arith
unreviewed_step parked to u a n = ground arith
unreviewed_step approved to u a n = ground arith
unreviewed_step joining to u a n = ground arith
unreviewed_step joined to u a n = ground arith
unreviewed_step requested to u a n = ground arith
unreviewed_step failed to u a n = ground arith

-- An unreviewed state is not a state past the review.
pub unreviewed_apart :
    (a b : CandidateState)
    → is_unreviewed a ≡ true
    → is_unreviewed b ≡ false
    → same_state a b ≡ true
    → ⊥
unreviewed_apart discovered b u v e = ground arith
unreviewed_apart queued b u v e = ground arith
unreviewed_apart rejected b u v e = ground arith
unreviewed_apart parked b u v e = ground arith
unreviewed_apart approved b u v e = ground arith
unreviewed_apart joining b u v e = ground arith
unreviewed_apart joined b u v e = ground arith
unreviewed_apart requested b u v e = ground arith
unreviewed_apart failed b u v e = ground arith
