-- ===== src/Discovery/Eligibility/Verdicts.antt =====
-- When a collector may join a candidate (eyenet/services/discovery/eligibility.py).
use eyenet.Common.{
  ℕ, ◌<◌, min, ◌≡◌, ◌↔◌, true, false, some, List, [], ◌∷◌, arith, leb, ltb, Any, map, keep_if,
  is_some, inl, inr, Bool-cases,
}
use eyenet.Storage.Table.{get}
use eyenet.Discovery.Candidates.{Candidate, Mention, Store}
use eyenet.Discovery.Lineage.{mentions_of, resolve_case_for_candidate}
use eyenet.Fleet.Identities.{lease_scout}
use eyenet.Fleet.Identities.Leases.{has_available_scout_iff}
use eyenet.Discovery.Eligibility.{
  RawDepth, Fleet, ok, verdict, max_auto_join_depth, is_rooted_in, min_from, depth_gate, policy_of,
  is_covered, evaluate, active_count, reachable_roots_for_collector, collector_eligibility,
}

min_from_below :
    (n : ℕ) (xs : List ℕ) (k : ℕ) → (leb k (min_from n xs) ≡ false) ↔ Any (λ x. x < k) (n ∷ xs)
unfolding min_from
min_from_below n [] k =
    ((λ h. inl (ground arith)), (λ h. elim h [ inl l ↦ ground arith | inr r ↦ absurd r ]))
min_from_below n (x ∷ xs) k =
    let ih = min_from_below (min n x) xs k in
    (
      (λ h. elim (ih.0 h) [
        | inr r ↦ inr (inr r)
        | inl l ↦ elim (Bool-cases (ltb n k)) [
          | inl y ↦ inl (ground arith)
          | inr f ↦ inr (inl (ground arith))
        ]
      ]),
      (λ h. ih.1 (elim h [
        | inl l ↦ inl (ground arith)
        | inr (inl l) ↦ inl (ground arith)
        | inr (inr r) ↦ inr r
      ])),
    )

-- some mention that a reachable root leads to lies below the limit
abbrev pub HasShallow : List ℕ → ℕ → List Mention → Type 0
HasShallow roots limit = Any (λ m. (is_rooted_in roots m ≡ true) × (m.depth_from_root < limit))

depths : List ℕ → List Mention → List ℕ
depths roots mentions = map (λ m. m.depth_from_root) (keep_if (is_rooted_in roots) mentions)

shallow_iff :
    (roots : List ℕ) (limit : ℕ) (ms : List Mention)
    → Any (λ d. d < limit) (depths roots ms) ↔ HasShallow roots limit ms
unfolding depths
shallow_iff roots limit [] = ((λ h. h), (λ h. h))
shallow_iff roots limit (m ∷ ms) =
    let ih = shallow_iff roots limit ms in
    elim (Bool-cases (is_rooted_in roots m)) [
      | inl y ↦ (
        (λ h. elim (rw (depths, y) at h) [ inl l ↦ inl (y, l) | inr r ↦ inr (ih.0 r) ]),
        (λ h. rw (depths, y) (elim h [ inl p ↦ inl p.1 | inr r ↦ inr (ih.1 r) ])),
      )
      | inr n ↦ (
        (λ h. inr (ih.0 (rw (depths, n) at h))),
        (λ h. rw (depths, n) (elim h [ inl p ↦ absurd (ground (arith, p.0, n)) | inr r ↦ ih.1 r ])),
      )
    ]

depth_gate-ok : (ds : List ℕ) (limit : ℕ) → (depth_gate ds limit ≡ ok) ↔ Any (λ d. d < limit) ds
unfolding depth_gate
depth_gate-ok [] limit = ((λ h. absurd (ground (arith, h))), (λ h. absurd h))
depth_gate-ok (d ∷ ds) limit =
    let shallow = min_from_below d ds limit in
    ((λ h. shallow.0 (ground (arith, h))), (λ h. ground (arith, shallow.1 h)))

-- For a candidate and a collector that exist, the verdict is `ok` exactly when the case's policy allows
-- one more active member, some mention under a seed root that the collector reaches lies strictly below
-- its depth limit, and a lease for the candidate's source would hand out a scout.
pub collector_eligibility_iff :
    (candidate_id collector_id : ℕ) (s : Store) (fleet : Fleet) (c : Candidate)
    (collector : RawDepth)
    → get candidate_id s.candidates ≡ some c
    → get collector_id fleet.collectors ≡ some collector
    → (collector_eligibility candidate_id collector_id s fleet ≡ verdict ok) ↔ (
        (is_covered
            (policy_of (resolve_case_for_candidate candidate_id s))
            (active_count c.resulting_group_id fleet.memberships)
          ≡ false)
        × HasShallow
            (reachable_roots_for_collector collector_id s fleet.memberships)
            (max_auto_join_depth collector)
            (mentions_of candidate_id s)
        × (is_some (lease_scout c.source_id fleet.identities).0 ≡ true))
unfolding collector_eligibility evaluate depths
collector_eligibility_iff candidate_id collector_id s fleet c collector found bound =
    let roots = reachable_roots_for_collector collector_id s fleet.memberships in
    let limit = max_auto_join_depth collector in
    let gate = depth_gate-ok (depths roots (mentions_of candidate_id s)) limit in
    let shallow = shallow_iff roots limit (mentions_of candidate_id s) in
    let scout = has_available_scout_iff c.source_id fleet.identities in
    (
      (λ h. (
        ground (arith, h, found, bound),
        shallow.0 (gate.0 (ground (arith, h, found, bound))),
        scout.0 (ground (arith, h, found, bound)),
      )),
      (λ h. ground (arith, found, bound, h.0, gate.1 (shallow.1 h.1), scout.1 h.2)),
    )
