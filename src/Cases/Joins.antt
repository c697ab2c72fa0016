-- ===== src/Cases/Joins.antt =====
-- The tier of a list of members (`_recompute_effective_tier` of
-- eyenet/storage/sqlmodel_repo/cases.py).
use eyenet.Common.{
  ℕ, ◌≤◌, ◌≡◌, refl, sym, ◌∙◌, ◌⊎◌, Option, none, some, List, [], ◌∷◌, arith, All, Any, ltb,
  Bool-cases, inl, inr,
}
use mathlib.Core.Path.{subst}
use eyenet.Tier.{SensitivityTier, normal, restricted, classified, tier_order}
use eyenet.Storage.Table.{rows_where}
use eyenet.Storage.Evidence.{Evidence}
use eyenet.Cases.{MemberRow, CaseStore}
use eyenet.Cases.Members.{
  is_member_of, subject_tier, raise_rank, rank_of, rank_tier, recompute_effective_tier,
}

-- the order of a subject's tier, at most
abbrev pub IsAtMost : ℕ → Option SensitivityTier → Type 0
IsAtMost n none = Unit
IsAtMost n (some t) = tier_order t ≤ n

module _ (evidence : Evidence) where
  raised :
      (o : Option SensitivityTier) (rank : ℕ)
      → (rank ≤ raise_rank o rank) × IsAtMost (raise_rank o rank) o
  raised none rank = (ground arith, tt)
  raised (some t) rank = elim (Bool-cases (ltb rank (tier_order t))) [
    | inl y ↦ rw y (ground (arith, y), ground arith)
    | inr n ↦ rw n (ground arith, ground (arith, n))
  ]

  at_most : (n m : ℕ) (o : Option SensitivityTier) → n ≤ m → IsAtMost n o → IsAtMost m o
  at_most n m none le h = tt
  at_most n m (some t) le h = ground (arith, le, h)

  raise_is :
      (o : Option SensitivityTier) (rank : ℕ)
      → (raise_rank o rank ≡ rank)
        ⊎ ((t : SensitivityTier) × (o ≡ some t) × (tier_order t ≡ raise_rank o rank))
  raise_is none rank = inl refl
  raise_is (some t) rank = elim (Bool-cases (ltb rank (tier_order t))) [
    | inl y ↦ rw y (inr (t, refl, refl))
    | inr n ↦ rw n (inl refl)
  ]

  -- The fold is above its start and every member, and is one of them.
  rank_of_bound :
      (rank : ℕ) (ms : List MemberRow)
      → (rank ≤ rank_of evidence rank ms)
        × All (λ m. IsAtMost (rank_of evidence rank ms) (subject_tier evidence m)) ms
        × ((rank_of evidence rank ms ≡ rank)
            ⊎ Any
                (λ m.
                  (t : SensitivityTier) × (subject_tier evidence m ≡ some t)
                  × (tier_order t ≡ rank_of evidence rank ms))
                ms)
  unfolding rank_of
  rank_of_bound rank [] = (ground arith, tt, inl refl)
  rank_of_bound rank (m ∷ ms) =
      let up = raised (subject_tier evidence m) rank in
      let (le, each, one) = rank_of_bound (raise_rank (subject_tier evidence m) rank) ms in
      (
        ground (arith, le, up.0),
        (at_most _ _ (subject_tier evidence m) le up.1, each),
        elim one [
          | inr later ↦ inr (inr later)
          | inl e ↦ elim (raise_is (subject_tier evidence m) rank) [
            | inl same ↦ inl (e ∙ same)
            | inr (t, s, k) ↦ inr (inl (t, s, k ∙ sym e))
          ]
        ],
      )

  rank_tier_order : (n : ℕ) → n ≤ 2 → tier_order (rank_tier n) ≡ n
  rank_tier_order n le = ground (arith, le)

  rank_le : (rank : ℕ) (ms : List MemberRow) → rank ≤ 2 → rank_of evidence rank ms ≤ 2
  unfolding rank_of
  rank_le rank [] le = le
  rank_le rank (m ∷ ms) le =
      rank_le (raise_rank (subject_tier evidence m) rank) ms (small (subject_tier evidence m))
    where
      small : (o : Option SensitivityTier) → raise_rank o rank ≤ 2
      small none = le
      small (some normal) = ground (arith, le)
      small (some restricted) = ground (arith, le)
      small (some classified) = ground (arith, le)

  -- The tier is the join of the active members' tiers: no member stands above it, and it is the lowest
  -- tier or that of a member.
  abbrev pub IsJoin : SensitivityTier → List MemberRow → Type 0
  IsJoin tier ms =
      All (λ m. IsAtMost (tier_order tier) (subject_tier evidence m)) ms
      × ((tier_order tier ≡ 0)
          ⊎ Any
              (λ m.
                (t : SensitivityTier) × (subject_tier evidence m ≡ some t)
                × (tier_order t ≡ tier_order tier))
              ms)

  pub recompute-IsJoin :
      (case_id : ℕ) (s : CaseStore)
      → IsJoin
          (recompute_effective_tier evidence case_id s)
          (rows_where (is_member_of case_id) s.members)
  unfolding recompute_effective_tier
  recompute-IsJoin case_id s =
      let ms = rows_where (is_member_of case_id) s.members in
      let (le, each, one) = rank_of_bound 0 ms in
      let same = rank_tier_order (rank_of evidence 0 ms) (rank_le 0 ms (ground arith)) in
      subst
        (λ n.
          All (λ m. IsAtMost n (subject_tier evidence m)) ms
          × ((n ≡ 0)
              ⊎ Any
                  (λ m.
                    (t : SensitivityTier) × (subject_tier evidence m ≡ some t) × (tier_order t ≡ n))
                  ms))
        (sym same) (each, one)
