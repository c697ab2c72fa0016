-- ===== src/Fleet/Identities/Leases.antt =====
-- What a lease of a scout hands out (eyenet/storage/sqlmodel_repo/identities.py).
use eyenet.Common.{
  ℕ, ◌≡◌, refl, ◌≢◌, ◌↔◌, Bool, true, false, some, List, [], ◌∷◌, arith, ltb, All, keep_if,
  keep_if_pass, keep_if-All_of, All-of_keep_if, length, is_some, inl, inr, Option-cases,
}
use eyenet.Common.Sorting.{sort, str_le}
use eyenet.Common.Sorting.Laws.{length-sort, All-sort}
use eyenet.Common.Sorting.Least.{first-least, str_le_trans, str_le_total}
use eyenet.Storage.Table.{update, HasDistinctIds, update-only}
use eyenet.Fleet.Identities.{
  lease_found, Identity, Identities, in_use, is_free_scout, is_available_state, name_le, first_of,
  find_available_scout, lease_scout, has_available_scout,
}

-- `has_available_scout` says exactly whether a lease would hand out a scout.
pub has_available_scout_iff :
    (source_id : ℕ) (t : Identities)
    → (has_available_scout source_id t ≡ true) ↔ (is_some (lease_scout source_id t).0 ≡ true)
unfolding has_available_scout lease_scout find_available_scout
has_available_scout_iff source_id t = decide (keep_if (is_free_scout source_id) t)
  where
    leased : List (ℕ × Identity) → Bool
    leased rows = is_some (lease_found (first_of rows) t).0

    decide :
        (rows : List (ℕ × Identity))
        → (ltb 0 (length rows) ≡ true) ↔ (leased (sort name_le rows) ≡ true)
    decide rows = compare_rows rows (sort name_le rows) (length-sort name_le rows)
      where
        compare_rows :
            (rows ordered : List (ℕ × Identity))
            → length ordered ≡ length rows
            → (ltb 0 (length rows) ≡ true) ↔ (leased ordered ≡ true)
        compare_rows rows [] e = ground arith
        compare_rows rows (row ∷ ordered) e = ground arith

first_of-some :
    (rows : List (ℕ × Identity)) (row : ℕ × Identity)
    → first_of rows ≡ some row
    → (rest : List (ℕ × Identity)) × (rows ≡ row ∷ rest)
first_of-some [] row e = absurd (ground (arith, e))
first_of-some (x ∷ rows) row e = (rows, ground (arith, e))

pub lease_scout_first :
    (source_id : ℕ) (t : Identities) (id : ℕ) (r : Identity)
    → find_available_scout source_id t ≡ some (id, r)
    → (lease_scout source_id t
        ≡ (some (id, record r { state = in_use }), update id (record r { state = in_use }) t))
      × (is_free_scout source_id (id, r) ≡ true)
      × All (λ row. is_free_scout source_id row ≡ true → str_le r.name row.1.name ≡ true) t
unfolding lease_scout find_available_scout
lease_scout_first source_id t id r e =
    let (rest, sorted) = first_of-some _ (id, r) e in
    let free = keep_if (is_free_scout source_id) t in
    (
      rw e refl,
      (rw sorted at (All-sort name_le _ free (keep_if_pass (is_free_scout source_id) t))).0,
      All-of_keep_if (is_free_scout source_id) _ t (
          first-least name_le (λ x y z. str_le_trans x.1.name y.1.name z.1.name)
            (λ x y. str_le_total x.1.name y.1.name) free (id, r) rest sorted),
    )

-- a property of all rows holds of the one that a query finds
pub found-All :
    (P : ℕ × Identity → Type 0) (source_id : ℕ) (t : Identities) (row : ℕ × Identity)
    → find_available_scout source_id t ≡ some row
    → All P t
    → P row × (is_free_scout source_id row ≡ true)
unfolding find_available_scout
found-All P source_id t row e h =
    let (rest, sorted) = first_of-some _ row e in
    let free = keep_if (is_free_scout source_id) t in
    (
      (rw sorted at (All-sort name_le P free (keep_if-All_of (is_free_scout source_id) P t h))).0,
      (rw sorted at (All-sort name_le _ free (keep_if_pass (is_free_scout source_id) t))).0,
    )

-- Two leases in a row hand out two different scouts.
pub lease_scout_apart :
    (a b : ℕ) (t : Identities) (id id' : ℕ) (r r' : Identity)
    → HasDistinctIds t
    → (lease_scout a t).0 ≡ some (id, r)
    → (lease_scout b (lease_scout a t).1).0 ≡ some (id', r')
    → id ≢ id'
unfolding lease_scout
lease_scout_apart a b t id id' r r' d first second same =
    elim (Option-cases (find_available_scout a t)) [
      | inl none_free ↦ absurd (ground (arith, none_free, first))
      | inr ((k, x), e) ↦
          let t' = update k (record x { state = in_use }) t in
          let lost =
            update-only (λ y. is_available_state y.state ≡ false) k (record x { state = in_use }) t
              d refl in
          elim (Option-cases (find_available_scout b t')) [
            | inl none_left ↦ absurd (ground (arith, e, none_left, second))
            | inr ((k', x'), e') ↦
                let both = found-All _ b t' (k', x') e' lost in
                let leased : k ≡ id = ground (arith, e, first) in
                let again : k' ≡ id' = ground (arith, e, e', second) in
                absurd (ground (arith, both.0, both.1, leased, again, same))
          ]
    ]
