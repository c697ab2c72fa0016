-- ===== src/Storage/Table.antt =====
-- A database table as a list of rows under their primary keys: `session.get` and the write of a row
-- that was read.
use mathlib.Core.Path.{subst}
use eyenet.Common.{
  All, All-map, ◌≢◌, Bool-cases, inl, inr, ℕ, ◌++◌, ◌≡◌, Bool, true, Option, none, some, List, [],
  ◌∷◌, ◌==◌, if◌then◌else◌, arith,
}

abbrev pub Table {ℓ} : Type ℓ → Type ℓ
Table R = List (ℕ × R)

module _ {ℓ} {R : Type ℓ} where
  -- `session.get(…, id)`
  unfoldable pub get : ℕ → Table R → Option R
  get id [] = none
  get id ((k, r) ∷ t) = if k == id then some r else get id t

  -- The row under a key is written; a key that is not there stays so.
  unfoldable pub update : ℕ → R → Table R → Table R
  update id r [] = []
  update id r ((k, old) ∷ t) = if k == id then (k, r) ∷ t else (k, old) ∷ update id r t

  -- the row of a query that selects at most one
  pub find_row : (R → Bool) → Table R → Option (ℕ × R)
  find_row p [] = none
  find_row p ((k, r) ∷ t) = if p r then some (k, r) else find_row p t

  -- the rows of a query, without their keys
  pub rows_where : (R → Bool) → Table R → List R
  rows_where p [] = []
  rows_where p ((k, r) ∷ t) = let rest = rows_where p t in if p r then r ∷ rest else rest

  abbrev write_over : Option R → R → Option R
  write_over none r = none
  write_over (some old) r = some r

  pub get-update :
      (id j : ℕ) (r : R) (t : Table R)
      → get j (update id r t) ≡ (if id == j then write_over (get id t) r else get j t)
  unfolding get update
  get-update id j r [] = ground arith
  get-update id j r ((k, old) ∷ t) = ground (arith, get-update id j r t)

  pub get-update_self :
      (id : ℕ) (r old : R) (t : Table R) → get id t ≡ some old → get id (update id r t) ≡ some r
  get-update_self id r old t h = ground (arith, get-update id id r t)

  pub get-append :
      (t : Table R) (id j : ℕ) (r : R)
      → get j (t ++ (id, r) ∷ [])
        ≡ elim (get j t) [ none ↦ (if id == j then some r else none) | some old ↦ some old ]
  unfolding get
  get-append [] id j r = ground arith
  get-append ((k, old) ∷ t) id j r = ground (arith, get-append t id j r)

  module _ (p : R → Bool) where
    pub find_row_sound : (t : Table R) (k : ℕ) (r : R) → find_row p t ≡ some (k, r) → p r ≡ true
    unfolding find_row
    find_row_sound [] k r e = absurd (ground (arith, e))
    find_row_sound ((j, x) ∷ t) k r e = elim (Bool-cases (p x)) [
      | inl y ↦ ground (arith, e, y)
      | inr n ↦ find_row_sound t k r (ground (arith, e, n))
    ]

    pub find_row-append :
        (t : Table R) (k : ℕ) (r : R)
        → find_row p t ≡ none
        → p r ≡ true
        → find_row p (t ++ (k, r) ∷ []) ≡ some (k, r)
    unfolding find_row
    find_row-append [] k r e y = ground arith
    find_row-append ((j, x) ∷ t) k r e y = elim (Bool-cases (p x)) [
      | inl h ↦ absurd (ground (arith, e, h))
      | inr n ↦ rw n (find_row-append t k r (ground (arith, e, n)) y)
    ]

    -- The selected row is written with columns that keep it selected.
    pub find_row-update :
        (k : ℕ) (old r : R) (t : Table R)
        → find_row p t ≡ some (k, old)
        → p r ≡ true
        → find_row p (update k r t) ≡ some (k, r)
    unfolding find_row update
    find_row-update k old r [] e y = absurd (ground (arith, e))
    find_row-update k old r ((j, x) ∷ t) e y = elim (Bool-cases (j == k)) [
      | inl same ↦ ground (arith, same, y)
      | inr other ↦ elim (Bool-cases (p x)) [
        | inl h ↦ absurd (ground (arith, e, h, other))
        | inr n ↦ rw (other, n) (find_row-update k old r t (ground (arith, e, n)) y)
      ]
    ]

  module _ (P : ℕ × R → Type 0) where
    pub find_row-All :
        (p : R → Bool) (t : Table R) (row : ℕ × R)
        → All P t
        → find_row p t ≡ some row
        → P row × (p row.1 ≡ true)
    unfolding find_row
    find_row-All p [] row h e = absurd (ground (arith, e))
    find_row-All p ((k, r) ∷ t) row h e = elim (Bool-cases (p r)) [
      | inl y ↦
          let same : (k, r) ≡ row = ground (arith, e, y) in
          (subst P same h.0, ground (arith, y, same))
      | inr n ↦ find_row-All p t row h.1 (ground (arith, e, n))
    ]

    pub get-All : (id : ℕ) (t : Table R) (r : R) → All P t → get id t ≡ some r → P (id, r)
    unfolding get
    get-All id [] r h e = absurd (ground (arith, e))
    get-All id ((k, x) ∷ t) r h e = elim (Bool-cases (k == id)) [
      | inl y ↦ let same : (k, x) ≡ (id, r) = ground (arith, e, y) in subst P same h.0
      | inr n ↦ get-All id t r h.1 (ground (arith, e, n))
    ]

    pub update-All : (id : ℕ) (r : R) (t : Table R) → All P t → P (id, r) → All P (update id r t)
    unfolding update
    update-All id r [] h q = tt
    update-All id r ((k, x) ∷ t) h q = elim (Bool-cases (k == id)) [
      | inl y ↦ let same : (id, r) ≡ (k, r) = ground (arith, y) in rw y (subst P same q, h.1)
      | inr n ↦ rw n (h.0, update-All id r t h.1 q)
    ]

-- Each row stands under a key of its own.
abbrev pub HasDistinctIds {ℓ} : {R : Type ℓ} → Table R → Type 0
HasDistinctIds [] = Unit
HasDistinctIds (row ∷ t) = All (λ other. other.0 ≢ row.0) t × HasDistinctIds t

module _ {R : Type 0} where
  -- What a written row has, every row under its key has.
  pub update-only :
      (Q : R → Type 0) (k : ℕ) (r : R) (t : Table R)
      → HasDistinctIds t
      → Q r
      → All (λ row. row.0 ≡ k → Q row.1) (update k r t)
  unfolding update
  update-only Q k r [] d q = tt
  update-only Q k r ((j, x) ∷ t) d q = elim (Bool-cases (j == k)) [
    | inl same ↦
        rw same ((λ _. q), All-map _ _ t (λ row n e. absurd (ground (arith, n, e, same))) d.0)
    | inr other ↦ rw other ((λ e. absurd (ground (arith, other, e))), update-only Q k r t d.1 q)
  ]

  -- What the row that is read has, every row under its key has.
  pub get-only :
      (Q : R → Type 0) (k : ℕ) (r : R) (t : Table R)
      → HasDistinctIds t
      → get k t ≡ some r
      → Q r
      → All (λ row. row.0 ≡ k → Q row.1) t
  unfolding get
  get-only Q k r [] d e q = tt
  get-only Q k r ((j, x) ∷ t) d e q = elim (Bool-cases (j == k)) [
    | inl same ↦
        let it : r ≡ x = ground (arith, e, same) in
        ((λ _. subst Q it q), All-map _ _ t (λ row n h. absurd (ground (arith, n, h, same))) d.0)
    | inr other ↦ (
      (λ h. absurd (ground (arith, other, h))),
      get-only Q k r t d.1 (ground (arith, e, other)) q,
    )
  ]
