-- ===== src/Journal/Chain/Laws.antt =====
-- A chain built by appends, and the walk over it.
use eyenet.Common.{
  ℕ, suc, ◌<◌, ◌≡◌, refl, sym, ap, ◌∙◌, ◌↔◌, Bool, true, none, some, List, [], ◌∷◌, ◌++◌, arith,
  leb, ltb, All, All-append, All-map, Bool-cases, Option-cases, inl, inr,
}
use mathlib.Core.Path.{subst}
use mathlib.Core.List.{append-nil, append_assoc}
use eyenet.Common.Sorting.{insert}
use eyenet.Journal.Chain.{
  Link, newest, in_seq_order, contents, head_hash, next_seq, next_link, append_chain, append_all,
  walk, verify_chain, journal_walk, verify_file_access_chain,
}

module _ {R H : Type 0} where
  abbrev pub IsAscending : List (Link R H) → Type 0
  IsAscending [] = Unit
  IsAscending (l ∷ ls) = All (λ m. l.seq < m.seq) ls × IsAscending ls

  pub in_seq_order_id : (t : List (Link R H)) → IsAscending t → in_seq_order t ≡ t
  in_seq_order_id [] h = refl
  in_seq_order_id (l ∷ ls) h = rw (in_seq_order_id ls h.1) (front ls h.0)
    where
      front :
          (ls : List (Link R H))
          → All (λ m. l.seq < m.seq) ls
          → insert (λ a b. leb a.seq b.seq) l ls ≡ l ∷ ls
      front [] h = refl
      front (m ∷ ms) h = ground (arith, h.0)

  pub newest-append :
      (t : List (Link R H)) (l : Link R H)
      → All (λ m. m.seq < l.seq) t
      → newest (t ++ l ∷ []) ≡ some l
  unfolding newest
  newest-append [] l h = refl
  newest-append (m ∷ t) l h = rw (newest-append t l h.1) (ground (arith, h.0))

  pub append-IsAscending :
      (t : List (Link R H)) (l : Link R H)
      → IsAscending t
      → All (λ m. m.seq < l.seq) t
      → IsAscending (t ++ l ∷ [])
  append-IsAscending [] l a h = (tt, tt)
  append-IsAscending (m ∷ t) l a h =
      (All-append _ t (l ∷ []) a.0 (h.0, tt), append-IsAscending t l a.1 h.1)

  pub contents-append :
      (t : List (Link R H)) (l : Link R H) → contents (t ++ l ∷ []) ≡ contents t ++ l.row ∷ []
  contents-append [] l = refl
  contents-append (m ∷ t) l = ap (λ r. m.row ∷ r) (contents-append t l)

  newest-All :
      (P : Link R H → Type 0) (t : List (Link R H)) (m : Link R H)
      → All P t
      → newest t ≡ some m
      → P m
  unfolding newest
  newest-All P [] m h e = absurd (ground (arith, e))
  newest-All P (l ∷ ls) m h e = elim (Option-cases (newest ls)) [
    | inl n ↦ let it : l ≡ m = ground (arith, e, n) in subst P it h.0
    | inr (x, f) ↦ elim (Bool-cases (ltb l.seq x.seq)) [
      | inl y ↦ let it : x ≡ m = ground (arith, e, f, y) in subst P it (newest-All P ls x h.1 f)
      | inr n ↦ let it : l ≡ m = ground (arith, e, f, n) in subst P it h.0
    ]
  ]

  -- every row stands before the next one
  pub below_next : (t : List (Link R H)) → All (λ m. m.seq < next_seq (newest t)) t
  unfolding newest
  below_next [] = tt
  below_next (l ∷ ls) = elim (Option-cases (newest ls)) [
    | inl e ↦
        let it : newest (l ∷ ls) ≡ some l = rw (newest, e) refl in
        subst (λ o. All (λ x. x.seq < next_seq o) (l ∷ ls)) (sym it)
          (
            omega arith,
            All-map (λ x. x.seq < 1) (λ x. x.seq < suc l.seq) ls (λ x lt. ground (arith, lt))
                (rw e at (below_next ls)),
          )
    | inr (m, e) ↦ elim (Bool-cases (ltb l.seq m.seq)) [
      | inl y ↦
          let it : newest (l ∷ ls) ≡ some m = rw (newest, e, y) refl in
          subst (λ o. All (λ x. x.seq < next_seq o) (l ∷ ls)) (sym it)
            (ground (arith, y), rw e at (below_next ls))
      | inr n ↦
          let it : newest (l ∷ ls) ≡ some l = rw (newest, e, n) refl in
          subst (λ o. All (λ x. x.seq < next_seq o) (l ∷ ls)) (sym it)
            (
              omega arith,
              All-map (λ x. x.seq < suc m.seq) (λ x. x.seq < suc l.seq) ls
                  (λ x lt. ground (arith, lt, n)) (rw e at (below_next ls)),
            )
    ]
  ]

  -- A chain whose rows link from a hash on.
  abbrev pub IsLinked : (digest : R → H → H) → H → List (Link R H) → Type 0
  IsLinked digest p [] = Unit
  IsLinked digest p (l ∷ ls) =
      ((l.prev_hash ≡ p) × (l.self_hash ≡ digest l.row l.prev_hash))
      × IsLinked digest l.self_hash ls

  -- the hash that a chain ends in
  abbrev pub last_hash : H → List (Link R H) → H
  last_hash p [] = p
  last_hash p (l ∷ ls) = last_hash l.self_hash ls

  pub append-IsLinked :
      (digest : R → H → H) (p : H) (t : List (Link R H)) (l : Link R H)
      → IsLinked digest p t
      → l.prev_hash ≡ last_hash p t
      → l.self_hash ≡ digest l.row l.prev_hash
      → IsLinked digest p (t ++ l ∷ [])
  append-IsLinked digest p [] l h e f = ((e, f), tt)
  append-IsLinked digest p (m ∷ t) l h e f = (h.0, append-IsLinked digest m.self_hash t l h.1 e f)

  -- In rows that ascend, the newest one is the last one.
  pub newest_last :
      (genesis : H) (t : List (Link R H))
      → IsAscending t
      → head_hash genesis (newest t) ≡ last_hash genesis t
  unfolding newest
  newest_last genesis [] a = refl
  newest_last genesis (l ∷ ls) a = elim (Option-cases (newest ls)) [
    | inl e ↦ rw e (rw e at (newest_last l.self_hash ls a.1))
    | inr (m, e) ↦
        let lt : l.seq < m.seq = newest-All (λ x. l.seq < x.seq) ls m a.0 e in
        ground (arith, e, lt, newest_last l.self_hash ls a.1)
  ]

module _ {R H : Type 0} (genesis : H) (digest : R → H → H) where
  -- What every append keeps: the numbers ascend in the order of the rows, and each row is linked.
  abbrev pub IsChain : List (Link R H) → Type 0
  IsChain t = IsAscending t × IsLinked digest genesis t

  pub append_chain-IsChain :
      (row : R) (t : List (Link R H)) → IsChain t → IsChain (append_chain genesis digest row t)
  unfolding append_chain
  append_chain-IsChain row t h = (
    append-IsAscending t (next_link genesis digest row (newest t)) h.0 (below_next t),
    append-IsLinked digest genesis t (next_link genesis digest row (newest t)) h.1
        (newest_last genesis t h.0) refl,
  )

  pub contents-append_all :
      (rows : List R) (t : List (Link R H))
      → contents (append_all genesis digest rows t) ≡ contents t ++ rows
  unfolding append_all append_chain
  contents-append_all [] t = sym (append-nil (contents t))
  contents-append_all (row ∷ rows) t =
      contents-append_all rows (append_chain genesis digest row t)
      ∙ ap (λ c. c ++ rows) (contents-append t (next_link genesis digest row (newest t)))
      ∙ append_assoc (contents t) (row ∷ []) rows

  pub append_all-IsChain :
      (rows : List R) (t : List (Link R H)) → IsChain t → IsChain (append_all genesis digest rows t)
  unfolding append_all
  append_all-IsChain [] t h = h
  append_all-IsChain (row ∷ rows) t h =
      append_all-IsChain rows (append_chain genesis digest row t) (append_chain-IsChain row t h)

  module _ (same : H → H → Bool) (same_iff : (a b : H) → (same a b ≡ true) ↔ (a ≡ b)) where
    pub walk_linked :
        (p : H) (i : ℕ) (t : List (Link R H))
        → IsLinked digest p t
        → walk genesis digest same p i t ≡ (true, none)
    unfolding walk
    walk_linked p i [] h = refl
    walk_linked p i (l ∷ ls) h =
        rw
          (
            (same_iff l.prev_hash p).1 h.0.0,
            (same_iff l.self_hash (digest l.row l.prev_hash)).1 h.0.1,
          )
          (walk_linked l.self_hash (suc i) ls h.1)

    same_flip : (a b : H) → same a b ≡ same b a
    same_flip a b = elim (Bool-cases (same a b)) [
      | inl y ↦ y ∙ sym ((same_iff b a).1 (sym ((same_iff a b).0 y)))
      | inr n ↦ elim (Bool-cases (same b a)) [
        | inl y ↦ absurd (ground (arith, n, (same_iff a b).1 (sym ((same_iff b a).0 y))))
        | inr n' ↦ n ∙ sym n'
      ]
    ]

    pub journal_walk_ok :
        (p : H) (i : ℕ) (t : List (Link R H))
        → journal_walk genesis digest same p t ≡ (walk genesis digest same p i t).0
    unfolding walk journal_walk
    journal_walk_ok p i [] = refl
    journal_walk_ok p i (l ∷ ls) = elim (Bool-cases (same l.prev_hash p)) [
      | inl y ↦
          let flip : same (digest l.row p) l.self_hash
              ≡ same l.self_hash (digest l.row l.prev_hash) =
            same_flip (digest l.row p) l.self_hash
            ∙ ap (λ h. same l.self_hash (digest l.row h)) (sym ((same_iff l.prev_hash p).0 y)) in
          elim (Bool-cases (same l.self_hash (digest l.row l.prev_hash))) [
            | inl ok ↦ rw (y, flip, ok) (journal_walk_ok l.self_hash (suc i) ls)
            | inr other ↦ rw (y, flip, other) refl
          ]
      | inr n ↦ rw n refl
    ]

    pub chain_verifies :
        (t : List (Link R H)) → IsChain t → verify_file_access_chain genesis digest same t ≡ true
    chain_verifies t h =
        rw (in_seq_order_id t h.0)
          (journal_walk_ok genesis 0 t ∙ ap (λ r. r.0) (walk_linked genesis 0 t h.1))

    -- The rows that are appended to an empty chain are read back in their order, and the
    -- chain that stores them passes both walks, where their test of two hashes is equality.
    pub append_all_verify :
        (rows : List R)
        → let t = append_all genesis digest rows [] in
          (contents (in_seq_order t) ≡ rows)
          × (verify_chain genesis digest same (in_seq_order t) ≡ (true, none))
          × (verify_file_access_chain genesis digest same t ≡ true)
    append_all_verify rows =
        let t = append_all genesis digest rows [] in
        let h : IsChain t = append_all-IsChain rows [] (tt, tt) in
        let order : in_seq_order t ≡ t = in_seq_order_id t h.0 in
        let ok : walk genesis digest same genesis 0 t ≡ (true, none) =
          walk_linked genesis 0 t h.1 in
        rw order (contents-append_all rows [], ok, journal_walk_ok genesis 0 t ∙ ap (λ r. r.0) ok)
