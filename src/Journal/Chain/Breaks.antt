-- ===== src/Journal/Chain/Breaks.antt =====
-- Where the walk over a hash chain stops (`verify_chain` of eyenet/contracts/audit.py), and what the
-- endpoint says of it (eyenet/api/v1/audit/api_verify_audit.py).
use eyenet.Common.{
  ℕ, zero, suc, ◌+◌, ◌≡◌, ◌≢◌, refl, sym, ap, ◌∙◌, ◌↔◌, ◌⊎◌, Bool, true, false, Option, none, some,
  List, [], ◌∷◌, arith, take, get_elem?, Bool-cases, Option-cases, inl, inr,
}
use eyenet.Journal.Chain.{
  Link, in_seq_order, walk, verify_chain, ChainBreak, VerifyResult, first_break_of, audit_verify,
  before,
}
use eyenet.Journal.Chain.Laws.{IsLinked, last_hash}

module _ {R H : Type 0} (genesis : H) (digest : R → H → H) (same : H → H → Bool)
    (same_iff : (a b : H) → (same a b ≡ true) ↔ (a ≡ b)) where
  -- A row that does not follow the hash `p`: its link is another one, or its own hash is not that of
  -- its content.
  abbrev pub IsBroken : H → Link R H → Type 0
  IsBroken p l = (l.prev_hash ≢ p) ⊎ (l.self_hash ≢ digest l.row l.prev_hash)

  -- The rows are linked up to the row `i`, which is broken.
  abbrev pub BreaksAt : H → List (Link R H) → ℕ → Type 0
  BreaksAt p rows i =
      IsLinked digest p (take i rows)
      × (l : Link R H) × (get_elem? rows i ≡ some l)
      × IsBroken (last_hash p (take i rows)) l

  differ : (a b : H) → same a b ≡ false → a ≢ b
  differ a b n e = ground (arith, n, (same_iff a b).1 e)

  from_zero : (i : ℕ) → i ≡ 0 + i
  from_zero i = omega arith

  -- The walk ends well, and the rows are linked, or it stops at the first broken row.
  walk_found :
      (p : H) (i : ℕ) (t : List (Link R H))
      → ((walk genesis digest same p i t ≡ (true, none)) × IsLinked digest p t)
        ⊎ ((k : ℕ) × (walk genesis digest same p i t ≡ (false, some (k + i))) × BreaksAt p t k)
  unfolding walk
  walk_found p i [] = inl (refl, tt)
  walk_found p i (l ∷ ls) = elim (Bool-cases (same l.prev_hash p)) [
    | inr n ↦ inr (
      0,
      rw n (ap (λ m. (false, some m)) (from_zero i)),
      (tt, l, refl, inl (differ l.prev_hash p n)),
    )
    | inl y ↦ elim (Bool-cases (same l.self_hash (digest l.row l.prev_hash))) [
      | inr n ↦ inr (
        0,
        rw (y, n) (ap (λ m. (false, some m)) (from_zero i)),
        (tt, l, refl, inr (differ l.self_hash (digest l.row l.prev_hash) n)),
      )
      | inl z ↦
          let link : (l.prev_hash ≡ p) × (l.self_hash ≡ digest l.row l.prev_hash) =
            ((same_iff l.prev_hash p).0 y, (same_iff l.self_hash (digest l.row l.prev_hash)).0 z) in
          elim (walk_found l.self_hash (suc i) ls) [
            | inl (e, h) ↦ inl (rw (y, z) e, (link, h))
            | inr (k, e, h) ↦
                let same_index : k + suc i ≡ suc k + i = omega arith in
                inr (
                  suc k,
                  rw (y, z) (e ∙ ap (λ n. (false, some n)) same_index),
                  ((link, h.0), h.1, h.2, h.3),
                )
          ]
    ]
  ]

  -- what the walk says of the rows
  abbrev pub Judges : List (Link R H) → Bool × Option ℕ → Type 0
  Judges rows verdict =
      ((verdict ≡ (true, none)) × IsLinked digest genesis rows)
      ⊎ ((k : ℕ) × (verdict ≡ (false, some k)) × BreaksAt genesis rows k)

  -- Where the test of two hashes is equality, a chain is accepted when every row is linked to
  -- the row before it, the first one to the genesis, and has the hash of its content;
  -- otherwise it is refused at its first row that is not so.
  pub verify_chain_iff :
      (rows : List (Link R H)) → Judges rows (verify_chain genesis digest same rows)
  verify_chain_iff rows = elim (walk_found genesis 0 rows) [
    | inl h ↦ inl h
    | inr (k, e, h) ↦
        let same_index : k + 0 ≡ k = omega arith in
        inr (k, e ∙ ap (λ n. (false, some n)) same_index, h)
  ]

  last_at :
      (p : H) (rows : List (Link R H)) (i : ℕ) (l : Link R H)
      → get_elem? rows i ≡ some l
      → last_hash p (take (suc i) rows) ≡ l.self_hash
  last_at p [] i l e = absurd (ground (arith, e))
  last_at p (m ∷ ms) zero l e = ground (arith, e)
  last_at p (m ∷ ms) (suc i) l e = last_at m.self_hash ms i l e

  -- In range, the row before the index is there.
  before_found :
      (p : H) (rows : List (Link R H)) (i : ℕ) (l : Link R H)
      → get_elem? rows i ≡ some l
      → before p rows i ≡ last_hash p (take i rows)
  before_found p rows zero l e = refl
  before_found p [] (suc i) l e = absurd (ground (arith, e))
  before_found p (m ∷ ms) (suc zero) l e = refl
  before_found p (m ∷ ms) (suc (suc i)) l e = before_deep p (m ∷ ms) (suc i) l e
    where
      before_deep :
          (p : H) (rows : List (Link R H)) (i : ℕ) (l : Link R H)
          → get_elem? rows (suc i) ≡ some l
          → before p rows (suc i) ≡ last_hash p (take (suc i) rows)
      before_deep p rows i l e = elim (Option-cases (get_elem? rows i)) [
        | inl n ↦ absurd (beyond rows i l n e)
        | inr (m, f) ↦ rw f (sym (last_at p rows i m f))
      ]
        where
          beyond :
              (rows : List (Link R H)) (i : ℕ) (l : Link R H)
              → get_elem? rows i ≡ none
              → get_elem? rows (suc i) ≡ some l
              → ⊥
          beyond [] i l n e = ground (arith, e)
          beyond (x ∷ xs) zero l n e = ground (arith, n)
          beyond (x ∷ xs) (suc i) l n e = beyond xs i l n e

  module _ (id : R → ℕ) where
    -- The answer names the broken row and two hashes that differ.
    pub Names : List (Link R H) → ℕ → ChainBreak H → Type 0
    Names rows k b =
        (l : Link R H) × (get_elem? rows k ≡ some l)
        × (b.event_id ≡ id l.row)
        × (b.expected_hash ≢ b.actual_hash)

    -- what the endpoint answers about the rows
    abbrev pub Explains : List (Link R H) → VerifyResult H → Type 0
    Explains rows answer =
        ((answer.verified ≡ true) × (answer.first_break ≡ none) × IsLinked digest genesis rows)
        ⊎ ((k : ℕ) × (answer.verified ≡ false)
            × BreaksAt genesis rows k
            × (b : ChainBreak H) × (answer.first_break ≡ some b)
            × Names rows k b)

    -- Where the test of two hashes is equality, the endpoint reports no break of a sound
    -- chain, and for another one the first broken row in the order of the sequence numbers,
    -- with an expected and an actual hash that differ.
    pub audit_verify_break :
        (t : List (Link R H)) → Explains (in_seq_order t) (audit_verify genesis digest same id t)
    unfolding audit_verify Names
    audit_verify_break t = elim (verify_chain_iff (in_seq_order t)) [
      | inl (e, h) ↦ inl (rw e (refl, refl, h))
      | inr (k, e, h) ↦
          let rows = in_seq_order t in
          let (linked, l, g, w) = h in
          elim (Bool-cases (same l.self_hash (digest l.row l.prev_hash))) [
            | inl y ↦
                let found : first_break_of genesis digest same id rows (false, some k)
                    ≡ some (record {
                      event_id = id l.row;
                      expected_hash = before genesis rows k;
                      actual_hash = l.prev_hash;
                    }) =
                  rw (g, y) refl in
                inr (
                  k,
                  rw e refl,
                  h,
                  _,
                  ap (λ v. first_break_of genesis digest same id rows v) e ∙ found,
                  (
                    l,
                    g,
                    refl,
                    λ d. elim w [
                      | inl far ↦ far (sym d ∙ before_found genesis rows k l g)
                      | inr off ↦ off ((same_iff l.self_hash (digest l.row l.prev_hash)).0 y)
                    ],
                  ),
                )
            | inr n ↦
                let found : first_break_of genesis digest same id rows (false, some k)
                    ≡ some (record {
                      event_id = id l.row;
                      expected_hash = digest l.row l.prev_hash;
                      actual_hash = l.self_hash;
                    }) =
                  rw (g, n) refl in
                inr (
                  k,
                  rw e refl,
                  h,
                  _,
                  ap (λ v. first_break_of genesis digest same id rows v) e ∙ found,
                  (l, g, refl, λ d. differ l.self_hash (digest l.row l.prev_hash) n (sym d)),
                )
          ]
    ]
