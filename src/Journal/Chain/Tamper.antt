-- ===== src/Journal/Chain/Tamper.antt =====
-- What the head of a hash chain says of a table that passes the walk (eyenet/contracts/audit.py,
-- eyenet/storage/sqlite_repo/repository.py).
use eyenet.Common.{
  ◌≡◌, ◌≢◌, refl, sym, ap, ◌∙◌, ◌↔◌, Bool, true, none, List, [], ◌∷◌, arith, inl, inr,
}
use mathlib.Core.Path.{subst}
use eyenet.Journal.Chain.{Link, newest, in_seq_order, contents, head_hash, append_all, verify_chain}
use eyenet.Journal.Chain.Laws.{
  IsLinked, last_hash, newest_last, append_all-IsChain, contents-append_all,
}
use eyenet.Journal.Chain.Breaks.{verify_chain_iff}

module _ {R H : Type 0} (genesis : H) (digest : R → H → H)
    (digest_collides : (a b : R) (p q : H) → digest a p ≡ digest b q → (a ≡ b) × (p ≡ q))
    (digest_genesis : (a : R) (p : H) → digest a p ≢ genesis) where
  -- the head of a chain whose rows are listed from the newest one back
  back : List R → H
  back [] = genesis
  back (row ∷ rows) = digest row (back rows)

  onto : List R → List R → List R
  onto [] acc = acc
  onto (x ∷ xs) acc = onto xs (x ∷ acc)

  onto-onto : (xs acc : List R) → onto (onto xs acc) [] ≡ onto acc xs
  unfolding onto
  onto-onto [] acc = refl
  onto-onto (x ∷ xs) acc = onto-onto xs (x ∷ acc)

  back_only : (a b : List R) → back a ≡ back b → a ≡ b
  unfolding back
  back_only [] [] e = refl
  back_only [] (y ∷ b) e = absurd (digest_genesis y (back b) (sym e))
  back_only (x ∷ a) [] e = absurd (digest_genesis x (back a) e)
  back_only (x ∷ a) (y ∷ b) e =
      let (row, rest) = digest_collides x y (back a) (back b) e in
      ap (λ r. r ∷ a) row ∙ ap (λ l. y ∷ l) (back_only a b rest)

  last_back :
      (acc : List R) (t : List (Link R H))
      → IsLinked digest (back acc) t
      → last_hash (back acc) t ≡ back (onto (contents t) acc)
  unfolding back onto
  last_back acc [] h = refl
  last_back acc (l ∷ ls) h =
      let next : l.self_hash ≡ digest l.row (back acc) = h.0.1 ∙ ap (λ p. digest l.row p) h.0.0 in
      ap (λ p. last_hash p ls) next
      ∙ last_back (l.row ∷ acc) ls (subst (λ p. IsLinked digest p ls) next h.1)

  linked_only :
      (a b : List (Link R H))
      → IsLinked digest genesis a
      → IsLinked digest genesis b
      → last_hash genesis a ≡ last_hash genesis b
      → contents a ≡ contents b
  unfolding back onto
  linked_only a b h k e =
      let same =
        back_only (onto (contents a) []) (onto (contents b) [])
          (sym (last_back [] a h) ∙ e ∙ last_back [] b k) in
      sym (onto-onto (contents a) []) ∙ ap (λ r. onto r []) same ∙ onto-onto (contents b) []

  -- Where the digest has no collisions and never gives the genesis hash, and the test of two hashes is
  -- equality: a table that `verify_chain` accepts, and whose last row in the order of the sequence
  -- numbers has the head hash of the chain that appending some rows made, holds exactly these rows,
  -- in their order.
  pub head_hash_determines :
      (same : H → H → Bool)
      → ((a b : H) → (same a b ≡ true) ↔ (a ≡ b))
      → (rows : List R) (t : List (Link R H))
      → verify_chain genesis digest same (in_seq_order t) ≡ (true, none)
      → last_hash genesis (in_seq_order t)
        ≡ head_hash genesis (newest (append_all genesis digest rows []))
      → contents (in_seq_order t) ≡ rows
  head_hash_determines same same_iff rows t ok e =
      let chain = append_all genesis digest rows [] in
      let (ascending, linked) = append_all-IsChain genesis digest rows [] (tt, tt) in
      elim (verify_chain_iff genesis digest same same_iff (in_seq_order t)) [
        | inl h ↦
            linked_only (in_seq_order t) chain h.1 linked (e ∙ newest_last genesis chain ascending)
            ∙ contents-append_all genesis digest rows []
        | inr h ↦ absurd (ground (arith, ok, h.1))
      ]
