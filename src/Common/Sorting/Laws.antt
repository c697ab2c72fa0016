-- ===== src/Common/Sorting/Laws.antt =====
-- A sort reorders a list, and a property of all members does not see the order.
use mathlib.Core.List.{Perm}
use mathlib.Core.List.Perm
use mathlib.Core.Bool.{Bool, true, false}
use mathlib.Core.Path.{◌≡◌, refl, ap, ◌∙◌}
use Prim.Native.Nat.{ℕ, suc}
use Prim.Native.String.{String}
use native.Mathlib.Omega.{arith}
use mathlib.Core.List.{List, [], ◌∷◌}
use mathlib.Core.Logic.{inl, inr}
use eyenet.Common.Tests.{Bool-cases}
use eyenet.Common.Lists.{All, length}
use eyenet.Common.Sorting.{insert, sort, codes, codes_lt, str_lt}

module _ {ℓ} {A : Type ℓ} (le : A → A → Bool) where
  insert-perm : (x : A) (ys : List A) → Perm (insert le x ys) (x ∷ ys)
  insert-perm x [] = Perm.refl (x ∷ [])
  insert-perm x (y ∷ ys) = elim (Bool-cases (le x y)) [
    | inl h ↦ rw h (Perm.refl (x ∷ y ∷ ys))
    | inr h ↦ rw h (Perm.trans (Perm.cons y (insert-perm x ys)) (Perm.swap x y ys))
  ]

  -- The sorted list holds the same members, each as often.
  pub sort-perm : (xs : List A) → Perm (sort le xs) xs
  sort-perm [] = Perm.refl []
  sort-perm (x ∷ xs) = Perm.trans (insert-perm x (sort le xs)) (Perm.cons x (sort-perm xs))

  module _ {κ} (P : A → Type κ) where
    All-insert : (x : A) (ys : List A) → P x → All P ys → All P (insert le x ys)
    All-insert x [] h k = (h, tt)
    All-insert x (y ∷ ys) h k = elim (Bool-cases (le x y)) [
      | inl e ↦ rw e (h, k)
      | inr e ↦ rw e (k.0, All-insert x ys h k.1)
    ]

    insert-All : (x : A) (ys : List A) → All P (insert le x ys) → P x × All P ys
    insert-All x [] h = h
    insert-All x (y ∷ ys) h = elim (Bool-cases (le x y)) [
      | inl e ↦ rw e at h
      | inr e ↦
          let split : P y × All P (insert le x ys) = rw e at h in
          let rest = insert-All x ys split.1 in (rest.0, (split.0, rest.1))
    ]

    pub All-sort : (xs : List A) → All P xs → All P (sort le xs)
    All-sort [] h = tt
    All-sort (x ∷ xs) h = All-insert x (sort le xs) h.0 (All-sort xs h.1)

    pub sort-All : (xs : List A) → All P (sort le xs) → All P xs
    sort-All [] h = tt
    sort-All (x ∷ xs) h = let k = insert-All x (sort le xs) h in (k.0, sort-All xs k.1)

codes_lt_trans :
    (xs ys zs : List ℕ) → codes_lt xs ys ≡ true → codes_lt ys zs ≡ true → codes_lt xs zs ≡ true
codes_lt_trans xs ys [] h k = k
codes_lt_trans [] ys (z ∷ zs) h k = refl
codes_lt_trans (x ∷ xs) [] (z ∷ zs) h k = cc
codes_lt_trans (x ∷ xs) (y ∷ ys) (z ∷ zs) h k = ground (arith, codes_lt_trans xs ys zs)

pub str_lt_trans : (a b c : String) → str_lt a b ≡ true → str_lt b c ≡ true → str_lt a c ≡ true
unfolding str_lt
str_lt_trans a b c = codes_lt_trans (codes a) (codes b) (codes c)

codes_lt_irrefl : (xs : List ℕ) → codes_lt xs xs ≡ false
codes_lt_irrefl [] = refl
codes_lt_irrefl (x ∷ xs) = ground (arith, codes_lt_irrefl xs)

pub str_lt_irrefl : (a : String) → str_lt a a ≡ false
unfolding str_lt
str_lt_irrefl a = codes_lt_irrefl (codes a)

module _ {ℓ} {A : Type ℓ} (le : A → A → Bool) where
  length-insert : (x : A) (ys : List A) → length (insert le x ys) ≡ suc (length ys)
  length-insert x [] = refl
  length-insert x (y ∷ ys) = ground (arith, length-insert x ys)

  pub length-sort : (xs : List A) → length (sort le xs) ≡ length xs
  length-sort [] = refl
  length-sort (x ∷ xs) = length-insert x (sort le xs) ∙ ap suc (length-sort xs)
