-- ===== src/Common/Sorting/Least.antt =====
-- The first element of a sorted list is a least one, for an order that is total and transitive, such as
-- the order of texts.
use Prim.Native.Nat.{ℕ}
use Prim.Native.String.{String}
use mathlib.Core.Bool.{Bool, true, false, ◌||◌}
use mathlib.Core.List.{List, [], ◌∷◌}
use mathlib.Core.Logic.{inl, inr}
use mathlib.Core.Path.{◌≡◌, refl, subst}
use native.Mathlib.Omega.{arith}
use eyenet.Common.Tests.{Bool-cases}
use eyenet.Common.Lists.{All, All-map}
use eyenet.Common.Sorting.{insert, sort, codes, codes_lt, str_lt, str_le}
use eyenet.Common.Sorting.Laws.{str_lt_trans, str_lt_irrefl, sort-All}

codes_lt_apart :
    (xs ys zs : List ℕ) → codes_lt xs zs ≡ true → (codes_lt xs ys || codes_lt ys zs) ≡ true
codes_lt_apart xs ys [] h = absurd (ground (arith, h))
codes_lt_apart [] [] (z ∷ zs) h = refl
codes_lt_apart [] (y ∷ ys) (z ∷ zs) h = refl
codes_lt_apart (x ∷ xs) [] (z ∷ zs) h = ground (arith, h)
codes_lt_apart (x ∷ xs) (y ∷ ys) (z ∷ zs) h = ground (arith, codes_lt_apart xs ys zs)

pub str_le_trans : (a b c : String) → str_le a b ≡ true → str_le b c ≡ true → str_le a c ≡ true
unfolding str_lt str_le
str_le_trans a b c h k = ground (arith, codes_lt_apart (codes c) (codes b) (codes a))

pub str_le_total : (a b : String) → str_le a b ≡ false → str_le b a ≡ true
unfolding str_le
str_le_total a b h = ground (arith, str_lt_trans a b a, str_lt_irrefl a)

module _ {A : Type 0} (le : A → A → Bool)
    (le_trans : (a b c : A) → le a b ≡ true → le b c ≡ true → le a c ≡ true)
    (le_total : (a b : A) → le a b ≡ false → le b a ≡ true) where
  -- the first element of a list lies below all that follow
  abbrev IsLeast : List A → Type 0
  IsLeast [] = Unit
  IsLeast (y ∷ ys) = (le y y ≡ true) × All (λ z. le y z ≡ true) ys

  le_refl : (a : A) → le a a ≡ true
  le_refl a = elim (Bool-cases (le a a)) [ inl y ↦ y | inr n ↦ le_total a a n ]

  insert-IsLeast : (x : A) (ys : List A) → IsLeast ys → IsLeast (insert le x ys)
  insert-IsLeast x [] h = (le_refl x, tt)
  insert-IsLeast x (y ∷ ys) h = elim (Bool-cases (le x y)) [
    | inl below ↦ rw below (le_refl x, (below, All-map _ _ ys (λ z k. le_trans x y z below k) h.1))
    | inr above ↦ rw above (h.0, insert-above x y ys (le_total x y above) h.1)
  ]
    where
      insert-above :
          (x y : A) (ys : List A)
          → le y x ≡ true
          → All (λ z. le y z ≡ true) ys
          → All (λ z. le y z ≡ true) (insert le x ys)
      insert-above x y [] k q = (k, tt)
      insert-above x y (z ∷ ys) k q = elim (Bool-cases (le x z)) [
        | inl e ↦ rw e (k, q)
        | inr e ↦ rw e (q.0, insert-above x y ys k q.1)
      ]

  sort-IsLeast : (xs : List A) → IsLeast (sort le xs)
  sort-IsLeast [] = tt
  sort-IsLeast (x ∷ xs) = insert-IsLeast x (sort le xs) (sort-IsLeast xs)

  -- What a sort puts first lies below every member.
  pub first-least :
      (xs : List A) (h : A) (rest : List A) → sort le xs ≡ h ∷ rest → All (λ z. le h z ≡ true) xs
  first-least xs h rest e =
      sort-All le (λ z. le h z ≡ true) xs (rw e (subst IsLeast e (sort-IsLeast xs)))
