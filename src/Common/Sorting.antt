-- ===== src/Common/Sorting.antt =====
-- `sorted(…, key=…)` as insertion sort on a Boolean order, and the order of Python's texts by code
-- points.
pub mod Laws
pub mod Least
use Prim.Native.Char.{code}
use Prim.Native.Nat.{ℕ}
use Prim.Native.String.{String}
use mathlib.Core.Bool.{Bool, true, false, not}
use mathlib.Core.List.{List, [], ◌∷◌}
use text.Mathlib.Text.{◌==◌ as str_eq}
use eyenet.Common.Tests.{ltb, ◌==◌, if◌then◌else◌}
use eyenet.Common.Lists.{any}

abbrev pub codes : String → List ℕ
codes String.[] = []
codes (String.◌∷◌ c s) = code c ∷ codes s

abbrev pub codes_lt : List ℕ → List ℕ → Bool
codes_lt xs [] = false
codes_lt [] (y ∷ ys) = true
codes_lt (x ∷ xs) (y ∷ ys) =
    let rest = codes_lt xs ys in if ltb x y then true else if x == y then rest else false

-- `a < b` and `a <= b` on texts
unfoldable pub str_lt : String → String → Bool
str_lt a b = codes_lt (codes a) (codes b)

unfoldable pub str_le : String → String → Bool
unfolding str_lt
str_le a b = not (str_lt b a)

module _ {ℓ} {A : Type ℓ} (le : A → A → Bool) where
  -- Equal keys stay in their order, as Python's stable sort keeps them.
  abbrev pub insert : A → List A → List A
  insert x [] = x ∷ []
  insert x (y ∷ ys) = let rest = insert x ys in if le x y then x ∷ y ∷ ys else y ∷ rest

  abbrev pub sort : List A → List A
  sort [] = []
  sort (x ∷ xs) = insert x (sort xs)

-- `set(xs)` as the list of its members
abbrev pub dedup : List String → List String
dedup [] = []
dedup (x ∷ xs) = let rest = dedup xs in if any (str_eq x) xs then rest else x ∷ rest

-- `sorted({…})`
abbrev pub sorted_set : List String → List String
sorted_set xs = sort str_le (dedup xs)
