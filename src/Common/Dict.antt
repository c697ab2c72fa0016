-- ===== src/Common/Dict.antt =====
-- Python's `dict` with text keys, in insertion order: `d.get(k)` and `d[k] = v`.
use mathlib.Core.Path.{◌≡◌, refl}
use mathlib.Core.List.{List, [], ◌∷◌}
use mathlib.Core.Option.{Option, none, some}
use Prim.Native.String.{String}
use native.Mathlib.Omega.{arith}
use text.Mathlib.Text.{◌==◌ as str_eq}
use text.Mathlib.TextEquality.{eq_iff}
use eyenet.Common.Tests.{if◌then◌else◌}

module _ {ℓ} {V : Type ℓ} where
  unfoldable pub find_key : String → List (String × V) → Option V
  find_key k [] = none
  find_key k ((j, v) ∷ d) = if str_eq j k then some v else find_key k d

  unfoldable pub put_key : String → V → List (String × V) → List (String × V)
  put_key k v [] = (k, v) ∷ []
  put_key k v ((j, w) ∷ d) = if str_eq j k then (j, v) ∷ d else (j, w) ∷ put_key k v d

  pub find_key-put_key :
      (k j : String) (v : V) (d : List (String × V))
      → find_key j (put_key k v d) ≡ (if str_eq k j then some v else find_key j d)
  unfolding find_key put_key
  find_key-put_key k j v [] = refl
  find_key-put_key k j v ((i, w) ∷ d) =
      ground (arith, find_key-put_key k j v d, eq_iff i k, eq_iff i j, eq_iff k j)

  -- `del d[k]`, where the key is there
  unfoldable pub drop_key : String → List (String × V) → List (String × V)
  drop_key k [] = []
  drop_key k ((j, w) ∷ d) = let rest = drop_key k d in if str_eq j k then rest else (j, w) ∷ rest

  pub find_key-drop_key :
      (k j : String) (d : List (String × V))
      → find_key j (drop_key k d) ≡ (if str_eq k j then none else find_key j d)
  unfolding find_key drop_key
  find_key-drop_key k j [] = ground arith
  find_key-drop_key k j ((i, w) ∷ d) =
      ground (arith, find_key-drop_key k j d, eq_iff i k, eq_iff i j, eq_iff k j)
