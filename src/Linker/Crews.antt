-- ===== src/Linker/Crews.antt =====
-- The union-find of `build_crews` (eyenet/linker/crews.py): actors are numbers, the dictionary of
-- parents is a table. The two loops of `find` run on fuel, which the result is proved not to need
-- more of than a bound; a missing key, the KeyError of the code, gives no result either.
pub mod Forest
pub mod Find
pub mod Union
pub mod Classes
use eyenet.Common.{
  ℕ, zero, suc, Bool, true, false, Option, none, some, List, [], ◌∷◌, ◌++◌, ◌==◌, if◌then◌else◌,
}
use eyenet.Storage.Table.{Table, get, update}

-- `parent.setdefault(x, x)`
unfoldable pub setdefault : ℕ → Table ℕ → Table ℕ
setdefault x parent = elim (get x parent) [ none ↦ parent ++ (x, x) ∷ [] | some q ↦ parent ]

-- the first loop of `find`, from `root`
unfoldable pub climb : ℕ → ℕ → Table ℕ → Option ℕ
climb zero root parent = none
climb (suc fuel) root parent = elim (get root parent) [
  | none ↦ none
  | some q ↦ let rest = climb fuel q parent in if q == root then some root else rest
]

-- the second loop of `find`, which points what it passes to the root
unfoldable pub compress : ℕ → (x root : ℕ) → Table ℕ → Option (Table ℕ)
compress zero x root parent = none
compress (suc fuel) x root parent = elim (get x parent) [
  | none ↦ none
  | some q ↦
      let rest = compress fuel q root (update x root parent) in
      if q == root then some parent else rest
]

-- the root of an actor, and the parents after the call
unfoldable pub find_root : ℕ → ℕ → Table ℕ → Option (ℕ × Table ℕ)
find_root fuel x parent = elim (climb fuel x (setdefault x parent)) [
  | none ↦ none
  | some root ↦ elim (compress fuel x root (setdefault x parent)) [
    | none ↦ none
    | some after ↦ some (root, after)
  ]
]

unfoldable pub union_roots : ℕ → (a b : ℕ) → Table ℕ → Option (Table ℕ)
union_roots fuel a b parent = elim (find_root fuel a parent) [
  | none ↦ none
  | some (ra, first) ↦ elim (find_root fuel b first) [
    | none ↦ none
    | some (rb, second) ↦ some (if ra == rb then second else update ra rb second)
  ]
]

-- the loop over the edges
unfoldable pub union_all : ℕ → List (ℕ × ℕ) → Table ℕ → Option (Table ℕ)
union_all fuel [] parent = some parent
union_all fuel ((a, b) ∷ edges) parent = elim (union_roots fuel a b parent) [
  | none ↦ none
  | some after ↦ union_all fuel edges after
]
